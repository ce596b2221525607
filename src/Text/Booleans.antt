-- ===== src/Text/Booleans.antt =====
-- src/core/utils/text.tpp: the conversion to booleans.
use allpix_fork.Base.{
  ◌≡◌, refl, ◌∙◌, Bool, true, false, [], ◌∷◌, ◌++◌, inl, inr, Option, none, some, arith, ==_iff,
  if◌then◌else◌, Option-cases, Str, elem, codes, find_first_of, ok, bind-eq-ok, ◌↔◌,
}
use allpix_fork.Text.{
  trim, from_string_helper, from_string_bool, read_bool_alpha, after_prefix, finished, ends_alpha,
  read_bool_digits,
}
use allpix_fork.Text.Convert.{IsWord, helper_of_trimmed}

after_prefix-some : (p s rest : Str) → after_prefix p s ≡ some rest → s ≡ p ++ rest
unfolding after_prefix
after_prefix-some [] s rest h = ground arith
after_prefix-some (x ∷ p) [] rest h = cc
after_prefix-some (x ∷ p) (c ∷ s) rest h = ground (arith, after_prefix-some p s rest, ==_iff x c)

read_bool_alpha-all :
    (s : Str) (b : Bool)
    → read_bool_alpha s ≡ some (b, [])
    → s ≡ (if b then codes "true" else codes "false")
unfolding read_bool_alpha
read_bool_alpha-all s b h = elim (Option-cases (after_prefix (codes "true") s)) [
  | inr (r, e) ↦ ground (arith, after_prefix-some (codes "true") s r)
  | inl e ↦ elim (Option-cases (after_prefix (codes "false") s)) [
    | inl d ↦ ground arith
    | inr (r, d) ↦ ground (arith, after_prefix-some (codes "false") s r)
  ]
]

helper-ok : (s a : Str) → from_string_helper s ≡ ok a → trim s ≡ a
unfolding from_string_helper
helper-ok s a h = ground arith

finished-ok {ℓ} : {T : Type ℓ} (r : Option (T × Str)) (v : T) → finished r ≡ ok v → r ≡ some (v, [])
finished-ok none v h = cc
finished-ok (some (w, [])) v h = ground arith
finished-ok (some (w, c ∷ s)) v h = cc

bool-words : (b : Bool) → IsWord (if b then codes "true" else codes "false")
unfolding find_first_of elem
bool-words true = record { nonempty = refl; no_space = refl }
bool-words false = record { nonempty = refl; no_space = refl }

ok_bool :
    (s : Str) (b : Bool)
    → trim s ≡ (if b then codes "true" else codes "false")
    → from_string_bool s ≡ ok b
unfolding from_string_bool after_prefix
ok_bool s true h = rw (helper_of_trimmed s _ h (bool-words true)) refl
ok_bool s false h = rw (helper_of_trimmed s _ h (bool-words false)) refl

bool_ok :
    (s : Str) (b : Bool)
    → ends_alpha (trim s) ≡ true
    → from_string_bool s ≡ ok b
    → trim s ≡ (if b then codes "true" else codes "false")
bool_ok s b a h =
    let (t, e, f) =
      bind-eq-ok (from_string_helper s)
        (λ t. finished (if ends_alpha t then read_bool_alpha t else read_bool_digits t)) {y = b}
        (unfold from_string_bool in h) in
    let same = helper-ok s t e in
    same ∙ read_bool_alpha-all t b (finished-ok _ b (rw (rw same at a) at f))

-- A text whose last byte without whitespace is a letter converts to a boolean exactly if it is "true" or
-- "false" between whitespace.
pub from_string_bool_iff :
    (s : Str) (b : Bool)
    → ends_alpha (trim s) ≡ true
    → (from_string_bool s ≡ ok b) ↔ (trim s ≡ (if b then codes "true" else codes "false"))
from_string_bool_iff s b a = (bool_ok s b a, ok_bool s b)
