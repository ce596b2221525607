-- ===== src/Text/Convert.antt =====
-- The conversions of `from_string` on padded texts.
use allpix_fork.Base.{
  ℕ, ◌≡◌, refl, Bool, true, false, [], ◌∷◌, ◌++◌, none, some, arith, ==_iff, length, Str, elem,
  find, find_first_of, ok, take-length-append, length-append,
}
use allpix_fork.Text.{
  whitespace, trim, is_quote, quoted, from_string_helper, from_string_str, to_string_str, is_empty,
}
use allpix_fork.Text.Trim.{IsDelims, IsTrimmed, starts_kept, ends_kept, trim-padded, trim_trimmed}

ends_kept-concat : (ds s : Str) (c : ℕ) → elem c ds ≡ false → ends_kept ds (s ++ (c ∷ [])) ≡ true
ends_kept-concat ds [] c h = rw h
ends_kept-concat ds (d ∷ []) c h = rw h
ends_kept-concat ds (d ∷ e ∷ s) c h = ends_kept-concat ds (e ∷ s) c h

quote-kept : (q : ℕ) → is_quote q ≡ true → elem q whitespace ≡ false
unfolding elem
quote-kept q h = ground arith

find-concat : (q : ℕ) (s : Str) → find q s ≡ none → find q (s ++ (q ∷ [])) ≡ some (length s)
unfolding find
find-concat q [] h = ground (arith, ==_iff q q)
find-concat q (c ∷ s) h = ground (arith, find-concat q s)

quoted-closed : (q : ℕ) (s : Str) → find q s ≡ none → quoted q (s ++ (q ∷ [])) ≡ ok s
unfolding quoted
quoted-closed q s h =
    rw (find-concat q s h, quoted)
      (ground (arith, length-append s (q ∷ []), take-length-append s (q ∷ [])))

-- A text in quotation marks of one kind, which it does not hold itself, between any whitespace, converts
-- to what stands inside the marks.
pub from_string-quoted :
    (pre post s : Str) (q : ℕ)
    → IsDelims whitespace pre
    → IsDelims whitespace post
    → is_quote q ≡ true
    → find q s ≡ none
    → from_string_str (pre ++ ((q ∷ (s ++ (q ∷ []))) ++ post)) ≡ ok s
unfolding from_string_str
from_string-quoted pre post s q p r h f =
    rw
      (trim-padded whitespace pre (q ∷ (s ++ (q ∷ []))) post p
        (record {
          starts = rw (quote-kept q h);
          ends = ends_kept-concat whitespace (q ∷ s) q (quote-kept q h);
        })
        r)
      (rw h (quoted-closed q s f))

-- A single word: what `from_string_helper` lets through.
pub record IsWord (s : Str) : Type 0 where
  pub nonempty : is_empty s ≡ false
  pub no_space : find_first_of whitespace s ≡ none

find_first_of-none-elem :
    (ds : Str) (c : ℕ) (s : Str)
    → find_first_of ds (c ∷ s) ≡ none
    → (elem c ds ≡ false) × (find_first_of ds s ≡ none)
unfolding find_first_of
find_first_of-none-elem ds c s h = ground arith

no_space-ends : (ds s : Str) → find_first_of ds s ≡ none → ends_kept ds s ≡ true
no_space-ends ds [] h = refl
no_space-ends ds (c ∷ []) h = rw (find_first_of-none-elem ds c [] h).0
no_space-ends ds (c ∷ d ∷ s) h = no_space-ends ds (d ∷ s) (find_first_of-none-elem ds c (d ∷ s) h).1

no_space-starts : (ds s : Str) → find_first_of ds s ≡ none → starts_kept ds s ≡ true
no_space-starts ds [] h = refl
no_space-starts ds (c ∷ s) h = rw (find_first_of-none-elem ds c s h).0

pub IsWord-IsTrimmed : {s : Str} → IsWord s → IsTrimmed whitespace s
IsWord-IsTrimmed {s} w = record {
  starts = no_space-starts whitespace s w.no_space;
  ends = no_space-ends whitespace s w.no_space;
}

pub helper_of_trimmed : (str s : Str) → trim str ≡ s → IsWord s → from_string_helper str ≡ ok s
unfolding from_string_helper
helper_of_trimmed str s e w = rw (e, w.nonempty, w.no_space)

pub helper-padded :
    (pre s post : Str)
    → IsDelims whitespace pre
    → IsWord s
    → IsDelims whitespace post
    → from_string_helper (pre ++ (s ++ post)) ≡ ok s
helper-padded pre s post p w r =
    helper_of_trimmed _ s
      (unfold trim in trim-padded whitespace pre s post p (IsWord-IsTrimmed w) r) w

helper_word : (s : Str) → IsWord s → from_string_helper s ≡ ok s
helper_word s w =
    helper_of_trimmed s s (unfold trim in trim_trimmed whitespace s (IsWord-IsTrimmed w)) w

abbrev pub starts_quote : Str → Bool
starts_quote [] = false
starts_quote (c ∷ s) = is_quote c

-- A word that starts with no quotation mark converts to itself, between any whitespace.
pub from_string-word :
    (pre s post : Str)
    → IsDelims whitespace pre
    → IsWord s
    → IsDelims whitespace post
    → starts_quote s ≡ false
    → from_string_str (pre ++ (s ++ post)) ≡ ok s
unfolding from_string_str
from_string-word pre [] post p w r h = cc (w.nonempty)
from_string-word pre (c ∷ s) post p w r h =
    rw (trim-padded whitespace pre (c ∷ s) post p (IsWord-IsTrimmed w) r)
      (rw h (helper_word (c ∷ s) w))

-- A string without double quotation marks is read back from its text, between any whitespace.
pub from_string-to_string :
    (pre post s : Str)
    → IsDelims whitespace pre
    → IsDelims whitespace post
    → find b'"' s ≡ none
    → from_string_str (pre ++ (to_string_str s ++ post)) ≡ ok s
unfolding to_string_str
from_string-to_string pre post s p q f = from_string-quoted pre post s b'"' p q refl f
