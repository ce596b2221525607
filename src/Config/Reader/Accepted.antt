-- ===== src/Config/Reader/Accepted.antt =====
-- src/core/config/ConfigReader.cpp: what `parseKeyValue` accepts.
use allpix_fork.Base.{
  ℕ, suc, ◌≡◌, ◌∙◌, Bool, true, false, not, [], ◌∷◌, inl, inr, arith, none, Option-cases, all, Str,
  elem, drop, find, Result, ok, ◌>>◌, throw_if, Error, subst,
}
use allpix_fork.Text.{trim, is_empty, whitespace}
use allpix_fork.Text.Trim.{IsTrimmed, starts_kept, trim-IsTrimmed, trim-is_empty}
use allpix_fork.Config.Reader.Line.{cut_comment, is_key_byte, split_at, parse_key_value}

cut_comment-front :
    (s : Str)
    → starts_kept whitespace s ≡ true
    → is_empty (cut_comment none s) ≡ false
    → all (λ c. elem c whitespace) (cut_comment none s) ≡ false
unfolding cut_comment
cut_comment-front [] h n = cc
cut_comment-front (c ∷ s) h n = ground arith

abbrev pair_ok : Str → Str → Result (Str × Str)
pair_ok k v = ok (k, v)

guards :
    (a b : Bool) (e f : Error) (key value k v : Str)
    → (throw_if (not a) e >> throw_if b f >> pair_ok key value) ≡ pair_ok k v
    → (a ≡ true) × (b ≡ false) × (key ≡ k) × (value ≡ v)
guards true false e f key value k v h = ground arith
guards true true e f key value k v h = cc
guards false b e f key value k v h = cc

-- What a cut value keeps when it is trimmed.
IsTrimmed-value :
    (s : Str)
    → starts_kept whitespace s ≡ true
    → is_empty (cut_comment none s) ≡ false
    → (is_empty (trim (cut_comment none s)) ≡ false)
      × IsTrimmed whitespace (trim (cut_comment none s))
unfolding trim
IsTrimmed-value s h n = (
  trim-is_empty whitespace (cut_comment none s) ∙ cut_comment-front s h n,
  trim-IsTrimmed whitespace (cut_comment none s),
)

trim_starts : (s : Str) → starts_kept whitespace (trim s) ≡ true
unfolding trim
trim_starts s = (trim-IsTrimmed whitespace s).starts

split_at-ok :
    (line k v : Str) (pos : ℕ)
    → split_at line pos ≡ ok (k, v)
    → (all is_key_byte k ≡ true) × (is_empty v ≡ false) × IsTrimmed whitespace v
split_at-ok line k v pos h =
    let (valid, nonempty, key, value) = guards _ _ _ _ _ _ k v h in
    let t =
      IsTrimmed-value (trim (drop (suc pos) line)) (trim_starts (drop (suc pos) line)) nonempty in
    (
      subst (λ x. all is_key_byte x ≡ true) key valid,
      subst (λ x. is_empty x ≡ false) value t.0,
      subst (IsTrimmed whitespace) value t.1,
    )

-- A pair that is accepted has a key of letters, digits, `_`, `.` and `:`, and a value that is not empty
-- and has no whitespace around it.
pub parse_key_value-ok :
    (line k v : Str)
    → parse_key_value line ≡ ok (k, v)
    → (all is_key_byte k ≡ true) × (is_empty v ≡ false) × IsTrimmed whitespace v
unfolding parse_key_value
parse_key_value-ok line k v h = elim (Option-cases (find b'=' (trim line))) [
  | inl e ↦ absurd (ground arith)
  | inr (pos, e) ↦ split_at-ok (trim line) k v pos (ground arith)
]
