-- ===== src/Text/Numbers.antt =====
-- src/core/utils/text.tpp: the conversion to numbers.
use allpix_fork.Base.{
  ℕ, ◌≡◌, refl, Bool, true, not, [], ◌∷◌, ◌++◌, Option, some, arith, if◌then◌else◌, all, Str,
  Result, ok,
}
use allpix_fork.Text.{
  whitespace, unit_tail, split_units, from_string_number, is_unit_byte, is_empty,
}
use allpix_fork.Text.Trim.{IsDelims}
use allpix_fork.Text.Convert.{IsWord, helper-padded}

-- The text of a number before its units: one byte, or one that ends in no unit byte.
abbrev pub ends_number : Str → Bool
ends_number [] = true
ends_number (c ∷ []) = not (is_unit_byte c)
ends_number (c ∷ d ∷ s) = ends_number (d ∷ s)

unit_tail-units : (u : Str) → all is_unit_byte u ≡ true → unit_tail u ≡ ([], u)
unfolding unit_tail
unit_tail-units [] h = refl
unit_tail-units (c ∷ u) h = ground (arith, unit_tail-units u)

unit_tail-append :
    (n u : Str) → ends_number n ≡ true → all is_unit_byte u ≡ true → unit_tail (n ++ u) ≡ (n, u)
unfolding unit_tail
unit_tail-append [] u e h = unit_tail-units u h
unit_tail-append (c ∷ []) u e h = ground (arith, unit_tail-units u)
unit_tail-append (c ∷ d ∷ n) u e h = ground (arith, unit_tail-append (d ∷ n) u e h)

split_units-append :
    (c : ℕ) (n u : Str)
    → ends_number n ≡ true
    → all is_unit_byte u ≡ true
    → split_units (c ∷ (n ++ u)) ≡ (c ∷ n, u)
unfolding split_units
split_units-append c n u e h = rw (unit_tail-append n u e h)

-- A word of a number and a unit suffix, between any whitespace, when the stream reads the text of the
-- number in full: the value is scaled by the suffix, if there is one.
pub from_string-number {ℓ} :
    {T : Type ℓ} (read : Str → Option (T × Str)) (scale : T → Str → Result T) (pre post n u : Str)
    (c : ℕ) (v : T)
    → IsDelims whitespace pre
    → IsDelims whitespace post
    → IsWord (c ∷ (n ++ u))
    → ends_number n ≡ true
    → all is_unit_byte u ≡ true
    → read (c ∷ n) ≡ some (v, [])
    → from_string_number read scale (pre ++ ((c ∷ (n ++ u)) ++ post))
      ≡ (if is_empty u then ok v else scale v u)
unfolding from_string_number
from_string-number read scale pre post n u c v p q w e h r =
    rw (helper-padded pre (c ∷ (n ++ u)) post p w q, split_units-append c n u e h, r) refl
