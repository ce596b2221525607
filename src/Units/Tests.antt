-- ===== src/Units/Tests.antt =====
-- Runs of the units over whole numbers, and their theorems at a table of three units.
use allpix_fork.Base.{
  ℕ, ◌*◌, ◌/◌, ◌≡◌, refl, true, false, [], ◌∷◌, if◌then◌else◌, All, Str, codes, equal, lower, Dict,
  ok, err, ltb, invalid_argument, unit_not_found,
}
use allpix_fork.Base.Int.{ℤ, pos}
use allpix_fork.Text.{trim}
use allpix_fork.Units.{Real, swapped, add, single, get_unit, get, convert, ltℤ, int_min}
use allpix_fork.Units.Terms.{terms, fold_terms, convert-terms}
use allpix_fork.Text.{trim_with}
use allpix_fork.Base.{
  before, contains, elem, find_first_not_of, find_last_not_of, insert, lookup, substr,
}
use allpix_fork.Units.{get_single, get_single_inverse}

abbrev whole : Real
whole = record { D = ℕ; one = 1; mul = ◌*◌; div = ◌/◌; overflows = λ x. false }

abbrev units : Dict ℕ
units = (codes "m", 1000) ∷ (codes "mm", 1) ∷ (codes "ns", 1) ∷ []

product : get whole units (codes "m*m/mm") ≡ ok 1000000
unfolding get trim trim_with find_first_not_of elem find_last_not_of substr get_single single lookup
    equal lower get_single_inverse
product = refl

converted : convert whole units 5000 (codes "m/NS") ≡ ok 5
unfolding convert lower get_single_inverse single trim trim_with find_first_not_of elem
    find_last_not_of substr lookup equal get_single
converted = refl

unknown : get whole units (codes "m*km") ≡ err (invalid_argument unit_not_found)
unfolding get trim trim_with find_first_not_of elem find_last_not_of substr get_single single lookup
    equal lower
unknown = refl

convert-terms_example :
    convert whole units 5000 (codes "m/NS")
    ≡ fold_terms (get_unit (swapped whole) units) 5000 (terms b'*' (codes "m/NS"))
convert-terms_example = convert-terms whole units 5000 (codes "m/NS")

abbrev more_units : Dict ℕ
more_units = (codes "km", 1000000) ∷ units

added : add units (codes "KM") 1000000 ≡ ok more_units
unfolding add contains equal lower insert before
added = refl

-- The exponent of a whole number up to some size.
abbrev frexp : ℕ → ℤ
frexp n = if ltb n 1 then pos 0 else if ltb n 10 then pos 1 else pos 4

abbrev in_unit : Str → ℕ
in_unit u = if equal u (codes "m") then 5 else 5000

in_both :
    All
      (λ n.
        (convert whole units 5000 n ≡ ok (in_unit n)) × (ltℤ int_min (frexp (in_unit n)) ≡ true))
      (codes "mm" ∷ codes "m" ∷ [])
unfolding convert lower get_single_inverse single trim trim_with find_first_not_of elem
    find_last_not_of substr lookup equal
in_both = ((refl, refl), ((refl, refl), tt))
