-- ===== src/Text/Tests.antt =====
-- Runs of the text functions, and their theorems at concrete texts.
use allpix_fork.Base.{
  ℕ, ◌≡◌, refl, true, false, [], ◌∷◌, ◌++◌, Option, some, Str, codes, elem, find, find_first_of,
  find_first_not_of, find_last_not_of, substr, Result, ok, err, invalid_argument, string_is_empty,
  remaining_data, conversion_not_possible,
}
use allpix_fork.Text.{
  whitespace, trim_with, trim, from_string_str, to_string_str, from_string_bool, split, read_digits,
}
use allpix_fork.Text.Convert.{IsWord, from_string-to_string}

trim_test : trim (codes " \t a b \n") ≡ codes "a b"
unfolding trim trim_with find_first_not_of find_last_not_of substr elem
trim_test = refl

split_test :
    split from_string_str (codes ",a, 'b c',d ,") (codes ",")
    ≡ ok (codes "a" ∷ codes "b c" ∷ codes "d" ∷ [])
unfolding split from_string_str trim trim_with find_first_of find_first_not_of find_last_not_of
    substr elem find
split_test = refl

errors :
    (from_string_str (codes "  ") ≡ err (invalid_argument string_is_empty))
    × (from_string_str (codes "a b") ≡ err (invalid_argument remaining_data))
    × (from_string_str (codes "'a") ≡ err (invalid_argument remaining_data))
    × (from_string_bool (codes "2") ≡ err (invalid_argument conversion_not_possible))
    × (from_string_bool (codes "True") ≡ err (invalid_argument conversion_not_possible))
unfolding from_string_str from_string_bool trim trim_with find_first_of find_first_not_of
    find_last_not_of substr elem find
errors = (refl, refl, refl, refl, refl)

bools :
    (from_string_bool (codes " 1 ") ≡ ok true)
    × (from_string_bool (codes "false") ≡ ok false)
    × (from_string_bool (codes "-0") ≡ ok false)
unfolding from_string_bool trim trim_with find_first_of find_first_not_of find_last_not_of substr
    elem
bools = (refl, refl, refl)

abbrev pad : Str
pad = codes " \t"

pad-IsDelims : (elem 32 whitespace ≡ true) × (elem 9 whitespace ≡ true)
unfolding elem
pad-IsDelims = (refl, refl)

ten_mm-IsWord : IsWord (codes "10mm")
unfolding find_first_of elem
ten_mm-IsWord = record { nonempty = refl; no_space = refl }

abbrev read_nat : Str → Option (ℕ × Str)
read_nat s = some (read_digits 0 s)

abbrev scale_len : ℕ → Str → Result ℕ
scale_len n u = ok n

from_string-to_string_example :
    from_string_str (codes " " ++ (to_string_str (codes "a 'b'") ++ [])) ≡ ok (codes "a 'b'")
unfolding elem find
from_string-to_string_example = from_string-to_string (codes " ") [] (codes "a 'b'") refl refl refl
