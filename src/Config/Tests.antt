-- ===== src/Config/Tests.antt =====
-- Runs of the parser of values and of a configuration, and their theorems at concrete ones.
use allpix_fork.Base.{
  ◌≡◌, refl, Bool, true, false, [], ◌∷◌, ◌++◌, arith, Str, Dict, codes, lookup, is_some, ok, err,
  find_first_not_of, find_last_not_of, elem, substr, is_space, invalid_argument, element_is_empty,
}
use allpix_fork.Base.{
  ℕ, zero, suc, ◌+◌, ◌/◌, ◌%◌, ltb, if◌then◌else◌, Option, some, is_digit, is_alpha, unit_not_found,
}
use allpix_fork.Text.{
  trim, trim_with, from_string_str, from_string_number, read_digits, split_units,
}
use allpix_fork.Config.{Configuration}
use allpix_fork.Config.Markers.{IsMarked}
use allpix_fork.Config.Value.{step, parse_value, node, cons, nil}
use allpix_fork.Config.Value.Fuel.{IsEnd, parse_value_ends}
use allpix_fork.Config.Access.{get_array, set_array, set_units}
use allpix_fork.Base.{List, Result, insert, contains}
use allpix_fork.Config.Access.RoundTrip.{Reads, get_array-set_array}
use allpix_fork.Base.{find_first_of}

matrix :
    parse_value (codes "[[a, b],[c d]]")
    ≡ ok (
        node (codes "[a, b],[c d]") (
          cons
            (node (codes "a, b") (cons (node (codes "a") nil) (cons (node (codes "b") nil) nil)))
            (cons
              (node (codes "c d") (cons (node (codes "c") nil) (cons (node (codes "d") nil) nil)))
              nil)))
unfolding parse_value trim trim_with find_first_not_of find_last_not_of elem substr is_space step
matrix = refl

spaced_comma : parse_value (codes "a , b") ≡ err (invalid_argument element_is_empty)
unfolding parse_value trim trim_with find_first_not_of find_last_not_of elem substr is_space step
spaced_comma = refl

-- The recursion ends also on brackets that do not match.
parse_value_ends_example : IsEnd (parse_value (codes "[[a,"))
parse_value_ends_example = parse_value_ends (codes "[[a,")

abbrev conf : Configuration
conf = record {
  name = codes "M";
  path = codes "f";
  config = (codes "_dir", codes "x") ∷ (codes "a", codes "1") ∷ (codes "b", codes "2") ∷ [];
  used_keys = (codes "_dir", false) ∷ (codes "a", true) ∷ (codes "b", false) ∷ [];
}

has_marker :
    (k : Str) (m : Dict Bool)
    → is_some (
        lookup k ((codes "_dir", codes "x") ∷ (codes "a", codes "1") ∷ (codes "b", codes "2") ∷ []))
      ≡ true
    → is_some (lookup k ((codes "_dir", false) ∷ (codes "a", true) ∷ (codes "b", false) ∷ m)) ≡ true
unfolding lookup
has_marker k m h = ground (arith)

conf-IsMarked : IsMarked conf
conf-IsMarked = record { marked = λ k h. has_marker k [] h }

-- `to_string` and the stream, on natural numbers.
decimal : ℕ → ℕ → Str
decimal zero n = []
decimal (suc fuel) n =
    let front = decimal fuel (n / 10) in
    let last = (b'0' + n % 10) ∷ [] in if ltb n 10 then last else front ++ last

abbrev show_nat : ℕ → Str
show_nat n = decimal 20 n

abbrev read_nat : Str → Option (ℕ × Str)
read_nat s = some (read_digits 0 s)

abbrev no_units : ℕ → Str → Result ℕ
no_units n u = err (invalid_argument unit_not_found)

abbrev nat_of : Str → Result ℕ
nat_of = from_string_number read_nat no_units

four-Reads : Reads nat_of show_nat 4
unfolding decimal from_string_number trim_with find_first_not_of elem find_last_not_of substr
    find_first_of read_digits is_digit is_alpha is_space trim split_units
four-Reads = record { item = record { nonempty = refl; plain = refl }; back = refl }

seventy-Reads : Reads nat_of show_nat 70
unfolding decimal from_string_number trim_with find_first_not_of elem find_last_not_of substr
    find_first_of read_digits is_digit is_alpha is_space trim split_units
seventy-Reads = record { item = record { nonempty = refl; plain = refl }; back = refl }

get_array-set_array_example :
    (d e : Configuration) × (set_array show_nat conf (codes "c") (4 ∷ 70 ∷ []) false ≡ ok d)
    × (get_array nat_of d (codes "c") ≡ ok (4 ∷ 70 ∷ [], e))
get_array-set_array_example =
    get_array-set_array nat_of show_nat conf (codes "c") 4 (70 ∷ []) false
      (four-Reads, (seventy-Reads, tt))

-- A value of two elements, each shown in its unit.
with_unit : Str → List Str → Result Str
with_unit element [] = ok element
with_unit element (u ∷ us) = ok (element ++ u)

units_set :
    set_units
      (λ s. s)
      from_string_str
      with_unit
      (record { name = []; path = []; config = []; used_keys = [] })
      (codes "k")
      (codes "1 2")
      (codes "mm" ∷ [])
    ≡ ok (record {
      name = [];
      path = [];
      config = (codes "k", codes "1mm,2mm") ∷ [];
      used_keys = (codes "k", false) ∷ [];
    })
unfolding set_units with_unit trim trim_with find_first_not_of find_last_not_of find_first_of elem
    substr from_string_str insert contains
units_set = refl
