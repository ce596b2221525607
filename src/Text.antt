-- ===== src/Text.antt =====
-- src/core/utils/text.cpp and text.tpp: trimming, splitting and conversion of strings.
pub mod Trim
pub mod Split
pub mod Numbers
pub mod Booleans
pub mod Convert
mod Tests
use Prim.Native.Char.{Char}
use mathlib.Core.Option.{map as option_map}
use allpix_fork.Base.{
  ℕ, zero, suc, ◌+◌, ◌-◌, ◌*◌, Bool, true, false, not, ◌&&◌, ◌||◌, List, [], ◌∷◌, ◌++◌, map, Option,
  none, some, ◌==◌, ltb, if◌then◌else◌, length, take, drop, Str, codes, equal, lower, is_alpha,
  is_digit, elem, find, find_first_of, find_first_not_of, find_last_not_of, substr, front, back,
  Result, ok, err, ◌>>=◌, ◌>>◌, throw_if, invalid_argument, string_is_empty, remaining_data,
  conversion_not_possible,
}

-- The default delimiters of `trim`, " \t\n\r\v".
abbrev pub whitespace : Str
whitespace = 32 ∷ 9 ∷ 10 ∷ 13 ∷ 11 ∷ []

-- `trim(str, delims)`.
unfoldable pub trim_with : Str → Str → Str
trim_with delims str = elim (find_first_not_of delims str) [
  | none ↦ []
  | some b ↦ elim (find_last_not_of delims str) [ none ↦ [] | some e ↦ substr b (e - b + 1) str ]
]

-- `trim(str)`.
unfoldable pub trim : Str → Str
trim str = trim_with whitespace str

abbrev pub is_empty : Str → Bool
is_empty [] = true
is_empty (c ∷ s) = false

abbrev pub is_found : Option ℕ → Bool
is_found none = false
is_found (some i) = true

unfoldable pub from_string_helper : Str → Result Str
from_string_helper str0 = do
  let str = trim str0
  throw_if (is_empty str) (invalid_argument string_is_empty)
  throw_if (is_found (find_first_of whitespace str)) (invalid_argument remaining_data)
  ok str

-- The quoted branch: the text behind the opening quote `q`. The next `q` must be the last byte.
unfoldable pub quoted : ℕ → Str → Result Str
quoted q s = elim (find q s) [
  | none ↦ err (invalid_argument remaining_data)
  | some i ↦ if suc i == length s then ok (take i s) else err (invalid_argument remaining_data)
]

abbrev pub is_quote : ℕ → Bool
is_quote c = c == b'"' || c == b'\''

unfoldable pub from_trimmed : Str → Result Str
unfolding quoted from_string_helper
from_trimmed [] = from_string_helper []
from_trimmed (c ∷ s) = if is_quote c then quoted c s else from_string_helper (c ∷ s)

-- `from_string<std::string>`.
unfoldable pub from_string_str : Str → Result Str
unfolding from_trimmed trim
from_string_str str = from_trimmed (trim str)

-- `to_string` of a string: in quotation marks.
unfoldable pub to_string_str : Str → Str
to_string_str inp = b'\"' ∷ (inp ++ (b'\"' ∷ []))

-- The stream extraction of a decimal number: its digits, and what follows them.
unfoldable pub read_digits : ℕ → Str → ℕ × Str
read_digits acc [] = (acc, [])
read_digits acc (c ∷ s) =
    let rest = read_digits (acc * 10 + (c - b'0')) s in if is_digit c then rest else (acc, c ∷ s)

-- `sstream >> ret_value` without `std::boolalpha`, for a string of digits with an optional plus.
abbrev bool_of_digits : ℕ × Str → Option (Bool × Str)
bool_of_digits (v, rest) =
    if v == 0 then some (false, rest) else if v == 1 then some (true, rest) else none

abbrev starts_digit : Str → Bool
starts_digit [] = false
starts_digit (c ∷ s) = is_digit c

abbrev negative_bool : ℕ × Str → Option (Bool × Str)
negative_bool (v, rest) = if v == 0 then some (false, rest) else none

unfoldable pub read_bool_digits : Str → Option (Bool × Str)
unfolding read_digits is_digit
read_bool_digits [] = none
read_bool_digits (c ∷ s) =
    if c == b'+' && starts_digit s
    then bool_of_digits (read_digits 0 s)
    else if c == b'-' && starts_digit s
    then negative_bool (read_digits 0 s)
    else if is_digit c
    then bool_of_digits (read_digits 0 (c ∷ s))
    else none

-- Drops a prefix, if it is there.
unfoldable pub after_prefix : Str → Str → Option Str
after_prefix [] s = some s
after_prefix (p ∷ ps) [] = none
after_prefix (p ∷ ps) (c ∷ s) = let rest = after_prefix ps s in if p == c then rest else none

-- `sstream >> std::boolalpha >> ret_value`.
unfoldable pub read_bool_alpha : Str → Option (Bool × Str)
unfolding after_prefix
read_bool_alpha s = elim (after_prefix (codes "true") s) [
  | some rest ↦ some (true, rest)
  | none ↦ option_map (λ rest. (false, rest)) (after_prefix (codes "false") s)
]

-- `sstream.fail() || sstream.peek() != EOF`.
abbrev pub finished {ℓ} : {T : Type ℓ} → Option (T × Str) → Result T
finished none = err (invalid_argument conversion_not_possible)
finished (some (v, [])) = ok v
finished (some (v, c ∷ s)) = err (invalid_argument conversion_not_possible)

abbrev pub ends_alpha : Str → Bool
ends_alpha s = elim (back s) [ none ↦ false | some c ↦ is_alpha c ]

-- `from_string<bool>`.
unfoldable pub from_string_bool : Str → Result Bool
unfolding from_string_helper read_bool_alpha read_bool_digits is_alpha
from_string_bool str0 = do
  str ← from_string_helper str0
  finished (if ends_alpha str then read_bool_alpha str else read_bool_digits str)

-- Whether a byte can belong to the unit suffix of a number.
abbrev pub is_unit_byte : ℕ → Bool
is_unit_byte c = is_alpha c || (c == b'*' || c == b'/')

-- The loop from the end: the longest suffix of unit bytes, but never the first byte. The result is
-- the number's text and the units.
abbrev extend_tail : ℕ → Str × Str → Str × Str
extend_tail c ([], units) = if is_unit_byte c then ([], c ∷ units) else (c ∷ [], units)
extend_tail c (d ∷ number, units) = (c ∷ d ∷ number, units)

unfoldable pub unit_tail : Str → Str × Str
unfolding is_alpha
unit_tail [] = ([], [])
unit_tail (c ∷ s) = extend_tail c (unit_tail s)

abbrev cons_first : ℕ → Str × Str → Str × Str
cons_first c (number, units) = (c ∷ number, units)

unfoldable pub split_units : Str → Str × Str
unfolding unit_tail
split_units [] = ([], [])
split_units (c ∷ s) = cons_first c (unit_tail s)

-- `from_string<T>` for an arithmetic `T`: `read` is the stream extraction, which returns the value and
-- what it leaves, and `scale` is `Units::get`.
unfoldable pub from_string_number {ℓ} :
    {T : Type ℓ} → (Str → Option (T × Str)) → (T → Str → Result T) → Str → Result T
unfolding from_string_helper
from_string_number read scale str0 = do
  str ← from_string_helper str0
  value ← finished (read (split_units str).0)
  if is_empty (split_units str).1 then ok value else scale value (split_units str).1

-- The loop of `split`, over what lies behind `prev`. A token is converted where it is not empty.
abbrev pub push_token {ℓ} :
    {T : Type ℓ} → (Str → Result T) → Str → Result (List T) → Result (List T)
push_token conv [] rest = rest
push_token conv (c ∷ s) rest = conv (c ∷ s) >>= λ t. rest >>= λ ts. ok (t ∷ ts)

unfoldable pub split_loop {ℓ} : {T : Type ℓ} → (Str → Result T) → Str → ℕ → Str → Result (List T)
split_loop conv delims zero rest = ok []
split_loop conv delims (suc fuel) rest = elim (find_first_of delims rest) [
  | none ↦ push_token conv rest (ok [])
  | some i ↦ push_token conv (take i rest) (split_loop conv delims fuel (drop (suc i) rest))
]

-- `split<T>(str, delims)`; `conv` is `from_string<T>`. Each round drops a byte, so the length is
-- enough fuel.
unfoldable pub split {ℓ} : {T : Type ℓ} → (Str → Result T) → Str → Str → Result (List T)
unfolding split_loop
split conv str0 delims =
    let str = trim_with delims str0 in
    if is_empty str then ok [] else split_loop conv delims (suc (length str)) str

-- `transform(str, op)`.
abbrev pub transform : Str → (ℕ → ℕ) → Str
transform str op = map op str
