-- ===== src/Units.antt =====
-- src/core/utils/unit.cpp and unit.tpp: the table of units and the products of units. The
-- floating-point type `UnitType` and its operations are parameters.
pub mod Terms
pub mod Display
mod Tests
use allpix_fork.Base.{
  ℕ, ◌+◌, ltb, not, Bool, true, false, ◌&&◌, ◌||◌, List, [], ◌∷◌, ◌++◌, map, Option, none, some,
  ◌==◌, if◌then◌else◌, Str, lower, Dict, lookup, insert, contains, Result, ok, err, ◌>>=◌, ◌>>◌,
  throw_if, invalid_argument, overflow_error, unit_exists, unit_not_found, no_units,
}
use allpix_fork.Base.Int.{ℤ, pos, negsuc, pos_part, neg_part}
use allpix_fork.Text.{trim, is_empty}

-- `double`: multiplication, division, and the test against the limits of the type.
pub record Real : Type 1 where
  pub D : Type 0
  pub one : D
  pub mul : D → D → D
  pub div : D → D → D
  pub overflows : D → Bool

-- Multiplication in the place of division, and the other way round.
abbrev pub swapped : Real → Real
swapped r = record { D = r.D; one = r.one; mul = r.div; div = r.mul; overflows = r.overflows }

-- `Units::add`: the names are in lower case, and none is defined twice.
unfoldable pub add {ℓ} : {D : Type ℓ} → Dict D → Str → D → Result (Dict D)
add units str0 value =
    let str = map lower str0 in
    do throw_if (contains str units) (invalid_argument unit_exists); ok (insert str value units)

abbrev found_unit {ℓ} : {D : Type ℓ} → Option D → Result D
found_unit none = err (invalid_argument unit_not_found)
found_unit (some v) = ok v

abbrev pub is_operator : ℕ → Bool
is_operator ch = ch == b'*' || ch == b'/'

module _ (r : Real) (units : Dict r.D) where
  -- `Units::getSingle(str)`.
  unfoldable pub single : Str → Result r.D
  single str = if is_empty (trim str) then ok r.one else found_unit (lookup (map lower str) units)

  abbrev pub checked : r.D → Result r.D
  checked out = if r.overflows out then err overflow_error else ok out

  -- `getSingle(inp, str)` and `getSingleInverse(inp, str)`.
  unfoldable pub get_single : r.D → Str → Result r.D
  get_single inp str = single str >>= λ u. checked (r.mul inp u)

  unfoldable pub get_single_inverse : r.D → Str → Result r.D
  get_single_inverse inp str = single str >>= λ u. checked (r.div inp u)

  -- What `get` does with the unit that it has read, by the operator in front of it.
  abbrev pub get_unit : ℕ → r.D → Str → Result r.D
  get_unit lst ret_value unit =
      if lst == b'*'
      then get_single ret_value unit
      else if lst == b'/'
      then get_single_inverse ret_value unit
      else ok ret_value

  -- The loop of `get`: the operator before the unit, the value so far and the unit read so far.
  unfoldable pub get_loop : ℕ → r.D → Str → Str → Result r.D
  get_loop lst ret_value unit [] = get_unit lst ret_value unit
  get_loop lst ret_value unit (ch ∷ str) =
      let next = get_unit lst ret_value unit >>= λ v. get_loop ch v [] str in
      let more = get_loop lst ret_value (unit ++ (ch ∷ [])) str in
      if is_operator ch then next else more

  -- `Units::get(str)`.
  unfoldable pub get : Str → Result r.D
  unfolding get_loop
  get str = if is_empty (trim str) then ok r.one else get_loop b'*' r.one [] str

  -- `Units::get(inp, str)` and `Units::getInverse(inp, str)`.
  unfoldable pub get_scaled : r.D → Str → Result r.D
  get_scaled inp str = get str >>= λ u. checked (r.mul inp u)

  unfoldable pub get_inverse : r.D → Str → Result r.D
  get_inverse inp str = get str >>= λ u. checked (r.div inp u)

  -- `convert` divides by what `get` multiplies with.
  abbrev pub convert_unit : ℕ → r.D → Str → Result r.D
  convert_unit lst input unit =
      if lst == b'*'
      then get_single_inverse input unit
      else if lst == b'/'
      then get_single input unit
      else ok input

  unfoldable pub convert_loop : ℕ → r.D → Str → Str → Result r.D
  convert_loop lst input unit [] = convert_unit lst input unit
  convert_loop lst input unit (ch ∷ str) =
      let next = convert_unit lst input unit >>= λ v. convert_loop ch v [] str in
      let more = convert_loop lst input (unit ++ (ch ∷ [])) str in
      if is_operator ch then next else more

  -- `Units::convert(input, str)`.
  unfoldable pub convert : r.D → Str → Result r.D
  unfolding convert_loop
  convert input str = convert_loop b'*' input [] (map lower str)

-- `(best_exponent <= 0 && exponent > best_exponent) || (exponent > 0 && exponent < best_exponent)`.
abbrev pub ltℤ : ℤ → ℤ → Bool
ltℤ a b = ltb (pos_part a + neg_part b) (pos_part b + neg_part a)

abbrev pub is_positive : ℤ → Bool
is_positive a = ltℤ (pos 0) a

abbrev pub improves : ℤ → ℤ → Bool
improves best e = (not (is_positive best) && ltℤ best e) || (is_positive e && ltℤ e best)

-- `std::numeric_limits<int>::min()`.
abbrev pub int_min : ℤ
int_min = negsuc 2_147_483_647

-- The loop of `display` over the units: the best exponent and the best unit so far. `exponent` is what
-- `std::frexp` finds of the input in that unit.
unfoldable pub best_loop : (Str → Result ℤ) → ℤ → Str → List Str → Result Str
best_loop exponent best unit [] = ok unit
best_loop exponent best unit (u ∷ us) = exponent u >>= λ e.
    best_loop exponent (if improves best e then e else best) (if improves best e then u else unit)
      us

abbrev no_names : List Str → Bool
no_names [] = true
no_names (u ∷ us) = false

-- `frexp` is the exponent of a value and `print` its text.
module _ (r : Real) (units : Dict r.D) (frexp : r.D → ℤ) (print : r.D → Str) where
  unfoldable pub best_unit : r.D → List Str → Result Str
  unfolding best_loop
  best_unit input names =
      best_loop (λ u. convert r units input u >>= λ v. ok (frexp v)) int_min [] names

  unfoldable pub display : r.D → List Str → Result Str
  display input names = do
    throw_if (no_names names) (invalid_argument no_units)
    best ← best_unit input names
    v ← convert r units input best
    ok (print v ++ best)
