-- ===== src/Base/Results.antt =====
-- Exceptions as values. A reason stands for the text that `what()` returns. `undefined_behaviour` stands
-- for undefined behaviour, and `out_of_fuel` for a recursion of the model that was cut off.
use Prim.Native.Nat.{ℕ}
use mathlib.Core.Path.{◌≡◌, refl}
use mathlib.Core.Logic.{◌⊎◌, inl, inr}
use mathlib.Core.Bool.{Bool, true, false}
use mathlib.Core.List.{List, [], ◌∷◌}
use allpix_fork.Base.Bytes.{Str}

pub data Reason : Type 0 where
  string_is_empty remaining_data conversion_not_possible : Reason
  element_is_empty quotes_not_balanced invalid_start_bracket brackets_not_matched : Reason
  brackets_not_balanced invalid_end_bracket matrix_dimensions : Reason
  key_not_valid value_is_empty missing_equality_sign : Reason
  no_keys unit_exists unit_not_found no_units path_not_found : Reason
  no_text_header vertex_count face_count element_count block_nesting : Reason
  vertex_index edge_index face_index element_index element_type : Reason
  potential_count field_count point_count observable_dimension : Reason

pub data Error : Type 0 where
  invalid_argument runtime_error : Reason → Error
  out_of_range overflow_error undefined_behaviour out_of_fuel : Error
  missing_key : Str → Str → Error
  invalid_key : Str → Str → Str → Error
  invalid_value : Str → Str → Str → Error
  key_value_parse_error : Str → Reason → Error
  config_parse_error : Str → ℕ → Error
  config_file_unavailable : Str → Error
  identifier_already_added identifier_not_found filesystem_error geometry_closed : Error
  ambiguous_instantiation detector_name detector_exists invalid_detector invalid_model : Str → Error
  unexpected_message message_not_found : Str → Error

pub data Result {ℓ} (A : Type ℓ) : Type ℓ where
  ok : A → Result A
  err : Error → Result A

-- `if(test) throw e;`
abbrev pub throw_if : Bool → Error → Result (Unit {0})
throw_if true thrown = err thrown
throw_if false thrown = ok tt

-- What follows runs only where nothing has been thrown.
infixl 5 ◌>>=◌ ◌>>◌
abbrev pub ◌>>=◌ {ℓ κ} : {X : Type ℓ} {Y : Type κ} → Result X → (X → Result Y) → Result Y
err thrown >>= next = err thrown
ok value >>= next = next value

abbrev pub ◌>>◌ {ℓ} : {Y : Type ℓ} → Result (Unit {0}) → Result Y → Result Y
err thrown >> next = err thrown
ok done >> next = next

-- `try { m } catch(E& e) { f e }`: the handler decides which errors it takes.
abbrev pub catch {ℓ} : {A : Type ℓ} → Result A → (Error → Result A) → Result A
catch (ok a) f = ok a
catch (err e) f = f e

-- A loop that converts every entry and stops at the first error.
abbrev pub map_result {ℓ κ} : {A : Type ℓ} {B : Type κ} → (A → Result B) → List A → Result (List B)
map_result f [] = ok []
map_result f (x ∷ xs) = f x >>= λ y. map_result f xs >>= λ ys. ok (y ∷ ys)

-- The two parts of a sequence that has not thrown.
pub bind-eq-ok {ℓ κ} :
    {X : Type ℓ} {Y : Type κ} (first : Result X) (next : X → Result Y) {y : Y}
    → (first >>= next) ≡ ok y
    → (x : X) × (first ≡ ok x) × (next x ≡ ok y)
bind-eq-ok (err thrown) next e = cc
bind-eq-ok (ok value) next e = (value, refl, e)

pub Result-cases {ℓ} :
    {A : Type ℓ} (m : Result A) → ((a : A) × (m ≡ ok a)) ⊎ ((e : Error) × (m ≡ err e))
Result-cases (ok a) = inl (a, refl)
Result-cases (err e) = inr (e, refl)
