-- ===== src/Base.antt =====
-- Shared notation: the libraries' names, Boolean tests, lists over native numbers, byte strings,
-- results and dictionaries.
mod Tests
mod Lists
mod Bytes
mod Results
mod Dicts
pub mod Int
pub use Tests.*
pub use Lists.*
pub use Results.*
unfoldable pub use Bytes.{
  equal, lower, is_alpha, is_digit, is_alnum, is_space, elem, find, find_first_of,
  find_first_not_of, find_last_not_of, substr,
}
pub use Bytes.{Str, codes, equal_iff, equal_refl, lower_idem, map-lower_idem, front, back}
unfoldable pub use Dicts.{before, lookup, insert, remove, contains, keys}
pub use Dicts.{Dict, is_some, lookup-insert, lookup-remove, contains-lookup}
pub use Prim.Native.Nat.{ℕ, zero, suc, ◌+◌, ◌-◌, ◌*◌, ◌/◌, ◌%◌, ◌^◌, ◌≤◌, ◌<◌, min}
pub use mathlib.Core.Path.{◌≡◌, refl, sym, ap, ◌∙◌, subst}
pub use mathlib.Core.Logic.{◌≢◌, ◌↔◌, ◌⊎◌, inl, inr}
pub use mathlib.Core.Bool.{Bool, true, false, not, ◌&&◌, ◌||◌}
pub use mathlib.Core.Option.{Option, none, some}
pub use mathlib.Core.List.{List, [], ◌∷◌, ◌++◌, map, append-nil, append_assoc}
pub use native.Mathlib.Omega.{arith}
