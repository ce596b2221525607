-- ===== src/Base/Bytes.antt =====
-- Strings of the program as lists of bytes, with the operations of `std::string` and `<cctype>` in
-- the "C" locale that the sources use.
use Prim.Native.Char.{code}
use Prim.Native.Nat.{ℕ, suc, ◌+◌}
use Prim.Native.String.{String}
use mathlib.Core.Path.{◌≡◌, refl}
use mathlib.Core.Logic.{◌↔◌}
use mathlib.Core.Bool.{Bool, true, false, ◌&&◌, ◌||◌}
use mathlib.Core.List.{List, [], ◌∷◌, map}
use mathlib.Core.Option
use mathlib.Core.Option.{Option, none, some}
use native.Mathlib.Omega.{arith}
use allpix_fork.Base.Tests.{leb, ◌==◌, if◌then◌else◌}
use allpix_fork.Base.Lists.{take, drop}

abbrev pub Str : Type 0
Str = List ℕ

-- The code points of a literal: its bytes, as every literal below is ASCII.
abbrev pub codes : String → Str
codes String.[] = []
codes (String.◌∷◌ c s) = code c ∷ codes s

-- `operator==` on strings.
unfoldable pub equal : Str → Str → Bool
equal [] [] = true
equal (x ∷ xs) (y ∷ ys) = x == y && equal xs ys
equal _ _ = false

pub equal_iff : (a b : Str) → (equal a b ≡ true) ↔ (a ≡ b)
unfolding equal
equal_iff (x ∷ a) (y ∷ b) = ground (arith, equal_iff a b)
equal_iff _ _ = ground arith

pub equal_refl : (a : Str) → equal a a ≡ true
equal_refl a = (equal_iff a a).1 refl

abbrev within : ℕ → ℕ → ℕ → Bool
within lo hi c = leb lo c && leb c hi

-- `tolower`, `isalpha`, `isdigit`, `isalnum` and `isspace`.
unfoldable pub lower : ℕ → ℕ
lower c = if within b'A' b'Z' c then c + 32 else c

unfoldable pub is_alpha : ℕ → Bool
is_alpha c = within b'a' b'z' c || within b'A' b'Z' c

unfoldable pub is_digit : ℕ → Bool
is_digit c = within b'0' b'9' c

unfoldable pub is_alnum : ℕ → Bool
unfolding is_alpha is_digit
is_alnum c = is_alpha c || is_digit c

unfoldable pub is_space : ℕ → Bool
is_space c = within 9 13 c || c == b' '

pub lower_idem : (c : ℕ) → lower (lower c) ≡ lower c
unfolding lower
lower_idem c = ground arith

pub map-lower_idem : (s : Str) → map lower (map lower s) ≡ map lower s
map-lower_idem [] = refl
map-lower_idem (c ∷ s) = cc (lower_idem c, map-lower_idem s)

-- Whether a byte is one of a set of delimiters.
unfoldable pub elem : ℕ → Str → Bool
elem c [] = false
elem c (d ∷ ds) = c == d || elem c ds

-- `none` stands for `std::string::npos`.
unfoldable pub find_first_of : Str → Str → Option ℕ
find_first_of delims [] = none
find_first_of delims (c ∷ s) =
    let rest = find_first_of delims s in if elem c delims then some 0 else Option.map suc rest

unfoldable pub find_first_not_of : Str → Str → Option ℕ
find_first_not_of delims [] = none
find_first_not_of delims (c ∷ s) =
    let rest = find_first_not_of delims s in if elem c delims then Option.map suc rest else some 0

-- The last such position: a later one wins over the head.
unfoldable pub find_last_not_of : Str → Str → Option ℕ
find_last_not_of delims [] = none
find_last_not_of delims (c ∷ s) = elim (find_last_not_of delims s) [
  | some i ↦ some (suc i)
  | none ↦ if elem c delims then none else some 0
]

-- `str.find(c)`.
unfoldable pub find : ℕ → Str → Option ℕ
find q [] = none
find q (c ∷ s) = let rest = find q s in if c == q then some 0 else Option.map suc rest

-- `substr(pos, len)` at a position that is not beyond the end.
unfoldable pub substr : ℕ → ℕ → Str → Str
substr pos len s = take len (drop pos s)

abbrev pub front : Str → Option ℕ
front [] = none
front (c ∷ s) = some c

abbrev pub back : Str → Option ℕ
back [] = none
back (c ∷ []) = some c
back (c ∷ d ∷ s) = back (d ∷ s)
