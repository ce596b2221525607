-- ===== src/Geometry.antt =====
-- src/core/geometry/PixelDetectorModel.cpp and HexagonalPixelDetectorModel.cpp: the pixel grid of a
-- detector model, with the order of pixel indices from src/objects/Pixel.cpp.
--
-- An `int` is an integer: the source's sums of indices are taken to stay in its range, since leaving
-- it is undefined there. A `size_t` or `unsigned int` that is cast to `int` wraps as it does in C++.
-- `hex_distance` works on doubles that hold integers, and these are exact.
pub mod Rectangular
pub mod Hexagonal
pub mod Sets
pub mod Distance
pub mod Neighbors
pub mod Offsets
mod Tests
use allpix_fork.Base.{
  ℕ, zero, suc, ◌+◌, ◌-◌, ◌*◌, ◌/◌, ◌%◌, ◌^◌, Bool, true, false, not, ◌&&◌, ◌||◌, List, [], ◌∷◌,
  leb, ltb, ◌==◌, if◌then◌else◌,
}
use allpix_fork.Base.Int.{ℤ, pos, negsuc, pos_part, neg_part, ◌+ℤ◌, ◌-ℤ◌, ltb_ℤ}

abbrev pub eqb_ℤ : ℤ → ℤ → Bool
eqb_ℤ a b = pos_part a + neg_part b == pos_part b + neg_part a

abbrev pub leb_ℤ : ℤ → ℤ → Bool
leb_ℤ a b = leb (pos_part a + neg_part b) (pos_part b + neg_part a)

-- `std::abs`, as a number.
abbrev pub magnitude : ℤ → ℕ
magnitude a = pos_part a + neg_part a

-- `-a`.
abbrev pub negate : ℤ → ℤ
negate (pos zero) = pos 0
negate (pos (suc n)) = negsuc n
negate (negsuc n) = pos (suc n)

-- `a / 2` on an `int`, which is cut towards zero.
abbrev pub half : ℤ → ℤ
half (pos n) = pos (n / 2)
half (negsuc n) = negate (pos ((n + 1) / 2))

-- `static_cast<int>` of an unsigned number.
abbrev pub to_int : ℕ → ℤ
to_int n = let w = n % 2 ^ 32 in if ltb w (2 ^ 31) then pos w else negsuc (2 ^ 32 - w - 1)

pub record Index : Type 0 where
  pub x : ℤ
  pub y : ℤ

unfoldable pub less : Index → Index → Bool
less lhs rhs = if eqb_ℤ lhs.x rhs.x then ltb_ℤ lhs.y rhs.y else ltb_ℤ lhs.x rhs.x

-- `std::set<Pixel::Index>::insert`, on the entries in their order.
unfoldable pub insert : Index → List Index → List Index
insert p [] = p ∷ []
insert p (q ∷ qs) = if less p q then p ∷ q ∷ qs else if less q p then q ∷ insert p qs else q ∷ qs

-- The rounds of `for(int i = lo; i <= hi; i++)`.
abbrev pub rounds : ℤ → ℤ → ℕ
rounds lo hi = if leb_ℤ lo hi then magnitude (hi -ℤ lo) + 1 else 0

-- The inner loop, over the rows of one column, and the outer one over the columns. `wanted` is the
-- test that lets an index into the set.
unfoldable pub scan_column : (Index → Bool) → ℤ → ℕ → ℤ → List Index → List Index
scan_column wanted x zero y found = found
scan_column wanted x (suc n) y found =
    scan_column wanted x n (y +ℤ pos 1)
      (let p : Index = record { x = x; y = y } in if wanted p then insert p found else found)

unfoldable pub scan_columns : (Index → Bool) → ℕ → ℤ → ℕ → ℤ → List Index → List Index
scan_columns wanted zero x n y found = found
scan_columns wanted (suc m) x n y found =
    scan_columns wanted m (x +ℤ pos 1) n y (scan_column wanted x n y found)

-- Both loops of `getNeighbors`, over the square of the given distance around an index.
unfoldable pub scan_square : (Index → Bool) → Index → ℕ → List Index
unfolding scan_columns scan_column
scan_square wanted idx distance =
    let d = to_int distance in
    scan_columns wanted (rounds (idx.x -ℤ d) (idx.x +ℤ d)) (idx.x -ℤ d)
      (rounds (idx.y -ℤ d) (idx.y +ℤ d)) (idx.y -ℤ d) []

-- `number_of_pixels_`, along x and along y.
pub record Grid : Type 0 where
  pub columns : ℕ
  pub rows : ℕ
