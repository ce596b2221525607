-- ===== src/Geometry/Offsets.antt =====
-- src/core/geometry/HexagonalPixelDetectorModel.cpp: the axial indices of the pixel matrix.
use allpix_fork.Base.{ℕ, ◌+◌, ◌-◌, ◌/◌, ◌^◌, ◌<◌, ◌≡◌, ◌↔◌, refl, true, arith}
use allpix_fork.Base.Int.{ℤ, pos, negsuc, ◌-ℤ◌}
use allpix_fork.Geometry.{Index, Grid}
use allpix_fork.Geometry.Sets.{to_int-small}
use allpix_fork.Geometry.Hexagonal.{
  Orientation, hexagon_pointy, hexagon_flat, within_rhombus, is_within_matrix,
}

-- The axial index of the pixel in a column and row of the matrix, where every second line is shifted
-- by half a pixel.
abbrev pub from_offset : Orientation → ℕ → ℕ → Index
from_offset hexagon_pointy col row = record { x = pos col -ℤ pos (row / 2); y = pos row }
from_offset hexagon_flat col row = record { x = pos col; y = pos row -ℤ pos (col / 2) }

abbrev Shifted : ℕ → ℕ → ℤ → ℤ → Type 0
Shifted na nb a b =
    (i : ℕ) × (j : ℕ) × (i < na) × (j < nb) × (a ≡ pos i) × (b ≡ pos j -ℤ pos (i / 2))

within_rhombus-Shifted :
    (na nb : ℕ) (a b : ℤ)
    → na < 2 ^ 31
    → nb < 2 ^ 31
    → within_rhombus na nb a b ≡ true
    → Shifted na nb a b
unfolding ◌-ℤ◌
within_rhombus-Shifted na nb (pos i) (pos b) ha hb h =
    let na_int = to_int-small na ha in
    let nb_int = to_int-small nb hb in
    (i, b + i / 2, ground arith, ground arith, refl, ground arith)
within_rhombus-Shifted na nb (pos i) (negsuc b) ha hb h =
    let na_int = to_int-small na ha in
    let nb_int = to_int-small nb hb in
    (i, i / 2 - b - 1, ground arith, ground arith, refl, ground arith)
within_rhombus-Shifted na nb (negsuc i) b ha hb h = absurd (ground arith)

Shifted-within_rhombus :
    (na nb i j : ℕ)
    → na < 2 ^ 31
    → nb < 2 ^ 31
    → i < na
    → j < nb
    → within_rhombus na nb (pos i) (pos j -ℤ pos (i / 2)) ≡ true
unfolding ◌-ℤ◌
Shifted-within_rhombus na nb i j ha hb hi hj = ground (arith, to_int-small na, to_int-small nb)

-- Where both numbers of pixels fit an `int`, the indices that `isWithinMatrix` of hexagonal pixels lets
-- through are those that the columns and rows of the grid have in axial coordinates, in either
-- orientation.
pub is_within_matrix_iff :
    (orientation : Orientation) (grid : Grid) (p : Index)
    → grid.columns < 2 ^ 31
    → grid.rows < 2 ^ 31
    → (is_within_matrix orientation grid p ≡ true) ↔ (
        (col : ℕ) × (row : ℕ) × (col < grid.columns)
        × (row < grid.rows)
        × (p ≡ from_offset orientation col row))
unfolding is_within_matrix
is_within_matrix_iff hexagon_pointy grid p hc hr = (
  λ h.
      let (row, col, hrow, hcol, y, x) =
        within_rhombus-Shifted grid.rows grid.columns p.y p.x hr hc h in
      (col, row, hcol, hrow, cc (x, y)),
  λ (col, row, hcol, hrow, e). rw e (Shifted-within_rhombus _ _ row col hr hc hrow hcol),
)
is_within_matrix_iff hexagon_flat grid p hc hr = (
  λ h.
      let (col, row, hcol, hrow, x, y) =
        within_rhombus-Shifted grid.columns grid.rows p.x p.y hc hr h in
      (col, row, hcol, hrow, cc (x, y)),
  λ (col, row, hcol, hrow, e). rw e (Shifted-within_rhombus _ _ col row hc hr hcol hrow),
)

-- No two cells of the grid have the same axial index.
pub from_offset_inj :
    (orientation : Orientation) (col row col' row' : ℕ)
    → from_offset orientation col row ≡ from_offset orientation col' row'
    → (col ≡ col') × (row ≡ row')
unfolding ◌-ℤ◌
from_offset_inj hexagon_pointy col row col' row' e = ground arith
from_offset_inj hexagon_flat col row col' row' e = ground arith
