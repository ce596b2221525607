-- ===== src/Geometry/Hexagonal.antt =====
-- src/core/geometry/HexagonalPixelDetectorModel.cpp: the grid of hexagonal pixels, in axial coordinates.
use allpix_fork.Base.{ℕ, ◌+◌, ◌/◌, Bool, not, ◌&&◌, ◌||◌, List, leb}
use allpix_fork.Base.Int.{ℤ, pos, ◌+ℤ◌, ◌-ℤ◌, ltb_ℤ}
use allpix_fork.Geometry.{Index, Grid, leb_ℤ, magnitude, half, to_int, scan_square}

-- The two pixel types that the constructor lets through.
pub data Orientation : Type 0 where
  hexagon_pointy hexagon_flat : Orientation

-- `a` is the index along the rows or columns that are shifted against each other, `b` the other one.
abbrev pub within_rhombus : ℕ → ℕ → ℤ → ℤ → Bool
within_rhombus na nb a b = not (
    ltb_ℤ a (pos 0)
    || leb_ℤ (to_int na) a
    || ltb_ℤ b (pos 0 -ℤ half a)
    || leb_ℤ (to_int nb -ℤ half a) b)

unfoldable pub is_within_matrix : Orientation → Grid → Index → Bool
is_within_matrix hexagon_pointy grid p = within_rhombus grid.rows grid.columns p.y p.x
is_within_matrix hexagon_flat grid p = within_rhombus grid.columns grid.rows p.x p.y

unfoldable pub hex_distance : Index → Index → ℕ
hex_distance p q =
    (magnitude (p.x -ℤ q.x)
      + magnitude (p.y -ℤ q.y)
      + magnitude (pos 0 -ℤ p.x -ℤ p.y +ℤ q.x +ℤ q.y))
    / 2

unfoldable pub are_neighbors : Index → Index → ℕ → Bool
unfolding hex_distance
are_neighbors seed entrant distance = leb (hex_distance seed entrant) distance

unfoldable pub get_neighbors : Orientation → Grid → Index → ℕ → List Index
unfolding hex_distance is_within_matrix scan_square
get_neighbors orientation grid idx distance =
    scan_square (λ p. leb (hex_distance idx p) distance && is_within_matrix orientation grid p) idx
      distance
