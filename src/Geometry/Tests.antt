-- ===== src/Geometry/Tests.antt =====
-- src/core/geometry/*DetectorModel.cpp: tests, and the theorems at concrete inputs.
use allpix_fork.Base.{ℕ, ◌+◌, ◌<◌, ◌≤◌, ◌≡◌, ◌↔◌, refl, true, false, ◌&&◌, [], ◌∷◌, arith}
use allpix_fork.Base.Int.{pos, negsuc, ◌-ℤ◌, ◌+ℤ◌}
use allpix_fork.Geometry.{Index, Grid, less, insert}
use allpix_fork.Geometry.Sets.{contains}
use allpix_fork.Geometry.Rectangular
use allpix_fork.Geometry.Hexagonal
use allpix_fork.Geometry.Hexagonal.{hexagon_pointy, hexagon_flat, is_within_matrix, hex_distance}
use allpix_fork.Geometry.Distance.{hex_distance-metric}
use allpix_fork.Geometry.Neighbors.{
  contains-get_neighbors_rectangular, contains-get_neighbors_hexagonal,
}
use allpix_fork.Geometry.Offsets.{is_within_matrix_iff, from_offset}

abbrev at : ℕ → ℕ → Index
at i j = record { x = pos i; y = pos j }

abbrev small : Grid
small = record { columns = 3; rows = 4 }

corner : Rectangular.get_neighbors small (at 0 0) 1 ≡ at 0 0 ∷ at 0 1 ∷ at 1 0 ∷ at 1 1 ∷ []
unfolding Rectangular.get_neighbors ◌-ℤ◌ ◌+ℤ◌ less insert
corner = refl

contains-get_neighbors_rectangular_example :
    contains (at 2 1) (Rectangular.get_neighbors small (at 1 1) 1)
    ≡ (Rectangular.are_neighbors (at 1 1) (at 2 1) 1 && Rectangular.is_within_matrix small (at 2 1))
contains-get_neighbors_rectangular_example =
    contains-get_neighbors_rectangular small (at 1 1) (at 2 1) 1 (omega arith)

-- The second row of a pointy grid starts at axial column 0, the third at -1.
pointy_rows : is_within_matrix hexagon_pointy small (record { x = negsuc 0; y = pos 2 }) ≡ true
unfolding is_within_matrix ◌-ℤ◌
pointy_rows = refl

flat_rows : is_within_matrix hexagon_flat small (record { x = negsuc 0; y = pos 2 }) ≡ false
unfolding is_within_matrix
flat_rows = refl

far_hexagon : hex_distance (at 0 0) (record { x = pos 2; y = negsuc 0 }) ≡ 2
unfolding hex_distance ◌-ℤ◌ ◌+ℤ◌
far_hexagon = refl

contains-get_neighbors_hexagonal_example :
    contains (at 2 1) (Hexagonal.get_neighbors hexagon_flat small (at 1 1) 1) ≡ (
      Hexagonal.are_neighbors (at 1 1) (at 2 1) 1
      && Hexagonal.is_within_matrix hexagon_flat small (at 2 1))
contains-get_neighbors_hexagonal_example =
    contains-get_neighbors_hexagonal hexagon_flat small (at 1 1) (at 2 1) 1 (omega arith)

hex_distance-metric_example :
    ((hex_distance (at 0 0) (at 2 1) ≡ 0) ↔ (at 0 0 ≡ at 2 1))
    × (hex_distance (at 2 1) (at 0 0) ≡ hex_distance (at 0 0) (at 2 1))
    × (hex_distance (at 0 0) (at 1 3)
        ≤ hex_distance (at 0 0) (at 2 1) + hex_distance (at 2 1) (at 1 3))
hex_distance-metric_example = hex_distance-metric (at 0 0) (at 2 1) (at 1 3)

is_within_matrix_iff_example : (is_within_matrix hexagon_pointy small (at 1 3) ≡ true) ↔ (
    (col : ℕ) × (row : ℕ) × (col < 3) × (row < 4) × (at 1 3 ≡ from_offset hexagon_pointy col row))
is_within_matrix_iff_example =
    is_within_matrix_iff hexagon_pointy small (at 1 3) (omega arith) (omega arith)
