-- ===== src/Geometry/Rectangular.antt =====
-- src/core/geometry/PixelDetectorModel.cpp: the grid of rectangular pixels.
use allpix_fork.Base.{ℕ, Bool, not, ◌&&◌, ◌||◌, List, leb}
use allpix_fork.Base.Int.{pos, ◌-ℤ◌, ltb_ℤ}
use allpix_fork.Geometry.{Index, Grid, leb_ℤ, magnitude, to_int, scan_square}

unfoldable pub is_within_matrix : Grid → Index → Bool
is_within_matrix grid p = not (
    ltb_ℤ p.x (pos 0)
    || leb_ℤ (to_int grid.columns) p.x
    || ltb_ℤ p.y (pos 0)
    || leb_ℤ (to_int grid.rows) p.y)

unfoldable pub are_neighbors : Index → Index → ℕ → Bool
are_neighbors seed entrant distance =
    leb (magnitude (seed.x -ℤ entrant.x)) distance && leb (magnitude (seed.y -ℤ entrant.y)) distance

unfoldable pub get_neighbors : Grid → Index → ℕ → List Index
unfolding is_within_matrix scan_square
get_neighbors grid idx distance = scan_square (is_within_matrix grid) idx distance
