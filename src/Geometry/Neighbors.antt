-- ===== src/Geometry/Neighbors.antt =====
-- src/core/geometry/*DetectorModel.cpp: `getNeighbors` collects what `areNeighbors` and `isWithinMatrix`
-- describe.
use allpix_fork.Base.{ℕ, ◌^◌, ◌<◌, ◌≤◌, ◌≡◌, ◌&&◌, arith, leb}
use allpix_fork.Base.Int.{◌-ℤ◌}
use allpix_fork.Geometry.{Index, Grid, magnitude}
use allpix_fork.Geometry.Sets.{contains, contains-scan_square}
use allpix_fork.Geometry.Distance.{hex_distance-length, hex_length-bounds}
use allpix_fork.Geometry.Rectangular
use allpix_fork.Geometry.Hexagonal
use allpix_fork.Geometry.Hexagonal.{Orientation, hex_distance}

-- For a distance that fits an `int`, the set that `getNeighbors` of rectangular pixels returns holds
-- an index exactly if the index lies in the matrix and `areNeighbors` takes it for a neighbour of
-- the given one.
pub contains-get_neighbors_rectangular :
    (grid : Grid) (idx p : Index) (distance : ℕ)
    → distance < 2 ^ 31
    → contains p (Rectangular.get_neighbors grid idx distance)
      ≡ (Rectangular.are_neighbors idx p distance && Rectangular.is_within_matrix grid p)
unfolding Rectangular.get_neighbors Rectangular.are_neighbors
contains-get_neighbors_rectangular grid idx p distance small =
    ground (arith, contains-scan_square (Rectangular.is_within_matrix grid) p idx distance small)

hex_distance-bounds :
    (p q : Index)
    → (magnitude (p.x -ℤ q.x) ≤ hex_distance p q) × (magnitude (p.y -ℤ q.y) ≤ hex_distance p q)
hex_distance-bounds p q = rw (hex_distance-length p q) (hex_length-bounds (p.x -ℤ q.x) (p.y -ℤ q.y))

-- For a distance that fits an `int`, the set that `getNeighbors` of hexagonal pixels returns holds an
-- index exactly if the index lies in the matrix and `areNeighbors` takes it for a neighbour of the
-- given one: the square that the loops run over leaves no hexagon within the distance out.
pub contains-get_neighbors_hexagonal :
    (orientation : Orientation) (grid : Grid) (idx p : Index) (distance : ℕ)
    → distance < 2 ^ 31
    → contains p (Hexagonal.get_neighbors orientation grid idx distance)
      ≡ (Hexagonal.are_neighbors idx p distance && Hexagonal.is_within_matrix orientation grid p)
unfolding Hexagonal.get_neighbors Hexagonal.are_neighbors
contains-get_neighbors_hexagonal orientation grid idx p distance small = ground (
  arith,
  hex_distance-bounds idx p,
  contains-scan_square
      (λ q. leb (hex_distance idx q) distance && Hexagonal.is_within_matrix orientation grid q) p
      idx distance small,
)
