-- ===== src/Clustering/Tests.antt =====
-- src/modules/DetectorHistogrammer: tests, and the theorems at concrete inputs.
use allpix_fork.Base.{ℕ, ◌≡◌, refl, false, none, some, List, [], ◌∷◌, ok, arith, All}
use allpix_fork.Base.Int.{ℤ, pos, negsuc, ◌-ℤ◌, ◌+ℤ◌}
use allpix_fork.Geometry.Rectangular.{are_neighbors}
use allpix_fork.Clustering.{
  PixelHit, Cluster, add_pixel_hit, do_clustering, get_size_xy, get_pixel_hit,
}
use allpix_fork.Clustering.Partition.{count, count_all, do_clustering-count}
use allpix_fork.Clustering.Separation.{Apart, do_clustering-Apart}
use allpix_fork.Clustering.Connected.{IsConnected, do_clustering-IsConnected}
use allpix_fork.Clustering.Summary.{IsSummary, do_clustering-IsSummary}

hit : ℕ → ℕ → ℕ → ℤ → PixelHit
hit n i j charge = record {
  place = n;
  index = record { x = pos i; y = pos j };
  signal = charge;
  mc_particles = n ∷ 7 ∷ [];
}

-- The third hit touches the first one only over the fourth.
abbrev hits : List PixelHit
unfolding hit
hits = hit 0 3 3 (pos 10) ∷ hit 1 9 9 (negsuc 4) ∷ hit 2 5 4 (pos 30) ∷ hit 3 4 3 (pos 20) ∷ []

abbrev large : Cluster
large = record {
  seed_pixel_hit = hit 2 5 4 (pos 30);
  pixel_hits = hit 0 3 3 (pos 10) ∷ hit 2 5 4 (pos 30) ∷ hit 3 4 3 (pos 20) ∷ [];
  mc_particles = 0 ∷ 2 ∷ 3 ∷ 7 ∷ [];
  cluster_charge = pos 60;
  min_x = pos 3;
  max_x = pos 5;
  min_y = pos 3;
  max_y = pos 4;
}

abbrev lone : Cluster
lone = record {
  seed_pixel_hit = hit 1 9 9 (negsuc 4);
  pixel_hits = hit 1 9 9 (negsuc 4) ∷ [];
  mc_particles = 1 ∷ 7 ∷ [];
  cluster_charge = negsuc 4;
  min_x = pos 9;
  max_x = pos 9;
  min_y = pos 9;
  max_y = pos 9;
}

two_clusters : do_clustering are_neighbors hits ≡ ok (large ∷ lone ∷ [])
unfolding do_clustering are_neighbors ◌-ℤ◌ ◌+ℤ◌ hit
two_clusters = refl

size_of_large : get_size_xy large ≡ (3, 2)
unfolding get_size_xy ◌-ℤ◌ ◌+ℤ◌
size_of_large = refl

found_pixel : get_pixel_hit (pos 4) (pos 3) large.pixel_hits ≡ some (hit 3 4 3 (pos 20))
unfolding get_pixel_hit hit
found_pixel = refl

no_pixel : get_pixel_hit (pos 3) (pos 4) large.pixel_hits ≡ none
unfolding get_pixel_hit hit
no_pixel = refl

-- A hit that the cluster has is refused.
added_twice : add_pixel_hit (hit 1 9 9 (negsuc 4)) lone ≡ (lone, false)
unfolding add_pixel_hit hit
added_twice = refl

do_clustering-count_example :
    (cs : List Cluster) × (do_clustering are_neighbors hits ≡ ok cs)
    × ((n : ℕ) → count_all n cs ≡ count n hits)
unfolding hit
do_clustering-count_example = do_clustering-count are_neighbors hits (omega arith)

do_clustering-Apart_example : Apart are_neighbors (large ∷ lone ∷ [])
do_clustering-Apart_example =
    do_clustering-Apart are_neighbors hits (large ∷ lone ∷ []) two_clusters

do_clustering-IsConnected_example :
    All (λ c. IsConnected are_neighbors c.pixel_hits) (large ∷ lone ∷ [])
do_clustering-IsConnected_example =
    do_clustering-IsConnected are_neighbors hits (large ∷ lone ∷ []) two_clusters

do_clustering-IsSummary_example : All IsSummary (large ∷ lone ∷ [])
do_clustering-IsSummary_example =
    do_clustering-IsSummary are_neighbors hits (large ∷ lone ∷ []) two_clusters
