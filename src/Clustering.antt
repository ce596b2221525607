-- ===== src/Clustering.antt =====
-- src/modules/DetectorHistogrammer: `Cluster` of Cluster.cpp, and `doClustering`, which groups the pixel
-- hits of one message into clusters of neighbors.
--
-- A pixel hit is known by its place in the message, which orders the addresses that the source keeps
-- in its sets and maps. Its signal is an integer multiple of some unit. Monte Carlo particles are
-- known by their addresses. `areNeighbors` of the detector model is a parameter.
pub mod Grow
pub mod Runs
pub mod Members
pub mod Partition
pub mod Separation
pub mod Connected
pub mod Summary
mod Tests
use allpix_fork.Base.{
  ℕ, zero, suc, ◌+◌, ◌-◌, ◌%◌, ◌^◌, Bool, true, false, not, ◌&&◌, ◌||◌, Option, none, some, List,
  [], ◌∷◌, Result, ok, err, out_of_fuel, ◌>>=◌, length, ltb, ◌==◌, if◌then◌else◌,
}
use allpix_fork.Base.Int.{ℤ, pos, negsuc, ◌+ℤ◌, ◌-ℤ◌, ltb_ℤ}
use allpix_fork.Geometry.{Index, magnitude, eqb_ℤ}

pub record PixelHit : Type 0 where
  pub place : ℕ
  pub index : Index
  pub signal : ℤ
  pub mc_particles : List ℕ

pub record Cluster : Type 0 where
  pub seed_pixel_hit : PixelHit
  pub pixel_hits : List PixelHit
  pub mc_particles : List ℕ
  pub cluster_charge : ℤ
  pub min_x : ℤ
  pub max_x : ℤ
  pub min_y : ℤ
  pub max_y : ℤ

-- `insert` of a set of addresses.
unfoldable pub insert_address : ℕ → List ℕ → List ℕ
insert_address a [] = a ∷ []
insert_address a (b ∷ bs) =
    if ltb a b then a ∷ b ∷ bs else if a == b then b ∷ bs else b ∷ insert_address a bs

unfoldable pub insert_particles : List ℕ → List ℕ → List ℕ
unfolding insert_address
insert_particles [] found = found
insert_particles (p ∷ ps) found = insert_particles ps (insert_address p found)

unfoldable pub has_hit : ℕ → List PixelHit → Bool
has_hit n [] = false
has_hit n (g ∷ gs) = g.place == n || has_hit n gs

unfoldable pub insert_hit : PixelHit → List PixelHit → List PixelHit
insert_hit h [] = h ∷ []
insert_hit h (g ∷ gs) = if ltb h.place g.place then h ∷ g ∷ gs else g ∷ insert_hit h gs

-- The constructor of `Cluster`.
unfoldable pub new_cluster : PixelHit → Cluster
unfolding insert_particles
new_cluster h = record {
  seed_pixel_hit = h;
  pixel_hits = h ∷ [];
  mc_particles = insert_particles h.mc_particles [];
  cluster_charge = h.signal;
  min_x = h.index.x;
  max_x = h.index.x;
  min_y = h.index.y;
  max_y = h.index.y;
}

-- `std::signbit`, `std::min` and `std::max`.
abbrev pub signbit : ℤ → Bool
signbit a = ltb_ℤ a (pos 0)

abbrev pub min_ℤ : ℤ → ℤ → ℤ
min_ℤ a b = if ltb_ℤ b a then b else a

abbrev pub max_ℤ : ℤ → ℤ → ℤ
max_ℤ a b = if ltb_ℤ a b then b else a

abbrev pub same_bit : Bool → Bool → Bool
same_bit true b = b
same_bit false b = not b

-- The seed after a hit has been added: the hit itself if its signal has the sign of the seed's and is
-- larger.
unfoldable pub next_seed : PixelHit → PixelHit → PixelHit
next_seed seed h =
    if same_bit (signbit seed.signal) (signbit h.signal)
      && ltb (magnitude seed.signal) (magnitude h.signal)
    then h
    else seed

-- `addPixelHit`, with what it returns.
unfoldable pub add_pixel_hit : PixelHit → Cluster → Cluster × Bool
unfolding insert_hit insert_particles has_hit next_seed
add_pixel_hit h c = if has_hit h.place c.pixel_hits then (c, false) else (
  record {
    seed_pixel_hit = next_seed c.seed_pixel_hit h;
    pixel_hits = insert_hit h c.pixel_hits;
    mc_particles = insert_particles h.mc_particles c.mc_particles;
    cluster_charge = c.cluster_charge +ℤ h.signal;
    min_x = min_ℤ h.index.x c.min_x;
    max_x = max_ℤ h.index.x c.max_x;
    min_y = min_ℤ h.index.y c.min_y;
    max_y = max_ℤ h.index.y c.max_y;
  },
  true,
)

-- An `int` as an `unsigned int`.
abbrev pub to_unsigned : ℤ → ℕ
to_unsigned (pos n) = n % 2 ^ 32
to_unsigned (negsuc n) = 2 ^ 32 - 1 - n % 2 ^ 32

-- `getSizeXY`.
unfoldable pub get_size_xy : Cluster → ℕ × ℕ
get_size_xy c =
    (to_unsigned (c.max_x -ℤ c.min_x +ℤ pos 1), to_unsigned (c.max_y -ℤ c.min_y +ℤ pos 1))

-- `getPixelHit`; `none` is the null pointer.
unfoldable pub get_pixel_hit : ℤ → ℤ → List PixelHit → Option PixelHit
get_pixel_hit x y [] = none
get_pixel_hit x y (g ∷ gs) =
    let rest = get_pixel_hit x y gs in
    if eqb_ℤ g.index.x x && eqb_ℤ g.index.y y then some g else rest

-- `usedPixel`: the places of the hits that are marked.
unfoldable pub is_used : ℕ → List ℕ → Bool
is_used n [] = false
is_used n (u ∷ used) = u == n || is_used n used

module _ (are_neighbors : Index → Index → ℕ → Bool) where
  -- The λ `touching`.
  unfoldable pub touching : List PixelHit → PixelHit → Bool
  touching [] h = false
  touching (g ∷ gs) h = are_neighbors g.index h.index 1 || touching gs h

  -- The inner loop up to the first hit that it does not pass over.
  unfoldable pub find_neighbor : List ℕ → Cluster → List PixelHit → Option PixelHit
  unfolding is_used touching
  find_neighbor used c [] = none
  find_neighbor used c (h ∷ hits) =
      let rest = find_neighbor used c hits in
      if is_used h.place used || not (touching c.pixel_hits h) then rest else some h

  -- The inner loop over the hits that follow the first one of the cluster. After a hit has been added
  -- it starts over; the fuel counts these rounds.
  unfoldable pub grow : ℕ → List PixelHit → List ℕ → Cluster → Result (List ℕ × Cluster)
  unfolding find_neighbor add_pixel_hit
  grow zero hits used c = err out_of_fuel
  grow (suc fuel) hits used c = elim (find_neighbor used c hits) [
    | none ↦ ok (used, c)
    | some h ↦ grow fuel hits (h.place ∷ used) (add_pixel_hit h c).0
  ]

  -- The outer loop.
  unfoldable pub cluster_hits : List PixelHit → List ℕ → Result (List Cluster)
  unfolding grow new_cluster is_used
  cluster_hits [] used = ok []
  cluster_hits (h ∷ hits) used =
      let skipped = cluster_hits hits used in
      let created = grow (length hits + 1) hits (h.place ∷ used) (new_cluster h) >>= λ (used', c).
      cluster_hits hits used' >>= λ cs. ok (c ∷ cs) in
      if is_used h.place used then skipped else created

  unfoldable pub do_clustering : List PixelHit → Result (List Cluster)
  unfolding cluster_hits
  do_clustering hits = cluster_hits hits []
