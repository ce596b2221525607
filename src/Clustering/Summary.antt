-- ===== src/Clustering/Summary.antt =====
-- src/modules/DetectorHistogrammer: what a `Cluster` keeps about its hits while `addPixelHit` adds them.
use allpix_fork.Base.{
  ℕ, ◌≤◌, ◌<◌, ◌≡◌, refl, ap, inl, inr, Bool, true, false, ◌&&◌, List, [], ◌∷◌, ok, arith, All, ltb,
  ltb→lt, if◌then◌else◌, Bool-cases,
}
use allpix_fork.Base.Int.{ℤ, pos, ◌+ℤ◌, ◌≤ℤ◌, int_laws}
use allpix_fork.Geometry.{Index, magnitude}
use allpix_fork.Clustering.{
  PixelHit, Cluster, insert_hit, new_cluster, add_pixel_hit, has_hit, next_seed, same_bit, signbit,
  min_ℤ, max_ℤ, do_clustering,
}
use allpix_fork.Clustering.Grow.{In}
use allpix_fork.Clustering.Members.{All-insert_hit, All-map, In-insert_hit, In-insert_hit_self}
use allpix_fork.Clustering.Runs.{Grows, first, more, Clustered, done, skip, create, run_of_result}

pub signals : List PixelHit → ℤ
signals [] = pos 0
signals (g ∷ gs) = g.signal +ℤ signals gs

signals-insert_hit :
    (h : PixelHit) (gs : List PixelHit) → signals (insert_hit h gs) ≡ signals gs +ℤ h.signal
unfolding signals insert_hit
signals-insert_hit h [] = omega int_laws
signals-insert_hit h (g ∷ gs) = elim (Bool-cases (ltb h.place g.place)) [
  | inl before ↦ rw before (omega int_laws)
  | inr after ↦ rw (after, signals-insert_hit h gs) (omega int_laws)
]

-- A hit lies in the box of the cluster.
abbrev pub Inside : ℤ → ℤ → ℤ → ℤ → PixelHit → Type 0
Inside x0 x1 y0 y1 m = (x0 ≤ℤ m.index.x) × (m.index.x ≤ℤ x1) × (y0 ≤ℤ m.index.y) × (m.index.y ≤ℤ y1)

-- A side of the box is the coordinate of a hit.
abbrev pub Attained : (PixelHit → ℤ) → ℤ → List PixelHit → Type 0
Attained f a gs = (m : PixelHit) × In m gs × (f m ≡ a)

-- A hit is no larger than the seed, if their signals have the same sign.
abbrev pub Below : PixelHit → PixelHit → Type 0
Below seed m =
    same_bit (signbit seed.signal) (signbit m.signal) ≡ true
    → magnitude m.signal ≤ magnitude seed.signal

pub record IsSummary (c : Cluster) : Type 0 where
  pub charge : c.cluster_charge ≡ signals c.pixel_hits
  pub inside : All (Inside c.min_x c.max_x c.min_y c.max_y) c.pixel_hits
  pub left : Attained (λ m. m.index.x) c.min_x c.pixel_hits
  pub right : Attained (λ m. m.index.x) c.max_x c.pixel_hits
  pub bottom : Attained (λ m. m.index.y) c.min_y c.pixel_hits
  pub top : Attained (λ m. m.index.y) c.max_y c.pixel_hits
  pub seed : In c.seed_pixel_hit c.pixel_hits
  pub largest : All (Below c.seed_pixel_hit) c.pixel_hits

new_cluster-IsSummary : (h : PixelHit) → IsSummary (new_cluster h)
unfolding new_cluster signals
new_cluster-IsSummary h = record {
  charge = omega int_laws;
  inside = ((omega arith, omega arith, omega arith, omega arith), tt);
  left = (h, inl refl, refl);
  right = (h, inl refl, refl);
  bottom = (h, inl refl, refl);
  top = (h, inl refl, refl);
  seed = inl refl;
  largest = (λ e. omega arith, tt);
}

Attained-insert_hit :
    (f : PixelHit → ℤ) (test : Bool) (a : ℤ) (h : PixelHit) (gs : List PixelHit)
    → Attained f a gs
    → Attained f (if test then a else f h) (insert_hit h gs)
Attained-insert_hit f true a h gs (m, there, e) = (m, In-insert_hit m h gs there, e)
Attained-insert_hit f false a h gs (m, there, e) = (h, In-insert_hit_self h gs, refl)

wider :
    (x0 x1 y0 y1 : ℤ) (h m : PixelHit)
    → Inside x0 x1 y0 y1 m
    → Inside (min_ℤ h.index.x x0) (max_ℤ h.index.x x1) (min_ℤ h.index.y y0) (max_ℤ h.index.y y1) m
wider x0 x1 y0 y1 h m (a, b, c, d) = (ground arith, ground arith, ground arith, ground arith)

covers :
    (x0 x1 y0 y1 : ℤ) (h : PixelHit)
    → Inside (min_ℤ h.index.x x0) (max_ℤ h.index.x x1) (min_ℤ h.index.y y0) (max_ℤ h.index.y y1) h
covers x0 x1 y0 y1 h = (ground arith, ground arith, ground arith, ground arith)

same_bit_trans : (a b c : Bool) → same_bit a b ≡ true → same_bit b c ≡ true → same_bit a c ≡ true
same_bit_trans a b c h k = ground arith

-- The test of `next_seed`.
abbrev exceeds : PixelHit → PixelHit → Bool
exceeds seed h =
    same_bit (signbit seed.signal) (signbit h.signal)
    && ltb (magnitude seed.signal) (magnitude h.signal)

and_left : (a b : Bool) → (a && b) ≡ true → a ≡ true
and_left a b h = ground arith

and_right : (a b : Bool) → (a && b) ≡ true → b ≡ true
and_right a b h = ground arith

and_false : (a b : Bool) → (a && b) ≡ false → a ≡ true → b ≡ false
and_false a b h e = ground arith

not_lt : (m n : ℕ) → ltb m n ≡ false → n ≤ m
not_lt m n h = ground arith

-- The new seed is at least as large as the old one, and as the hit that is added.
next_seed-Below : (seed h m : PixelHit) → Below seed m → Below (next_seed seed h) m
unfolding next_seed
next_seed-Below seed h m below = elim (Bool-cases (exceeds seed h)) [
  | inl e ↦ rw e (λ same.
      let alike =
        same_bit_trans (signbit seed.signal) (signbit h.signal) (signbit m.signal) (and_left _ _ e)
          same in
      let larger : magnitude seed.signal < magnitude h.signal =
        ltb→lt (magnitude seed.signal) (magnitude h.signal) (and_right _ _ e) in
      omega (arith, below alike, larger))
  | inr e ↦ rw e below
]

next_seed-Below_new : (seed h : PixelHit) → Below (next_seed seed h) h
unfolding next_seed
next_seed-Below_new seed h = elim (Bool-cases (exceeds seed h)) [
  | inl e ↦ rw e (λ same. omega arith)
  | inr e ↦ rw e (λ same. not_lt _ _ (and_false _ _ e same))
]

next_seed-In :
    (seed h : PixelHit) (gs : List PixelHit) → In seed gs → In (next_seed seed h) (insert_hit h gs)
unfolding next_seed
next_seed-In seed h gs there = elim (Bool-cases (exceeds seed h)) [
  | inl e ↦ rw e (In-insert_hit_self h gs)
  | inr e ↦ rw e (In-insert_hit seed h gs there)
]

-- `addPixelHit` keeps the summary true, whether it takes the hit or refuses it.
pub add_pixel_hit-IsSummary :
    (h : PixelHit) (c : Cluster) → IsSummary c → IsSummary (add_pixel_hit h c).0
unfolding add_pixel_hit
add_pixel_hit-IsSummary h c v = elim (Bool-cases (has_hit h.place c.pixel_hits)) [
  | inl old ↦ rw old v
  | inr new ↦ rw new (record {
    charge = rw (signals-insert_hit h c.pixel_hits) (ap (λ (a : ℤ). a +ℤ h.signal) v.charge);
    inside = All-insert_hit _ h c.pixel_hits (covers c.min_x c.max_x c.min_y c.max_y h) (
        All-map (Inside c.min_x c.max_x c.min_y c.max_y)
          (Inside (min_ℤ h.index.x c.min_x) (max_ℤ h.index.x c.max_x) (min_ℤ h.index.y c.min_y)
            (max_ℤ h.index.y c.max_y))
          (wider c.min_x c.max_x c.min_y c.max_y h) c.pixel_hits v.inside);
    left = Attained-insert_hit (λ m. m.index.x) _ c.min_x h c.pixel_hits v.left;
    right = Attained-insert_hit (λ m. m.index.x) _ c.max_x h c.pixel_hits v.right;
    bottom = Attained-insert_hit (λ m. m.index.y) _ c.min_y h c.pixel_hits v.bottom;
    top = Attained-insert_hit (λ m. m.index.y) _ c.max_y h c.pixel_hits v.top;
    seed = next_seed-In c.seed_pixel_hit h c.pixel_hits v.seed;
    largest =
        All-insert_hit (Below (next_seed c.seed_pixel_hit h)) h c.pixel_hits
          (next_seed-Below_new c.seed_pixel_hit h)
          (All-map (Below c.seed_pixel_hit) (Below (next_seed c.seed_pixel_hit h))
            (next_seed-Below c.seed_pixel_hit h) c.pixel_hits v.largest);
  })
]

module _ (near : Index → Index → ℕ → Bool) where
  Grows-IsSummary :
      {h : PixelHit} {hits : List PixelHit} {used marked : List ℕ} {c : Cluster}
      → Grows near h hits used marked c
      → IsSummary c
  Grows-IsSummary {h} first = new_cluster-IsSummary h
  Grows-IsSummary (more {marked} {c} g grows a) =
      add_pixel_hit-IsSummary g c (Grows-IsSummary grows)

  Clustered-IsSummary :
      {hits : List PixelHit} {used : List ℕ} {cs : List Cluster}
      → Clustered near hits used cs
      → All IsSummary cs
  Clustered-IsSummary (done used) = tt
  Clustered-IsSummary (skip marked run) = Clustered-IsSummary run
  Clustered-IsSummary (create free grows passed run) =
      (Grows-IsSummary grows, Clustered-IsSummary run)

  -- Every cluster that `doClustering` returns has the sum of its hits' signals as its charge, the
  -- smallest box of indices that holds its hits, and as its seed one of its hits, whose signal no
  -- other of the same sign exceeds.
  pub do_clustering-IsSummary :
      (hits : List PixelHit) (cs : List Cluster)
      → do_clustering near hits ≡ ok cs
      → All IsSummary cs
  do_clustering-IsSummary hits cs h = Clustered-IsSummary (run_of_result near hits cs h)
