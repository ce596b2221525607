-- ===== src/Clustering/Partition.antt =====
-- src/modules/DetectorHistogrammer: `doClustering` puts every pixel hit into one cluster.
use allpix_fork.Base.{
  ℕ, ◌+◌, ◌<◌, ◌≡◌, refl, sym, subst, inl, inr, Bool, true, false, List, [], ◌∷◌, ok, arith, All,
  ◌==◌, if◌then◌else◌, Bool-cases,
}
use allpix_fork.Geometry.{Index}
use allpix_fork.Clustering.{
  PixelHit, Cluster, new_cluster, insert_hit, add_pixel_hit, has_hit, is_used, do_clustering,
}
use allpix_fork.Clustering.Grow.{In}
use allpix_fork.Clustering.Runs.{
  Grows, first, more, Clustered, done, skip, create, do_clustering-Clustered,
}

-- How many hits of a list stand at a place of the message.
unfoldable pub count : ℕ → List PixelHit → ℕ
count n [] = 0
count n (g ∷ gs) = (if g.place == n then 1 else 0) + count n gs

unfoldable pub count_all : ℕ → List Cluster → ℕ
unfolding count
count_all n [] = 0
count_all n (c ∷ cs) = count n c.pixel_hits + count_all n cs

-- The hits of a message stand one after the other.
abbrev pub Placed : List PixelHit → Type 0
Placed [] = Unit
Placed (h ∷ hits) = All (λ g. h.place < g.place) hits × Placed hits

count-insert_hit :
    (n : ℕ) (h : PixelHit) (gs : List PixelHit) → count n (insert_hit h gs) ≡ count n (h ∷ gs)
unfolding count insert_hit
count-insert_hit n h [] = refl
count-insert_hit n h (g ∷ gs) = ground (arith, count-insert_hit n h gs)

has_hit-count : (n : ℕ) (gs : List PixelHit) → count n gs ≡ 0 → has_hit n gs ≡ false
unfolding count has_hit
has_hit-count n [] e = refl
has_hit-count n (g ∷ gs) e = ground (arith, has_hit-count n gs)

count_zero : (n : ℕ) (hits : List PixelHit) → All (λ g. n < g.place) hits → count n hits ≡ 0
unfolding count
count_zero n [] later = refl
count_zero n (g ∷ hits) later = ground (arith, count_zero n hits later.1)

place_beyond :
    (n : ℕ) (g : PixelHit) (hits : List PixelHit)
    → In g hits
    → All (λ h. n < h.place) hits
    → n < g.place
place_beyond n g [] m later = absurd m
place_beyond n g (h ∷ hits) (inl e) later = rw e later.0
place_beyond n g (h ∷ hits) (inr m) later = place_beyond n g hits m later.1

count_one : (g : PixelHit) (hits : List PixelHit) → In g hits → Placed hits → count g.place hits ≡ 1
unfolding count
count_one g [] m placed = absurd m
count_one g (h ∷ hits) (inl e) placed =
    subst (λ (x : PixelHit). count x.place (h ∷ hits) ≡ 1) (sym e)
      (ground (arith, count_zero h.place hits placed.0))
count_one g (h ∷ hits) (inr m) placed =
    ground (arith, count_one g hits m placed.1, place_beyond h.place g hits m placed.0)

-- What `addPixelHit` does to the counts where the hit is new.
count-add_pixel_hit :
    (n : ℕ) (g : PixelHit) (c : Cluster)
    → count g.place c.pixel_hits ≡ 0
    → count n (add_pixel_hit g c).0.pixel_hits
      ≡ (if g.place == n then 1 else 0) + count n c.pixel_hits
unfolding add_pixel_hit count
count-add_pixel_hit n g c new =
    rw (has_hit-count g.place c.pixel_hits new) (count-insert_hit n g c.pixel_hits)

-- What a cluster holds of the message, by the marks before it was started and now.
abbrev share : Bool → Bool → ℕ → ℕ
share before now k = if before then 0 else if now then k else 0

unmarked : (a b : Bool) → (a ≡ true → b ≡ true) → b ≡ false → a ≡ false
unmarked true b h e = cc (h refl)
unmarked false b h e = refl

added :
    (n : ℕ) (g h : PixelHit) (hits : List PixelHit) (used marked : List ℕ) (c : Cluster)
    → count n c.pixel_hits ≡ share (is_used n used) (is_used n marked) (count n (h ∷ hits))
    → (is_used n used ≡ true → is_used n marked ≡ true)
    → is_used g.place used ≡ false
    → is_used g.place marked ≡ false
    → count g.place (h ∷ hits) ≡ 1
    → count g.place c.pixel_hits ≡ 0
    → (count n (add_pixel_hit g c).0.pixel_hits
        ≡ share (is_used n used) (is_used n (g.place ∷ marked)) (count n (h ∷ hits)))
      × (is_used n used ≡ true → is_used n (g.place ∷ marked) ≡ true)
unfolding is_used
added n g h hits used marked c at_n mono_n fresh free alone new = elim (Bool-cases (g.place == n)) [
  | inl here ↦
      let same : g.place ≡ n = ground arith in
      rw (← same) (ground (arith, count-add_pixel_hit g.place g c new), λ e. ground arith)
  | inr other ↦ (ground (arith, count-add_pixel_hit n g c new), λ e. ground (arith, mono_n e))
]

skipped :
    (n : ℕ) (h : PixelHit) (hits : List PixelHit) (used : List ℕ) {k : ℕ}
    → is_used h.place used ≡ true
    → k ≡ (if is_used n used then 0 else count n hits)
    → k ≡ (if is_used n used then 0 else count n (h ∷ hits))
unfolding count
skipped n h hits used marked e = elim (Bool-cases (h.place == n)) [
  | inl here ↦
      let same : h.place ≡ n = ground arith in
      let n_marked : is_used n used ≡ true = subst (λ (m : ℕ). is_used m used ≡ true) same marked in
      ground arith
  | inr other ↦ ground arith
]

created :
    (n : ℕ) (h : PixelHit) (hits : List PixelHit) (used used' : List ℕ) {k l : ℕ}
    → is_used h.place used' ≡ true
    → k ≡ share (is_used n used) (is_used n used') (count n (h ∷ hits))
    → (is_used n used ≡ true → is_used n used' ≡ true)
    → l ≡ (if is_used n used' then 0 else count n hits)
    → k + l ≡ (if is_used n used then 0 else count n (h ∷ hits))
unfolding count
created n h hits used used' marked own mono rest = elim (Bool-cases (is_used n used)) [
  | inl before ↦ let after = mono before in ground arith
  | inr new ↦ elim (Bool-cases (h.place == n)) [
    | inl here ↦
        let same : h.place ≡ n = ground arith in
        let n_marked : is_used n used' ≡ true =
          subst (λ (m : ℕ). is_used m used' ≡ true) same marked in
        ground arith
    | inr other ↦ ground arith
  ]
]

module _ (near : Index → Index → ℕ → Bool) where
  Grows-share :
      {h : PixelHit} {hits : List PixelHit} {used marked : List ℕ} {c : Cluster} (n : ℕ)
      → Placed (h ∷ hits)
      → is_used h.place used ≡ false
      → Grows near h hits used marked c
      → (count n c.pixel_hits ≡ share (is_used n used) (is_used n marked) (count n (h ∷ hits)))
        × (is_used n used ≡ true → is_used n marked ≡ true)
  unfolding count is_used new_cluster
  Grows-share {h} {hits} {used} n placed free first = elim (Bool-cases (h.place == n)) [
    | inl here ↦
        let same : h.place ≡ n = ground arith in
        rw (← same) (ground (arith, count_zero h.place hits placed.0), λ e. ground arith)
    | inr other ↦ (ground arith, λ e. ground arith)
  ]
  Grows-share {h} {hits} {used} n placed free (more {marked} {c} g grows a) =
      let (at_g, mono_g) = Grows-share g.place placed free grows in
      let (at_n, mono_n) = Grows-share n placed free grows in
      let fresh : is_used g.place used ≡ false = unmarked _ _ mono_g a.1 in
      let new : count g.place c.pixel_hits ≡ 0 = ground arith in
      let alone : count g.place (h ∷ hits) ≡ 1 = count_one g (h ∷ hits) (inr a.0) placed in
      added n g h hits used marked c at_n mono_n fresh a.1 alone new

  Grows-seed :
      {h : PixelHit} {hits : List PixelHit} {used marked : List ℕ} {c : Cluster}
      → Grows near h hits used marked c
      → is_used h.place marked ≡ true
  unfolding is_used
  Grows-seed first = ground arith
  Grows-seed (more g grows a) = ground (arith, Grows-seed grows)

  Clustered-share :
      {hits : List PixelHit} {used : List ℕ} {cs : List Cluster} (n : ℕ)
      → Placed hits
      → Clustered near hits used cs
      → count_all n cs ≡ (if is_used n used then 0 else count n hits)
  unfolding count_all
  Clustered-share {used} n placed (done _) = ground arith
  Clustered-share {used} n placed (skip {h} {hits} marked run) =
      skipped n h hits used marked (Clustered-share n placed.1 run)
  Clustered-share n placed (create {h} {hits} {used} {cs} {used'} {c} free grows passed run) =
      let (at_n, mono) = Grows-share n placed free grows in
      created n h hits used used' (Grows-seed grows) at_n mono (Clustered-share n placed.1 run)

  -- The hits of a message stand at different places. Then `doClustering` ends, and each place is
  -- taken by the hits of all clusters together as often as by the hits of the message: every hit
  -- lies in exactly one cluster, and no cluster holds another hit.
  pub do_clustering-count :
      (hits : List PixelHit)
      → Placed hits
      → (cs : List Cluster) × (do_clustering near hits ≡ ok cs)
        × ((n : ℕ) → count_all n cs ≡ count n hits)
  unfolding count is_used
  do_clustering-count hits placed =
      let (cs, e, run) = do_clustering-Clustered near hits in
      (cs, e, λ n. Clustered-share n placed run)
