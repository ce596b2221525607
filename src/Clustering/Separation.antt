-- ===== src/Clustering/Separation.antt =====
-- src/modules/DetectorHistogrammer: the clusters of `doClustering` do not touch.
use allpix_fork.Base.{ℕ, ◌≡◌, inl, inr, Bool, false, List, [], ◌∷◌, ok, All}
use allpix_fork.Geometry.{Index}
use allpix_fork.Clustering.{PixelHit, Cluster, is_used, touching, do_clustering}
use allpix_fork.Clustering.Grow.{In, Passed}
use allpix_fork.Clustering.Members.{All-map, All-In, Grows-mono, Grows-Free}
use allpix_fork.Clustering.Runs.{Clustered, done, skip, create, run_of_result}

module _ (near : Index → Index → ℕ → Bool) where
  -- None of a cluster's hits touches one of the hits.
  abbrev pub Away : List PixelHit → List PixelHit → Type 0
  Away hits others = All (λ h. touching near hits h ≡ false) others

  -- None of the clusters touches a hit of a later one.
  abbrev pub Apart : List Cluster → Type 0
  Apart [] = Unit
  Apart (c ∷ cs) = All (λ d. Away c.pixel_hits d.pixel_hits) cs × Apart cs

  -- What a list of clusters takes: hits of the list that were not marked.
  abbrev Open : List PixelHit → List ℕ → PixelHit → Type 0
  Open hits used m = In m hits × (is_used m.place used ≡ false)

  Clustered-Open :
      {hits : List PixelHit} {used : List ℕ} {cs : List Cluster}
      → Clustered near hits used cs
      → All (λ d. All (Open hits used) d.pixel_hits) cs
  Clustered-Open (done used) = tt
  Clustered-Open (skip {h} {hits} {used} {cs} marked run) =
      All-map (λ d. All (Open hits used) d.pixel_hits)
        (λ d. All (Open (h ∷ hits) used) d.pixel_hits)
        (λ d. All-map (Open hits used) (Open (h ∷ hits) used) (λ m o. (inr o.0, o.1)) d.pixel_hits)
        cs (Clustered-Open run)
  Clustered-Open (create {h} {hits} {used} {cs} {used'} {c} free grows passed run) = (
    Grows-Free near free grows,
    All-map (λ d. All (Open hits used') d.pixel_hits) (λ d. All (Open (h ∷ hits) used) d.pixel_hits)
        (λ d.
          All-map (Open hits used') (Open (h ∷ hits) used)
            (λ m o. (inr o.0, Grows-mono near m.place grows o.1)) d.pixel_hits)
        cs (Clustered-Open run),
  )

  untouched :
      (hits : List PixelHit) (used : List ℕ) (c : Cluster) (m : PixelHit)
      → All (Passed near used c) hits
      → Open hits used m
      → touching near c.pixel_hits m ≡ false
  untouched hits used c m passed o = elim (All-In (Passed near used c) m hits o.0 passed) [
    | inl marked ↦ cc (marked, o.1)
    | inr away ↦ away
  ]

  Clustered-Apart :
      {hits : List PixelHit} {used : List ℕ} {cs : List Cluster}
      → Clustered near hits used cs
      → Apart cs
  Clustered-Apart (done used) = tt
  Clustered-Apart (skip marked run) = Clustered-Apart run
  Clustered-Apart (create {h} {hits} {used} {cs} {used'} {c} free grows passed run) = (
    All-map (λ d. All (Open hits used') d.pixel_hits) (λ d. Away c.pixel_hits d.pixel_hits)
        (λ d.
          All-map (Open hits used') (λ m. touching near c.pixel_hits m ≡ false)
            (λ m o. untouched hits used' c m passed o) d.pixel_hits)
        cs (Clustered-Open run),
    Clustered-Apart run,
  )

  -- Of two clusters that `doClustering` returns, no hit of the earlier one is a neighbor of a hit of
  -- the later one: nothing that touches a cluster is left out of it.
  pub do_clustering-Apart :
      (hits : List PixelHit) (cs : List Cluster) → do_clustering near hits ≡ ok cs → Apart cs
  do_clustering-Apart hits cs h = Clustered-Apart (run_of_result near hits cs h)
