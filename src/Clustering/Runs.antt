-- ===== src/Clustering/Runs.antt =====
-- src/modules/DetectorHistogrammer: `doClustering` as a relation between the hits and the clusters. Every
-- run of the loops is one of its derivations, so a property of the result is shown by induction on it.
use allpix_fork.Base.{
  ℕ, ◌+◌, ◌≡◌, inl, inr, Bool, true, false, List, [], ◌∷◌, ok, refl, subst, All, length, Bool-cases,
}
use allpix_fork.Geometry.{Index}
use allpix_fork.Clustering.{
  PixelHit, Cluster, new_cluster, add_pixel_hit, is_used, cluster_hits, do_clustering,
}
use allpix_fork.Clustering.Grow.{Addable, Passed, grow_inv, enough_rounds}

module _ (near : Index → Index → ℕ → Bool) where
  -- The marks and the cluster that starts with `h` and takes hits of `hits`.
  pub data Grows (h : PixelHit) (hits : List PixelHit) (used : List ℕ)
      : List ℕ → Cluster → Type 0 where
    first : Grows h hits used (h.place ∷ used) (new_cluster h)
    more :
        {marked : List ℕ} {c : Cluster} (g : PixelHit)
        → Grows h hits used marked c
        → Addable near marked c hits g
        → Grows h hits used (g.place ∷ marked) (add_pixel_hit g c).0

  pub data Clustered : List PixelHit → List ℕ → List Cluster → Type 0 where
    done : (used : List ℕ) → Clustered [] used []
    skip :
        {h : PixelHit} {hits : List PixelHit} {used : List ℕ} {cs : List Cluster}
        → is_used h.place used ≡ true
        → Clustered hits used cs
        → Clustered (h ∷ hits) used cs
    create :
        {h : PixelHit} {hits : List PixelHit} {used : List ℕ} {cs : List Cluster} {used' : List ℕ}
        {c : Cluster}
        → is_used h.place used ≡ false
        → Grows h hits used used' c
        → All (Passed near used' c) hits
        → Clustered hits used' cs
        → Clustered (h ∷ hits) used (c ∷ cs)

  abbrev Runs : List PixelHit → List ℕ → Type 0
  Runs hits used =
      (cs : List Cluster) × (cluster_hits near hits used ≡ ok cs) × Clustered hits used cs

  cluster_hits-Runs : (hits : List PixelHit) (used : List ℕ) → Runs hits used
  unfolding cluster_hits
  cluster_hits-Runs [] used = ([], refl, done used)
  cluster_hits-Runs (h ∷ hits) used = elim (Bool-cases (is_used h.place used)) [
    | inl marked ↦
        let (cs, e, run) = cluster_hits-Runs hits used in (cs, rw marked e, skip marked run)
    | inr free ↦
        let (used', c, grown, grows, passed) =
          grow_inv near (Grows h hits used) hits (λ u d g a p. more g p a) (length hits + 1)
            (h.place ∷ used) (new_cluster h) (enough_rounds near (h.place ∷ used) hits) first in
        let (cs, e, run) = cluster_hits-Runs hits used' in
        (c ∷ cs, rw (free, grown, e) refl, create free grows passed run)
  ]

  -- The loops always end, with clusters that a run describes.
  pub do_clustering-Clustered :
      (hits : List PixelHit)
      → (cs : List Cluster) × (do_clustering near hits ≡ ok cs) × Clustered hits [] cs
  unfolding do_clustering
  do_clustering-Clustered hits = cluster_hits-Runs hits []

  pub run_of_result :
      (hits : List PixelHit) (cs : List Cluster)
      → do_clustering near hits ≡ ok cs
      → Clustered hits [] cs
  run_of_result hits cs h =
      let (ds, e, run) = do_clustering-Clustered hits in
      let same : ds ≡ cs = cc in subst (λ (es : List Cluster). Clustered hits [] es) same run
