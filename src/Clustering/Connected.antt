-- ===== src/Clustering/Connected.antt =====
-- src/modules/DetectorHistogrammer: the clusters of `doClustering` hang together.
use allpix_fork.Base.{
  ℕ, ◌≡◌, refl, sym, subst, inl, inr, Bool, true, List, [], ◌∷◌, ok, arith, All, Bool-cases,
}
use allpix_fork.Geometry.{Index}
use allpix_fork.Clustering.{PixelHit, Cluster, add_pixel_hit, touching, do_clustering, new_cluster}
use allpix_fork.Clustering.Grow.{In}
use allpix_fork.Clustering.Members.{
  All-add_pixel_hit, All-map, All-In, In-add_pixel_hit, add_pixel_hit-cases,
}
use allpix_fork.Clustering.Runs.{Grows, first, more, Clustered, done, skip, create, run_of_result}

module _ (near : Index → Index → ℕ → Bool) where
  -- A hit that steps between neighbors in a list reach from another one.
  pub data Linked (gs : List PixelHit) (s : PixelHit) : PixelHit → Type 0 where
    here : Linked gs s s
    step :
        {m k : PixelHit}
        → Linked gs s m
        → In m gs
        → In k gs
        → near m.index k.index 1 ≡ true
        → Linked gs s k

  -- One of the hits reaches all the others.
  abbrev pub IsConnected : List PixelHit → Type 0
  IsConnected gs = (s : PixelHit) × In s gs × All (Linked gs s) gs

  Linked-mono :
      {gs ks : List PixelHit} {s m : PixelHit}
      → ((k : PixelHit) → In k gs → In k ks)
      → Linked gs s m
      → Linked ks s m
  Linked-mono wider here = here
  Linked-mono wider (step l m k e) = step (Linked-mono wider l) (wider _ m) (wider _ k) e

  touching-In :
      (gs : List PixelHit) (h : PixelHit)
      → touching near gs h ≡ true
      → (m : PixelHit) × In m gs × (near m.index h.index 1 ≡ true)
  unfolding touching
  touching-In [] h e = cc
  touching-In (g ∷ gs) h e = elim (Bool-cases (near g.index h.index 1)) [
    | inl touches ↦ (g, inl refl, touches)
    | inr apart ↦ let (m, there, near_m) = touching-In gs h (ground arith) in (m, inr there, near_m)
  ]

  add_pixel_hit-IsConnected :
      (g : PixelHit) (c : Cluster)
      → touching near c.pixel_hits g ≡ true
      → IsConnected c.pixel_hits
      → IsConnected (add_pixel_hit g c).0.pixel_hits
  add_pixel_hit-IsConnected g c touches (s, inside, linked) = elim (add_pixel_hit-cases g c) [
    | inl same ↦ subst (λ (d : Cluster). IsConnected d.pixel_hits) (sym same) (s, inside, linked)
    | inr added ↦
        let gs = (add_pixel_hit g c).0.pixel_hits in
        let wider = λ (k : PixelHit) (there : In k c.pixel_hits). In-add_pixel_hit k g c there in
        let (m, there, near_m) = touching-In c.pixel_hits g touches in
        let to_m : Linked gs s m =
          Linked-mono wider (All-In (Linked c.pixel_hits s) m c.pixel_hits there linked) in
        (
          s,
          wider s inside,
          All-add_pixel_hit (Linked gs s) g c (step to_m (wider m there) added near_m) (
              All-map (Linked c.pixel_hits s) (Linked gs s) (λ k l. Linked-mono wider l)
                c.pixel_hits linked),
        )
  ]

  Grows-IsConnected :
      {h : PixelHit} {hits : List PixelHit} {used marked : List ℕ} {c : Cluster}
      → Grows near h hits used marked c
      → IsConnected c.pixel_hits
  unfolding new_cluster
  Grows-IsConnected {h} first = (h, inl refl, (here, tt))
  Grows-IsConnected (more {marked} {c} g grows a) =
      add_pixel_hit-IsConnected g c a.2 (Grows-IsConnected grows)

  Clustered-IsConnected :
      {hits : List PixelHit} {used : List ℕ} {cs : List Cluster}
      → Clustered near hits used cs
      → All (λ c. IsConnected c.pixel_hits) cs
  Clustered-IsConnected (done used) = tt
  Clustered-IsConnected (skip marked run) = Clustered-IsConnected run
  Clustered-IsConnected (create free grows passed run) =
      (Grows-IsConnected grows, Clustered-IsConnected run)

  -- Every cluster that `doClustering` returns is connected: from one of its hits each of the others is
  -- reached by steps between hits of the cluster that are neighbors.
  pub do_clustering-IsConnected :
      (hits : List PixelHit) (cs : List Cluster)
      → do_clustering near hits ≡ ok cs
      → All (λ c. IsConnected c.pixel_hits) cs
  do_clustering-IsConnected hits cs h = Clustered-IsConnected (run_of_result near hits cs h)
