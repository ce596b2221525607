-- ===== src/Clustering/Members.antt =====
-- src/modules/DetectorHistogrammer: the hits of a cluster while it grows.
use allpix_fork.Base.{
  ℕ, ◌≡◌, refl, sym, subst, ◌⊎◌, inl, inr, Bool, false, List, [], ◌∷◌, arith, All, ltb, Bool-cases,
}
use allpix_fork.Geometry.{Index}
use allpix_fork.Clustering.{
  PixelHit, Cluster, insert_hit, add_pixel_hit, has_hit, is_used, new_cluster,
}
use allpix_fork.Clustering.Grow.{In}
use allpix_fork.Clustering.Runs.{Grows, first, more}

pub All-insert_hit {ℓ} :
    (P : PixelHit → Type ℓ) (h : PixelHit) (gs : List PixelHit)
    → P h
    → All P gs
    → All P (insert_hit h gs)
unfolding insert_hit
All-insert_hit P h [] p ps = (p, tt)
All-insert_hit P h (g ∷ gs) p ps = elim (Bool-cases (ltb h.place g.place)) [
  | inl before ↦ rw before (p, ps)
  | inr after ↦ rw after (ps.0, All-insert_hit P h gs p ps.1)
]

-- The hits after a call of `addPixelHit`, which refuses a hit that it has.
pub All-add_pixel_hit {ℓ} :
    (P : PixelHit → Type ℓ) (h : PixelHit) (c : Cluster)
    → P h
    → All P c.pixel_hits
    → All P (add_pixel_hit h c).0.pixel_hits
unfolding add_pixel_hit
All-add_pixel_hit P h c p ps = elim (Bool-cases (has_hit h.place c.pixel_hits)) [
  | inl old ↦ rw old ps
  | inr new ↦ rw new (All-insert_hit P h c.pixel_hits p ps)
]

pub In-insert_hit_self : (h : PixelHit) (gs : List PixelHit) → In h (insert_hit h gs)
unfolding insert_hit
In-insert_hit_self h [] = inl refl
In-insert_hit_self h (g ∷ gs) = elim (Bool-cases (ltb h.place g.place)) [
  | inl before ↦ rw before (inl refl)
  | inr after ↦ rw after (inr (In-insert_hit_self h gs))
]

pub In-insert_hit : (m h : PixelHit) (gs : List PixelHit) → In m gs → In m (insert_hit h gs)
unfolding insert_hit
In-insert_hit m h [] here = absurd here
In-insert_hit m h (g ∷ gs) here = elim (Bool-cases (ltb h.place g.place)) [
  | inl before ↦ rw before (inr here)
  | inr after ↦
      rw after (elim here [ inl e ↦ inl e | inr there ↦ inr (In-insert_hit m h gs there) ])
]

pub In-add_pixel_hit :
    (m h : PixelHit) (c : Cluster) → In m c.pixel_hits → In m (add_pixel_hit h c).0.pixel_hits
unfolding add_pixel_hit
In-add_pixel_hit m h c here = elim (Bool-cases (has_hit h.place c.pixel_hits)) [
  | inl old ↦ rw old here
  | inr new ↦ rw new (In-insert_hit m h c.pixel_hits here)
]

-- The state of a hit that the cluster has or has not.
pub add_pixel_hit-cases :
    (h : PixelHit) (c : Cluster)
    → ((add_pixel_hit h c).0 ≡ c) ⊎ In h (add_pixel_hit h c).0.pixel_hits
unfolding add_pixel_hit
add_pixel_hit-cases h c = elim (Bool-cases (has_hit h.place c.pixel_hits)) [
  | inl old ↦ inl (rw old refl)
  | inr new ↦ inr (rw new (In-insert_hit_self h c.pixel_hits))
]

pub All-map {ℓ κ λ'} :
    {A : Type λ'} (P : A → Type ℓ) (Q : A → Type κ)
    → ((a : A) → P a → Q a)
    → (as' : List A) → All P as'
    → All Q as'
All-map P Q f [] ps = tt
All-map P Q f (a ∷ as') ps = (f a ps.0, All-map P Q f as' ps.1)

pub All-In {ℓ} :
    (P : PixelHit → Type ℓ) (m : PixelHit) (gs : List PixelHit) → In m gs → All P gs → P m
All-In P m [] here ps = absurd here
All-In P m (g ∷ gs) (inl e) ps = subst P (sym e) ps.0
All-In P m (g ∷ gs) (inr there) ps = All-In P m gs there ps.1

module _ (near : Index → Index → ℕ → Bool) where
  pub Grows-mono :
      {h : PixelHit} {hits : List PixelHit} {used marked : List ℕ} {c : Cluster} (n : ℕ)
      → Grows near h hits used marked c
      → is_used n marked ≡ false
      → is_used n used ≡ false
  unfolding is_used
  Grows-mono n first e = ground arith
  Grows-mono n (more g grows a) e = Grows-mono n grows (ground arith)

  -- A cluster takes only hits that no other one has.
  abbrev pub Free : PixelHit → List PixelHit → List ℕ → PixelHit → Type 0
  Free h hits used m = In m (h ∷ hits) × (is_used m.place used ≡ false)

  pub Grows-Free :
      {h : PixelHit} {hits : List PixelHit} {used marked : List ℕ} {c : Cluster}
      → is_used h.place used ≡ false
      → Grows near h hits used marked c
      → All (Free h hits used) c.pixel_hits
  unfolding new_cluster
  Grows-Free free first = ((inl refl, free), tt)
  Grows-Free {h} {hits} {used} free (more {marked} {c} g grows a) =
      All-add_pixel_hit (Free h hits used) g c (inr a.0, Grows-mono g.place grows a.1)
        (Grows-Free free grows)
