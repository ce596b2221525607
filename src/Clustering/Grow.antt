-- ===== src/Clustering/Grow.antt =====
-- src/modules/DetectorHistogrammer: the inner loop of `doClustering` ends, and what it keeps.
use allpix_fork.Base.{
  ℕ, zero, suc, ◌+◌, ◌≤◌, ◌<◌, ◌≡◌, refl, ◌⊎◌, inl, inr, Bool, true, false, not, ◌||◌, none, some,
  List, [], ◌∷◌, ok, arith, length, All, if◌then◌else◌, Bool-cases, Option-cases,
}
use allpix_fork.Geometry.{Index}
use allpix_fork.Clustering.{
  PixelHit, Cluster, add_pixel_hit, is_used, touching, find_neighbor, grow,
}

-- A hit is one of a list.
abbrev pub In : PixelHit → List PixelHit → Type 0
In h [] = ⊥
In h (g ∷ gs) = (h ≡ g) ⊎ In h gs

-- The hits that no cluster has taken.
unfoldable pub unused : List ℕ → List PixelHit → ℕ
unused used [] = 0
unused used (h ∷ hits) = (if is_used h.place used then 0 else 1) + unused used hits

unused-le : (used : List ℕ) (hits : List PixelHit) → unused used hits ≤ length hits
unfolding unused
unused-le used [] = omega arith
unused-le used (h ∷ hits) = ground (arith, unused-le used hits)

unused-mark :
    (n : ℕ) (used : List ℕ) (hits : List PixelHit) → unused (n ∷ used) hits ≤ unused used hits
unfolding unused is_used
unused-mark n used [] = omega arith
unused-mark n used (h ∷ hits) = ground (arith, unused-mark n used hits)

unused-mark_lt :
    (h : PixelHit) (used : List ℕ) (hits : List PixelHit)
    → In h hits
    → is_used h.place used ≡ false
    → unused (h.place ∷ used) hits < unused used hits
unfolding unused is_used
unused-mark_lt h used [] m free = absurd m
unused-mark_lt h used (g ∷ hits) (inl e) free =
    rw (← e) (ground (arith, unused-mark h.place used hits))
unused-mark_lt h used (g ∷ hits) (inr m) free = ground (arith, unused-mark_lt h used hits m free)

module _ (near : Index → Index → ℕ → Bool) where
  -- The hit that the loop stops at can be added.
  abbrev pub Addable : List ℕ → Cluster → List PixelHit → PixelHit → Type 0
  Addable used c hits h =
      In h hits × (is_used h.place used ≡ false) × (touching near c.pixel_hits h ≡ true)

  find_neighbor-Addable :
      (used : List ℕ) (c : Cluster) (hits : List PixelHit) (h : PixelHit)
      → find_neighbor near used c hits ≡ some h
      → Addable used c hits h
  unfolding find_neighbor
  find_neighbor-Addable used c [] h e = cc
  find_neighbor-Addable used c (g ∷ hits) h e =
      elim (Bool-cases (is_used g.place used || not (touching near c.pixel_hits g))) [
        | inl pass ↦
            let (there, free, touches) = find_neighbor-Addable used c hits h (ground arith) in
            (inr there, free, touches)
        | inr stop ↦
            let same : g ≡ h = ground arith in rw (← same) (inl refl, ground arith, ground arith)
      ]

  -- A hit that the loop passes over is marked or does not touch the cluster.
  abbrev pub Passed : List ℕ → Cluster → PixelHit → Type 0
  Passed used c h = (is_used h.place used ≡ true) ⊎ (touching near c.pixel_hits h ≡ false)

  pub find_neighbor-Passed :
      (used : List ℕ) (c : Cluster) (hits : List PixelHit)
      → find_neighbor near used c hits ≡ none
      → All (Passed used c) hits
  unfolding find_neighbor
  find_neighbor-Passed used c [] e = tt
  find_neighbor-Passed used c (g ∷ hits) e = elim (Bool-cases (is_used g.place used)) [
    | inl marked ↦ (inl marked, find_neighbor-Passed used c hits (ground arith))
    | inr free ↦ elim (Bool-cases (touching near c.pixel_hits g)) [
      | inl touches ↦ absurd (ground arith)
      | inr apart ↦ (inr apart, find_neighbor-Passed used c hits (ground arith))
    ]
  ]

  grow-done :
      (fuel : ℕ) (hits : List PixelHit) (used : List ℕ) (c : Cluster)
      → find_neighbor near used c hits ≡ none
      → grow near (suc fuel) hits used c ≡ ok (used, c)
  unfolding grow
  grow-done fuel hits used c e = rw (e, grow) refl

  grow-more :
      (fuel : ℕ) (hits : List PixelHit) (used : List ℕ) (c : Cluster) (h : PixelHit)
      → find_neighbor near used c hits ≡ some h
      → grow near (suc fuel) hits used c
        ≡ grow near fuel hits (h.place ∷ used) (add_pixel_hit h c).0
  unfolding grow
  grow-more fuel hits used c h e = rw (e, grow) refl

  -- With fuel for the hits that are left, the loop ends. It keeps what adding a hit keeps, and
  -- afterwards there is no hit left to add.
  pub grow_inv {ℓ} :
      (P : List ℕ → Cluster → Type ℓ) (hits : List PixelHit)
      → ((used : List ℕ) (c : Cluster) (h : PixelHit)
          → Addable used c hits h
          → P used c
          → P (h.place ∷ used) (add_pixel_hit h c).0)
      → (fuel : ℕ) (used : List ℕ) (c : Cluster) → unused used hits < fuel
      → P used c
      → (used' : List ℕ) × (c' : Cluster) × (grow near fuel hits used c ≡ ok (used', c'))
        × P used' c'
        × All (Passed used' c') hits
  grow_inv P hits keep zero used c enough p = absurd (omega arith)
  grow_inv P hits keep (suc fuel) used c enough p =
      elim (Option-cases (find_neighbor near used c hits)) [
        | inl e ↦ (used, c, grow-done fuel hits used c e, p, find_neighbor-Passed used c hits e)
        | inr (h, e) ↦
            let addable = find_neighbor-Addable used c hits h e in
            rw (grow-more fuel hits used c h e) (
              grow_inv P hits keep fuel (h.place ∷ used) (add_pixel_hit h c).0
                (omega (arith, unused-mark_lt h used hits addable.0 addable.1))
                (keep used c h addable p))
      ]

  -- The fuel of `cluster_hits` is enough.
  pub enough_rounds : (used : List ℕ) (hits : List PixelHit) → unused used hits < length hits + 1
  enough_rounds used hits = omega (arith, unused-le used hits)
