-- ===== src/ThreadPool/Loop/Rounds.antt =====
-- src/core/module/ThreadPool.tpp: what one hold of the lock in `complete` does.
use allpix_fork.Base.{
  ℕ, zero, suc, ◌≤◌, ◌≡◌, refl, Bool, true, false, ◌||◌, List, [], ◌∷◌, some, ◌==◌, ==_iff, arith,
  Bool-cases, inl, inr, subst, sym,
}
use allpix_fork.ThreadPool.{SafeQueue}
use allpix_fork.ThreadPool.Complete.{From, mem, From-not_mem}
use allpix_fork.ThreadPool.Loop.{
  Iter, at_id, at_end, Round, returned, unlocked, undefined, begin, erase, following, visit,
  get_iter, remove,
}

abbrev pub is_at : ℕ → Iter → Bool
is_at c (at_id i) = i == c
is_at c at_end = false

abbrev pub points_to : ℕ → List Iter → Bool
points_to c [] = false
points_to c (it ∷ its) = is_at c it || points_to c its

pub points_to-remove :
    (c k : ℕ) (its : List Iter) (it : Iter)
    → get_iter its k ≡ some it
    → is_at c it ≡ false
    → points_to c (remove k its) ≡ points_to c its
points_to-remove c k [] it e away = refl
points_to-remove c zero (x ∷ its) it e away = ground arith
points_to-remove c (suc k) (x ∷ its) it e away = ground (arith, points_to-remove c k its it)

following_next :
    (is : List ℕ) (c : ℕ)
    → From (suc c) is
    → mem (suc c) is ≡ true
    → is_at (suc c) (following c is) ≡ true
unfolding following
following_next [] c f m = ground arith
following_next (j ∷ is) c f m = ground (arith, From-not_mem (suc j) (suc c) is f.1)

-- The erasure of the least id.
pub erase_first :
    (is : List ℕ) (c : ℕ)
    → From c is
    → mem c is ≡ true
    → From (suc c) (erase c is)
      × ((i : ℕ) → suc c ≤ i → mem i (erase c is) ≡ mem i is)
      × (mem (suc c) (erase c is) ≡ true → is_at (suc c) (following c is) ≡ true)
unfolding erase following
erase_first [] c f m = ground arith
erase_first (j ∷ is) c f m = elim (Bool-cases (c == j)) [
  | inl e ↦
      let same : c ≡ j = (==_iff c j).0 e in
      let g : From (suc c) is = subst (λ k. From (suc k) is) (sym same) f.1 in
      rw e (g, λ i l. ground arith, λ h. ground (arith, following_next is c g h))
  | inr e ↦ absurd (ground (arith, From-not_mem (suc j) c is f.1))
]

-- Where the least id is not next in turn, the id that is next is not in the set.
pub begin_at : (is : List ℕ) (c : ℕ) → From c is → is_at c (begin is) ≡ false → mem c is ≡ false
begin_at [] c f away = refl
begin_at (j ∷ is) c f away = ground (arith, From-not_mem (suc j) c is f.1)

module _ {T : Type 0} where
  -- What a hold of the lock leaves that ends the call, and what one leaves that goes on.
  abbrev pub Left : SafeQueue T → Iter → Round T → Type 0
  Left q it (returned r) = (r ≡ q) × (is_at q.current_id it ≡ false)
  Left q it (unlocked r next) =
      (mem q.current_id q.completed_ids ≡ true)
      × (r ≡ record q {
        completed_ids = erase q.current_id q.completed_ids;
        current_id = suc q.current_id;
      })
      × (next ≡ following q.current_id q.completed_ids)
  Left q it undefined = Unit {0}

  visit-Left : (q : SafeQueue T) (it : Iter) → Left q it (visit q it)
  unfolding visit
  visit-Left q at_end = (refl, refl)
  visit-Left q (at_id i) = elim (Bool-cases (mem i q.completed_ids)) [
    | inl m ↦ elim (Bool-cases (i == q.current_id)) [
      | inl e ↦
          let same : i ≡ q.current_id = (==_iff i q.current_id).0 e in
          rw (m, e) (subst (λ c. mem c q.completed_ids ≡ true) same m, cc, cc)
      | inr e ↦ rw (m, e) (refl, e)
    ]
    | inr m ↦ rw m tt
  ]

  pub visit_returned :
      (q : SafeQueue T) (it : Iter) (r : SafeQueue T)
      → visit q it ≡ returned r
      → Left q it (returned r)
  visit_returned q it r e = subst (Left q it) e (visit-Left q it)

  pub visit_unlocked :
      (q : SafeQueue T) (it : Iter) (r : SafeQueue T) (next : Iter)
      → visit q it ≡ unlocked r next
      → Left q it (unlocked r next)
  visit_unlocked q it r next e = subst (Left q it) e (visit-Left q it)
