-- ===== src/ThreadPool/Complete.antt =====
-- `current_id` is the least id that has not been completed.
use allpix_fork.Base.{
  ℕ, suc, ◌≤◌, ◌<◌, ◌≡◌, refl, Bool, true, false, ◌||◌, List, [], ◌∷◌, arith, ◌==◌, ==_iff, ltb,
  Bool-cases, inl, inr, subst,
}
use allpix_fork.ThreadPool.{SafeQueue, insert_id, advance, complete}

-- Ascending ids, from `lo` on.
abbrev pub From : ℕ → List ℕ → Type 0
From lo [] = Unit {0}
From lo (i ∷ is) = (lo ≤ i) × From (suc i) is

abbrev pub mem : ℕ → List ℕ → Bool
mem i [] = false
mem i (j ∷ is) = i == j || mem i is

pub From-mono : (a b : ℕ) (is : List ℕ) → a ≤ b → From b is → From a is
From-mono a b [] h f = tt
From-mono a b (i ∷ is) h f = (omega arith, f.1)

pub insert_id-From : (lo n : ℕ) (is : List ℕ) → lo ≤ n → From lo is → From lo (insert_id n is)
unfolding insert_id
insert_id-From lo n [] h f = (h, tt)
insert_id-From lo n (i ∷ is) h f = ground (arith, insert_id-From (suc i) n is)

pub insert_id-mem : (i n : ℕ) (is : List ℕ) → mem i (insert_id n is) ≡ (i == n || mem i is)
unfolding insert_id
insert_id-mem i n [] = refl
insert_id-mem i n (j ∷ is) = ground (arith, insert_id-mem i n is)

pub From-not_mem : (lo i : ℕ) (is : List ℕ) → From lo is → i < lo → mem i is ≡ false
From-not_mem lo i [] f h = refl
From-not_mem lo i (j ∷ is) f h = ground (arith, From-not_mem (suc j) i is f.1)

abbrev pub rest_of : List ℕ × ℕ → List ℕ
rest_of (ids, current) = ids

abbrev pub next_of : List ℕ × ℕ → ℕ
next_of (ids, current) = current

-- What the loop leaves starts behind the new id, and what it erased lies in front of it.
pub advance-From :
    (is : List ℕ) (c : ℕ)
    → From c is
    → From (suc (next_of (advance is c))) (rest_of (advance is c)) × (c ≤ next_of (advance is c))
unfolding advance
advance-From [] c f = (tt, omega arith)
advance-From (i ∷ is) c f = elim (Bool-cases (i == c)) [
  | inl e ↦
      let same : i ≡ c = (==_iff i c).0 e in
      let r = advance-From is (suc c) (subst (λ k. From (suc k) is) same f.1) in
      rw e (r.0, omega (arith, r.1))
  | inr e ↦ rw e ((ground arith, f.1), omega arith)
]

pub advance-mem :
    (is : List ℕ) (c i : ℕ)
    → From c is
    → c ≤ i
    → mem i is ≡ (ltb i (next_of (advance is c)) || mem i (rest_of (advance is c)))
unfolding advance
advance-mem [] c i f h = ground arith
advance-mem (j ∷ is) c i f h = elim (Bool-cases (j == c)) [
  | inl e ↦
      let same : j ≡ c = (==_iff j c).0 e in
      let g = subst (λ k. From (suc k) is) same f.1 in
      rw e (
        ground (
          arith,
          same,
          advance-mem is (suc c) i g,
          (advance-From is (suc c) g).1,
          From-not_mem (suc c) i is g,
        ))
  | inr e ↦ rw e (ground arith)
]

module _ {ℓ} {T : Type ℓ} where
  -- `done` says which ids have been completed: all below the current one, which is not, and behind it
  -- those in the set.
  pub record Tracks (done : ℕ → Bool) (q : SafeQueue T) : Type 0 where
    pub ascending : From (suc q.current_id) q.completed_ids
    pub below : (i : ℕ) → i < q.current_id → done i ≡ true
    pub current : done q.current_id ≡ false
    pub above : (i : ℕ) → q.current_id < i → mem i q.completed_ids ≡ done i

  -- When the current id is the least that is not complete, and the set holds those that are complete
  -- behind it, completing one more id that was not complete keeps both so.
  pub complete-Tracks :
      (done : ℕ → Bool) (q : SafeQueue T) (n : ℕ)
      → Tracks done q
      → done n ≡ false
      → Tracks (λ i. i == n || done i) (complete q n)
  unfolding complete
  complete-Tracks done q n t h = record {
    ascending = (advance-From ids c from).0;
    below = λ i l. elim (Bool-cases (ltb i c)) [
      | inl e ↦ ground (arith, t.below i)
      | inr e ↦ ground (arith, known i (ground arith), advance-mem ids c i from (ground arith))
    ];
    current = ground (
      arith,
      known next reach,
      advance-mem ids c next from reach,
      From-not_mem (suc next) next (rest_of (advance ids c)) (advance-From ids c from).0,
    );
    above = λ i l.
        let far : c ≤ i = omega (arith, reach) in
        ground (arith, known i far, advance-mem ids c i from far);
  }
    where
      c : ℕ
      c = q.current_id

      ids : List ℕ
      ids = insert_id n q.completed_ids

      later : c ≤ n
      later = elim (Bool-cases (ltb n c)) [
        | inl e ↦ absurd (ground (arith, t.below n))
        | inr e ↦ ground arith
      ]

      from : From c ids
      from =
          insert_id-From c n q.completed_ids later
            (From-mono c (suc c) q.completed_ids (omega arith) t.ascending)

      next : ℕ
      next = next_of (advance ids c)

      reach : c ≤ next
      reach = (advance-From ids c from).1

      known : (i : ℕ) → c ≤ i → mem i ids ≡ (i == n || done i)
      known i l = ground (
        arith,
        insert_id-mem i n q.completed_ids,
        t.above i,
        t.current,
        From-not_mem (suc c) i q.completed_ids t.ascending,
      )
