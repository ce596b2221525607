-- ===== src/ThreadPool/Loop/Quiet.antt =====
-- src/core/module/ThreadPool.tpp: the interleaved loops of `complete` against `complete` as one step.
use allpix_fork.Base.{
  ℕ, suc, ◌≤◌, ◌<◌, ◌≡◌, refl, Bool, true, false, List, [], ◌∷◌, ◌==◌, ltb, arith, Bool-cases, inl,
  inr, subst, sym,
}
use allpix_fork.ThreadPool.{SafeQueue, init, insert_id, complete}
use allpix_fork.ThreadPool.Complete.{
  From, mem, From-not_mem, insert_id-From, insert_id-mem, Tracks, complete-Tracks,
}
use allpix_fork.ThreadPool.Loop.{
  Iter, begin, erase, following, with_id, enter, Loops, remove, start, Step, enter_return,
  enter_unlock, resume_return, resume_unlock, resume_undefined, Reach, here, later,
}
use allpix_fork.ThreadPool.Loop.Rounds.{
  points_to, points_to-remove, erase_first, begin_at, visit_returned, visit_unlocked,
}

abbrev Distinct : List ℕ → Type 0
Distinct [] = Unit {0}
Distinct (n ∷ ns) = (mem n ns ≡ false) × Distinct ns

From-suc : (is : List ℕ) (c : ℕ) → From c is → mem c is ≡ false → From (suc c) is
From-suc [] c f gone = tt
From-suc (j ∷ is) c f gone = (ground arith, f.1)

-- Ascending lists with the same elements are equal.
same_ids :
    (is js : List ℕ) (lo : ℕ) → From lo is → From lo js → ((i : ℕ) → mem i is ≡ mem i js) → is ≡ js
same_ids [] [] lo f g same = refl
same_ids [] (j ∷ js) lo f g same = absurd (ground (arith, same j))
same_ids (i ∷ is) [] lo f g same = absurd (ground (arith, same i))
same_ids (i ∷ is) (j ∷ js) lo f g same =
    let first : i ≡ j =
      ground
        (arith, same i, same j, From-not_mem (suc i) j is f.1, From-not_mem (suc j) i js g.1) in
    let rest = same_ids is js (suc i) f.1 (subst (λ k. From (suc k) js) (sym first) g.1) (λ k.
      ground
        (arith, first, same k, From-not_mem (suc i) k is f.1, From-not_mem (suc j) k js g.1)) in
    rw (first, rest) refl

module _ {T : Type 0} where
  -- The set holds the completed ids from the current one on, all below it are completed.
  pub record IsKept (done : List ℕ) (q : SafeQueue T) : Type 0 where
    pub ascending : From q.current_id q.completed_ids
    pub below : (i : ℕ) → i < q.current_id → mem i done ≡ true
    pub known : (i : ℕ) → q.current_id ≤ i → mem i q.completed_ids ≡ mem i done
    pub distinct : Distinct done

  -- While the id that is next in turn is in the set, some thread is about to look at it.
  abbrev pub IsPointed : SafeQueue T → List Iter → Type 0
  IsPointed q its = mem q.current_id q.completed_ids ≡ true → points_to q.current_id its ≡ true

  insert-IsKept :
      (done : List ℕ) (q : SafeQueue T) (n : ℕ)
      → IsKept done q
      → mem n done ≡ false
      → IsKept (n ∷ done) (with_id q n)
  insert-IsKept done q n v new = record {
    ascending = insert_id-From q.current_id n q.completed_ids ahead v.ascending;
    below = λ i l. ground (arith, v.below i);
    known = λ i l. ground (arith, insert_id-mem i n q.completed_ids, v.known i);
    distinct = (new, v.distinct);
  }
    where
      ahead : q.current_id ≤ n
      ahead = elim (Bool-cases (ltb n q.current_id)) [
        | inl e ↦ absurd (ground (arith, v.below n))
        | inr e ↦ ground arith
      ]

  abbrev erased : SafeQueue T → SafeQueue T
  erased q = record q {
    completed_ids = erase q.current_id q.completed_ids;
    current_id = suc q.current_id;
  }

  erase-IsKept :
      (done : List ℕ) (q : SafeQueue T) (its : List Iter)
      → IsKept done q
      → mem q.current_id q.completed_ids ≡ true
      → IsKept done (erased q) × IsPointed (erased q) (following q.current_id q.completed_ids ∷ its)
  erase-IsKept done q its v m =
      let (above, same, next) = erase_first q.completed_ids q.current_id v.ascending m in
      (
        record {
          ascending = above;
          below = λ i l. elim (Bool-cases (i == q.current_id)) [
            | inl e ↦ ground (arith, v.known i (ground arith))
            | inr e ↦ ground (arith, v.below i)
          ];
          known = λ i l. ground (arith, same i, v.known i);
          distinct = v.distinct;
        },
        λ h. ground (arith, next h),
      )

  -- Both, for the queue and the iterators that a step leaves.
  abbrev pub Both : List ℕ → SafeQueue T → List Iter → Type 0
  Both done q its = IsKept done q × IsPointed q its

  move :
      (done : List ℕ) (q r : SafeQueue T) (it next : Iter) (its : List Iter)
      → (r ≡ q)
      → (next ≡ it)
      → Both done q (it ∷ its)
      → Both done r (next ∷ its)
  move done q r it next its same same_iter b =
      subst (λ x. Both done x (next ∷ its)) (sym same)
        (subst (λ x. Both done q (x ∷ its)) (sym same_iter) b)

  abbrev pub Inv : Loops T → Type 0
  Inv s = Both s.completed s.queue s.iters

  Step-Inv : {s t : Loops T} → Step s t → Inv s → Inv t
  unfolding enter
  Step-Inv (enter_return s n q new e) (v, p) =
      let (same, away) =
        visit_returned (with_id s.queue n) (begin (insert_id n s.queue.completed_ids)) q e in
      let w = insert-IsKept s.completed s.queue n v new in
      let gone = begin_at (insert_id n s.queue.completed_ids) s.queue.current_id w.ascending away in
      subst (λ r. Both (n ∷ s.completed) r s.iters) (sym same) (w, λ h. ground arith)
  Step-Inv (enter_unlock s n q next new e) (v, p) =
      let (m, same, same_iter) =
        visit_unlocked (with_id s.queue n) (begin (insert_id n s.queue.completed_ids)) q next e in
      let w = insert-IsKept s.completed s.queue n v new in
      move (n ∷ s.completed) (erased (with_id s.queue n)) q
        (following s.queue.current_id (insert_id n s.queue.completed_ids)) next s.iters same
        same_iter (erase-IsKept (n ∷ s.completed) (with_id s.queue n) s.iters w m)
  Step-Inv (resume_return s k it q g e) (v, p) =
      let (same, away) = visit_returned s.queue it q e in
      subst (λ r. Both s.completed r (remove k s.iters)) (sym same)
        (v, λ h. ground (arith, points_to-remove s.queue.current_id k s.iters it g away, p h))
  Step-Inv (resume_unlock s k it q next g e) (v, p) =
      let (m, same, same_iter) = visit_unlocked s.queue it q next e in
      move s.completed (erased s.queue) q (following s.queue.current_id s.queue.completed_ids) next
        (remove k s.iters) same same_iter (erase-IsKept s.completed s.queue (remove k s.iters) v m)
  Step-Inv (resume_undefined s k it g e) v = v

  Reach-Inv_loops : {s t : Loops T} → Reach s t → Inv s → Inv t
  Reach-Inv_loops here v = v
  Reach-Inv_loops (later r st) v = Step-Inv st (Reach-Inv_loops r v)

  start-Inv : (m n : ℕ) → Inv (start {T = T} m n)
  start-Inv m n = (
    record { ascending = tt; below = λ i l. ground arith; known = λ i l. refl; distinct = tt },
    λ h. h,
  )

  -- The ids that were completed, one `complete` after the other.
  unfoldable pub complete_all : SafeQueue T → List ℕ → SafeQueue T
  complete_all q [] = q
  complete_all q (n ∷ ns) = complete (complete_all q ns) n

  complete_all-Tracks :
      (m n : ℕ) (ids : List ℕ)
      → Distinct ids
      → Tracks (λ i. mem i ids) (complete_all (init m n) ids)
  unfolding complete_all
  complete_all-Tracks m n [] d = record {
    ascending = tt;
    below = λ i l. ground arith;
    current = refl;
    above = λ i l. refl;
  }
  complete_all-Tracks m n (i ∷ ids) d =
      complete-Tracks (λ j. mem j ids) (complete_all (init m n) ids) i
        (complete_all-Tracks m n ids d.1) d.0

  quiet-Tracks : (s : Loops T) → s.iters ≡ [] → Inv s → Tracks (λ i. mem i s.completed) s.queue
  quiet-Tracks s e (v, p) = record {
    ascending = From-suc s.queue.completed_ids s.queue.current_id v.ascending gone;
    below = v.below;
    current = ground (arith, v.known s.queue.current_id);
    above = λ i l. v.known i (omega arith);
  }
    where
      gone : mem s.queue.current_id s.queue.completed_ids ≡ false
      gone = elim (Bool-cases (mem s.queue.current_id s.queue.completed_ids)) [
        | inl h ↦
            absurd (ground (arith, subst (λ its. points_to s.queue.current_id its ≡ true) e (p h)))
        | inr h ↦ h
      ]

  -- The completed ids determine what `Tracks` says of a queue.
  same_queue :
      (done : ℕ → Bool) (q r : SafeQueue T)
      → Tracks done q
      → Tracks done r
      → (q.current_id ≡ r.current_id) × (q.completed_ids ≡ r.completed_ids)
  same_queue done q r t u = (
    same,
    same_ids q.completed_ids r.completed_ids (suc q.current_id) t.ascending there (λ i. ground (
      arith,
      same,
      t.above i,
      u.above i,
      From-not_mem (suc q.current_id) i q.completed_ids t.ascending,
      From-not_mem (suc q.current_id) i r.completed_ids there,
    )),
  )
    where
      same : q.current_id ≡ r.current_id
      same = ground (arith, t.below r.current_id, u.below q.current_id, t.current, u.current)

      there : From (suc q.current_id) r.completed_ids
      there = subst (λ c. From (suc c) r.completed_ids) (sym same) u.ascending

  -- However the loops of several threads interleave, as long as none of them has used an iterator to an
  -- element that another one has erased (which is undefined behaviour): once no thread is
  -- between two holds of the lock, the current id and the set of completed ids are those that `complete`,
  -- taken as one step, gives for the completed ids one after the other.
  pub Reach-complete_all :
      (m n : ℕ) (s : Loops T)
      → Reach (start m n) s
      → s.dangled ≡ false
      → s.iters ≡ []
      → (s.queue.current_id ≡ (complete_all (init m n) s.completed).current_id)
        × (s.queue.completed_ids ≡ (complete_all (init m n) s.completed).completed_ids)
  Reach-complete_all m n s r defined quiet =
      let v = Reach-Inv_loops r (start-Inv m n) in
      same_queue (λ i. mem i s.completed) s.queue (complete_all (init m n) s.completed)
        (quiet-Tracks s quiet v) (complete_all-Tracks m n s.completed v.0.distinct)
