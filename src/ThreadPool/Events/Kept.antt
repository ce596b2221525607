-- ===== src/ThreadPool/Events/Kept.antt =====
-- Every step of the event loop keeps the invariant.
use allpix_fork.Base.{
  ℕ, suc, ◌+◌, ◌≤◌, ◌<◌, ◌≡◌, Bool, true, false, List, [], ◌∷◌, ◌++◌, ◌==◌, ltb, leb, arith,
  if◌then◌else◌, length, Bool-cases, inl, inr,
}
use allpix_fork.ThreadPool.{
  SafeQueue, pushed, push, push_buffered, complete, insert_id, advance, emplace,
}
use allpix_fork.ThreadPool.Complete.{
  From, mem, rest_of, next_of, advance-From, insert_id-From, From-mono,
}
use allpix_fork.ThreadPool.Events.{
  State, Step, submit, take, finish, reschedule, Reach, here, later, Inv, erase, count,
  min_thread_buffer,
}
use allpix_fork.ThreadPool.Events.Counts.{
  count-erase, length-erase, count-mem, From-count, count-insert_id, count-advance, count-emplace,
  length-emplace, emplace-Ordered, Consecutive-concat,
}
use allpix_fork.ThreadPool.Events.Taken.{pop-Taken, take-Inv}

push-pushed :
    (q r : SafeQueue ℕ) (v : ℕ) (wait : Bool)
    → push q v wait ≡ pushed r
    → r ≡ record q { queue = q.queue ++ (v ∷ []) }
unfolding push
push-pushed q r v wait h = ground arith

push_buffered-pushed :
    (q r : SafeQueue ℕ) (n v : ℕ) (wait : Bool)
    → push_buffered q n v wait ≡ pushed r
    → (length q.priority_queue < q.max_priority_size)
      × (r ≡ record q {
        priority_queue = emplace n v q.priority_queue;
        priority_queue_size = q.priority_queue_size + 1;
      })
unfolding push_buffered
push_buffered-pushed q r n v wait h = ground arith

submit-Inv :
    (s : State) (q : SafeQueue ℕ)
    → Inv s
    → push s.q s.next true ≡ pushed q
    → Inv (record s { q = q; next = s.next + 1 })
submit-Inv s q k h = rw (push-pushed s.q q s.next true h) (record {
  first = k.first;
  valid = k.valid;
  enough = k.enough;
  room = k.room;
  queue = Consecutive-concat k.first s.next s.q.queue k.queue;
  ordered = k.ordered;
  ascending = k.ascending;
  turn = k.turn;
  once = k.once;
})

reschedule-Inv :
    (s : State) (n : ℕ) (q : SafeQueue ℕ)
    → Inv s
    → mem n s.running ≡ true
    → push_buffered s.q n n false ≡ pushed q
    → Inv (record s { q = q; running = erase n s.running })
reschedule-Inv s n q k m h = rw (push_buffered-pushed s.q q n n false h).1 (record {
  first = k.first;
  valid = k.valid;
  enough = k.enough;
  room = omega (arith, length-emplace n n s.q.priority_queue, length-erase n s.running m, k.room);
  queue = k.queue;
  ordered = emplace-Ordered 0 n s.q.priority_queue (omega arith) k.ordered;
  ascending = k.ascending;
  turn = k.turn;
  once = λ i.
      ground (arith, count-emplace i n n s.q.priority_queue, count-erase i n s.running m, k.once i);
})

finish-Inv :
    (s : State) (n : ℕ)
    → Inv s
    → mem n s.running ≡ true
    → Inv (record s { q = complete s.q n; running = erase n s.running })
unfolding complete
finish-Inv s n k m = record {
  first = k.first;
  valid = k.valid;
  enough = k.enough;
  room = omega (arith, length-erase n s.running m, k.room);
  queue = k.queue;
  ordered = k.ordered;
  ascending = behind;
  turn = turn;
  once = λ i. elim (Bool-cases (leb c i)) [
    | inl e ↦ ground (
      arith,
      k.once i,
      known i,
      count-advance ids c i from,
      count-erase i n s.running m,
      From-count (suc new) i (rest_of (advance ids c)) behind,
      reach,
      turn,
    )
    | inr e ↦ ground (
      arith,
      k.once i,
      count-erase i n s.running m,
      From-count (suc new) i (rest_of (advance ids c)) behind,
      reach,
    )
  ];
}
  where
    c : ℕ
    c = s.q.current_id

    ids : List ℕ
    ids = insert_id n s.q.completed_ids

    due : c ≤ n
    due = ground (arith, k.once n, count-mem n s.running m)

    alone : count n s.q.completed_ids ≡ 0
    alone = ground (arith, k.once n, count-mem n s.running m)

    from : From c ids
    from =
        insert_id-From c n s.q.completed_ids due
          (From-mono c (suc c) s.q.completed_ids (omega arith) k.ascending)

    known : (i : ℕ) → count i ids ≡ (if i == n then 1 else 0) + count i s.q.completed_ids
    known i = count-insert_id i n s.q.completed_ids alone

    new : ℕ
    new = next_of (advance ids c)

    behind : From (suc new) (rest_of (advance ids c))
    behind = (advance-From ids c from).0

    reach : c ≤ new
    reach = (advance-From ids c from).1

    turn : new ≤ k.first
    turn = elim (Bool-cases (ltb k.first new)) [
      | inl e ↦ absurd (
          ground (
            arith,
            k.once k.first,
            k.once n,
            count-mem n s.running m,
            known k.first,
            count-advance ids c k.first from k.turn,
          ))
      | inr e ↦ ground arith
    ]

Step-Inv : (s t : State) → Step s t → Inv s → Inv t
Step-Inv _ _ (submit s q h) k = submit-Inv s q k h
Step-Inv _ _ (take s v q l h) k =
    take-Inv s v q k l (pop-Taken s.q q (min_thread_buffer s) v k.valid h)
Step-Inv _ _ (finish s n m) k = finish-Inv s n k m
Step-Inv _ _ (reschedule s n q m h) k = reschedule-Inv s n q k m h

-- In the event loop, from a state that keeps the invariant every state that is reached keeps it: an
-- event that a worker has taken is in one place only (with a worker, in the buffer, or completed out of
-- turn) until all events before it and it are completed, and then in none; and the buffer has room for
-- the tasks of all workers.
pub Reach-Inv : (s t : State) → Reach s t → Inv s → Inv t
Reach-Inv s t here k = k
Reach-Inv s t (later {t = u} r h) k = Step-Inv u t h (Reach-Inv s u r k)
