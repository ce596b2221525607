-- ===== src/ThreadPool/Events/Taken.antt =====
-- src/core/module/ThreadPool.tpp: the invariant when a worker takes a task.
use allpix_fork.Base.{
  ℕ, suc, ◌+◌, ◌-◌, ◌≤◌, ◌<◌, ◌≡◌, refl, ap, true, List, [], ◌∷◌, ◌==◌, leb, arith, if◌then◌else◌,
  length, Bool-cases, inl, inr, subst,
}
use allpix_fork.ThreadPool.{SafeQueue, got, pop, pop_buffered, pop_front, pop_open}
use allpix_fork.ThreadPool.Events.{State, Inv, count_ids, Consecutive, Ordered, min_thread_buffer}
use allpix_fork.ThreadPool.Events.Counts.{Ordered-mono}

-- Where a task that is taken comes from.
pub data Taken (q : SafeQueue ℕ) (b v : ℕ) (r : SafeQueue ℕ) : Type 0 where
  buffered :
      (rest : List (ℕ × ℕ))
      → q.priority_queue ≡ (q.current_id, v) ∷ rest
      → r ≡ record q { priority_queue = rest; priority_queue_size = q.priority_queue_size - 1 }
      → Taken q b v r
  standard :
      (rest : List ℕ)
      → q.queue ≡ v ∷ rest
      → length q.priority_queue + b ≤ q.max_priority_size
      → r ≡ record q { queue = rest }
      → Taken q b v r

pop_front-Taken :
    (q r : SafeQueue ℕ) (b v : ℕ) (vs : List ℕ)
    → q.queue ≡ vs
    → pop_front q vs b ≡ got v r
    → Taken q b v r
pop_front-Taken q r b v [] e h = cc
pop_front-Taken q r b v (w ∷ vs) e h =
    elim (Bool-cases (leb (length q.priority_queue + b) q.max_priority_size)) [
      | inl l ↦ standard vs (ground arith) (ground arith) (ground arith)
      | inr l ↦ ground arith
    ]

pop_open-Taken :
    (q r : SafeQueue ℕ) (b v : ℕ) (p : List (ℕ × ℕ))
    → q.priority_queue ≡ p
    → pop_open q b (pop_buffered q p) ≡ got v r
    → Taken q b v r
pop_open-Taken q r b v [] e h = pop_front-Taken q r b v q.queue refl h
pop_open-Taken q r b v ((n, w) ∷ p) e h = elim (Bool-cases (n == q.current_id)) [
  | inl l ↦ buffered p (ground arith) (ground arith)
  | inr l ↦ pop_front-Taken q r b v q.queue refl (ground arith)
]

pub pop-Taken : (q r : SafeQueue ℕ) (b v : ℕ) → q.valid ≡ true → pop q b ≡ got v r → Taken q b v r
unfolding pop
pop-Taken q r b v e h = pop_open-Taken q r b v q.priority_queue refl (ground arith)

count_ids-top :
    (i n v : ℕ) (p rest : List (ℕ × ℕ))
    → p ≡ (n, v) ∷ rest
    → count_ids i p ≡ (if i == n then 1 else 0) + count_ids i rest
count_ids-top i n v p rest e = ap (count_ids i) e

pub take-Inv :
    (s : State) (v : ℕ) (q : SafeQueue ℕ)
    → Inv s
    → length s.running < s.workers
    → Taken s.q (min_thread_buffer s) v q
    → Inv (record s { q = q; running = v ∷ s.running })
take-Inv s v q k l (buffered rest e r) = rw r (record {
  first = k.first;
  valid = k.valid;
  enough = k.enough;
  room = omega (arith, k.room, ap length e);
  queue = k.queue;
  ordered = Ordered-mono 0 s.q.current_id rest (omega arith) top.2;
  ascending = k.ascending;
  turn = k.turn;
  once = λ i.
      ground (arith, k.once i, top.1, count_ids-top i s.q.current_id v s.q.priority_queue rest e);
})
  where
    top : Ordered 0 ((s.q.current_id, v) ∷ rest)
    top = subst (Ordered 0) e k.ordered
take-Inv s v q k l (standard rest e f r) = rw r (record {
  first = suc k.first;
  valid = k.valid;
  enough = k.enough;
  room = ground (arith, k.enough);
  queue = front.1;
  ordered = k.ordered;
  ascending = k.ascending;
  turn = omega (arith, k.turn);
  once = λ i. ground (arith, k.once i, front.0, k.turn);
})
  where
    front : Consecutive k.first (v ∷ rest) s.next
    front = subst (λ vs. Consecutive k.first vs s.next) e k.queue
