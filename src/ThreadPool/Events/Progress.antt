-- ===== src/ThreadPool/Events/Progress.antt =====
-- A worker is never refused when it buffers its event again, and the loop does not come to a standstill.
use allpix_fork.Base.{
  ℕ, zero, suc, ◌+◌, ◌-◌, ◌≤◌, ◌<◌, ◌≡◌, refl, ap, ◌∙◌, true, false, List, [], ◌∷◌, ◌==◌, ltb,
  arith, length, Bool-cases, inl, inr,
}
use allpix_fork.ThreadPool.{
  SafeQueue, init, got, pushed, pop, push_buffered, complete, insert_id, advance, emplace,
}
use allpix_fork.ThreadPool.Complete.{mem}
use allpix_fork.ThreadPool.Events.{
  State, mark_completed, start, Reach, Inv, count, count_ids, Consecutive, Ordered,
  min_thread_buffer,
}
use allpix_fork.ThreadPool.Events.Counts.{From-count}
use allpix_fork.ThreadPool.Events.Kept.{Reach-Inv}

mark_completed-init :
    (a b n : ℕ) → mark_completed n (init a b) ≡ record (init a b) { current_id = suc n }
unfolding mark_completed complete insert_id advance
mark_completed-init a b zero = refl
mark_completed-init a b (suc n) =
    ap (λ q. complete q (suc n)) (mark_completed-init a b n) ∙ ground arith

pub start-Inv : (workers a b skip : ℕ) → workers ≤ b → Inv (start workers a b skip)
unfolding start
start-Inv workers a b skip h = rw (mark_completed-init a b skip) (record {
  first = suc skip;
  valid = refl;
  enough = h;
  room = omega arith;
  queue = omega arith;
  ordered = tt;
  ascending = tt;
  turn = omega arith;
  once = λ i. ground arith;
})

running-length : (n : ℕ) (is : List ℕ) → mem n is ≡ true → 1 ≤ length is
running-length n [] h = cc
running-length n (i ∷ is) h = omega arith

push_buffered-room :
    (q : SafeQueue ℕ) (n v : ℕ)
    → q.valid ≡ true
    → length q.priority_queue < q.max_priority_size
    → (r : SafeQueue ℕ) × (push_buffered q n v false ≡ pushed r)
unfolding push_buffered
push_buffered-room q n v e h = (
  record q {
    priority_queue = emplace n v q.priority_queue;
    priority_queue_size = q.priority_queue_size + 1;
  },
  ground arith,
)

-- With a buffer of at least one place for each worker, in every state that the event loop reaches from
-- its start, an event that a worker is on can be buffered again without waiting.
pub never_refused :
    (workers max_standard max_buffered skip_events : ℕ) (s : State) (n : ℕ)
    → workers ≤ max_buffered
    → Reach (start workers max_standard max_buffered skip_events) s
    → mem n s.running ≡ true
    → (q : SafeQueue ℕ) × (push_buffered s.q n n false ≡ pushed q)
never_refused workers a b skip s n h r m =
    let k = Reach-Inv (start workers a b skip) s r (start-Inv workers a b skip h) in
    push_buffered-room s.q n n k.valid (omega (arith, k.room, running-length n s.running m))

Ordered-count_ids : (lo i : ℕ) (p : List (ℕ × ℕ)) → Ordered lo p → 1 ≤ count_ids i p → lo ≤ i
Ordered-count_ids lo i [] o h = ground arith
Ordered-count_ids lo i ((n, v) ∷ p) o h = elim (Bool-cases (i == n)) [
  | inl e ↦ ground (arith, o.0)
  | inr e ↦ omega (arith, o.0, Ordered-count_ids n i p o.2 (ground arith))
]

-- The event in turn is at the top of the buffer, if it is in it and none before it is.
top_is_turn :
    (c : ℕ) (p : List (ℕ × ℕ))
    → Ordered 0 p
    → ((i : ℕ) → i < c → count_ids i p ≡ 0)
    → 1 ≤ count_ids c p
    → (rest : List (ℕ × ℕ)) × (p ≡ (c, c) ∷ rest)
top_is_turn c [] o f h = ground arith
top_is_turn c ((n, v) ∷ p) o f h = elim (Bool-cases (c == n)) [
  | inl e ↦ (p, ground arith)
  | inr e ↦ absurd (ground (arith, f n, Ordered-count_ids n c p o.2))
]

no_ids : (p : List (ℕ × ℕ)) → ((i : ℕ) → count_ids i p ≡ 0) → p ≡ []
no_ids [] f = refl
no_ids ((n, v) ∷ p) f = absurd (ground (arith, f n))

first_of_queue :
    (first last : ℕ) (vs : List ℕ)
    → Consecutive first vs last
    → first < last
    → (rest : List ℕ) × (vs ≡ first ∷ rest)
first_of_queue first last [] h l = absurd (omega arith)
first_of_queue first last (v ∷ vs) h l = (vs, ap (λ w. w ∷ vs) h.0)

pop-top :
    (q : SafeQueue ℕ) (b v : ℕ) (rest : List (ℕ × ℕ))
    → q.valid ≡ true
    → q.priority_queue ≡ (q.current_id, v) ∷ rest
    → (r : SafeQueue ℕ) × (pop q b ≡ got v r)
unfolding pop
pop-top q b v rest e h = (
  record q { priority_queue = rest; priority_queue_size = q.priority_queue_size - 1 },
  rw h (ground arith),
)

pop-queue :
    (q : SafeQueue ℕ) (b v : ℕ) (rest : List ℕ)
    → q.valid ≡ true
    → q.priority_queue ≡ []
    → b ≤ q.max_priority_size
    → q.queue ≡ v ∷ rest
    → (r : SafeQueue ℕ) × (pop q b ≡ got v r)
unfolding pop
pop-queue q b v rest e h l f =
    (record q { queue = rest }, rw h (rw f (ground (arith, ap length h))))

Inv-pop :
    (s : State)
    → Inv s
    → s.running ≡ []
    → s.q.current_id < s.next
    → (q : SafeQueue ℕ) × (pop s.q (min_thread_buffer s) ≡ got s.q.current_id q)
Inv-pop s k idle l = elim (Bool-cases (ltb c k.first)) [
  | inl e ↦
      let top =
        top_is_turn c s.q.priority_queue k.ordered (λ i m. ground (arith, k.once i))
          (ground (
            arith,
            k.once c,
            ap (count c) idle,
            From-count (suc c) c s.q.completed_ids k.ascending,
          )) in
      pop-top s.q (min_thread_buffer s) c top.0 k.valid top.1
  | inr e ↦
      let same : k.first ≡ c = ground (arith, k.turn) in
      let front = first_of_queue k.first s.next s.q.queue k.queue (omega (arith, same)) in
      pop-queue s.q (min_thread_buffer s) c front.0 k.valid
        (no_ids s.q.priority_queue (λ i. ground (arith, k.once i))) (ground arith)
        (front.1 ∙ ap (λ v. v ∷ front.0) same)
]
  where
    c : ℕ
    c = s.q.current_id

-- The event loop does not come to a standstill: with a buffer of at least one place for each worker, in
-- every state that the loop reaches from its start in which no worker is on an event and not all submitted
-- events are completed, `pop` gives the event in turn.
pub no_standstill :
    (workers max_standard max_buffered skip_events : ℕ) (s : State)
    → workers ≤ max_buffered
    → Reach (start workers max_standard max_buffered skip_events) s
    → s.running ≡ []
    → s.q.current_id < s.next
    → (q : SafeQueue ℕ) × (pop s.q (min_thread_buffer s) ≡ got s.q.current_id q)
no_standstill workers a b skip s h r idle l =
    Inv-pop s (Reach-Inv (start workers a b skip) s r (start-Inv workers a b skip h)) idle l
