-- ===== src/ThreadPool/Bounds.antt =====
-- The queues never outgrow their bounds, and `prioritySize()` is the size of the buffer.
use allpix_fork.Base.{
  ℕ, ◌+◌, ◌≤◌, ◌≡◌, refl, ap, Bool, true, false, not, ◌&&◌, ◌||◌, List, [], ◌∷◌, ◌++◌, ◌==◌, leb,
  arith, if◌then◌else◌, length, Bool-cases, inl, inr,
}
use allpix_fork.ThreadPool.{
  SafeQueue, Popped, got, closed, waiting, Pushed, pushed, refused, blocked, pop, push,
  push_buffered, complete, emplace, pop_buffered, pop_front, pop_open, invalidate, empty, size,
  is_nil,
}

is_nil-length {ℓ} : {A : Type ℓ} (xs : List A) → is_nil xs ≡ (length xs == 0)
is_nil-length [] = refl
is_nil-length (x ∷ xs) = ground arith

module _ {ℓ} {T : Type ℓ} where
  abbrev pub Bounded : SafeQueue T → Type 0
  Bounded q =
      (length q.queue ≤ q.max_standard_size)
      × (length q.priority_queue ≤ q.max_priority_size)
      × (q.priority_queue_size ≡ length q.priority_queue)

  abbrev pub AfterPop : Popped T → Type 0
  AfterPop closed = Unit {0}
  AfterPop waiting = Unit {0}
  AfterPop (got v q) = Bounded q

  abbrev pub AfterPush : Pushed T → Type 0
  AfterPush refused = Unit {0}
  AfterPush blocked = Unit {0}
  AfterPush (pushed q) = Bounded q

  pub length-snoc : (xs : List T) (x : T) → length (xs ++ (x ∷ [])) ≡ length xs + 1
  length-snoc [] x = refl
  length-snoc (y ∷ xs) x = ground (arith, length-snoc xs x)

  pub length-emplace : (n : ℕ) (v : T) (b : List (ℕ × T)) → length (emplace n v b) ≡ length b + 1
  unfolding emplace
  length-emplace n v [] = refl
  length-emplace n v ((m, w) ∷ b) = ground (arith, length-emplace n v b)

  pop_front-Bounded :
      (q : SafeQueue T) (b : ℕ) (vs : List T)
      → Bounded q
      → q.queue ≡ vs
      → AfterPop (pop_front q vs b)
  pop_front-Bounded q b [] h e = tt
  pop_front-Bounded q b (v ∷ vs) h e =
      elim (Bool-cases (leb (length q.priority_queue + b) q.max_priority_size)) [
        | inl l ↦ rw l (omega (arith, h.0, ap length e), h.1, h.2)
        | inr l ↦ rw l tt
      ]

  pop_open-Bounded :
      (q : SafeQueue T) (b : ℕ) (p : List (ℕ × T))
      → Bounded q
      → q.priority_queue ≡ p
      → AfterPop (pop_open q b (pop_buffered q p))
  pop_open-Bounded q b [] h e = pop_front-Bounded q b q.queue h refl
  pop_open-Bounded q b ((n, v) ∷ p) h e = elim (Bool-cases (n == q.current_id)) [
    | inl l ↦ rw l (h.0, omega (arith, h.1, ap length e), omega (arith, h.2, ap length e))
    | inr l ↦ rw l (pop_front-Bounded q b q.queue h refl)
  ]

  pop-Bounded : (q : SafeQueue T) (b : ℕ) → Bounded q → AfterPop (pop q b)
  unfolding pop
  pop-Bounded q b h = go q.valid
    where
      go :
          (valid : Bool)
          → AfterPop (if not valid then closed else pop_open q b (pop_buffered q q.priority_queue))
      go true = pop_open-Bounded q b q.priority_queue h refl
      go false = tt

  refusal : (q : SafeQueue T) (stop : Bool) → AfterPush (if stop then blocked else refused)
  refusal q true = tt
  refusal q false = tt

  push-Bounded : (q : SafeQueue T) (v : T) (wait : Bool) → Bounded q → AfterPush (push q v wait)
  unfolding push
  push-Bounded q v wait h = elim (Bool-cases (leb q.max_standard_size (length q.queue))) [
    | inl l ↦ rw l (refusal q (wait && q.valid))
    | inr l ↦ rw l (go q.valid (ground (arith, length-snoc q.queue v)))
  ]
    where
      new : SafeQueue T
      new = record q { queue = q.queue ++ (v ∷ []) }

      go :
          (valid : Bool)
          → length (q.queue ++ (v ∷ [])) ≤ q.max_standard_size
          → AfterPush (if valid then pushed new else refused)
      go true l = (l, h.1, h.2)
      go false l = tt

  push_buffered-Bounded :
      (q : SafeQueue T) (n : ℕ) (v : T) (wait : Bool)
      → Bounded q
      → AfterPush (push_buffered q n v wait)
  unfolding push_buffered
  push_buffered-Bounded q n v wait h =
      elim (Bool-cases (leb q.max_priority_size (length q.priority_queue))) [
        | inl l ↦ rw l (refusal q (wait && q.valid))
        | inr l ↦ rw l (go q.valid (ground (arith, length-emplace n v q.priority_queue)))
      ]
    where
      new : SafeQueue T
      new = record q {
        priority_queue = emplace n v q.priority_queue;
        priority_queue_size = q.priority_queue_size + 1;
      }

      go :
          (valid : Bool)
          → length (emplace n v q.priority_queue) ≤ q.max_priority_size
          → AfterPush (if valid then pushed new else refused)
      go true l = (h.0, l, omega (arith, h.2, length-emplace n v q.priority_queue))
      go false l = tt

  empty-size : (q : SafeQueue T) → empty q ≡ (not q.valid || size q == 0)
  unfolding empty size
  empty-size q = rw (is_nil-length q.queue) (rw (is_nil-length q.priority_queue) (ground arith))

  -- From a queue within its bounds every operation leads to one within its bounds: neither part holds
  -- more than its maximum, and `prioritySize()` counts the buffer. The queue is empty if its size is 0
  -- or it has been invalidated.
  pub operations-Bounded :
      (q : SafeQueue T) (v : T) (n buffer_left : ℕ) (wait : Bool)
      → Bounded q
      → AfterPop (pop q buffer_left)
        × AfterPush (push q v wait)
        × AfterPush (push_buffered q n v wait)
        × Bounded (complete q n)
        × Bounded (invalidate q)
        × (empty q ≡ (not q.valid || size q == 0))
  unfolding complete invalidate empty size
  operations-Bounded q v n buffer_left wait h = (
    pop-Bounded q buffer_left h,
    push-Bounded q v wait h,
    push_buffered-Bounded q n v wait h,
    h,
    (omega arith, omega arith, refl),
    empty-size q,
  )
