-- ===== src/ThreadPool/Pool/Sizes.antt =====
-- src/core/module/ThreadPool.tpp: how the methods of the queue change its size.
use allpix_fork.Base.{
  ℕ, ◌+◌, ◌≡◌, refl, ap, Bool, true, false, not, ◌&&◌, List, [], ◌∷◌, ◌==◌, leb, arith,
  if◌then◌else◌, length, Bool-cases, inl, inr,
}
use allpix_fork.ThreadPool.{
  SafeQueue, Popped, closed, waiting, got, Pushed, refused, blocked, pushed, pop, push,
  push_buffered, pop_buffered, pop_front, pop_open, size,
}
use allpix_fork.ThreadPool.Bounds.{length-snoc, length-emplace}
use allpix_fork.ThreadPool.Pool.{Slot, standard, buffered, submit_push}

module _ {T : Type 0} where
  -- What a call of `pop` or `push` leaves, if it succeeds.
  abbrev pub Taken : SafeQueue T → Popped T → Type 0
  Taken q closed = Unit {0}
  Taken q waiting = Unit {0}
  Taken q (got v r) = (size q ≡ size r + 1) × (r.valid ≡ q.valid)

  abbrev pub Put : SafeQueue T → Pushed T → Type 0
  Put q refused = Unit {0}
  Put q blocked = Unit {0}
  Put q (pushed r) = (size r ≡ size q + 1) × (r.valid ≡ q.valid)

  pop_front-Taken :
      (q : SafeQueue T) (b : ℕ) (vs : List T) → q.queue ≡ vs → Taken q (pop_front q vs b)
  unfolding size
  pop_front-Taken q b [] e = tt
  pop_front-Taken q b (v ∷ vs) e =
      elim (Bool-cases (leb (length q.priority_queue + b) q.max_priority_size)) [
        | inl l ↦ rw l (omega (arith, ap length e), refl)
        | inr l ↦ rw l tt
      ]

  pop_open-Taken :
      (q : SafeQueue T) (b : ℕ) (p : List (ℕ × T))
      → q.priority_queue ≡ p
      → Taken q (pop_open q b (pop_buffered q p))
  unfolding size
  pop_open-Taken q b [] e = pop_front-Taken q b q.queue refl
  pop_open-Taken q b ((n, v) ∷ p) e = elim (Bool-cases (n == q.current_id)) [
    | inl l ↦ rw l (omega (arith, ap length e), refl)
    | inr l ↦ rw l (pop_front-Taken q b q.queue refl)
  ]

  pub pop-Taken : (q : SafeQueue T) (b : ℕ) → Taken q (pop q b)
  unfolding pop
  pop-Taken q b = go q.valid
    where
      go :
          (valid : Bool)
          → Taken q (if not valid then closed else pop_open q b (pop_buffered q q.priority_queue))
      go true = pop_open-Taken q b q.priority_queue refl
      go false = tt

  refusal : (q : SafeQueue T) (stop : Bool) → Put q (if stop then blocked else refused)
  refusal q true = tt
  refusal q false = tt

  accepted :
      (q r : SafeQueue T) (stop : Bool)
      → Put q (pushed r)
      → Put q (if stop then pushed r else refused)
  accepted q r true h = h
  accepted q r false h = tt

  push-Put : (q : SafeQueue T) (v : T) (wait : Bool) → Put q (push q v wait)
  unfolding push size
  push-Put q v wait = elim (Bool-cases (leb q.max_standard_size (length q.queue))) [
    | inl full ↦ rw full (refusal q (wait && q.valid))
    | inr room ↦ rw room (accepted q _ q.valid (omega (arith, length-snoc q.queue v), refl))
  ]

  push_buffered-Put :
      (q : SafeQueue T) (n : ℕ) (v : T) (wait : Bool) → Put q (push_buffered q n v wait)
  unfolding push_buffered size
  push_buffered-Put q n v wait =
      elim (Bool-cases (leb q.max_priority_size (length q.priority_queue))) [
        | inl full ↦ rw full (refusal q (wait && q.valid))
        | inr room ↦
            rw room
              (accepted q _ q.valid (omega (arith, length-emplace n v q.priority_queue), refl))
      ]

  pub submit_push-Put : (q : SafeQueue T) (slot : Slot) (v : T) → Put q (submit_push q slot v)
  unfolding submit_push
  submit_push-Put q standard v = push-Put q v true
  submit_push-Put q (buffered n) v = push_buffered-Put q n v false
