-- ===== src/ThreadPool/Pool/Wait.antt =====
-- src/core/module/ThreadPool.cpp: when `wait` returns, and what `checkException` rethrows.
use allpix_fork.Base.{ℕ, ◌+◌, ◌^◌, ◌<◌, ◌≡◌, ◌↔◌, true, false, none, some, arith}
use allpix_fork.ThreadPool.{SafeQueue, closed, pop, push, push_buffered, refused, size}
use allpix_fork.ThreadPool.Pool.{
  Slot, standard, buffered, submit_push, System, start_pool, Reach, wait_ready, is_valid,
  check_exception,
}
use allpix_fork.ThreadPool.Pool.Inv.{
  oldest, Reach-IsCounted, Reach-IsGuarded, start_pool-IsCounted, start_pool-IsGuarded,
}

pop-closed : {T : Type 0} (q : SafeQueue T) (left : ℕ) → q.valid ≡ false → pop q left ≡ closed
unfolding pop
pop-closed q left shut = ground arith

submit-closed :
    {T : Type 0} (q : SafeQueue T) (slot : Slot) (task : T)
    → q.valid ≡ false
    → submit_push q slot task ≡ refused
unfolding submit_push push push_buffered
submit-closed q standard task shut = ground arith
submit-closed q (buffered n) task shut = ground arith

module _ {T E : Type 0} where
  -- In a pool that has neither failed nor ended, and with fewer than 2 ^ 32 tasks, `wait` can return
  -- exactly if as many tasks are queued, on workers or lost as there are threads between the push of
  -- a task and its count. So where every push has been counted, it returns once every task is done,
  -- and never before.
  pub wait_ready_iff :
      (m n : ℕ) (s : System T E)
      → Reach (start_pool m n) s
      → s.pool.exception_ptr ≡ none
      → s.pool.done ≡ false
      → s.submitting < 2 ^ 32
      → size s.pool.queue + s.running + s.lost < 2 ^ 32
      → (wait_ready s.pool ≡ true) ↔ (size s.pool.queue + s.running + s.lost ≡ s.submitting)
  unfolding wait_ready
  wait_ready_iff m n s r none_yet running_on few few_tasks =
      let v = Reach-IsCounted r (start_pool-IsCounted m n) in (λ h. ground arith, λ h. ground arith)

  -- After any steps `checkException` rethrows the exception that was thrown first, whatever was thrown
  -- later, and none if none was thrown. Once one was thrown, the pool is not valid, workers get no
  -- task any more, and a task that is submitted is refused, with an identifier or without.
  pub check_exception-oldest :
      (m n : ℕ) (s : System T E)
      → Reach (start_pool m n) s
      → ((check_exception s.pool).1 ≡ oldest s.thrown)
        × ((e : E)
            → oldest s.thrown ≡ some e
            → (is_valid s.pool ≡ false)
              × ((left : ℕ) → pop s.pool.queue left ≡ closed)
              × ((slot : Slot) (task : T) → submit_push s.pool.queue slot task ≡ refused))
  unfolding check_exception is_valid submit_push
  check_exception-oldest m n s r =
      let v = Reach-IsGuarded r (start_pool-IsGuarded m n) in
      (
        ground arith,
        λ e h.
            let shut : s.pool.queue.valid ≡ false = ground arith in
            (
              ground arith,
              λ left. pop-closed s.pool.queue left shut,
              λ slot task. submit-closed s.pool.queue slot task shut,
            ),
      )
