-- ===== src/ThreadPool/Pool/Inv.antt =====
-- src/core/module/ThreadPool.cpp: what holds of the pool after any steps of its threads.
use allpix_fork.Base.{
  ℕ, ◌+◌, ◌%◌, ◌^◌, ◌<◌, ◌≡◌, refl, subst, not, ◌||◌, Option, none, some, List, [], ◌∷◌, is_some,
  arith,
}
use allpix_fork.ThreadPool.{SafeQueue, got, pushed, pop, invalidate, size}
use allpix_fork.ThreadPool.Pool.{
  Pool, Slot, submit_push, count_task, count_down, worker_failed, destroy, System, start_pool,
  dropped, Step, push_task, push_refused, count_up, take, finish, throw, throw_aside, end_pool,
  Reach, here, later,
}
use allpix_fork.ThreadPool.Pool.Sizes.{Taken, Put, pop-Taken, submit_push-Put}

-- The exception that was thrown first.
abbrev pub oldest : {E : Type 0} → List E → Option E
oldest [] = none
oldest (e ∷ es) = elim (oldest es) [ none ↦ some e | some f ↦ some f ]

module _ {T : Type 0} where
  put_size :
      (q : SafeQueue T) (slot : Slot) (task : T) (r : SafeQueue T)
      → submit_push q slot task ≡ pushed r
      → (size r ≡ size q + 1) × (r.valid ≡ q.valid)
  put_size q slot task r e = subst (Put q) e (submit_push-Put q slot task)

  taken_size :
      (q : SafeQueue T) (left : ℕ) (task : T) (r : SafeQueue T)
      → pop q left ≡ got task r
      → (size q ≡ size r + 1) × (r.valid ≡ q.valid)
  taken_size q left task r e = subst (Taken q) e (pop-Taken q left)

  size-invalidate : (q : SafeQueue T) → size (invalidate q) ≡ 0
  unfolding size invalidate
  size-invalidate q = refl

module _ {T E : Type 0} where
  pub record IsCounted (s : System T E) : Type 0 where
    pub small : s.pool.run_cnt < 2 ^ 32
    pub counted :
        (s.pool.run_cnt + s.submitting) % 2 ^ 32 ≡ (size s.pool.queue + s.running + s.lost) % 2 ^ 32

  pub record IsGuarded (s : System T E) : Type 0 where
    pub flagged : s.pool.has_exception ≡ is_some s.pool.exception_ptr
    pub first : s.pool.exception_ptr ≡ oldest s.thrown
    pub open_iff : s.pool.queue.valid ≡ not (s.pool.has_exception || s.pool.done)

  failed_size :
      (p : Pool T E) (e : E)
      → (size (worker_failed p e).queue + dropped p ≡ size p.queue)
        × ((worker_failed p e).run_cnt ≡ p.run_cnt)
  unfolding worker_failed size
  failed_size p e = (ground arith, ground arith)

  Step-IsCounted : {s t : System T E} → Step s t → IsCounted s → IsCounted t
  unfolding count_task count_down destroy
  Step-IsCounted (push_task s slot task q e) v = ground (arith, put_size s.pool.queue slot task q e)
  Step-IsCounted (push_refused s slot task e) v = ground arith
  Step-IsCounted (count_up s k e) v = ground arith
  Step-IsCounted (take s left task q e) v = ground (arith, taken_size s.pool.queue left task q e)
  Step-IsCounted (finish s k e) v = ground arith
  Step-IsCounted (throw s k x e) v = ground (arith, failed_size s.pool x)
  Step-IsCounted (throw_aside s x) v = ground (arith, failed_size s.pool x)
  Step-IsCounted (end_pool s) v = ground (arith, size-invalidate s.pool.queue)

  Step-IsGuarded : {s t : System T E} → Step s t → IsGuarded s → IsGuarded t
  unfolding count_task count_down destroy worker_failed invalidate
  Step-IsGuarded (push_task s slot task q e) v = ground (arith, put_size s.pool.queue slot task q e)
  Step-IsGuarded (push_refused s slot task e) v = ground arith
  Step-IsGuarded (count_up s k e) v = ground arith
  Step-IsGuarded (take s left task q e) v = ground (arith, taken_size s.pool.queue left task q e)
  Step-IsGuarded (finish s k e) v = ground arith
  Step-IsGuarded (throw s k x e) v = ground arith
  Step-IsGuarded (throw_aside s x) v = ground arith
  Step-IsGuarded (end_pool s) v = ground arith

  pub Reach-IsCounted : {s t : System T E} → Reach s t → IsCounted s → IsCounted t
  Reach-IsCounted here v = v
  Reach-IsCounted (later r st) v = Step-IsCounted st (Reach-IsCounted r v)

  pub Reach-IsGuarded : {s t : System T E} → Reach s t → IsGuarded s → IsGuarded t
  Reach-IsGuarded here v = v
  Reach-IsGuarded (later r st) v = Step-IsGuarded st (Reach-IsGuarded r v)

  pub start_pool-IsCounted : (m n : ℕ) → IsCounted (start_pool {T = T} {E = E} m n)
  unfolding size
  start_pool-IsCounted m n = omega arith

  pub start_pool-IsGuarded : (m n : ℕ) → IsGuarded (start_pool {T = T} {E = E} m n)
  start_pool-IsGuarded m n = ground arith
