-- ===== src/ThreadPool/Pool.antt =====
-- src/core/module/ThreadPool.cpp, and `submit` of ThreadPool.tpp: the pool around the queue, with the count
-- of tasks, the first exception of a worker, and the end of the pool.
--
-- What happens under one lock, or is one atomic operation, is one step. `run_cnt_` is an `unsigned int`
-- and wraps. Threads are not created or joined; a task is a value, and a step says whether it throws.
pub mod Sizes
pub mod Inv
pub mod Wait
mod Tests
use allpix_fork.Base.{
  ℕ, zero, suc, ◌+◌, ◌-◌, ◌%◌, ◌^◌, ◌≡◌, Bool, true, false, not, ◌&&◌, ◌||◌, Option, none, some,
  List, [], ◌∷◌, ◌++◌, is_some, ◌==◌, if◌then◌else◌,
}
use allpix_fork.ThreadPool.{
  SafeQueue, init, got, Pushed, refused, blocked, pushed, pop, push, push_buffered, invalidate,
  size,
}

pub record Pool (T E : Type 0) : Type 0 where
  pub queue : SafeQueue T
  pub run_cnt : ℕ
  pub done : Bool
  pub has_exception : Bool
  pub exception_ptr : Option E

-- `submit` for tasks without (`UINT64_MAX`) and with an identifier: the push, which is a step, and the
-- increment of the count, which is the next one and is made whether the push succeeded or not.
pub data Slot : Type 0 where
  standard : Slot
  buffered : ℕ → Slot

unfoldable pub submit_push : {T : Type 0} → SafeQueue T → Slot → T → Pushed T
submit_push q standard task = push q task true
submit_push q (buffered n) task = push_buffered q n task false

module _ {T E : Type 0} where
  abbrev pub new_pool : ℕ → ℕ → Pool T E
  new_pool max_queue_size max_buffered_size = record {
    queue = init max_queue_size max_buffered_size;
    run_cnt = 0;
    done = false;
    has_exception = false;
    exception_ptr = none;
  }

  unfoldable pub count_task : Pool T E → Pool T E
  count_task p = record p { run_cnt = (p.run_cnt + 1) % 2 ^ 32 }

  -- The end of a task on a worker.
  unfoldable pub count_down : Pool T E → Pool T E
  count_down p = record p { run_cnt = (p.run_cnt + 2 ^ 32 - 1) % 2 ^ 32 }

  -- The `catch` of `worker`.
  unfoldable pub worker_failed : Pool T E → E → Pool T E
  unfolding invalidate
  worker_failed p e =
      if p.has_exception
      then p
      else record p { queue = invalidate p.queue; has_exception = true; exception_ptr = some e }

  -- `destroy`, without the joining of the threads.
  unfoldable pub destroy : Pool T E → Pool T E
  unfolding invalidate
  destroy p = record p { queue = invalidate p.queue; done = true }

  -- `checkException`, with the exception that it rethrows.
  unfoldable pub check_exception : Pool T E → Pool T E × Option E
  unfolding destroy
  check_exception p = if is_some p.exception_ptr then (destroy p, p.exception_ptr) else (p, none)

  -- The condition that `wait` waits for.
  unfoldable pub wait_ready : Pool T E → Bool
  wait_ready p = is_some p.exception_ptr || (p.run_cnt == 0 || p.done)

  -- `valid`.
  unfoldable pub is_valid : Pool T E → Bool
  is_valid p = p.queue.valid && not p.done

-- The pool with its threads: how many of them stand between a push and the count, how many tasks are on
-- workers, how many tasks will never be counted down, and what was thrown, the last first.
pub record System (T E : Type 0) : Type 0 where
  pub pool : Pool T E
  pub submitting : ℕ
  pub running : ℕ
  pub lost : ℕ
  pub thrown : List E

module _ {T E : Type 0} where
  abbrev pub start_pool : ℕ → ℕ → System T E
  start_pool max_queue_size max_buffered_size = record {
    pool = new_pool max_queue_size max_buffered_size;
    submitting = 0;
    running = 0;
    lost = 0;
    thrown = [];
  }

  abbrev pub put_queue : Pool T E → SafeQueue T → Pool T E
  put_queue p q = record p { queue = q }

  -- The tasks that a first exception takes away with the queue.
  abbrev pub dropped : Pool T E → ℕ
  dropped p = if p.has_exception then 0 else size p.queue

  pub data Step : System T E → System T E → Type 0 where
    push_task :
        (s : System T E) (slot : Slot) (task : T) (q : SafeQueue T)
        → submit_push s.pool.queue slot task ≡ pushed q
        → Step s (record s { pool = put_queue s.pool q; submitting = s.submitting + 1 })
    push_refused :
        (s : System T E) (slot : Slot) (task : T)
        → submit_push s.pool.queue slot task ≡ refused
        → Step s (record s { submitting = s.submitting + 1; lost = s.lost + 1 })
    count_up :
        (s : System T E) (k : ℕ)
        → s.submitting ≡ suc k
        → Step s (record s { pool = count_task s.pool; submitting = k })
    take :
        (s : System T E) (left : ℕ) (task : T) (q : SafeQueue T)
        → pop s.pool.queue left ≡ got task q
        → Step s (record s { pool = put_queue s.pool q; running = s.running + 1 })
    finish :
        (s : System T E) (k : ℕ)
        → s.running ≡ suc k
        → Step s (record s { pool = count_down s.pool; running = k })
    throw :
        (s : System T E) (k : ℕ) (e : E)
        → s.running ≡ suc k
        → Step s (record s {
          pool = worker_failed s.pool e;
          running = k;
          lost = s.lost + 1 + dropped s.pool;
          thrown = e ∷ s.thrown;
        })
    -- The function that initializes or finalizes a worker throws.
    throw_aside :
        (s : System T E) (e : E)
        → Step s (record s {
          pool = worker_failed s.pool e;
          lost = s.lost + dropped s.pool;
          thrown = e ∷ s.thrown;
        })
    end_pool :
        (s : System T E)
        → Step s (record s { pool = destroy s.pool; lost = s.lost + size s.pool.queue })

  pub data Reach (s : System T E) : System T E → Type 0 where
    here : Reach s s
    later : {t u : System T E} → Reach s t → Step t u → Reach s u
