-- ===== src/ThreadPool/Pool/Tests.antt =====
-- src/core/module/ThreadPool.cpp: tests of the pool, and the theorems at concrete inputs.
use allpix_fork.Base.{
  ℕ, ◌+◌, ◌-◌, ◌^◌, ◌≡◌, ◌↔◌, ◌≢◌, refl, true, false, none, some, [], ◌∷◌, arith,
}
use allpix_fork.ThreadPool.{SafeQueue, init, closed, refused, pop, push, push_buffered, size}
use allpix_fork.ThreadPool.Pool.{
  Slot, standard, buffered, submit_push, count_task, count_down, worker_failed, check_exception,
  wait_ready, is_valid, System, start_pool, Reach, here, later, push_task, count_up, take, finish,
  throw,
}
use allpix_fork.ThreadPool.Pool.Wait.{wait_ready_iff, check_exception-oldest}

abbrev Run : System ℕ ℕ → Type 0
Run s = Reach (start_pool 4 2) s

abbrev holding : ℕ → ℕ → ℕ → ℕ → SafeQueue ℕ → System ℕ ℕ
holding cnt submitting running lost q = record {
  pool = record {
    queue = q;
    run_cnt = cnt;
    done = false;
    has_exception = false;
    exception_ptr = none;
  };
  submitting = submitting;
  running = running;
  lost = lost;
  thrown = [];
}

abbrev base : SafeQueue ℕ
base = init 4 2

abbrev one_task : SafeQueue ℕ
one_task = record base { queue = 5 ∷ [] }

-- A task is taken before it is counted.
pushed_one : Run (holding 0 1 0 0 one_task)
unfolding submit_push push
pushed_one = later here (push_task (start_pool 4 2) standard 5 one_task refl)

taken_one : Run (holding 0 1 1 0 base)
unfolding pop
taken_one = later pushed_one (take (holding 0 1 0 0 one_task) 1 5 base refl)

-- The count runs below zero, and the thread that submits brings it back.
finished_one : Run (holding (2 ^ 32 - 1) 1 0 0 base)
unfolding count_down
finished_one = later taken_one (finish (holding 0 1 1 0 base) 0 refl)

counted_one : Run (holding 0 0 0 0 base)
unfolding count_task
counted_one = later finished_one (count_up (holding (2 ^ 32 - 1) 1 0 0 base) 0 refl)

wait_ready_iff_example : (wait_ready (holding 0 1 1 0 base).pool ≡ true) ↔ (0 + 1 + 0 ≡ 1)
unfolding size
wait_ready_iff_example =
    wait_ready_iff 4 2 (holding 0 1 1 0 base) taken_one refl refl (omega arith) (omega arith)

-- So `wait` may return while the task is on a worker, before its count.
early : wait_ready (holding 0 1 1 0 base).pool ≡ true
unfolding wait_ready
early = refl

abbrev failed : System ℕ ℕ
failed = record {
  pool = record {
    queue = record base { valid = false };
    run_cnt = 0;
    done = false;
    has_exception = true;
    exception_ptr = some 77;
  };
  submitting = 1;
  running = 0;
  lost = 1;
  thrown = 77 ∷ [];
}

failed_one : Run failed
unfolding worker_failed size
failed_one = later taken_one (throw (holding 0 1 1 0 base) 0 77 refl)

check_exception-oldest_example :
    ((check_exception failed.pool).1 ≡ some 77)
    × ((e : ℕ)
        → some 77 ≡ some e
        → (is_valid failed.pool ≡ false)
          × ((left : ℕ) → pop failed.pool.queue left ≡ closed)
          × ((slot : Slot) (task : ℕ) → submit_push failed.pool.queue slot task ≡ refused))
check_exception-oldest_example = check_exception-oldest 4 2 failed failed_one

-- The task of an event that is buffered again waits for its turn.
rescheduled : submit_push base (buffered 3) 5 ≢ refused
unfolding submit_push push_buffered
rescheduled = λ e. cc e
