-- ===== src/ThreadPool/Tests.antt =====
-- Runs of the queue, and its theorems at concrete queues.
use allpix_fork.Base.{ℕ, ◌≡◌, refl, Bool, true, false, not, ◌||◌, [], ◌∷◌, ◌==◌, arith}
use allpix_fork.ThreadPool.{
  SafeQueue, init, waiting, got, closed, blocked, refused, pushed, pop, push, push_buffered,
  complete, insert_id, advance, emplace, empty, size, invalidate,
}
use allpix_fork.ThreadPool.Complete.{Tracks, complete-Tracks}
use allpix_fork.ThreadPool.Bounds.{Bounded, AfterPop, AfterPush, operations-Bounded}
use allpix_fork.ThreadPool.Events.{
  State, mark_completed, start, submit, take, Reach, here, later, Inv, min_thread_buffer,
}
use allpix_fork.ThreadPool.Events.Kept.{Reach-Inv}
use allpix_fork.ThreadPool.Events.Progress.{start-Inv, never_refused, no_standstill}

abbrev two_done : SafeQueue ℕ
two_done = record (init 4 2) {
  completed_ids = 1 ∷ 3 ∷ [];
  priority_queue = (2, 2) ∷ [];
  priority_queue_size = 1;
}

complete_test : complete two_done 0 ≡ record two_done { completed_ids = 3 ∷ []; current_id = 2 }
unfolding complete insert_id advance
complete_test = refl

pop_test :
    (pop two_done 1 ≡ waiting)
    × (pop (record two_done { current_id = 2 }) 1
        ≡ got 2 (record two_done { current_id = 2; priority_queue = []; priority_queue_size = 0 }))
    × (pop (invalidate two_done) 1 ≡ closed)
unfolding pop invalidate
pop_test = (refl, refl, refl)

push_test :
    (push_buffered two_done 1 1 false
      ≡ pushed (record two_done { priority_queue = (1, 1) ∷ (2, 2) ∷ []; priority_queue_size = 2 }))
    × (push (record two_done { queue = 1 ∷ 2 ∷ 3 ∷ 4 ∷ [] }) 5 true ≡ blocked)
    × (push (record two_done { queue = 1 ∷ 2 ∷ 3 ∷ 4 ∷ [] }) 5 false ≡ refused)
unfolding push push_buffered emplace
push_test = (refl, refl, refl)

abbrev done_two : ℕ → Bool
done_two i = i == 1 || i == 3

two_done-Tracks : Tracks done_two two_done
two_done-Tracks = record {
  ascending = (omega arith, (omega arith, tt));
  below = λ i l. absurd (omega arith);
  current = refl;
  above = λ i l. ground arith;
}

complete-Tracks_example : Tracks (λ i. i == 0 || done_two i) (complete two_done 0)
complete-Tracks_example = complete-Tracks done_two two_done 0 two_done-Tracks refl

operations-Bounded_example :
    AfterPop (pop two_done 1)
    × AfterPush (push two_done 7 true)
    × AfterPush (push_buffered two_done 1 7 true)
    × Bounded (complete two_done 1)
    × Bounded (invalidate two_done)
    × (empty two_done ≡ (not two_done.valid || size two_done == 0))
operations-Bounded_example = operations-Bounded two_done 7 1 1 true (omega arith, omega arith, refl)

abbrev one_submitted : State
one_submitted = record {
  q = record (init 4 1) { current_id = 1; queue = 1 ∷ [] };
  running = [];
  next = 2;
  workers = 1;
}

abbrev one_running : State
one_running = record {
  q = record (init 4 1) { current_id = 1 };
  running = 1 ∷ [];
  next = 2;
  workers = 1;
}

Reach-submitted : Reach (start 1 4 1 0) one_submitted
unfolding start mark_completed complete insert_id advance push
Reach-submitted = later here (submit (start 1 4 1 0) one_submitted.q refl)

Reach-running : Reach (start 1 4 1 0) one_running
unfolding start mark_completed complete insert_id advance push pop
Reach-running = later Reach-submitted (take one_submitted 1 one_running.q (omega arith) refl)

Reach-Inv_example : Inv one_running
Reach-Inv_example =
    Reach-Inv (start 1 4 1 0) one_running Reach-running (start-Inv 1 4 1 0 (omega arith))

never_refused_example : (q : SafeQueue ℕ) × (push_buffered one_running.q 1 1 false ≡ pushed q)
never_refused_example = never_refused 1 4 1 0 one_running 1 (omega arith) Reach-running refl

no_standstill_example :
    (q : SafeQueue ℕ) × (pop one_submitted.q (min_thread_buffer one_submitted) ≡ got 1 q)
no_standstill_example =
    no_standstill 1 4 1 0 one_submitted (omega arith) Reach-submitted refl (omega arith)
