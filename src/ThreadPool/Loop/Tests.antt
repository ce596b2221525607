-- ===== src/ThreadPool/Loop/Tests.antt =====
-- src/core/module/ThreadPool.tpp: tests of the interleaved loops of `complete`, and the theorem at a concrete
-- input.
use allpix_fork.Base.{ℕ, ◌≡◌, refl, true, false, List, [], ◌∷◌}
use allpix_fork.ThreadPool.{SafeQueue, init, insert_id}
use allpix_fork.ThreadPool.Loop.{
  Iter, at_id, at_end, visit, enter, Loops, start, Reach, here, later, enter_return, enter_unlock,
  resume_return, resume_unlock, resume_undefined,
}
use allpix_fork.ThreadPool.Loop.Quiet.{complete_all, Reach-complete_all}

abbrev queue_at : List ℕ → ℕ → SafeQueue ℕ
queue_at ids current = record (init {T = ℕ} 4 2) { completed_ids = ids; current_id = current }

abbrev loops : SafeQueue ℕ → List Iter → List ℕ → Loops ℕ
loops q its completed = record { queue = q; iters = its; completed = completed; dangled = false }

-- Id 1 comes first and waits in the set.
one_in : Reach (start 4 2) (loops (queue_at (1 ∷ []) 0) [] (1 ∷ []))
unfolding enter visit insert_id
one_in = later here (enter_return (start 4 2) 1 (queue_at (1 ∷ []) 0) refl refl)

-- Id 0 is erased, and the lock given back with an iterator to id 1.
zero_out : Reach (start 4 2) (loops (queue_at (1 ∷ []) 1) (at_id 1 ∷ []) (0 ∷ 1 ∷ []))
unfolding enter visit insert_id
zero_out = later one_in (
    enter_unlock (loops (queue_at (1 ∷ []) 0) [] (1 ∷ [])) 0 (queue_at (1 ∷ []) 1) (at_id 1) refl
      refl)

-- Now id 2 is completed by another thread, whose loop erases id 1.
other_thread :
    Reach (start 4 2) (loops (queue_at (2 ∷ []) 2) (at_id 2 ∷ at_id 1 ∷ []) (2 ∷ 0 ∷ 1 ∷ []))
unfolding enter visit insert_id
other_thread = later zero_out (
    enter_unlock (loops (queue_at (1 ∷ []) 1) (at_id 1 ∷ []) (0 ∷ 1 ∷ [])) 2 (queue_at (2 ∷ []) 2)
      (at_id 2) refl refl)

-- The first thread then uses an iterator to an element that is gone.
dangling :
    Reach
      (start 4 2)
      (record (loops (queue_at (2 ∷ []) 2) (at_id 2 ∷ at_id 1 ∷ []) (2 ∷ 0 ∷ 1 ∷ [])) {
        dangled = true;
      })
unfolding visit
dangling = later other_thread (
    resume_undefined (loops (queue_at (2 ∷ []) 2) (at_id 2 ∷ at_id 1 ∷ []) (2 ∷ 0 ∷ 1 ∷ [])) 1
      (at_id 1) refl refl)

one_out : Reach (start 4 2) (loops (queue_at [] 2) (at_end ∷ []) (0 ∷ 1 ∷ []))
unfolding visit
one_out = later zero_out (
    resume_unlock (loops (queue_at (1 ∷ []) 1) (at_id 1 ∷ []) (0 ∷ 1 ∷ [])) 0 (at_id 1)
      (queue_at [] 2) at_end refl refl)

all_done : Reach (start 4 2) (loops (queue_at [] 2) [] (0 ∷ 1 ∷ []))
unfolding visit
all_done = later one_out (
    resume_return (loops (queue_at [] 2) (at_end ∷ []) (0 ∷ 1 ∷ [])) 0 at_end (queue_at [] 2) refl
      refl)

Reach-complete_all_example :
    (2 ≡ (complete_all (init {T = ℕ} 4 2) (0 ∷ 1 ∷ [])).current_id)
    × ([] ≡ (complete_all (init {T = ℕ} 4 2) (0 ∷ 1 ∷ [])).completed_ids)
Reach-complete_all_example =
    Reach-complete_all 4 2 (loops (queue_at [] 2) [] (0 ∷ 1 ∷ [])) all_done refl refl
