-- ===== src/ThreadPool/Loop.antt =====
-- src/core/module/ThreadPool.tpp: `SafeQueue::complete` in detail. Its loop gives the lock back after each id
-- that it erases, so the loops of several threads interleave; a step is what one of them does under one
-- hold of the lock.
--
-- Between two holds a thread keeps an iterator into the set of completed ids. When the element that it
-- points to has been erased by another thread, the next use of it is undefined behaviour. It is a step of
-- its own, which marks the run: nothing is said of what the thread does from there.
pub mod Rounds
pub mod Quiet
mod Tests
use allpix_fork.Base.{
  ℕ, zero, suc, ◌+◌, ◌≡◌, Bool, true, false, not, ◌||◌, List, [], ◌∷◌, Option, none, some, ◌==◌,
  ltb, if◌then◌else◌,
}
use allpix_fork.ThreadPool.{SafeQueue, init, insert_id}
use allpix_fork.ThreadPool.Complete.{mem}

pub data Iter : Type 0 where
  at_id : ℕ → Iter
  at_end : Iter

-- How a hold of the lock ends: `complete` returns, or the lock is given back in the loop.
pub data Round (T : Type 0) : Type 0 where
  returned : SafeQueue T → Round T
  unlocked : SafeQueue T → Iter → Round T
  undefined : Round T

-- `begin()`, `erase(iter)`, and the iterator that `erase` returns, to the next element.
abbrev pub begin : List ℕ → Iter
begin [] = at_end
begin (i ∷ is) = at_id i

unfoldable pub erase : ℕ → List ℕ → List ℕ
erase i [] = []
erase i (j ∷ is) = let rest = erase i is in if i == j then is else j ∷ rest

unfoldable pub following : ℕ → List ℕ → Iter
following i [] = at_end
following i (j ∷ is) = let rest = following i is in if ltb i j then at_id j else rest

module _ {T : Type 0} where
  -- The test of the loop and, if it goes on, its body up to `unlock`.
  unfoldable pub visit : SafeQueue T → Iter → Round T
  unfolding erase following
  visit q at_end = returned q
  visit q (at_id i) =
      if not (mem i q.completed_ids)
      then undefined
      else if i == q.current_id
      then unlocked
          (record q { completed_ids = erase i q.completed_ids; current_id = suc q.current_id })
          (following i q.completed_ids)
      else returned q

  -- `complete(n)` up to where it first gives the lock back.
  abbrev pub with_id : SafeQueue T → ℕ → SafeQueue T
  with_id q n = record q { completed_ids = insert_id n q.completed_ids }

  unfoldable pub enter : SafeQueue T → ℕ → Round T
  unfolding visit insert_id
  enter q n = let r = with_id q n in visit r (begin r.completed_ids)

-- The queue, the iterators of the threads that have given the lock back, and the ids that `complete` was
-- called with, the last first. `dangled` is set once a thread has used an iterator whose element is gone.
pub record Loops (T : Type 0) : Type 0 where
  pub queue : SafeQueue T
  pub iters : List Iter
  pub completed : List ℕ
  pub dangled : Bool

abbrev pub get_iter : List Iter → ℕ → Option Iter
get_iter [] k = none
get_iter (it ∷ its) zero = some it
get_iter (it ∷ its) (suc k) = get_iter its k

abbrev pub remove : ℕ → List Iter → List Iter
remove k [] = []
remove zero (it ∷ its) = its
remove (suc k) (it ∷ its) = it ∷ remove k its

module _ {T : Type 0} where
  abbrev pub start : ℕ → ℕ → Loops T
  start max_standard_size max_priority_size = record {
    queue = init max_standard_size max_priority_size;
    iters = [];
    completed = [];
    dangled = false;
  }

  -- An id is completed once, as an event ends once.
  pub data Step : Loops T → Loops T → Type 0 where
    enter_return :
        (s : Loops T) (n : ℕ) (q : SafeQueue T)
        → mem n s.completed ≡ false
        → enter s.queue n ≡ returned q
        → Step s (record s { queue = q; completed = n ∷ s.completed })
    enter_unlock :
        (s : Loops T) (n : ℕ) (q : SafeQueue T) (next : Iter)
        → mem n s.completed ≡ false
        → enter s.queue n ≡ unlocked q next
        → Step s (record s { queue = q; iters = next ∷ s.iters; completed = n ∷ s.completed })
    resume_return :
        (s : Loops T) (k : ℕ) (it : Iter) (q : SafeQueue T)
        → get_iter s.iters k ≡ some it
        → visit s.queue it ≡ returned q
        → Step s (record s { queue = q; iters = remove k s.iters })
    resume_unlock :
        (s : Loops T) (k : ℕ) (it : Iter) (q : SafeQueue T) (next : Iter)
        → get_iter s.iters k ≡ some it
        → visit s.queue it ≡ unlocked q next
        → Step s (record s { queue = q; iters = next ∷ remove k s.iters })
    resume_undefined :
        (s : Loops T) (k : ℕ) (it : Iter)
        → get_iter s.iters k ≡ some it
        → visit s.queue it ≡ undefined
        → Step s (record s { dangled = true })

  pub data Reach (s : Loops T) : Loops T → Type 0 where
    here : Reach s s
    later : {t u : Loops T} → Reach s t → Step t u → Reach s u
