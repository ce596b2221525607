-- ===== src/ThreadPool/Events.antt =====
-- The event loop as interleavings: `ModuleManager::run` submits events in order, and each worker takes
-- a task, and then completes its event or buffers it again (src/core/module/ModuleManager.cpp,
-- src/core/module/ThreadPool.cpp). A task is the number of its event.
pub mod Counts
pub mod Taken
pub mod Kept
pub mod Progress
use allpix_fork.Base.{
  ℕ, zero, suc, ◌+◌, ◌-◌, ◌≤◌, ◌<◌, ◌≡◌, Bool, true, false, not, ◌&&◌, ◌||◌, List, [], ◌∷◌, ◌++◌,
  ◌==◌, ltb, leb, if◌then◌else◌, length, min,
}
use allpix_fork.ThreadPool.{
  SafeQueue, init, Popped, got, Pushed, pushed, pop, push, push_buffered, complete,
}
use allpix_fork.ThreadPool.Complete.{From, mem}

-- `running` holds the events that workers are on, and `next` is the event that is submitted next.
pub record State : Type 0 where
  pub q : SafeQueue ℕ
  pub running : List ℕ
  pub next : ℕ
  pub workers : ℕ

abbrev pub erase : ℕ → List ℕ → List ℕ
erase n [] = []
erase n (i ∷ is) = if i == n then is else i ∷ erase n is

-- `std::min(num_threads, max_buffered_size)`, which the pool hands to each worker.
abbrev pub min_thread_buffer : State → ℕ
min_thread_buffer s = min s.workers s.q.max_priority_size

-- The loop of `run` that marks the events up to `skip_events` as completed, zero included.
unfoldable pub mark_completed : ℕ → SafeQueue ℕ → SafeQueue ℕ
unfolding complete
mark_completed zero q = complete q 0
mark_completed (suc n) q = complete (mark_completed n q) (suc n)

-- The loop before the first event.
unfoldable pub start : ℕ → ℕ → ℕ → ℕ → State
unfolding mark_completed
start workers max_standard max_buffered skip_events = record {
  q = mark_completed skip_events (init max_standard max_buffered);
  running = [];
  next = 1 + skip_events;
  workers = workers;
}

pub data Step : State → State → Type 0 where
  submit :
      (s : State) (q : SafeQueue ℕ)
      → push s.q s.next true ≡ pushed q
      → Step s (record s { q = q; next = s.next + 1 })
  take :
      (s : State) (v : ℕ) (q : SafeQueue ℕ)
      → length s.running < s.workers
      → pop s.q (min_thread_buffer s) ≡ got v q
      → Step s (record s { q = q; running = v ∷ s.running })
  finish :
      (s : State) (n : ℕ)
      → mem n s.running ≡ true
      → Step s (record s { q = complete s.q n; running = erase n s.running })
  reschedule :
      (s : State) (n : ℕ) (q : SafeQueue ℕ)
      → mem n s.running ≡ true
      → push_buffered s.q n n false ≡ pushed q
      → Step s (record s { q = q; running = erase n s.running })

pub data Reach (s : State) : State → Type 0 where
  here : Reach s s
  later : {t u : State} → Reach s t → Step t u → Reach s u

abbrev pub count : ℕ → List ℕ → ℕ
count i [] = 0
count i (j ∷ is) = (if i == j then 1 else 0) + count i is

abbrev pub count_ids : ℕ → List (ℕ × ℕ) → ℕ
count_ids i [] = 0
count_ids i ((j, v) ∷ rest) = (if i == j then 1 else 0) + count_ids i rest

-- The events `first`, `first + 1` and so on up to `last`, which is not one of them.
abbrev pub Consecutive : ℕ → List ℕ → ℕ → Type 0
Consecutive first [] last = first ≡ last
Consecutive first (v ∷ vs) last = (v ≡ first) × Consecutive (suc first) vs last

-- The buffer is in order, and the task under an id is that event.
abbrev pub Ordered : ℕ → List (ℕ × ℕ) → Type 0
Ordered lo [] = Unit {0}
Ordered lo ((n, v) ∷ rest) = (lo ≤ n) × (v ≡ n) × Ordered n rest

-- In how many places an event is: with a worker, in the buffer, or completed before its turn.
abbrev pub places : State → ℕ → ℕ
places s i = count i s.running + (count_ids i s.q.priority_queue + count i s.q.completed_ids)

-- `first` is the first event that no worker has seen.
pub record Inv (s : State) : Type 0 where
  pub first : ℕ
  pub valid : s.q.valid ≡ true
  pub enough : s.workers ≤ s.q.max_priority_size
  pub room : length s.q.priority_queue + length s.running ≤ s.q.max_priority_size
  pub queue : Consecutive first s.q.queue s.next
  pub ordered : Ordered 0 s.q.priority_queue
  pub ascending : From (suc s.q.current_id) s.q.completed_ids
  pub turn : s.q.current_id ≤ first
  pub once : (i : ℕ) → places s i ≡ (if leb s.q.current_id i && ltb i first then 1 else 0)
