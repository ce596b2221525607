-- ===== src/ThreadPool.antt =====
-- src/core/module/ThreadPool.tpp: `SafeQueue`, the queue of tasks with a buffer of tasks that wait for
-- their turn. Each method holds the mutex, so it is one step; where it waits on a condition variable, the
-- step is taken again when the queue has changed.
pub mod Complete
pub mod Bounds
pub mod Events
pub mod Loop
pub mod Pool
mod Tests
use allpix_fork.Base.{
  ℕ, zero, suc, ◌+◌, ◌-◌, ◌≤◌, Bool, true, false, not, ◌&&◌, ◌||◌, List, [], ◌∷◌, ◌++◌, Option,
  none, some, ◌==◌, ltb, leb, if◌then◌else◌, length,
}

-- The set of completed ids is its list in ascending order; so is the buffer, by id, as its top is the
-- task with the least id. Of tasks with one id, which the program never buffers twice, the older comes
-- first.
pub record SafeQueue {ℓ} (T : Type ℓ) : Type ℓ where
  pub valid : Bool
  pub queue : List T
  pub completed_ids : List ℕ
  pub current_id : ℕ
  pub priority_queue : List (ℕ × T)
  pub priority_queue_size : ℕ
  pub max_standard_size : ℕ
  pub max_priority_size : ℕ

abbrev pub init {ℓ} : {T : Type ℓ} → ℕ → ℕ → SafeQueue T
init max_standard_size max_priority_size = record {
  valid = true;
  queue = [];
  completed_ids = [];
  current_id = 0;
  priority_queue = [];
  priority_queue_size = 0;
  max_standard_size = max_standard_size;
  max_priority_size = max_priority_size;
}

-- `closed` is the result `false`, `waiting` the wait on `pop_condition_`.
pub data Popped {ℓ} (T : Type ℓ) : Type ℓ where
  closed : Popped T
  waiting : Popped T
  got : T → SafeQueue T → Popped T

-- `refused` is the result `false`, `blocked` the wait on `push_condition_`.
pub data Pushed {ℓ} (T : Type ℓ) : Type ℓ where
  refused : Pushed T
  blocked : Pushed T
  pushed : SafeQueue T → Pushed T

-- `completed_ids_.insert(n)`.
unfoldable pub insert_id : ℕ → List ℕ → List ℕ
insert_id n [] = n ∷ []
insert_id n (i ∷ is) =
    let rest = insert_id n is in if n == i then i ∷ is else if ltb n i then n ∷ i ∷ is else i ∷ rest

-- The loop of `complete`: erases the ids that are next in turn.
unfoldable pub advance : List ℕ → ℕ → List ℕ × ℕ
advance [] current = ([], current)
advance (i ∷ is) current =
    let rest = advance is (suc current) in if i == current then rest else (i ∷ is, current)

abbrev pub is_nil {ℓ} : {A : Type ℓ} → List A → Bool
is_nil [] = true
is_nil (x ∷ xs) = false

module _ {ℓ} {T : Type ℓ} where
  -- `priority_queue_.emplace(n, value)`.
  unfoldable pub emplace : ℕ → T → List (ℕ × T) → List (ℕ × T)
  emplace n v [] = (n, v) ∷ []
  emplace n v ((m, w) ∷ rest) =
      let later = emplace n v rest in if ltb n m then (n, v) ∷ (m, w) ∷ rest else (m, w) ∷ later

  -- What `pop` takes from the buffer, if the top is the task in turn.
  abbrev pub pop_buffered : SafeQueue T → List (ℕ × T) → Option (T × SafeQueue T)
  pop_buffered q [] = none
  pop_buffered q ((n, v) ∷ rest) =
      if n == q.current_id
      then some
          (v, record q { priority_queue = rest; priority_queue_size = q.priority_queue_size - 1 })
      else none

  abbrev pub pop_front : SafeQueue T → List T → ℕ → Popped T
  pop_front q [] buffer_left = waiting
  pop_front q (v ∷ rest) buffer_left =
      if leb (length q.priority_queue + buffer_left) q.max_priority_size
      then got v (record q { queue = rest })
      else waiting

  abbrev pub pop_open : SafeQueue T → ℕ → Option (T × SafeQueue T) → Popped T
  pop_open q buffer_left (some (v, r)) = got v r
  pop_open q buffer_left none = pop_front q q.queue buffer_left

  -- `pop(out, buffer_left)`.
  unfoldable pub pop : SafeQueue T → ℕ → Popped T
  pop q buffer_left =
      if not q.valid then closed else pop_open q buffer_left (pop_buffered q q.priority_queue)

  -- `push(value, wait)`.
  unfoldable pub push : SafeQueue T → T → Bool → Pushed T
  push q value wait =
      if leb q.max_standard_size (length q.queue)
      then (if wait && q.valid then blocked else refused)
      else if q.valid
      then pushed (record q { queue = q.queue ++ (value ∷ []) })
      else refused

  -- `push(n, value, wait)`.
  unfoldable pub push_buffered : SafeQueue T → ℕ → T → Bool → Pushed T
  unfolding emplace
  push_buffered q n value wait =
      if leb q.max_priority_size (length q.priority_queue)
      then (if wait && q.valid then blocked else refused)
      else if q.valid
      then pushed (record q {
        priority_queue = emplace n value q.priority_queue;
        priority_queue_size = q.priority_queue_size + 1;
      })
      else refused

  -- `complete(n)` as one step; ThreadPool.Loop has the loop, which gives the lock back after each erasure.
  unfoldable pub complete : SafeQueue T → ℕ → SafeQueue T
  unfolding insert_id advance
  complete q n =
      let (ids, current) = advance (insert_id n q.completed_ids) q.current_id in
      record q { completed_ids = ids; current_id = current }

  -- `empty()` and `size()`.
  unfoldable pub empty : SafeQueue T → Bool
  empty q = not q.valid || (is_nil q.queue && is_nil q.priority_queue)

  unfoldable pub size : SafeQueue T → ℕ
  size q = length q.queue + length q.priority_queue

  -- `invalidate()`.
  unfoldable pub invalidate : SafeQueue T → SafeQueue T
  invalidate q = record q {
    priority_queue = [];
    priority_queue_size = 0;
    queue = [];
    valid = false;
  }
