-- ===== src/EventLoop.antt =====
-- src/core/module/ModuleManager.cpp: the function that `run` submits for each event. The modules, the data
-- of an event and the random engine are parameters, as are what the modules do with them. Log output,
-- times and histograms are left out.
pub mod Resume
mod Tests
use allpix_fork.Base.{
  ℕ, ◌+◌, Bool, true, false, not, ◌&&◌, ◌||◌, List, [], ◌∷◌, Option, none, some, ◌==◌,
  if◌then◌else◌,
}

-- How `module->run(event)` ends: it returns, or throws one of the three exceptions that the loop handles.
pub data Outcome : Type 0 where
  returned missing_dependencies abort_event end_of_run : Outcome

-- What the module manager and the library of modules provide.
pub record Interface (M E R : Type 0) : Type 0 where
  pub check_delegates : M → E → Bool
  pub require_sequence : M → Bool
  pub run : M → E → R → Outcome × E × R
  pub new_event : ℕ → E
  pub seeded : ℕ → R

-- An event with the state of the engine that it has stored.
pub record Event (E R : Type 0) : Type 0 where
  pub data_of : E
  pub random_engine_state : R

-- The end of the function: the event is marked as complete, after all modules or after an abort, or it is
-- submitted again with the modules from the one that stopped on.
pub data Ended (M E R : Type 0) : Type 0 where
  completed : E → R → Ended M E R
  aborted : E → R → Ended M E R
  rescheduled : Event E R → List M → Ended M E R

pub record Result (M E R : Type 0) : Type 0 where
  pub ended : Ended M E R
  pub terminate : Bool

-- The branches of one round: the first Boolean is whether the module is satisfied, the second whether it
-- has to wait for its turn.
abbrev pub branch {ℓ} : {A : Type ℓ} → Bool → Bool → Outcome → A → A → A → A → A → A → A
branch false wait outcome skipped waiting after missing abort ended = skipped
branch true true outcome skipped waiting after missing abort ended = waiting
branch true false returned skipped waiting after missing abort ended = after
branch true false missing_dependencies skipped waiting after missing abort ended = missing
branch true false abort_event skipped waiting after missing abort ended = abort
branch true false end_of_run skipped waiting after missing abort ended = ended

module _ {M E R : Type 0} (i : Interface M E R) where
  -- The state in which the loop over the modules begins: of a new event the engine is seeded, of an
  -- earlier one it is restored, so that the engine of the thread plays no part.
  unfoldable pub begin : Option (Event E R) → ℕ → ℕ → E × R
  begin none event_num event_seed = (i.new_event event_num, i.seeded event_seed)
  begin (some event) event_num event_seed = (event.data_of, event.random_engine_state)

  -- The loop. `minimum` is what `minimumUncompleted()` returns when the rest of the modules begins: other
  -- threads may change it in between.
  unfoldable pub run_modules : ℕ → (List M → ℕ) → List M → E → R → Bool → Result M E R
  run_modules event_num minimum [] e r terminate = record {
    ended = completed e r;
    terminate = terminate;
  }
  run_modules event_num minimum (m ∷ ms) e r terminate =
      let (outcome, f, s) = i.run m e r in
      branch (i.check_delegates m e) (i.require_sequence m && not (event_num == minimum (m ∷ ms)))
        outcome (run_modules event_num minimum ms e r terminate)
        (record {
          ended = rescheduled (record { data_of = e; random_engine_state = r }) (m ∷ ms);
          terminate = terminate;
        })
        (run_modules event_num minimum ms f s terminate)
        (record {
          ended = rescheduled (record { data_of = f; random_engine_state = s }) (m ∷ ms);
          terminate = terminate;
        })
        (record { ended = aborted f s; terminate = terminate })
        (run_modules event_num minimum ms f s true)

  -- `event_function_with_module`.
  unfoldable pub event_function :
      ℕ → ℕ → (List M → ℕ) → Option (Event E R) → List M → Bool → Result M E R
  unfolding begin run_modules
  event_function event_num event_seed minimum event modules terminate =
      let (e, r) = begin event event_num event_seed in
      run_modules event_num minimum modules e r terminate
