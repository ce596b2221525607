-- ===== src/EventLoop/Tests.antt =====
-- A run of the loop over two modules, and the theorem at it.
use allpix_fork.Base.{
  ℕ, ◌+◌, ◌≡◌, refl, true, false, List, [], ◌∷◌, none, some, ◌==◌, if◌then◌else◌,
}
use allpix_fork.EventLoop.{
  returned, abort_event, Interface, aborted, rescheduled, begin, run_modules, event_function,
}
use allpix_fork.EventLoop.Resume.{in_turn, event_function-resume}

-- Module 1 wants to run in sequence; each module adds its number to the event, and draws one number.
abbrev two_modules : Interface ℕ (List ℕ) ℕ
two_modules = record {
  check_delegates = λ m e. true;
  require_sequence = λ m. m == 1;
  run = λ m e r. (returned, m ∷ e, r + 1);
  new_event = λ n. [];
  seeded = λ s. s;
}

-- Event 3 of seed 7, while event 2 is not yet complete.
waits : event_function two_modules 3 7 (λ ms. 2) none (0 ∷ 1 ∷ []) false ≡ record {
  ended = rescheduled (record { data_of = 0 ∷ []; random_engine_state = 8 }) (1 ∷ []);
  terminate = false;
}
unfolding event_function begin run_modules
waits = refl

event_function-resume_example :
    event_function two_modules 3 7
      (in_turn 3)
      (some (record { data_of = 0 ∷ []; random_engine_state = 8 }))
      (1 ∷ [])
      false
    ≡ event_function two_modules 3 7 (in_turn 3) none (0 ∷ 1 ∷ []) false
event_function-resume_example =
    event_function-resume two_modules 3 7 (λ ms. 2) none (0 ∷ 1 ∷ []) (1 ∷ []) false false
      (record { data_of = 0 ∷ []; random_engine_state = 8 }) (λ m f s e. cc) waits

stops :
    event_function
      (record two_modules { run = λ m e r. (if◌then◌else◌ (m == 1) abort_event returned, e, r) })
      3
      7
      (in_turn 3)
      none
      (0 ∷ 1 ∷ 2 ∷ [])
      false
    ≡ record { ended = aborted [] 7; terminate = false }
unfolding event_function begin run_modules
stops = refl
