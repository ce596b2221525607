-- ===== src/EventLoop/Resume.antt =====
-- An event that had to wait for its turn goes on where it stopped.
use allpix_fork.Base.{
  ℕ, ◌≡◌, ◌≢◌, refl, Bool, true, false, not, ◌&&◌, List, [], ◌∷◌, Option, some, ◌==◌, arith,
}
use allpix_fork.EventLoop.{
  Outcome, returned, missing_dependencies, abort_event, end_of_run, Interface, Event, rescheduled,
  branch, begin, run_modules, event_function,
}

-- In turn at every module.
abbrev pub in_turn : {M : Type 0} → ℕ → List M → ℕ
in_turn event_num ms = event_num

branch-resume :
    {A : Type 0} (c w w' : Bool) (o : Outcome) (target stop : A)
    (skipped waiting after missing abort ended : A)
    (skipped' waiting' after' missing' abort' ended' : A)
    → w' ≡ false
    → o ≢ missing_dependencies
    → (skipped ≡ stop → target ≡ skipped')
    → (waiting ≡ stop → target ≡ branch c w' o skipped' waiting' after' missing' abort' ended')
    → (after ≡ stop → target ≡ after')
    → (abort ≢ stop)
    → (ended ≡ stop → target ≡ ended')
    → branch c w o skipped waiting after missing abort ended ≡ stop
    → target ≡ branch c w' o skipped' waiting' after' missing' abort' ended'
branch-resume false w w' o t x a b c d e f a' b' c' d' e' f' z m s g l n u h = s h
branch-resume true true w' o t x a b c d e f a' b' c' d' e' f' z m s g l n u h = g h
branch-resume true false true o t x a b c d e f a' b' c' d' e' f' z m s g l n u h = cc
branch-resume true false false returned t x a b c d e f a' b' c' d' e' f' z m s g l n u h = l h
branch-resume true false false missing_dependencies t x a b c d e f a' b' c' d' e' f' z m s g l n u
      h =
    absurd (m refl)
branch-resume true false false abort_event t x a b c d e f a' b' c' d' e' f' z m s g l n u h =
    absurd (n h)
branch-resume true false false end_of_run t x a b c d e f a' b' c' d' e' f' z m s g l n u h = u h

module _ {M E R : Type 0} (i : Interface M E R) where
  run_modules-resume :
      (event_num : ℕ) (minimum : List M → ℕ) (ms rest : List M) (e : E) (r : R) (b b' : Bool)
      (event : Event E R)
      → ((m : M) (f : E) (s : R) → (i.run m f s).0 ≢ missing_dependencies)
      → run_modules i event_num minimum ms e r b
        ≡ record { ended = rescheduled event rest; terminate = b' }
      → run_modules i event_num (in_turn event_num) rest event.data_of event.random_engine_state b'
        ≡ run_modules i event_num (in_turn event_num) ms e r b
  unfolding run_modules
  run_modules-resume event_num minimum [] rest e r b b' event never h = ground arith
  run_modules-resume event_num minimum (m ∷ ms) rest e r b b' event never h =
      branch-resume (i.check_delegates m e)
        (i.require_sequence m && not (event_num == minimum (m ∷ ms)))
        (i.require_sequence m && not (event_num == event_num)) (i.run m e r).0 _ _ _ _ _ _ _ _ _ _ _
        _ _ _ (ground arith) (never m e r)
        (run_modules-resume event_num minimum ms rest e r b b' event never)
        (λ w.
          let where_ : rest ≡ m ∷ ms = ground arith in
          let what : event ≡ record { data_of = e; random_engine_state = r } = ground arith in
          let flag : b' ≡ b = ground arith in rw where_ (rw what (rw flag refl)))
        (run_modules-resume event_num minimum ms rest (i.run m e r).1 (i.run m e r).2 b b' event
          never)
        (λ w. ground arith)
        (run_modules-resume event_num minimum ms rest (i.run m e r).1 (i.run m e r).2 true b' event
          never)
        h

  -- If no module throws `MissingDependenciesException`, an event that has to wait for its turn loses and
  -- repeats nothing: when it is submitted again, on whatever thread, and is in turn, it ends as it would
  -- have ended had it been in turn from the beginning.
  pub event_function-resume :
      (event_num event_seed : ℕ) (minimum : List M → ℕ) (given : Option (Event E R))
      (ms rest : List M) (b b' : Bool) (event : Event E R)
      → ((m : M) (f : E) (s : R) → (i.run m f s).0 ≢ missing_dependencies)
      → event_function i event_num event_seed minimum given ms b
        ≡ record { ended = rescheduled event rest; terminate = b' }
      → event_function i event_num event_seed (in_turn event_num) (some event) rest b'
        ≡ event_function i event_num event_seed (in_turn event_num) given ms b
  unfolding event_function begin
  event_function-resume event_num event_seed minimum given ms rest b b' event never h =
      run_modules-resume event_num minimum ms rest (begin i given event_num event_seed).0
        (begin i given event_num event_seed).1 b b' event never h
