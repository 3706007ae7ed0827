-- ===== src/Manager/Projections.antt =====
-- synckit/manager.go, `runProjectionsAfterSync`: the wait for the projection runners. The order in which
-- the runners and the timeout are heard of is a list; the worker pool only delays that.
use go_sync_kit.Base.{
  ℕ, zero, suc, ◌≤◌, Option, none, some, List, [], ◌∷◌, Bool, if◌then◌else◌, length, take, ◌-◌, ◌≡◌,
  refl, ap, ◌∙◌, arith,
}

-- What a runner, by its index, reports on the error channel: it got no worker, or it failed.
pub data RunnerError (E : Type 0) : Type 0 where
  no_worker_slot : ℕ → RunnerError E
  runner_failed : ℕ → E → RunnerError E
  still_pending : ℕ → RunnerError E

pub data Signal (E : Type 0) : Type 0 where
  runner_completed : Signal E
  runner_error : RunnerError E → Signal E
  timed_out : Signal E

one_less : (n : ℕ) → n ≡ suc n - 1
one_less n = omega arith

module _ {E : Type 0} where
  abbrev pub with_error :
      RunnerError E → Option (List (RunnerError E)) → Option (List (RunnerError E))
  with_error e none = none
  with_error e (some later) = some (e ∷ later)

  -- The loop until so many runners are heard of; `none` where it still waits.
  pub wait_for : ℕ → List (Signal E) → Option (List (RunnerError E))
  wait_for zero signals = some []
  wait_for (suc pending) [] = none
  wait_for (suc pending) (runner_completed ∷ rest) = wait_for pending rest
  wait_for (suc pending) (runner_error e ∷ rest) = with_error e (wait_for pending rest)
  wait_for (suc pending) (timed_out ∷ rest) = some (still_pending (suc pending) ∷ [])

  abbrev pub outcome : List (RunnerError E) → Option (List (RunnerError E))
  outcome [] = none
  outcome (e ∷ rest) = some (e ∷ rest)

  abbrev pub finished : Option (List (RunnerError E)) → Option (Option (List (RunnerError E)))
  finished none = none
  finished (some errors) = some (outcome errors)

  -- `runProjectionsAfterSync`, with whether it is configured and the number of runners.
  pub run_projections : Bool → ℕ → List (Signal E) → Option (Option (List (RunnerError E)))
  unfolding wait_for
  run_projections run_on_sync runners signals =
      if run_on_sync then finished (wait_for runners signals) else some none

  -- The errors up to the timeout, and how many runners it left.
  abbrev pub errors_of : ℕ → List (Signal E) → List (RunnerError E)
  errors_of pending [] = []
  errors_of pending (runner_completed ∷ rest) = errors_of (pending - 1) rest
  errors_of pending (runner_error e ∷ rest) = e ∷ errors_of (pending - 1) rest
  errors_of pending (timed_out ∷ rest) = still_pending pending ∷ []

  -- Once each runner or the timeout is heard of, the wait is over, with every error reported before
  -- the timeout, in order, and with the timeout if it came first.
  pub wait_for-errors_of :
      (runners : ℕ) (signals : List (Signal E))
      → runners ≤ length signals
      → wait_for runners signals ≡ some (errors_of runners (take runners signals))
  unfolding wait_for
  wait_for-errors_of zero signals enough = refl
  wait_for-errors_of (suc pending) [] enough = absurd (omega arith)
  wait_for-errors_of (suc pending) (runner_completed ∷ rest) enough =
      wait_for-errors_of pending rest (omega arith)
      ∙ ap (λ k. some (errors_of k (take pending rest))) (one_less pending)
  wait_for-errors_of (suc pending) (runner_error e ∷ rest) enough =
      ap (with_error e) (wait_for-errors_of pending rest (omega arith))
      ∙ ap (λ k. some (e ∷ errors_of k (take pending rest))) (one_less pending)
  wait_for-errors_of (suc pending) (timed_out ∷ rest) enough = refl
