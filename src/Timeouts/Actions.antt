-- ===== src/Timeouts/Actions.antt =====
-- synckit/statemachine/timeout.go: what the action of failing does.
use go_sync_kit.Base.{ℕ, String, Option, none, some, true, ◌≡◌, refl, ap, ◌∙◌}
use go_sync_kit.Machine.{Machine, contains, can_transition, perform}
use go_sync_kit.Machine.Steps.{transition_ok}
use go_sync_kit.Timeouts.{TimeoutConfig, fail_action, act, fail_over}

module _ {T : Type 0} (same : Discrete T) (as_state : String → Option T) where
  -- The action of failing: where no text is a state, as in a machine whose states are integers, it leaves
  -- the machine as it is; where "failed" is a state that the rules allow and there is no validator, the
  -- machine is in that state afterwards.
  pub act_on_fail :
      (now id : ℕ) (config : TimeoutConfig T) (m : Machine T)
      → (((name : String) → as_state name ≡ none)
          → act same as_state now id config fail_action m ≡ m)
        × ((target : T)
            → as_state "failed" ≡ some target
            → contains same m.rules m.state target ≡ true
            → m.validator ≡ none
            → (act same as_state now id config fail_action m).state ≡ target)
  unfolding act fail_over can_transition
  act_on_fail now id config m = (
    λ untyped. rw (untyped "failed", untyped "error", untyped "timeout", untyped "stuck") refl,
    λ target typed allowed free. rw typed (
        rw allowed (
          ap (λ r. r.0.state) (transition_ok same now id target m allowed (rw free refl))
          ∙ unfold perform in refl)),
  )
