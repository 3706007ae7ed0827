-- ===== src/TransportManager/Guards.antt =====
-- synckit/statemachine/transport_manager.go: which of the manager's transitions succeed.
use go_sync_kit.Base.{
  none, some, [], Bool, true, false, ◌≡◌, ◌≢◌, ◌↔◌, inl, inr, refl, sym, ap, arith, ◌∙◌, subst,
  Bool-cases, not,
}
use go_sync_kit.Machine.{contains, transition, can_transition, perform, validate}
use go_sync_kit.Machine.Steps.{transition_ok}
use go_sync_kit.TransportState.Shape.{transport_rules_shape}
use go_sync_kit.TransportState.{
  TransportState, TransportState-discrete, disconnected, connecting, connected, reconnecting,
  transport_failed, shutting_down, can_connect, transport_rules, validate_transition,
}
use go_sync_kit.TransportManager.{
  TransportStateManager, Move, move_to, transition_to_connecting, transition_to_reconnecting, close,
  close_from,
}

-- The machine is one of `NewTransportStateMachine`.
pub record IsTransport (t : TransportStateManager) : Type 0 where
  pub rules : t.machine.rules ≡ transport_rules
  pub validator : t.machine.validator ≡ some validate_transition

abbrev allows : TransportState → TransportState → Bool
allows = contains TransportState-discrete transport_rules

-- A transition that the rules allow is made, whatever the validator.
move_to-allowed :
    (target : TransportState) (move : Move) (t : TransportStateManager)
    → IsTransport t
    → allows t.machine.state target ≡ true
    → ((move_to target move t).1 ≡ none) × ((move_to target move t).0.machine.state ≡ target)
unfolding move_to
move_to-allowed target move t is allowed =
    let made =
      transition_ok TransportState-discrete move.now move.id target t.machine
        (subst (λ r. contains TransportState-discrete r t.machine.state target ≡ true)
          (sym is.rules) allowed)
        (ap (λ v. validate v t.machine.state target) is.validator ∙ accepted) in
    rw made (refl, unfold perform in refl)
  where
    accepted : validate (some validate_transition) t.machine.state target ≡ none
    accepted = ground (arith, (transport_rules_shape t.machine.state target).4 allowed)

move_to-refused :
    (target : TransportState) (move : Move) (t : TransportStateManager)
    → IsTransport t
    → allows t.machine.state target ≡ false
    → ((move_to target move t).1 ≢ none) × ((move_to target move t).0.machine ≡ t.machine)
unfolding move_to transition can_transition
move_to-refused target move t is never =
    let no : contains TransportState-discrete t.machine.rules t.machine.state target ≡ false =
      subst (λ r. contains TransportState-discrete r t.machine.state target ≡ false) (sym is.rules)
        never in
    rw no (λ h. absurd (ground arith), refl)

move_to_ok_iff :
    (target : TransportState) (move : Move) (t : TransportStateManager)
    → IsTransport t
    → ((move_to target move t).1 ≡ none) ↔ (allows t.machine.state target ≡ true)
move_to_ok_iff target move t is = elim (Bool-cases (allows t.machine.state target)) [
  | inl allowed ↦ (λ h. allowed, λ h. (move_to-allowed target move t is allowed).0)
  | inr never ↦ (
    λ h. absurd ((move_to-refused target move t is never).0 h),
    λ h. absurd (ground (arith, h, never)),
  )
]

abbrev is_shut : TransportState → Bool
is_shut shutting_down = true
is_shut _ = false

allowed_targets :
    (s : TransportState)
    → (can_connect s ≡ allows s connecting)
      × ((allows s reconnecting ≡ true) ↔ (s ≡ connected))
      × (allows s shutting_down ≡ not (is_shut s))
unfolding contains TransportState-discrete
allowed_targets s = ground arith

shuts :
    (move : Move) (t : TransportStateManager)
    → IsTransport t
    → allows t.machine.state shutting_down ≡ true
    → (move_to shutting_down move t).0.machine.state ≡ shutting_down
shuts move t is allowed = (move_to-allowed shutting_down move t is allowed).1

close-state :
    (state : TransportState) (move : Move) (t : TransportStateManager)
    → IsTransport t
    → t.machine.state ≡ state
    → ((close_from state move t).machine.state ≡ shutting_down)
      × ((close_from state move t).handlers ≡ [])
close-state shutting_down move t is at = (at, refl)
close-state disconnected move t is at =
    (shuts move t is (ap (λ s. allows s shutting_down) at ∙ (allowed_targets disconnected).2), refl)
close-state connecting move t is at =
    (shuts move t is (ap (λ s. allows s shutting_down) at ∙ (allowed_targets connecting).2), refl)
close-state connected move t is at =
    (shuts move t is (ap (λ s. allows s shutting_down) at ∙ (allowed_targets connected).2), refl)
close-state reconnecting move t is at =
    (shuts move t is (ap (λ s. allows s shutting_down) at ∙ (allowed_targets reconnecting).2), refl)
close-state transport_failed move t is at = (
  shuts move t is (ap (λ s. allows s shutting_down) at ∙ (allowed_targets transport_failed).2),
  refl,
)

-- On a manager of a machine of `NewTransportStateMachine`: `TransitionToConnecting` succeeds exactly in a
-- state of which `CanConnect` holds, `TransitionToReconnecting` exactly in Connected, although its guard
-- lets Disconnected and Failed pass, and `Close` leaves it in ShuttingDown, without handlers, whatever
-- state it was in.
pub manager_transitions :
    (move : Move) (t : TransportStateManager)
    → IsTransport t
    → (((transition_to_connecting move t).1 ≡ none) ↔ (can_connect t.machine.state ≡ true))
      × (((transition_to_reconnecting move t).1 ≡ none) ↔ (t.machine.state ≡ connected))
      × ((close move t).machine.state ≡ shutting_down)
      × ((close move t).handlers ≡ [])
unfolding transition_to_connecting transition_to_reconnecting close
manager_transitions move t is =
    let targets = allowed_targets t.machine.state in
    let connects = move_to_ok_iff connecting move t is in
    let reconnects = move_to_ok_iff reconnecting move t is in
    let closed = close-state t.machine.state move t is refl in
    (ground (arith, targets.0, connects), ground (arith, targets.1, reconnects), closed.0, closed.1)
