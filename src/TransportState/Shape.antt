-- ===== src/TransportState/Shape.antt =====
-- synckit/statemachine/transport_states.go: what the rules allow, and the tests on states.
use go_sync_kit.Base.{
  none, true, false, ◌||◌, ◌≡◌, ◌⊎◌, refl, arith, ℕ, List, [], ◌∷◌, ap, sym, ◌∙◌, Option-cases, inl,
  inr,
}
use go_sync_kit.Machine.{Machine, contains, transition}
use go_sync_kit.Machine.Steps.{Attempt, attempt_all, transition_ok_iff, transition_error_unchanged}
use go_sync_kit.TransportState.{
  TransportState, TransportState-discrete, connecting, reconnecting, shutting_down, can_connect,
  can_reconnect, transport_rules, validate_transition,
}

-- The tests on states agree with the rules: `CanConnect` holds exactly where the rules allow
-- Connecting, and `CanReconnect` exactly where they allow Reconnecting or Connecting. Every state but
-- ShuttingDown may shut down, and may be the last; from ShuttingDown the rules allow nothing, and what
-- they allow the validator never refuses.
pub transport_rules_shape :
    (s t : TransportState)
    → (can_connect s ≡ contains TransportState-discrete transport_rules s connecting)
      × (can_reconnect s
          ≡ contains TransportState-discrete transport_rules s reconnecting
            || contains TransportState-discrete transport_rules s connecting)
      × ((s ≡ shutting_down)
          ⊎ (contains TransportState-discrete transport_rules s shutting_down ≡ true))
      × (contains TransportState-discrete transport_rules shutting_down t ≡ false)
      × (contains TransportState-discrete transport_rules s t ≡ true
          → validate_transition s t ≡ none)
unfolding contains TransportState-discrete
transport_rules_shape s t = ground arith

refused :
    (now id : ℕ) (to : TransportState) (m : Machine TransportState)
    → m.rules ≡ transport_rules
    → m.state ≡ shutting_down
    → (transition TransportState-discrete now id to m).0 ≡ m
refused now id to m rules shut =
    elim (Option-cases (transition TransportState-discrete now id to m).1) [
      | inl fine ↦ absurd (never ((transition_ok_iff TransportState-discrete now id to m).0 fine).0)
      | inr (e, failed) ↦ transition_error_unchanged TransportState-discrete now id to m failed
    ]
  where
    never : contains TransportState-discrete m.rules m.state to ≡ true → ⊥
    never h =
        let nothing = (transport_rules_shape shutting_down to).3 in
        let allowed : contains TransportState-discrete transport_rules shutting_down to ≡ true =
          sym (
            ap (λ r. contains TransportState-discrete r m.state to) rules
            ∙ ap (λ s. contains TransportState-discrete transport_rules s to) shut)
          ∙ h in
        let no = sym allowed ∙ nothing in absurd (ground arith)

-- Shutting down is final: a machine with these rules that is in ShuttingDown is left as it is, its
-- history included, by any sequence of attempted transitions.
pub shut_down_stays :
    (tries : List (Attempt TransportState-discrete)) (m : Machine TransportState)
    → m.rules ≡ transport_rules
    → m.state ≡ shutting_down
    → attempt_all TransportState-discrete tries m ≡ m
unfolding attempt_all
shut_down_stays [] m rules shut = refl
shut_down_stays (a ∷ rest) m rules shut =
    let same = refused a.at a.id a.target m rules shut in
    ap (attempt_all TransportState-discrete rest) same ∙ shut_down_stays rest m rules shut
