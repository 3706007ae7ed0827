-- ===== src/TransportState/Tests.antt =====
-- synckit/statemachine/transport_states.go: examples.
use go_sync_kit.Base.{some, List, [], ◌∷◌, ◌≡◌, refl}
use go_sync_kit.Machine.{Machine}
use go_sync_kit.Machine.Steps.{Attempt, attempt_all}
use go_sync_kit.TransportState.{
  TransportState, TransportState-discrete, disconnected, connecting, shutting_down, transport_rules,
  validate_transition,
}
use go_sync_kit.TransportState.Shape.{shut_down_stays}

abbrev shut_down : Machine TransportState
shut_down = record {
  initial = disconnected;
  rules = transport_rules;
  validator = some validate_transition;
  max_history = 50;
  state = shutting_down;
  state_start = 7;
  observers = [];
  history = [];
}

abbrev attempts : List (Attempt TransportState-discrete)
attempts =
    record { at = 8; id = 1; target = connecting }
    ∷ record { at = 9; id = 2; target = disconnected }
    ∷ []

stays_shut : attempt_all TransportState-discrete attempts shut_down ≡ shut_down
stays_shut = shut_down_stays attempts shut_down refl refl
