-- ===== src/TransportManager/Tests.antt =====
-- synckit/statemachine/transport_manager.go: a manager whose transport is disconnected.
use go_sync_kit.Base.{none, some, [], ◌∷◌, true, ◌≡◌, ◌↔◌, refl}
use go_sync_kit.Machine.{invalid_transition, transition, contains}
use go_sync_kit.TransportState.{
  TransportState-discrete, disconnected, connected, shutting_down, can_connect, transport_rules,
  validate_transition,
}
use go_sync_kit.TransportManager.{
  TransportStateManager, Move, transition_to_connecting, transition_to_reconnecting, close, refused,
  move_to,
}
use go_sync_kit.TransportManager.Guards.{manager_transitions}

abbrev idle : TransportStateManager
idle = record {
  machine = record {
    initial = disconnected;
    rules = transport_rules;
    validator = some validate_transition;
    max_history = 50;
    state = disconnected;
    state_start = 0;
    observers = [];
    history = [];
  };
  last_error = none;
  connection_time = none;
  total_attempts = 0;
  handlers = 4 ∷ [];
  pending = [];
  called = [];
}

abbrev move : Move
move = record { now = 5; id = 1; error = none }

manager_transitions_example :
    (((transition_to_connecting move idle).1 ≡ none) ↔ (can_connect disconnected ≡ true))
    × (((transition_to_reconnecting move idle).1 ≡ none) ↔ (disconnected ≡ connected))
    × ((close move idle).machine.state ≡ shutting_down)
    × ((close move idle).handlers ≡ [])
manager_transitions_example =
    manager_transitions move idle (record { rules = refl; validator = refl })

-- The guard lets a disconnected transport pass, and the machine refuses it.
reconnect_refused : (transition_to_reconnecting move idle).1 ≡ some (refused invalid_transition)
unfolding transition_to_reconnecting move_to transition contains TransportState-discrete
reconnect_refused = refl
