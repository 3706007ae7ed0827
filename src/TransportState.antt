-- ===== src/TransportState.antt =====
-- synckit/statemachine/transport_states.go: the states of a transport connection and their rules. The
-- metadata helpers only build maps of texts.
pub mod Shape
mod Tests
use go_sync_kit.Base.{ℕ, String, Option, none, some, List, [], ◌∷◌, Bool, true, false}
use go_sync_kit.Base.Int.{pos}
use go_sync_kit.Machine.{TransitionRules, Machine, new}

pub data TransportState : Type 0 where
  disconnected connecting connected reconnecting transport_failed shutting_down : TransportState

unfoldable pub TransportState-discrete : Discrete TransportState
TransportState-discrete = hlevel

-- `CanConnect` and `CanReconnect`.
abbrev pub can_connect : TransportState → Bool
can_connect disconnected = true
can_connect transport_failed = true
can_connect _ = false

abbrev pub can_reconnect : TransportState → Bool
can_reconnect connected = true
can_reconnect disconnected = true
can_reconnect transport_failed = true
can_reconnect _ = false

-- `CanSendData`, `CanReceiveData` and `IsConnected`.
abbrev pub can_send_data : TransportState → Bool
can_send_data connected = true
can_send_data _ = false

abbrev pub can_receive_data : TransportState → Bool
can_receive_data connected = true
can_receive_data _ = false

abbrev pub is_connected : TransportState → Bool
is_connected connected = true
is_connected _ = false

-- `IsTerminal`.
abbrev pub requires_intervention : TransportState → Bool
requires_intervention transport_failed = true
requires_intervention _ = false

-- The rules of `NewTransportStateMachine`.
abbrev pub transport_rules : TransitionRules TransportState
transport_rules =
    (disconnected, connecting ∷ shutting_down ∷ [])
    ∷ (connecting, connected ∷ transport_failed ∷ disconnected ∷ shutting_down ∷ [])
    ∷ (connected, reconnecting ∷ disconnected ∷ transport_failed ∷ shutting_down ∷ [])
    ∷ (reconnecting, connected ∷ transport_failed ∷ disconnected ∷ shutting_down ∷ [])
    ∷ (transport_failed, connecting ∷ shutting_down ∷ [])
    ∷ (shutting_down, [])
    ∷ []

-- `ValidateTransition`.
abbrev pub validate_transition : TransportState → TransportState → Option String
validate_transition shutting_down to = some "cannot transition from shutting down state"
validate_transition _ to = none

-- `NewTransportStateMachine`, at a time.
unfoldable pub new_transport_machine : ℕ → Option (Machine TransportState)
unfolding new
new_transport_machine now = new now (record {
  initial_state = disconnected;
  transition_rules = some transport_rules;
  validator = some validate_transition;
  max_history_size = pos 50;
})
