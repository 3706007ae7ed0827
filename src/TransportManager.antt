-- ===== src/TransportManager.antt =====
-- synckit/statemachine/transport_manager.go: the manager of a transport's states. The machine calls its
-- observer, the manager, in goroutines of their own: `pending` holds the calls that have not run yet,
-- which may run in any order. The observability hooks, the logger and the texts of the metadata are
-- left out; a handler is known by a number, and the calls of handlers are a list.
pub mod Guards
mod Tests
use go_sync_kit.Base.{
  ℕ, zero, suc, ◌+◌, String, Option, none, some, List, [], ◌∷◌, ◌++◌, Bool, true, false, not, ◌||◌,
  if◌then◌else◌,
}
use go_sync_kit.Machine.{Machine, TransitionError, transition}
use go_sync_kit.TransportState.{
  TransportState, TransportState-discrete, disconnected, connecting, connected, reconnecting,
  transport_failed, shutting_down, can_connect, can_reconnect, can_send_data, can_receive_data,
  new_transport_machine,
}

-- What the observer reads of a transition: where it leads, when, and the text under "error", if any.
pub record Notice : Type 0 where
  pub to : TransportState
  pub timestamp : ℕ
  pub error : Option String

pub record TransportStateManager : Type 0 where
  pub machine : Machine TransportState
  pub last_error : Option String
  pub connection_time : Option ℕ
  pub total_attempts : ℕ
  pub handlers : List ℕ
  pub pending : List Notice
  pub called : List (ℕ × Notice)

-- Why a transition is not made: the manager's own guard, or the machine.
pub data ManagerError : Type 0 where
  cannot_connect cannot_reconnect nil_handler : ManagerError
  refused : TransitionError → ManagerError

-- `NewTransportStateManager`; `none` is the error of the machine's construction.
unfoldable pub new_manager : ℕ → Option TransportStateManager
unfolding new_transport_machine
new_manager now = elim (new_transport_machine now) [
  | none ↦ none
  | some machine ↦ some (record {
    machine = machine;
    last_error = none;
    connection_time = none;
    total_attempts = 0;
    handlers = [];
    pending = [];
    called = [];
  })
]

abbrev pub error_or : Option String → Option String → Option String
error_or none earlier = earlier
error_or (some e) earlier = some e

-- The `switch` of `OnTransition`.
unfoldable pub track : Notice → TransportState → TransportStateManager → TransportStateManager
track n connecting t = record t { total_attempts = t.total_attempts + 1; last_error = none }
track n connected t = record t { connection_time = some n.timestamp; last_error = none }
track n transport_failed t = record t { last_error = error_or n.error t.last_error }
track n disconnected t = record t { last_error = none }
track n reconnecting t = t
track n shutting_down t = t

abbrev pub call_all : Notice → List ℕ → List (ℕ × Notice)
call_all n [] = []
call_all n (handler ∷ rest) = (handler, n) ∷ call_all n rest

-- `OnTransition`.
unfoldable pub on_transition : Notice → TransportStateManager → TransportStateManager
unfolding track
on_transition n t =
    let tracked = track n n.to t in record tracked { called = t.called ++ call_all n t.handlers }

-- One of the goroutines that are pending runs.
unfoldable pub deliver_from :
    ℕ → List Notice → List Notice → TransportStateManager → TransportStateManager
unfolding on_transition
deliver_from i before [] t = t
deliver_from zero before (n ∷ rest) t = on_transition n (record t { pending = before ++ rest })
deliver_from (suc i) before (n ∷ rest) t = deliver_from i (before ++ n ∷ []) rest t

abbrev pub deliver : ℕ → TransportStateManager → TransportStateManager
deliver i t = deliver_from i [] t.pending t

-- `SubscribeToStateChanges`.
unfoldable pub subscribe :
    Option ℕ → TransportStateManager → TransportStateManager × Option ManagerError
subscribe none t = (t, some nil_handler)
subscribe (some handler) t = (record t { handlers = t.handlers ++ handler ∷ [] }, none)

-- When a transition is made, under which ID, and with which text under "error".
pub record Move : Type 0 where
  pub now : ℕ
  pub id : ℕ
  pub error : Option String

abbrev pub after_move :
    Notice
    → TransportStateManager
    → Machine TransportState
    → Option TransitionError
    → TransportStateManager × Option ManagerError
after_move n t machine none = (record t { machine = machine; pending = t.pending ++ n ∷ [] }, none)
after_move n t machine (some e) = (record t { machine = machine }, some (refused e))

-- `TransitionWithContext` of the machine that the manager observes; so `TransitionToConnected`,
-- `TransitionToFailed`, `TransitionToDisconnected` and `TransitionToShuttingDown`.
unfoldable pub move_to :
    TransportState → Move → TransportStateManager → TransportStateManager × Option ManagerError
move_to target move t =
    let (machine, e) = transition TransportState-discrete move.now move.id target t.machine in
    after_move (record { to = target; timestamp = move.now; error = move.error }) t machine e

unfoldable pub transition_to_connecting :
    Move → TransportStateManager → TransportStateManager × Option ManagerError
transition_to_connecting move t =
    if not (can_connect t.machine.state)
    then (t, some cannot_connect)
    else move_to connecting move t

unfoldable pub transition_to_reconnecting :
    Move → TransportStateManager → TransportStateManager × Option ManagerError
transition_to_reconnecting move t =
    if not (can_reconnect t.machine.state)
    then (t, some cannot_reconnect)
    else move_to reconnecting move t

abbrev pub is_healthy : TransportStateManager → Bool
is_healthy t = can_send_data t.machine.state || can_receive_data t.machine.state

-- `Close`, by the state that it reads first; an error of the transition is only logged.
abbrev pub close_from : TransportState → Move → TransportStateManager → TransportStateManager
close_from shutting_down move t = record t { handlers = [] }
close_from _ move t = record (move_to shutting_down move t).0 { handlers = [] }

unfoldable pub close : Move → TransportStateManager → TransportStateManager
close move t = close_from t.machine.state move t

-- `StatefulTransportWrapper.Close`, by the error of the wrapped transport's `Close`.
unfoldable pub close_wrapped :
    {E : Type 0} → Move → Option E → TransportStateManager → TransportStateManager × Option E
close_wrapped move transport_error t = (close move t, transport_error)
