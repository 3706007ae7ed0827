-- ===== src/Timeouts/Tests.antt =====
-- synckit/statemachine/timeout.go: a machine over truth values whose timeouts lead from false to true.
use go_sync_kit.Base.{◌≤◌, String, Option, none, List, [], ◌∷◌, Bool, true, false}
use go_sync_kit.Base.Int.{pos}
use go_sync_kit.Machine.{Machine}
use go_sync_kit.Timeouts.{TimeoutConfig, transition_action, to_state, new_timeout_handler}
use go_sync_kit.Timeouts.Waiting.{waiting, OnlyCurrentWaits}
use go_sync_kit.Timeouts.Monitors.{Step, start, stop, moved, runs_out, run, one_monitor_waits}

unfoldable Bool-discrete : Discrete Bool
Bool-discrete = hlevel

abbrev fresh : Machine Bool
fresh = record {
  initial = false;
  rules = (false, true ∷ []) ∷ (true, false ∷ []) ∷ [];
  validator = none;
  max_history = 5;
  state = false;
  state_start = 0;
  observers = [];
  history = [];
}

abbrev config : TimeoutConfig Bool
config = record {
  default_timeout = pos 10;
  enable_timeouts = true;
  action = transition_action;
  target_state = to_state true;
}

abbrev no_state : String → Option Bool
no_state s = none

abbrev steps : List (Step Bool)
steps = start ∷ start ∷ moved 3 1 true ∷ start ∷ runs_out 9 2 0 ∷ stop ∷ []

one_monitor_waits_example :
    (waiting (run Bool-discrete no_state steps (new_timeout_handler fresh config)).monitors ≤ 1)
    × OnlyCurrentWaits
        (run Bool-discrete no_state steps (new_timeout_handler fresh config)).current
        (run Bool-discrete no_state steps (new_timeout_handler fresh config)).monitors
one_monitor_waits_example = one_monitor_waits Bool-discrete no_state fresh config steps
