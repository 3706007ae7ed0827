-- ===== src/ConflictMachine/Tests.antt =====
-- synckit/statemachine/dcr_state.go: examples.
use go_sync_kit.Base.{none, [], ◌∷◌, true, ◌≡◌, refl, List}
use go_sync_kit.ConflictMachine.{
  ConflictMachine, Stamp, idle, applying_rules, escalated, resolved, is_terminal_state,
  start_resolution, reset, fail_resolution, conflict_rules,
}
use go_sync_kit.ConflictMachine.Lifecycle.{
  allows, Command, start, go, evaluated, run_all, always_recovers,
}
use go_sync_kit.Machine.{contains}
use go_sync_kit.ConflictMachine.{ConflictResolutionState-discrete}

abbrev stamp : Stamp
stamp = record { now = 5; id = 1 }

abbrev fresh : ConflictMachine
fresh = record {
  machine = record {
    initial = idle;
    rules = conflict_rules;
    validator = none;
    max_history = 100;
    state = idle;
    state_start = 0;
    observers = [];
    history = [];
  };
  conflict_id = "";
  resolution_path = [];
  matched_rules = [];
  failed_rules = [];
  start_time = none;
  analysis_metadata = [];
}

abbrev commands : List Command
commands = start "c1" stamp ∷ evaluated "r" ∷ go applying_rules stamp ∷ go escalated stamp ∷ []

always_recovers_example :
    (start_resolution "c2" stamp
      (reset stamp (fail_resolution stamp (run_all commands fresh)).0).0).1
    ≡ none
always_recovers_example =
    always_recovers commands stamp stamp stamp "c2" fresh
      (record { rules = refl; validator = refl })

-- `IsTerminalState` holds of a state that the rules let go on.
terminal_goes_on : (is_terminal_state escalated ≡ true) × (allows escalated resolved ≡ true)
unfolding allows contains ConflictResolutionState-discrete
terminal_goes_on = (refl, refl)
