-- ===== src/ConflictMachine.antt =====
-- synckit/statemachine/dcr_state.go: the machine that follows the resolution of one conflict. A
-- transition takes the time and the transition ID that it records.
pub mod Lifecycle
mod Tests
use go_sync_kit.Base.{ℕ, ◌-◌, String, Option, none, some, List, [], ◌∷◌, ◌++◌, Bool, true, false}
use go_sync_kit.Base.Dict.{Dict, insert}
use go_sync_kit.Base.Int.{pos}
use go_sync_kit.Machine.{
  TransitionRules, TransitionError, Config, Machine, new, transition, subscribe,
}
use go_sync_kit.Types.{Value}

pub data ConflictResolutionState : Type 0 where
  idle analyzing applying_rules resolved manual_review escalated failed : ConflictResolutionState

unfoldable pub ConflictResolutionState-discrete : Discrete ConflictResolutionState
ConflictResolutionState-discrete = hlevel

-- `IsTerminalState`, `IsActiveState` and `RequiresIntervention`.
abbrev pub is_terminal_state : ConflictResolutionState → Bool
is_terminal_state resolved = true
is_terminal_state escalated = true
is_terminal_state failed = true
is_terminal_state _ = false

abbrev pub is_active_state : ConflictResolutionState → Bool
is_active_state analyzing = true
is_active_state applying_rules = true
is_active_state _ = false

abbrev pub requires_intervention : ConflictResolutionState → Bool
requires_intervention manual_review = true
requires_intervention escalated = true
requires_intervention _ = false

abbrev pub conflict_rules : TransitionRules ConflictResolutionState
conflict_rules =
    (idle, analyzing ∷ [])
    ∷ (analyzing, applying_rules ∷ failed ∷ [])
    ∷ (applying_rules, resolved ∷ manual_review ∷ escalated ∷ failed ∷ [])
    ∷ (resolved, idle ∷ [])
    ∷ (manual_review, resolved ∷ escalated ∷ failed ∷ idle ∷ [])
    ∷ (escalated, resolved ∷ failed ∷ idle ∷ [])
    ∷ (failed, idle ∷ [])
    ∷ []

-- The configuration where `config` is nil.
abbrev pub standard_config : Config ConflictResolutionState
standard_config = record {
  initial_state = idle;
  transition_rules = some conflict_rules;
  validator = none;
  max_history_size = pos 100;
}

-- A zero `startTime` is `none`.
pub record ConflictMachine : Type 0 where
  pub machine : Machine ConflictResolutionState
  pub conflict_id : String
  pub resolution_path : List String
  pub matched_rules : List String
  pub failed_rules : List String
  pub start_time : Option ℕ
  pub analysis_metadata : Dict Value

abbrev pub config_or_standard :
    Option (Config ConflictResolutionState) → Config ConflictResolutionState
config_or_standard none = standard_config
config_or_standard (some config) = config

abbrev pub rules_or_standard :
    Option (TransitionRules ConflictResolutionState) → TransitionRules ConflictResolutionState
rules_or_standard none = conflict_rules
rules_or_standard (some rules) = rules

unfoldable pub filled_config :
    Option (Config ConflictResolutionState) → Config ConflictResolutionState
filled_config config =
    let chosen = config_or_standard config in
    record chosen { transition_rules = some (rules_or_standard chosen.transition_rules) }

-- `DefaultConfig(DCRIdle, config.TransitionRules)`.
abbrev pub fallback_config : Config ConflictResolutionState → Config ConflictResolutionState
fallback_config config = record {
  initial_state = idle;
  transition_rules = config.transition_rules;
  validator = none;
  max_history_size = pos 50;
}

unfoldable pub around : Machine ConflictResolutionState → ConflictMachine
around machine = record {
  machine = machine;
  conflict_id = "";
  resolution_path = [];
  matched_rules = [];
  failed_rules = [];
  start_time = none;
  analysis_metadata = [];
}

abbrev pub or_fallback :
    Option (Machine ConflictResolutionState)
    → Option (Machine ConflictResolutionState)
    → Option (Machine ConflictResolutionState)
or_fallback none later = later
or_fallback (some machine) later = some machine

-- `NewConflictResolutionStateMachine`; `none` would be a nil state machine inside.
unfoldable pub new_conflict_machine :
    ℕ → Option (Config ConflictResolutionState) → Option ConflictMachine
unfolding new around filled_config
new_conflict_machine now config =
    let filled = filled_config config in
    elim (or_fallback (new now filled) (new now (fallback_config filled))) [
      | none ↦ none
      | some machine ↦ some (around machine)
    ]

-- When a transition is made, and the ID it is recorded under.
pub record Stamp : Type 0 where
  pub now : ℕ
  pub id : ℕ

-- A call of `stateMachine.Transition`.
unfoldable pub go_to :
    ConflictResolutionState → Stamp → ConflictMachine → ConflictMachine × Option TransitionError
go_to target stamp m =
    let (machine, e) =
      transition ConflictResolutionState-discrete stamp.now stamp.id target m.machine in
    (record m { machine = machine }, e)

-- The fields that `StartResolution` and `Reset` set after their transition.
abbrev pub cleared : String → Option ℕ → ConflictMachine → ConflictMachine
cleared conflict_id start_time m = record m {
  conflict_id = conflict_id;
  resolution_path = [];
  matched_rules = [];
  failed_rules = [];
  start_time = start_time;
  analysis_metadata = [];
}

abbrev pub unless_refused :
    (ConflictMachine → ConflictMachine)
    → ConflictMachine
    → Option TransitionError
    → ConflictMachine × Option TransitionError
unless_refused update m none = (update m, none)
unless_refused update m (some e) = (m, some e)

unfoldable pub start_resolution :
    String → Stamp → ConflictMachine → ConflictMachine × Option TransitionError
start_resolution conflict_id stamp m =
    let (moved, e) = go_to analyzing stamp m in
    unless_refused (cleared conflict_id (some stamp.now)) moved e

unfoldable pub reset : Stamp → ConflictMachine → ConflictMachine × Option TransitionError
reset stamp m = let (moved, e) = go_to idle stamp m in unless_refused (cleared "" none) moved e

abbrev pub add_analysis_metadata : String → Value → ConflictMachine → ConflictMachine
add_analysis_metadata key value m = record m {
  analysis_metadata = insert key value m.analysis_metadata;
}

abbrev pub record_rule_evaluation : String → ConflictMachine → ConflictMachine
record_rule_evaluation rule m = record m { resolution_path = m.resolution_path ++ rule ∷ [] }

abbrev pub record_rule_matched : String → ConflictMachine → ConflictMachine
record_rule_matched rule m = record m { matched_rules = m.matched_rules ++ rule ∷ [] }

abbrev pub record_rule_failed : String → ConflictMachine → ConflictMachine
record_rule_failed rule m = record m { failed_rules = m.failed_rules ++ rule ∷ [] }

abbrev pub begin_rule_application :
    Stamp → ConflictMachine → ConflictMachine × Option TransitionError
begin_rule_application = go_to applying_rules

abbrev pub complete_resolution : Stamp → ConflictMachine → ConflictMachine × Option TransitionError
complete_resolution = go_to resolved

abbrev pub require_manual_review :
    Stamp → ConflictMachine → ConflictMachine × Option TransitionError
require_manual_review = go_to manual_review

abbrev pub escalate_conflict : Stamp → ConflictMachine → ConflictMachine × Option TransitionError
escalate_conflict = go_to escalated

abbrev pub fail_resolution : Stamp → ConflictMachine → ConflictMachine × Option TransitionError
fail_resolution = go_to failed

unfoldable pub subscribe_observer : Option ℕ → ConflictMachine → ConflictMachine
unfolding subscribe
subscribe_observer observer m = record m { machine = subscribe observer m.machine }

-- `ConflictResolutionSummary`.
pub record Summary : Type 0 where
  pub conflict_id : String
  pub current_state : ConflictResolutionState
  pub resolution_path : List String
  pub matched_rules : List String
  pub failed_rules : List String
  pub analysis_metadata : Dict Value
  pub duration : ℕ
  pub start_time : Option ℕ

abbrev pub elapsed : ℕ → Option ℕ → ℕ
elapsed now none = 0
elapsed now (some start) = now - start

-- `GetResolutionSummary`, at a time.
unfoldable pub get_resolution_summary : ℕ → ConflictMachine → Summary
get_resolution_summary now m = record {
  conflict_id = m.conflict_id;
  current_state = m.machine.state;
  resolution_path = m.resolution_path;
  matched_rules = m.matched_rules;
  failed_rules = m.failed_rules;
  analysis_metadata = m.analysis_metadata;
  duration = elapsed now m.start_time;
  start_time = m.start_time;
}
