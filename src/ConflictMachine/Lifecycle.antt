-- ===== src/ConflictMachine/Lifecycle.antt =====
-- synckit/statemachine/dcr_state.go: where the machine can go, and that it can always be made idle.
use go_sync_kit.Base.{
  Option, none, some, Bool, true, false, ◌≡◌, ◌≢◌, ◌↔◌, refl, arith, String, ℕ, List, ◌∙◌,
  if◌then◌else◌, if_eq_true, if_eq_false, if_both, [], ◌∷◌,
}
use go_sync_kit.Machine.{
  contains, transition, invalid_transition, TransitionError, perform, validated, can_transition,
  new, with_rules,
}
use go_sync_kit.Base.Int.{ℤ}
use go_sync_kit.Types.{Value}
use go_sync_kit.ConflictMachine.{
  ConflictMachine, ConflictResolutionState, ConflictResolutionState-discrete, conflict_rules, idle,
  analyzing, failed, Stamp, go_to, start_resolution, reset, cleared, fail_resolution,
  is_active_state, add_analysis_metadata, record_rule_evaluation, record_rule_matched,
  record_rule_failed, unless_refused, new_conflict_machine, filled_config, around,
}

-- The machine has the standard rules and no validator, as `NewStatefulDynamicResolver` builds it.
pub record IsStandard (m : ConflictMachine) : Type 0 where
  pub rules : m.machine.rules ≡ conflict_rules
  pub validator : m.machine.validator ≡ none

unfoldable pub allows : ConflictResolutionState → ConflictResolutionState → Bool
allows = contains ConflictResolutionState-discrete conflict_rules

-- The machine after a transition that the rules allow.
abbrev pub moved : ConflictResolutionState → Stamp → ConflictMachine → ConflictMachine
moved target stamp m = record m {
  machine = perform ConflictResolutionState-discrete stamp.now stamp.id target m.machine;
}

pub go_to_lem :
    (target : ConflictResolutionState) (stamp : Stamp) (m : ConflictMachine)
    → IsStandard m
    → go_to target stamp m ≡ (
        if allows m.machine.state target
        then (moved target stamp m, none)
        else (m, some invalid_transition))
unfolding go_to transition can_transition validated allows
go_to_lem target stamp m standard = ground (arith, standard.rules, standard.validator)

-- What a transition that the rules refuse, or allow, returns.
pub go_to-allowed :
    (target : ConflictResolutionState) (stamp : Stamp) (m : ConflictMachine)
    → IsStandard m
    → allows m.machine.state target ≡ true
    → go_to target stamp m ≡ (moved target stamp m, none)
go_to-allowed target stamp m standard allowed =
    go_to_lem target stamp m standard ∙ if_eq_true _ _ allowed

pub go_to-refused :
    (target : ConflictResolutionState) (stamp : Stamp) (m : ConflictMachine)
    → IsStandard m
    → allows m.machine.state target ≡ false
    → go_to target stamp m ≡ (m, some invalid_transition)
go_to-refused target stamp m standard refused =
    go_to_lem target stamp m standard ∙ if_eq_false _ _ refused

moved-IsStandard :
    (target : ConflictResolutionState) (stamp : Stamp) (m : ConflictMachine)
    → IsStandard m
    → IsStandard (moved target stamp m)
unfolding perform
moved-IsStandard target stamp m standard = record {
  rules = standard.rules;
  validator = standard.validator;
}

pub go_to-IsStandard :
    (target : ConflictResolutionState) (stamp : Stamp) (m : ConflictMachine)
    → IsStandard m
    → IsStandard (go_to target stamp m).0
go_to-IsStandard target stamp m standard = rw (go_to_lem target stamp m standard) (
    if_both {A = ConflictMachine × Option TransitionError} (λ r. IsStandard r.0)
      (allows m.machine.state target) (moved-IsStandard target stamp m standard) standard)

-- `StartResolution` succeeds exactly from Idle.
pub start_resolution_ok_iff :
    (conflict_id : String) (stamp : Stamp) (m : ConflictMachine)
    → IsStandard m
    → ((start_resolution conflict_id stamp m).1 ≡ none) ↔ (m.machine.state ≡ idle)
unfolding start_resolution
start_resolution_ok_iff conflict_id stamp m standard =
    rw (go_to_lem analyzing stamp m standard)
      (unfold allows contains ConflictResolutionState-discrete in ground arith)

-- `Reset` succeeds exactly where nothing is being worked on.
pub reset_ok_iff :
    (stamp : Stamp) (m : ConflictMachine)
    → IsStandard m
    → ((reset stamp m).1 ≡ none)
      ↔ ((is_active_state m.machine.state ≡ false) × (m.machine.state ≢ idle))
unfolding reset
reset_ok_iff stamp m standard =
    rw (go_to_lem idle stamp m standard)
      (unfold allows contains ConflictResolutionState-discrete in ground arith)

-- Whatever state it is in, `FailResolution` and then `Reset` make it idle, also where one of them is refused.
pub fail_reset-idle :
    (at_failure at_reset : Stamp) (m : ConflictMachine)
    → IsStandard m
    → (reset at_reset (fail_resolution at_failure m).0).0.machine.state ≡ idle
unfolding reset
fail_reset-idle at_failure at_reset m standard =
    rw
      (go_to_lem idle at_reset (fail_resolution at_failure m).0
        (go_to-IsStandard failed at_failure m standard))
      (rw (go_to_lem failed at_failure m standard)
        (unfold allows contains ConflictResolutionState-discrete perform in ground arith))

-- The operations that change the machine.
pub data Command : Type 0 where
  start : String → Stamp → Command
  add_metadata : String → Value → Command
  evaluated rule_matched rule_failed : String → Command
  go : ConflictResolutionState → Stamp → Command
  start_over : Stamp → Command

unfoldable pub run : Command → ConflictMachine → ConflictMachine
run (start conflict_id stamp) m = (start_resolution conflict_id stamp m).0
run (add_metadata key value) m = add_analysis_metadata key value m
run (evaluated rule) m = record_rule_evaluation rule m
run (rule_matched rule) m = record_rule_matched rule m
run (rule_failed rule) m = record_rule_failed rule m
run (go target stamp) m = (go_to target stamp m).0
run (start_over stamp) m = (reset stamp m).0

unfoldable pub run_all : List Command → ConflictMachine → ConflictMachine
run_all [] m = m
run_all (c ∷ rest) m = run_all rest (run c m)

unless_refused-IsStandard :
    (conflict_id : String) (start_time : Option ℕ) (m : ConflictMachine)
    (e : Option TransitionError)
    → IsStandard m
    → IsStandard (unless_refused (cleared conflict_id start_time) m e).0
unless_refused-IsStandard conflict_id start_time m none standard = record {
  rules = standard.rules;
  validator = standard.validator;
}
unless_refused-IsStandard conflict_id start_time m (some e) standard = standard

pub start_resolution-IsStandard :
    (conflict_id : String) (stamp : Stamp) (m : ConflictMachine)
    → IsStandard m
    → IsStandard (start_resolution conflict_id stamp m).0
unfolding start_resolution
start_resolution-IsStandard conflict_id stamp m standard =
    unless_refused-IsStandard conflict_id (some stamp.now) (go_to analyzing stamp m).0
      (go_to analyzing stamp m).1 (go_to-IsStandard analyzing stamp m standard)

pub reset-IsStandard :
    (stamp : Stamp) (m : ConflictMachine) → IsStandard m → IsStandard (reset stamp m).0
unfolding reset
reset-IsStandard stamp m standard =
    unless_refused-IsStandard "" none (go_to idle stamp m).0 (go_to idle stamp m).1
      (go_to-IsStandard idle stamp m standard)

run-IsStandard : (c : Command) (m : ConflictMachine) → IsStandard m → IsStandard (run c m)
unfolding run
run-IsStandard (start conflict_id stamp) m standard =
    start_resolution-IsStandard conflict_id stamp m standard
run-IsStandard (add_metadata key value) m standard = record {
  rules = standard.rules;
  validator = standard.validator;
}
run-IsStandard (evaluated rule) m standard = record {
  rules = standard.rules;
  validator = standard.validator;
}
run-IsStandard (rule_matched rule) m standard = record {
  rules = standard.rules;
  validator = standard.validator;
}
run-IsStandard (rule_failed rule) m standard = record {
  rules = standard.rules;
  validator = standard.validator;
}
run-IsStandard (go target stamp) m standard = go_to-IsStandard target stamp m standard
run-IsStandard (start_over stamp) m standard = reset-IsStandard stamp m standard

pub run_all-IsStandard :
    (commands : List Command) (m : ConflictMachine) → IsStandard m → IsStandard (run_all commands m)
unfolding run_all
run_all-IsStandard [] m standard = standard
run_all-IsStandard (c ∷ rest) m standard =
    run_all-IsStandard rest (run c m) (run-IsStandard c m standard)

-- What the constructor makes of a configuration without rules and validator.
pub new_conflict_machine_lem :
    (now : ℕ) (initial : ConflictResolutionState) (size : ℤ)
    → (m : ConflictMachine) × (new_conflict_machine now (
          some (record {
            initial_state = initial;
            transition_rules = none;
            validator = none;
            max_history_size = size;
          }))
        ≡ some m)
      × (m.machine.state ≡ initial)
      × IsStandard m
unfolding new_conflict_machine new with_rules filled_config around
new_conflict_machine_lem now initial size =
    (_, refl, refl, record { rules = refl; validator = refl })

-- Whatever operations were called, in whatever order and with whatever results, on a machine with
-- the standard rules: `FailResolution` and then `Reset` make it ready for the next
-- `StartResolution`, which then succeeds.
pub always_recovers :
    (commands : List Command) (at_failure at_reset stamp : Stamp) (conflict_id : String)
    (m : ConflictMachine)
    → IsStandard m
    → (start_resolution conflict_id stamp
        (reset at_reset (fail_resolution at_failure (run_all commands m)).0).0).1
      ≡ none
always_recovers commands at_failure at_reset stamp conflict_id m standard =
    let kept = run_all-IsStandard commands m standard in
    (start_resolution_ok_iff conflict_id stamp _
        (reset-IsStandard at_reset _ (go_to-IsStandard failed at_failure _ kept))).1
      (fail_reset-idle at_failure at_reset _ kept)
