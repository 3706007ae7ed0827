-- ===== src/Stateful/Ready.antt =====
-- synckit/stateful_resolver.go: between two calls of `Resolve`.
use go_sync_kit.Base.{
  String, Option, none, some, [], ◌∷◌, Bool, true, false, ◌≡◌, refl, ap, arith, ◌∙◌, eq_refl,
}
use go_sync_kit.Base.Dict.{Dict, insert, lookup, erase}
use go_sync_kit.Types.{Conflict, ResolvedConflict, Result}
use go_sync_kit.Machine.{perform, contains}
use go_sync_kit.ConflictMachine.{
  ConflictMachine, ConflictResolutionState, ConflictResolutionState-discrete, Stamp, idle,
  analyzing, applying_rules, failed, resolved, manual_review, escalated, go_to, start_resolution,
  reset, cleared,
}
use go_sync_kit.ConflictMachine.Lifecycle.{IsStandard, allows, go_to-allowed, go_to-IsStandard}
use go_sync_kit.Workflow.{ConflictWorkflow}
use go_sync_kit.Workflow.Active.{start_workflow, complete_workflow}
use go_sync_kit.Stateful.{StatefulError, Surroundings, Readings, lift_option}
use go_sync_kit.Stateful.Resolve.{Outcome, settle, close_workflow, complete_if_ok, open_workflow}
use go_sync_kit.Stateful.Idle.{StandsIn, IsOnlyOne, within-IsOnlyOne}

-- The machine, if there is one, is idle and keeps nothing of an earlier conflict.
abbrev pub IsWaiting : Option ConflictMachine → Type 0
IsWaiting none = Unit
IsWaiting (some m) = IsStandard m × (m.machine.state ≡ idle) × (m ≡ cleared "" none m)

pub go_to-StandsIn :
    (before after : ConflictResolutionState) (stamp : Stamp) (m : ConflictMachine)
    → allows before after ≡ true
    → StandsIn before (some m)
    → ((go_to after stamp m).1 ≡ none) × StandsIn after (some (go_to after stamp m).0)
go_to-StandsIn before after stamp m allowed stands =
    let goes = go_to-allowed after stamp m stands.0 (ap (λ s. allows s after) stands.1 ∙ allowed) in
    (
      ap (λ r. r.1) goes,
      (
        go_to-IsStandard after stamp m stands.0,
        ap (λ r. r.0.machine.state) goes ∙ unfold perform in refl,
      ),
    )

pub start_resolution-StandsIn :
    (conflict_id : String) (stamp : Stamp) (m : ConflictMachine)
    → StandsIn idle (some m)
    → ((start_resolution conflict_id stamp m).1 ≡ none)
      × StandsIn analyzing (some (start_resolution conflict_id stamp m).0)
unfolding start_resolution
start_resolution-StandsIn conflict_id stamp m stands =
    let goes =
      go_to-StandsIn idle analyzing stamp m
        (unfold allows contains ConflictResolutionState-discrete in refl) stands in
    rw (goes.0)
      (refl, (record { rules = goes.1.0.rules; validator = goes.1.0.validator }, goes.1.1))

pub reset-IsWaiting :
    (before : ConflictResolutionState) (stamp : Stamp) (m : ConflictMachine)
    → allows before idle ≡ true
    → StandsIn before (some m)
    → IsWaiting (some (reset stamp m).0)
unfolding reset
reset-IsWaiting before stamp m allowed stands =
    let goes = go_to-StandsIn before idle stamp m allowed stands in
    rw (goes.0) (record { rules = goes.1.0.rules; validator = goes.1.0.validator }, goes.1.1, refl)

abbrev state_after : Outcome → ConflictResolutionState
state_after Outcome.failed = failed
state_after Outcome.manual = manual_review
state_after Outcome.escalated = escalated
state_after Outcome.other = resolved

settle_lem :
    (out : Outcome) (stamp : Stamp) (m : ConflictMachine)
    → settle out stamp m ≡ (go_to (state_after out) stamp m).0
settle_lem Outcome.failed stamp m = refl
settle_lem Outcome.manual stamp m = refl
settle_lem Outcome.escalated stamp m = refl
settle_lem Outcome.other stamp m = refl

settled_allowed :
    (out : Outcome)
    → (allows applying_rules (state_after out) ≡ true) × (allows (state_after out) idle ≡ true)
unfolding allows contains ConflictResolutionState-discrete
settled_allowed out = ground arith

pub settled-IsWaiting :
    (out : Outcome) (at_end at_reset : Stamp) (machine : Option ConflictMachine)
    → StandsIn applying_rules machine
    → IsWaiting
        (lift_option (λ (m : ConflictMachine). (reset at_reset (settle out at_end m)).0) machine)
settled-IsWaiting out at_end at_reset none stands = tt
settled-IsWaiting out at_end at_reset (some m) stands =
    let (enters, leaves) = settled_allowed out in
    rw (settle_lem out at_end m) (
      reset-IsWaiting (state_after out) at_reset _ leaves
        (go_to-StandsIn applying_rules (state_after out) at_end m enters stands).1)

module _ {E : Type 0} where
  complete_only_one :
      (id : String) (w : ConflictWorkflow E) → (complete_workflow id ((id, w) ∷ [])).0 ≡ []
  unfolding complete_workflow lookup erase
  complete_only_one id w = ground (arith, eq_refl id)

  pub close_workflow-IsOnlyOne :
      (at : Readings) (r : Result (StatefulError E) ResolvedConflict) (workflow : Option String)
      (workflows : Option (Dict (ConflictWorkflow E)))
      → IsOnlyOne workflow workflows
      → IsOnlyOne none (close_workflow at r workflow workflows).0
  unfolding close_workflow
  close_workflow-IsOnlyOne at r none workflows only = only
  close_workflow-IsOnlyOne at r (some id) none only = elim only [ ]
  close_workflow-IsOnlyOne at r (some id) (some workflows) only =
      let (w, one) = within-IsOnlyOne (complete_if_ok at r) (some id) (some workflows) only in
      ap (λ d. (complete_workflow id d).0) one ∙ complete_only_one id w

  pub open_workflow-IsOnlyOne :
      (env : Surroundings E) (at : Readings) (c : Conflict) (enabled : Bool)
      (workflows : Option (Dict (ConflictWorkflow E)))
      → IsOnlyOne none workflows
      → IsOnlyOne
          (open_workflow env at c enabled workflows).1
          (open_workflow env at c enabled workflows).0
  unfolding open_workflow start_workflow insert
  open_workflow-IsOnlyOne env at c enabled none only = tt
  open_workflow-IsOnlyOne env at c false (some workflows) only = only
  open_workflow-IsOnlyOne env at c true (some workflows) only = (_, ap (insert _ _) only)
