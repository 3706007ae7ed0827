-- ===== src/Stateful/Idle.antt =====
-- synckit/stateful_resolver.go: what one call of `Resolve` does to the machine and to the workflows.
use go_sync_kit.Base.{
  ℕ, ◌+◌, String, Option, none, some, List, [], ◌∷◌, Bool, ◌≡◌, refl, ap, if_both, ◌∙◌, if_eq_true,
  eq_refl,
}
use go_sync_kit.Base.Dict.{Dict}
use go_sync_kit.Types.{Conflict, ResolvedConflict, Result, ok, err}
use go_sync_kit.Resolver.{Rule, rule_matches}
use go_sync_kit.ConflictMachine.{ConflictMachine, applying_rules, ConflictResolutionState}
use go_sync_kit.ConflictMachine.Lifecycle.{IsStandard}
use go_sync_kit.Workflow.{ConflictWorkflow}
use go_sync_kit.Workflow.Active.{update_workflow}
use go_sync_kit.Stateful.{
  Surroundings, RuleReadings, Tracking, with_machine, with_workflow, count, track_evaluation,
  track_failure, within, lift_option,
}
use go_sync_kit.Stateful.Calls.{
  Tracked, track_result, track_match, track_fallback_result, track_fallback, track_rules,
}

-- The machine, if there is one, has the standard rules and is in the given state.
abbrev pub StandsIn : ConflictResolutionState → Option ConflictMachine → Type 0
StandsIn state none = Unit
StandsIn state (some m) = IsStandard m × (m.machine.state ≡ state)

module _ {E : Type 0} where
  -- The workflow of the call is the only one of the manager.
  abbrev pub IsOnlyOne : Option String → Option (Dict (ConflictWorkflow E)) → Type 0
  IsOnlyOne none none = Unit
  IsOnlyOne none (some workflows) = workflows ≡ []
  IsOnlyOne (some id) none = ⊥
  IsOnlyOne (some id) (some workflows) = (w : ConflictWorkflow E) × (workflows ≡ (id, w) ∷ [])

  pub record IsUnderWay (t : Tracking E) : Type 0 where
    pub machine : StandsIn applying_rules t.machine
    pub workflows : IsOnlyOne t.workflow t.workflows

  -- A change of the machine that leaves the state machine inside alone.
  with_machine-IsUnderWay :
      (change : ConflictMachine → ConflictMachine) (t : Tracking E)
      → ((m : ConflictMachine) → (change m).machine ≡ m.machine)
      → IsUnderWay t
      → IsUnderWay (with_machine change t)
  unfolding with_machine
  with_machine-IsUnderWay change t keeps u = record {
    machine = by_machine t.machine u.machine;
    workflows = u.workflows;
  }
    where
      by_machine :
          (m : Option ConflictMachine)
          → StandsIn applying_rules m
          → StandsIn applying_rules (lift_option change m)
      by_machine none h = tt
      by_machine (some m) h = (
        record {
          rules = ap (λ k. k.rules) (keeps m) ∙ h.0.rules;
          validator = ap (λ k. k.validator) (keeps m) ∙ h.0.validator;
        },
        ap (λ k. k.state) (keeps m) ∙ h.1,
      )

  update_only_one :
      (id : String) (change : ConflictWorkflow E → ConflictWorkflow E) (w : ConflictWorkflow E)
      → update_workflow id change ((id, w) ∷ []) ≡ (id, change w) ∷ []
  unfolding update_workflow
  update_only_one id change w = if_eq_true _ _ (eq_refl id)

  pub within-IsOnlyOne :
      (change : ConflictWorkflow E → ConflictWorkflow E) (workflow : Option String)
      (workflows : Option (Dict (ConflictWorkflow E)))
      → IsOnlyOne workflow workflows
      → IsOnlyOne workflow (within (λ id. update_workflow id change) workflow workflows)
  within-IsOnlyOne change none workflows only = only
  within-IsOnlyOne change (some id) none only = only
  within-IsOnlyOne change (some id) (some workflows) only =
      (change only.0, ap (update_workflow id change) only.1 ∙ update_only_one id change only.0)

  pub with_workflow-IsUnderWay :
      (change : ConflictWorkflow E → ConflictWorkflow E) (t : Tracking E)
      → IsUnderWay t
      → IsUnderWay (with_workflow change t)
  unfolding with_workflow
  with_workflow-IsUnderWay change t u = record {
    machine = u.machine;
    workflows = within-IsOnlyOne change t.workflow t.workflows u.workflows;
  }

  count-IsUnderWay : (name : String) (t : Tracking E) → IsUnderWay t → IsUnderWay (count name t)
  unfolding count
  count-IsUnderWay name t u = record { machine = u.machine; workflows = u.workflows }

module _ {E : Type 0} (env : Surroundings E) where
  track_evaluation-IsUnderWay :
      (at : RuleReadings) (name : String) (matched : Bool) (t : Tracking E)
      → IsUnderWay t
      → IsUnderWay (track_evaluation env at name matched t)
  unfolding track_evaluation
  track_evaluation-IsUnderWay at name matched t u =
      with_workflow-IsUnderWay _ _ (with_machine-IsUnderWay _ t (λ m. refl) u)

  track_result-IsUnderWay :
      (at : RuleReadings) (rule : Rule Conflict ResolvedConflict E) (t : Tracking E)
      (r : Result E ResolvedConflict)
      → IsUnderWay t
      → IsUnderWay (track_result env at rule t r).tracking
  unfolding track_result track_failure
  track_result-IsUnderWay at rule t (ok res) u = count-IsUnderWay "rules_matched" t u
  track_result-IsUnderWay at rule t (err e) u =
      with_workflow-IsUnderWay _ _ (with_machine-IsUnderWay _ t (λ m. refl) u)

  track_match-IsUnderWay :
      (at : RuleReadings) (c : Conflict) (rule : Rule Conflict ResolvedConflict E)
      (strategy : Option (Conflict → Result E ResolvedConflict)) (t : Tracking E)
      → IsUnderWay t
      → IsUnderWay (track_match env at c rule strategy t).tracking
  unfolding track_match
  track_match-IsUnderWay at c rule none t u = with_machine-IsUnderWay _ t (λ m. refl) u
  track_match-IsUnderWay at c rule (some resolve) t u =
      track_result-IsUnderWay at rule _ (resolve c) (with_machine-IsUnderWay _ t (λ m. refl) u)

  track_fallback-IsUnderWay :
      (c : Conflict) (fallback : Option (Conflict → Result E ResolvedConflict)) (t : Tracking E)
      → IsUnderWay t
      → IsUnderWay (track_fallback env c fallback t).tracking
  unfolding track_fallback
  track_fallback-IsUnderWay c none t u = u
  track_fallback-IsUnderWay c (some resolve) t u = by_result (resolve c)
    where
      by_result :
          (r : Result E ResolvedConflict) → IsUnderWay (track_fallback_result env t r).tracking
      by_result (ok res) = unfold track_fallback_result in count-IsUnderWay "fallback_used" t u
      by_result (err e) = unfold track_fallback_result in u

  -- The loop over the rules moves neither the machine nor the map of workflows.
  pub track_rules-IsUnderWay :
      (at : ℕ → RuleReadings) (c : Conflict) (i : ℕ)
      (rules : List (Rule Conflict ResolvedConflict E))
      (fallback : Option (Conflict → Result E ResolvedConflict)) (t : Tracking E)
      → IsUnderWay t
      → IsUnderWay (track_rules env at c i rules fallback t).tracking
  unfolding track_rules
  track_rules-IsUnderWay at c i [] fallback t u = track_fallback-IsUnderWay c fallback t u
  track_rules-IsUnderWay at c i (rule ∷ rest) fallback t u =
      let matched : Bool = rule_matches c rule.matcher in
      let seen = track_evaluation-IsUnderWay (at i) rule.name matched t u in
      if_both {A = Tracked E} (λ d. IsUnderWay d.tracking) matched
        (track_match-IsUnderWay (at i) c rule rule.strategy _ seen)
        (track_rules-IsUnderWay at c (i + 1) rest fallback _
          (count-IsUnderWay "rules_evaluated" _ seen))
