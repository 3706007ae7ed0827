-- ===== src/Workflow/Trail.antt =====
-- synckit/statemachine/conflict_workflow.go: what a workflow and its audit trail tell of the rules.
use go_sync_kit.Base.{
  ℕ, ◌+◌, String, Option, none, some, List, [], ◌∷◌, ◌++◌, Bool, true, false, ◌≡◌, refl, sym, ap,
  arith, ◌∙◌, length, length-append, append-nil, if◌then◌else◌,
}
use go_sync_kit.Base.Int.{ℤ}
use go_sync_kit.Machine.{StateTransition}
use go_sync_kit.Types.{Conflict, ResolvedConflict, Value, Version}
use go_sync_kit.Base.Dict.{Dict}
use go_sync_kit.ConflictMachine.{ConflictResolutionState}
use go_sync_kit.Workflow.{
  ConflictWorkflow, RuleEvaluation, RuleFailure, Timing, new_conflict_workflow, start_analysis,
  record_match, record_failure, record_evaluation, record_rule_evaluation, record_state_transition,
  complete_resolution,
}
use go_sync_kit.Workflow.Active.{AuditTrail, generate_audit_trail}

-- The methods that change a workflow.
pub data Change (E : Type 0) : Type 0 where
  analyse : (Version → Version → ℤ) → ℕ → Change E
  evaluate : (E → Bool) → String → Bool → Timing → Option E → Dict Value → Change E
  move : StateTransition ConflictResolutionState → Change E
  complete : ℕ → ℕ → ResolvedConflict → Change E

module _ {E : Type 0} where
  -- The names of the rules that an evaluation says matched.
  unfoldable pub matched_names : List (RuleEvaluation E) → List String
  matched_names [] = []
  matched_names (r ∷ rest) =
      let later = matched_names rest in if r.matched then r.rule_name ∷ later else later

  abbrev pub cons_error : String → Option E → List (String × E) → List (String × E)
  cons_error rule none later = later
  cons_error rule (some e) later = (rule, e) ∷ later

  -- The rules whose evaluation has an error, each with the error.
  unfoldable pub errors_of : List (RuleEvaluation E) → List (String × E)
  errors_of [] = []
  errors_of (r ∷ rest) = cons_error r.rule_name r.error (errors_of rest)

  unfoldable pub recorded_errors : List (RuleFailure E) → List (String × E)
  recorded_errors [] = []
  recorded_errors (f ∷ rest) = (f.rule_name, f.error) ∷ recorded_errors rest

  -- The lists of matched and of failed rules are those of the evaluations, in their order, and the
  -- counters are the lengths of the lists.
  pub record IsFaithful (w : ConflictWorkflow E) : Type 0 where
    pub matches : w.rules_matched ≡ matched_names w.rules_evaluated
    pub errors : recorded_errors w.rules_failed ≡ errors_of w.rules_evaluated
    pub evaluated_count : w.metrics.rules_evaluated ≡ length w.rules_evaluated
    pub matched_count : w.metrics.rules_matched ≡ length w.rules_matched
    pub failed_count : w.metrics.rules_failed ≡ length w.rules_failed

  matched_names-append :
      (a b : List (RuleEvaluation E)) → matched_names (a ++ b) ≡ matched_names a ++ matched_names b
  unfolding matched_names
  matched_names-append [] b = refl
  matched_names-append (r ∷ a) b = ground (arith, matched_names-append a b)

  cons_error-append :
      (rule : String) (e : Option E) (a b : List (String × E))
      → cons_error rule e (a ++ b) ≡ cons_error rule e a ++ b
  cons_error-append rule none a b = refl
  cons_error-append rule (some e) a b = refl

  errors_of-append :
      (a b : List (RuleEvaluation E)) → errors_of (a ++ b) ≡ errors_of a ++ errors_of b
  unfolding errors_of
  errors_of-append [] b = refl
  errors_of-append (r ∷ a) b =
      ap (cons_error r.rule_name r.error) (errors_of-append a b)
      ∙ cons_error-append r.rule_name r.error (errors_of a) (errors_of b)

  recorded_errors-append :
      (a b : List (RuleFailure E))
      → recorded_errors (a ++ b) ≡ recorded_errors a ++ recorded_errors b
  unfolding recorded_errors
  recorded_errors-append [] b = refl
  recorded_errors-append (f ∷ a) b =
      ap (λ l. (f.rule_name, f.error) ∷ l) (recorded_errors-append a b)

  matched_names-last :
      (es : List (RuleEvaluation E)) (r : RuleEvaluation E)
      → matched_names (es ++ r ∷ [])
        ≡ (if r.matched then matched_names es ++ r.rule_name ∷ [] else matched_names es)
  matched_names-last es r =
      matched_names-append es (r ∷ [])
      ∙ unfold matched_names in ground (arith, append-nil (matched_names es))

  errors_of-last :
      (es : List (RuleEvaluation E)) (r : RuleEvaluation E)
      → errors_of (es ++ r ∷ []) ≡ errors_of es ++ cons_error r.rule_name r.error []
  errors_of-last es r = errors_of-append es (r ∷ []) ∙ unfold errors_of in refl

  recorded_errors-last :
      (fs : List (RuleFailure E)) (f : RuleFailure E)
      → recorded_errors (fs ++ f ∷ []) ≡ recorded_errors fs ++ (f.rule_name, f.error) ∷ []
  recorded_errors-last fs f = recorded_errors-append fs (f ∷ []) ∙ unfold recorded_errors in refl

  -- Each step of `RecordRuleEvaluation`, where the lists that it leaves alone are those of `w`.
  record_match_lem :
      (rule : String) (matched : Bool) (w : ConflictWorkflow E)
      → (record_match rule matched w ≡ record w {
        rules_matched = if matched then w.rules_matched ++ rule ∷ [] else w.rules_matched;
        metrics = record w.metrics {
          rules_matched = if matched then w.metrics.rules_matched + 1 else w.metrics.rules_matched;
        };
      })
  unfolding record_match
  record_match_lem rule true w = refl
  record_match_lem rule false w = refl

  record_rule_evaluation-IsFaithful :
      (is_context_error : E → Bool) (rule : String) (matched : Bool) (times : Timing) (e : Option E)
      (metadata : Dict Value) (w : ConflictWorkflow E)
      → IsFaithful w
      → IsFaithful (record_rule_evaluation is_context_error rule matched times e metadata w)
  unfolding record_rule_evaluation record_failure record_evaluation
  record_rule_evaluation-IsFaithful is_context_error rule matched times none metadata w f =
      rw (record_match_lem rule matched (record_evaluation rule matched times none metadata w))
        (record {
          matches = ground (arith, f.matches, matched_names-last w.rules_evaluated last);
          errors = f.errors ∙ sym (errors_of-last w.rules_evaluated last ∙ append-nil _);
          evaluated_count =
              omega (arith, f.evaluated_count, length-append w.rules_evaluated (last ∷ []));
          matched_count =
              ground (arith, f.matched_count, length-append w.rules_matched (rule ∷ []));
          failed_count = f.failed_count;
        })
    where
      last : RuleEvaluation E
      last = record {
        rule_name = rule;
        matched = matched;
        evaluated_at = times.evaluated_at;
        duration = times.duration;
        error = none;
        metadata = metadata;
      }
  record_rule_evaluation-IsFaithful is_context_error rule matched times (some e) metadata w f =
      rw (record_match_lem rule matched (record_evaluation rule matched times (some e) metadata w))
        (record {
          matches = ground (arith, f.matches, matched_names-last w.rules_evaluated last);
          errors =
              recorded_errors-last w.rules_failed _
              ∙ ap (λ l. l ++ (rule, e) ∷ []) f.errors
              ∙ sym (errors_of-last w.rules_evaluated last);
          evaluated_count =
              omega (arith, f.evaluated_count, length-append w.rules_evaluated (last ∷ []));
          matched_count =
              ground (arith, f.matched_count, length-append w.rules_matched (rule ∷ []));
          failed_count = omega (arith, f.failed_count, length-append w.rules_failed (_ ∷ []));
        })
    where
      last : RuleEvaluation E
      last = record {
        rule_name = rule;
        matched = matched;
        evaluated_at = times.evaluated_at;
        duration = times.duration;
        error = some e;
        metadata = metadata;
      }

  unfoldable pub change : Change E → ConflictWorkflow E → ConflictWorkflow E
  change (analyse compare now) w = start_analysis compare now w
  change (evaluate is_context_error rule matched times e metadata) w =
      record_rule_evaluation is_context_error rule matched times e metadata w
  change (move t) w = record_state_transition t w
  change (complete now later r) w = complete_resolution now later r w

  unfoldable pub change_all : List (Change E) → ConflictWorkflow E → ConflictWorkflow E
  change_all [] w = w
  change_all (c ∷ rest) w = change_all rest (change c w)

  pub change-IsFaithful :
      (c : Change E) (w : ConflictWorkflow E) → IsFaithful w → IsFaithful (change c w)
  unfolding change start_analysis record_state_transition complete_resolution
  change-IsFaithful (analyse compare now) w f = record {
    matches = f.matches;
    errors = f.errors;
    evaluated_count = f.evaluated_count;
    matched_count = f.matched_count;
    failed_count = f.failed_count;
  }
  change-IsFaithful (evaluate is_context_error rule matched times e metadata) w f =
      record_rule_evaluation-IsFaithful is_context_error rule matched times e metadata w f
  change-IsFaithful (move t) w f = record {
    matches = f.matches;
    errors = f.errors;
    evaluated_count = f.evaluated_count;
    matched_count = f.matched_count;
    failed_count = f.failed_count;
  }
  change-IsFaithful (complete now later r) w f = record {
    matches = f.matches;
    errors = f.errors;
    evaluated_count = f.evaluated_count;
    matched_count = f.matched_count;
    failed_count = f.failed_count;
  }

  change_all-IsFaithful :
      (changes : List (Change E)) (w : ConflictWorkflow E)
      → IsFaithful w
      → IsFaithful (change_all changes w)
  unfolding change_all
  change_all-IsFaithful [] w f = f
  change_all-IsFaithful (c ∷ rest) w f =
      change_all-IsFaithful rest (change c w) (change-IsFaithful c w f)

  abbrev pub Tells : AuditTrail E → Type 0
  Tells t =
      (t.rules_matched ≡ matched_names t.rules_evaluated)
      × (recorded_errors t.rules_failed ≡ errors_of t.rules_evaluated)
      × (t.metrics.rules_evaluated ≡ length t.rules_evaluated)
      × (t.metrics.rules_matched ≡ length t.rules_matched)
      × (t.metrics.rules_failed ≡ length t.rules_failed)

  -- Whatever methods are called on a new workflow, its audit trail lists as matched the rules whose
  -- recorded evaluation matched, and as failed those whose evaluation has an error, with that error,
  -- each in the order of the evaluations; its three counters are the lengths of the lists.
  pub audit_trail-Tells :
      (text_of : ℕ → String) (id_time now : ℕ) (c : Conflict) (changes : List (Change E))
      → Tells
          (generate_audit_trail (change_all changes (new_conflict_workflow text_of id_time now c)))
  unfolding generate_audit_trail
  audit_trail-Tells text_of id_time now c changes =
      let f = change_all-IsFaithful changes (new_conflict_workflow text_of id_time now c) (
        unfold new_conflict_workflow matched_names errors_of recorded_errors in
        record {
          matches = refl;
          errors = refl;
          evaluated_count = refl;
          matched_count = refl;
          failed_count = refl;
        }) in
      (f.matches, f.errors, f.evaluated_count, f.matched_count, f.failed_count)
