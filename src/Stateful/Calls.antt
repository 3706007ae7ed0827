-- ===== src/Stateful/Calls.antt =====
-- synckit/stateful_resolver.go: `Resolve`.
use Prim.Native.String.{◌++◌ as str_append}
use go_sync_kit.Base.{ℕ, ◌+◌, String, Option, none, some, List, [], ◌∷◌, if◌then◌else◌}
use go_sync_kit.Types.{Conflict, ResolvedConflict, Result, ok, err}
use go_sync_kit.Resolver.{
  Rule, DynamicResolver, strategy_failed, no_fallback, nil_dereference, HookCall, on_rule_matched,
  on_resolved, on_fallback, on_error, rule_matches,
}
use go_sync_kit.Machine.{TransitionError}
use go_sync_kit.ConflictMachine.{ConflictMachine, begin_rule_application, record_rule_matched}
use go_sync_kit.Stateful.{
  StatefulError, refused, unresolved, Surroundings, Readings, RuleReadings, Tracking, with_machine,
  count, track_evaluation, track_failure,
}

-- The local state, the calls of the base resolver's hooks, last first, and the result.
pub record Tracked (E : Type 0) : Type 0 where
  pub tracking : Tracking E
  pub calls : List (HookCall Conflict ResolvedConflict E)
  pub result : Result (StatefulError E) ResolvedConflict

-- `generateConflictID` of this file.
abbrev pub generate_conflict_id : (ℕ → String) → ℕ → Conflict → String
generate_conflict_id format_time now c =
    str_append c.event_type
      (str_append ":" (str_append c.aggregate_id (str_append ":" (format_time now))))

module _ {E : Type 0} (env : Surroundings E) where
  unfoldable pub track_result :
      RuleReadings
      → Rule Conflict ResolvedConflict E
      → Tracking E
      → Result E ResolvedConflict
      → Tracked E
  unfolding track_failure count
  track_result at rule t (ok res) = record {
    tracking = count "rules_matched" t;
    calls = on_resolved res ∷ on_rule_matched rule ∷ [];
    result = ok res;
  }
  track_result at rule t (err e) = record {
    tracking = track_failure env at rule.name e t;
    calls = on_error (strategy_failed e) ∷ on_rule_matched rule ∷ [];
    result = err (unresolved (strategy_failed e));
  }

  unfoldable pub track_match :
      RuleReadings
      → Conflict
      → Rule Conflict ResolvedConflict E
      → Option (Conflict → Result E ResolvedConflict)
      → Tracking E
      → Tracked E
  unfolding track_result with_machine
  track_match at c rule none t = record {
    tracking = with_machine (record_rule_matched rule.name) t;
    calls = on_rule_matched rule ∷ [];
    result = err (unresolved nil_dereference);
  }
  track_match at c rule (some resolve) t =
      track_result at rule (with_machine (record_rule_matched rule.name) t) (resolve c)

  unfoldable pub track_fallback_result : Tracking E → Result E ResolvedConflict → Tracked E
  unfolding count
  track_fallback_result t (ok res) = record {
    tracking = count "fallback_used" t;
    calls = on_resolved res ∷ on_fallback ∷ [];
    result = ok res;
  }
  track_fallback_result t (err e) = record {
    tracking = t;
    calls = on_error (strategy_failed e) ∷ on_fallback ∷ [];
    result = err (unresolved (strategy_failed e));
  }

  unfoldable pub track_fallback :
      Conflict → Option (Conflict → Result E ResolvedConflict) → Tracking E → Tracked E
  unfolding track_fallback_result
  track_fallback c none t = record {
    tracking = t;
    calls = on_error no_fallback ∷ [];
    result = err (unresolved no_fallback);
  }
  track_fallback c (some resolve) t = track_fallback_result t (resolve c)

  -- The loop over the rules, from an index on.
  unfoldable pub track_rules :
      (ℕ → RuleReadings)
      → Conflict
      → ℕ
      → List (Rule Conflict ResolvedConflict E)
      → Option (Conflict → Result E ResolvedConflict)
      → Tracking E
      → Tracked E
  unfolding track_match track_fallback track_evaluation count
  track_rules at c i [] fallback t = track_fallback c fallback t
  track_rules at c i (rule ∷ rest) fallback t =
      let matched = rule_matches c rule.matcher in
      let seen = track_evaluation env (at i) rule.name matched t in
      let later = track_rules at c (i + 1) rest fallback (count "rules_evaluated" seen) in
      if matched then track_match (at i) c rule rule.strategy seen else later

  unfoldable pub after_begin : Tracking E → Option TransitionError → Tracked E → Tracked E
  after_begin t none later = later
  after_begin t (some e) later = record { tracking = t; calls = []; result = err (refused e) }

  unfoldable pub begin_from :
      Readings
      → Conflict
      → DynamicResolver Conflict ResolvedConflict E
      → Tracking E
      → Option ConflictMachine
      → Tracked E
  unfolding track_rules after_begin
  begin_from at c base t none = track_rules at.of_rule c 0 base.rules base.fallback t
  begin_from at c base t (some m) =
      let (moved, e) = begin_rule_application at.begin m in
      let begun = record t { machine = some moved } in
      after_begin begun e (track_rules at.of_rule c 0 base.rules base.fallback begun)

  -- `resolveWithTracking`.
  unfoldable pub resolve_with_tracking :
      Readings → Conflict → DynamicResolver Conflict ResolvedConflict E → Tracking E → Tracked E
  unfolding begin_from
  resolve_with_tracking at c base t = begin_from at c base t t.machine
