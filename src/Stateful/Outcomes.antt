-- ===== src/Stateful/Outcomes.antt =====
-- synckit/stateful_resolver.go: what the loop over the rules returns, beside what the base resolver
-- returns.
use go_sync_kit.Base.{ℕ, ◌+◌, Option, none, some, List, [], ◌∷◌, ◌≡◌, refl, Bool-cases, inl, inr}
use go_sync_kit.Types.{Conflict, ResolvedConflict, Result, ok, err}
use go_sync_kit.Resolver.{
  Rule, DynamicResolver, ResolveError, HookCall, nil_dereference, strategy_failed, no_fallback,
  rule_matches, dispatch, apply_rule, fall_back, report,
}
use go_sync_kit.Resolver as Resolver
use go_sync_kit.Stateful.Resolve.{resolve}
use go_sync_kit.ConflictMachine.{
  start_resolution, ConflictMachine, Stamp, idle, analyzing, applying_rules, go_to,
  ConflictResolutionState, ConflictResolutionState-discrete,
}
use go_sync_kit.Stateful.{
  Readings, StatefulResolver, StatefulError, refused, unresolved, Surroundings, RuleReadings,
  Tracking, with_workflow,
}
use go_sync_kit.Stateful.Calls.{
  Tracked, track_result, track_match, track_fallback_result, track_fallback, track_rules,
}

module _ {E : Type 0} where
  -- The base resolver's hook calls and result, in the stateful resolver's terms.
  unfoldable pub lifted :
      Result (ResolveError E) ResolvedConflict → Result (StatefulError E) ResolvedConflict
  lifted (ok res) = ok res
  lifted (err e) = err (unresolved e)

  abbrev pub Agrees :
      Tracked E
      → List (HookCall Conflict ResolvedConflict E) × Result (ResolveError E) ResolvedConflict
      → Type 0
  Agrees d r = (d.calls ≡ r.0) × (d.result ≡ lifted r.1)

module _ {E : Type 0} (env : Surroundings E) where
  track_match-Agrees :
      (at : RuleReadings) (c : Conflict) (rule : Rule Conflict ResolvedConflict E)
      (strategy : Option (Conflict → Result E ResolvedConflict)) (t : Tracking E)
      → Agrees (track_match env at c rule strategy t) (apply_rule c rule strategy)
  unfolding track_match apply_rule lifted
  track_match-Agrees at c rule none t = (refl, refl)
  track_match-Agrees at c rule (some resolve) t = by_result (resolve c)
    where
      by_result :
          (r : Result E ResolvedConflict)
          → Agrees
              (track_result env at rule
                (go_sync_kit.Stateful.with_machine
                  (go_sync_kit.ConflictMachine.record_rule_matched rule.name)
                  t)
                r)
              (report (go_sync_kit.Resolver.on_rule_matched rule ∷ []) r)
      by_result (ok res) = unfold track_result report in (refl, refl)
      by_result (err e) = unfold track_result report in (refl, refl)

  track_fallback-Agrees :
      (c : Conflict) (fallback : Option (Conflict → Result E ResolvedConflict)) (t : Tracking E)
      → Agrees (track_fallback env c fallback t) (fall_back c fallback)
  unfolding track_fallback fall_back lifted
  track_fallback-Agrees c none t = (refl, refl)
  track_fallback-Agrees c (some resolve) t = by_result (resolve c)
    where
      by_result :
          (r : Result E ResolvedConflict)
          → Agrees
              (track_fallback_result env t r)
              (report (go_sync_kit.Resolver.on_fallback ∷ []) r)
      by_result (ok res) = unfold track_fallback_result report in (refl, refl)
      by_result (err e) = unfold track_fallback_result report in (refl, refl)

  pub track_rules-Agrees :
      (at : ℕ → RuleReadings) (c : Conflict) (i : ℕ)
      (rules : List (Rule Conflict ResolvedConflict E))
      (fallback : Option (Conflict → Result E ResolvedConflict)) (t : Tracking E)
      → Agrees (track_rules env at c i rules fallback t) (dispatch c rules fallback)
  unfolding track_rules dispatch
  track_rules-Agrees at c i [] fallback t = track_fallback-Agrees c fallback t
  track_rules-Agrees at c i (rule ∷ rest) fallback t =
      elim (Bool-cases (rule_matches c rule.matcher)) [
        | inl matches ↦ rw matches (track_match-Agrees (at i) c rule rule.strategy _)
        | inr misses ↦ rw misses (track_rules-Agrees at c (i + 1) rest fallback _)
      ]
