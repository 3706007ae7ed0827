-- ===== src/Stateful/Metrics.antt =====
-- synckit/stateful_resolver.go: what one call of `Resolve` adds to the metrics.
use go_sync_kit.Base.{ℕ, some, [], true, ◌≡◌, ◌≢◌, refl, ap, arith, ◌∙◌, if_eq_true}
use go_sync_kit.Base.Dict.{Dict, lookup}
use go_sync_kit.Types.{Conflict, ResolvedConflict, Result, err}
use go_sync_kit.Resolver.{Rule, ResolveError, nil_dereference, rule_matches}
use go_sync_kit.Resolver as Resolver
use go_sync_kit.Stateful.{
  StatefulResolver, Surroundings, Readings, ResolverMetrics, get_counter, lift_option,
}
use go_sync_kit.Stateful.Calls.{Tracked, track_rules}
use go_sync_kit.Stateful.Resolve.{
  resolve, conclude, update_metrics, metrics_after, opening, outcome,
}
use go_sync_kit.Stateful.Outcomes.{lifted}
use go_sync_kit.Stateful.Agreement.{IsReady, resolve-Begins, conclude-IsAnswer}
use go_sync_kit.Stateful.Counting.{misses, hits, Counted, track_rules-Counted}
use go_sync_kit.Stateful.Updates.{IsUpdate, update_metrics-IsUpdate, IsUpdate-congruent}

module _ {E : Type 0} (env : Surroundings E) where
  conclude_metrics :
      (at : Readings) (s : StatefulResolver E) (d : Tracked E) (m : ResolverMetrics)
      (before : Dict ℕ) (evaluated matched : ℕ) (r : Result (ResolveError E) ResolvedConflict)
      → s.metrics ≡ some m
      → get_counter "rules_evaluated" before ≡ 0
      → get_counter "rules_matched" before ≡ 0
      → Counted d.tracking.tracker before evaluated matched
      → d.result ≡ lifted r
      → (after : ResolverMetrics) × ((conclude at s d).resolver.metrics ≡ some after)
        × IsUpdate at.total_duration evaluated matched r m after
  unfolding conclude
  conclude_metrics at s d m before evaluated matched r has no_evaluations no_matches
        (counters, is, e, k) same =
      (
        update_metrics at.total_duration counters (outcome d.result) m,
        ap (λ t. metrics_after at.total_duration t (outcome d.result) s.metrics) is
            ∙ ap (lift_option (update_metrics at.total_duration counters (outcome d.result))) has,
        IsUpdate-congruent (omega (arith, e, no_evaluations)) (omega (arith, k, no_matches)) same
            (update_metrics-IsUpdate at.total_duration counters d.result m),
      )

  -- A call of `Resolve` of a resolver that is ready and collects metrics, for a conflict on which the
  -- base resolver does not panic, adds to its metrics in 64 bits: one to the total; one to the count for
  -- what the base resolver returns, an error, a manual review, an escalation or anything else, and
  -- nothing to the three others; to the evaluated rules the number of those before the first that
  -- matches; to the matched ones one exactly when that rule's strategy succeeds; and to the total time
  -- its own. The slowest time becomes the greater of the old one and its own, and the fastest the less,
  -- where 0 stands for none.
  pub resolve-IsUpdate :
      (at : Readings) (c : Conflict) (s : StatefulResolver E) (m : ResolverMetrics)
      → IsReady s
      → (Resolver.resolve s.base c).1 ≢ err nil_dereference
      → s.metrics ≡ some m
      → s.options.enable_performance_metrics ≡ true
      → (after : ResolverMetrics) × ((resolve env at c s).resolver.metrics ≡ some after)
        × IsUpdate at.total_duration
            (misses c s.base.rules)
            (hits c s.base.rules)
            (Resolver.resolve s.base c).1
            m
            after
  unfolding conclude
  resolve-IsUpdate at c s m ready safe has enabled =
      let begins = resolve-Begins env at c s ready safe in
      let t = begins.tracking in
      let started : t.tracker ≡ some [] =
        begins.tracker ∙ unfold opening in if_eq_true _ _ enabled in
      let d : Tracked E = track_rules env at.of_rule c 0 s.base.rules s.base.fallback t in
      let answer = conclude-IsAnswer env at c s t begins.under_way in
      let (after, is, update) =
        conclude_metrics at s d m [] (misses c s.base.rules) (hits c s.base.rules)
          (Resolver.resolve s.base c).1 has (unfold get_counter lookup in refl)
          (unfold get_counter lookup in refl)
          (track_rules-Counted env at.of_rule c 0 s.base.rules s.base.fallback t [] started)
          answer.result in
      (after, ap (λ a. a.resolver.metrics) begins.same ∙ is, update)
