-- ===== src/Stateful/Counting.antt =====
-- synckit/stateful_resolver.go: what the loop over the rules counts.
use go_sync_kit.Base.{
  ℕ, ◌+◌, ◌%◌, ◌^◌, String, Option, none, some, List, [], ◌∷◌, ◌≡◌, ap, arith, if◌then◌else◌,
  Bool-cases, inl, inr, eq_iff, str_eq,
}
use go_sync_kit.Base.Dict.{Dict, lookup, lookup-insert}
use go_sync_kit.Types.{Conflict, ResolvedConflict, Result, ok, err}
use go_sync_kit.Resolver.{Rule, rule_matches}
use go_sync_kit.Stateful.{
  Surroundings, RuleReadings, Tracking, get_counter, add64, increment, or_zero, count, lift_option,
  track_evaluation, track_failure, with_machine, with_workflow,
}
use go_sync_kit.Stateful.Calls.{
  track_result, track_match, track_fallback_result, track_fallback, track_rules,
}
use go_sync_kit.Stateful.Resolve.{resolve}

abbrev pub one_if_ok : {E : Type 0} → Result E ResolvedConflict → ℕ
one_if_ok (ok res) = 1
one_if_ok (err e) = 0

module _ {E : Type 0} (c : Conflict) where
  -- How many rules stand before the first that matches.
  unfoldable pub misses : List (Rule Conflict ResolvedConflict E) → ℕ
  misses [] = 0
  misses (rule ∷ rest) =
      let later = misses rest in if rule_matches c rule.matcher then 0 else later + 1

  abbrev pub success : Option (Conflict → Result E ResolvedConflict) → ℕ
  success none = 0
  success (some resolve) = one_if_ok (resolve c)

  -- One if the first rule that matches succeeds.
  unfoldable pub hits : List (Rule Conflict ResolvedConflict E) → ℕ
  hits [] = 0
  hits (rule ∷ rest) =
      let later = hits rest in if rule_matches c rule.matcher then success rule.strategy else later

get_counter-increment :
    (name other : String) (counters : Dict ℕ)
    → get_counter other (increment name counters) ≡ (
        if str_eq name other
        then add64 (get_counter other counters) 1
        else get_counter other counters)
unfolding get_counter increment
get_counter-increment name other counters = ground (
  arith,
  lookup-insert name other (add64 (or_zero (lookup name counters)) 1) counters,
  eq_iff name other,
)

-- The two counters that the metrics read, with what is added to them, in 64 bits.
abbrev pub Counted : Option (Dict ℕ) → Dict ℕ → ℕ → ℕ → Type 0
Counted tracker before evaluated matched =
    (after : Dict ℕ) × (tracker ≡ some after)
    × (get_counter "rules_evaluated" after % 2 ^ 64
        ≡ add64 (get_counter "rules_evaluated" before) evaluated)
    × (get_counter "rules_matched" after % 2 ^ 64
        ≡ add64 (get_counter "rules_matched" before) matched)

module _ {E : Type 0} (env : Surroundings E) where
  track_result-Counted :
      (at : RuleReadings) (rule : Rule Conflict ResolvedConflict E) (t : Tracking E) (d : Dict ℕ)
      (r : Result E ResolvedConflict)
      → t.tracker ≡ some d
      → Counted (track_result env at rule t r).tracking.tracker d 0 (one_if_ok r)
  unfolding track_result track_failure count with_machine with_workflow
  track_result-Counted at rule t d (ok res) has = (
    _,
    ap (lift_option (increment "rules_matched")) has,
    ground (
      arith,
      get_counter-increment "rules_matched" "rules_evaluated" d,
      eq_iff "rules_matched" "rules_evaluated",
    ),
    ground (
      arith,
      get_counter-increment "rules_matched" "rules_matched" d,
      eq_iff "rules_matched" "rules_matched",
    ),
  )
  track_result-Counted at rule t d (err e) has = (d, has, omega arith, omega arith)

  track_match-Counted :
      (at : RuleReadings) (c : Conflict) (rule : Rule Conflict ResolvedConflict E)
      (strategy : Option (Conflict → Result E ResolvedConflict)) (t : Tracking E) (d : Dict ℕ)
      → t.tracker ≡ some d
      → Counted (track_match env at c rule strategy t).tracking.tracker d 0 (success c strategy)
  unfolding track_match with_machine
  track_match-Counted at c rule none t d has = (d, has, omega arith, omega arith)
  track_match-Counted at c rule (some resolve) t d has =
      track_result-Counted at rule _ d (resolve c) has

  track_fallback-Counted :
      (c : Conflict) (fallback : Option (Conflict → Result E ResolvedConflict)) (t : Tracking E)
      (d : Dict ℕ)
      → t.tracker ≡ some d
      → Counted (track_fallback env c fallback t).tracking.tracker d 0 0
  unfolding track_fallback count
  track_fallback-Counted c none t d has = (d, has, omega arith, omega arith)
  track_fallback-Counted c (some resolve) t d has = by_result (resolve c)
    where
      by_result :
          (r : Result E ResolvedConflict)
          → Counted (track_fallback_result env t r).tracking.tracker d 0 0
      by_result (ok res) =
          unfold track_fallback_result in
          (
            _,
            ap (lift_option (increment "fallback_used")) has,
            ground (
              arith,
              get_counter-increment "fallback_used" "rules_evaluated" d,
              eq_iff "fallback_used" "rules_evaluated",
            ),
            ground (
              arith,
              get_counter-increment "fallback_used" "rules_matched" d,
              eq_iff "fallback_used" "rules_matched",
            ),
          )
      by_result (err e) = unfold track_fallback_result in (d, has, omega arith, omega arith)

  Counted-later :
      (tracker : Option (Dict ℕ)) (d : Dict ℕ) (evaluated matched : ℕ)
      → Counted tracker (increment "rules_evaluated" d) evaluated matched
      → Counted tracker d (evaluated + 1) matched
  Counted-later tracker d evaluated matched (after, is, e, m) = (
    after,
    is,
    ground (
      arith,
      e,
      get_counter-increment "rules_evaluated" "rules_evaluated" d,
      eq_iff "rules_evaluated" "rules_evaluated",
    ),
    ground (
      arith,
      m,
      get_counter-increment "rules_evaluated" "rules_matched" d,
      eq_iff "rules_evaluated" "rules_matched",
    ),
  )

  pub track_rules-Counted :
      (at : ℕ → RuleReadings) (c : Conflict) (i : ℕ)
      (rules : List (Rule Conflict ResolvedConflict E))
      (fallback : Option (Conflict → Result E ResolvedConflict)) (t : Tracking E) (d : Dict ℕ)
      → t.tracker ≡ some d
      → Counted
          (track_rules env at c i rules fallback t).tracking.tracker
          d
          (misses c rules)
          (hits c rules)
  unfolding track_rules track_evaluation with_machine with_workflow misses hits
  track_rules-Counted at c i [] fallback t d has = track_fallback-Counted c fallback t d has
  track_rules-Counted at c i (rule ∷ rest) fallback t d has =
      elim (Bool-cases (rule_matches c rule.matcher)) [
        | inl matches ↦ rw matches (track_match-Counted (at i) c rule rule.strategy _ d has)
        | inr fails ↦ rw fails (
            Counted-later _ d _ _ (
              track_rules-Counted at c (i + 1) rest fallback _ (increment "rules_evaluated" d)
                (unfold count in ap (lift_option (increment "rules_evaluated")) has)))
      ]
