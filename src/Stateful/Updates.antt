-- ===== src/Stateful/Updates.antt =====
-- synckit/stateful_resolver.go: what `updatePerformanceMetrics` makes of the metrics.
use go_sync_kit.Base.{
  ℕ, ◌+◌, ◌%◌, ◌^◌, String, true, false, ◌≡◌, ◌≢◌, ◌⊎◌, inl, inr, refl, arith, if◌then◌else◌, ◌||◌,
  ◌==◌, str_eq, eq_iff, Bool-cases, subst,
}
use go_sync_kit.Base.Dict.{Dict}
use go_sync_kit.Types.{ResolvedConflict, Result, ok, err}
use go_sync_kit.Resolver.{ResolveError}
use go_sync_kit.Stateful.{StatefulError, ResolverMetrics, get_counter, add64}
use go_sync_kit.Stateful.Resolve.{update_metrics, outcome, less}
use go_sync_kit.Stateful.Outcomes.{lifted}

-- One where a resolution has the given decision.
abbrev pub one_if_decided : {E : Type 0} → String → Result E ResolvedConflict → ℕ
one_if_decided decision (ok res) = if str_eq res.decision decision then 1 else 0
one_if_decided decision (err e) = 0

-- One where a resolution is neither for review nor escalated.
abbrev pub one_if_automatic : {E : Type 0} → Result E ResolvedConflict → ℕ
one_if_automatic (ok res) =
    if str_eq res.decision "manual_review" || str_eq res.decision "escalated" then 0 else 1
one_if_automatic (err e) = 0

abbrev pub one_if_err : {E : Type 0} {A : Type 0} → Result E A → ℕ
one_if_err (ok res) = 0
one_if_err (err e) = 1

-- The counts agree as `int64`.
abbrev pub Same64 : ℕ → ℕ → Type 0
Same64 a b = a % 2 ^ 64 ≡ b % 2 ^ 64

-- What an update by a call of result `r` makes of the metrics; `fastest` and `slowest` are in the order
-- of `int64`.
pub record IsUpdate {E : Type 0} (took evaluated matched : ℕ) (r : Result E ResolvedConflict)
    (m after : ResolverMetrics) : Type 0 where
  pub total : after.total_conflicts_resolved ≡ add64 m.total_conflicts_resolved 1
  pub automatic : Same64 after.auto_resolved_count (m.auto_resolved_count + one_if_automatic r)
  pub reviews :
      Same64 after.manual_review_count (m.manual_review_count + one_if_decided "manual_review" r)
  pub escalations : Same64 after.escalated_count (m.escalated_count + one_if_decided "escalated" r)
  pub failed : Same64 after.failed_count (m.failed_count + one_if_err r)
  pub evaluations : after.rule_evaluation_count ≡ add64 m.rule_evaluation_count evaluated
  pub matches : after.rule_match_count ≡ add64 m.rule_match_count matched
  pub time : after.total_resolution_time ≡ add64 m.total_resolution_time took
  pub slowest :
      (less after.slowest_resolution_time took ≡ false)
      × (less after.slowest_resolution_time m.slowest_resolution_time ≡ false)
      × ((after.slowest_resolution_time ≡ took)
          ⊎ (after.slowest_resolution_time ≡ m.slowest_resolution_time))
  pub fastest :
      (less took after.fastest_resolution_time ≡ false)
      × ((after.fastest_resolution_time ≡ took)
          ⊎ ((after.fastest_resolution_time ≡ m.fastest_resolution_time)
              × (m.fastest_resolution_time ≢ 0)))
      × ((m.fastest_resolution_time ≡ 0)
          ⊎ (less m.fastest_resolution_time after.fastest_resolution_time ≡ false))

less_irreflexive : (a : ℕ) → less a a ≡ false
unfolding less
less_irreflexive a = ground arith

less_asym : (a b : ℕ) → less a b ≡ true → less b a ≡ false
unfolding less
less_asym a b h = ground arith

-- The greater of two, as `slowest` is updated.
slower :
    (old took : ℕ)
    → let new = if less old took then took else old in
      (less new took ≡ false) × (less new old ≡ false) × ((new ≡ took) ⊎ (new ≡ old))
slower old took = elim (Bool-cases (less old took)) [
  | inl longer ↦ rw longer (less_irreflexive took, less_asym old took longer, inl refl)
  | inr shorter ↦ rw shorter (shorter, less_irreflexive old, inr refl)
]

-- The less of two, where 0 stands for none, as `fastest` is updated.
faster :
    (old took : ℕ)
    → let new = if old == 0 || less took old then took else old in
      (less took new ≡ false)
      × ((new ≡ took) ⊎ ((new ≡ old) × (old ≢ 0)))
      × ((old ≡ 0) ⊎ (less old new ≡ false))
faster old took = elim (Bool-cases (old == 0)) [
  | inl none_yet ↦ rw none_yet (less_irreflexive took, inl refl, inl (ground (arith, none_yet)))
  | inr some_before ↦ elim (Bool-cases (less took old)) [
    | inl shorter ↦
        rw (some_before, shorter)
          (less_irreflexive took, inl refl, inr (less_asym took old shorter))
    | inr longer ↦
        rw (some_before, longer)
          (
            longer,
            inr (refl, λ h. absurd (ground (arith, some_before, h))),
            inr (less_irreflexive old),
          )
  ]
]

not_both : (d : String) → str_eq d "manual_review" ≡ true → str_eq d "escalated" ≡ false
not_both d h =
    ground
      (arith, eq_iff d "manual_review", eq_iff d "escalated", eq_iff "manual_review" "escalated", h)

pub update_metrics-IsUpdate :
    {E : Type 0} (took : ℕ) (counters : Dict ℕ) (r : Result (StatefulError E) ResolvedConflict)
    (m : ResolverMetrics)
    → IsUpdate took
        (get_counter "rules_evaluated" counters)
        (get_counter "rules_matched" counters)
        r
        m
        (update_metrics took counters (outcome r) m)
unfolding update_metrics
update_metrics-IsUpdate took counters (err e) m = record {
  total = refl;
  automatic = omega arith;
  reviews = omega arith;
  escalations = omega arith;
  failed = omega arith;
  evaluations = refl;
  matches = refl;
  time = refl;
  slowest = slower m.slowest_resolution_time took;
  fastest = faster m.fastest_resolution_time took;
}
update_metrics-IsUpdate took counters (ok res) m =
    elim (Bool-cases (str_eq res.decision "manual_review")) [
      | inl review ↦ rw review record {
        total = refl;
        automatic = ground (arith, review);
        reviews = ground (arith, review);
        escalations = ground (arith, not_both res.decision review);
        failed = omega arith;
        evaluations = refl;
        matches = refl;
        time = refl;
        slowest = slower m.slowest_resolution_time took;
        fastest = faster m.fastest_resolution_time took;
      }
      | inr plain ↦ elim (Bool-cases (str_eq res.decision "escalated")) [
        | inl up ↦
            rw (plain, up)
              record {
                total = refl;
                automatic = ground (arith, plain, up);
                reviews = ground (arith, plain);
                escalations = ground (arith, up);
                failed = omega arith;
                evaluations = refl;
                matches = refl;
                time = refl;
                slowest = slower m.slowest_resolution_time took;
                fastest = faster m.fastest_resolution_time took;
              }
        | inr other ↦
            rw (plain, other)
              record {
                total = refl;
                automatic = ground (arith, plain, other);
                reviews = ground (arith, plain);
                escalations = ground (arith, other);
                failed = omega arith;
                evaluations = refl;
                matches = refl;
                time = refl;
                slowest = slower m.slowest_resolution_time took;
                fastest = faster m.fastest_resolution_time took;
              }
      ]
    ]

pub IsUpdate-congruent :
    {E : Type 0} {took e e' k k' : ℕ} {r : Result (ResolveError E) ResolvedConflict}
    {r' : Result (StatefulError E) ResolvedConflict} {m after : ResolverMetrics}
    → Same64 e e'
    → Same64 k k'
    → r' ≡ lifted r
    → IsUpdate took e k r' m after
    → IsUpdate took e' k' r m after
unfolding lifted
IsUpdate-congruent {E} {took} {e} {e'} {k} {k'} {r} {r'} {m} {after} same_e same_k is u =
    by_result r (subst (λ x. IsUpdate took e k x m after) is u)
  where
    by_result :
        (r : Result (ResolveError E) ResolvedConflict)
        → IsUpdate took e k (lifted r) m after
        → IsUpdate took e' k' r m after
    by_result (ok res) u = record {
      total = u.total;
      automatic = u.automatic;
      reviews = u.reviews;
      escalations = u.escalations;
      failed = u.failed;
      evaluations = omega (arith, u.evaluations, same_e);
      matches = omega (arith, u.matches, same_k);
      time = u.time;
      slowest = u.slowest;
      fastest = u.fastest;
    }
    by_result (err x) u = record {
      total = u.total;
      automatic = u.automatic;
      reviews = u.reviews;
      escalations = u.escalations;
      failed = u.failed;
      evaluations = omega (arith, u.evaluations, same_e);
      matches = omega (arith, u.matches, same_k);
      time = u.time;
      slowest = u.slowest;
      fastest = u.fastest;
    }
