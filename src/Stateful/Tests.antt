-- ===== src/Stateful/Tests.antt =====
-- synckit/stateful_resolver.go: a resolver with one rule and a fallback, and one that is at work.
use go_sync_kit.Base.{Option, none, some, List, [], ◌∷◌, Bool, true, false, ◌≡◌, ◌≢◌, refl, arith}
use go_sync_kit.Base.Int.{pos}
use go_sync_kit.Types.{
  Conflict, ResolvedConflict, integer, EventWithVersion, absent, Result, ok, err,
}
use go_sync_kit.Machine.{invalid_transition}
use go_sync_kit.Resolver.{Rule, DynamicResolver, new_dynamic_resolver, check_rules, nil_dereference}
use go_sync_kit.Resolver as Resolver
use go_sync_kit.Resolver.Dispatch.{new_dynamic_resolver_safe}
use go_sync_kit.ConflictMachine.{
  ConflictMachine, Stamp, analyzing, idle, around, filled_config, new_conflict_machine,
  ConflictResolutionState,
}
use go_sync_kit.Stateful.{
  StatefulResolver, Surroundings, Readings, ResolverMetrics, default_options, no_metrics, build,
  new_stateful_resolver, refused,
}
use go_sync_kit.Stateful.Resolve.{resolve}
use go_sync_kit.Stateful.Agreement.{IsAnswer, resolve-IsAnswer}
use go_sync_kit.Stateful.Busy.{Leftover, resolve_busy}
use go_sync_kit.Stateful.Counting.{misses, hits}
use go_sync_kit.Stateful.Metrics.{resolve-IsUpdate}
use go_sync_kit.Stateful.Updates.{IsUpdate}
use go_sync_kit.Stateful.Sequences.{
  Request, to_resolve, to_configure, new_from_options, serve_all, base_replies,
  stateful_refines_base, build-IsReady,
}

abbrev env : Surroundings Bool
env = record {
  text_of = λ n. "1";
  format_time = λ n. "2";
  compare = λ a b. pos 0;
  is_context_error = λ e. e;
}

abbrev stamp : Stamp
stamp = record { now = 5; id = 1 }

abbrev readings : Readings
readings = record {
  workflow_id_time = 1;
  workflow_start = 2;
  machine_id_time = 3;
  start = stamp;
  analysis = 6;
  begin = stamp;
  of_rule = λ n. record { duration = 1; recorded_at = 7; recorded_again_at = 8; failed_at = 9 };
  finish = stamp;
  workflow_end = 10;
  workflow_after_end = 11;
  total_duration = 12;
  at_reset = stamp;
}

abbrev event : EventWithVersion
event = record {
  event = record {
    id = "e";
    kind = "order";
    aggregate_id = "a";
    payload = absent;
    metadata = none;
  };
  version = integer 1;
}

abbrev conflict : Conflict
conflict = record {
  event_type = "order";
  aggregate_id = "a";
  changed_fields = [];
  metadata = none;
  local = event;
  remote = event;
}

abbrev resolution : ResolvedConflict
resolution = record { resolved_events = event ∷ []; decision = "manual_review"; reasons = [] }

-- A rule that never matches, and one whose strategy fails.
abbrev rules : List (Rule Conflict ResolvedConflict Bool)
rules =
    record { name = "never"; matcher = some (λ c. false); strategy = some (λ c. err true) }
    ∷ record { name = "fails"; matcher = some (λ c. true); strategy = some (λ c. err false) }
    ∷ []

abbrev fallback : Option (Conflict → Result Bool ResolvedConflict)
fallback = some (λ c. ok resolution)

abbrev base : DynamicResolver Conflict ResolvedConflict Bool
base = record { rules = rules; fallback = fallback }

base_built : new_dynamic_resolver none rules fallback ≡ ok base
unfolding new_dynamic_resolver check_rules
base_built = refl

built : new_from_options 0 none rules fallback none ≡ ok (build 0 default_options base)
unfolding new_from_options new_dynamic_resolver check_rules new_stateful_resolver
built = refl

requests : List Request
requests = to_resolve readings conflict ∷ to_configure none ∷ to_resolve readings conflict ∷ []

stateful_refines_base_example :
    (b : DynamicResolver Conflict ResolvedConflict Bool) × (new_dynamic_resolver none rules fallback
      ≡ ok b)
    × (serve_all env requests (build 0 default_options base) ≡ base_replies requests b)
stateful_refines_base_example =
    stateful_refines_base env 0 none rules fallback none requests (build 0 default_options base)
      built

resolve-IsAnswer_example :
    IsAnswer env conflict
      (build 0 default_options base)
      (resolve env readings conflict (build 0 default_options base))
unfolding build
resolve-IsAnswer_example =
    resolve-IsAnswer env readings conflict (build 0 default_options base)
      (build-IsReady 0 default_options base)
      (new_dynamic_resolver_safe none rules fallback base conflict base_built)

has_metrics : (build 0 default_options base).metrics ≡ some no_metrics
unfolding build
has_metrics = refl

collects : (build 0 default_options base).options.enable_performance_metrics ≡ true
unfolding build
collects = refl

resolve-IsUpdate_example :
    (after : ResolverMetrics) × ((resolve env readings conflict
        (build 0 default_options base)).resolver.metrics
      ≡ some after)
    × IsUpdate 12
        (misses conflict (build 0 default_options base).base.rules)
        (hits conflict (build 0 default_options base).base.rules)
        (Resolver.resolve (build 0 default_options base).base conflict).1
        no_metrics
        after
unfolding build
resolve-IsUpdate_example =
    resolve-IsUpdate env readings conflict (build 0 default_options base) no_metrics
      (build-IsReady 0 default_options base)
      (new_dynamic_resolver_safe none rules fallback base conflict base_built) has_metrics collects

one_miss : misses conflict rules ≡ 1
unfolding misses
one_miss = refl

no_hit : hits conflict rules ≡ 0
unfolding hits
no_hit = refl

-- A machine at work on another conflict.
abbrev at_work : ConflictMachine
at_work = record {
  machine = record {
    initial = idle;
    rules = go_sync_kit.ConflictMachine.conflict_rules;
    validator = none;
    max_history = 100;
    state = analyzing;
    state_start = 4;
    observers = [];
    history = [];
  };
  conflict_id = "another";
  resolution_path = [];
  matched_rules = [];
  failed_rules = [];
  start_time = some 4;
  analysis_metadata = [];
}

abbrev busy : StatefulResolver Bool
busy = record {
  base = base;
  machine = some at_work;
  workflows = some [];
  options = default_options;
  metrics = some no_metrics;
}

not_idle : analyzing ≢ idle
not_idle h = ground arith

resolve_busy_example :
    let a = resolve env readings conflict busy in
    (a.result ≡ err (refused invalid_transition))
    × (a.calls ≡ [])
    × (a.resolver.machine ≡ some at_work)
    × (a.resolver.metrics ≡ some no_metrics)
    × Leftover env readings conflict busy a.resolver.workflows a.announced
resolve_busy_example =
    resolve_busy env readings conflict busy at_work refl (record { rules = refl; validator = refl })
      not_idle
