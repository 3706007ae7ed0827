-- ===== src/Stateful/Sequences.antt =====
-- synckit/stateful_resolver.go: a resolver from its construction on, through calls of `Resolve` and
-- `Configure`.
use go_sync_kit.Base.{
  ℕ, String, Option, none, some, List, [], ◌∷◌, ◌≡◌, ◌≢◌, refl, sym, ap, arith, subst, ◌∙◌, if_both,
}
use go_sync_kit.Base.Dict.{Dict}
use go_sync_kit.Types.{Conflict, ResolvedConflict, Result, ok, err, same_ok}
use go_sync_kit.Machine.{new, with_rules}
use go_sync_kit.Workflow.{ConflictWorkflow}
use go_sync_kit.Stateful.Idle.{IsOnlyOne}
use go_sync_kit.Resolver.{
  Rule, DynamicResolver, BuildError, HookCall, nil_dereference, new_dynamic_resolver,
}
use go_sync_kit.Resolver as Resolver
use go_sync_kit.Resolver.Dispatch.{new_dynamic_resolver_safe}
use go_sync_kit.ConflictMachine.{new_conflict_machine, filled_config, around}
use go_sync_kit.Stateful.{
  StatefulResolver, StatefulError, StatefulOptions, Surroundings, Readings, configure,
  new_stateful_resolver, build, machine_of, options_or_default,
}
use go_sync_kit.Stateful.Resolve.{resolve}
use go_sync_kit.Stateful.Ready.{IsWaiting}
use go_sync_kit.Stateful.Outcomes.{lifted}
use go_sync_kit.Stateful.Agreement.{IsReady, resolve-IsAnswer}

-- The error of either construction.
pub data FromOptionsError (E : Type 0) : Type 0 where
  base_refused : BuildError E → FromOptionsError E
  stateful_refused : String → FromOptionsError E

-- The calls that change a resolver.
pub data Request : Type 0 where
  to_resolve : Readings → Conflict → Request
  to_configure : Option StatefulOptions → Request

abbrev pub Reply : Type 0 → Type 0
Reply E = List (HookCall Conflict ResolvedConflict E) × Result (StatefulError E) ResolvedConflict

machine_of-IsWaiting : (now : ℕ) (options : StatefulOptions) → IsWaiting (machine_of now options)
unfolding machine_of new_conflict_machine new with_rules filled_config around
machine_of-IsWaiting now options =
    if_both IsWaiting options.enable_state_machine
      (record { rules = refl; validator = refl }, refl, refl) tt

module _ {E : Type 0} where
  abbrev pub with_stateful_error :
      Result String (StatefulResolver E) → Result (FromOptionsError E) (StatefulResolver E)
  with_stateful_error (ok s) = ok s
  with_stateful_error (err e) = err (stateful_refused e)

  abbrev pub wrapped :
      ℕ
      → Option StatefulOptions
      → Result (BuildError E) (DynamicResolver Conflict ResolvedConflict E)
      → Result (FromOptionsError E) (StatefulResolver E)
  wrapped now options (err e) = err (base_refused e)
  wrapped now options (ok base) =
      with_stateful_error (new_stateful_resolver now (some base) options)

  -- `NewStatefulDynamicResolverFromOptions`, after the dynamic options are applied.
  unfoldable pub new_from_options :
      ℕ
      → Option (
          List (Rule Conflict ResolvedConflict E)
          → Option (Conflict → Result E ResolvedConflict)
          → Option E)
      → List (Rule Conflict ResolvedConflict E)
      → Option (Conflict → Result E ResolvedConflict)
      → Option StatefulOptions
      → Result (FromOptionsError E) (StatefulResolver E)
  new_from_options now validator rules fallback options =
      wrapped now options (new_dynamic_resolver validator rules fallback)

  -- What the calls of `Resolve` return, in order.
  unfoldable pub serve_all : Surroundings E → List Request → StatefulResolver E → List (Reply E)
  serve_all env [] s = []
  serve_all env (to_resolve at c ∷ rest) s =
      let a = resolve env at c s in (a.calls, a.result) ∷ serve_all env rest a.resolver
  serve_all env (to_configure options ∷ rest) s = serve_all env rest (configure options s).0

  -- What the base resolver returns for the same conflicts.
  unfoldable pub base_replies :
      List Request → DynamicResolver Conflict ResolvedConflict E → List (Reply E)
  base_replies [] base = []
  base_replies (to_resolve at c ∷ rest) base =
      ((Resolver.resolve base c).0, lifted (Resolver.resolve base c).1) ∷ base_replies rest base
  base_replies (to_configure options ∷ rest) base = base_replies rest base

  abbrev pub NeverPanics : DynamicResolver Conflict ResolvedConflict E → Type 0
  NeverPanics base = (c : Conflict) → (Resolver.resolve base c).1 ≢ err nil_dereference

  configure-IsReady :
      (options : Option StatefulOptions) (s : StatefulResolver E)
      → IsReady s
      → IsReady (configure options s).0 × ((configure options s).0.base ≡ s.base)
  unfolding configure
  configure-IsReady none s ready = (ready, refl)
  configure-IsReady (some options) s ready =
      (record { machine = ready.machine; workflows = ready.workflows }, refl)

  serve_all_lem :
      (env : Surroundings E) (requests : List Request) (s : StatefulResolver E)
      (base : DynamicResolver Conflict ResolvedConflict E)
      → NeverPanics base
      → s.base ≡ base
      → IsReady s
      → serve_all env requests s ≡ base_replies requests base
  unfolding serve_all base_replies
  serve_all_lem env [] s base safe same ready = refl
  serve_all_lem env (to_resolve at c ∷ rest) s base safe same ready =
      let a =
        resolve-IsAnswer env at c s ready
          (subst (λ b. (Resolver.resolve b c).1 ≢ err nil_dereference) (sym same) (safe c)) in
      let later =
        serve_all_lem env rest (resolve env at c s).resolver base safe (a.base ∙ same) a.ready in
      let calls = a.calls ∙ ap (λ b. (Resolver.resolve b c).0) same in
      let result = a.result ∙ ap (λ b. lifted (Resolver.resolve b c).1) same in
      λ i. (calls i, result i) ∷ later i
  serve_all_lem env (to_configure options ∷ rest) s base safe same ready =
      let kept = configure-IsReady options s ready in
      serve_all_lem env rest (configure options s).0 base safe (kept.1 ∙ same) kept.0

  pub build-IsReady :
      (now : ℕ) (options : StatefulOptions) (base : DynamicResolver Conflict ResolvedConflict E)
      → IsReady (build now options base)
  unfolding build
  build-IsReady now options base = record {
    machine = machine_of-IsWaiting now options;
    workflows =
        if_both {A = Option (Dict (ConflictWorkflow E))} (IsOnlyOne none)
          options.enable_workflow_tracking refl tt;
  }

  wrapped_parts :
      (now : ℕ) (options : Option StatefulOptions)
      (r : Result (BuildError E) (DynamicResolver Conflict ResolvedConflict E))
      (s : StatefulResolver E)
      → wrapped now options r ≡ ok s
      → (base : DynamicResolver Conflict ResolvedConflict E) × (r ≡ ok base)
        × (build now (options_or_default options) base ≡ s)
  unfolding new_stateful_resolver
  wrapped_parts now options (err e) s h = absurd (ground arith)
  wrapped_parts now options (ok base) s h = (base, refl, same_ok _ _ s refl h)

  -- A resolver that `NewStatefulDynamicResolverFromOptions` builds, with any options, answers every
  -- sequence of `Resolve` calls, with any `Configure` calls between them, as the dynamic resolver of
  -- the same rules and fallback, which is then built, answers them: with the same results and the same calls of
  -- its hooks.
  pub stateful_refines_base :
      (env : Surroundings E) (now : ℕ)
      (validator : Option (
        List (Rule Conflict ResolvedConflict E)
        → Option (Conflict → Result E ResolvedConflict)
        → Option E))
      (rules : List (Rule Conflict ResolvedConflict E))
      (fallback : Option (Conflict → Result E ResolvedConflict)) (options : Option StatefulOptions)
      (requests : List Request) (s : StatefulResolver E)
      → new_from_options now validator rules fallback options ≡ ok s
      → (base : DynamicResolver Conflict ResolvedConflict E) × (new_dynamic_resolver validator rules
            fallback
          ≡ ok base)
        × (serve_all env requests s ≡ base_replies requests base)
  unfolding new_from_options
  stateful_refines_base env now validator rules fallback options requests s h =
      let (base, built, same) =
        wrapped_parts now options (new_dynamic_resolver validator rules fallback) s h in
      (
        base,
        built,
        serve_all_lem env requests s base
            (λ c. new_dynamic_resolver_safe validator rules fallback base c built)
            (sym (ap (λ x. x.base) same) ∙ unfold build in refl)
            (subst IsReady same (build-IsReady now (options_or_default options) base)),
      )
