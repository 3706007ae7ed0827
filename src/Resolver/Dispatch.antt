-- ===== src/Resolver/Dispatch.antt =====
-- synckit/resolver.go: which strategy resolves a conflict.
use go_sync_kit.Base.{
  ℕ, ◌+◌, Option, none, some, List, [], ◌∷◌, ◌++◌, Bool, true, false, ◌≡◌, ◌≢◌, refl, arith,
  if_eq_true, if_eq_false, Bool-cases, inl, inr, ap, sym, subst, if_both, ◌∙◌,
}
use go_sync_kit.Types.{Result, ok, err}
use go_sync_kit.Resolver.{
  Rule, DynamicResolver, BuildError, ResolveError, nil_dereference, HookCall, check_rules,
  checked_rule, checked_strategy, is_useless, on_fallback, on_rule_matched, new_dynamic_resolver,
  assemble, unless_failed, rule_matches, report, apply_rule, fall_back, dispatch, resolve,
}

unless_failed_first :
    {E : Type 0} (first later : Option (BuildError E))
    → unless_failed first later ≡ none
    → first ≡ none
unless_failed_first none later h = refl
unless_failed_first (some e) later h = h

module _ {C A E : Type 0} where
  -- No rule of the list matches the conflict.
  abbrev pub NoneMatches : C → List (Rule C A E) → Type 0
  NoneMatches c [] = Unit
  NoneMatches c (rule ∷ rest) = (rule_matches c rule.matcher ≡ false) × NoneMatches c rest

  dispatch-append :
      (c : C) (before rest : List (Rule C A E)) (fallback : Option (C → Result E A))
      → NoneMatches c before
      → dispatch c (before ++ rest) fallback ≡ dispatch c rest fallback
  unfolding dispatch
  dispatch-append c [] rest fallback none_of = refl
  dispatch-append c (rule ∷ before) rest fallback none_of =
      if_eq_false _ _ none_of.0 ∙ dispatch-append c before rest fallback none_of.1

  -- First match wins: rules before the first that matches, and all that follow it, have no effect on
  -- the result or on the hooks.
  pub resolve_first_match :
      (c : C) (before later : List (Rule C A E)) (rule : Rule C A E)
      (fallback : Option (C → Result E A))
      → NoneMatches c before
      → rule_matches c rule.matcher ≡ true
      → resolve (record { rules = before ++ rule ∷ later; fallback = fallback }) c
        ≡ apply_rule c rule rule.strategy
  unfolding resolve
  resolve_first_match c before later rule fallback none_of matches =
      dispatch-append c before (rule ∷ later) fallback none_of
      ∙ unfold dispatch in if_eq_true _ _ matches

  -- If no rule matches, the fallback decides.
  pub resolve_no_match :
      (c : C) (d : DynamicResolver C A E)
      → NoneMatches c d.rules
      → resolve d c ≡ fall_back c d.fallback
  unfolding resolve
  resolve_no_match c d none_of = no_match d.rules d.fallback none_of
    where
      no_match :
          (rules : List (Rule C A E)) (fallback : Option (C → Result E A))
          → NoneMatches c rules
          → dispatch c rules fallback ≡ fall_back c fallback
      no_match [] fallback none_of = unfold dispatch in refl
      no_match (rule ∷ rest) fallback none_of =
          unfold dispatch in (if_eq_false _ _ none_of.0 ∙ no_match rest fallback none_of.1)

  report_safe :
      (calls : List (HookCall C A E)) (r : Result E A) → (report calls r).1 ≢ err nil_dereference
  unfolding report
  report_safe calls (ok a) h = cc
  report_safe calls (err e) h = cc

  checked_strategy_parts :
      (i : ℕ) (strategy : Option (C → Result E A)) (later : Option (BuildError E))
      → checked_strategy i strategy later ≡ none
      → ((f : C → Result E A) × (strategy ≡ some f)) × (later ≡ none)
  checked_strategy_parts i none later h = absurd (ground arith)
  checked_strategy_parts i (some f) later h = ((f, refl), h)

  checked_rule_parts :
      (i : ℕ) (matcher : Option (C → Bool)) (strategy : Option (C → Result E A))
      (later : Option (BuildError E))
      → checked_rule i (record { name = ""; matcher = matcher; strategy = strategy }) later ≡ none
      → ((f : C → Result E A) × (strategy ≡ some f)) × (later ≡ none)
  checked_rule_parts i none strategy later h = absurd (ground arith)
  checked_rule_parts i (some p) strategy later h = checked_strategy_parts i strategy later h

  apply_rule_safe :
      (c : C) (rule : Rule C A E) {f : C → Result E A}
      → rule.strategy ≡ some f
      → (apply_rule c rule rule.strategy).1 ≢ err nil_dereference
  unfolding apply_rule
  apply_rule_safe c rule {f} is h =
      report_safe (on_rule_matched rule ∷ []) (f c) (sym (ap (λ s. (apply_rule c rule s).1) is) ∙ h)

  check_rules_safe :
      (c : C) (i : ℕ) (rules : List (Rule C A E)) (fallback : Option (C → Result E A))
      → check_rules i rules ≡ none
      → (dispatch c rules fallback).1 ≢ err nil_dereference
  unfolding check_rules dispatch
  check_rules_safe c i [] none h is = cc
  check_rules_safe c i [] (some f) h is = report_safe (on_fallback ∷ []) (f c) is
  check_rules_safe c i (rule ∷ rest) fallback h is =
      let ((f, has), later) =
        checked_rule_parts i rule.matcher rule.strategy (check_rules (i + 1) rest) h in
      if_both {A = List (HookCall C A E) × Result (ResolveError E) A}
        (λ r. r.1 ≢ err nil_dereference) (rule_matches c rule.matcher) (apply_rule_safe c rule has)
        (check_rules_safe c (i + 1) rest fallback later) is

  abbrev value_or :
      DynamicResolver C A E → Result (BuildError E) (DynamicResolver C A E) → DynamicResolver C A E
  value_or d (err e) = d
  value_or d (ok d') = d'

  assemble_parts :
      (rules : List (Rule C A E)) (fallback : Option (C → Result E A)) (e : Option (BuildError E))
      (d : DynamicResolver C A E)
      → assemble rules fallback e ≡ ok d
      → (e ≡ none) × (record { rules = rules; fallback = fallback } ≡ d)
  assemble_parts rules fallback (some e) d h = absurd (ground arith)
  assemble_parts rules fallback none d h =
      (refl, ap (value_or (record { rules = rules; fallback = fallback })) h)

  -- What `NewDynamicResolver` accepts never calls a nil resolver, whatever the conflict.
  pub new_dynamic_resolver_safe :
      (validator : Option (List (Rule C A E) → Option (C → Result E A) → Option E))
      (rules : List (Rule C A E)) (fallback : Option (C → Result E A)) (d : DynamicResolver C A E)
      (c : C)
      → new_dynamic_resolver validator rules fallback ≡ ok d
      → (resolve d c).1 ≢ err nil_dereference
  unfolding new_dynamic_resolver resolve
  new_dynamic_resolver_safe validator rules fallback d c h =
      elim (Bool-cases (is_useless rules fallback)) [
        | inl useless ↦ (let impossible = sym (if_eq_true _ _ useless) ∙ h in cc)
        | inr useful ↦
            let (fine, same) =
              assemble_parts rules fallback _ d (sym (if_eq_false _ _ useful) ∙ h) in
            subst (λ x. (dispatch c x.rules x.fallback).1 ≢ err nil_dereference) same
              (check_rules_safe c 0 rules fallback (unless_failed_first _ _ fine))
      ]
