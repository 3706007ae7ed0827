-- ===== src/Composite/Flattening.antt =====
-- synckit/composite.go: resolving in nested groups and resolving over the flat list of their rules.
use go_sync_kit.Base.{
  Option, none, some, List, [], ◌∷◌, ◌++◌, Bool, true, false, if◌then◌else◌, ◌≡◌, refl, sym, ap,
  ◌∙◌, arith,
}
use go_sync_kit.Types.{Result, ok, err}
use go_sync_kit.Resolver.{
  Rule, ResolveError, DynamicResolver, strategy_failed, dispatch, apply_rule, fall_back, report,
  rule_matches, no_fallback, nil_dereference,
}
use go_sync_kit.Resolver
use go_sync_kit.Composite.{
  RuleGroup, rule_group, SubGroups, no_more, sub_group, get_all_rules, sub_rules, Attempt,
  attempted, unless_matched, applied, try_rule, try_fallback, resolve_in_rules, resolve_in_group,
  resolve_in_sub_groups, CompositeResolver, CompositeError, rule_failed, no_group_matched, nil_rule,
  or_last_resort, last_resort, resolve,
}

-- No enabled group has a fallback of its own.
unfoldable mutual
  pub NoFallback : {C A E : Type 0} → RuleGroup C A E → Type 0
  NoFallback (rule_group name description rules subs enabled fallback) =
      let nested = NoFallbacks subs in if enabled then (fallback ≡ none) × nested else Unit

  pub NoFallbacks : {C A E : Type 0} → SubGroups C A E → Type 0
  NoFallbacks no_more = Unit
  NoFallbacks (sub_group g rest) = NoFallback g × NoFallbacks rest

-- The error of a composite resolver for one of a dynamic resolver: that nothing matched is said in
-- other words, and the other errors are the same.
abbrev pub in_composite : {A E : Type 0} → Result (ResolveError E) A → Result (CompositeError E) A
in_composite (ok res) = ok res
in_composite (err (strategy_failed e)) = err (rule_failed e)
in_composite (err no_fallback) = err no_group_matched
in_composite (err nil_dereference) = err nil_rule

module _ {A E : Type 0} where
  unless_matched_assoc :
      (x y z : Attempt A E)
      → unless_matched (unless_matched x y) z ≡ unless_matched x (unless_matched y z)
  unless_matched_assoc (err e) y z = refl
  unless_matched_assoc (ok (some res)) y z = refl
  unless_matched_assoc (ok none) y z = refl

  unless_matched-none : (x : Attempt A E) → unless_matched x (ok none) ≡ x
  unless_matched-none (err e) = refl
  unless_matched-none (ok (some res)) = refl
  unless_matched-none (ok none) = refl

module _ {C A E : Type 0} where
  resolve_in_rules-append :
      (c : C) (xs ys : List (Rule C A E))
      → resolve_in_rules c (xs ++ ys)
        ≡ unless_matched (resolve_in_rules c xs) (resolve_in_rules c ys)
  unfolding resolve_in_rules
  resolve_in_rules-append c [] ys = refl
  resolve_in_rules-append c (rule ∷ xs) ys =
      ap (unless_matched (try_rule c rule.matcher rule.strategy)) (resolve_in_rules-append c xs ys)
      ∙ sym (
          unless_matched_assoc (try_rule c rule.matcher rule.strategy) (resolve_in_rules c xs)
            (resolve_in_rules c ys))

mutual
  unfolding resolve_in_group get_all_rules NoFallback resolve_in_rules

  group_flattened :
      {C A E : Type 0} (c : C) (g : RuleGroup C A E)
      → NoFallback g
      → resolve_in_group c g ≡ resolve_in_rules c (get_all_rules g)
  group_flattened c (rule_group name description rules subs true fallback) h =
      ap
        (λ f.
          unless_matched (resolve_in_rules c rules)
            (unless_matched (resolve_in_sub_groups c subs) (try_fallback c f)))
        h.0
      ∙ ap (unless_matched (resolve_in_rules c rules))
          (unless_matched-none (resolve_in_sub_groups c subs) ∙ groups_flattened c subs h.1)
      ∙ sym (resolve_in_rules-append c rules (sub_rules subs))
  group_flattened c (rule_group name description rules subs false fallback) h = refl

  groups_flattened :
      {C A E : Type 0} (c : C) (gs : SubGroups C A E)
      → NoFallbacks gs
      → resolve_in_sub_groups c gs ≡ resolve_in_rules c (sub_rules gs)
  groups_flattened c no_more h = refl
  groups_flattened c (sub_group g rest) h =
      ap (λ x. unless_matched x (resolve_in_sub_groups c rest)) (group_flattened c g h.0)
      ∙ ap (unless_matched (resolve_in_rules c (get_all_rules g))) (groups_flattened c rest h.1)
      ∙ sym (resolve_in_rules-append c (get_all_rules g) (sub_rules rest))

module _ {C A E : Type 0} where
  -- Resolving in a group, none of whose enabled groups has a fallback, is resolving over the flat list
  -- of the rules that `GetAllRules` returns: the same match, the same error, or no match.
  pub resolve_in_group-flat :
      (c : C) (g : RuleGroup C A E)
      → NoFallback g
      → resolve_in_group c g ≡ resolve_in_rules c (get_all_rules g)
  resolve_in_group-flat c g h = group_flattened c g h

  -- Every rule has a matcher.
  abbrev pub HasMatchers : List (Rule C A E) → Type 0
  HasMatchers [] = Unit
  HasMatchers (rule ∷ rest) =
      ((matches : C → Bool) × (rule.matcher ≡ some matches)) × HasMatchers rest

  report-attempted :
      (c : C) (fallback : Option (C → Result E A)) (calls : List (Resolver.HookCall C A E))
      (r : Result E A) (later : Attempt A E)
      → in_composite (report calls r).1
        ≡ or_last_resort c fallback (unless_matched (attempted r) later)
  unfolding report
  report-attempted c fallback calls (ok res) later = refl
  report-attempted c fallback calls (err e) later = refl

  apply_rule-attempted :
      (c : C) (fallback : Option (C → Result E A)) (rule : Rule C A E)
      (strategy : Option (C → Result E A)) (later : Attempt A E)
      → in_composite (apply_rule c rule strategy).1
        ≡ or_last_resort c fallback (unless_matched (applied c strategy) later)
  unfolding apply_rule
  apply_rule-attempted c fallback rule none later = refl
  apply_rule-attempted c fallback rule (some strategy) later =
      report-attempted c fallback _ (strategy c) later

  fall_back-last_resort :
      (c : C) (fallback : Option (C → Result E A))
      → in_composite (fall_back c fallback).1 ≡ last_resort c fallback
  unfolding fall_back report
  fall_back-last_resort c none = refl
  fall_back-last_resort c (some strategy) = reported (strategy c)
    where
      reported :
          (r : Result E A)
          → in_composite (report {C = C} (Resolver.on_fallback ∷ []) r).1
            ≡ elim r [ ok res ↦ ok res | err e ↦ err (rule_failed e) ]
      reported (ok res) = refl
      reported (err e) = refl

  one_rule :
      (c : C) (fallback : Option (C → Result E A)) (matcher : Option (C → Bool))
      (strategy : Option (C → Result E A))
      (here next : List (Resolver.HookCall C A E) × Result (ResolveError E) A) (later : Attempt A E)
      → ((matches : C → Bool) × (matcher ≡ some matches))
      → in_composite here.1 ≡ or_last_resort c fallback (unless_matched (applied c strategy) later)
      → in_composite next.1 ≡ or_last_resort c fallback later
      → in_composite (if rule_matches c matcher then here else next).1
        ≡ or_last_resort c fallback (unless_matched (try_rule c matcher strategy) later)
  one_rule c fallback none strategy here next later h applies skips =
      let no = h.1 in absurd (ground arith)
  one_rule c fallback (some matches) strategy here next later h applies skips = by_match (matches c)
    where
      by_match :
          (b : Bool)
          → in_composite (if b then here else next).1
            ≡ or_last_resort c fallback
                (unless_matched (if b then applied c strategy else ok none) later)
      by_match true = applies
      by_match false = skips

  dispatch-flat :
      (c : C) (rules : List (Rule C A E)) (fallback : Option (C → Result E A))
      → HasMatchers rules
      → in_composite (dispatch c rules fallback).1
        ≡ or_last_resort c fallback (resolve_in_rules c rules)
  unfolding dispatch resolve_in_rules
  dispatch-flat c [] fallback h = fall_back-last_resort c fallback
  dispatch-flat c (rule ∷ rest) fallback h =
      one_rule c fallback rule.matcher rule.strategy (apply_rule c rule rule.strategy)
        (dispatch c rest fallback) (resolve_in_rules c rest) h.0
        (apply_rule-attempted c fallback rule rule.strategy (resolve_in_rules c rest))
        (dispatch-flat c rest fallback h.1)

  -- Where no enabled group has a fallback of its own and every rule has a matcher, a composite resolver
  -- resolves a conflict as the dynamic resolver over the flat list of its rules, with the same
  -- fallback, does: the same resolution, the same error of a strategy, the same panic, and its own
  -- error that nothing matched just where the dynamic resolver returns its own.
  pub resolve-eq-dynamic :
      (c : C) (r : CompositeResolver C A E)
      → NoFallbacks r.groups
      → HasMatchers (sub_rules r.groups)
      → resolve r c
        ≡ in_composite
            (Resolver.resolve (record { rules = sub_rules r.groups; fallback = r.fallback }) c).1
  unfolding resolve Resolver.resolve
  resolve-eq-dynamic c r h matchers =
      ap (or_last_resort c r.fallback) (groups_flattened c r.groups h)
      ∙ sym (dispatch-flat c (sub_rules r.groups) r.fallback matchers)
