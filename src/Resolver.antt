-- ===== src/Resolver.antt =====
-- synckit/resolver.go: the dynamic resolver. The types of conflicts, of resolutions and of the errors
-- of strategies are parameters; the hooks, which only observe, are the list of their calls.
pub mod Dispatch
pub mod Strategies
mod Tests
use go_sync_kit.Base.{
  ℕ, ◌+◌, String, Option, none, some, List, [], ◌∷◌, Bool, true, false, if◌then◌else◌,
}
use go_sync_kit.Types.{Result, ok, err}

-- A rule; a nil matcher or resolver is `none`.
pub record Rule (C A E : Type 0) : Type 0 where
  pub name : String
  pub matcher : Option (C → Bool)
  pub strategy : Option (C → Result E A)

pub record DynamicResolver (C A E : Type 0) : Type 0 where
  pub rules : List (Rule C A E)
  pub fallback : Option (C → Result E A)

-- Why a resolver is not built; the number is the index of the rule.
pub data BuildError (E : Type 0) : Type 0 where
  nothing_to_do : BuildError E
  nil_matcher nil_strategy : ℕ → BuildError E
  refused_by_validator : E → BuildError E

-- Why a conflict is not resolved; `nil_dereference` is the panic of a call on a nil resolver.
pub data ResolveError (E : Type 0) : Type 0 where
  strategy_failed : E → ResolveError E
  no_fallback nil_dereference : ResolveError E

-- The calls of `Hooks`, each with the conflict at hand.
pub data HookCall (C A E : Type 0) : Type 0 where
  on_rule_matched : Rule C A E → HookCall C A E
  on_resolved : A → HookCall C A E
  on_fallback : HookCall C A E
  on_error : ResolveError E → HookCall C A E

abbrev pub unless_failed :
    {E : Type 0} → Option (BuildError E) → Option (BuildError E) → Option (BuildError E)
unless_failed (some e) later = some e
unless_failed none later = later

-- `r.Matcher != nil && r.Matcher(c)`.
abbrev pub rule_matches : {C : Type 0} → C → Option (C → Bool) → Bool
rule_matches c none = false
rule_matches c (some matches) = matches c

module _ {C A E : Type 0} where
  abbrev pub checked_strategy :
      ℕ → Option (C → Result E A) → Option (BuildError E) → Option (BuildError E)
  checked_strategy i none later = some (nil_strategy i)
  checked_strategy i (some resolve) later = later

  abbrev pub checked_rule : ℕ → Rule C A E → Option (BuildError E) → Option (BuildError E)
  checked_rule i rule later = elim rule.matcher [
    | none ↦ some (nil_matcher i)
    | some matches ↦ checked_strategy i rule.strategy later
  ]

  -- The loop of `NewDynamicResolver` over the rules, from an index on.
  unfoldable pub check_rules : ℕ → List (Rule C A E) → Option (BuildError E)
  check_rules i [] = none
  check_rules i (rule ∷ rest) = checked_rule i rule (check_rules (i + 1) rest)

  abbrev pub is_useless : List (Rule C A E) → Option (C → Result E A) → Bool
  is_useless [] none = true
  is_useless [] (some resolve) = false
  is_useless (rule ∷ rest) fallback = false

  abbrev pub approved :
      Option (List (Rule C A E) → Option (C → Result E A) → Option E)
      → List (Rule C A E)
      → Option (C → Result E A)
      → Option (BuildError E)
  approved none rules fallback = none
  approved (some validator) rules fallback = elim (validator rules fallback) [
    | none ↦ none
    | some e ↦ some (refused_by_validator e)
  ]

  abbrev pub assemble :
      List (Rule C A E)
      → Option (C → Result E A)
      → Option (BuildError E)
      → Result (BuildError E) (DynamicResolver C A E)
  assemble rules fallback (some e) = err e
  assemble rules fallback none = ok (record { rules = rules; fallback = fallback })

  -- `NewDynamicResolver`, after its options are applied.
  unfoldable pub new_dynamic_resolver :
      Option (List (Rule C A E) → Option (C → Result E A) → Option E)
      → List (Rule C A E)
      → Option (C → Result E A)
      → Result (BuildError E) (DynamicResolver C A E)
  unfolding check_rules
  new_dynamic_resolver validator rules fallback =
      if is_useless rules fallback
      then err nothing_to_do
      else assemble rules fallback
          (unless_failed (check_rules 0 rules) (approved validator rules fallback))

  -- The result of a strategy, with the hook calls made before it.
  unfoldable pub report :
      List (HookCall C A E) → Result E A → List (HookCall C A E) × Result (ResolveError E) A
  report calls (err e) = (on_error (strategy_failed e) ∷ calls, err (strategy_failed e))
  report calls (ok res) = (on_resolved res ∷ calls, ok res)

  unfoldable pub apply_rule :
      C → Rule C A E → Option (C → Result E A) → List (HookCall C A E) × Result (ResolveError E) A
  unfolding report
  apply_rule c rule none = (on_rule_matched rule ∷ [], err nil_dereference)
  apply_rule c rule (some resolve) = report (on_rule_matched rule ∷ []) (resolve c)

  unfoldable pub fall_back :
      C → Option (C → Result E A) → List (HookCall C A E) × Result (ResolveError E) A
  unfolding report
  fall_back c none = (on_error no_fallback ∷ [], err no_fallback)
  fall_back c (some resolve) = report (on_fallback ∷ []) (resolve c)

  -- The loop of `Resolve` over the rules; the hook calls come last first.
  unfoldable pub dispatch :
      C
      → List (Rule C A E)
      → Option (C → Result E A)
      → List (HookCall C A E) × Result (ResolveError E) A
  unfolding apply_rule fall_back
  dispatch c [] fallback = fall_back c fallback
  dispatch c (rule ∷ rest) fallback =
      let later = dispatch c rest fallback in
      if rule_matches c rule.matcher then apply_rule c rule rule.strategy else later

  unfoldable pub resolve :
      DynamicResolver C A E → C → List (HookCall C A E) × Result (ResolveError E) A
  unfolding dispatch
  resolve d c = dispatch c d.rules d.fallback
