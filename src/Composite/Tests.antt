-- ===== src/Composite/Tests.antt =====
-- synckit/composite.go: examples, with texts for conflicts and numbers for resolutions.
use go_sync_kit.Base.{ℕ, String, none, some, [], ◌∷◌, true, false, str_eq, ◌≡◌, refl}
use go_sync_kit.Types.{ok}
use go_sync_kit.Resolver.{Rule, ResolveError}
use go_sync_kit.Resolver
use go_sync_kit.Composite.{
  RuleGroup, rule_group, no_more, sub_group, CompositeResolver, sub_rules, resolve,
  resolve_in_rules,
}
use go_sync_kit.Composite.Flattening.{
  NoFallback, NoFallbacks, HasMatchers, in_composite, resolve-eq-dynamic,
}

abbrev matching : String → ℕ → Rule String ℕ String
matching t n = record { name = t; matcher = some (λ c. str_eq c t); strategy = some (λ c. ok n) }

-- A group with a rule and, in it, a disabled group and an enabled one.
abbrev nested : RuleGroup String ℕ String
nested =
    rule_group "orders" "" (matching "order" 1 ∷ [])
      (sub_group (rule_group "old" "" (matching "item" 2 ∷ []) no_more false (some (λ c. ok 3)))
        (sub_group (rule_group "items" "" (matching "item" 4 ∷ []) no_more true none) no_more))
      true none

nested-NoFallback : NoFallback nested
unfolding NoFallback
nested-NoFallback = (refl, (tt, ((refl, tt), tt)))

abbrev composite : CompositeResolver String ℕ String
composite = record { groups = sub_group nested no_more; fallback = some (λ c. ok 0) }

composite-NoFallbacks : NoFallbacks composite.groups
unfolding NoFallback
composite-NoFallbacks = (nested-NoFallback, tt)

composite-HasMatchers : HasMatchers (sub_rules composite.groups)
unfolding sub_rules
composite-HasMatchers = ((_, refl), ((_, refl), tt))

resolve-eq-dynamic_example :
    resolve composite "item"
    ≡ in_composite
        (Resolver.resolve
          (record { rules = sub_rules composite.groups; fallback = composite.fallback })
          "item").1
resolve-eq-dynamic_example =
    resolve-eq-dynamic "item" composite composite-NoFallbacks composite-HasMatchers

-- The rule of the disabled group is passed over.
item_resolved : resolve composite "item" ≡ ok 4
unfolding resolve resolve_in_rules
item_resolved = refl
