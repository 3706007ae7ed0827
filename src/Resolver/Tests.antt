-- ===== src/Resolver/Tests.antt =====
-- synckit/resolver.go and synckit/resolvers.go: examples.
use go_sync_kit.Base.{ℕ, String, Option, none, some, [], ◌∷◌, Bool, true, false, ◌≡◌, ◌≢◌, refl}
use go_sync_kit.Types.{Result, ok, err}
use go_sync_kit.Resolver.{
  Rule, DynamicResolver, nil_dereference, new_dynamic_resolver, check_rules, apply_rule, resolve,
}
use go_sync_kit.Resolver.Dispatch.{resolve_first_match, new_dynamic_resolver_safe}

-- Conflicts are truth values here, resolutions numbers.
abbrev on_true : Rule Bool ℕ String
on_true = record { name = "on true"; matcher = some (λ c. c); strategy = some (λ c. ok 1) }

abbrev always : Rule Bool ℕ String
always = record { name = "always"; matcher = some (λ c. true); strategy = some (λ c. err "busy") }

abbrev keep_zero : Option (Bool → Result String ℕ)
keep_zero = some (λ c. ok 0)

abbrev two_rules : DynamicResolver Bool ℕ String
two_rules = record { rules = on_true ∷ always ∷ []; fallback = keep_zero }

resolve_first_match_example :
    resolve two_rules false ≡ apply_rule false always (some (λ c. err "busy"))
resolve_first_match_example =
    resolve_first_match false (on_true ∷ []) [] always keep_zero (refl, tt) refl

accepted : new_dynamic_resolver none (on_true ∷ always ∷ []) keep_zero ≡ ok two_rules
unfolding new_dynamic_resolver check_rules
accepted = refl

new_dynamic_resolver_safe_example : (resolve two_rules true).1 ≢ err nil_dereference
new_dynamic_resolver_safe_example =
    new_dynamic_resolver_safe none (on_true ∷ always ∷ []) keep_zero two_rules true accepted
