-- ===== src/Composite.antt =====
-- synckit/composite.go: rules in groups, and the resolver over groups. Groups are values here: a group
-- that is added to another is not reached through a second pointer afterwards. The logger is left out.
pub mod Flattening
pub mod Names
pub mod Counting
mod Tests
use Prim.Native.String.{◌++◌ as str_append, len, slice}
use text.Mathlib.Text.{starts_with}
use go_sync_kit.Base.{
  ℕ, ◌+◌, String, Option, none, some, List, [], ◌∷◌, ◌++◌, Bool, true, false, not, ltb, ◌&&◌,
  if◌then◌else◌, length, map, str_eq,
}
use go_sync_kit.Types.{Result, ok, err}
use go_sync_kit.Resolver.{Rule}

mutual
  -- `RuleGroup`.
  pub data RuleGroup (C A E : Type 0) : Type 0 where
    rule_group :
        String
        → String
        → List (Rule C A E)
        → SubGroups C A E
        → Bool
        → Option (C → Result E A)
        → RuleGroup C A E

  -- `[]*RuleGroup`, without nil pointers.
  pub data SubGroups (C A E : Type 0) : Type 0 where
    no_more : SubGroups C A E
    sub_group : RuleGroup C A E → SubGroups C A E → SubGroups C A E

-- The names that a rule gets: `fmt.Sprintf("%s.%s", …)`.
abbrev pub dotted : String → String → String
dotted name rest = str_append name (str_append "." rest)

-- What the loop of `AddSubGroup` takes off a rule's name: the old name of its group.
pub strip_group : String → String → String
strip_group group_name name =
    let prefix = str_append group_name "." in
    if ltb (len prefix) (len name) && starts_with name prefix
    then slice name (len prefix) (len name)
    else name

module _ {C A E : Type 0} where
  -- `NewRuleGroup`, with its options: the description, whether it is enabled, and the fallback.
  abbrev pub new_rule_group : String → String → Bool → Option (C → Result E A) → RuleGroup C A E
  new_rule_group name description enabled fallback =
      rule_group name description [] no_more enabled fallback

  abbrev pub group_name : RuleGroup C A E → String
  group_name (rule_group name description rules subs enabled fallback) = name

  abbrev pub is_enabled : RuleGroup C A E → Bool
  is_enabled (rule_group name description rules subs enabled fallback) = enabled

  abbrev pub namespaced : String → Rule C A E → Rule C A E
  namespaced name rule =
      if str_eq rule.name "" then rule else record rule { name = dotted name rule.name }

  -- `AddRule`.
  pub add_rule : Rule C A E → RuleGroup C A E → RuleGroup C A E
  add_rule rule (rule_group name description rules subs enabled fallback) =
      if enabled
      then rule_group name description (rules ++ namespaced name rule ∷ []) subs enabled fallback
      else rule_group name description rules subs enabled fallback

  abbrev pub renamed : String → String → Rule C A E → Rule C A E
  renamed old new rule =
      if str_eq rule.name ""
      then rule
      else record rule { name = dotted new (strip_group old rule.name) }

  -- The subgroup under its new name: its own rules are renamed, not those of the groups in it.
  abbrev pub rename_group : String → RuleGroup C A E → RuleGroup C A E
  rename_group outer (rule_group name description rules subs enabled fallback) =
      rule_group (dotted outer name) description (map (renamed name (dotted outer name)) rules) subs
        enabled fallback

  abbrev pub append_sub_group : SubGroups C A E → RuleGroup C A E → SubGroups C A E
  append_sub_group no_more g = sub_group g no_more
  append_sub_group (sub_group first rest) g = sub_group first (append_sub_group rest g)

  -- `AddSubGroup`.
  pub add_sub_group : RuleGroup C A E → RuleGroup C A E → RuleGroup C A E
  add_sub_group sub (rule_group name description rules subs enabled fallback) =
      if enabled
      then rule_group name description rules (append_sub_group subs (rename_group name sub)) enabled
          fallback
      else rule_group name description rules subs enabled fallback

  -- `Enable` and `Disable`.
  abbrev pub set_enabled : Bool → RuleGroup C A E → RuleGroup C A E
  set_enabled on (rule_group name description rules subs enabled fallback) =
      rule_group name description rules subs on fallback

-- `GetAllRules`, of a group and of a list of groups.
unfoldable mutual
  pub get_all_rules : {C A E : Type 0} → RuleGroup C A E → List (Rule C A E)
  get_all_rules (rule_group name description rules subs enabled fallback) =
      let nested = sub_rules subs in if enabled then rules ++ nested else []

  pub sub_rules : {C A E : Type 0} → SubGroups C A E → List (Rule C A E)
  sub_rules no_more = []
  sub_rules (sub_group g rest) = get_all_rules g ++ sub_rules rest

-- Why a composite resolver fails: a strategy's own error, "no rule groups matched conflict and no
-- fallback provided", or the panic of a rule without a matcher or a resolver.
pub data CompositeError (E : Type 0) : Type 0 where
  rule_failed : E → CompositeError E
  no_group_matched nil_rule : CompositeError E

-- The result of `ResolveInGroup`: an error, or whether a rule matched, with its resolution.
abbrev pub Attempt : Type 0 → Type 0 → Type 0
Attempt A E = Result (CompositeError E) (Option A)

module _ {A E : Type 0} where
  -- What a strategy returned, as an attempt.
  abbrev pub attempted : Result E A → Attempt A E
  attempted (ok res) = ok (some res)
  attempted (err e) = err (rule_failed e)

  -- The second part is tried if the first did not match.
  abbrev pub unless_matched : Attempt A E → Attempt A E → Attempt A E
  unless_matched (err e) later = err e
  unless_matched (ok (some res)) later = ok (some res)
  unless_matched (ok none) later = later

module _ {C A E : Type 0} where
  abbrev pub applied : C → Option (C → Result E A) → Attempt A E
  applied c none = err nil_rule
  applied c (some strategy) = attempted (strategy c)

  -- `rule.Matcher(conflict)`, without a test for nil.
  abbrev pub try_rule : C → Option (C → Bool) → Option (C → Result E A) → Attempt A E
  try_rule c none strategy = err nil_rule
  try_rule c (some matches) strategy = if matches c then applied c strategy else ok none

  -- The loop of `ResolveInGroup` over the rules.
  unfoldable pub resolve_in_rules : C → List (Rule C A E) → Attempt A E
  resolve_in_rules c [] = ok none
  resolve_in_rules c (rule ∷ rest) =
      unless_matched (try_rule c rule.matcher rule.strategy) (resolve_in_rules c rest)

  abbrev pub try_fallback : C → Option (C → Result E A) → Attempt A E
  try_fallback c none = ok none
  try_fallback c (some strategy) = attempted (strategy c)

-- `ResolveInGroup`, and its loop over the subgroups.
unfoldable mutual
  pub resolve_in_group : {C A E : Type 0} → C → RuleGroup C A E → Attempt A E
  resolve_in_group c (rule_group name description rules subs enabled fallback) =
      let nested = resolve_in_sub_groups c subs in
      if enabled
      then unless_matched (resolve_in_rules c rules)
          (unless_matched nested (try_fallback c fallback))
      else ok none

  pub resolve_in_sub_groups : {C A E : Type 0} → C → SubGroups C A E → Attempt A E
  resolve_in_sub_groups c no_more = ok none
  resolve_in_sub_groups c (sub_group g rest) =
      unless_matched (resolve_in_group c g) (resolve_in_sub_groups c rest)

-- `CompositeResolver`, without its logger.
pub record CompositeResolver (C A E : Type 0) : Type 0 where
  pub groups : SubGroups C A E
  pub fallback : Option (C → Result E A)

abbrev pub new_composite_resolver :
    {C A E : Type 0} → Option (C → Result E A) → CompositeResolver C A E
new_composite_resolver fallback = record { groups = no_more; fallback = fallback }

abbrev pub add_group :
    {C A E : Type 0} → RuleGroup C A E → CompositeResolver C A E → CompositeResolver C A E
add_group g r = record r { groups = append_sub_group r.groups g }

abbrev pub last_resort :
    {C A E : Type 0} → C → Option (C → Result E A) → Result (CompositeError E) A
last_resort c none = err no_group_matched
last_resort c (some strategy) = elim (strategy c) [ ok res ↦ ok res | err e ↦ err (rule_failed e) ]

abbrev pub or_last_resort :
    {C A E : Type 0} → C → Option (C → Result E A) → Attempt A E → Result (CompositeError E) A
or_last_resort c fallback (err e) = err e
or_last_resort c fallback (ok (some res)) = ok res
or_last_resort c fallback (ok none) = last_resort c fallback

-- `Resolve`; its loop over the groups is that over subgroups.
unfoldable pub resolve :
    {C A E : Type 0} → CompositeResolver C A E → C → Result (CompositeError E) A
unfolding resolve_in_sub_groups
resolve r c = or_last_resort c r.fallback (resolve_in_sub_groups c r.groups)

-- `RuleGroupStats`, and its list of those of the subgroups.
mutual
  pub data RuleGroupStats : Type 0 where
    group_stats : String → Bool → ℕ → ℕ → ℕ → SubStats → RuleGroupStats

  pub data SubStats : Type 0 where
    end_of_stats : SubStats
    sub_stats : RuleGroupStats → SubStats → SubStats

abbrev pub sub_group_count : {C A E : Type 0} → SubGroups C A E → ℕ
sub_group_count no_more = 0
sub_group_count (sub_group g rest) = sub_group_count rest + 1

-- `GetStats`, of a group and of a list of groups.
unfoldable mutual
  unfolding get_all_rules

  pub get_stats : {C A E : Type 0} → RuleGroup C A E → RuleGroupStats
  get_stats (rule_group name description rules subs enabled fallback) =
      group_stats name enabled (length rules) (sub_group_count subs)
        (length (get_all_rules (rule_group name description rules subs enabled fallback)))
        (get_sub_stats subs)

  pub get_sub_stats : {C A E : Type 0} → SubGroups C A E → SubStats
  get_sub_stats no_more = end_of_stats
  get_sub_stats (sub_group g rest) = sub_stats (get_stats g) (get_sub_stats rest)
