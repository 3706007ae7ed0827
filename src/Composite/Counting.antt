-- ===== src/Composite/Counting.antt =====
-- synckit/composite.go, `GetStats`: the counts of a group and of its subgroups.
use go_sync_kit.Base.{
  ℕ, ◌+◌, true, false, if◌then◌else◌, length, length-append, ◌≡◌, refl, ap, arith,
}
use go_sync_kit.Composite.{
  RuleGroup, rule_group, SubGroups, no_more, sub_group, get_all_rules, sub_rules, RuleGroupStats,
  group_stats, SubStats, end_of_stats, sub_stats, sub_group_count, get_stats, get_sub_stats,
}

abbrev total_rules : RuleGroupStats → ℕ
total_rules (group_stats name enabled rule_count subs total nested) = total

abbrev sum_of_totals : SubStats → ℕ
sum_of_totals end_of_stats = 0
sum_of_totals (sub_stats g rest) = total_rules g + sum_of_totals rest

abbrev listed : SubStats → ℕ
listed end_of_stats = 0
listed (sub_stats g rest) = listed rest + 1

-- At every level the subgroups are as many as are listed, and the total is that of the level's own
-- rules and of the subgroups' totals, or 0 where the group is disabled.
mutual
  pub AddsUp : RuleGroupStats → Type 0
  AddsUp (group_stats name enabled rule_count subs total nested) =
      (subs ≡ listed nested)
      × (total ≡ (if enabled then rule_count + sum_of_totals nested else 0))
      × AllAddUp nested

  pub AllAddUp : SubStats → Type 0
  AllAddUp end_of_stats = Unit
  AllAddUp (sub_stats g rest) = AddsUp g × AllAddUp rest

sub_group_count-listed :
    {C A E : Type 0} (gs : SubGroups C A E) → sub_group_count gs ≡ listed (get_sub_stats gs)
unfolding get_sub_stats
sub_group_count-listed no_more = refl
sub_group_count-listed (sub_group g rest) = ap (λ n. n + 1) (sub_group_count-listed rest)

total_rules-get_stats :
    {C A E : Type 0} (g : RuleGroup C A E) → total_rules (get_stats g) ≡ length (get_all_rules g)
unfolding get_stats
total_rules-get_stats (rule_group name description rules subs enabled fallback) = refl

length-sub_rules :
    {C A E : Type 0} (gs : SubGroups C A E)
    → length (sub_rules gs) ≡ sum_of_totals (get_sub_stats gs)
unfolding sub_rules get_sub_stats
length-sub_rules no_more = refl
length-sub_rules (sub_group g rest) = omega (
  arith,
  length-append (get_all_rules g) (sub_rules rest),
  total_rules-get_stats g,
  length-sub_rules rest,
)

mutual
  unfolding get_stats AddsUp get_all_rules

  stats_add_up : {C A E : Type 0} (g : RuleGroup C A E) → AddsUp (get_stats g)
  stats_add_up (rule_group name description rules subs true fallback) = (
    sub_group_count-listed subs,
    omega (arith, length-append rules (sub_rules subs), length-sub_rules subs),
    sub_stats_add_up subs,
  )
  stats_add_up (rule_group name description rules subs false fallback) =
      (sub_group_count-listed subs, refl, sub_stats_add_up subs)

  sub_stats_add_up : {C A E : Type 0} (gs : SubGroups C A E) → AllAddUp (get_sub_stats gs)
  sub_stats_add_up no_more = tt
  sub_stats_add_up (sub_group g rest) = (stats_add_up g, sub_stats_add_up rest)

-- The statistics of a group add up at every level.
pub get_stats-AddsUp : {C A E : Type 0} (g : RuleGroup C A E) → AddsUp (get_stats g)
get_stats-AddsUp g = stats_add_up g
