-- ===== src/Composite/Names.antt =====
-- synckit/composite.go, `AddRule` and `AddSubGroup`: the names of rules in nested groups.
use Prim.Native.String.{◌++◌ as str_append, len, slice}
use text.Mathlib.Text.{starts_with}
use text.Mathlib.TextLemmas.{append_assoc as str_append_assoc}
use text.Mathlib.TextPositions.{starts_with-append, slice-append_right, len-append}
use go_sync_kit.Base.{
  ◌+◌, ◌<◌, String, Option, List, [], ◌∷◌, ◌++◌, true, false, ltb, ◌&&◌, if◌then◌else◌, map,
  append_assoc, append-nil, str_eq, ◌≡◌, refl, sym, ap, ◌∙◌, arith, lt→ltb, len-positive,
  len-positive_nonempty, if_eq_false,
}
use mathlib.Core.List.{map-append}
use go_sync_kit.Types.{Result}
use go_sync_kit.Resolver.{Rule}
use go_sync_kit.Composite.{
  RuleGroup, rule_group, SubGroups, no_more, sub_group, dotted, strip_group, namespaced, renamed,
  append_sub_group, add_rule, add_sub_group, get_all_rules, sub_rules,
}

-- Taking the group's name off a name that starts with it.
strip_group-dotted :
    (group name : String) → 0 < len name → strip_group group (dotted group name) ≡ name
unfolding strip_group
strip_group-dotted group name some_text =
    ap (λ b. if b then slice full (len prefix) (len full) else full) is_prefix
    ∙ ap (λ n. slice full (len prefix) n) (ap len split ∙ len-append prefix name)
    ∙ ap (λ s. slice s (len prefix) (len prefix + len name)) split
    ∙ slice-append_right prefix name
  where
    prefix : String
    prefix = str_append group "."

    full : String
    full = dotted group name

    split : full ≡ str_append prefix name
    split = sym (str_append_assoc group "." name)

    longer : len prefix < len full
    longer = omega (arith, some_text, ap len split, len-append prefix name)

    starts : starts_with full prefix ≡ true
    starts = ap (λ s. starts_with s prefix) split ∙ starts_with-append prefix name

    is_prefix : (ltb (len prefix) (len full) && starts_with full prefix) ≡ true
    is_prefix = rw (lt→ltb _ _ longer, starts) refl

module _ {C A E : Type 0} where
  sub_rules-append :
      (gs : SubGroups C A E) (g : RuleGroup C A E)
      → sub_rules (append_sub_group gs g) ≡ sub_rules gs ++ get_all_rules g
  unfolding sub_rules
  sub_rules-append no_more g = append-nil (get_all_rules g)
  sub_rules-append (sub_group first rest) g =
      ap (λ l. get_all_rules first ++ l) (sub_rules-append rest g)
      ∙ sym (append_assoc (get_all_rules first) (sub_rules rest) (get_all_rules g))

  -- A rule added to a group and renamed with it has the full namespace.
  renamed-namespaced :
      (outer group : String) (rule : Rule C A E)
      → str_eq rule.name "" ≡ false
      → renamed group (dotted outer group) (namespaced group rule)
        ≡ record rule { name = dotted (dotted outer group) rule.name }
  renamed-namespaced outer group rule named =
      ap (renamed group (dotted outer group)) (if_eq_false _ _ named)
      ∙ if_eq_false _ _ (len-positive_nonempty (dotted group rule.name) long)
      ∙ ap (λ n. record rule { name = dotted (dotted outer group) n })
          (strip_group-dotted group rule.name some_text)
    where
      some_text : 0 < len rule.name
      some_text = len-positive rule.name named

      long : 0 < len (dotted group rule.name)
      long =
          omega (
            arith,
            some_text,
            len-append group (str_append "." rule.name),
            len-append "." rule.name,
          )

  -- Adding a group with a new, named rule to an enabled group: the outer group's rules come first, then
  -- the old rules of the added group under their new names, then the new rule, whose name is that of
  -- the outer group, that of the added one and its own, with dots between.
  pub add_sub_group-add_rule :
      (outer group description description' : String) (rules rules' : List (Rule C A E))
      (rule : Rule C A E) (subs : SubGroups C A E) (fallback fallback' : Option (C → Result E A))
      → str_eq rule.name "" ≡ false
      → get_all_rules (
          add_sub_group
            (add_rule rule (rule_group group description rules no_more true fallback))
            (rule_group outer description' rules' subs true fallback'))
        ≡ get_all_rules (rule_group outer description' rules' subs true fallback')
          ++ (map (renamed group (dotted outer group)) rules
              ++ record rule { name = dotted (dotted outer group) rule.name } ∷ [])
  unfolding get_all_rules add_rule add_sub_group
  add_sub_group-add_rule outer group description description' rules rules' rule subs fallback
        fallback' named =
      ap (λ l. rules' ++ l) (sub_rules-append subs added)
      ∙ sym (append_assoc rules' (sub_rules subs) (get_all_rules added))
      ∙ ap (λ l. (rules' ++ sub_rules subs) ++ l)
          (append-nil (map rename (rules ++ namespaced group rule ∷ []))
            ∙ map-append rename rules (namespaced group rule ∷ [])
            ∙ ap (λ r. map rename rules ++ r ∷ []) (renamed-namespaced outer group rule named))
    where
      rename : Rule C A E → Rule C A E
      rename = renamed group (dotted outer group)

      added : RuleGroup C A E
      added =
          rule_group (dotted outer group) description
            (map rename (rules ++ namespaced group rule ∷ [])) no_more true fallback
