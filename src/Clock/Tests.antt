-- ===== src/Clock/Tests.antt =====
-- version/vector_clock.go: examples.
use Prim.Native.String.{len}
use go_sync_kit.Base.{
  ℕ, ◌+◌, ◌^◌, ◌<◌, ◌≤◌, ◌⊎◌, Bool-cases, subst, String, none, some, [], ◌∷◌, true, false, ◌≡◌, ◌↔◌,
  ◌≢◌, refl, arith, eq_iff, str_eq, inl, inr,
}
use go_sync_kit.Base.Int.{minus_one}
use go_sync_kit.Base.Dict.{lookup, insert, is_some}
use go_sync_kit.Types.{VectorClock, clock}
use go_sync_kit.Clock.{
  get_clock, max_node_id_length, increment, compare, compare_clocks, scan, all_nodes, mark_nodes,
  count_new, merge_entries, merge,
}
use go_sync_kit.Clock.Causality.{Within, Causal, Causal-compare}
use go_sync_kit.Clock.Merge.{IsValid, merge_join}
use go_sync_kit.Clock.Equality.{IsPositive}

abbrev one_two : VectorClock
one_two = record { clocks = ("a", 1) ∷ ("b", 2) ∷ [] }

abbrev two_one : VectorClock
two_one = record { clocks = ("a", 2) ∷ ("b", 1) ∷ [] }

abbrev two_two : VectorClock
two_two = record { clocks = ("a", 2) ∷ ("b", 2) ∷ [] }

abbrev three_three : VectorClock
three_three = record { clocks = ("a", 3) ∷ ("b", 3) ∷ [] }

two_entries_IsValid : (m n : ℕ) → IsValid (record { clocks = ("a", m) ∷ ("b", n) ∷ [] })
two_entries_IsValid m n = record {
  distinct = unfold lookup in (refl, (refl, tt));
  bounded = omega arith;
  short_ids = λ k s. short k s (Bool-cases (str_eq "a" k));
}
  where
    is_b :
        (k : String)
        → str_eq "a" k ≡ false
        → is_some (lookup {V = ℕ} k (("a", m) ∷ ("b", n) ∷ [])) ≡ true
        → str_eq "b" k ≡ true
    is_b k other s = unfold lookup in ground arith

    short :
        (k : String)
        → is_some (lookup {V = ℕ} k (("a", m) ∷ ("b", n) ∷ [])) ≡ true
        → (str_eq "a" k ≡ true) ⊎ (str_eq "a" k ≡ false)
        → len k ≤ max_node_id_length
    short k s (inl e) = subst (λ j. len j ≤ max_node_id_length) ((eq_iff "a" k).0 e) (omega arith)
    short k s (inr other) =
        subst (λ j. len j ≤ max_node_id_length) ((eq_iff "b" k).0 (is_b k other s)) (omega arith)

two_entries_IsPositive :
    (m n : ℕ) → 0 < m → 0 < n → IsPositive (record { clocks = ("a", m) ∷ ("b", n) ∷ [] })
two_entries_IsPositive m n p q = record {
  distinct = unfold lookup in (refl, (refl, tt));
  positive = λ k s. unfold get_clock lookup in ground (arith, p, q);
}

compare_one_two : compare one_two (some (clock (some two_two))) ≡ minus_one
unfolding compare compare_clocks scan all_nodes mark_nodes insert get_clock lookup
compare_one_two = refl

compare_two_three : compare two_two (some (clock (some three_three))) ≡ minus_one
unfolding compare compare_clocks scan all_nodes mark_nodes insert get_clock lookup
compare_two_three = refl

merged : (merge one_two (some two_one)).1 ≡ none
unfolding merge count_new lookup
merged = refl

merged_clock : (merge one_two (some two_one)).0 ≡ two_two
unfolding merge count_new merge_entries insert lookup
merged_clock = refl

Causal-compare_example : Causal one_two two_one (compare one_two (some (clock (some two_one))))
Causal-compare_example = Causal-compare one_two two_one

merge_join_example :
    Within (merge one_two (some two_one)).0 three_three
    ↔ (Within one_two three_three × Within two_one three_three)
merge_join_example =
    merge_join one_two two_one three_three (two_entries_IsValid 2 1).distinct merged

incremented : (increment one_two "a").1 ≡ none
unfolding increment lookup
incremented = refl

small : get_clock one_two "a" + 1 < 2 ^ 64
unfolding get_clock lookup
small = omega arith

a_is_not_b : ◌≢◌ {A = String} "a" "b"
a_is_not_b e = absurd (ground (arith, (eq_iff "a" "b").1 e))
