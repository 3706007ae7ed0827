-- ===== src/Clock/Equality.antt =====
-- version/vector_clock.go, `IsEqual` and `IsConcurrentWith`.
use go_sync_kit.Base.{
  ℕ, ◌<◌, ◌≢◌, String, some, [], ◌∷◌, true, false, ◌≡◌, refl, arith, eq_iff, ◌↔◌, Bool-cases, inl,
  inr, sym, not, ◌&&◌,
}
use go_sync_kit.Base.Int.{is_zero}
use go_sync_kit.Base.Dict.{
  Dict, lookup, insert, is_some, HasDistinctKeys, KeysWithin, KeysWithin-converse,
  length_le_of_KeysWithin,
}
use go_sync_kit.Types.{VectorClock, clock}
use go_sync_kit.Clock.{
  or_zero, get_clock, size, same_values, is_equal, compare_clocks, all_nodes, mark_nodes, scan,
  verdict, compare, is_concurrent_with,
}
use go_sync_kit.Clock.Causality.{
  Within, LagsSomewhere, Causal, before, after, equal, concurrent, Causal-compare, lag_refutes,
}

-- A clock with one entry for each node, no entry of which is 0.
pub record IsPositive (vc : VectorClock) : Type 0 where
  pub distinct : HasDistinctKeys vc.clocks
  pub positive : (k : String) → is_some (lookup k vc.clocks) ≡ true → 0 < get_clock vc k

-- The loop of `IsEqual` passes exactly if each entry has the same value in the other clock.
same_values_sound :
    (m : Dict ℕ) (b : VectorClock) (k : String)
    → same_values m b ≡ true
    → is_some (lookup k m) ≡ true
    → or_zero (lookup k m) ≡ get_clock b k
unfolding same_values lookup
same_values_sound [] b k h s = ground arith
same_values_sound ((j, v) ∷ m) b k h s = ground (arith, same_values_sound m b k, eq_iff j k)

same_values_complete :
    (m : Dict ℕ) (b : VectorClock)
    → HasDistinctKeys m
    → ((k : String) → is_some (lookup k m) ≡ true → or_zero (lookup k m) ≡ get_clock b k)
    → same_values m b ≡ true
unfolding same_values
same_values_complete [] b d h = refl
same_values_complete ((j, v) ∷ m) b d h = ground (
  arith,
  h j (unfold lookup in ground (arith, eq_iff j j)),
  here,
  same_values_complete m b d.1 rest,
)
  where
    here : or_zero (lookup {V = ℕ} j ((j, v) ∷ m)) ≡ v
    here = unfold lookup in ground (arith, eq_iff j j)

    rest : (k : String) → is_some (lookup k m) ≡ true → or_zero (lookup k m) ≡ get_clock b k
    rest k s = let all = h k in unfold lookup in ground (arith, all, eq_iff j k, d.0)

abbrev pub Same : VectorClock → VectorClock → Type 0
Same a b = (k : String) → get_clock a k ≡ get_clock b k

absent_is_zero :
    (a : VectorClock) (k : String) → is_some (lookup k a.clocks) ≡ false → get_clock a k ≡ 0
unfolding get_clock
absent_is_zero a k h = ground arith

is_equal_parts :
    (a b : VectorClock)
    → is_equal a (some b) ≡ true
    → (size a ≡ size b)
      × ((k : String) → is_some (lookup k a.clocks) ≡ true → get_clock a k ≡ get_clock b k)
unfolding is_equal
is_equal_parts a b h =
    (ground arith, λ k s. unfold get_clock in same_values_sound a.clocks b k (ground arith) s)

-- A node with a positive value in a clock is one of the clock's entries.
positive_is_entry :
    (b : VectorClock) (k : String) → 0 < get_clock b k → is_some (lookup k b.clocks) ≡ true
unfolding get_clock
positive_is_entry b k h = ground arith

is_equal_sound :
    (a b : VectorClock)
    → IsPositive a
    → HasDistinctKeys b.clocks
    → is_equal a (some b) ≡ true
    → Same a b
is_equal_sound a b pa db h k =
    let (sizes, entries) = is_equal_parts a b h in
    let inside : KeysWithin a.clocks b.clocks =
      λ j s. positive_is_entry b j (ground (arith, entries j s, pa.positive j s)) in
    let back = KeysWithin-converse a.clocks b.clocks pa.distinct db sizes inside k in
    elim (Bool-cases (is_some (lookup k a.clocks))) [
      | inl s ↦ entries k s
      | inr out ↦ ground (arith, back, absent_is_zero a k out, absent_is_zero b k)
    ]

Same-KeysWithin : (a b : VectorClock) → IsPositive a → Same a b → KeysWithin a.clocks b.clocks
Same-KeysWithin a b pa same k s = positive_is_entry b k (omega (arith, pa.positive k s, same k))

is_equal_complete :
    (a b : VectorClock) → IsPositive a → IsPositive b → Same a b → is_equal a (some b) ≡ true
unfolding is_equal
is_equal_complete a b pa pb same = ground (
  arith,
  length_le_of_KeysWithin a.clocks b.clocks pa.distinct pb.distinct (Same-KeysWithin a b pa same),
  length_le_of_KeysWithin b.clocks a.clocks pb.distinct pa.distinct
      (Same-KeysWithin b a pb (λ k. sym (same k))),
  same_values_complete a.clocks b pa.distinct (λ k s. unfold get_clock in same k),
)

-- For clocks without zero entries, `IsEqual` holds exactly if the clocks agree at every node.
pub is_equal_iff :
    (a b : VectorClock) → IsPositive a → IsPositive b → (is_equal a (some b) ≡ true) ↔ Same a b
is_equal_iff a b pa pb = (is_equal_sound a b pa pb.distinct, is_equal_complete a b pa pb)

-- For clocks without zero entries, `IsConcurrentWith` holds exactly if each clock has seen
-- something that the other has not.
pub is_concurrent_with_iff :
    (a b : VectorClock)
    → IsPositive a
    → IsPositive b
    → (is_concurrent_with a (some b) ≡ true) ↔ (LagsSomewhere a b × LagsSomewhere b a)
unfolding is_concurrent_with
is_concurrent_with_iff a b pa pb =
    (λ h. split (Causal-compare a b) h, λ h. join (Causal-compare a b) h)
  where
    same : Within a b → Within b a → is_equal a (some b) ≡ true
    same w v = is_equal_complete a b pa pb (λ k. let p = w k in let q = v k in omega arith)

    split :
        Causal a b (compare a (some (clock (some b))))
        → (is_zero (compare a (some (clock (some b)))) && not (is_equal a (some b))) ≡ true
        → LagsSomewhere a b × LagsSomewhere b a
    split (before e w l) h = absurd (ground arith)
    split (after e w l) h = absurd (ground arith)
    split (equal e w v) h = absurd (ground (arith, same w v))
    split (concurrent e l m) h = (l, m)

    join :
        Causal a b (compare a (some (clock (some b))))
        → LagsSomewhere a b × LagsSomewhere b a
        → (is_zero (compare a (some (clock (some b)))) && not (is_equal a (some b))) ≡ true
    join (before e w l) h = absurd (lag_refutes a b w h.1)
    join (after e w l) h = absurd (lag_refutes b a w h.0)
    join (equal e w v) h = absurd (lag_refutes a b w h.1)
    join (concurrent e l m) h = elim (Bool-cases (is_equal a (some b))) [
      | inl q ↦
          absurd (lag_refutes b a (λ k. omega (arith, is_equal_sound a b pa pb.distinct q k)) l)
      | inr r ↦ ground arith
    ]

-- With zero entries `IsEqual` and `Compare` part ways: two clocks over different nodes pass as
-- equal, and a clock with a zero entry is "concurrent" with the empty clock.
pub zero_entries_confuse :
    (k j : String)
    → k ≢ j
    → (is_equal (record { clocks = (k, 0) ∷ [] }) (some (record { clocks = (j, 0) ∷ [] })) ≡ true)
      × (is_concurrent_with (record { clocks = (k, 0) ∷ [] }) (some (record { clocks = [] }))
          ≡ true)
unfolding is_equal is_concurrent_with same_values get_clock lookup compare compare_clocks all_nodes
    mark_nodes scan verdict insert
zero_entries_confuse k j h = (ground (arith, eq_iff j k), ground (arith, eq_iff k k))
