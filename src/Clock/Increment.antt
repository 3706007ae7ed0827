-- ===== src/Clock/Increment.antt =====
-- version/vector_clock.go, `Increment`: a tick of one node, its limits, and its errors.
use Prim.Native.String.{len}
use go_sync_kit.Base.{
  ℕ, ◌+◌, ◌≤◌, ◌<◌, ◌^◌, ◌%◌, String, none, some, true, ◌≡◌, ◌≢◌, arith, if◌then◌else◌, eq_iff, ◌↔◌,
  ◌⊎◌, inl, inr, Option-cases, str_eq,
}
use go_sync_kit.Base.Int.{minus_one}
use go_sync_kit.Base.Dict.{
  lookup, insert, is_some, lookup-insert, length-insert, insert-HasDistinctKeys,
}
use go_sync_kit.Types.{VectorClock, clock}
use go_sync_kit.Clock.{
  ClockError, get_clock, size, max_nodes, max_node_id_length, increment, compare,
}
use go_sync_kit.Clock.Causality.{Within, compare-minus_one_iff}
use go_sync_kit.Clock.Merge.{IsValid}

-- The conditions under which a node may be incremented.
pub record CanIncrement (vc : VectorClock) (k : String) : Type 0 where
  pub named : k ≢ ""
  pub short : len k ≤ max_node_id_length
  pub room : (is_some (lookup k vc.clocks) ≡ true) ⊎ (size vc < max_nodes)

-- `Increment` succeeds exactly when the ID is not empty and not too long, and the node is known
-- or there is room for one more.
pub increment_ok_iff :
    (vc : VectorClock) (k : String) → ((increment vc k).1 ≡ none) ↔ CanIncrement vc k
unfolding increment
increment_ok_iff vc k = (λ h. ground (arith, eq_iff k ""), λ c. ground (arith, eq_iff k ""))

-- An increment that fails leaves the clock as it was.
pub increment_error_unchanged :
    (vc : VectorClock) (k : String) {e : ClockError}
    → (increment vc k).1 ≡ some e
    → (increment vc k).0 ≡ vc
unfolding increment
increment_error_unchanged vc k h = ground arith

pub get_clock-insert :
    (k : String) (seq : ℕ) (before : VectorClock)
    → get_clock (record { clocks = insert "sequence" seq before.clocks }) k
      ≡ (if str_eq k "sequence" then seq else get_clock before k)
unfolding get_clock
get_clock-insert k seq before =
    ground (
      arith,
      lookup-insert "sequence" k seq before.clocks,
      eq_iff k "sequence",
      eq_iff "sequence" k,
    )

pub get_clock-increment :
    (vc : VectorClock) (k j : String)
    → (increment vc k).1 ≡ none
    → get_clock (increment vc k).0 j
      ≡ (if str_eq k j then (get_clock vc k + 1) % 2 ^ 64 else get_clock vc j)
unfolding increment get_clock
get_clock-increment vc k j h =
    ground (arith, lookup-insert k j ((get_clock vc k + 1) % 2 ^ 64) vc.clocks, eq_iff k j)

-- While the node's uint64 does not wrap, an increment that succeeds yields a clock that the old
-- one happened before.
pub compare-increment :
    (vc : VectorClock) (k : String)
    → get_clock vc k + 1 < 2 ^ 64
    → (increment vc k).1 ≡ none
    → compare vc (some (clock (some (increment vc k).0))) ≡ minus_one
compare-increment vc k small h =
    (compare-minus_one_iff vc (increment vc k).0).1 (within, (k, at_node))
  where
    within : Within vc (increment vc k).0
    within j = ground (arith, get_clock-increment vc k j h, eq_iff k j)

    at_node : get_clock vc k < get_clock (increment vc k).0 k
    at_node = ground (arith, get_clock-increment vc k k h, eq_iff k k)

clocks-increment :
    (vc : VectorClock) (k : String)
    → (increment vc k).1 ≡ none
    → (increment vc k).0.clocks ≡ insert k ((get_clock vc k + 1) % 2 ^ 64) vc.clocks
unfolding increment
clocks-increment vc k h = ground arith

increment_ok-IsValid :
    (vc : VectorClock) (k : String)
    → IsValid vc
    → (increment vc k).1 ≡ none
    → IsValid (increment vc k).0
increment_ok-IsValid vc k v h =
    let c : CanIncrement vc k = (increment_ok_iff vc k).0 h in
    let value = (get_clock vc k + 1) % 2 ^ 64 in
    let e = clocks-increment vc k h in
    record {
      distinct = rw e (insert-HasDistinctKeys k value vc.clocks v.distinct);
      bounded = rw e (ground (arith, length-insert k value vc.clocks, c.room, v.bounded));
      short_ids = λ j.
          rw e
            (ground (arith, lookup-insert k j value vc.clocks, eq_iff k j, c.short, v.short_ids j));
    }

-- An increment keeps a clock well-formed, whether or not it succeeds.
pub increment-IsValid : (vc : VectorClock) (k : String) → IsValid vc → IsValid (increment vc k).0
increment-IsValid vc k v = elim (Option-cases (increment vc k).1) [
  | inl fine ↦ increment_ok-IsValid vc k v fine
  | inr (e, failed) ↦ rw (increment_error_unchanged vc k failed) v
]
