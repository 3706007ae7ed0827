-- ===== src/Clock/Merge.antt =====
-- version/vector_clock.go, `Merge`: the join of two clocks, its limits, and its errors.
use Prim.Native.String.{len}
use Prim.Native.Nat.{max}
use go_sync_kit.Base.{
  ℕ, ◌+◌, ◌≤◌, String, Option, none, some, [], ◌∷◌, true, false, ◌≡◌, refl, arith, ltb,
  if◌then◌else◌, length, eq_iff, Option-cases, Bool-cases, keep, not, ◌↔◌, eq_refl, inl, inr,
  ltb→le,
}
use go_sync_kit.Base.Dict.{
  Dict, lookup, insert, is_some, lookup-insert, length-insert, HasDistinctKeys,
  insert-HasDistinctKeys,
}
use go_sync_kit.Types.{VectorClock}
use go_sync_kit.Clock.{
  ClockError, get_clock, size, max_nodes, max_node_id_length, count_new, takes_over, merge_entries,
  merge,
}
use go_sync_kit.Clock.Lookup.{lookup-merge_entries}
use go_sync_kit.Clock.Causality.{Within}

-- What a clock that the package builds satisfies: one entry for each node, at most `MaxNodes` of
-- them, and no node ID longer than `MaxNodeIDLength`.
pub record IsValid (vc : VectorClock) : Type 0 where
  pub distinct : HasDistinctKeys vc.clocks
  pub bounded : size vc ≤ max_nodes
  pub short_ids : (k : String) → is_some (lookup k vc.clocks) ≡ true → len k ≤ max_node_id_length

-- A merge that succeeds holds at each node the greater of the two values.
pub get_clock-merge :
    (a b : VectorClock) (k : String)
    → HasDistinctKeys b.clocks
    → (merge a (some b)).1 ≡ none
    → get_clock (merge a (some b)).0 k ≡ max (get_clock a k) (get_clock b k)
unfolding merge get_clock
get_clock-merge a b k d h = ground (arith, lookup-merge_entries b.clocks a.clocks k)

-- A merge that fails leaves the clock as it was.
pub merge_error_unchanged :
    (a : VectorClock) (b : Option VectorClock) {e : ClockError}
    → (merge a b).1 ≡ some e
    → (merge a b).0 ≡ a
unfolding merge
merge_error_unchanged a none h = refl
merge_error_unchanged a (some b) h = ground arith

-- A new node does not change what is new among the others.
count_new-insert :
    (mine rest : Dict ℕ) (k : String) (v : ℕ)
    → lookup k rest ≡ none
    → count_new (insert k v mine) rest ≡ count_new mine rest
unfolding count_new lookup
count_new-insert mine [] k v h = refl
count_new-insert mine ((j, w) ∷ rest) k v h =
    ground (arith, count_new-insert mine rest k v, lookup-insert k j v mine, eq_iff k j, eq_iff j k)

count_new-cons :
    (mine rest : Dict ℕ) (k : String) (v n : ℕ)
    → count_new mine ((k, v) ∷ rest) ≡ some n
    → (m : ℕ) × (count_new mine rest ≡ some m)
      × (len k ≤ max_node_id_length)
      × (n ≡ (if is_some (lookup k mine) then m else m + 1))
unfolding count_new
count_new-cons mine rest k v n h = elim (Option-cases (count_new mine rest)) [
  | inl e ↦ absurd (ground arith)
  | inr (m, e) ↦ (m, e, ground arith, ground arith)
]

length-merge_entries :
    (other mine : Dict ℕ) (n : ℕ)
    → HasDistinctKeys other
    → count_new mine other ≡ some n
    → length (merge_entries other mine) ≡ length mine + n
unfolding merge_entries count_new
length-merge_entries [] mine n d h = ground arith
length-merge_entries ((k, v) ∷ rest) mine n d h =
    let (m, e, short, count) = count_new-cons mine rest k v n h in
    let mine' = if takes_over (lookup k mine) v then insert k v mine else mine in
    ground (
      arith,
      length-merge_entries rest mine' m,
      count_new-insert mine rest k v,
      length-insert k v mine,
    )

merge_entries-HasDistinctKeys :
    (other mine : Dict ℕ) → HasDistinctKeys mine → HasDistinctKeys (merge_entries other mine)
unfolding merge_entries
merge_entries-HasDistinctKeys [] mine h = h
merge_entries-HasDistinctKeys ((k, v) ∷ rest) mine h =
    merge_entries-HasDistinctKeys rest
      (if takes_over (lookup k mine) v then insert k v mine else mine)
      (ground (arith, insert-HasDistinctKeys k v mine))

-- A node of the merged table stands in one of the two.
is_some-merge_entries :
    (other mine : Dict ℕ) (k : String)
    → is_some (lookup k (merge_entries other mine)) ≡ true
    → (is_some (lookup k mine) ≡ false)
    → is_some (lookup k other) ≡ true
unfolding merge_entries lookup
is_some-merge_entries [] mine k h m = ground arith
is_some-merge_entries ((j, v) ∷ rest) mine k h m = ground (
  arith,
  is_some-merge_entries rest (if takes_over (lookup j mine) v then insert j v mine else mine) k h,
  lookup-insert j k v mine,
  eq_iff j k,
)

-- The first loop passes only if every ID of the other clock is short enough.
count_new_short :
    (mine other : Dict ℕ) (n : ℕ) (k : String)
    → count_new mine other ≡ some n
    → is_some (lookup k other) ≡ true
    → len k ≤ max_node_id_length
unfolding count_new lookup
count_new_short mine [] n k h m = ground arith
count_new_short mine ((j, v) ∷ rest) n k h m =
    let (n', e, short, count) = count_new-cons mine rest j v n h in
    ground (arith, count_new_short mine rest n' k e, eq_iff j k)

-- A merge with a well-formed clock keeps the clock well-formed, whether or not it succeeds.
pub merge-IsValid : (a b : VectorClock) → IsValid a → IsValid b → IsValid (merge a (some b)).0
unfolding merge
merge-IsValid a b va vb = elim (Option-cases (count_new a.clocks b.clocks)) [
  | inl e ↦ rw e va
  | inr (n, e) ↦ rw e (elim (Bool-cases (ltb max_nodes (size a + n))) [
    | inl full ↦ rw full va
    | inr fits ↦ rw fits (record {
      distinct = merge_entries-HasDistinctKeys b.clocks a.clocks va.distinct;
      bounded =
          omega (arith, length-merge_entries b.clocks a.clocks n vb.distinct e, ltb→le _ _ fits);
      short_ids = λ k h. short n e k h;
    })
  ])
]
  where
    short :
        (n : ℕ)
        → count_new a.clocks b.clocks ≡ some n
        → (k : String) → is_some (lookup k (merge_entries b.clocks a.clocks)) ≡ true
        → len k ≤ max_node_id_length
    short n e k h = elim (Bool-cases (is_some (lookup k a.clocks))) [
      | inl mine ↦ va.short_ids k mine
      | inr new ↦ vb.short_ids k (is_some-merge_entries b.clocks a.clocks k h new)
    ]

abbrev pub HasShortIds : VectorClock → Type 0
HasShortIds vc = (k : String) → is_some (lookup k vc.clocks) ≡ true → len k ≤ max_node_id_length

-- How many entries of the second table have a key that the first lacks.
abbrev pub fresh : Dict ℕ → Dict ℕ → ℕ
fresh mine other = length (keep (λ entry. not (is_some (lookup entry.0 mine))) other)

count_new-eq-fresh :
    (mine other : Dict ℕ)
    → ((k : String) → is_some (lookup k other) ≡ true → len k ≤ max_node_id_length)
    → count_new mine other ≡ some (fresh mine other)
unfolding count_new
count_new-eq-fresh mine [] short = refl
count_new-eq-fresh mine ((k, v) ∷ rest) short = ground (
  arith,
  short k (unfold lookup in ground (arith, eq_refl k)),
  count_new-eq-fresh mine rest (λ j h. short j (unfold lookup in ground arith)),
)

-- `Merge` succeeds exactly when every ID of the other clock is at most `MaxNodeIDLength` bytes
-- long and the receiver's nodes and the new ones are at most `MaxNodes`.
pub merge_ok_iff :
    (a b : VectorClock)
    → ((merge a (some b)).1 ≡ none)
      ↔ (HasShortIds b × (size a + fresh a.clocks b.clocks ≤ max_nodes))
unfolding merge
merge_ok_iff a b = (
  λ h. elim (Option-cases (count_new a.clocks b.clocks)) [
    | inl e ↦ absurd (ground arith)
    | inr (n, e) ↦
        let short : HasShortIds b = λ k. count_new_short a.clocks b.clocks n k e in
        (short, ground (arith, count_new-eq-fresh a.clocks b.clocks short))
  ],
  λ h. ground (arith, count_new-eq-fresh a.clocks b.clocks h.0),
)

-- A merge that succeeds is the join of the causal order: a clock holds all that it has observed
-- exactly if it holds all that both of the merged clocks had observed.
pub merge_join :
    (a b c : VectorClock)
    → HasDistinctKeys b.clocks
    → (merge a (some b)).1 ≡ none
    → Within (merge a (some b)).0 c ↔ (Within a c × Within b c)
merge_join a b c d h = (
  λ w. (
    λ k. omega (arith, get_clock-merge a b k d h, w k),
    λ k. omega (arith, get_clock-merge a b k d h, w k),
  ),
  λ (wa, wb) k. omega (arith, get_clock-merge a b k d h, wa k, wb k),
)
