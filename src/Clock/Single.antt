-- ===== src/Clock/Single.antt =====
-- version/vector_clock.go, `Merge` of a clock with one entry.
use Prim.Native.String.{len}
use go_sync_kit.Base.{ℕ, ◌≤◌, ◌<◌, ◌⊎◌, String, none, some, [], ◌∷◌, true, ◌≡◌, arith, eq_iff}
use go_sync_kit.Base.Dict.{lookup, is_some, length-insert, lookup-insert}
use go_sync_kit.Types.{VectorClock}
use go_sync_kit.Clock.{
  get_clock, size, max_nodes, max_node_id_length, merge, merge_counted, merge_entries, count_new,
}

-- Merging a value for a node that is known, or for which there is room, succeeds; then the node is
-- known, and there are not too many.
pub merge_placed :
    (a : VectorClock) (k : String) (v : ℕ)
    → len k ≤ max_node_id_length
    → (is_some (lookup k a.clocks) ≡ true) ⊎ (size a < max_nodes)
    → size a ≤ max_nodes
    → ((merge a (some (record { clocks = (k, v) ∷ [] }))).1 ≡ none)
      × (is_some (lookup k (merge a (some (record { clocks = (k, v) ∷ [] }))).0.clocks) ≡ true)
      × (size (merge a (some (record { clocks = (k, v) ∷ [] }))).0 ≤ max_nodes)
unfolding merge merge_counted merge_entries count_new
merge_placed a k v short placed bounded =
    ground (arith, length-insert k v a.clocks, lookup-insert k k v a.clocks, eq_iff k k)

pub get_clock-single : (k : String) (v : ℕ) → get_clock (record { clocks = (k, v) ∷ [] }) k ≡ v
unfolding get_clock lookup
get_clock-single k v = ground (arith, eq_iff k k)
