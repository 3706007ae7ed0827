-- ===== src/Clock/Lookup.antt =====
-- version/vector_clock.go: what a copied or merged clock holds for each node.
use go_sync_kit.Base.{ℕ, String, [], ◌∷◌, ◌≡◌, refl, arith, if◌then◌else◌, eq_iff}
use Prim.Native.Nat.{max}
use go_sync_kit.Base.Dict.{Dict, lookup, insert, is_some, lookup-insert, HasDistinctKeys}
use go_sync_kit.Types.{VectorClock}
use go_sync_kit.Clock.{or_zero, copy_into, clone, get_clock, merge_entries, takes_over}

-- The values of `Clone` and `GetAllClocks`: an entry of the source wins over what is there.
pub lookup-copy_into :
    (m acc : Dict ℕ) (k : String)
    → HasDistinctKeys m
    → lookup k (copy_into m acc) ≡ (if is_some (lookup k m) then lookup k m else lookup k acc)
unfolding copy_into lookup
lookup-copy_into [] acc k h = refl
lookup-copy_into ((j, v) ∷ m) acc k h =
    ground (arith, lookup-copy_into m (insert j v acc) k, lookup-insert j k v acc, eq_iff j k)

pub get_clock-clone :
    (vc : VectorClock) (k : String)
    → HasDistinctKeys vc.clocks
    → get_clock (clone vc) k ≡ get_clock vc k
unfolding get_clock clone lookup
get_clock-clone vc k h = ground (arith, lookup-copy_into vc.clocks [] k)

-- The second loop of `Merge` leaves the greater of the two values at each node.
pub lookup-merge_entries :
    (other mine : Dict ℕ) (k : String)
    → HasDistinctKeys other
    → or_zero (lookup k (merge_entries other mine))
      ≡ max (or_zero (lookup k mine)) (or_zero (lookup k other))
unfolding merge_entries lookup
lookup-merge_entries [] mine k h = omega arith
lookup-merge_entries ((j, v) ∷ other) mine k h = ground (
  arith,
  lookup-merge_entries other (if takes_over (lookup j mine) v then insert j v mine else mine) k,
  lookup-insert j k v mine,
  eq_iff j k,
  h.0,
)
