-- ===== src/Clock.antt =====
-- version/vector_clock.go: the operations of `VectorClock`. A method that mutates the receiver
-- returns the new clock; a method that may fail returns the error beside the clock it leaves.
pub mod Lookup
pub mod Compare
pub mod Causality
pub mod Merge
pub mod Single
pub mod Increment
pub mod Equality
mod Tests
use Prim.Native.String.{len}
use go_sync_kit.Base.{
  ℕ, zero, suc, ◌+◌, ◌%◌, ◌^◌, String, Option, none, some, List, [], ◌∷◌, Bool, true, false, not,
  ◌&&◌, ltb, ◌==◌, if◌then◌else◌, length, str_eq,
}
use go_sync_kit.Base.Int.{ℤ, pos, minus_one, is_zero, is_one, is_minus_one}
use go_sync_kit.Base.Dict.{Dict, lookup, insert, is_some}
use go_sync_kit.Types.{VectorClock, Version, integer, vector, clock}

abbrev pub max_node_id_length : ℕ
max_node_id_length = 255

abbrev pub max_nodes : ℕ
max_nodes = 1000

-- The messages of `VectorClockError`.
pub data ClockError : Type 0 where
  empty_node_id node_id_too_long too_many_nodes other_id_too_long merge_too_many : ClockError

abbrev pub or_zero : Option ℕ → ℕ
or_zero none = 0
or_zero (some n) = n

abbrev pub new_vector_clock : VectorClock
new_vector_clock = record { clocks = [] }

-- `make(map)` filled from another map, entry by entry.
pub copy_into : Dict ℕ → Dict ℕ → Dict ℕ
copy_into [] m = m
copy_into ((k, v) ∷ rest) m = copy_into rest (insert k v m)

pub from_map : Dict ℕ → VectorClock
unfolding copy_into
from_map m = record { clocks = copy_into m [] }

pub clone : VectorClock → VectorClock
unfolding copy_into
clone vc = record { clocks = copy_into vc.clocks [] }

-- `vc.clocks[nodeID]`: 0 where the node is not there.
pub get_clock : VectorClock → String → ℕ
get_clock vc node_id = or_zero (lookup node_id vc.clocks)

abbrev pub size : VectorClock → ℕ
size vc = length vc.clocks

abbrev pub clock_is_zero : VectorClock → Bool
clock_is_zero vc = length vc.clocks == 0

pub increment : VectorClock → String → VectorClock × Option ClockError
unfolding get_clock
increment vc node_id =
    if str_eq node_id ""
    then (vc, some empty_node_id)
    else if ltb max_node_id_length (len node_id)
    then (vc, some node_id_too_long)
    else if not (is_some (lookup node_id vc.clocks)) && not (ltb (size vc) max_nodes)
    then (vc, some too_many_nodes)
    else (record { clocks = insert node_id ((get_clock vc node_id + 1) % 2 ^ 64) vc.clocks }, none)

abbrev pub add_new : Bool → Option ℕ → Option ℕ
add_new known none = none
add_new true (some n) = some n
add_new false (some n) = some (n + 1)

-- The first loop of `Merge`: `none` when an ID is too long, else how many nodes are new.
pub count_new : Dict ℕ → Dict ℕ → Option ℕ
count_new mine [] = some 0
count_new mine ((k, v) ∷ rest) =
    let counted = count_new mine rest in
    if ltb max_node_id_length (len k) then none else add_new (is_some (lookup k mine)) counted

-- `!exists || otherClock > currentClock`.
abbrev pub takes_over : Option ℕ → ℕ → Bool
takes_over none v = true
takes_over (some current) v = ltb current v

-- The second loop of `Merge`.
pub merge_entries : Dict ℕ → Dict ℕ → Dict ℕ
merge_entries [] mine = mine
merge_entries ((k, v) ∷ rest) mine =
    merge_entries rest (if takes_over (lookup k mine) v then insert k v mine else mine)

pub merge_counted : VectorClock → VectorClock → Option ℕ → VectorClock × Option ClockError
merge_counted vc other none = (vc, some other_id_too_long)
merge_counted vc other (some new) =
    if ltb max_nodes (size vc + new)
    then (vc, some merge_too_many)
    else (record { clocks = merge_entries other.clocks vc.clocks }, none)

pub merge : VectorClock → Option VectorClock → VectorClock × Option ClockError
unfolding merge_counted
merge vc none = (vc, none)
merge vc (some other) = merge_counted vc other (count_new vc.clocks other.clocks)

-- `allNodes[nodeID] = true` for each key of a map.
pub mark_nodes : Dict ℕ → Dict Bool → Dict Bool
mark_nodes [] nodes = nodes
mark_nodes ((k, v) ∷ rest) nodes = mark_nodes rest (insert k true nodes)

pub all_nodes : VectorClock → VectorClock → Dict Bool
all_nodes vc other = mark_nodes other.clocks (mark_nodes vc.clocks [])

-- The loop of `Compare` over the nodes, with its two flags.
pub scan : VectorClock → VectorClock → Dict Bool → Bool → Bool → Bool × Bool
scan vc other [] this_before other_before = (this_before, other_before)
scan vc other ((k, _) ∷ rest) this_before other_before =
    let this_clock = get_clock vc k in
    let other_clock = get_clock other k in
    scan vc other rest (if ltb this_clock other_clock then true else this_before) (
      if ltb this_clock other_clock
      then other_before
      else if ltb other_clock this_clock
      then true
      else other_before)

pub verdict : Bool → Bool → ℤ
verdict this_before other_before =
    if this_before && not other_before
    then minus_one
    else if other_before && not this_before
    then pos 1
    else pos 0

pub compare_clocks : VectorClock → VectorClock → ℤ
unfolding verdict
compare_clocks vc other =
    let (this_before, other_before) = scan vc other (all_nodes vc other) false false in
    verdict this_before other_before

-- `Compare`: 0 against any other type of version, and against a nil interface.
pub compare : VectorClock → Option Version → ℤ
compare vc none = pos 0
compare vc (some (integer seq)) = pos 0
compare vc (some (vector counters)) = pos 0
compare vc (some (clock none)) = if clock_is_zero vc then pos 0 else pos 1
compare vc (some (clock (some other))) = compare_clocks vc other

abbrev pub of_clock : Option VectorClock → Option Version
of_clock other = some (clock other)

pub happened_before : VectorClock → Option VectorClock → Bool
happened_before vc other = is_minus_one (compare vc (of_clock other))

pub happened_after : VectorClock → Option VectorClock → Bool
happened_after vc other = is_one (compare vc (of_clock other))

-- The loop of `IsEqual` over the entries of the receiver.
pub same_values : Dict ℕ → VectorClock → Bool
same_values [] other = true
same_values ((k, v) ∷ rest) other =
    let later = same_values rest other in if get_clock other k == v then later else false

pub is_equal : VectorClock → Option VectorClock → Bool
is_equal vc none = clock_is_zero vc
is_equal vc (some other) = if size vc == size other then same_values vc.clocks other else false

pub is_concurrent_with : VectorClock → Option VectorClock → Bool
is_concurrent_with vc other = is_zero (compare vc (of_clock other)) && not (is_equal vc other)
