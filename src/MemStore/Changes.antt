-- ===== src/MemStore/Changes.antt =====
-- storage/memstore/memstore.go: the stream index after any calls.
use go_sync_kit.Base.{Option, List, [], ◌∷◌, Bool, true, false, refl, if_both, sym, subst}
use go_sync_kit.Base.Dict.{lookup}
use go_sync_kit.Types.{Event, EventWithVersion, Version, StoreError}
use go_sync_kit.MemStore.{MemStore, new, store, append_batch, store_batch, close, append_in_batch}
use go_sync_kit.MemStore.Invariant.{
  IsIndexed, positions, append_event-IsIndexed, append_in_batch-eq, new-IsValid,
}

append_batch-IsIndexed :
    (evs : List EventWithVersion) (s : MemStore) → IsIndexed s → IsIndexed (append_batch evs s)
unfolding append_batch
append_batch-IsIndexed [] s indexed = indexed
append_batch-IsIndexed (ev ∷ rest) s indexed =
    append_batch-IsIndexed rest (append_in_batch ev.event s) (
      subst IsIndexed (sym (append_in_batch-eq ev.event s))
        (append_event-IsIndexed ev.event s indexed))

-- The calls that change a store.
pub data Change : Type 0 where
  to_store : Bool → Event → Version → Change
  to_store_batch : Bool → List EventWithVersion → Change
  to_close : Change

abbrev pub change : Change → MemStore → MemStore
change (to_store cancelled evt version) s = (store cancelled evt version s).0
change (to_store_batch cancelled evs) s = (store_batch cancelled evs s).0
change to_close s = close s

pub change_all : List Change → MemStore → MemStore
change_all [] s = s
change_all (c ∷ rest) s = change_all rest (change c s)

change-IsIndexed : (c : Change) (s : MemStore) → IsIndexed s → IsIndexed (change c s)
unfolding store store_batch close lookup positions
change-IsIndexed (to_store true evt version) s indexed = indexed
change-IsIndexed (to_store false evt version) s indexed =
    if_both {A = MemStore × Option StoreError} (λ r. IsIndexed r.0) s.closed indexed
      (append_event-IsIndexed evt s indexed)
change-IsIndexed (to_store_batch true evs) s indexed = indexed
change-IsIndexed (to_store_batch false []) s indexed = indexed
change-IsIndexed (to_store_batch false (ev ∷ rest)) s indexed =
    if_both {A = MemStore × Option StoreError} (λ r. IsIndexed r.0) s.closed indexed
      (append_batch-IsIndexed (ev ∷ rest) s indexed)
change-IsIndexed to_close s indexed =
    if_both {A = MemStore} (λ r. IsIndexed r) s.closed indexed (λ a. refl)

change_all-IsIndexed : (cs : List Change) (s : MemStore) → IsIndexed s → IsIndexed (change_all cs s)
unfolding change_all
change_all-IsIndexed [] s indexed = indexed
change_all-IsIndexed (c ∷ rest) s indexed =
    change_all-IsIndexed rest (change c s) (change-IsIndexed c s indexed)

-- After any calls on a new store, closed or not, the index of each stream lists its events.
pub reachable-IsIndexed : (cs : List Change) → IsIndexed (change_all cs new)
reachable-IsIndexed cs = change_all-IsIndexed cs new new-IsValid.indexed
