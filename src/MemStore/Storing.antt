-- ===== src/MemStore/Storing.antt =====
-- storage/memstore/memstore.go: what `Store`, `StoreBatch` and `Close` do, as later calls see it.
use go_sync_kit.Base.{
  ℕ, ◌+◌, Bool, true, String, Option, none, some, List, [], ◌∷◌, ◌++◌, false, ◌≡◌, refl, arith, ap,
  length, ◌∙◌, Bool-cases, inl, inr, eq_iff,
}
use go_sync_kit.Base.Dict.{Dict, lookup, insert, lookup-insert, HasDistinctKeys}
use go_sync_kit.Types.{
  Event, EventWithVersion, Version, integer, StoreError, closed_error, Filter, err, Value, Payload,
  absent, bytes, formatted,
}
use go_sync_kit.MemStore.{
  MemStore, copy_event, append_event, append_batch, store, store_batch, load, load_by_aggregate,
  latest_version, close, copy_payload, copy_metadata, copy_entries,
}
use go_sync_kit.MemStore.Invariant.{IsValid, append_in_batch-eq}

pub store_open :
    (evt : Event) (version : Version) (s : MemStore)
    → s.closed ≡ false
    → store false evt version s ≡ (append_event evt s, none)
unfolding store
store_open evt version s h = ground arith

closed-append_event : (evt : Event) (s : MemStore) → (append_event evt s).closed ≡ s.closed
unfolding append_event
closed-append_event evt s = refl

-- The event that `Store` adds to an open store.
abbrev pub stored : Event → MemStore → EventWithVersion
stored evt s = record { event = copy_event evt; version = integer (length s.events + 1) }

pub events-append_event :
    (evt : Event) (s : MemStore)
    → IsValid s
    → (append_event evt s).events ≡ s.events ++ stored evt s ∷ []
unfolding append_event
events-append_event evt s v =
    ap (λ n. s.events ++ record { event = copy_event evt; version = integer n } ∷ []) v.counted

-- Of every key the value that the map of an event has, if any.
abbrev pub metadata_at : String → Option (Dict Value) → Option Value
metadata_at k none = none
metadata_at k (some m) = lookup k m

abbrev pub HasDistinctMetadata : Option (Dict Value) → Type 0
HasDistinctMetadata none = Unit
HasDistinctMetadata (some m) = HasDistinctKeys m

-- The bytes of the data, as they are or as they are written.
abbrev pub payload_bytes : Payload → List ℕ
payload_bytes absent = []
payload_bytes (bytes b) = b
payload_bytes (formatted b) = b

-- A copy has all that can be read of an event.
pub record IsCopy (evt copy : Event) : Type 0 where
  pub id : copy.id ≡ evt.id
  pub kind : copy.kind ≡ evt.kind
  pub aggregate : copy.aggregate_id ≡ evt.aggregate_id
  pub contents : payload_bytes copy.payload ≡ payload_bytes evt.payload
  pub metadata : (k : String) → metadata_at k copy.metadata ≡ metadata_at k evt.metadata

lookup-copy_entries :
    (k : String) (m acc : Dict Value)
    → HasDistinctKeys m
    → lookup k (copy_entries m acc) ≡ elim (lookup k m) [ none ↦ lookup k acc | some v ↦ some v ]
unfolding copy_entries lookup
lookup-copy_entries k [] acc distinct = refl
lookup-copy_entries k ((j, v) ∷ rest) acc distinct =
    lookup-copy_entries k rest (insert j v acc) distinct.1
    ∙ ground (arith, lookup-insert j k v acc, eq_iff j k, distinct.0)

payload_bytes-copy : (p : Payload) → payload_bytes (copy_payload p) ≡ payload_bytes p
payload_bytes-copy absent = refl
payload_bytes-copy (bytes b) = refl
payload_bytes-copy (formatted b) = refl

metadata_at-copy :
    (k : String) (m : Option (Dict Value))
    → HasDistinctMetadata m
    → metadata_at k (copy_metadata m) ≡ metadata_at k m
unfolding copy_metadata
metadata_at-copy k none distinct = unfold lookup in refl
metadata_at-copy k (some m) distinct =
    lookup-copy_entries k m [] distinct ∙ unfold lookup in ground arith

pub copy_event-IsCopy :
    (evt : Event) → HasDistinctMetadata evt.metadata → IsCopy evt (copy_event evt)
unfolding copy_event
copy_event-IsCopy evt distinct = record {
  id = refl;
  kind = refl;
  aggregate = refl;
  contents = payload_bytes-copy evt.payload;
  metadata = λ k. metadata_at-copy k evt.metadata distinct;
}

-- The next call, unless this one failed.
abbrev pub then_store :
    MemStore × Option StoreError
    → (MemStore → MemStore × Option StoreError)
    → MemStore × Option StoreError
then_store (s, none) next = next s
then_store (s, some e) next = (s, some e)

-- `Store` of one event after the other, up to the first error.
pub store_each : Bool → List EventWithVersion → MemStore → MemStore × Option StoreError
store_each cancelled [] s = (s, none)
store_each cancelled (ev ∷ rest) s =
    then_store (store cancelled ev.event ev.version s) (store_each cancelled rest)

append_batch-eq-store_each :
    (evs : List EventWithVersion) (s : MemStore)
    → s.closed ≡ false
    → store_each false evs s ≡ (append_batch evs s, none)
unfolding store_each append_batch
append_batch-eq-store_each [] s h = refl
append_batch-eq-store_each (ev ∷ rest) s h =
    rw (append_in_batch-eq ev.event s, store_open ev.event ev.version s h)
      (append_batch-eq-store_each rest (append_event ev.event s)
        (closed-append_event ev.event s ∙ h))

-- `StoreBatch` of at least one event has the effect and the result of storing the events one by one,
-- where the context is done from the start or not at all.
pub store_batch-eq-store_each :
    (cancelled : Bool) (ev : EventWithVersion) (rest : List EventWithVersion) (s : MemStore)
    → store_batch cancelled (ev ∷ rest) s ≡ store_each cancelled (ev ∷ rest) s
unfolding store_batch
store_batch-eq-store_each true ev rest s = unfold store_each store in refl
store_batch-eq-store_each false ev rest s = elim (Bool-cases s.closed) [
  | inl closed ↦ unfold store_each store in ground arith
  | inr open_store ↦ ground (arith, append_batch-eq-store_each (ev ∷ rest) s open_store)
]

-- After `Close` every operation on the store is refused with "store is closed", nothing changes,
-- and a second `Close` does nothing.
pub close_refuses :
    (s : MemStore) (evt : Event) (version : Version) (ev : EventWithVersion)
    (evs : List EventWithVersion) (a : String) (filters : List Filter)
    → let t = close s in
      (store false evt version t ≡ (t, some closed_error))
      × (store_batch false (ev ∷ evs) t ≡ (t, some closed_error))
      × (load false version filters t ≡ err closed_error)
      × (load_by_aggregate false a version filters t ≡ err closed_error)
      × (latest_version false t ≡ err closed_error)
      × (close t ≡ t)
unfolding close store store_batch load load_by_aggregate latest_version
close_refuses s evt version ev evs a filters = ground arith
