-- ===== src/MemStore/Tests.antt =====
-- storage/memstore/memstore.go: examples.
use go_sync_kit.Base.{none, some, List, [], ◌∷◌, false, ◌≡◌, refl, true, arith}
use go_sync_kit.Types.{Event, EventWithVersion, integer, bytes, text, Filter}
use go_sync_kit.MemStore.{MemStore, new, append_event, store_batch, load, load_by_aggregate}
use go_sync_kit.MemStore.Invariant.{IsValid, HasRoom, new-IsValid, store_batch-IsValid}
use go_sync_kit.MemStore.Changes.{Change, to_store, to_store_batch, to_close, change_all}
use go_sync_kit.MemStore.Loading.{only_aggregate, load_by_aggregate-eq-load}
use go_sync_kit.MemStore.Storing.{store_each, store_batch-eq-store_each}

abbrev created : Event
created = record {
  id = "e1";
  kind = "created";
  aggregate_id = "order";
  payload = bytes (1 ∷ []);
  metadata = some (("tenant", text "t1") ∷ []);
}

abbrev paid : Event
paid = record {
  id = "e2";
  kind = "paid";
  aggregate_id = "invoice";
  payload = bytes [];
  metadata = none;
}

abbrev one_event : MemStore
one_event = append_event created new

abbrev batch : List EventWithVersion
batch =
    record { event = created; version = integer 7 }
    ∷ record { event = paid; version = integer 9 }
    ∷ []

abbrev of_tenant : List Filter
of_tenant = record { key = "tenant"; value = "t1" } ∷ []

new-HasRoom : HasRoom 2 new
new-HasRoom = omega arith

one_event_open : one_event.closed ≡ false
unfolding append_event
one_event_open = refl

store_batch-IsValid_example : IsValid (store_batch false batch new).0
store_batch-IsValid_example = store_batch-IsValid false batch new new-HasRoom new-IsValid

abbrev changes : List Change
changes =
    to_store false created (integer 0)
    ∷ to_store_batch false batch
    ∷ to_store true paid (integer 0)
    ∷ to_close
    ∷ []

load_by_aggregate-eq-load_example :
    load_by_aggregate false "order" (integer 0) of_tenant (change_all changes new)
    ≡ only_aggregate "order" (load false (integer 0) of_tenant (change_all changes new))
load_by_aggregate-eq-load_example =
    load_by_aggregate-eq-load changes false "order" (integer 0) of_tenant

store_batch-eq-store_each_example :
    store_batch false batch one_event ≡ store_each false batch one_event
store_batch-eq-store_each_example =
    store_batch-eq-store_each false (record { event = created; version = integer 7 })
      (record { event = paid; version = integer 9 } ∷ []) one_event
