-- ===== src/Manager/OverMemStore.antt =====
-- synckit/manager.go, `pull` over the store of storage/memstore/memstore.go.
use go_sync_kit.Base.{none, [], false}
use go_sync_kit.Types.{StoreError}
use go_sync_kit.Machine.{Machine}
use go_sync_kit.SyncState.{SyncState}
use go_sync_kit.MemStore.{MemStore, load, latest_version, store}
use go_sync_kit.Manager.{EventStore, Transport, Methods, Options, Context}

-- The in-memory store as the `EventStore` of a manager, under a context that is not done.
abbrev pub mem_event_store : EventStore MemStore StoreError
mem_event_store = record {
  latest_version = latest_version false;
  load = λ since s. load false since [] s;
  store = store false;
}

module _ {R : Type 0} (methods : Methods) (t : Transport R StoreError) (ctx : Context)
    (opts : Options StoreError) where
  abbrev unresolved : Options StoreError
  unresolved = record opts { resolver = none }
