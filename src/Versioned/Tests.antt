-- ===== src/Versioned/Tests.antt =====
-- version/store_decorator.go: examples, with events that keep the size of their clock in their metadata.
use go_sync_kit.Base.{inr, none, some, List, [], ◌∷◌, true, false, ◌≡◌, refl, arith}
use go_sync_kit.Base.Int.{pos}
use go_sync_kit.Types.{
  Event, EventWithVersion, Version, integer, bytes, number, StoreError, Result, ok,
}
use go_sync_kit.Clock.{size}
use go_sync_kit.MemStore.{MemStore, new}
use go_sync_kit.Versioned.{
  new_manager, VersionedStore, VectorClockManager, EventClocks, load_versioned,
}
use go_sync_kit.Versioned.Observing.{HasPlace, IsObserved, load_versioned-IsObserved}

abbrev created : Event
created = record {
  id = "e1";
  kind = "created";
  aggregate_id = "order";
  payload = bytes (1 ∷ []);
  metadata = none;
}

abbrev counting : EventClocks
counting = record {
  version_of = λ ev. some none;
  can_set = λ ev. true;
  set_version = λ vc ev. record ev { metadata = some (("clock", number (pos (size vc))) ∷ []) };
}

abbrev manager : VectorClockManager
manager = record { observed = record { clocks = ("sequence", 4) ∷ ("node", 1) ∷ [] } }

abbrev empty_store : VersionedStore MemStore
empty_store = record { store = new; node_id = "node"; manager = manager; closed = false }

abbrev log : List EventWithVersion
log =
    record { event = created; version = integer 6 }
    ∷ record { event = created; version = integer 5 }
    ∷ []

abbrev load_log : Version → MemStore → Result StoreError (List EventWithVersion)
load_log since s = ok log

abbrev fresh_store : VersionedStore MemStore
fresh_store = record empty_store { manager = new_manager }

fresh-HasPlace : HasPlace new_manager
fresh-HasPlace = record { placed = inr (omega arith); bounded = omega arith }

load_versioned-IsObserved_example :
    (loaded : List EventWithVersion) × ((load_versioned load_log counting none fresh_store).1
      ≡ ok loaded)
    × IsObserved new_manager
        (load_versioned load_log counting none fresh_store).0.manager
        log
        loaded
load_versioned-IsObserved_example =
    load_versioned-IsObserved load_log counting none fresh_store log refl fresh-HasPlace
