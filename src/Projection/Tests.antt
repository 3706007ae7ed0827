-- ===== src/Projection/Tests.antt =====
-- projection/runner.go: examples, a projector that lists what it was given.
use go_sync_kit.Base.{
  false, ℕ, Option, none, some, String, List, [], ◌∷◌, ◌++◌, drop, ◌≡◌, refl, arith, ap, sym,
}
use go_sync_kit.Types.{
  Event, EventWithVersion, Version, integer, vector, clock, bytes, StoreError, incompatible_version,
  Result, ok, err,
}
use go_sync_kit.MemStore.{MemStore, new, append_event, append_batch}
use go_sync_kit.MemStore.Invariant.{IsValid, new-IsValid, append_batch-IsValid}
use go_sync_kit.Projection.{OffsetStore, Projector, Source, World, Run, apply_since}
use go_sync_kit.Projection.Log.{Laws}
use go_sync_kit.Projection.OverMemStore.{mem_source, MemStore-Laws}

abbrev created : Event
created = record {
  id = "e1";
  kind = "created";
  aggregate_id = "order";
  payload = bytes (1 ∷ []);
  metadata = none;
}

abbrev three_events : MemStore
three_events =
    append_batch
      (record { event = created; version = integer 0 }
        ∷ record { event = created; version = integer 0 }
        ∷ record { event = created; version = integer 0 }
        ∷ [])
      new

abbrev cell : OffsetStore (Option Version) StoreError
cell = record { get = ok; set = λ v o. (some v, none) }

abbrev lister : Projector (List EventWithVersion) StoreError
lister = record { apply = λ evs p. (p ++ evs, none) }

abbrev no_scan : String → Option ℕ
no_scan s = none

three_events-IsValid : IsValid three_events
three_events-IsValid = append_batch-IsValid _ new (omega arith) new-IsValid

three_events_open : three_events.closed ≡ false
unfolding append_batch append_event
three_events_open = refl

found_again :
    (v : Version) (o o' : Option Version) → cell.set v o ≡ (o', none) → cell.get o' ≡ ok (some v)
found_again v o o' h = ap (λ x. cell.get x.0) (sym h)

MemStore-Laws_example : Laws cell (mem_source no_scan three_events) three_events.events
MemStore-Laws_example =
    MemStore-Laws cell no_scan three_events found_again three_events-IsValid three_events_open

-- A log of three events, as a store of its own.
abbrev numbered_event : ℕ → EventWithVersion
numbered_event n = record { event = created; version = integer n }

abbrev log : List EventWithVersion
log = numbered_event 1 ∷ numbered_event 2 ∷ numbered_event 3 ∷ []

abbrev load_log : Version → Result StoreError (List EventWithVersion)
load_log (integer n) = ok (drop n log)
load_log (vector counters) = err incompatible_version
load_log (clock vc) = err incompatible_version

abbrev log_source : Source StoreError
log_source = record { load = load_log; zero_version = ok (integer 0) }

abbrev fresh : World (Option Version) (List EventWithVersion)
fresh = record { offsets = none; projected = [] }

abbrev finished : Run (Option Version) (List EventWithVersion) StoreError
finished = record {
  world = record { offsets = some (integer 3); projected = log };
  applied = 3;
  last = some (integer 3);
  error = none;
}

runs : apply_since cell lister 4 log_source 2 fresh ≡ some finished
unfolding apply_since
runs = refl
