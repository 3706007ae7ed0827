-- ===== src/MemStore.antt =====
-- storage/memstore/memstore.go: the in-memory event store. The flag `cancelled` of an operation
-- says whether its context is done when it starts; the lock makes each operation one step.
pub mod Invariant
pub mod Changes
pub mod Loading
pub mod Storing
mod Tests
use go_sync_kit.Base.{
  ℕ, ◌+◌, ◌-◌, ◌%◌, ◌^◌, ◌<◌, String, Option, none, some, List, [], ◌∷◌, ◌++◌, Bool, true, false,
  ◌&&◌, ◌||◌, ltb, ◌==◌, if◌then◌else◌, length, get_elem?, keep, str_eq,
}
use go_sync_kit.Base.Dict.{Dict, lookup, insert}
use go_sync_kit.Types.{
  Value, text, number, opaque, Payload, absent, bytes, formatted, Event, EventWithVersion, Version,
  integer, Filter, StoreError, context_done, closed_error, invalid_version, Result, ok, err,
  since_seq, is_newer,
}

pub record MemStore : Type 0 where
  pub events : List EventWithVersion
  pub streams : Dict (List ℕ)
  pub next_seq : ℕ
  pub closed : Bool

abbrev pub new : MemStore
new = record { events = []; streams = []; next_seq = 1; closed = false }

-- The copied data: `EventData` is a `[]byte`, so `Data()` of the copy is never a nil interface.
abbrev pub copy_payload : Payload → Payload
copy_payload absent = bytes []
copy_payload (bytes b) = bytes b
copy_payload (formatted b) = bytes b

pub copy_entries : Dict Value → Dict Value → Dict Value
copy_entries [] m = m
copy_entries ((k, v) ∷ rest) m = copy_entries rest (insert k v m)

abbrev pub copy_metadata : Option (Dict Value) → Option (Dict Value)
unfolding copy_entries
copy_metadata none = some []
copy_metadata (some m) = some (copy_entries m [])

-- The `eventCopy` of `Store`. Its `Offset`, which repeats the sequence number, and its zero
-- `Timestamp` cannot be read through the `Event` interface.
pub copy_event : Event → Event
copy_event evt = record {
  id = evt.id;
  kind = evt.kind;
  aggregate_id = evt.aggregate_id;
  payload = copy_payload evt.payload;
  metadata = copy_metadata evt.metadata;
}

abbrev pub or_empty : Option (List ℕ) → List ℕ
or_empty none = []
or_empty (some l) = l

-- What `Store` does to an open store.
unfoldable pub append_event : Event → MemStore → MemStore
append_event evt s = record s {
  events = s.events ++ record { event = copy_event evt; version = integer s.next_seq } ∷ [];
  streams =
      insert evt.aggregate_id (or_empty (lookup evt.aggregate_id s.streams) ++ length s.events ∷ [])
        s.streams;
  next_seq = (s.next_seq + 1) % 2 ^ 64;
}

-- The version argument is ignored.
pub store : Bool → Event → Version → MemStore → MemStore × Option StoreError
store cancelled evt version s =
    if cancelled
    then (s, some context_done)
    else if s.closed
    then (s, some closed_error)
    else (append_event evt s, none)

-- The data, the metadata and the event as `StoreBatch` copies them.
abbrev pub payload_in_batch : Payload → Payload
payload_in_batch absent = bytes []
payload_in_batch (bytes b) = bytes b
payload_in_batch (formatted b) = bytes b

abbrev pub metadata_in_batch : Option (Dict Value) → Option (Dict Value)
unfolding copy_entries
metadata_in_batch none = some []
metadata_in_batch (some m) = some (copy_entries m [])

abbrev pub copy_in_batch : Event → Event
copy_in_batch evt = record {
  id = evt.id;
  kind = evt.kind;
  aggregate_id = evt.aggregate_id;
  payload = payload_in_batch evt.payload;
  metadata = metadata_in_batch evt.metadata;
}

-- One round of the loop of `StoreBatch`, which repeats the body of `Store`.
unfoldable pub append_in_batch : Event → MemStore → MemStore
append_in_batch evt s = record s {
  events = s.events ++ record { event = copy_in_batch evt; version = integer s.next_seq } ∷ [];
  streams =
      insert evt.aggregate_id (or_empty (lookup evt.aggregate_id s.streams) ++ length s.events ∷ [])
        s.streams;
  next_seq = (s.next_seq + 1) % 2 ^ 64;
}

unfoldable pub append_batch : List EventWithVersion → MemStore → MemStore
unfolding append_in_batch
append_batch [] s = s
append_batch (ev ∷ rest) s = append_batch rest (append_in_batch ev.event s)

abbrev pub is_empty : List EventWithVersion → Bool
is_empty [] = true
is_empty (ev ∷ rest) = false

pub store_batch : Bool → List EventWithVersion → MemStore → MemStore × Option StoreError
unfolding append_batch
store_batch cancelled events s =
    if cancelled
    then (s, some context_done)
    else if is_empty events
    then (s, none)
    else if s.closed
    then (s, some closed_error)
    else (append_batch events s, none)

-- The map of the filters: of two filters with one key the later counts.
pub filter_map : List Filter → Dict String → Dict String
filter_map [] m = m
filter_map (f ∷ rest) m = filter_map rest (insert f.key f.value m)

abbrev pub matches_text : Option String → String → Bool
matches_text none actual = true
matches_text (some wanted) actual = str_eq actual wanted

abbrev pub is_text : Option Value → String → Bool
is_text none wanted = false
is_text (some (text t)) wanted = str_eq t wanted
is_text (some (number z)) wanted = false
is_text (some (opaque n)) wanted = false

abbrev pub matches_tenant : Option String → Option (Dict Value) → Bool
matches_tenant none meta = true
matches_tenant (some tenant) none = false
matches_tenant (some tenant) (some meta) = is_text (lookup "tenant" meta) tenant

pub matches_filters : Event → Dict String → Bool
matches_filters event filters =
    matches_text (lookup "type" filters) event.kind
    && matches_text (lookup "aggregate_id" filters) event.aggregate_id
    && matches_tenant (lookup "tenant" filters) event.metadata

-- An event is loaded if its sequence number is above `since` and the filters match.
pub selects : ℕ → Dict String → EventWithVersion → Bool
selects since filters ev = is_newer since ev && matches_filters ev.event filters

pub load_since :
    List Filter → MemStore → Result StoreError ℕ → Result StoreError (List EventWithVersion)
load_since filters s (err e) = err e
load_since filters s (ok since) = ok (keep (selects since (filter_map filters [])) s.events)

pub load : Bool → Version → List Filter → MemStore → Result StoreError (List EventWithVersion)
unfolding load_since selects since_seq
load cancelled since filters s =
    if cancelled
    then err context_done
    else if s.closed
    then err closed_error
    else load_since filters s (since_seq since)

abbrev pub cons_if :
    (EventWithVersion → Bool)
    → Option EventWithVersion
    → List EventWithVersion
    → List EventWithVersion
cons_if p none rest = rest
cons_if p (some ev) rest = if p ev then ev ∷ rest else rest

-- The loop of `LoadByAggregate` over the indices of a stream; an index past the end is skipped.
pub pick : (EventWithVersion → Bool) → List EventWithVersion → List ℕ → List EventWithVersion
pick p events [] = []
pick p events (i ∷ rest) = cons_if p (get_elem? events i) (pick p events rest)

pub load_stream :
    String
    → List Filter
    → MemStore
    → Result StoreError ℕ
    → Result StoreError (List EventWithVersion)
unfolding pick
load_stream aggregate filters s (err e) = err e
load_stream aggregate filters s (ok since) =
    ok (
      pick (selects since (filter_map filters [])) s.events (or_empty (lookup aggregate s.streams)))

pub load_by_aggregate :
    Bool → String → Version → List Filter → MemStore → Result StoreError (List EventWithVersion)
unfolding load_stream selects since_seq
load_by_aggregate cancelled aggregate since filters s =
    if cancelled
    then err context_done
    else if s.closed
    then err closed_error
    else load_stream aggregate filters s (since_seq since)

pub latest_version : Bool → MemStore → Result StoreError Version
latest_version cancelled s =
    if cancelled
    then err context_done
    else if s.closed
    then err closed_error
    else if is_empty s.events
    then ok (integer 0)
    else ok (integer ((s.next_seq + 2 ^ 64 - 1) % 2 ^ 64))

abbrev pub scanned : Option ℕ → Result StoreError Version
scanned none = err invalid_version
scanned (some seq) = ok (integer seq)

-- `fmt.Sscanf(versionStr, "%d", &seq)` is the parameter `scan`.
pub parse_version : (String → Option ℕ) → String → Result StoreError Version
parse_version scan version_str =
    if str_eq version_str "" || str_eq version_str "0"
    then ok (integer 0)
    else scanned (scan version_str)

pub close : MemStore → MemStore
close s = if s.closed then s else record s { events = []; streams = []; closed = true }

pub record MemStoreStats : Type 0 where
  pub total_events : ℕ
  pub total_streams : ℕ
  pub next_sequence : ℕ
  pub is_closed : Bool

pub stats : MemStore → MemStoreStats
stats s = record {
  total_events = length s.events;
  total_streams = length s.streams;
  next_sequence = s.next_seq;
  is_closed = s.closed;
}
