-- ===== src/Versioned.antt =====
-- version/store_decorator.go: the version manager over a vector clock, and the store that stamps
-- events with one. An event whose type has `Version` and `SetVersion` is one for which `version_of` of
-- `EventClocks` returns something; setting its version is a new event. That two events may share one
-- clock by pointer is left out.
pub mod Stamping
pub mod Observing
mod Tests
use go_sync_kit.Base.{
  ℕ, zero, suc, ◌+◌, ◌%◌, ◌^◌, String, Option, none, some, List, [], ◌∷◌, Bool, true, false,
  if◌then◌else◌,
}
use go_sync_kit.Base.Dict.{insert}
use go_sync_kit.Types.{
  Event, EventWithVersion, Version, integer, vector, clock, VectorClock, as_integer, size_is_zero,
  Result, ok, err,
}
use go_sync_kit.Clock.{ClockError, new_vector_clock, clone, increment, merge, clock_is_zero}
use go_sync_kit.Manager.{EventStore}

-- `VectorClockManager`, by its clock.
pub record VectorClockManager : Type 0 where
  pub observed : VectorClock

pub data VersionError : Type 0 where
  not_a_vector_clock nil_clock : VersionError
  clock_error : ClockError → VersionError

abbrev pub new_manager : VectorClockManager
new_manager = record { observed = new_vector_clock }

abbrev pub of_versions_clock : VectorClock → Result VersionError VectorClockManager
of_versions_clock vc =
    if clock_is_zero vc then ok new_manager else ok (record { observed = clone vc })

-- `NewVectorClockManagerFromVersion`.
pub manager_from_version : Option Version → Result VersionError VectorClockManager
manager_from_version none = ok new_manager
manager_from_version (some (integer zero)) = ok new_manager
manager_from_version (some (integer (suc n))) = err not_a_vector_clock
manager_from_version (some (vector counters)) =
    if size_is_zero counters then ok new_manager else err not_a_vector_clock
manager_from_version (some (clock none)) = err nil_clock
manager_from_version (some (clock (some vc))) = of_versions_clock vc

-- `CurrentVersion` and `NextVersion`.
abbrev pub current_version : VectorClockManager → VectorClock
current_version m = clone m.observed

abbrev pub after_increment :
    VectorClock × Option ClockError → VectorClockManager × Option VectorClock
after_increment (vc, some e) = (record { observed = vc }, none)
after_increment (vc, none) = (record { observed = vc }, some (clone vc))

pub next_version : String → VectorClockManager → VectorClockManager × Option VectorClock
next_version node_id m = after_increment (increment m.observed node_id)

abbrev pub after_merge : VectorClock × Option ClockError → VectorClockManager × Option VersionError
after_merge (vc, some e) = (record { observed = vc }, some (clock_error e))
after_merge (vc, none) = (record { observed = vc }, none)

-- `UpdateFromVersion`.
unfoldable pub update_from_version :
    Option Version → VectorClockManager → VectorClockManager × Option VersionError
update_from_version none m = (m, none)
update_from_version (some (integer zero)) m = (m, none)
update_from_version (some (integer (suc n))) m = (m, some not_a_vector_clock)
update_from_version (some (vector counters)) m =
    if size_is_zero counters then (m, none) else (m, some not_a_vector_clock)
update_from_version (some (clock none)) m = (m, some nil_clock)
update_from_version (some (clock (some vc))) m =
    if clock_is_zero vc then (m, none) else after_merge (merge m.observed (some vc))

-- `cursorToVectorClock`.
abbrev pub cursor_to_vector_clock : ℕ → VectorClock
cursor_to_vector_clock seq = record { clocks = ("sequence", seq) ∷ [] }

-- The methods of events that carry a clock.
pub record EventClocks : Type 0 where
  pub version_of : Event → Option (Option VectorClock)
  pub can_set : Event → Bool
  pub set_version : VectorClock → Event → Event

-- `VersionedStore`, over a store with a state.
pub record VersionedStore (S : Type 0) : Type 0 where
  pub store : S
  pub node_id : String
  pub manager : VectorClockManager
  pub closed : Bool

pub data VersionedError (E : Type 0) : Type 0 where
  latest_version_failed load_failed store_failed : E → VersionedError E
  incompatible_version store_closed : VersionedError E
  manager_failed : VersionError → VersionedError E

abbrev pub or_new_clock : Option VectorClock → VectorClock
or_new_clock none = new_vector_clock
or_new_clock (some vc) = vc

-- What `Store` does to the event: the error of `Increment` is ignored.
pub stamp : EventClocks → String → ℕ → Event → Event
unfolding insert
stamp methods node_id seq event = elim (methods.version_of event) [
  | none ↦ event
  | some current ↦
      methods.set_version
        (increment (record { clocks = insert "sequence" seq (or_new_clock current).clocks })
          node_id).0
        event
]

module _ {S E : Type 0} (st : EventStore S E) where
  -- `LatestVersion`.
  unfoldable pub latest_version : VersionedStore S → Result (VersionedError E) Version
  latest_version s = if s.closed then err store_closed else elim (st.latest_version s.store) [
    | err e ↦ err (latest_version_failed e)
    | ok v ↦ elim (as_integer v) [ none ↦ err incompatible_version | some seq ↦ ok (integer seq) ]
  ]

  abbrev pub initialised :
      VersionedStore S
      → VectorClockManager × Option VersionError
      → Result (VersionedError E) (VersionedStore S)
  initialised s (m, some e) = err (manager_failed e)
  initialised s (m, none) = ok (record s { manager = m })

  abbrev pub with_latest :
      VersionedStore S
      → Result (VersionedError E) Version
      → Result (VersionedError E) (VersionedStore S)
  unfolding update_from_version
  with_latest s (err e) = err e
  with_latest s (ok (integer seq)) =
      initialised s
        (update_from_version (some (clock (some (cursor_to_vector_clock seq)))) s.manager)
  with_latest s (ok (vector counters)) = ok s
  with_latest s (ok (clock vc)) = ok s

  -- `NewVersionedStoreWithLogger`, with a version manager that is not nil.
  pub new_versioned_store :
      S → String → VectorClockManager → Result (VersionedError E) (VersionedStore S)
  unfolding latest_version update_from_version
  new_versioned_store store node_id manager =
      let s : VersionedStore S = record {
        store = store;
        node_id = node_id;
        manager = manager;
        closed = false;
      } in
      with_latest s (latest_version s)

  abbrev pub stored : VersionedStore S → S × Option E → VersionedStore S × Option (VersionedError E)
  stored s (store, none) = (record s { store = store }, none)
  stored s (store, some e) = (record s { store = store }, some (store_failed e))

  abbrev pub store_next :
      EventClocks
      → Event
      → VersionedStore S
      → Option ℕ
      → VersionedStore S × Option (VersionedError E)
  store_next methods event s none = (s, some incompatible_version)
  store_next methods event s (some seq) =
      let next = (seq + 1) % 2 ^ 64 in
      stored s (st.store (stamp methods s.node_id next event) (integer next) s.store)

  abbrev pub store_after :
      EventClocks
      → Event
      → VersionedStore S
      → Result E Version
      → VersionedStore S × Option (VersionedError E)
  store_after methods event s (err e) = (s, some (latest_version_failed e))
  store_after methods event s (ok v) = store_next methods event s (as_integer v)

  -- `Store`; its version argument is not read.
  unfoldable pub store_versioned :
      EventClocks
      → Event
      → Version
      → VersionedStore S
      → VersionedStore S × Option (VersionedError E)
  store_versioned methods event version s = store_after methods event s (st.latest_version s.store)

-- The loop of `Load` and of `LoadByAggregate`: a failed update is only logged.
unfoldable pub observe_loaded :
    EventClocks
    → List EventWithVersion
    → VectorClockManager
    → List EventWithVersion × VectorClockManager
unfolding update_from_version
observe_loaded methods [] m = ([], m)
observe_loaded methods (ev ∷ rest) m = elim (as_integer ev.version) [
  | none ↦ let (later, m') = observe_loaded methods rest m in (ev ∷ later, m')
  | some seq ↦
      let vc = cursor_to_vector_clock seq in
      let event = if methods.can_set ev.event then methods.set_version vc ev.event else ev.event in
      let (later, m') =
        observe_loaded methods rest (update_from_version (some (clock (some vc))) m).0 in
      (record ev { event = event } ∷ later, m')
]

abbrev pub or_start : Option Version → Version
or_start none = integer 0
or_start (some v) = v

abbrev pub after_load :
    {S E : Type 0}
    → EventClocks
    → VersionedStore S
    → Result E (List EventWithVersion)
    → VersionedStore S × Result (VersionedError E) (List EventWithVersion)
unfolding observe_loaded
after_load methods s (err e) = (s, err (load_failed e))
after_load methods s (ok evs) =
    let (loaded, m) = observe_loaded methods evs s.manager in (record s { manager = m }, ok loaded)

-- `Load`, and `LoadByAggregate` by the store's loading of an aggregate.
unfoldable pub load_versioned :
    {S E : Type 0}
    → (Version → S → Result E (List EventWithVersion))
    → EventClocks
    → Option Version
    → VersionedStore S
    → VersionedStore S × Result (VersionedError E) (List EventWithVersion)
unfolding observe_loaded
load_versioned load methods since s = after_load methods s (load (or_start since) s.store)
