-- ===== src/Versioned/Stamping.antt =====
-- version/store_decorator.go, `Store`, over the in-memory store of storage/memstore/memstore.go.
use go_sync_kit.Base.{ℕ, ◌+◌, ◌%◌, ◌^◌, String, Option, none, some, [], ◌≡◌, str_eq, if◌then◌else◌}
use go_sync_kit.Base.Dict.{insert}
use go_sync_kit.Types.{Event, VectorClock}
use go_sync_kit.Clock.{get_clock}
use go_sync_kit.Clock.Increment.{CanIncrement}
use go_sync_kit.MemStore.{MemStore}
use go_sync_kit.Versioned.{EventClocks}

-- The clock that an event has before it is stamped.
abbrev pub clock_before : Option VectorClock → VectorClock
clock_before none = record { clocks = [] }
clock_before (some vc) = vc

-- The clock `vc` is `before` with `seq` as its sequence number and, where the node can be counted in it,
-- one more for the node; all other entries are as they were.
pub data IsCounted (node_id : String) (seq : ℕ) (before vc : VectorClock) : Type 0 where
  counted :
      CanIncrement (record { clocks = insert "sequence" seq before.clocks }) node_id
      → ((k : String)
          → get_clock vc k ≡ (
              if str_eq k "sequence"
              then seq
              else if str_eq k node_id
              then (get_clock before k + 1) % 2 ^ 64
              else get_clock before k))
      → IsCounted node_id seq before vc
  not_counted :
      (CanIncrement (record { clocks = insert "sequence" seq before.clocks }) node_id → ⊥)
      → ((k : String) → get_clock vc k ≡ (if str_eq k "sequence" then seq else get_clock before k))
      → IsCounted node_id seq before vc

-- What the stored event is: the given one, if it has no clock, else the given one with a new clock.
pub data IsStamped (methods : EventClocks) (node_id : String) (seq : ℕ) (event stamped : Event)
    : Type 0 where
  plain :
      methods.version_of event ≡ none
      → stamped ≡ event
      → IsStamped methods node_id seq event stamped
  with_clock :
      {current : Option VectorClock} {vc : VectorClock}
      → methods.version_of event ≡ some current
      → stamped ≡ methods.set_version vc event
      → IsCounted node_id seq (clock_before current) vc
      → IsStamped methods node_id seq event stamped
