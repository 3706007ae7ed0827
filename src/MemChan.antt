-- ===== src/MemChan.antt =====
-- transport/memchan/memchan.go: the in-memory transport, its subscribers and the hub. The lock makes
-- each method one step, and each round of a subscriber's goroutine is a step of its own. What a
-- `select` on a done context chooses is an argument; handler errors are only printed.
pub mod Listening
pub mod Reading
pub mod Replica
pub mod Hubs
mod Tests
use go_sync_kit.Base.{
  ℕ, zero, suc, ◌+◌, Option, none, some, List, [], ◌∷◌, ◌++◌, Bool, true, false, ltb, if◌then◌else◌,
  length, keep, take, drop, String,
}
use go_sync_kit.Base.Int.{ℤ, pos, negsuc}
use go_sync_kit.Base.Dict.{Dict, insert, erase}
use go_sync_kit.Types.{
  Event, EventWithVersion, Version, integer, as_integer, since_seq, is_newer, StoreError,
  context_done, closed_error, Result, ok, err,
}

-- A subscriber: its channel and the state of its goroutine, with the batches that its handler got.
pub record Listener : Type 0 where
  pub buffer : List Event
  pub batch : List EventWithVersion
  pub handled : List (List EventWithVersion)

pub record MemChan : Type 0 where
  pub events : List EventWithVersion
  pub subs : List Listener
  pub capacity : ℕ
  pub closed : Bool

-- `New`.
abbrev pub effective_capacity : ℤ → ℕ
effective_capacity (pos zero) = 16
effective_capacity (pos (suc n)) = suc n
effective_capacity (negsuc n) = 16

abbrev pub new : ℤ → MemChan
new capacity = record {
  events = [];
  subs = [];
  capacity = effective_capacity capacity;
  closed = false;
}

-- One `select` of `Push`: an event for a full channel is dropped.
pub offer : ℕ → Event → Listener → Listener
offer capacity ev l =
    if ltb (length l.buffer) capacity then record l { buffer = l.buffer ++ ev ∷ [] } else l

abbrev pub before : Listener → List Listener × ℕ × Bool → List Listener × ℕ × Bool
before l (rest, n, stopped) = (l ∷ rest, n, stopped)

-- The inner loop of `Push`: the event goes to each subscriber, until the context is found done. The
-- sends are numbered.
pub notify : (ℕ → Bool) → ℕ → ℕ → Event → List Listener → List Listener × ℕ × Bool
unfolding offer
notify done capacity n ev [] = ([], n, false)
notify done capacity n ev (l ∷ rest) =
    let sent = before (offer capacity ev l) (notify done capacity (n + 1) ev rest) in
    if done n then (l ∷ rest, n, true) else sent

abbrev pub unless_stopped :
    List Listener × ℕ × Bool → (List Listener → ℕ → List Listener × Bool) → List Listener × Bool
unless_stopped (subs, n, true) next = (subs, true)
unless_stopped (subs, n, false) next = next subs n

-- The outer loop, over the events.
pub notify_all : (ℕ → Bool) → ℕ → ℕ → List EventWithVersion → List Listener → List Listener × Bool
unfolding notify
notify_all done capacity n [] subs = (subs, false)
notify_all done capacity n (ev ∷ rest) subs =
    unless_stopped (notify done capacity n ev.event subs)
      (λ subs' n'. notify_all done capacity n' rest subs')

abbrev pub pushed : MemChan → List Listener × Bool → MemChan × Option StoreError
pushed c (subs, stopped) = (record c { subs = subs }, if stopped then some context_done else none)

-- `Push`.
pub push : Bool → (ℕ → Bool) → List EventWithVersion → MemChan → MemChan × Option StoreError
unfolding notify_all
push cancelled done events c =
    if cancelled
    then (c, some context_done)
    else if c.closed
    then (c, some closed_error)
    else pushed (record c { events = c.events ++ events })
        (notify_all done c.capacity 0 events c.subs)

pub pull_since : MemChan → Result StoreError ℕ → Result StoreError (List EventWithVersion)
pull_since c (err e) = err e
pull_since c (ok since) = ok (keep (is_newer since) c.events)

-- `Pull`.
pub pull : Bool → Version → MemChan → Result StoreError (List EventWithVersion)
unfolding pull_since since_seq
pull cancelled since c =
    if cancelled
    then err context_done
    else if c.closed
    then err closed_error
    else pull_since c (since_seq since)

abbrev pub greater : ℕ → Option ℕ → ℕ
greater best none = best
greater best (some seq) = if ltb best seq then seq else best

-- The loop of `GetLatestVersion`.
pub max_version : ℕ → List EventWithVersion → ℕ
max_version best [] = best
max_version best (ev ∷ rest) = max_version (greater best (as_integer ev.version)) rest

-- `GetLatestVersion`.
pub get_latest_version : Bool → MemChan → Result StoreError Version
unfolding max_version
get_latest_version cancelled c =
    if cancelled
    then err context_done
    else if c.closed
    then err closed_error
    else ok (integer (max_version 0 c.events))

-- `Subscribe`, with or without a handler: `false` is the error about a nil handler.
pub subscribe : Bool → MemChan → MemChan × Bool
subscribe has_handler c =
    if has_handler
    then (record c { subs = c.subs ++ record { buffer = []; batch = []; handled = [] } ∷ [] }, true)
    else (c, false)

-- A subscriber's goroutine takes an event from its channel; `now` is the version that it makes up.
pub receive : ℕ → Listener → Listener
receive now l = elim l.buffer [
  | [] ↦ l
  | ev ∷ rest ↦ record l {
    buffer = rest;
    batch = l.batch ++ record { event = ev; version = integer now } ∷ [];
  }
]

-- The ticker fires: the handler gets the batch, unless it is empty. So too when the goroutine ends.
pub tick : Listener → Listener
tick l = elim l.batch [
  | [] ↦ l
  | ev ∷ rest ↦ record l { batch = []; handled = l.handled ++ l.batch ∷ [] }
]

-- The goroutine of the subscriber at an index ends: its channel is taken from the list.
pub leave : ℕ → MemChan → MemChan
leave i c = record c { subs = take i c.subs ++ drop (i + 1) c.subs }

-- `Close`. The goroutines go on with channels that the transport no longer has.
pub close : MemChan → MemChan
close c = if c.closed then c else record c { events = []; subs = []; closed = true }

-- `ClearEvents`.
abbrev pub clear_events : MemChan → MemChan
clear_events c = record c { events = [] }

-- `MemChanStats` and `Stats`.
pub record MemChanStats : Type 0 where
  pub total_events : ℕ
  pub active_subscribers : ℕ
  pub channel_capacity : ℕ
  pub is_closed : Bool

abbrev pub stats : MemChan → MemChanStats
stats c = record {
  total_events = length c.events;
  active_subscribers = length c.subs;
  channel_capacity = c.capacity;
  is_closed = c.closed;
}

-- `Hub`, with the transports by name, in the order in which a range over the map finds them.
pub record Hub : Type 0 where
  pub transports : Dict MemChan
  pub hub_events : List EventWithVersion

abbrev pub new_hub : Hub
new_hub = record { transports = []; hub_events = [] }

abbrev pub add_transport : String → MemChan → Hub → Hub
add_transport name c h = record h { transports = insert name c h.transports }

abbrev pub remove_transport : String → Hub → Hub
remove_transport name h = record h { transports = erase name h.transports }

abbrev pub after_push :
    String
    → MemChan × Option StoreError
    → Dict MemChan
    → Dict MemChan × Option (String × StoreError)
    → Dict MemChan × Option (String × StoreError)
after_push name (c, some e) rest later = ((name, c) ∷ rest, some (name, e))
after_push name (c, none) rest (later, outcome) = ((name, c) ∷ later, outcome)

-- The loop of `Broadcast`, up to the first transport that fails; `done` is the context at each.
pub push_to_all :
    Bool
    → (ℕ → Bool)
    → List EventWithVersion
    → Dict MemChan
    → Dict MemChan × Option (String × StoreError)
unfolding push
push_to_all cancelled done events [] = ([], none)
push_to_all cancelled done events ((name, c) ∷ rest) =
    after_push name (push cancelled done events c) rest (push_to_all cancelled done events rest)

abbrev pub broadcasted :
    Hub → Dict MemChan × Option (String × StoreError) → Hub × Option (String × StoreError)
broadcasted h (transports, outcome) = (record h { transports = transports }, outcome)

-- `Broadcast`.
pub broadcast : Bool → (ℕ → Bool) → List EventWithVersion → Hub → Hub × Option (String × StoreError)
unfolding push_to_all
broadcast cancelled done events h =
    broadcasted (record h { hub_events = h.hub_events ++ events })
      (push_to_all cancelled done events h.transports)
