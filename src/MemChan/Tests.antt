-- ===== src/MemChan/Tests.antt =====
-- transport/memchan/memchan.go: examples.
use go_sync_kit.Base.{
  ℕ, ◌-◌, none, List, [], ◌∷◌, ◌++◌, true, false, length, take, ◌≡◌, refl, arith,
}
use go_sync_kit.Base.Int.{pos}
use go_sync_kit.Types.{Event, EventWithVersion, integer, bytes, since_seq, StoreError, ok}
use go_sync_kit.MemStore.{MemStore, append_event, append_batch}
use go_sync_kit.MemStore
use go_sync_kit.MemStore.Invariant.{new-IsValid, append_batch-IsValid}
use go_sync_kit.Manager.{Options, Context}
use go_sync_kit.Manager.Push
use go_sync_kit.Manager.Push.{Pushed}
use go_sync_kit.Manager.OverMemStore.{mem_event_store}
use go_sync_kit.MemChan.{offer, receive, Listener, MemChan}
use go_sync_kit.MemChan.Listening.{
  Action, offered, received, ticked, heard, run, accepted, heard-run,
}
use go_sync_kit.MemChan.Replica.{mem_chan_transport, push-replicates}

abbrev created : Event
created = record {
  id = "e1";
  kind = "created";
  aggregate_id = "order";
  payload = bytes (1 ∷ []);
  metadata = none;
}

abbrev changed : Event
changed = record created { id = "e2" }

abbrev silent : Listener
silent = record { buffer = []; batch = []; handled = [] }

-- A channel for one event drops the second one offered, and takes the third after a receive.
abbrev meeting : List Action
meeting = offered created ∷ offered changed ∷ received 7 ∷ offered changed ∷ ticked ∷ []

heard-run_example : heard (run 1 meeting silent) ≡ heard silent ++ accepted 1 meeting silent
heard-run_example = heard-run 1 meeting silent

accepts_two : accepted 1 meeting silent ≡ created ∷ changed ∷ []
unfolding offer receive
accepts_two = refl

abbrev numbered_event : ℕ → EventWithVersion
numbered_event n = record { event = created; version = integer n }

abbrev holding_one : MemChan
holding_one = record {
  events = numbered_event 1 ∷ [];
  subs = silent ∷ [];
  capacity = 16;
  closed = false;
}

number_read : (n : ℕ) → since_seq (integer n) ≡ ok n
unfolding since_seq
number_read n = refl

abbrev three_events : MemStore
three_events =
    append_batch
      (record { event = created; version = integer 0 }
        ∷ record { event = changed; version = integer 0 }
        ∷ record { event = created; version = integer 0 }
        ∷ [])
      MemStore.new

three_events_open : three_events.closed ≡ false
unfolding append_batch append_event
three_events_open = refl

three_events_length : length three_events.events ≡ 3
unfolding append_batch append_event
three_events_length = refl

abbrev behind : MemChan
behind = record {
  events = take 1 three_events.events;
  subs = silent ∷ [];
  capacity = 1;
  closed = false;
}

abbrev calm : Context
calm = record {
  done_at_batch = λ n. false;
  done_at_resolution = false;
  done_at_store = λ n. false;
  now = λ n. n;
  transition_id = λ n. n;
}

abbrev one_by_one : Options StoreError
one_by_one = record {
  push_only = true;
  pull_only = false;
  filter = none;
  batch_size = pos 1;
  resolver = none;
}

push-replicates_example :
    (p : Pushed MemChan StoreError) × (Push.push mem_event_store mem_chan_transport calm one_by_one
        three_events behind
      ≡ p)
    × (p.error ≡ none)
    × (p.count ≡ length three_events.events - 1)
    × (p.remote.events ≡ three_events.events)
push-replicates_example =
    push-replicates calm one_by_one three_events behind 1 (λ n. refl) refl
      (append_batch-IsValid _ MemStore.new (omega arith) new-IsValid) three_events_open refl
      (omega (arith, three_events_length)) refl
