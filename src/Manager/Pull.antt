-- ===== src/Manager/Pull.antt =====
-- synckit/manager.go, `pull`.
use go_sync_kit.Base.{ℕ, ◌+◌, Option, none, some, List, [], ◌∷◌, ◌++◌, if◌then◌else◌, length}
use go_sync_kit.Types.{EventWithVersion, Version, Conflict, ResolvedConflict, Result, ok, err}
use go_sync_kit.Machine.{Machine, TransitionError}
use go_sync_kit.SyncState.{SyncState, resolving_conflicts}
use go_sync_kit.Manager.{
  EventStore, Transport, Methods, Options, Context, SyncError, transport_error, store_error,
  resolver_error, context_done, state_machine_error, SyncResult, empty_result, apply_filter,
  move_to,
}
use go_sync_kit.Manager.Conflicts.{detect_conflicts, find_latest_version}

-- How the conflict stage ends: with the events to store and the number of conflicts; with an error
-- that is only recorded in the result, and nothing to store; or with an error that is returned.
pub data Stage (E : Type 0) : Type 0 where
  proceed : List EventWithVersion → ℕ → Stage E
  abandon : SyncError E → Stage E
  fail : SyncError E → Stage E

-- What `pull` leaves: the store, the state machine, the result, and the returned error.
pub record Pulled (S E : Type 0) : Type 0 where
  pub store : S
  pub machine : Machine SyncState
  pub result : SyncResult E
  pub error : Option (SyncError E)

module _ {E : Type 0} where
  abbrev pub after_resolution :
      Result E ResolvedConflict
      → (List EventWithVersion → Result E (List EventWithVersion))
      → Result E (List EventWithVersion)
  after_resolution (err e) next = err e
  after_resolution (ok r) next = next r.resolved_events

  -- The loop over the conflicts, which collects the resolved events.
  unfoldable pub resolve_all :
      (Conflict → Result E ResolvedConflict)
      → List Conflict
      → List EventWithVersion
      → Result E (List EventWithVersion)
  resolve_all resolve [] resolved = ok resolved
  resolve_all resolve (c ∷ rest) resolved =
      after_resolution (resolve c) (λ evs. resolve_all resolve rest (resolved ++ evs))

  abbrev pub resolution : ℕ → Result E (List EventWithVersion) → Stage E
  resolution count (err e) = fail (resolver_error e)
  resolution count (ok resolved) = proceed resolved count

  -- What follows the transition into the state of conflict resolution.
  unfoldable pub resolve_in_state :
      Context
      → (Conflict → Result E ResolvedConflict)
      → List Conflict
      → Machine SyncState × Option TransitionError
      → Machine SyncState × Stage E
  unfolding resolve_all
  resolve_in_state ctx resolve conflicts (m, some e) = (m, abandon (state_machine_error e))
  resolve_in_state ctx resolve conflicts (m, none) =
      if ctx.done_at_resolution
      then (m, fail context_done)
      else (m, resolution (length conflicts) (resolve_all resolve conflicts []))

module _ {S R E : Type 0} (methods : Methods) (st : EventStore S E) (t : Transport R E)
    (ctx : Context) (opts : Options E) where
  unfoldable pub resolve_conflicts :
      (Conflict → Result E ResolvedConflict)
      → List Conflict
      → List EventWithVersion
      → Machine SyncState
      → Machine SyncState × Stage E
  unfolding resolve_in_state
  resolve_conflicts resolve [] remote m = (m, proceed remote 0)
  resolve_conflicts resolve (c ∷ rest) remote m =
      resolve_in_state ctx resolve (c ∷ rest) (move_to ctx 2 resolving_conflicts m)

  unfoldable pub against_local :
      (Conflict → Result E ResolvedConflict)
      → Result E (List EventWithVersion)
      → List EventWithVersion
      → Machine SyncState
      → Machine SyncState × Stage E
  against_local resolve (err e) remote m = (m, fail (store_error e))
  against_local resolve (ok []) remote m = (m, proceed remote 0)
  against_local resolve (ok (l ∷ local)) remote m =
      resolve_conflicts resolve (detect_conflicts methods (l ∷ local) remote) remote m

  -- The conflict stage: the local events that might conflict are those since the local version.
  unfoldable pub conflict_stage :
      Option (Conflict → Result E ResolvedConflict)
      → Version
      → List EventWithVersion
      → S
      → Machine SyncState
      → Machine SyncState × Stage E
  unfolding against_local resolve_conflicts
  conflict_stage none since remote s m = (m, proceed remote 0)
  conflict_stage (some resolve) since remote s m = against_local resolve (st.load since s) remote m

  -- What the loop that stores the events leaves: the store, how many it stored, and the error.
  abbrev pub after_store :
      S × Option E → ℕ → (S → S × ℕ × Option (SyncError E)) → S × ℕ × Option (SyncError E)
  after_store (s, some e) count next = (s, count, some (store_error e))
  after_store (s, none) count next = next s

  unfoldable pub store_events : ℕ → List EventWithVersion → S → S × ℕ × Option (SyncError E)
  store_events i [] s = (s, i, none)
  store_events i (ev ∷ rest) s =
      let stored = after_store (st.store ev.event ev.version s) i (store_events (i + 1) rest) in
      if ctx.done_at_store i then (s, i, some context_done) else stored

  abbrev pub finish :
      List EventWithVersion → ℕ → Machine SyncState → S × ℕ × Option (SyncError E) → Pulled S E
  finish evs conflicts m (s, count, some e) = record {
    store = s;
    machine = m;
    result = record (empty_result E) { events_pulled = count; conflicts_resolved = conflicts };
    error = some e;
  }
  finish evs conflicts m (s, count, none) = record {
    store = s;
    machine = m;
    result = record (empty_result E) {
      events_pulled = count;
      conflicts_resolved = conflicts;
      remote_version = find_latest_version methods.compare evs;
    };
    error = none;
  }

  unfoldable pub after_stage : S → Machine SyncState × Stage E → Pulled S E
  unfolding store_events
  after_stage s (m, fail e) = record {
    store = s;
    machine = m;
    result = empty_result E;
    error = some e;
  }
  after_stage s (m, abandon e) = record {
    store = s;
    machine = m;
    result = record (empty_result E) { errors = e ∷ [] };
    error = none;
  }
  after_stage s (m, proceed evs conflicts) = finish evs conflicts m (store_events 0 evs s)

  unfoldable pub pull_events :
      Version → Result E (List EventWithVersion) → S → Machine SyncState → Pulled S E
  unfolding after_stage conflict_stage
  pull_events since (err e) s m = record {
    store = s;
    machine = m;
    result = empty_result E;
    error = some (transport_error e);
  }
  pull_events since (ok []) s m = record {
    store = s;
    machine = m;
    result = empty_result E;
    error = none;
  }
  pull_events since (ok (ev ∷ rest)) s m =
      after_stage s (conflict_stage opts.resolver since (apply_filter opts.filter (ev ∷ rest)) s m)

  unfoldable pub pull_since : Result E Version → S → R → Machine SyncState → Pulled S E
  unfolding pull_events
  pull_since (err e) s r m = record {
    store = s;
    machine = m;
    result = empty_result E;
    error = some (store_error e);
  }
  pull_since (ok since) s r m = pull_events since (t.pull since r) s m

  -- `pull`: what the remote side has beyond the local version is stored, after conflicts.
  unfoldable pub pull : S → R → Machine SyncState → Pulled S E
  unfolding pull_since
  pull s r m = pull_since (st.latest_version s) s r m
