-- ===== src/Manager/Service.antt =====
-- synckit/manager.go: `StartAutoSync`, `StopAutoSync`, the ticks of its goroutine, `Subscribe`, `Close`
-- and `notifySubscribers`. A context's cancel function is the number of the context that it cancels;
-- handlers are called each in a goroutine of its own, so of a notification its calls are given.
use go_sync_kit.Base.{
  keep, ◌==◌, ℕ, zero, suc, Option, none, some, List, [], ◌∷◌, ◌++◌, Bool, true, false, not, map,
  if◌then◌else◌,
}
use go_sync_kit.Base.Int.{ℤ, pos, negsuc}
use go_sync_kit.Types.{Result, ok, err}
use go_sync_kit.SyncState.{can_auto_sync}
use go_sync_kit.Manager.{
  EventStore, Transport, Methods, Options, Context, SyncError, SyncResult, Manager, empty_result,
}
use go_sync_kit.Manager.Sync.{sync}

-- The rest of the manager's fields: the running automatic sync, its interval, and the subscribers; and
-- the contexts of automatic syncs that are not cancelled.
pub record Service (S R H : Type 0) : Type 0 where
  pub manager : Manager S R
  pub auto_sync : Option ℕ
  pub interval : ℤ
  pub subscribers : List H
  pub live : List ℕ

pub data ServiceError (E : Type 0) : Type 0 where
  start_canceled service_closed bad_interval : ServiceError E
  close_failed : List E → ServiceError E

abbrev pub is_positive : ℤ → Bool
is_positive (pos zero) = false
is_positive (pos (suc n)) = true
is_positive (negsuc n) = false

module _ {S R H : Type 0} where
  -- What `StopAutoSync` and `Close` do about a running automatic sync.
  unfoldable pub cancel_auto_sync : Service S R H → Service S R H
  cancel_auto_sync s = elim s.auto_sync [
    | none ↦ s
    | some running ↦ record s {
      auto_sync = none;
      interval = pos 0;
      live = keep (λ id. not (id == running)) s.live;
    }
  ]

module _ {E : Type 0} where
  abbrev pub closing_errors : Option E → Option E → List E
  closing_errors none none = []
  closing_errors none (some e) = e ∷ []
  closing_errors (some e) none = e ∷ []
  closing_errors (some e) (some e') = e ∷ e' ∷ []

  abbrev pub combined : List E → Option (ServiceError E)
  combined [] = none
  combined (e ∷ rest) = some (close_failed (e ∷ rest))

module _ {S R H E : Type 0} where
  -- `StartAutoSync`: with the interval of the options, and the number of the new context.
  unfoldable pub start_auto_sync :
      Bool → ℤ → ℕ → Service S R H → Service S R H × Option (ServiceError E)
  start_auto_sync context_is_done sync_interval id s =
      if context_is_done then (s, some start_canceled) else elim s.auto_sync [
        | some running ↦ (s, none)
        | none ↦
            if s.manager.closed
            then (s, some service_closed)
            else if not (is_positive sync_interval)
            then (s, some bad_interval)
            else (
              record s { auto_sync = some id; interval = sync_interval; live = id ∷ s.live },
              none,
            )
      ]

  -- `StopAutoSync`.
  abbrev pub stop_auto_sync : Service S R H → Service S R H × Option (ServiceError E)
  stop_auto_sync s = (cancel_auto_sync s, none)

  -- `Subscribe`.
  unfoldable pub subscribe : H → Service S R H → Service S R H × Option (ServiceError E)
  subscribe handler s =
      if s.manager.closed
      then (s, some service_closed)
      else (record s { subscribers = s.subscribers ++ handler ∷ [] }, none)

  abbrev pub shut :
      Service S R H
      → (R → R × Option E)
      → (S → S × Option E)
      → Service S R H × Option (ServiceError E)
  shut s close_transport close_store = (
    record s {
      manager = record s.manager {
        closed = true;
        remote = (close_transport s.manager.remote).0;
        store = (close_store s.manager.store).0;
      };
    },
    combined (closing_errors (close_transport s.manager.remote).1 (close_store s.manager.store).1),
  )

  -- `Close`, with those of the transport and of the store.
  unfoldable pub close :
      (R → R × Option E)
      → (S → S × Option E)
      → Service S R H
      → Service S R H × Option (ServiceError E)
  unfolding cancel_auto_sync
  close close_transport close_store s =
      if s.manager.closed then (s, none) else shut (cancel_auto_sync s) close_transport close_store

  -- `notifySubscribers`: the calls that it makes.
  abbrev pub notify_subscribers : SyncResult E → Service S R H → List (H × SyncResult E)
  notify_subscribers result s = map (λ h. (h, result)) s.subscribers

  -- The end of a tick; a result is already sent by `Sync` itself.
  abbrev pub after_sync :
      Service S R H
      → Manager S R × Result (SyncError E) (SyncResult E)
      → Service S R H × List (H × SyncResult E)
  after_sync s (manager, ok result) = (record s { manager = manager }, notify_subscribers result s)
  after_sync s (manager, err e) = (
    record s { manager = manager },
    notify_subscribers (record (empty_result E) { errors = e ∷ [] }) s,
  )

module _ {S R H E : Type 0} (methods : Methods) (st : EventStore S E) (t : Transport R E)
    (ctx : Context) (opts : Options E) where
  -- A tick of the goroutine; whether the transport is healthy is an argument, and so is what the
  -- projection runners return.
  unfoldable pub tick : Bool → Option E → Service S R H → Service S R H × List (H × SyncResult E)
  unfolding sync
  tick healthy projections s =
      if not (can_auto_sync s.manager.machine.state)
      then (s, [])
      else if not healthy
      then (s, [])
      else after_sync s (sync methods st t ctx opts projections s.manager)
