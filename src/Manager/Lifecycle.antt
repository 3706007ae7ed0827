-- ===== src/Manager/Lifecycle.antt =====
-- synckit/manager.go: the automatic sync and closing, along any sequence of calls.
use go_sync_kit.Base.{
  ℕ, Option, none, some, List, [], ◌∷◌, keep, ◌==◌, Bool, true, false, not, if◌then◌else◌, if_both,
  ◌≡◌, refl, ap, sym, ◌∙◌, arith,
}
use go_sync_kit.Base.Int.{ℤ, pos}
use go_sync_kit.Types.{Result, ok, err}
use go_sync_kit.SyncState.{can_auto_sync}
use go_sync_kit.Manager.{
  EventStore, Transport, Methods, Options, Context, SyncError, SyncResult, Manager,
}
use go_sync_kit.Manager.Sync.{sync}
use go_sync_kit.Manager.Service.{
  Service, ServiceError, service_closed, bad_interval, is_positive, start_auto_sync,
  cancel_auto_sync, subscribe, shut, close, after_sync, tick,
}
use go_sync_kit.Manager.Closed.{sync_keeps_closed}

-- What may be done with a manager: its methods, and ticks of automatic syncs.
pub data Action (S R H E : Type 0) : Type 0 where
  started : Bool → ℤ → ℕ → Action S R H E
  stopped : Action S R H E
  subscribed : H → Action S R H E
  shut_down : (R → R × Option E) → (S → S × Option E) → Action S R H E
  synced : Option E → Action S R H E
  ticked : Bool → Option E → Action S R H E

module _ {S R H E : Type 0} (methods : Methods) (st : EventStore S E) (t : Transport R E)
    (ctx : Context) (opts : Options E) where
  abbrev pub act : Action S R H E → Service S R H → Service S R H
  act (started done interval id) s = (start_auto_sync {E = E} done interval id s).0
  act stopped s = cancel_auto_sync s
  act (subscribed handler) s = (subscribe {E = E} handler s).0
  act (shut_down close_transport close_store) s = (close close_transport close_store s).0
  act (synced projections) s = record s {
    manager = (sync methods st t ctx opts projections s.manager).0;
  }
  act (ticked healthy projections) s = (tick methods st t ctx opts healthy projections s).0

  abbrev pub run : List (Action S R H E) → Service S R H → Service S R H
  run [] s = s
  run (a ∷ rest) s = run rest (act a s)

abbrev pub running : Option ℕ → List ℕ
running none = []
running (some id) = id ∷ []

-- The context of the automatic sync that runs is the only one that is not cancelled, and after closing
-- there is none.
pub record IsOrderly {S R H : Type 0} (s : Service S R H) : Type 0 where
  pub at_most_one : s.live ≡ running s.auto_sync
  pub none_when_closed : s.manager.closed ≡ true → s.auto_sync ≡ none

same_number : (n : ℕ) → (n == n) ≡ true
same_number n = ground arith

module _ {S R H : Type 0} where
  cancel_auto_sync-IsOrderly :
      (s : Service S R H)
      → IsOrderly s
      → IsOrderly (cancel_auto_sync s) × ((cancel_auto_sync s).auto_sync ≡ none)
  unfolding cancel_auto_sync
  cancel_auto_sync-IsOrderly s v = by_auto s.auto_sync refl
    where
      by_auto :
          (auto : Option ℕ)
          → s.auto_sync ≡ auto
          → IsOrderly (elim auto as (λ o. Service S R H) [
            | none ↦ s
            | some id ↦ record s {
              auto_sync = none;
              interval = pos 0;
              live = keep (λ j. not (j == id)) s.live;
            }
          ])
            × ((elim auto as (λ o. Service S R H) [
              | none ↦ s
              | some id ↦ record s {
                auto_sync = none;
                interval = pos 0;
                live = keep (λ j. not (j == id)) s.live;
              }
            ]).auto_sync
                ≡ none)
      by_auto none is = (v, is)
      by_auto (some id) is = (
        record {
          at_most_one =
              ap (keep (λ j. not (j == id))) (v.at_most_one ∙ ap running is)
              ∙ ap (λ b. if not b then id ∷ [] else []) (same_number id);
          none_when_closed = λ shut. refl;
        },
        refl,
      )

module _ {S R H : Type 0} where
  start_auto_sync-IsOrderly :
      (E : Type 0) (done : Bool) (interval : ℤ) (id : ℕ) (s : Service S R H)
      → IsOrderly s
      → IsOrderly (start_auto_sync {E = E} done interval id s).0
  unfolding start_auto_sync
  start_auto_sync-IsOrderly E done interval id s v =
      if_both {A = Service S R H × Option (ServiceError E)} (λ x. IsOrderly x.0) done v
        (by_state s.auto_sync s.manager.closed refl refl)
    where
      begun : Service S R H
      begun = record s { auto_sync = some id; interval = interval; live = id ∷ s.live }

      by_state :
          (auto : Option ℕ) (closed : Bool)
          → s.auto_sync ≡ auto
          → s.manager.closed ≡ closed
          → IsOrderly
              (elim auto as (λ o. Service S R H × Option (ServiceError E)) [
                | some id ↦ (s, none)
                | none ↦
                    if closed
                    then (s, some service_closed)
                    else if not (is_positive interval)
                    then (s, some bad_interval)
                    else (begun, none)
              ]).0
      by_state (some running_id) closed is shut = v
      by_state none true is shut = v
      by_state none false is still_open =
          if_both {A = Service S R H × Option (ServiceError E)} (λ x. IsOrderly x.0)
            (not (is_positive interval)) v
            (record {
              at_most_one = ap (λ l. id ∷ l) (v.at_most_one ∙ ap running is);
              none_when_closed = λ shut. let no = sym still_open ∙ shut in absurd (ground arith);
            })

  subscribe-IsOrderly :
      (E : Type 0) (handler : H) (s : Service S R H)
      → IsOrderly s
      → IsOrderly (subscribe {E = E} handler s).0
  unfolding subscribe
  subscribe-IsOrderly E handler s v =
      if_both {A = Service S R H × Option (ServiceError E)} (λ x. IsOrderly x.0) s.manager.closed v
        (record { at_most_one = v.at_most_one; none_when_closed = v.none_when_closed })

module _ {S R H E : Type 0} where
  close-IsOrderly :
      (close_transport : R → R × Option E) (close_store : S → S × Option E) (s : Service S R H)
      → IsOrderly s
      → IsOrderly (close close_transport close_store s).0
  unfolding close
  close-IsOrderly close_transport close_store s v =
      let (kept, over) = cancel_auto_sync-IsOrderly s v in
      if_both {A = Service S R H × Option (ServiceError E)} (λ x. IsOrderly x.0) s.manager.closed v
        (record { at_most_one = kept.at_most_one; none_when_closed = λ shut. over })

module _ {S R H E : Type 0} (methods : Methods) (st : EventStore S E) (t : Transport R E)
    (ctx : Context) (opts : Options E) where
  with_manager-IsOrderly :
      (mgr : Manager S R) (s : Service S R H)
      → mgr.closed ≡ s.manager.closed
      → IsOrderly s
      → IsOrderly (record s { manager = mgr })
  with_manager-IsOrderly mgr s same v = record {
    at_most_one = v.at_most_one;
    none_when_closed = λ shut. v.none_when_closed (sym same ∙ shut);
  }

  after_sync-IsOrderly :
      (s : Service S R H) (out : Manager S R × Result (SyncError E) (SyncResult E))
      → out.0.closed ≡ s.manager.closed
      → IsOrderly s
      → IsOrderly (after_sync s out).0
  after_sync-IsOrderly s (mgr, ok result) same v = with_manager-IsOrderly mgr s same v
  after_sync-IsOrderly s (mgr, err e) same v = with_manager-IsOrderly mgr s same v

  act-IsOrderly :
      (a : Action S R H E) (s : Service S R H)
      → IsOrderly s
      → IsOrderly (act methods st t ctx opts a s)
  unfolding tick
  act-IsOrderly (started done interval id) s v = start_auto_sync-IsOrderly E done interval id s v
  act-IsOrderly stopped s v = (cancel_auto_sync-IsOrderly s v).0
  act-IsOrderly (subscribed handler) s v = subscribe-IsOrderly E handler s v
  act-IsOrderly (shut_down close_transport close_store) s v =
      close-IsOrderly close_transport close_store s v
  act-IsOrderly (synced projections) s v =
      with_manager-IsOrderly _ s (sync_keeps_closed methods st t ctx opts projections s.manager) v
  act-IsOrderly (ticked healthy projections) s v =
      if_both {A = Service S R H × List (H × SyncResult E)} (λ x. IsOrderly x.0)
        (not (can_auto_sync s.manager.machine.state)) v
        (if_both {A = Service S R H × List (H × SyncResult E)} (λ x. IsOrderly x.0) (not healthy) v
          (after_sync-IsOrderly s (sync methods st t ctx opts projections s.manager)
            (sync_keeps_closed methods st t ctx opts projections s.manager) v))

  -- However a manager is used, at most one automatic sync has a context that is not cancelled: the one
  -- that `StopAutoSync` would stop. Once the manager is closed there is none.
  pub run-IsOrderly :
      (actions : List (Action S R H E)) (s : Service S R H)
      → IsOrderly s
      → IsOrderly (run methods st t ctx opts actions s)
  run-IsOrderly [] s v = v
  run-IsOrderly (a ∷ rest) s v =
      run-IsOrderly rest (act methods st t ctx opts a s) (act-IsOrderly a s v)
