-- ===== src/Manager/Conflicted.antt =====
-- synckit/manager.go: a sync operation that resolved a conflict does not push.
use go_sync_kit.Base.{
  ℕ, ◌<◌, length, Option, none, some, List, [], ◌∷◌, true, ◌≡◌, refl, arith, if_both,
}
use go_sync_kit.Types.{EventWithVersion, Version, Conflict, ResolvedConflict, Result, ok, err}
use go_sync_kit.Machine.{Machine, TransitionError, contains}
use go_sync_kit.SyncState.{SyncState, SyncState-discrete, pulling, resolving_conflicts}
use go_sync_kit.Manager.{
  EventStore, Transport, Methods, Options, Context, SyncError, move_to, apply_filter,
}
use go_sync_kit.Manager.Pull.{
  Pulled, Stage, proceed, abandon, fail, pull, pull_since, pull_events, conflict_stage,
  against_local, resolve_conflicts, resolve_in_state, resolve_all, resolution, after_stage, finish,
  store_events,
}
use go_sync_kit.Manager.Conflicts.{detect_conflicts}
use go_sync_kit.Manager.Moves.{At, allows, move_allowed}

-- A stage that resolved conflicts left the machine in the state of conflict resolution.
abbrev IsMarked : {E : Type 0} → Machine SyncState × Stage E → Type 0
IsMarked (m, proceed evs n) = 0 < n → At resolving_conflicts m
IsMarked (m, abandon e) = Unit
IsMarked (m, fail e) = Unit

module _ {S R E : Type 0} (methods : Methods) (st : EventStore S E) (t : Transport R E)
    (ctx : Context) (opts : Options E) where
  resolve_in_state-IsMarked :
      (resolve : Conflict → Result E ResolvedConflict) (cs : List Conflict)
      (moved : Machine SyncState × Option TransitionError)
      → At resolving_conflicts moved.0
      → IsMarked (resolve_in_state ctx resolve cs moved)
  unfolding resolve_in_state
  resolve_in_state-IsMarked resolve cs (m, some e) at = tt
  resolve_in_state-IsMarked resolve cs (m, none) at =
      if_both {A = Machine SyncState × Stage E} IsMarked ctx.done_at_resolution tt
        (resolved (resolve_all resolve cs []))
    where
      resolved : (r : Result E (List EventWithVersion)) → IsMarked (m, resolution (length cs) r)
      resolved (err e) = tt
      resolved (ok evs) = λ _. at

  may_resolve : allows pulling resolving_conflicts ≡ true
  unfolding contains SyncState-discrete
  may_resolve = refl

  resolve_conflicts-IsMarked :
      (resolve : Conflict → Result E ResolvedConflict) (cs : List Conflict)
      (remote : List EventWithVersion) (m : Machine SyncState)
      → At pulling m
      → IsMarked (resolve_conflicts methods st t ctx opts resolve cs remote m)
  unfolding resolve_conflicts
  resolve_conflicts-IsMarked resolve [] remote m at = λ h. absurd (omega arith)
  resolve_conflicts-IsMarked resolve (c ∷ cs) remote m at =
      resolve_in_state-IsMarked resolve (c ∷ cs) (move_to ctx 2 resolving_conflicts m)
        (move_allowed ctx 2 resolving_conflicts m at may_resolve).1

  conflict_stage-IsMarked :
      (resolver : Option (Conflict → Result E ResolvedConflict)) (since : Version)
      (remote : List EventWithVersion) (s : S) (m : Machine SyncState)
      → At pulling m
      → IsMarked (conflict_stage methods st t ctx opts resolver since remote s m)
  unfolding conflict_stage
  conflict_stage-IsMarked none since remote s m at = λ h. absurd (omega arith)
  conflict_stage-IsMarked (some resolve) since remote s m at = by_local (st.load since s)
    where
      by_local :
          (local : Result E (List EventWithVersion))
          → IsMarked (against_local methods st t ctx opts resolve local remote m)
      by_local (err e) = tt
      by_local (ok []) = λ h. absurd (omega arith)
      by_local (ok (l ∷ local)) =
          resolve_conflicts-IsMarked resolve (detect_conflicts methods (l ∷ local) remote) remote m
            at

  abbrev IsMarkedPull : Pulled S E → Type 0
  IsMarkedPull p = 0 < p.result.conflicts_resolved → At resolving_conflicts p.machine

  after_stage-IsMarked :
      (s : S) (staged : Machine SyncState × Stage E)
      → IsMarked staged
      → IsMarkedPull (after_stage methods st t ctx opts s staged)
  unfolding after_stage
  after_stage-IsMarked s (m, fail e) marked = λ h. absurd (omega arith)
  after_stage-IsMarked s (m, abandon e) marked = λ h. absurd (omega arith)
  after_stage-IsMarked s (m, proceed evs n) marked =
      by_stored (store_events methods st t ctx opts 0 evs s)
    where
      by_stored :
          (stored : S × ℕ × Option (SyncError E))
          → IsMarkedPull (finish methods st t ctx opts evs n m stored)
      by_stored (s', count, some e) = marked
      by_stored (s', count, none) = marked

  -- A pull that resolved conflicts leaves the machine in the state of conflict resolution.
  pub pull-IsMarked :
      (s : S) (r : R) (m : Machine SyncState)
      → At pulling m
      → 0 < (pull methods st t ctx opts s r m).result.conflicts_resolved
      → At resolving_conflicts (pull methods st t ctx opts s r m).machine
  unfolding pull
  pull-IsMarked s r m at = by_latest (st.latest_version s)
    where
      by_events :
          (since : Version) (evs : Result E (List EventWithVersion))
          → IsMarkedPull (pull_events methods st t ctx opts since evs s m)
      by_events since (err e) = λ h. absurd (omega arith)
      by_events since (ok []) = λ h. absurd (omega arith)
      by_events since (ok (ev ∷ rest)) =
          let remote = apply_filter opts.filter (ev ∷ rest) in
          after_stage-IsMarked s
            (conflict_stage methods st t ctx opts opts.resolver since remote s m)
            (conflict_stage-IsMarked opts.resolver since remote s m at)

      by_latest :
          (since : Result E Version) → IsMarkedPull (pull_since methods st t ctx opts since s r m)
      by_latest (err e) = λ h. absurd (omega arith)
      by_latest (ok since) = by_events since (t.pull since r)
