-- ===== src/Manager/Moves.antt =====
-- synckit/manager.go: the calls of the state machine, under the rules of synckit/sync_state.go.
use go_sync_kit.Base.{
  ℕ, none, some, Bool, true, false, ◌≡◌, refl, arith, inl, inr, Bool-cases, if◌then◌else◌,
}
use go_sync_kit.Machine.{Machine, invalid_transition, transition, contains, perform}
use go_sync_kit.Machine.Steps.{transition_ok}
use go_sync_kit.SyncState.{
  SyncState, SyncState-discrete, idle, initializing, pushing, pulling, resolving_conflicts,
  completed, failed, cancelled, sync_rules,
}
use go_sync_kit.Manager.{Context, SyncResult, move_to}
use go_sync_kit.Manager.Sync.{settle, final_state, has_errors}

-- A machine with the rules of sync operations, no validator, in state `s`.
pub record At (s : SyncState) (m : Machine SyncState) : Type 0 where
  pub rules : m.rules ≡ sync_rules
  pub validator : m.validator ≡ none
  pub state : m.state ≡ s

abbrev pub allows : SyncState → SyncState → Bool
allows = contains SyncState-discrete sync_rules

module _ (ctx : Context) (n : ℕ) where
  pub move_allowed :
      (to : SyncState) {s : SyncState} (m : Machine SyncState)
      → At s m
      → allows s to ≡ true
      → ((move_to ctx n to m).1 ≡ none) × At to (move_to ctx n to m).0
  move_allowed to {s} m at ok =
      let fine =
        transition_ok SyncState-discrete (ctx.now n) (ctx.transition_id n) to m
          (rw (at.rules, at.state) ok) (rw at.validator refl) in
      rw fine (
        unfold perform in
        (refl, record { rules = at.rules; validator = at.validator; state = refl }))

  pub move_refused :
      (to : SyncState) {s : SyncState} (m : Machine SyncState)
      → At s m
      → allows s to ≡ false
      → move_to ctx n to m ≡ (m, some invalid_transition)
  unfolding transition
  move_refused to {s} m at no_way =
      let refused : contains SyncState-discrete m.rules m.state to ≡ false =
        rw (at.rules, at.state) no_way in
      rw refused refl

-- The transitions that begin an operation.
pub may_start :
    (allows idle initializing ≡ true)
    × (allows initializing pulling ≡ true)
    × (allows initializing pushing ≡ true)
unfolding contains SyncState-discrete
may_start = (refl, refl, refl)

-- The states from which an operation can end.
abbrev pub is_working : SyncState → Bool
is_working pulling = true
is_working pushing = true
is_working resolving_conflicts = true
is_working _ = false

working_may_end :
    (s : SyncState) → is_working s ≡ true → (allows s completed ≡ true) × (allows s failed ≡ true)
unfolding contains SyncState-discrete
working_may_end pulling h = (refl, refl)
working_may_end pushing h = (refl, refl)
working_may_end resolving_conflicts h = (refl, refl)
working_may_end idle h = absurd (ground arith)
working_may_end initializing h = absurd (ground arith)
working_may_end completed h = absurd (ground arith)
working_may_end failed h = absurd (ground arith)
working_may_end cancelled h = absurd (ground arith)

ended_may_rest : (allows completed idle ≡ true) × (allows failed idle ≡ true)
unfolding contains SyncState-discrete
ended_may_rest = (refl, refl)

end_and_rest :
    (s : SyncState) (bad : Bool)
    → is_working s ≡ true
    → (allows s (if bad then failed else completed) ≡ true)
      × (allows (if bad then failed else completed) idle ≡ true)
end_and_rest s true w = ((working_may_end s w).1, ended_may_rest.1)
end_and_rest s false w = ((working_may_end s w).0, ended_may_rest.0)

-- A machine in one of the states of a running operation.
pub record IsWorking (m : Machine SyncState) : Type 0 where
  pub phase : SyncState
  pub working : is_working phase ≡ true
  pub at : At phase m

-- The deferred transitions of `Sync` bring a working machine back to idle, whatever the result.
pub settle-idle :
    {E : Type 0} (ctx : Context) (r : SyncResult E) (m : Machine SyncState)
    → IsWorking m
    → At idle (settle ctx r m)
unfolding settle
settle-idle ctx r m w =
    let (ends, rests) = end_and_rest w.phase (has_errors r) w.working in
    (move_allowed ctx 5 idle _ (move_allowed ctx 4 (final_state r) m w.at ends).1 rests).1

-- A move to another such state, allowed or refused, leaves the machine in such a state.
pub move-IsWorking :
    (ctx : Context) (n : ℕ) (to : SyncState) (m : Machine SyncState)
    → is_working to ≡ true
    → IsWorking m
    → IsWorking (move_to ctx n to m).0
move-IsWorking ctx n to m target w = elim (Bool-cases (allows w.phase to)) [
  | inl ok ↦ record { phase = to; working = target; at = (move_allowed ctx n to m w.at ok).1 }
  | inr no_way ↦ rw (move_refused ctx n to m w.at no_way) w
]
