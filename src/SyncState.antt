-- ===== src/SyncState.antt =====
-- synckit/sync_state.go: the states of a sync operation and the two forms of its rules.
pub mod Shape
mod Tests
use go_sync_kit.Base.{
  ℕ, Option, none, some, List, [], ◌∷◌, Bool, true, false, ◌||◌, ◌≡◌, ◌⊎◌, ◌≢◌, refl, arith,
}
use go_sync_kit.Base.Int.{pos}
use go_sync_kit.Machine.{TransitionRules, Machine, allow, allowed_from, contains, new}

pub data SyncState : Type 0 where
  idle initializing pushing pulling resolving_conflicts completed failed cancelled : SyncState

unfoldable pub SyncState-discrete : Discrete SyncState
SyncState-discrete = hlevel

abbrev pub is_terminal : SyncState → Bool
is_terminal completed = true
is_terminal failed = true
is_terminal cancelled = true
is_terminal _ = false

abbrev pub is_active : SyncState → Bool
is_active initializing = true
is_active pushing = true
is_active pulling = true
is_active resolving_conflicts = true
is_active _ = false

abbrev pub can_auto_sync : SyncState → Bool
can_auto_sync idle = true
can_auto_sync _ = false

-- `SyncStateTransitionRules`.
abbrev pub sync_rules : TransitionRules SyncState
sync_rules =
    (idle, initializing ∷ [])
    ∷ (initializing, pushing ∷ pulling ∷ failed ∷ cancelled ∷ [])
    ∷ (pushing, pulling ∷ completed ∷ failed ∷ cancelled ∷ [])
    ∷ (pulling, pushing ∷ resolving_conflicts ∷ completed ∷ failed ∷ cancelled ∷ [])
    ∷ (resolving_conflicts, completed ∷ failed ∷ cancelled ∷ [])
    ∷ (completed, idle ∷ [])
    ∷ (failed, idle ∷ [])
    ∷ (cancelled, idle ∷ [])
    ∷ []

-- The calls of `Allow` in `NewSyncStateMachine`.
pub built_rules : TransitionRules SyncState
unfolding allow
built_rules = add cancelled (idle ∷ []) (
    add failed (idle ∷ []) (
      add completed (idle ∷ []) (
        add resolving_conflicts (completed ∷ failed ∷ cancelled ∷ []) (
          add pulling (pushing ∷ resolving_conflicts ∷ completed ∷ failed ∷ cancelled ∷ []) (
            add pushing (pulling ∷ completed ∷ failed ∷ cancelled ∷ []) (
              add initializing (pushing ∷ pulling ∷ failed ∷ cancelled ∷ [])
                (add idle (initializing ∷ []) [])))))))
  where
    add : SyncState → List SyncState → TransitionRules SyncState → TransitionRules SyncState
    add = allow SyncState-discrete

-- `NewSyncStateMachine`, at a time.
pub new_machine : ℕ → Option (Machine SyncState)
unfolding new built_rules
new_machine now = new now (record {
  initial_state = idle;
  transition_rules = some built_rules;
  validator = none;
  max_history_size = pos 50;
})

built-eq : built_rules ≡ sync_rules
unfolding built_rules SyncState-discrete
built-eq = refl
