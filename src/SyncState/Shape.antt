-- ===== src/SyncState/Shape.antt =====
-- synckit/sync_state.go: the transitions that the rules allow.
use go_sync_kit.Base.{true, ◌||◌, ◌≡◌, arith, ◌⊎◌, ◌≢◌}
use go_sync_kit.Machine.{contains}
use go_sync_kit.SyncState.{
  SyncState, SyncState-discrete, idle, initializing, failed, cancelled, is_active, is_terminal,
  sync_rules,
}

-- What the rules allow leads from idle to initializing, from an active state to another one or to a
-- terminal one, or from a terminal state to idle.
pub rules_shape :
    (s t : SyncState)
    → contains SyncState-discrete sync_rules s t ≡ true
    → ((s ≡ idle) × (t ≡ initializing))
      ⊎ (is_active s ≡ true) × ((is_active t || is_terminal t) ≡ true)
      ⊎ (is_terminal s ≡ true) × (t ≡ idle)
unfolding contains SyncState-discrete
rules_shape s t h = ground arith

-- Every state but idle can return there: it allows idle itself, or both failed and cancelled, which
-- allow idle.
pub rules_return :
    (s : SyncState)
    → s ≢ idle
    → (contains SyncState-discrete sync_rules s idle ≡ true)
      ⊎ (contains SyncState-discrete sync_rules s failed ≡ true)
        × (contains SyncState-discrete sync_rules s cancelled ≡ true)
        × (contains SyncState-discrete sync_rules failed idle ≡ true)
        × (contains SyncState-discrete sync_rules cancelled idle ≡ true)
unfolding contains SyncState-discrete
rules_return s other = ground arith
