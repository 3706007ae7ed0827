-- ===== src/SyncState/Tests.antt =====
-- synckit/sync_state.go: examples.
use go_sync_kit.Base.{true, ◌≡◌, ◌≢◌, refl}
use go_sync_kit.Machine.{contains}
use go_sync_kit.SyncState.{SyncState-discrete, idle, pulling, pushing, sync_rules}

pull_to_push : contains SyncState-discrete sync_rules pulling pushing ≡ true
unfolding contains SyncState-discrete
pull_to_push = refl

pulling_is_busy : pulling ≢ idle
pulling_is_busy e = cc
