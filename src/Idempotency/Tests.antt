-- ===== src/Idempotency/Tests.antt =====
-- transport/httptransport/idempotency.go: examples, with the times of a clock as numbers.
use go_sync_kit.Base.{ℕ, String, none, some, [], ◌∷◌, if◌then◌else◌, str_eq, ◌≡◌, refl, arith}
use go_sync_kit.Base.Int.{pos}
use go_sync_kit.Base.Dict.{lookup, HasDistinctKeys}
use go_sync_kit.Idempotency.{IdempotencyEntry, IdempotencyTracker, check, cleanup, record_key}
use go_sync_kit.Idempotency.Keys.{AllSince}
use go_sync_kit.Idempotency.Eviction.{record_key-evicts}
use go_sync_kit.Idempotency.Expiry.{check-cleanup}
use go_sync_kit.Idempotency.Capacity.{recorded, cleaned, run, IsBounded, run-IsBounded}

abbrev entry_at : ℕ → ℕ → IdempotencyEntry ℕ
entry_at time response = record { timestamp = time; response = response }

-- Two keys, of which the second is the older one, in a tracker for two.
abbrev two_keys : IdempotencyTracker ℕ
two_keys = record {
  keys = ("a", entry_at 30 1) ∷ ("b", entry_at 20 2) ∷ [];
  max_age = pos 15;
  max_size = pos 2;
}

two_keys-HasDistinctKeys : HasDistinctKeys two_keys.keys
unfolding lookup
two_keys-HasDistinctKeys = (refl, (refl, tt))

check-cleanup_example : check 41 "b" (cleanup 40 two_keys) ≡ check 41 "b" two_keys
check-cleanup_example = check-cleanup 40 41 "b" two_keys two_keys-HasDistinctKeys (omega arith)

record_key-evicts_example :
    (evicted : String) × (entry : IdempotencyEntry ℕ) × (lookup evicted two_keys.keys ≡ some entry)
    × AllSince entry.timestamp two_keys.keys
    × ((j : String)
        → lookup j (record_key 41 "c" 3 two_keys).keys ≡ (
            if str_eq "c" j
            then some (entry_at 41 3)
            else if str_eq evicted j
            then none
            else lookup j two_keys.keys))
record_key-evicts_example =
    record_key-evicts 41 "c" 3 two_keys two_keys-HasDistinctKeys (omega arith) refl

two_keys-IsBounded : IsBounded 2 two_keys
two_keys-IsBounded = record {
  max_size = refl;
  distinct = two_keys-HasDistinctKeys;
  within = omega arith;
}

run-IsBounded_example :
    IsBounded 2 (run (recorded 41 "c" 3 ∷ cleaned 50 ∷ recorded 51 "c" 4 ∷ []) two_keys)
run-IsBounded_example =
    run-IsBounded (recorded 41 "c" 3 ∷ cleaned 50 ∷ recorded 51 "c" 4 ∷ []) 1 two_keys
      two_keys-IsBounded

-- Recording again a key that is there, with the tracker full, evicts another key.
record_again_evicts : check 41 "b" (record_key 31 "a" 3 two_keys) ≡ none
unfolding check record_key lookup
record_again_evicts = refl
