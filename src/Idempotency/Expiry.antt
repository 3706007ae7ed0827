-- ===== src/Idempotency/Expiry.antt =====
-- transport/httptransport/idempotency.go: what `Check` answers, and that `cleanup` does not change it.
use go_sync_kit.Base.{
  ℕ, ◌≤◌, String, Option, none, some, Bool, true, false, if◌then◌else◌, ◌≡◌, refl, ap, ◌∙◌, arith,
}
use go_sync_kit.Base.Int.{ℤ, pos, negsuc}
use go_sync_kit.Base.Dict.{lookup, HasDistinctKeys}
use go_sync_kit.Idempotency.{
  IdempotencyEntry, IdempotencyTracker, is_expired, fresh_response, check, cleanup,
}
use go_sync_kit.Idempotency.Keys.{unless_expired, lookup-drop_expired}

stays_expired :
    (now later timestamp : ℕ) (max_age : ℤ)
    → now ≤ later
    → is_expired now timestamp max_age ≡ true
    → is_expired later timestamp max_age ≡ true
stays_expired now later timestamp (pos n) order h = ground arith
stays_expired now later timestamp (negsuc n) order h = ground arith

module _ {R : Type 0} where
  fresh_response-unless_expired :
      (now later : ℕ) (max_age : ℤ) (found : Option (IdempotencyEntry R))
      → now ≤ later
      → fresh_response later max_age (unless_expired now max_age found)
        ≡ fresh_response later max_age found
  fresh_response-unless_expired now later max_age none order = refl
  fresh_response-unless_expired now later max_age (some entry) order =
      by_test (is_expired now entry.timestamp max_age) refl
    where
      by_test :
          (b : Bool)
          → is_expired now entry.timestamp max_age ≡ b
          → fresh_response later max_age (if b then none else some entry)
            ≡ fresh_response later max_age (some entry)
      by_test true h = rw (stays_expired now later entry.timestamp max_age order h) refl
      by_test false h = refl

  -- Removing the expired entries changes no answer: a `Check` at the time of a `cleanup` or later
  -- returns what it would have returned without it.
  pub check-cleanup :
      (now later : ℕ) (key : String) (t : IdempotencyTracker R)
      → HasDistinctKeys t.keys
      → now ≤ later
      → check later key (cleanup now t) ≡ check later key t
  unfolding check cleanup
  check-cleanup now later key t distinct order =
      ap (fresh_response later t.max_age) (lookup-drop_expired now t.max_age key t.keys distinct)
      ∙ fresh_response-unless_expired now later t.max_age (lookup key t.keys) order
