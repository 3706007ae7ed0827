-- ===== src/Idempotency/Keys.antt =====
-- transport/httptransport/idempotency.go: the keys that the steps leave in the map.
use go_sync_kit.Base.{
  ℕ, ◌≤◌, String, Option, none, some, [], ◌∷◌, if◌then◌else◌, ◌≡◌, refl, arith, eq_iff, length,
}
use go_sync_kit.Base.Int.{ℤ}
use go_sync_kit.Base.Dict.{Dict, lookup, HasDistinctKeys}
use go_sync_kit.Idempotency.{IdempotencyEntry, is_expired, drop_expired}

module _ {R : Type 0} where
  abbrev pub unless_expired : ℕ → ℤ → Option (IdempotencyEntry R) → Option (IdempotencyEntry R)
  unless_expired now max_age none = none
  unless_expired now max_age (some entry) =
      if is_expired now entry.timestamp max_age then none else some entry

  pub lookup-drop_expired :
      (now : ℕ) (max_age : ℤ) (key : String) (m : Dict (IdempotencyEntry R))
      → HasDistinctKeys m
      → lookup key (drop_expired now max_age m) ≡ unless_expired now max_age (lookup key m)
  unfolding lookup drop_expired
  lookup-drop_expired now max_age key [] d = refl
  lookup-drop_expired now max_age key ((k, entry) ∷ rest) d =
      ground (arith, eq_iff k key, lookup-drop_expired now max_age key rest d.1, d.0)

  pub drop_expired-HasDistinctKeys :
      (now : ℕ) (max_age : ℤ) (m : Dict (IdempotencyEntry R))
      → HasDistinctKeys m
      → HasDistinctKeys (drop_expired now max_age m)
  unfolding drop_expired
  drop_expired-HasDistinctKeys now max_age [] d = tt
  drop_expired-HasDistinctKeys now max_age ((k, entry) ∷ rest) d = ground (
    arith,
    lookup-drop_expired now max_age k rest d.1,
    d.0,
    drop_expired-HasDistinctKeys now max_age rest d.1,
  )

  -- The entry found is at least as old as the one to start from and as all of the map.
  abbrev pub AllSince : ℕ → Dict (IdempotencyEntry R) → Type 0
  AllSince time [] = Unit
  AllSince time ((k, entry) ∷ rest) = (time ≤ entry.timestamp) × AllSince time rest

  pub AllSince-trans :
      {a b : ℕ} (m : Dict (IdempotencyEntry R)) → a ≤ b → AllSince b m → AllSince a m
  AllSince-trans [] h s = tt
  AllSince-trans ((k, entry) ∷ rest) h s = (omega (arith, s.0), AllSince-trans rest h s.1)

  pub length-drop_expired :
      (now : ℕ) (max_age : ℤ) (m : Dict (IdempotencyEntry R))
      → length (drop_expired now max_age m) ≤ length m
  unfolding drop_expired
  length-drop_expired now max_age [] = omega arith
  length-drop_expired now max_age ((k, entry) ∷ rest) =
      ground (arith, length-drop_expired now max_age rest)
