-- ===== src/Idempotency/Eviction.antt =====
-- transport/httptransport/idempotency.go: the entry that `Record` evicts.
use go_sync_kit.Base.{
  ℕ, ◌≤◌, ◌<◌, String, none, some, [], ◌∷◌, Bool, true, false, ltb, if◌then◌else◌, ◌≡◌, ◌⊎◌, inl,
  inr, refl, ap, sym, ◌∙◌, arith, eq_iff, str_eq, length, if_eq_true, ltb→lt, ltb→le,
}
use go_sync_kit.Base.Dict.{Dict, lookup, HasDistinctKeys, lookup-insert, lookup-erase}
use go_sync_kit.Idempotency.{
  IdempotencyEntry, IdempotencyTracker, is_full, find_oldest, oldest_key, make_room, record_key,
  size,
}
use go_sync_kit.Idempotency.Keys.{AllSince, AllSince-trans}

module _ {R : Type 0} where
  Stands : String × ℕ → Dict (IdempotencyEntry R) → Type 0
  Stands found m =
      (entry : IdempotencyEntry R) × (lookup found.0 m ≡ some entry) × (entry.timestamp ≡ found.1)

  Stands-first :
      (key : String) (entry : IdempotencyEntry R) (rest : Dict (IdempotencyEntry R))
      (found : String × ℕ)
      → found ≡ (key, entry.timestamp)
      → Stands found ((key, entry) ∷ rest)
  unfolding Stands lookup
  Stands-first key entry rest found is = (
    entry,
    if_eq_true _ _ ((eq_iff key found.0).1 (sym (ap (λ x. x.0) is))),
    sym (ap (λ x. x.1) is),
  )

  Stands-later :
      (key : String) (entry : IdempotencyEntry R) (rest : Dict (IdempotencyEntry R))
      (found : String × ℕ)
      → lookup key rest ≡ none
      → Stands found rest
      → Stands found ((key, entry) ∷ rest)
  unfolding Stands lookup
  Stands-later key entry rest found absent (e, at, time) =
      (e, ground (arith, eq_iff key found.0), time)

  -- The key found is the one to start from or one of the map, and none is older.
  abbrev IsOldest : String × ℕ → Dict (IdempotencyEntry R) → String × ℕ → Type 0
  IsOldest best m found =
      (found.1 ≤ best.1) × AllSince found.1 m × ((found ≡ best) ⊎ Stands found m)

  find_oldest-IsOldest :
      (best : String × ℕ) (m : Dict (IdempotencyEntry R))
      → HasDistinctKeys m
      → IsOldest best m (find_oldest best m)
  unfolding find_oldest
  find_oldest-IsOldest best [] d = (omega arith, tt, inl refl)
  find_oldest-IsOldest best ((key, entry) ∷ rest) d =
      by_test (ltb entry.timestamp best.1) refl
        (find_oldest-IsOldest (key, entry.timestamp) rest d.1) (find_oldest-IsOldest best rest d.1)
    where
      by_test :
          (b : Bool)
          → ltb entry.timestamp best.1 ≡ b
          → IsOldest (key, entry.timestamp) rest (find_oldest (key, entry.timestamp) rest)
          → IsOldest best rest (find_oldest best rest)
          → IsOldest best
              ((key, entry) ∷ rest)
              (find_oldest (if b then (key, entry.timestamp) else best) rest)
      by_test true h (low, all, inl is) same =
          (omega (arith, low, ltb→lt _ _ h), (low, all), inr (Stands-first key entry rest _ is))
      by_test true h (low, all, inr later) same = (
        omega (arith, low, ltb→lt _ _ h),
        (low, all),
        inr (Stands-later key entry rest _ d.0 later),
      )
      by_test false h older (low, all, inl is) =
          (low, (omega (arith, low, ltb→le _ _ h), all), inl is)
      by_test false h older (low, all, inr later) = (
        low,
        (omega (arith, low, ltb→le _ _ h), all),
        inr (Stands-later key entry rest _ d.0 later),
      )

  pub oldest_key_lem :
      (m : Dict (IdempotencyEntry R))
      → HasDistinctKeys m
      → 0 < length m
      → (entry : IdempotencyEntry R) × (lookup (oldest_key m) m ≡ some entry)
        × AllSince entry.timestamp m
  unfolding oldest_key Stands
  oldest_key_lem [] d some_key = absurd (omega arith)
  oldest_key_lem ((key, entry) ∷ rest) d some_key =
      by_origin (find_oldest-IsOldest (key, entry.timestamp) rest d.1)
    where
      by_origin :
          IsOldest (key, entry.timestamp) rest (find_oldest (key, entry.timestamp) rest)
          → (e : IdempotencyEntry R) × (lookup
                (find_oldest (key, entry.timestamp) rest).0
                ((key, entry) ∷ rest)
              ≡ some e)
            × AllSince e.timestamp ((key, entry) ∷ rest)
      by_origin (low, all, inl is) =
          let (e, at, time) = Stands-first key entry rest _ is in
          (e, at, (omega (arith, low, time), AllSince-trans rest (omega (arith, time)) all))
      by_origin (low, all, inr later) =
          let (e, at, time) = Stands-later key entry rest _ d.0 later in
          (e, at, (omega (arith, low, time), AllSince-trans rest (omega (arith, time)) all))

  -- `Record` on a full tracker that is not empty takes out one entry, and none is older than it; the
  -- given key then has the response, and all other keys have what they had.
  pub record_key-evicts :
      (now : ℕ) (key : String) (response : R) (t : IdempotencyTracker R)
      → HasDistinctKeys t.keys
      → 0 < size t
      → is_full (size t) t.max_size ≡ true
      → (evicted : String) × (entry : IdempotencyEntry R) × (lookup evicted t.keys ≡ some entry)
        × AllSince entry.timestamp t.keys
        × ((j : String)
            → lookup j (record_key now key response t).keys ≡ (
                if str_eq key j
                then some (record { timestamp = now; response = response })
                else if str_eq evicted j
                then none
                else lookup j t.keys))
  unfolding record_key make_room
  record_key-evicts now key response t distinct some_key full =
      let (entry, at, all) = oldest_key_lem t.keys distinct some_key in
      (
        oldest_key t.keys,
        entry,
        at,
        all,
        λ j.
            lookup-insert key j _ _
            ∙ ap
                (λ l.
                  if str_eq key j
                  then some (record { timestamp = now; response = response })
                  else l)
                (ap (lookup j) (if_eq_true _ _ full) ∙ lookup-erase (oldest_key t.keys) j t.keys),
      )
