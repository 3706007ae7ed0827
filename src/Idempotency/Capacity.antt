-- ===== src/Idempotency/Capacity.antt =====
-- transport/httptransport/idempotency.go: the bound on the number of keys.
use go_sync_kit.Base.{
  ℕ, suc, ◌≤◌, String, List, [], ◌∷◌, Bool, true, false, leb, if◌then◌else◌, ◌≡◌, refl, ap, sym,
  ◌∙◌, arith, length, if_eq_true,
}
use go_sync_kit.Base.Int.{pos}
use go_sync_kit.Base.Dict.{
  erase, is_some, HasDistinctKeys, erase-HasDistinctKeys, insert-HasDistinctKeys, length-insert,
  length-erase,
}
use go_sync_kit.Idempotency.{
  IdempotencyTracker, is_full, oldest_key, make_room, record_key, cleanup, clear, size,
}
use go_sync_kit.Idempotency.Keys.{drop_expired-HasDistinctKeys, length-drop_expired}
use go_sync_kit.Idempotency.Eviction.{oldest_key_lem}

-- A step of the tracker: a `Record`, a tick of `cleanup`, or a `Clear`.
pub data Action (R : Type 0) : Type 0 where
  recorded : ℕ → String → R → Action R
  cleaned : ℕ → Action R
  cleared : Action R

abbrev pub act : {R : Type 0} → Action R → IdempotencyTracker R → IdempotencyTracker R
act (recorded now key response) t = record_key now key response t
act (cleaned now) t = cleanup now t
act cleared t = clear t

abbrev pub run : {R : Type 0} → List (Action R) → IdempotencyTracker R → IdempotencyTracker R
run [] t = t
run (a ∷ rest) t = run rest (act a t)

module _ {R : Type 0} where
  -- At most `max` keys, each once.
  pub record IsBounded (max : ℕ) (t : IdempotencyTracker R) : Type 0 where
    pub max_size : t.max_size ≡ pos max
    pub distinct : HasDistinctKeys t.keys
    pub within : size t ≤ max

  make_room-smaller :
      (t : IdempotencyTracker R) (max : ℕ)
      → IsBounded (suc max) t
      → HasDistinctKeys (make_room t) × (length (make_room t) ≤ max)
  unfolding make_room
  make_room-smaller t max b = by_full (is_full (length t.keys) t.max_size) refl
    where
      by_full :
          (full : Bool)
          → is_full (length t.keys) t.max_size ≡ full
          → HasDistinctKeys (if full then erase (oldest_key t.keys) t.keys else t.keys)
            × (length (if full then erase (oldest_key t.keys) t.keys else t.keys) ≤ max)
      by_full true h =
          let enough : leb (suc max) (length t.keys) ≡ true =
            sym (ap (is_full (length t.keys)) b.max_size) ∙ h in
          let (entry, at, all) = oldest_key_lem t.keys b.distinct (ground arith) in
          (
            erase-HasDistinctKeys (oldest_key t.keys) t.keys b.distinct,
            omega (
              arith,
              length-erase (oldest_key t.keys) t.keys b.distinct ∙ if_eq_true _ _ (ap is_some at),
              b.within,
            ),
          )
      by_full false h =
          let few : leb (suc max) (length t.keys) ≡ false =
            sym (ap (is_full (length t.keys)) b.max_size) ∙ h in
          (b.distinct, ground arith)

  act-IsBounded :
      (a : Action R) (max : ℕ) (t : IdempotencyTracker R)
      → IsBounded (suc max) t
      → IsBounded (suc max) (act a t)
  unfolding record_key cleanup
  act-IsBounded (recorded now key response) max t b =
      let (distinct, smaller) = make_room-smaller t max b in
      record {
        max_size = b.max_size;
        distinct = insert-HasDistinctKeys key _ (make_room t) distinct;
        within = ground (
          arith,
          length-insert key (record { timestamp = now; response = response }) (make_room t),
          smaller,
        );
      }
  act-IsBounded (cleaned now) max t b = record {
    max_size = b.max_size;
    distinct = drop_expired-HasDistinctKeys now t.max_age t.keys b.distinct;
    within = omega (arith, length-drop_expired now t.max_age t.keys, b.within);
  }
  act-IsBounded cleared max t b = record {
    max_size = b.max_size;
    distinct = tt;
    within = omega arith;
  }

  -- A tracker with a positive maximal size that holds at most so many keys, each once, still does so
  -- after any sequence of `Record`, ticks of `cleanup`, and `Clear`.
  pub run-IsBounded :
      (actions : List (Action R)) (max : ℕ) (t : IdempotencyTracker R)
      → IsBounded (suc max) t
      → IsBounded (suc max) (run actions t)
  run-IsBounded [] max t b = b
  run-IsBounded (a ∷ rest) max t b = run-IsBounded rest max (act a t) (act-IsBounded a max t b)
