-- ===== src/Idempotency.antt =====
-- transport/httptransport/idempotency.go: the tracker of processed keys. Each method holds its lock, so
-- it is one step; the clock is an argument. The order of a range over the map is that of its list.
mod Keys
pub mod Expiry
pub mod Eviction
pub mod Capacity
mod Tests
use go_sync_kit.Base.{
  ℕ, zero, suc, ◌+◌, String, Option, none, some, List, [], ◌∷◌, Bool, true, false, ltb, leb,
  if◌then◌else◌, length,
}
use go_sync_kit.Base.Int.{ℤ, pos, negsuc}
use go_sync_kit.Base.Dict.{Dict, lookup, insert, erase}

pub record IdempotencyEntry (R : Type 0) : Type 0 where
  pub timestamp : ℕ
  pub response : R

pub record IdempotencyTracker (R : Type 0) : Type 0 where
  pub keys : Dict (IdempotencyEntry R)
  pub max_age : ℤ
  pub max_size : ℤ

abbrev or_default : ℕ → ℤ → ℤ
or_default default (pos zero) = pos default
or_default default (pos (suc n)) = pos (suc n)
or_default default (negsuc n) = negsuc n

-- `NewIdempotencyTracker`; a day is 86,400 seconds of 10 ^ 9 nanoseconds.
pub new_tracker : {R : Type 0} → ℤ → ℤ → IdempotencyTracker R
new_tracker max_age max_size = record {
  keys = [];
  max_age = or_default 86400000000000 max_age;
  max_size = or_default 10000 max_size;
}

-- `time.Since(entry.timestamp) > t.maxAge`.
abbrev pub is_expired : ℕ → ℕ → ℤ → Bool
is_expired now timestamp (pos age) = ltb (timestamp + age) now
is_expired now timestamp (negsuc n) = ltb timestamp (now + n + 1)

-- `len(t.keys) >= t.maxSize`.
abbrev pub is_full : ℕ → ℤ → Bool
is_full size (pos n) = leb n size
is_full size (negsuc n) = true

module _ {R : Type 0} where
  abbrev pub fresh_response : ℕ → ℤ → Option (IdempotencyEntry R) → Option R
  fresh_response now max_age none = none
  fresh_response now max_age (some entry) =
      if is_expired now entry.timestamp max_age then none else some entry.response

  -- `Check`: the second result is whether the first is there.
  unfoldable pub check : ℕ → String → IdempotencyTracker R → Option R
  check now key t = fresh_response now t.max_age (lookup key t.keys)

  -- The loop of `Record` that finds the oldest entry: the best so far, then the entries to come.
  unfoldable pub find_oldest : String × ℕ → Dict (IdempotencyEntry R) → String × ℕ
  find_oldest best [] = best
  find_oldest best ((key, entry) ∷ rest) =
      find_oldest (if ltb entry.timestamp best.1 then (key, entry.timestamp) else best) rest

  unfoldable pub oldest_key : Dict (IdempotencyEntry R) → String
  unfolding find_oldest
  oldest_key [] = ""
  oldest_key ((key, entry) ∷ rest) = (find_oldest (key, entry.timestamp) rest).0

  unfoldable pub make_room : IdempotencyTracker R → Dict (IdempotencyEntry R)
  unfolding oldest_key erase
  make_room t =
      if is_full (length t.keys) t.max_size then erase (oldest_key t.keys) t.keys else t.keys

  -- `Record`.
  unfoldable pub record_key : ℕ → String → R → IdempotencyTracker R → IdempotencyTracker R
  unfolding make_room insert
  record_key now key response t = record t {
    keys = insert key (record { timestamp = now; response = response }) (make_room t);
  }

  -- The loop of `cleanup` over the entries.
  unfoldable pub drop_expired : ℕ → ℤ → Dict (IdempotencyEntry R) → Dict (IdempotencyEntry R)
  drop_expired now max_age [] = []
  drop_expired now max_age ((key, entry) ∷ rest) =
      let kept = drop_expired now max_age rest in
      if is_expired now entry.timestamp max_age then kept else (key, entry) ∷ kept

  -- A tick of `cleanup`.
  unfoldable pub cleanup : ℕ → IdempotencyTracker R → IdempotencyTracker R
  unfolding drop_expired
  cleanup now t = record t { keys = drop_expired now t.max_age t.keys }

  -- `Size` and `Clear`.
  abbrev pub size : IdempotencyTracker R → ℕ
  size t = length t.keys

  abbrev pub clear : IdempotencyTracker R → IdempotencyTracker R
  clear t = record t { keys = [] }
