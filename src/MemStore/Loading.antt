-- ===== src/MemStore/Loading.antt =====
-- storage/memstore/memstore.go: what `Load` and `LoadByAggregate` return.
use go_sync_kit.Base.{
  Option, if_eq_true, ℕ, zero, suc, ◌+◌, ◌<◌, String, some, List, [], ◌∷◌, ◌++◌, Bool, true, false,
  ◌≡◌, refl, arith, ap, length, length-append, str_eq, append-nil, keep, get_elem?, drop, ◌∙◌,
  subst, append_assoc,
}
use go_sync_kit.Base.Dict.{Dict, lookup}
use go_sync_kit.Types.{
  EventWithVersion, Version, integer, StoreError, Filter, Result, ok, err, since_seq,
}
use go_sync_kit.MemStore.{
  parse_version, MemStore, new, or_empty, load, load_since, load_by_aggregate, load_stream, pick,
  selects, filter_map, matches_filters, latest_version,
}
use go_sync_kit.MemStore.Invariant.{IsIndexed, IsValid, Numbered, positions, HasRoom}
use go_sync_kit.MemStore.Changes.{Change, change_all, reachable-IsIndexed}

abbrev pub of_aggregate : String → EventWithVersion → Bool
of_aggregate a ev = str_eq a ev.event.aggregate_id

-- The events of an aggregate among those that a load returned.
abbrev pub only_aggregate :
    String → Result StoreError (List EventWithVersion) → Result StoreError (List EventWithVersion)
only_aggregate a (ok evs) = ok (keep (of_aggregate a) evs)
only_aggregate a (err e) = err e

get_elem?-append_right :
    (done : List EventWithVersion) (ev : EventWithVersion) (rest : List EventWithVersion)
    → get_elem? (done ++ ev ∷ rest) (length done) ≡ some ev
get_elem?-append_right [] ev rest = refl
get_elem?-append_right (d ∷ done) ev rest = get_elem?-append_right done ev rest

-- Walking the positions of an aggregate visits its events in order.
pick-positions :
    (p : EventWithVersion → Bool) (a : String) (done rest : List EventWithVersion)
    → pick p (done ++ rest) (positions a (length done) rest) ≡ keep (of_aggregate a) (keep p rest)
unfolding pick positions
pick-positions p a done [] = refl
pick-positions p a done (ev ∷ rest) =
    ground
      (arith, next (pick-positions p a (done ++ ev ∷ []) rest), get_elem?-append_right done ev rest)
  where
    shifted : length (done ++ ev ∷ []) ≡ length done + 1
    shifted = length-append done (ev ∷ [])

    next :
        pick p ((done ++ ev ∷ []) ++ rest) (positions a (length (done ++ ev ∷ [])) rest)
          ≡ keep (of_aggregate a) (keep p rest)
        → pick p (done ++ ev ∷ rest) (positions a (length done + 1) rest)
          ≡ keep (of_aggregate a) (keep p rest)
    next ih =
        subst
          (λ xs.
            pick p xs (positions a (length done + 1) rest) ≡ keep (of_aggregate a) (keep p rest))
          (append_assoc done (ev ∷ []) rest)
          (subst
            (λ n.
              pick p ((done ++ ev ∷ []) ++ rest) (positions a n rest)
              ≡ keep (of_aggregate a) (keep p rest))
            shifted ih)

pick_stream :
    (p : EventWithVersion → Bool) (a : String) (s : MemStore)
    → IsIndexed s
    → pick p s.events (or_empty (lookup a s.streams)) ≡ keep (of_aggregate a) (keep p s.events)
pick_stream p a s indexed = rw (indexed a) (pick-positions p a [] s.events)

load_stream-eq-load_since :
    (a : String) (filters : List Filter) (s : MemStore) (r : Result StoreError ℕ)
    → IsIndexed s
    → load_stream a filters s r ≡ only_aggregate a (load_since filters s r)
unfolding load_stream load_since
load_stream-eq-load_since a filters s (err e) v = refl
load_stream-eq-load_since a filters s (ok n) v =
    ap ok (pick_stream (selects n (filter_map filters [])) a s v)

load_by_aggregate_indexed :
    (cancelled : Bool) (a : String) (since : Version) (filters : List Filter) (s : MemStore)
    → IsIndexed s
    → load_by_aggregate cancelled a since filters s
      ≡ only_aggregate a (load cancelled since filters s)
unfolding load_by_aggregate load
load_by_aggregate_indexed true a since filters s indexed = refl
load_by_aggregate_indexed false a since filters s indexed =
    ground (arith, load_stream-eq-load_since a filters s (since_seq since) indexed)

-- The stream index is only an index: after any calls of `Store`, `StoreBatch` and `Close` on a new
-- store, `LoadByAggregate` returns, on every branch, the events of the aggregate among those that
-- `Load` returns, in the same order, or the same error.
pub load_by_aggregate-eq-load :
    (changes : List Change) (cancelled : Bool) (a : String) (since : Version)
    (filters : List Filter)
    → load_by_aggregate cancelled a since filters (change_all changes new)
      ≡ only_aggregate a (load cancelled since filters (change_all changes new))
load_by_aggregate-eq-load changes cancelled a since filters =
    load_by_aggregate_indexed cancelled a since filters (change_all changes new)
      (reachable-IsIndexed changes)

abbrev pub fits : Dict String → EventWithVersion → Bool
fits filters ev = matches_filters ev.event filters

-- Selecting by number from a numbered list skips a prefix.
keep-selects_all :
    (n since : ℕ) (filters : Dict String) (xs : List EventWithVersion)
    → Numbered n xs
    → since < n
    → keep (selects since filters) xs ≡ keep (fits filters) xs
unfolding selects
keep-selects_all n since filters [] v h = refl
keep-selects_all n since filters (x ∷ xs) v h =
    ground (arith, keep-selects_all (n + 1) since filters xs)

keep-selects :
    (n k since : ℕ) (filters : Dict String) (xs : List EventWithVersion)
    → Numbered n xs
    → since + 1 ≡ n + k
    → keep (selects since filters) xs ≡ keep (fits filters) (drop k xs)
unfolding selects
keep-selects n zero since filters xs v h = keep-selects_all n since filters xs v (omega arith)
keep-selects n (suc k) since filters [] v h = refl
keep-selects n (suc k) since filters (x ∷ xs) v h =
    ground (arith, keep-selects (n + 1) k since filters xs)

-- `Load` since a cursor returns, of an open store, the events that match the filters among those
-- that were stored after the cursor's, in the order of storing.
pub load-eq-drop :
    (since : ℕ) (filters : List Filter) (s : MemStore)
    → IsValid s
    → s.closed ≡ false
    → load false (integer since) filters s
      ≡ ok (keep (fits (filter_map filters [])) (drop since s.events))
unfolding load
load-eq-drop since filters s v open_store =
    ground (arith, keep-selects 1 since since (filter_map filters []) s.events)

pub latest_version-eq-length :
    (s : MemStore) {latest : Version}
    → IsValid s
    → HasRoom 0 s
    → latest_version false s ≡ ok latest
    → (s.closed ≡ false) × (latest ≡ integer (length s.events))
unfolding latest_version
latest_version-eq-length s v room h = ground (arith, v.counted)

pub latest_version-open :
    (s : MemStore)
    → IsValid s
    → HasRoom 0 s
    → s.closed ≡ false
    → latest_version false s ≡ ok (integer (length s.events))
unfolding latest_version
latest_version-open s v room is_open = ground (arith, v.counted)

pub drop-length {ℓ} : {A : Type ℓ} (xs ys : List A) → drop (length xs) (xs ++ ys) ≡ ys
drop-length [] ys = refl
drop-length (x ∷ xs) ys = drop-length xs ys

-- Nothing is newer than the latest version: `Load` since `LatestVersion` returns no event.
pub load-latest_version :
    (filters : List Filter) (s : MemStore) {latest : Version}
    → IsValid s
    → HasRoom 0 s
    → latest_version false s ≡ ok latest
    → load false latest filters s ≡ ok []
load-latest_version filters s v room h =
    let (open_store, at_end) = latest_version-eq-length s v room h in
    rw at_end (
      load-eq-drop (length s.events) filters s v open_store
      ∙ ap (λ xs. ok (keep (fits (filter_map filters [])) xs)) nothing)
  where
    nothing : drop (length s.events) s.events ≡ []
    nothing =
        subst (λ xs. drop (length s.events) xs ≡ []) (append-nil s.events) (drop-length s.events [])

-- Without filters every event fits.
pub fits-nil : (ev : EventWithVersion) → fits (filter_map [] []) ev ≡ true
unfolding matches_filters filter_map lookup
fits-nil ev = refl

pub parse_version-empty : (scan : String → Option ℕ) → parse_version scan "" ≡ ok (integer 0)
unfolding parse_version
parse_version-empty scan = refl

pub fits_all : (evs : List EventWithVersion) → keep (fits (filter_map [] [])) evs ≡ evs
fits_all [] = refl
fits_all (ev ∷ evs) = if_eq_true _ _ (fits-nil ev) ∙ ap (λ rest. ev ∷ rest) (fits_all evs)
