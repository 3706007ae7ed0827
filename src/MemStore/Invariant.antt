-- ===== src/MemStore/Invariant.antt =====
-- storage/memstore/memstore.go: what holds of the store between two operations.
use go_sync_kit.Base.{
  ℕ, suc, ◌+◌, ◌<◌, ◌^◌, String, Option, List, [], ◌∷◌, ◌++◌, Bool, true, false, ◌≡◌, refl, arith,
  ap, if◌then◌else◌, length, length-append, eq_iff, str_eq, append-nil, if_both, Bool-cases, inl,
  inr, ◌∙◌, sym, subst, none, some,
}
use go_sync_kit.Base.Dict.{Dict, lookup, lookup-insert}
use go_sync_kit.Types.{
  Event, EventWithVersion, Version, integer, StoreError, Value, Payload, absent, bytes, formatted,
}
use go_sync_kit.MemStore.{
  MemStore, new, or_empty, copy_event, append_event, store, append_batch, store_batch, copy_payload,
  copy_metadata, copy_in_batch, append_in_batch, payload_in_batch, metadata_in_batch,
}

-- The events are numbered by consecutive versions from `n` on.
abbrev pub Numbered : ℕ → List EventWithVersion → Type 0
Numbered n [] = Unit
Numbered n (ev ∷ rest) = (ev.version ≡ integer n) × Numbered (n + 1) rest

-- The positions, from `i` on, of the events of an aggregate.
unfoldable pub positions : String → ℕ → List EventWithVersion → List ℕ
positions aggregate i [] = []
positions aggregate i (ev ∷ rest) =
    let later = positions aggregate (i + 1) rest in
    if str_eq aggregate ev.event.aggregate_id then i ∷ later else later

-- An open store: sequence numbers start at 1 and have no gap, and the index of each stream lists
-- the positions of its events in order.
pub record IsValid (s : MemStore) : Type 0 where
  pub numbered : Numbered 1 s.events
  pub counted : s.next_seq ≡ length s.events + 1
  pub indexed : (a : String) → or_empty (lookup a s.streams) ≡ positions a 0 s.events

-- The index of each stream lists the positions of its events in order, in an open store and in a closed
-- one.
abbrev pub IsIndexed : MemStore → Type 0
IsIndexed s = (a : String) → or_empty (lookup a s.streams) ≡ positions a 0 s.events

-- The next sequence number fits into a uint64.
abbrev pub HasRoom : ℕ → MemStore → Type 0
HasRoom n s = length s.events + n + 1 < 2 ^ 64

pub Numbered-append :
    (n : ℕ) (xs : List EventWithVersion) (ev : EventWithVersion)
    → Numbered n xs
    → ev.version ≡ integer (n + length xs)
    → Numbered n (xs ++ ev ∷ [])
Numbered-append n [] ev h e = ground arith
Numbered-append n (x ∷ xs) ev h e = (h.0, Numbered-append (n + 1) xs ev h.1 (ground arith))

pub positions-append :
    (a : String) (i : ℕ) (xs ys : List EventWithVersion)
    → positions a i (xs ++ ys) ≡ positions a i xs ++ positions a (i + length xs) ys
unfolding positions
positions-append a i [] ys = ap (λ n. positions a n ys) (omega arith)
positions-append a i (x ∷ xs) ys =
    let shift : i + 1 + length xs ≡ i + suc (length xs) = omega arith in
    let ih = positions-append a (i + 1) xs ys in
    elim (Bool-cases (str_eq a x.event.aggregate_id)) [
      | inl here ↦ rw (here, ih, shift) refl
      | inr other ↦ rw (other, ih, shift) refl
    ]

-- The index of a stream after an append.
positions-append_one :
    (a : String) (xs : List EventWithVersion) (ev : EventWithVersion)
    → positions a 0 (xs ++ ev ∷ []) ≡ (
        if str_eq a ev.event.aggregate_id
        then positions a 0 xs ++ length xs ∷ []
        else positions a 0 xs)
positions-append_one a xs ev =
    positions-append a 0 xs (ev ∷ [])
    ∙ unfold positions in
      let start : 0 + length xs ≡ length xs = omega arith in
      elim (Bool-cases (str_eq a ev.event.aggregate_id)) [
        | inl here ↦ rw (here, start) refl
        | inr other ↦ rw (other, append-nil) refl
      ]

pub append_event-IsIndexed :
    (evt : Event) (s : MemStore) → IsIndexed s → IsIndexed (append_event evt s)
unfolding append_event copy_event
append_event-IsIndexed evt s indexed a = ground (
  arith,
  lookup-insert evt.aggregate_id a
      (or_empty (lookup evt.aggregate_id s.streams) ++ length s.events ∷ []) s.streams,
  positions-append_one a s.events (record { event = copy_event evt; version = integer s.next_seq }),
  indexed a,
  eq_iff a evt.aggregate_id,
  eq_iff evt.aggregate_id a,
)

pub append_event-IsValid :
    (evt : Event) (s : MemStore) → HasRoom 1 s → IsValid s → IsValid (append_event evt s)
unfolding append_event
append_event-IsValid evt s room v = record {
  numbered = Numbered-append 1 s.events _ v.numbered (ground (arith, v.counted));
  counted = omega (arith, v.counted, length-append s.events (_ ∷ []));
  indexed = append_event-IsIndexed evt s v.indexed;
}

payload_in_batch-eq : (p : Payload) → payload_in_batch p ≡ copy_payload p
payload_in_batch-eq absent = refl
payload_in_batch-eq (bytes b) = refl
payload_in_batch-eq (formatted b) = refl

metadata_in_batch-eq : (m : Option (Dict Value)) → metadata_in_batch m ≡ copy_metadata m
unfolding copy_metadata metadata_in_batch
metadata_in_batch-eq none = refl
metadata_in_batch-eq (some m) = refl

copy_in_batch-eq : (evt : Event) → copy_in_batch evt ≡ copy_event evt
unfolding copy_event
copy_in_batch-eq evt = rw (payload_in_batch-eq evt.payload, metadata_in_batch-eq evt.metadata) refl

-- A round of `StoreBatch` does what `Store` does.
pub append_in_batch-eq : (evt : Event) (s : MemStore) → append_in_batch evt s ≡ append_event evt s
unfolding append_in_batch append_event
append_in_batch-eq evt s = rw (copy_in_batch-eq evt) refl

pub new-IsValid : IsValid new
unfolding lookup positions
new-IsValid = record { numbered = tt; counted = omega arith; indexed = λ a. refl }

-- `Store` keeps the store well-formed on every branch, while sequence numbers last.
pub store-IsValid :
    (cancelled : Bool) (evt : Event) (version : Version) (s : MemStore)
    → HasRoom 1 s
    → IsValid s
    → IsValid (store cancelled evt version s).0
unfolding store
store-IsValid true evt version s room v = v
store-IsValid false evt version s room v =
    if_both {A = MemStore × Option StoreError} (λ r. IsValid r.0) s.closed v
      (append_event-IsValid evt s room v)

pub length-append_event :
    (evt : Event) (s : MemStore) → length (append_event evt s).events ≡ length s.events + 1
unfolding append_event
length-append_event evt s = length-append s.events (_ ∷ [])

pub append_batch-IsValid :
    (evs : List EventWithVersion) (s : MemStore)
    → HasRoom (length evs) s
    → IsValid s
    → IsValid (append_batch evs s)
unfolding append_batch
append_batch-IsValid [] s room v = v
append_batch-IsValid (ev ∷ rest) s room v =
    append_batch-IsValid rest (append_in_batch ev.event s)
      (omega (arith, length-append_event ev.event s, ap (λ t. length t.events) same))
      (subst IsValid (sym same) (append_event-IsValid ev.event s (omega arith) v))
  where
    same : append_in_batch ev.event s ≡ append_event ev.event s
    same = append_in_batch-eq ev.event s

-- `StoreBatch` keeps the store well-formed on every branch, while sequence numbers last.
pub store_batch-IsValid :
    (cancelled : Bool) (evs : List EventWithVersion) (s : MemStore)
    → HasRoom (length evs) s
    → IsValid s
    → IsValid (store_batch cancelled evs s).0
unfolding store_batch
store_batch-IsValid true evs s room v = v
store_batch-IsValid false [] s room v = v
store_batch-IsValid false (ev ∷ rest) s room v =
    if_both {A = MemStore × Option StoreError} (λ r. IsValid r.0) s.closed v
      (append_batch-IsValid (ev ∷ rest) s room v)
