-- ===== src/Types.antt =====
-- synckit/types/types.go, event/event.go, and the data of cursor/cursor.go and
-- version/vector_clock.go: events, versions, and conflicts.
use go_sync_kit.Base.{
  ℕ, String, Option, none, some, List, [], ◌∷◌, Bool, true, false, ltb, if◌then◌else◌, ◌≡◌, sym, ap,
  ◌∙◌,
}
use go_sync_kit.Base.Dict.{Dict}
use go_sync_kit.Base.Int.{ℤ}

-- A value of type `interface{}` in an event's or a conflict's metadata: a string, an int, or a
-- value of another type, of which only its identity matters.
pub data Value : Type 0 where
  text : String → Value
  number : ℤ → Value
  opaque : ℕ → Value

-- What `Data()` returns: nil, a `[]byte`, or a value of another type, known by its `%v` text.
pub data Payload : Type 0 where
  absent : Payload
  bytes : List ℕ → Payload
  formatted : List ℕ → Payload

-- The `Event` interface by the results of its methods; `none` is a nil metadata map.
pub record Event : Type 0 where
  pub id : String
  pub kind : String
  pub aggregate_id : String
  pub payload : Payload
  pub metadata : Option (Dict Value)

-- `VectorClock`: node IDs to logical clock values, each a uint64.
pub record VectorClock : Type 0 where
  pub clocks : Dict ℕ

-- The implementations of the `Version` interface: `cursor.IntegerCursor`, `cursor.VectorCursor`
-- and `*version.VectorClock`, whose pointer may be nil. A nil interface is `none` of `Option`.
pub data Version : Type 0 where
  integer : ℕ → Version
  vector : Dict ℕ → Version
  clock : Option VectorClock → Version

pub record EventWithVersion : Type 0 where
  pub event : Event
  pub version : Version

-- What is known of a detected conflict.
pub record Conflict : Type 0 where
  pub event_type : String
  pub aggregate_id : String
  pub changed_fields : List String
  pub metadata : Option (Dict Value)
  pub local : EventWithVersion
  pub remote : EventWithVersion

pub record ResolvedConflict : Type 0 where
  pub resolved_events : List EventWithVersion
  pub decision : String
  pub reasons : List String

-- `since.(cursor.IntegerCursor)`.
abbrev pub as_integer : Version → Option ℕ
as_integer (integer seq) = some seq
as_integer (vector counters) = none
as_integer (clock c) = none

-- A filter of `Load` (synckit/types/interfaces.go).
pub record Filter : Type 0 where
  pub key : String
  pub value : String

-- The errors of a store or an in-memory transport. `nil_dereference` is the panic of a method
-- called on a nil `*VectorClock`.
pub data StoreError : Type 0 where
  context_done closed_error incompatible_version invalid_version nil_dereference : StoreError

pub data Result {ℓ} (E : Type 0) (A : Type ℓ) : Type ℓ where
  ok : A → Result E A
  err : E → Result E A

abbrev value_or {ℓ} : {E : Type 0} {A : Type ℓ} → A → Result E A → A
value_or a (ok x) = x
value_or a (err e) = a

-- A result has one value.
pub same_ok {ℓ} : {E : Type 0} {A : Type ℓ} (r : Result E A) (x y : A) → r ≡ ok x → r ≡ ok y → x ≡ y
same_ok r x y is_x is_y = ap (value_or x) (sym is_x ∙ is_y)

abbrev pub size_is_zero : Dict ℕ → Bool
size_is_zero [] = true
size_is_zero (entry ∷ rest) = false

-- The start of `Load` and `Pull`: `since.(cursor.IntegerCursor)`, where any other version is
-- accepted as 0 if it is zero.
unfoldable pub since_seq : Version → Result StoreError ℕ
since_seq (integer seq) = ok seq
since_seq (vector counters) = if size_is_zero counters then ok 0 else err incompatible_version
since_seq (clock none) = err nil_dereference
since_seq (clock (some vc)) = if size_is_zero vc.clocks then ok 0 else err incompatible_version

abbrev pub seq_above : ℕ → Option ℕ → Bool
seq_above since none = false
seq_above since (some seq) = ltb since seq

-- `ev.Version.(cursor.IntegerCursor)` holds and its `Seq` is above the given one.
abbrev pub is_newer : ℕ → EventWithVersion → Bool
is_newer since ev = seq_above since (as_integer ev.version)
