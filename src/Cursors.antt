-- ===== src/Cursors.antt =====
-- cursor/cursor.go: cursors, their codecs in the registry, and the wire format. What encoding/json
-- writes and reads is a parameter, and so is the type `Raw` of what it writes, a `json.RawMessage`.
pub mod Wire
mod Tests
use go_sync_kit.Base.{ℕ, String, Option, none, some, [], Bool, true, false, ltb, if◌then◌else◌}
use go_sync_kit.Base.Int.{ℤ, pos, minus_one}
use go_sync_kit.Base.Dict.{Dict, lookup, insert}
use go_sync_kit.Types.{Version, integer, vector, clock, size_is_zero, Result, ok, err}

-- `KindInteger`, `KindVector` and `maxWireCursorSize`.
abbrev pub kind_integer : String
kind_integer = "integer"

abbrev pub kind_vector : String
kind_vector = "vector"

abbrev pub max_wire_cursor_size : ℕ
max_wire_cursor_size = 65536

-- `json.Marshal` and `json.Unmarshal` of a uint64 and of a map of them; a failed reading is `none`.
-- With the number of bytes, and `bytes.Compare`.
pub record Json (Raw : Type 0) : Type 0 where
  pub write_number : ℕ → Raw
  pub read_number : Raw → Option ℕ
  pub write_counters : Dict ℕ → Raw
  pub read_counters : Raw → Option (Dict ℕ)
  pub size_of : Raw → ℕ
  pub compare_bytes : Raw → Raw → ℤ

-- A `Cursor`: the two of the package, or one of another type by its kind and content.
pub data Cursor : Type 0 where
  integer_cursor : ℕ → Cursor
  vector_cursor : Dict ℕ → Cursor
  other_cursor : String → String → Cursor

abbrev pub kind : Cursor → String
kind (integer_cursor seq) = kind_integer
kind (vector_cursor counters) = kind_vector
kind (other_cursor k content) = k

pub data CursorError : Type 0 where
  unknown_kind : String → CursorError
  unexpected_cursor malformed nil_wire_cursor : CursorError
  payload_too_large : ℕ → CursorError

-- `Codec`, with its kind.
pub record Codec (Raw : Type 0) : Type 0 where
  pub codec_kind : String
  pub marshal : Cursor → Result CursorError Raw
  pub unmarshal : Raw → Result CursorError Cursor

module _ {Raw : Type 0} (json : Json Raw) where
  abbrev marshal_integer : Cursor → Result CursorError Raw
  marshal_integer (integer_cursor seq) = ok (json.write_number seq)
  marshal_integer (vector_cursor counters) = err unexpected_cursor
  marshal_integer (other_cursor k content) = err unexpected_cursor

  -- `integerCodec` and `vectorCodec`.
  abbrev pub integer_codec : Codec Raw
  integer_codec = record {
    codec_kind = kind_integer;
    marshal = marshal_integer;
    unmarshal = λ data_text. elim (json.read_number data_text) [
      | none ↦ err malformed
      | some seq ↦ ok (integer_cursor seq)
    ];
  }

  abbrev marshal_vector : Cursor → Result CursorError Raw
  marshal_vector (integer_cursor seq) = err unexpected_cursor
  marshal_vector (vector_cursor counters) = ok (json.write_counters counters)
  marshal_vector (other_cursor k content) = err unexpected_cursor

  abbrev pub vector_codec : Codec Raw
  vector_codec = record {
    codec_kind = kind_vector;
    marshal = marshal_vector;
    unmarshal = λ data_text. elim (json.read_counters data_text) [
      | none ↦ err malformed
      | some counters ↦ ok (vector_cursor counters)
    ];
  }

-- `Register`, on the registry of codecs by kind.
abbrev pub register : {Raw : Type 0} → Codec Raw → Dict (Codec Raw) → Dict (Codec Raw)
register codec registry = insert codec.codec_kind codec registry

-- `InitDefaultCodecs`.
abbrev pub init_default_codecs : {Raw : Type 0} → Json Raw → Dict (Codec Raw) → Dict (Codec Raw)
init_default_codecs json registry =
    register (vector_codec json) (register (integer_codec json) registry)

-- `WireCursor`.
pub record WireCursor (Raw : Type 0) : Type 0 where
  pub wire_kind : String
  pub payload : Raw

abbrev pub unless_invalid :
    Option CursorError → Result CursorError Cursor → Result CursorError Cursor
unless_invalid (some e) result = err e
unless_invalid none result = result

module _ {Raw : Type 0} where
  abbrev pub wired : String → Result CursorError Raw → Result CursorError (WireCursor Raw)
  wired k (err e) = err e
  wired k (ok payload) = ok (record { wire_kind = k; payload = payload })

  abbrev pub marshal_with : Cursor → Option (Codec Raw) → Result CursorError (WireCursor Raw)
  marshal_with c none = err (unknown_kind (kind c))
  marshal_with c (some codec) = wired codec.codec_kind (codec.marshal c)

  -- `MarshalWire`.
  unfoldable pub marshal_wire : Dict (Codec Raw) → Cursor → Result CursorError (WireCursor Raw)
  marshal_wire registry c = marshal_with c (lookup (kind c) registry)

  abbrev pub known_kind : String → Option (Codec Raw) → Option CursorError
  known_kind k none = some (unknown_kind k)
  known_kind k (some codec) = none

  -- `ValidateWireCursor`.
  unfoldable pub validate_wire_cursor :
      Json Raw → Dict (Codec Raw) → Option (WireCursor Raw) → Option CursorError
  validate_wire_cursor json registry none = some nil_wire_cursor
  validate_wire_cursor json registry (some wc) =
      if ltb max_wire_cursor_size (json.size_of wc.payload)
      then some (payload_too_large (json.size_of wc.payload))
      else known_kind wc.wire_kind (lookup wc.wire_kind registry)

  abbrev pub unmarshal_with : WireCursor Raw → Option (Codec Raw) → Result CursorError Cursor
  unmarshal_with wc none = err (unknown_kind wc.wire_kind)
  unmarshal_with wc (some codec) = codec.unmarshal wc.payload

  abbrev pub unmarshal_some : Dict (Codec Raw) → Option (WireCursor Raw) → Result CursorError Cursor
  unmarshal_some registry none = err nil_wire_cursor
  unmarshal_some registry (some wc) = unmarshal_with wc (lookup wc.wire_kind registry)

  -- `UnmarshalWire`.
  unfoldable pub unmarshal_wire :
      Json Raw → Dict (Codec Raw) → Option (WireCursor Raw) → Result CursorError Cursor
  unfolding validate_wire_cursor
  unmarshal_wire json registry wc =
      unless_invalid (validate_wire_cursor json registry wc) (unmarshal_some registry wc)

-- `IntegerCursor.Compare` and `VectorCursor.Compare`; `none` is a nil version.
pub integer_compare : ℕ → Option Version → ℤ
integer_compare seq none = pos 1
integer_compare seq (some (integer other)) =
    if ltb seq other then minus_one else if ltb other seq then pos 1 else pos 0
integer_compare seq (some (vector counters)) = pos 0
integer_compare seq (some (clock vc)) = pos 0

pub vector_compare : {Raw : Type 0} → Json Raw → Dict ℕ → Option Version → ℤ
vector_compare json counters none = pos 1
vector_compare json counters (some (integer other)) = pos 0
vector_compare json counters (some (vector others)) =
    json.compare_bytes (json.write_counters counters) (json.write_counters others)
vector_compare json counters (some (clock vc)) = pos 0
