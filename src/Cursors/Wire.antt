-- ===== src/Cursors/Wire.antt =====
-- cursor/cursor.go: the wire format read back.
use go_sync_kit.Base.{
  ℕ, ◌≤◌, String, Option, none, some, false, ltb, ◌≡◌, refl, ap, sym, ◌∙◌, arith, if_eq_false,
}
use go_sync_kit.Base.Dict.{Dict, lookup, lookup-insert}
use go_sync_kit.Types.{Result, ok, err}
use go_sync_kit.Cursors.{
  Json, Cursor, integer_cursor, vector_cursor, other_cursor, Codec, kind_integer, kind_vector,
  CursorError, malformed, WireCursor, integer_codec, vector_codec, register, init_default_codecs,
  max_wire_cursor_size, marshal_wire, marshal_with, unmarshal_wire, unmarshal_with, unless_invalid,
  validate_wire_cursor, unmarshal_some, known_kind,
}

-- What is relied on of encoding/json: it reads the numbers that it writes, and of the maps that it
-- writes it reads the same value for each key.
pub record Laws {Raw : Type 0} (json : Json Raw) : Type 0 where
  pub read_number-write_number : (n : ℕ) → json.read_number (json.write_number n) ≡ some n
  pub read_counters-write_counters :
      (counters : Dict ℕ)
      → (again : Dict ℕ) × (json.read_counters (json.write_counters counters) ≡ some again)
        × ((node : String) → lookup node again ≡ lookup node counters)

-- The same cursor: counters are compared by node.
abbrev pub SameCursor : Cursor → Cursor → Type 0
SameCursor (integer_cursor m) (integer_cursor n) = m ≡ n
SameCursor (vector_cursor a) (vector_cursor b) = (node : String) → lookup node a ≡ lookup node b
SameCursor (other_cursor k s) (other_cursor j t) = (k ≡ j) × (s ≡ t)
SameCursor c d = ⊥

lookup-integer :
    {Raw : Type 0} (json : Json Raw) (registry : Dict (Codec Raw))
    → lookup kind_integer (init_default_codecs json registry) ≡ some (integer_codec json)
lookup-integer json registry =
    lookup-insert kind_vector kind_integer (vector_codec json)
      (register (integer_codec json) registry)
    ∙ lookup-insert kind_integer kind_integer (integer_codec json) registry

lookup-vector :
    {Raw : Type 0} (json : Json Raw) (registry : Dict (Codec Raw))
    → lookup kind_vector (init_default_codecs json registry) ≡ some (vector_codec json)
lookup-vector json registry =
    lookup-insert kind_vector kind_vector (vector_codec json)
      (register (integer_codec json) registry)

-- Reading a wire cursor of a registered kind that is not too large.
unmarshal_known :
    {Raw : Type 0} (json : Json Raw) (registry : Dict (Codec Raw)) (wc : WireCursor Raw)
    (codec : Codec Raw)
    → lookup wc.wire_kind registry ≡ some codec
    → json.size_of wc.payload ≤ max_wire_cursor_size
    → unmarshal_wire json registry (some wc) ≡ codec.unmarshal wc.payload
unfolding unmarshal_wire validate_wire_cursor
unmarshal_known json registry wc codec known small =
    ap (λ o. unless_invalid o (unmarshal_some registry (some wc)))
      (if_eq_false _ _ in_bounds ∙ ap (known_kind wc.wire_kind) known)
    ∙ ap (unmarshal_with wc) known
  where
    in_bounds : ltb max_wire_cursor_size (json.size_of wc.payload) ≡ false
    in_bounds = ground (arith, small)

-- A cursor of a type of the package whose content is not written at more than the size limit.
abbrev pub FitsWire : {Raw : Type 0} → Json Raw → Cursor → Type 0
FitsWire json (integer_cursor seq) = json.size_of (json.write_number seq) ≤ max_wire_cursor_size
FitsWire json (vector_cursor counters) =
    json.size_of (json.write_counters counters) ≤ max_wire_cursor_size
FitsWire json (other_cursor k content) = ⊥

-- With the default codecs registered, whatever was registered before, a cursor of the package's types
-- whose content is not written at more than the size limit is marshalled without an error, and what
-- that gives is read back as the same cursor.
pub unmarshal_wire-marshal_wire :
    {Raw : Type 0} (json : Json Raw) (registry : Dict (Codec Raw)) (c : Cursor)
    → Laws json
    → FitsWire json c
    → (wc : WireCursor Raw) × (again : Cursor) × (marshal_wire (init_default_codecs json registry) c
        ≡ ok wc)
      × (unmarshal_wire json (init_default_codecs json registry) (some wc) ≡ ok again)
      × SameCursor c again
unfolding marshal_wire
unmarshal_wire-marshal_wire json registry (integer_cursor seq) laws small = (
  record { wire_kind = kind_integer; payload = json.write_number seq },
  integer_cursor seq,
  ap (marshal_with (integer_cursor seq)) (lookup-integer json registry),
  unmarshal_known json (init_default_codecs json registry) _ (integer_codec json)
        (lookup-integer json registry) small
      ∙ ap read (laws.read_number-write_number seq),
  refl,
)
  where
    read : Option ℕ → Result CursorError Cursor
    read found = elim found [ none ↦ err malformed | some n ↦ ok (integer_cursor n) ]
unmarshal_wire-marshal_wire json registry (vector_cursor counters) laws small =
    let (again, reads, same) = laws.read_counters-write_counters counters in
    (
      record { wire_kind = kind_vector; payload = json.write_counters counters },
      vector_cursor again,
      ap (marshal_with (vector_cursor counters)) (lookup-vector json registry),
      unmarshal_known json (init_default_codecs json registry) _ (vector_codec json)
            (lookup-vector json registry) small
          ∙ ap read reads,
      λ node. sym (same node),
    )
  where
    read : Option (Dict ℕ) → Result CursorError Cursor
    read found = elim found [ none ↦ err malformed | some m ↦ ok (vector_cursor m) ]
unmarshal_wire-marshal_wire json registry (other_cursor k content) laws small = absurd small
