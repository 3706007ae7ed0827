-- ===== src/Cursors/Tests.antt =====
-- cursor/cursor.go: examples, with an encoding that keeps numbers and maps apart.
use go_sync_kit.Base.{ℕ, ◌+◌, Option, none, some, [], ◌∷◌, ◌⊎◌, inl, inr, ◌≡◌, refl, arith, length}
use go_sync_kit.Base.Int.{pos}
use go_sync_kit.Base.Dict.{Dict}
use go_sync_kit.Types.{ok}
use go_sync_kit.Cursors.{
  Json, Cursor, vector_cursor, WireCursor, init_default_codecs, marshal_wire, unmarshal_wire,
}
use go_sync_kit.Cursors.Wire.{Laws, SameCursor, unmarshal_wire-marshal_wire}

abbrev Raw : Type 0
Raw = ℕ ⊎ Dict ℕ

abbrev number_in : Raw → Option ℕ
number_in (inl n) = some n
number_in (inr counters) = none

abbrev counters_in : Raw → Option (Dict ℕ)
counters_in (inl n) = none
counters_in (inr counters) = some counters

abbrev raw_size : Raw → ℕ
raw_size (inl n) = 20
raw_size (inr counters) = length counters + 2

abbrev tagged : Json Raw
tagged = record {
  write_number = inl;
  read_number = number_in;
  write_counters = inr;
  read_counters = counters_in;
  size_of = raw_size;
  compare_bytes = λ r s. pos 0;
}

tagged-Laws : Laws tagged
tagged-Laws = record {
  read_number-write_number = λ n. refl;
  read_counters-write_counters = λ counters. (counters, refl, λ node. refl);
}

abbrev two_nodes : Cursor
two_nodes = vector_cursor (("a", 3) ∷ ("b", 5) ∷ [])

unmarshal_wire-marshal_wire_example :
    (wc : WireCursor Raw) × (again : Cursor) × (marshal_wire
        (init_default_codecs tagged [])
        two_nodes
      ≡ ok wc)
    × (unmarshal_wire tagged (init_default_codecs tagged []) (some wc) ≡ ok again)
    × SameCursor two_nodes again
unmarshal_wire-marshal_wire_example =
    unmarshal_wire-marshal_wire tagged [] two_nodes tagged-Laws (omega arith)
