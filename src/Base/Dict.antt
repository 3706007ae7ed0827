-- ===== src/Base/Dict.antt =====
-- Go's `map[string]V` as an association list; the keys of a map that the code builds are distinct.
use Prim.Native.Nat.{◌+◌, ◌-◌, ◌≤◌, ◌<◌}
use Prim.Native.String.{String}
use mathlib.Core.Path.{◌≡◌, refl}
use mathlib.Core.Logic.{inl, inr}
use mathlib.Core.Bool.{Bool, true, false}
use mathlib.Core.Option.{Option, none, some}
use mathlib.Core.List.{List, [], ◌∷◌}
use native.Mathlib.Omega.{arith}
use text.Mathlib.Text.{◌==◌}
use text.Mathlib.TextEquality.{eq_iff}
use go_sync_kit.Base.Tests.{if◌then◌else◌, Bool-cases}
use go_sync_kit.Base.Lists.{length}

abbrev pub Dict {ℓ} : Type ℓ → Type ℓ
Dict V = List (String × V)

abbrev pub is_some {ℓ} : {A : Type ℓ} → Option A → Bool
is_some none = false
is_some (some a) = true

module _ {ℓ} {V : Type ℓ} where
  -- The value at a key, from the first entry that has it.
  unfoldable pub lookup : String → Dict V → Option V
  lookup key [] = none
  lookup key (entry ∷ rest) =
      let later = lookup key rest in if entry.0 == key then some entry.1 else later

  -- `delete(m, k)`.
  unfoldable pub erase : String → Dict V → Dict V
  erase k [] = []
  erase k ((j, w) ∷ m) = let rest = erase k m in if j == k then rest else (j, w) ∷ rest

  -- `m[key] = value`: in place of the entry that is there, or after all of them.
  unfoldable pub insert : String → V → Dict V → Dict V
  insert key value [] = (key, value) ∷ []
  insert key value (entry ∷ rest) =
      let kept = entry ∷ insert key value rest in
      if entry.0 == key then (key, value) ∷ rest else kept

  -- Every key stands once.
  abbrev pub HasDistinctKeys : Dict V → Type ℓ
  HasDistinctKeys [] = Unit
  HasDistinctKeys ((j, w) ∷ m) = (lookup j m ≡ none) × HasDistinctKeys m

  pub lookup-insert :
      (key found : String) (value : V) (dict : Dict V)
      → lookup found (insert key value dict)
        ≡ (if key == found then some value else lookup found dict)
  unfolding lookup insert
  lookup-insert key found value [] = refl
  lookup-insert key found value (entry ∷ rest) = ground (
    arith,
    lookup-insert key found value rest,
    eq_iff key found,
    eq_iff entry.0 key,
    eq_iff entry.0 found,
  )

  pub lookup-erase :
      (k j : String) (m : Dict V) → lookup j (erase k m) ≡ (if k == j then none else lookup j m)
  unfolding lookup erase
  lookup-erase k j [] = ground arith
  lookup-erase k j ((i, w) ∷ m) =
      ground (arith, eq_iff k j, eq_iff i k, eq_iff i j, lookup-erase k j m)

  pub length-insert :
      (k : String) (v : V) (m : Dict V)
      → length (insert k v m) ≡ (if is_some (lookup k m) then length m else length m + 1)
  unfolding lookup insert
  length-insert k v [] = omega arith
  length-insert k v ((i, w) ∷ m) = ground (arith, length-insert k v m)

  pub insert-HasDistinctKeys :
      (k : String) (v : V) (m : Dict V) → HasDistinctKeys m → HasDistinctKeys (insert k v m)
  unfolding insert lookup
  insert-HasDistinctKeys k v [] h = (refl, tt)
  insert-HasDistinctKeys k v ((i, w) ∷ m) h =
      ground (arith, eq_iff i k, eq_iff k i, lookup-insert k i v m, insert-HasDistinctKeys k v m)

  pub absent_or_positive : (k : String) (m : Dict V) → is_some (lookup k m) ≡ true → 0 < length m
  unfolding lookup
  absent_or_positive k [] h = ground arith
  absent_or_positive k ((i, w) ∷ m) h = omega arith

  pub length-erase :
      (k : String) (m : Dict V)
      → HasDistinctKeys m
      → length (erase k m) ≡ (if is_some (lookup k m) then length m - 1 else length m)
  unfolding lookup erase
  length-erase k [] h = refl
  length-erase k ((i, w) ∷ m) h =
      ground (arith, length-erase k m h.1, eq_iff i k, absent_or_positive k m)

  pub erase-HasDistinctKeys :
      (k : String) (m : Dict V) → HasDistinctKeys m → HasDistinctKeys (erase k m)
  unfolding erase
  erase-HasDistinctKeys k [] h = h
  erase-HasDistinctKeys k ((i, w) ∷ m) h =
      ground (arith, erase-HasDistinctKeys k m h.1, lookup-erase k i m, eq_iff k i, eq_iff i k)

-- Every key of the first map is one of the second.
abbrev pub KeysWithin {ℓ κ} : {V : Type ℓ} {W : Type κ} → Dict V → Dict W → Type 0
KeysWithin a b = (k : String) → is_some (lookup k a) ≡ true → is_some (lookup k b) ≡ true

module _ {ℓ} {V W : Type ℓ} where
  pub length_le_of_KeysWithin :
      (a : Dict V) (b : Dict W)
      → HasDistinctKeys a
      → HasDistinctKeys b
      → KeysWithin a b
      → length a ≤ length b
  length_le_of_KeysWithin [] b da db sub = omega arith
  length_le_of_KeysWithin ((k, v) ∷ a) b da db sub = ground (
    arith,
    length_le_of_KeysWithin a (erase k b) da.1 (erase-HasDistinctKeys k b db) rest,
    length-erase k b db,
    here,
    absent_or_positive k b,
  )
    where
      here : is_some (lookup k b) ≡ true
      here = sub k (unfold lookup in ground (arith, eq_iff k k))

      rest : KeysWithin a (erase k b)
      rest j h =
          ground
            (arith, lookup-erase k j b, eq_iff k j, sub j (unfold lookup in ground arith), da.0)

  -- Two maps of one size: where the keys of the first are keys of the second, the converse holds.
  pub KeysWithin-converse :
      (a : Dict V) (b : Dict W)
      → HasDistinctKeys a
      → HasDistinctKeys b
      → length a ≡ length b
      → KeysWithin a b
      → KeysWithin b a
  KeysWithin-converse a b da db same sub k h = elim (Bool-cases (is_some (lookup k a))) [
    | inl inside ↦ inside
    | inr outside ↦ absurd (too_small outside)
  ]
    where
      others : is_some (lookup k a) ≡ false → KeysWithin a (erase k b)
      others outside j m = ground (arith, lookup-erase k j b, eq_iff k j, sub j m)

      too_small : is_some (lookup k a) ≡ false → ⊥
      too_small outside = ground (
        arith,
        length_le_of_KeysWithin a (erase k b) da (erase-HasDistinctKeys k b db) (others outside),
        length-erase k b db,
        absent_or_positive k b,
      )
