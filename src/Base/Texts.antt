-- ===== src/Base/Texts.antt =====
-- Texts: their lengths in bytes, as Go's `len`.
use Prim.Native.Nat.{◌<◌}
use Prim.Native.String.len
use Prim.Native.String.{String, [], ◌∷◌, len}
use mathlib.Core.Path.{◌≡◌, ap}
use mathlib.Core.Logic.{◌⊎◌, inl, inr}
use go_sync_kit.Base.Tests.{Bool-cases}
use mathlib.Core.Bool.{true, false}
use native.Mathlib.Omega.{arith}
use text.Mathlib.Text.{◌==◌}
use text.Mathlib.TextEquality.{eq_iff}
use text.Mathlib.TextPositions.{len_utf8-pos, eq_refl}

pub len-positive : (s : String) → (s == "") ≡ false → 0 < len s
len-positive [] h = absurd (ground (arith, eq_refl ""))
len-positive (c ∷ s) h = omega (arith, (len_utf8-pos c).1, len.cons c s)

pub len-positive_nonempty : (s : String) → 0 < len s → (s == "") ≡ false
len-positive_nonempty s some_text = by_test (Bool-cases (s == ""))
  where
    by_test : ((s == "") ≡ true) ⊎ ((s == "") ≡ false) → (s == "") ≡ false
    by_test (inl h) = absurd (omega (arith, some_text, ap len ((eq_iff s "").0 h), len.nil))
    by_test (inr h) = h
