-- ===== src/Clock/Compare.antt =====
-- version/vector_clock.go, `Compare`: the loop's flags, by the nodes at which a clock lags.
use go_sync_kit.Base.{
  ℕ, ◌≤◌, ◌<◌, String, [], ◌∷◌, Bool, true, false, ◌||◌, ◌≡◌, refl, arith, ltb, if◌then◌else◌, ap,
  Bool-cases, inl, inr, ltb→lt, eq_iff,
}
use go_sync_kit.Base.Dict.{Dict, lookup, insert, is_some, lookup-insert}
use go_sync_kit.Types.{VectorClock}
use go_sync_kit.Clock.{get_clock, mark_nodes, all_nodes, scan, verdict, compare_clocks}

-- Some node of the table has a smaller value in `a` than in `b`.
pub lags : VectorClock → VectorClock → Dict Bool → Bool
lags a b [] = false
lags a b ((k, x) ∷ rest) = ltb (get_clock a k) (get_clock b k) || lags a b rest

pub scan-eq-lags :
    (a b : VectorClock) (nodes : Dict Bool) (p q : Bool)
    → scan a b nodes p q ≡ (p || lags a b nodes, q || lags b a nodes)
unfolding scan lags
scan-eq-lags a b [] p q = ground arith
scan-eq-lags a b ((k, x) ∷ rest) p q = ground (
  arith,
  scan-eq-lags a b rest (if ltb (get_clock a k) (get_clock b k) then true else p) (
      if ltb (get_clock a k) (get_clock b k)
      then q
      else if ltb (get_clock b k) (get_clock a k)
      then true
      else q),
)

pub compare_clocks-eq-verdict :
    (a b : VectorClock)
    → compare_clocks a b ≡ verdict (lags a b (all_nodes a b)) (lags b a (all_nodes a b))
unfolding compare_clocks
compare_clocks-eq-verdict a b =
    ap (λ (t : Bool × Bool). verdict t.0 t.1) (scan-eq-lags a b (all_nodes a b) false false)

lags_witness :
    (a b : VectorClock) (nodes : Dict Bool)
    → lags a b nodes ≡ true
    → (k : String) × (get_clock a k < get_clock b k)
unfolding lags
lags_witness a b [] h = ground arith
lags_witness a b ((k, x) ∷ rest) h = elim (Bool-cases (ltb (get_clock a k) (get_clock b k))) [
  | inl here ↦ (k, ltb→lt _ _ here)
  | inr later ↦ lags_witness a b rest (ground arith)
]

lags_none :
    (a b : VectorClock) (nodes : Dict Bool) (k : String)
    → lags a b nodes ≡ false
    → is_some (lookup k nodes) ≡ true
    → get_clock b k ≤ get_clock a k
unfolding lags lookup
lags_none a b [] k h m = ground arith
lags_none a b ((j, x) ∷ rest) k h m = ground (arith, lags_none a b rest k, eq_iff j k)

lookup-mark_nodes :
    (m : Dict ℕ) (nodes : Dict Bool) (k : String)
    → is_some (lookup k (mark_nodes m nodes)) ≡ (is_some (lookup k m) || is_some (lookup k nodes))
unfolding mark_nodes lookup
lookup-mark_nodes [] nodes k = refl
lookup-mark_nodes ((j, v) ∷ m) nodes k =
    ground
      (arith, lookup-mark_nodes m (insert j true nodes) k, lookup-insert j k true nodes, eq_iff j k)

-- A node outside the collected table has the value 0 in both clocks.
outside_is_zero :
    (a b : VectorClock) (k : String)
    → is_some (lookup k (all_nodes a b)) ≡ false
    → (get_clock a k ≡ 0) × (get_clock b k ≡ 0)
unfolding all_nodes get_clock
outside_is_zero a b k h =
    ground (
      arith,
      lookup-mark_nodes b.clocks (mark_nodes a.clocks []) k,
      lookup-mark_nodes a.clocks [] k,
    )

pub lags_somewhere :
    (a b c d : VectorClock)
    → lags a b (all_nodes c d) ≡ true
    → (k : String) × (get_clock a k < get_clock b k)
lags_somewhere a b c d = lags_witness a b (all_nodes c d)

pub lags_nowhere :
    (a b : VectorClock) (k : String)
    → (lags a b (all_nodes a b) ≡ false → get_clock b k ≤ get_clock a k)
      × (lags b a (all_nodes a b) ≡ false → get_clock a k ≤ get_clock b k)
lags_nowhere a b k = elim (Bool-cases (is_some (lookup k (all_nodes a b)))) [
  | inl inside ↦
      (λ h. lags_none a b (all_nodes a b) k h inside, λ h. lags_none b a (all_nodes a b) k h inside)
  | inr outside ↦ let z = outside_is_zero a b k outside in (λ h. omega arith, λ h. omega arith)
]
