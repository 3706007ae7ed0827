-- ===== src/Clock/Causality.antt =====
-- version/vector_clock.go: `Compare` decides the causal order of vector clocks.
use go_sync_kit.Base.{
  ◌≤◌, ◌<◌, String, some, Bool, ap, true, false, ◌≡◌, ◌↔◌, refl, arith, ◌∙◌, sym,
}
use go_sync_kit.Base.Int.{ℤ, pos, minus_one, negate}
use go_sync_kit.Types.{VectorClock, clock}
use go_sync_kit.Clock.{get_clock, verdict, all_nodes, compare}
use go_sync_kit.Clock.Compare.{lags, compare_clocks-eq-verdict, lags_somewhere, lags_nowhere}

-- Everything that `a` has observed, `b` has observed.
abbrev pub Within : VectorClock → VectorClock → Type 0
Within a b = (k : String) → get_clock a k ≤ get_clock b k

abbrev pub LagsSomewhere : VectorClock → VectorClock → Type 0
LagsSomewhere a b = (k : String) × (get_clock a k < get_clock b k)

-- The four causal relations of two clocks, with the result that `Compare` documents for each.
pub data Causal (a b : VectorClock) (z : ℤ) : Type 0 where
  before : z ≡ minus_one → Within a b → LagsSomewhere a b → Causal a b z
  after : z ≡ pos 1 → Within b a → LagsSomewhere b a → Causal a b z
  equal : z ≡ pos 0 → Within a b → Within b a → Causal a b z
  concurrent : z ≡ pos 0 → LagsSomewhere a b → LagsSomewhere b a → Causal a b z

Causal-verdict :
    (a b : VectorClock) (l r : Bool)
    → lags a b (all_nodes a b) ≡ l
    → lags b a (all_nodes a b) ≡ r
    → Causal a b (verdict l r)
unfolding verdict
Causal-verdict a b true false hl hr =
    before refl (λ k. (lags_nowhere a b k).1 hr) (lags_somewhere a b a b hl)
Causal-verdict a b false true hl hr =
    after refl (λ k. (lags_nowhere a b k).0 hl) (lags_somewhere b a a b hr)
Causal-verdict a b false false hl hr =
    equal refl (λ k. (lags_nowhere a b k).1 hr) (λ k. (lags_nowhere a b k).0 hl)
Causal-verdict a b true true hl hr =
    concurrent refl (lags_somewhere a b a b hl) (lags_somewhere b a a b hr)

-- `Compare` of two clocks answers by their causal relation.
pub Causal-compare : (a b : VectorClock) → Causal a b (compare a (some (clock (some b))))
unfolding compare
Causal-compare a b =
    rw compare_clocks-eq-verdict
      (Causal-verdict a b (lags a b (all_nodes a b)) (lags b a (all_nodes a b)) refl refl)

pub lag_refutes : (a b : VectorClock) → Within a b → ¬ LagsSomewhere b a
lag_refutes a b w l = let at : get_clock _ l.0 ≤ get_clock _ l.0 = w l.0 in omega arith

-- The causal relation determines the result.
pub Causal-unique : {a b : VectorClock} {x y : ℤ} → Causal a b x → Causal a b y → x ≡ y
Causal-unique (before e w l) (before e' w' l') = e ∙ sym e'
Causal-unique (before e w l) (after e' w' l') = absurd (lag_refutes _ _ w l')
Causal-unique (before e w l) (equal e' w' v') = absurd (lag_refutes _ _ v' l)
Causal-unique (before e w l) (concurrent e' l' m') = absurd (lag_refutes _ _ w m')
Causal-unique (after e w l) (after e' w' l') = e ∙ sym e'
Causal-unique (after e w l) (before e' w' l') = absurd (lag_refutes _ _ w l')
Causal-unique (after e w l) (equal e' w' v') = absurd (lag_refutes _ _ w' l)
Causal-unique (after e w l) (concurrent e' l' m') = absurd (lag_refutes _ _ w l')
Causal-unique (equal e w v) (equal e' w' v') = e ∙ sym e'
Causal-unique (equal e w v) (before e' w' l') = absurd (lag_refutes _ _ v l')
Causal-unique (equal e w v) (after e' w' l') = absurd (lag_refutes _ _ w l')
Causal-unique (equal e w v) (concurrent e' l' m') = absurd (lag_refutes _ _ v l')
Causal-unique (concurrent e l m) (concurrent e' l' m') = e ∙ sym e'
Causal-unique (concurrent e l m) (before e' w' l') = absurd (lag_refutes _ _ w' m)
Causal-unique (concurrent e l m) (after e' w' l') = absurd (lag_refutes _ _ w' l)
Causal-unique (concurrent e l m) (equal e' w' v') = absurd (lag_refutes _ _ v' l)

Causal-flip : {a b : VectorClock} {z : ℤ} → Causal a b z → Causal b a (negate z)
Causal-flip (before e w l) = after (ap negate e) w l
Causal-flip (after e w l) = before (ap negate e) w l
Causal-flip (equal e w v) = equal (ap negate e) v w
Causal-flip (concurrent e l m) = concurrent (ap negate e) m l

-- Swapping the two clocks negates the result of `Compare`.
pub compare_antisym :
    (a b : VectorClock)
    → compare b (some (clock (some a))) ≡ negate (compare a (some (clock (some b))))
compare_antisym a b = Causal-unique (Causal-compare b a) (Causal-flip (Causal-compare a b))

-- `Compare` returns -1 exactly when nothing that the first clock observed is missing from the
-- second and some node has advanced in the second.
pub compare-minus_one_iff :
    (a b : VectorClock)
    → (compare a (some (clock (some b))) ≡ minus_one) ↔ (Within a b × LagsSomewhere a b)
compare-minus_one_iff a b = (
  λ e. of_result (Causal-compare a b) e,
  λ h. Causal-unique (Causal-compare a b) (before refl h.0 h.1),
)
  where
    of_result : {z : ℤ} → Causal a b z → z ≡ minus_one → Within a b × LagsSomewhere a b
    of_result (before e w l) h = (w, l)
    of_result (after e w l) h = cc
    of_result (equal e w v) h = cc
    of_result (concurrent e l m) h = cc

-- Happened-before is transitive.
pub compare_trans :
    (a b c : VectorClock)
    → compare a (some (clock (some b))) ≡ minus_one
    → compare b (some (clock (some c))) ≡ minus_one
    → compare a (some (clock (some c))) ≡ minus_one
compare_trans a b c h k =
    let (w, l) = (compare-minus_one_iff a b).0 h in
    let (w', l') = (compare-minus_one_iff b c).0 k in
    (compare-minus_one_iff a c).1 (Within_trans w w', (l.0, later l.0 l.1 (w' l.0)))
  where
    Within_trans : Within a b → Within b c → Within a c
    Within_trans w w' j = let p = w j in let q = w' j in omega arith

    later :
        (j : String)
        → get_clock a j < get_clock b j
        → get_clock b j ≤ get_clock c j
        → get_clock a j < get_clock c j
    later j p q = omega arith
