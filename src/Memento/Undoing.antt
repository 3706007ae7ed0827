-- ===== src/Memento/Undoing.antt =====
-- synckit/memento.go: that resolutions are audited, and what undoing one affects.
use mathlib.Core.List.{Memᴰ}
use Prim.Native.String.{◌++◌ as str_append, len}
use text.Mathlib.TextPositions.{len-append}
use go_sync_kit.Base.{
  ℕ, ◌<◌, String, Option, none, some, List, [], ◌∷◌, Bool, true, false, ltb, leb, ◌≡◌, ◌≢◌, ◌↔◌,
  refl, sym, ap, arith, ◌∙◌, subst, length, eq_iff, if_both, Bool-cases, inl, inr, if_eq_true,
  if_eq_false, eq_refl, ltb→lt,
}
use go_sync_kit.Base.Dict.{Dict, insert, lookup, lookup-insert, HasDistinctKeys}
use go_sync_kit.Types.{Conflict, ResolvedConflict, Value, Result, ok, err}
use go_sync_kit.Workflow.{flag}
use go_sync_kit.Memento.{ResolutionMemento, Codec, deep_copy, save, get, get_audit_trail}
use go_sync_kit.Memento.Kept.{get_audit_trail_iff, save-HasDistinctKeys}
use go_sync_kit.Memento.Auditing.{
  Wording, AuditCall, resolve, memento_of, pending, with_outcome, generate_memento_id,
}
use go_sync_kit.Memento.Rollbacks.{
  RollbackAnalysis, analyze_rollback, analysed, analysis_of, later_than, calculate_complexity,
}

memento_id_nonempty : (s : String) → str_append "memento_" s ≢ ""
memento_id_nonempty s h = absurd (omega (arith, len-append "memento_" s, ap len h))

id-memento_of :
    {E : Type 0} (wording : Wording E) (call : AuditCall) (c : Conflict)
    (r : Result E ResolvedConflict)
    → ((memento_of wording call c r).id ≡ generate_memento_id wording.number_text call.id_time)
      × ((memento_of wording call c r).aggregate_id ≡ c.aggregate_id)
unfolding memento_of pending with_outcome
id-memento_of wording call c (ok r) = (refl, refl)
id-memento_of wording call c (err e) = (refl, refl)

-- The copy keeps what JSON encodes of texts, of lists of texts and of maps to texts and Booleans.
pub record IsFaithful (m copy : ResolutionMemento) : Type 0 where
  pub aggregate : copy.aggregate_id ≡ m.aggregate_id
  pub decision : copy.decision ≡ m.decision
  pub reasons : copy.reasons ≡ m.reasons
  pub context : copy.context ≡ m.context

abbrev pub decision_of : {E : Type 0} → Result E ResolvedConflict → String
decision_of (ok res) = res.decision
decision_of (err e) = ""

abbrev pub reasons_of : {E : Type 0} → Result E ResolvedConflict → List String
reasons_of (ok res) = res.reasons
reasons_of (err e) = []

abbrev pub is_ok : {E : Type 0} → Result E ResolvedConflict → Bool
is_ok (ok res) = true
is_ok (err e) = false

abbrev pub error_in : {E : Type 0} → Wording E → Result E ResolvedConflict → Option Value
error_in wording (ok res) = none
error_in wording (err e) = some (Value.text (wording.error_text e))

-- A memento tells how the resolution of a conflict ended.
pub record Tells {E : Type 0} (wording : Wording E) (c : Conflict) (r : Result E ResolvedConflict)
    (m : ResolutionMemento) : Type 0 where
  pub aggregate : m.aggregate_id ≡ c.aggregate_id
  pub decision : m.decision ≡ decision_of r
  pub reasons : m.reasons ≡ reasons_of r
  pub success : lookup "success" m.context ≡ some (flag (is_ok r))
  pub error : lookup "error" m.context ≡ error_in wording r

memento_of-Tells :
    {E : Type 0} (wording : Wording E) (call : AuditCall) (c : Conflict)
    (r : Result E ResolvedConflict)
    → Tells wording c r (memento_of wording call c r)
unfolding memento_of pending with_outcome lookup insert
memento_of-Tells wording call c (ok res) = record {
  aggregate = refl;
  decision = refl;
  reasons = refl;
  success = refl;
  error = refl;
}
memento_of-Tells wording call c (err e) = record {
  aggregate = refl;
  decision = refl;
  reasons = refl;
  success = refl;
  error = refl;
}

Tells-copy :
    {E : Type 0} (wording : Wording E) (c : Conflict) (r : Result E ResolvedConflict)
    (m copy : ResolutionMemento)
    → Tells wording c r m
    → IsFaithful m copy
    → Tells wording c r copy
Tells-copy wording c r m copy tells same = record {
  aggregate = same.aggregate ∙ tells.aggregate;
  decision = same.decision ∙ tells.decision;
  reasons = same.reasons ∙ tells.reasons;
  success = ap (lookup "success") same.context ∙ tells.success;
  error = ap (lookup "error") same.context ∙ tells.error;
}

Memᴰ-later_than :
    (time : ℕ) (trail : List ResolutionMemento) (x : ResolutionMemento)
    → Memᴰ x (later_than time trail) ↔ (Memᴰ x trail × (time < x.timestamp))
Memᴰ-later_than time [] x = (λ h. elim h [ ], λ h. elim h.0 [ ])
Memᴰ-later_than time (m ∷ rest) x =
    let ih = Memᴰ-later_than time rest x in
    elim (Bool-cases (ltb time m.timestamp)) [
      | inl later ↦ (
        λ h.
            subst (λ l. Memᴰ x l → Memᴰ x (m ∷ rest) × (time < x.timestamp))
              (sym (if_eq_true _ _ later))
              (λ k. elim k [
                | Memᴰ.head is ↦
                    (Memᴰ.head is, subst (λ y. time < y.timestamp) (sym is) (ltb→lt _ _ later))
                | Memᴰ.tail t ↦ (Memᴰ.tail (ih.0 t).0, (ih.0 t).1)
              ])
              h,
        λ (h, after).
            subst (Memᴰ x) (sym (if_eq_true _ _ later))
              (elim h [ Memᴰ.head is ↦ Memᴰ.head is | Memᴰ.tail t ↦ Memᴰ.tail (ih.1 (t, after)) ]),
      )
      | inr earlier ↦ (
        λ h. (let k = ih.0 (subst (Memᴰ x) (if_eq_false _ _ earlier) h) in (Memᴰ.tail k.0, k.1)),
        λ (h, after). subst (Memᴰ x) (sym (if_eq_false _ _ earlier)) (elim h [
          | Memᴰ.head is ↦ absurd (ground (arith, earlier, after, ap (λ y. y.timestamp) is))
          | Memᴰ.tail t ↦ ih.1 (t, after)
        ]),
      )
    ]

moderate_differs : ◌≢◌ {A = String} "moderate" "simple"
moderate_differs h = absurd (ground (arith, h, eq_iff "moderate" "simple"))

complex_differs : ◌≢◌ {A = String} "complex" "simple"
complex_differs h = absurd (ground (arith, h, eq_iff "complex" "simple"))

simple_iff :
    (affected : List ResolutionMemento)
    → (ltb 0 (length affected) ≡ true) ↔ (calculate_complexity affected ≢ "simple")
simple_iff [] = (λ h. absurd (ground arith), λ h. absurd (h refl))
simple_iff (m ∷ rest) = (
  λ h.
      if_both {A = String} (λ s. s ≢ "simple") (leb (length (m ∷ rest)) 3) moderate_differs
        complex_differs,
  λ h. ground arith,
)

module _ {Raw : Type 0} (json : Codec Raw) where
  -- What is saved under an ID of its own is found under it.
  lookup-save :
      (m copy : ResolutionMemento) (mementos : Dict ResolutionMemento)
      → m.id ≢ ""
      → deep_copy json m ≡ ok copy
      → lookup m.id (save json m mementos).0 ≡ some copy
  unfolding save
  lookup-save m copy mementos named copied =
      rw copied
        (ground (arith, eq_iff m.id "", eq_refl m.id, lookup-insert m.id m.id copy mementos))

  -- An audited resolver answers as the resolver that it wraps; and where the memento of the resolution
  -- can be copied, with a copy that is faithful and is copied to itself, the audit trail of the
  -- conflict's aggregate holds it afterwards, and it tells how the resolution ended: the decision and
  -- the reasons, and whether it was a success or which error it was.
  pub resolve_is_audited :
      {E : Type 0} (wording : Wording E) (call : AuditCall)
      (wrapped : Conflict → Result E ResolvedConflict) (c : Conflict)
      (mementos : Dict ResolutionMemento) (copy : ResolutionMemento)
      → HasDistinctKeys mementos
      → deep_copy json (memento_of wording call c (wrapped c)) ≡ ok copy
      → deep_copy json copy ≡ ok copy
      → IsFaithful (memento_of wording call c (wrapped c)) copy
      → ((resolve wording json call wrapped c mementos).1 ≡ wrapped c)
        × Memᴰ copy
            (get_audit_trail json c.aggregate_id (resolve wording json call wrapped c mementos).0)
        × Tells wording c (wrapped c) copy
  unfolding resolve
  resolve_is_audited wording call wrapped c mementos copy d copied again keeps =
      let m = memento_of wording call c (wrapped c) in
      let is = id-memento_of wording call c (wrapped c) in
      let named : m.id ≢ "" = λ h. memento_id_nonempty _ (sym is.0 ∙ h) in
      (
        refl,
        (get_audit_trail_iff json (save json m mementos).0 c.aggregate_id copy
              (save-HasDistinctKeys json m mementos d)).1
            (
              m.id,
              copy,
              lookup-save m copy mementos named copied,
              λ some_id. keeps.aggregate ∙ is.1,
              again,
            ),
        Tells-copy wording c (wrapped c) m copy (memento_of-Tells wording call c (wrapped c)) keeps,
      )

  -- The analysis of a rollback names the memento itself and, as affected, those of its aggregate's audit
  -- trail that are later; it asks for reprocessing exactly where it is not simple.
  pub analyze_rollback_lem :
      (id : String) (mementos : Dict ResolutionMemento) (target : ResolutionMemento)
      → get json id mementos ≡ ok target
      → (a : RollbackAnalysis) × (analyze_rollback json id mementos ≡ ok a)
        × (a.target_memento ≡ target)
        × ((x : ResolutionMemento)
            → Memᴰ x a.affected_resolutions ↔ (
                Memᴰ x (get_audit_trail json target.aggregate_id mementos)
                × (target.timestamp < x.timestamp)))
        × ((a.requires_reprocessing ≡ true) ↔ (a.rollback_complexity ≢ "simple"))
  unfolding analyze_rollback analysis_of
  analyze_rollback_lem id mementos target found =
      let trail = get_audit_trail json target.aggregate_id mementos in
      (
        analysis_of target trail,
        ap (analysed json mementos) found,
        refl,
        Memᴰ-later_than target.timestamp trail,
        simple_iff (later_than target.timestamp trail),
      )
