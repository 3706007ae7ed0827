-- ===== src/Memento/Rollbacks.antt =====
-- synckit/memento.go: what undoing a resolution would affect.
use go_sync_kit.Base.{ℕ, String, List, [], ◌∷◌, Bool, ltb, leb, length, if◌then◌else◌}
use go_sync_kit.Base.Dict.{Dict}
use go_sync_kit.Types.{Result, ok, err}
use go_sync_kit.Memento.{ResolutionMemento, MementoError, Codec, get, get_audit_trail}

pub record RollbackAnalysis : Type 0 where
  pub target_memento : ResolutionMemento
  pub affected_resolutions : List ResolutionMemento
  pub rollback_complexity : String
  pub requires_reprocessing : Bool

-- `calculateComplexity`.
abbrev pub calculate_complexity : List ResolutionMemento → String
calculate_complexity [] = "simple"
calculate_complexity (m ∷ rest) = if leb (length (m ∷ rest)) 3 then "moderate" else "complex"

abbrev pub later_than : ℕ → List ResolutionMemento → List ResolutionMemento
later_than time [] = []
later_than time (m ∷ rest) =
    let later = later_than time rest in if ltb time m.timestamp then m ∷ later else later

unfoldable pub analysis_of : ResolutionMemento → List ResolutionMemento → RollbackAnalysis
analysis_of m trail =
    let affected = later_than m.timestamp trail in
    record {
      target_memento = m;
      affected_resolutions = affected;
      rollback_complexity = calculate_complexity affected;
      requires_reprocessing = ltb 0 (length affected);
    }

module _ {Raw : Type 0} (json : Codec Raw) where
  abbrev pub analysed :
      Dict ResolutionMemento
      → Result MementoError ResolutionMemento
      → Result MementoError RollbackAnalysis
  analysed mementos (err e) = err e
  analysed mementos (ok m) = ok (analysis_of m (get_audit_trail json m.aggregate_id mementos))

  -- `AnalyzeRollback`.
  unfoldable pub analyze_rollback :
      String → Dict ResolutionMemento → Result MementoError RollbackAnalysis
  analyze_rollback id mementos = analysed mementos (get json id mementos)
