-- ===== src/Projection.antt =====
-- projection/runner.go: a runner that feeds a projector the events of a store in batches and saves
-- the offset after each. Metrics and the log are left out. During a run the store does not change:
-- what `Load` and `ParseVersion("")` return is an argument.
pub mod Log
mod Batches
pub mod Runs
pub mod OverMemStore
mod Tests
use go_sync_kit.Base.{
  ℕ, zero, suc, ◌+◌, Option, none, some, List, [], ◌∷◌, Bool, true, false, ltb, if◌then◌else◌,
  length, take,
}
use go_sync_kit.Base.Int.{ℤ, pos, negsuc}
use go_sync_kit.Types.{EventWithVersion, Version, Result, ok, err}

-- `OffsetStore` for one projection; `Get` returns nil when no offset has been stored.
pub record OffsetStore (O E : Type 0) : Type 0 where
  pub get : O → Result E (Option Version)
  pub set : Version → O → O × Option E

-- `Projector`.
pub record Projector (P E : Type 0) : Type 0 where
  pub apply : List EventWithVersion → P → P × Option E

-- What a runner reads of its store.
pub record Source (E : Type 0) : Type 0 where
  pub load : Version → Result E (List EventWithVersion)
  pub zero_version : Result E Version

-- The state that a runner changes.
pub record World (O P : Type 0) : Type 0 where
  pub offsets : O
  pub projected : P

-- The errors of a run, with what they wrap.
pub data RunError (E : Type 0) : Type 0 where
  start_error load_error apply_error offset_error : E → RunError E

-- What `ApplySince` returns, beside the state that it leaves.
pub record Run (O P E : Type 0) : Type 0 where
  pub world : World O P
  pub applied : ℕ
  pub last : Option Version
  pub error : Option (RunError E)

-- `WithBatchSize` over the default.
abbrev pub batch_size : Option ℤ → ℕ
batch_size none = 500
batch_size (some (pos zero)) = 500
batch_size (some (pos (suc n))) = suc n
batch_size (some (negsuc n)) = 500

-- `batch[len(batch)-1].Version` of the batch of an event and those after it.
abbrev pub last_version : EventWithVersion → List EventWithVersion → Version
last_version ev [] = ev.version
last_version ev (next ∷ rest) = last_version next rest

module _ {O P E : Type 0} (offsets : OffsetStore O E) (projector : Projector P E) where
  abbrev pub after_set : P → O × Option E → World O P × Option (RunError E)
  after_set p (o, some e) = (record { offsets = o; projected = p }, some (offset_error e))
  after_set p (o, none) = (record { offsets = o; projected = p }, none)

  abbrev pub after_apply : Version → O → P × Option E → World O P × Option (RunError E)
  after_apply v o (p, some e) = (record { offsets = o; projected = p }, some (apply_error e))
  after_apply v o (p, none) = after_set p (offsets.set v o)

  -- `ApplyBatch`.
  pub apply_batch : List EventWithVersion → World O P → World O P × Option (RunError E)
  apply_batch [] w = (w, none)
  apply_batch (ev ∷ rest) w =
      after_apply (last_version ev rest) w.offsets (projector.apply (ev ∷ rest) w.projected)

  abbrev pub start_of : Result E Version → Result E (Option Version) → Result E Version
  start_of zero_version (err e) = err e
  start_of zero_version (ok none) = zero_version
  start_of zero_version (ok (some v)) = ok v

  -- `getStartVersion`.
  pub start_version : Source E → World O P → Result E Version
  start_version source w = start_of source.zero_version (offsets.get w.offsets)

  abbrev pub ended : World O P → ℕ → Option Version → Option (RunError E) → Option (Run O P E)
  ended w applied last error =
      some (record { world = w; applied = applied; last = last; error = error })

  abbrev pub after_batch :
      World O P × Option (RunError E)
      → ℕ
      → Option Version
      → (World O P → Option (Run O P E))
      → Option (Run O P E)
  after_batch (w, some e) applied last next = ended w applied last (some e)
  after_batch (w, none) applied last next = next w

  -- One round of the loop with what was loaded, cut to the batch size; `next` is the next round.
  pub one_round :
      ℕ
      → List EventWithVersion
      → World O P
      → ℕ
      → Option Version
      → (Version → ℕ → World O P → Option (Run O P E))
      → Option (Run O P E)
  unfolding apply_batch
  one_round size [] w applied last next = ended w applied last none
  one_round size (ev ∷ rest) w applied last next =
      let count = applied + length (ev ∷ rest) in
      after_batch (apply_batch (ev ∷ rest) w) applied last (λ w'.
        if ltb (length (ev ∷ rest)) size
        then ended w' count (some (last_version ev rest)) none
        else next (last_version ev rest) count w')

  abbrev pub after_load :
      Result E (List EventWithVersion)
      → World O P
      → ℕ
      → Option Version
      → (List EventWithVersion → Option (Run O P E))
      → Option (Run O P E)
  after_load (err e) w applied last next = ended w applied last (some (load_error e))
  after_load (ok evs) w applied last next = next evs

  -- The loop of `ApplySince`, on fuel; `none` when it runs out.
  pub apply_rounds :
      ℕ → Source E → ℕ → Version → World O P → ℕ → Option Version → Option (Run O P E)
  unfolding one_round
  apply_rounds zero source size after w applied last = none
  apply_rounds (suc fuel) source size after w applied last =
      after_load (source.load after) w applied last (λ evs.
        one_round size (take size evs) w applied last
          (λ v count w'. apply_rounds fuel source size v w' count (some v)))

  abbrev pub from_start : ℕ → Source E → ℕ → World O P → Result E Version → Option (Run O P E)
  unfolding apply_rounds
  from_start fuel source size w (err e) = ended w 0 none (some (start_error e))
  from_start fuel source size w (ok v) = apply_rounds fuel source size v w 0 none

  -- `ApplySince`.
  pub apply_since : ℕ → Source E → ℕ → World O P → Option (Run O P E)
  unfolding start_version apply_rounds
  apply_since fuel source size w = from_start fuel source size w (start_version source w)
