-- ===== src/Projection/Log.antt =====
-- projection/runner.go: the log that a runner reads, and what it means to have run over a part of it.
use go_sync_kit.Base.{
  ℕ, zero, suc, ◌+◌, ◌≤◌, none, some, List, [], ◌∷◌, ◌++◌, length, take, drop, joined, ◌≡◌, arith,
  ap, ◌∙◌,
}
use go_sync_kit.Types.{EventWithVersion, Version, integer, ok}
use go_sync_kit.MemStore.Invariant.{Numbered}
use go_sync_kit.Projection.{
  OffsetStore, Projector, Source, World, Run, RunError, last_version, apply_batch, start_version,
}

-- The laws of the components of a runner: the store loads the events after a version of its log, and
-- an offset that was set is the one that is then found.
pub record Laws {O E : Type 0} (offsets : OffsetStore O E) (source : Source E)
    (log : List EventWithVersion) : Type 0 where
  pub numbered : Numbered 1 log
  pub loads : (n : ℕ) → source.load (integer n) ≡ ok (drop n log)
  pub from_zero : source.zero_version ≡ ok (integer 0)
  pub get-set :
      (v : Version) (o o' : O) → offsets.set v o ≡ (o', none) → offsets.get o' ≡ ok (some v)

pub Numbered-drop :
    (k n : ℕ) (xs : List EventWithVersion) → Numbered n xs → Numbered (n + k) (drop k xs)
Numbered-drop zero n xs v = let e : n + 0 ≡ n = omega arith in rw e v
Numbered-drop (suc k) n [] v = tt
Numbered-drop (suc k) n (x ∷ xs) v =
    let e : n + suc k ≡ n + 1 + k = omega arith in rw e (Numbered-drop k (n + 1) xs v.1)

pub Numbered-take : (k n : ℕ) (xs : List EventWithVersion) → Numbered n xs → Numbered n (take k xs)
Numbered-take zero n xs v = tt
Numbered-take (suc k) n [] v = tt
Numbered-take (suc k) n (x ∷ xs) v = (v.0, Numbered-take k (n + 1) xs v.1)

pub last_version-Numbered :
    (n : ℕ) (ev : EventWithVersion) (rest : List EventWithVersion)
    → Numbered (n + 1) (ev ∷ rest)
    → last_version ev rest ≡ integer (n + length (ev ∷ rest))
last_version-Numbered n ev [] v = v.0 ∙ ap integer (omega arith)
last_version-Numbered n ev (next ∷ rest) v =
    last_version-Numbered (n + 1) next rest v.1 ∙ ap integer (omega arith)

-- The batches that were applied, each with its offset saved, from one state to another.
pub data Fed {O P E : Type 0} (offsets : OffsetStore O E) (projector : Projector P E) (size : ℕ)
    : World O P → List (List EventWithVersion) → World O P → Type 0 where
  done : {w : World O P} → Fed offsets projector size w [] w
  batch :
      {w w' w'' : World O P} {evs : List EventWithVersion} {later : List (List EventWithVersion)}
      → apply_batch offsets projector evs w ≡ (w', none)
      → length evs ≤ size
      → Fed offsets projector size w' later w''
      → Fed offsets projector size w (evs ∷ later) w''

-- How a run ends, with the state at `reached` and the events `rest` still to apply.
pub data Ending {O P E : Type 0} (offsets : OffsetStore O E) (projector : Projector P E) (size : ℕ)
    (reached : World O P) (rest : List EventWithVersion) (run : Run O P E) : Type 0 where
  caught_up :
      rest ≡ []
      → run.error ≡ none
      → run.world ≡ reached
      → Ending offsets projector size reached rest run
  refused :
      (e : RunError E)
      → apply_batch offsets projector (take size rest) reached ≡ (run.world, some e)
      → run.error ≡ some e
      → Ending offsets projector size reached rest run

-- `run` applied the events `evs`, which follow event number `n` of the log, in order and in batches,
-- each once, up to an error of the projector or of the offset store. Where the last batch was saved,
-- the saved offset is that of the last event that was applied, so the next run goes on after it.
pub record IsRunOf {O P E : Type 0} (offsets : OffsetStore O E) (projector : Projector P E)
    (source : Source E) (size n : ℕ) (evs : List EventWithVersion) (w : World O P) (count : ℕ)
    (run : Run O P E) : Type 0 where
  pub batches : List (List EventWithVersion)
  pub reached : World O P
  pub rest : List EventWithVersion
  pub fed : Fed offsets projector size w batches reached
  pub in_order : joined batches ++ rest ≡ evs
  pub counted : run.applied ≡ count + length (joined batches)
  pub resumes :
      start_version offsets projector source reached ≡ ok (integer (n + length (joined batches)))
  pub ending : Ending offsets projector size reached rest run
