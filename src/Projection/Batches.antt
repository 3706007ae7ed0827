-- ===== src/Projection/Batches.antt =====
-- projection/runner.go: a batch of `ApplySince`, and what it adds to a run.
use go_sync_kit.Base.{
  ℕ, ◌+◌, Option, none, some, List, [], ◌∷◌, ◌++◌, length, take, drop, joined, ◌≡◌, refl, arith, ap,
  sym, ◌∙◌, length-take, length-append, take-append-drop, append_assoc,
}
use go_sync_kit.Types.{EventWithVersion, Version, integer, ok}
use go_sync_kit.Projection.{
  OffsetStore, Projector, Source, World, Run, last_version, after_set, after_apply, apply_batch,
  start_of, start_version,
}
use go_sync_kit.Projection.Log.{Laws, done, batch, Ending, IsRunOf}

module _ {O P E : Type 0} (offsets : OffsetStore O E) (projector : Projector P E)
    (source : Source E) (log : List EventWithVersion) (laws : Laws offsets source log) where
  offset_saved :
      (v : Version) (o : O) (p : P) (w' : World O P) (outcome : O × Option E)
      → offsets.set v o ≡ outcome
      → after_set offsets projector p outcome ≡ (w', none)
      → offsets.get w'.offsets ≡ ok (some v)
  offset_saved v o p w' (o', some e) is h = absurd (ground arith)
  offset_saved v o p w' (o', none) is h =
      ap (λ x. offsets.get x.0.offsets) (sym h) ∙ laws.get-set v o o' is

  applied_saved :
      (v : Version) (o : O) (w' : World O P) (outcome : P × Option E)
      → after_apply offsets projector v o outcome ≡ (w', none)
      → offsets.get w'.offsets ≡ ok (some v)
  applied_saved v o w' (p, some e) h = absurd (ground arith)
  applied_saved v o w' (p, none) h = offset_saved v o p w' (offsets.set v o) refl h

  -- After a batch, the next run would start after its last event.
  pub start_version-apply_batch :
      (ev : EventWithVersion) (rest : List EventWithVersion) (w w' : World O P)
      → apply_batch offsets projector (ev ∷ rest) w ≡ (w', none)
      → start_version offsets projector source w' ≡ ok (last_version ev rest)
  unfolding apply_batch start_version
  start_version-apply_batch ev rest w w' h = ap (start_of offsets projector source.zero_version) (
      applied_saved (last_version ev rest) w.offsets w' (projector.apply (ev ∷ rest) w.projected) h)

  -- The loop returned, and what it returned is such a run.
  abbrev pub Produces : ℕ → ℕ → List EventWithVersion → World O P → ℕ → Option (Run O P E) → Type 0
  Produces size n evs w count none = ⊥
  Produces size n evs w count (some run) = IsRunOf offsets projector source size n evs w count run

  pub none_fed :
      (size n : ℕ) (evs : List EventWithVersion) (w : World O P) (count : ℕ) (run : Run O P E)
      → start_version offsets projector source w ≡ ok (integer n)
      → run.applied ≡ count
      → Ending offsets projector size w evs run
      → IsRunOf offsets projector source size n evs w count run
  none_fed size n evs w count run start counted ending = record {
    batches = [];
    reached = w;
    rest = evs;
    fed = done;
    in_order = refl;
    counted = omega (arith, counted);
    resumes = start ∙ ap (λ k. ok (integer k)) (omega arith);
    ending = ending;
  }

  pub one_fed :
      (size n : ℕ) (evs : List EventWithVersion) (w w' : World O P) (count : ℕ)
      (out : Option (Run O P E))
      → apply_batch offsets projector (take size evs) w ≡ (w', none)
      → Produces size
          (n + length (take size evs))
          (drop size evs)
          w'
          (count + length (take size evs))
          out
      → Produces size n evs w count out
  one_fed size n evs w w' count none accepted later = later
  one_fed size n evs w w' count (some run) accepted later =
      let total = length-append (take size evs) (joined later.batches) in
      record {
        batches = take size evs ∷ later.batches;
        reached = later.reached;
        rest = later.rest;
        fed = batch accepted (omega (arith, length-take size evs)) later.fed;
        in_order =
            append_assoc (take size evs) (joined later.batches) later.rest
            ∙ ap (λ l. take size evs ++ l) later.in_order
            ∙ take-append-drop size evs;
        counted = omega (arith, later.counted, total);
        resumes = later.resumes ∙ ap (λ k. ok (integer k)) (omega (arith, total));
        ending = later.ending;
      }
