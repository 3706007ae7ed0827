-- ===== src/Projection/Runs.antt =====
-- projection/runner.go: what a run of `ApplySince` feeds to the projector.
use go_sync_kit.Base.{
  ℕ, zero, suc, ◌+◌, ◌≤◌, ◌<◌, Option, none, some, List, [], ◌∷◌, ◌++◌, true, false, ltb,
  if◌then◌else◌, length, take, drop, joined, ◌≡◌, refl, arith, ap, sym, subst, ◌∙◌, length-take,
  length-drop, length-append, drop-drop, drop_all, Bool-cases, inl, inr, ltb→lt, ltb→le, ◌⊎◌,
  if_eq_true, if_eq_false,
}
use mathlib.Core.Option.{some-injective}
use go_sync_kit.Types.{EventWithVersion, Version, integer, ok}
use go_sync_kit.MemStore.Invariant.{Numbered}
use go_sync_kit.Projection.{
  OffsetStore, Projector, Source, World, Run, RunError, last_version, apply_batch, start_version,
  ended, after_batch, one_round, apply_rounds, from_start, apply_since,
}
use go_sync_kit.Projection.Log.{
  Laws, Numbered-drop, Numbered-take, last_version-Numbered, Ending, caught_up, refused, IsRunOf,
}
use go_sync_kit.Projection.Batches.{start_version-apply_batch, Produces, none_fed, one_fed}

module _ {O P E : Type 0} (offsets : OffsetStore O E) (projector : Projector P E)
    (source : Source E) (log : List EventWithVersion) (laws : Laws offsets source log) where
  -- What the next round is called with.
  abbrev Continues :
      ℕ
      → ℕ
      → List EventWithVersion
      → List EventWithVersion
      → ℕ
      → (Version → ℕ → World O P → Option (Run O P E))
      → Type 0
  Continues size n evs taken count next =
      (w' : World O P)
      → length taken ≡ size
      → start_version offsets projector source w' ≡ ok (integer (n + length taken))
      → Produces offsets projector source log laws size (n + length taken) (drop size evs) w'
          (count + length taken) (next (integer (n + length taken)) (count + length taken) w')

  one_round-Produces :
      (size n : ℕ) (evs taken : List EventWithVersion) (w : World O P) (count : ℕ)
      (last : Option Version) (next : Version → ℕ → World O P → Option (Run O P E))
      → 0 < size
      → take size evs ≡ taken
      → Numbered (n + 1) taken
      → start_version offsets projector source w ≡ ok (integer n)
      → Continues size n evs taken count next
      → Produces offsets projector source log laws size n evs w count
          (one_round offsets projector size taken w count last next)
  unfolding one_round
  one_round-Produces size n evs [] w count last next sized is v start continues =
      none_fed offsets projector source log laws size n evs w count _ start refl
        (caught_up (drop_all 0 evs (omega (arith, length-take size evs, ap length is))) refl refl)
  one_round-Produces size n evs (ev ∷ rest) w count last next sized is v start continues =
      by_outcome (apply_batch offsets projector (ev ∷ rest) w) refl
    where
      batch_is :
          {w' : World O P} {e : Option (RunError E)}
          → apply_batch offsets projector (ev ∷ rest) w ≡ (w', e)
          → apply_batch offsets projector (take size evs) w ≡ (w', e)
      batch_is h = ap (λ b. apply_batch offsets projector b w) is ∙ h

      taken_length : length (ev ∷ rest) ≡ length (take size evs)
      taken_length = sym (ap length is)

      by_length :
          (w' : World O P)
          → start_version offsets projector source w' ≡ ok (integer (n + length (ev ∷ rest)))
          → (ltb (length (ev ∷ rest)) size ≡ true) ⊎ (ltb (length (ev ∷ rest)) size ≡ false)
          → Produces offsets projector source log laws size
              (n + length (ev ∷ rest))
              (drop size evs)
              w'
              (count + length (ev ∷ rest))
              (if ltb (length (ev ∷ rest)) size
                then ended offsets projector w'
                    (count + length (ev ∷ rest))
                    (some (last_version ev rest))
                    none
                else next (last_version ev rest) (count + length (ev ∷ rest)) w')
      by_length w' saved (inl short) = rw (if_eq_true _ _ short) (
          none_fed offsets projector source log laws size (n + length (ev ∷ rest)) (drop size evs)
            w' (count + length (ev ∷ rest)) _ saved refl
            (caught_up
              (drop_all size evs
                (omega (arith, ltb→lt _ _ short, taken_length, length-take size evs)))
              refl refl))
      by_length w' saved (inr long) =
          rw (if_eq_false _ _ long, last_version-Numbered n ev rest v)
            (continues w' (omega (arith, ltb→le _ _ long, taken_length, length-take size evs))
              saved)

      by_outcome :
          (outcome : World O P × Option (RunError E))
          → apply_batch offsets projector (ev ∷ rest) w ≡ outcome
          → Produces offsets projector source log laws size n evs w count (
              after_batch offsets projector outcome count last (λ w'.
                if ltb (length (ev ∷ rest)) size
                then ended offsets projector w'
                    (count + length (ev ∷ rest))
                    (some (last_version ev rest))
                    none
                else next (last_version ev rest) (count + length (ev ∷ rest)) w'))
      by_outcome (w', some e) h =
          none_fed offsets projector source log laws size n evs w count _ start refl
            (refused e (batch_is h) refl)
      by_outcome (w', none) h =
          let saved : start_version offsets projector source w'
              ≡ ok (integer (n + length (ev ∷ rest))) =
            start_version-apply_batch offsets projector source log laws ev rest w w' h
            ∙ ap ok (last_version-Numbered n ev rest v) in
          let is_long : length (take size evs) ≡ length (ev ∷ rest) = ap length is in
          one_fed offsets projector source log laws size n evs w w' count _ (batch_is h)
            (rw is_long (by_length w' saved (Bool-cases (ltb (length (ev ∷ rest)) size))))

  apply_rounds-Produces :
      (fuel size n : ℕ) (w : World O P) (count : ℕ) (last : Option Version)
      → 0 < size
      → length (drop n log) < fuel
      → start_version offsets projector source w ≡ ok (integer n)
      → Produces offsets projector source log laws size n
          (drop n log)
          w
          count
          (apply_rounds offsets projector fuel source size (integer n) w count last)
  unfolding apply_rounds
  apply_rounds-Produces zero size n w count last sized enough start = absurd (omega arith)
  apply_rounds-Produces (suc fuel) size n w count last sized enough start = rw (laws.loads n) (
      one_round-Produces size n (drop n log) (take size (drop n log)) w count last _ sized refl
        (Numbered-take size (n + 1) (drop n log) from_next) start
        (λ w' full saved.
          subst
            (λ evs.
              Produces offsets projector source log laws size (n + length taken) evs w'
                (count + length taken)
                (apply_rounds offsets projector fuel source size (integer (n + length taken)) w'
                  (count + length taken) (some (integer (n + length taken)))))
            (ap (λ k. drop (n + k) log) full ∙ sym (drop-drop size n log))
            (apply_rounds-Produces fuel size (n + length taken) w' (count + length taken) _ sized
              (fewer full) saved)))
    where
      taken : List EventWithVersion
      taken = take size (drop n log)

      from_next : Numbered (n + 1) (drop n log)
      from_next = let e : n + 1 ≡ 1 + n = omega arith in rw e (Numbered-drop n 1 log laws.numbered)

      fewer : length taken ≡ size → length (drop (n + length taken) log) < fuel
      fewer full = omega (
        arith,
        enough,
        sized,
        full,
        length-take size (drop n log),
        length-drop n log,
        length-drop (n + length taken) log,
      )

  produced :
      (size n : ℕ) (evs : List EventWithVersion) (w : World O P) (count : ℕ)
      (out : Option (Run O P E))
      → Produces offsets projector source log laws size n evs w count out
      → (run : Run O P E) × (out ≡ some run)
        × IsRunOf offsets projector source size n evs w count run
  produced size n evs w count none p = absurd p
  produced size n evs w count (some run) p = (run, refl, p)

  pub apply_since-IsRunOf :
      (size n : ℕ) (w : World O P)
      → 0 < size
      → start_version offsets projector source w ≡ ok (integer n)
      → (run : Run O P E) × (apply_since offsets projector (length log + 1) source size w
          ≡ some run)
        × IsRunOf offsets projector source size n (drop n log) w 0 run
  unfolding apply_since
  apply_since-IsRunOf size n w sized start =
      let (run, returns, good) = produced size n (drop n log) w 0 _ (
        apply_rounds-Produces (length log + 1) size n w 0 none sized
          (omega (arith, length-drop n log)) start) in
      (run, ap (from_start offsets projector (length log + 1) source size w) start ∙ returns, good)

  joined_none :
      (batches : List (List EventWithVersion)) (rest : List EventWithVersion)
      → joined batches ++ rest ≡ []
      → length (joined batches) ≡ 0
  joined_none batches rest h = omega (arith, ap length h, length-append (joined batches) rest)

  -- Where a run without an error leaves the offset: after the last event of the log.
  caught_up_start :
      (size n : ℕ) (w : World O P) (count : ℕ) (run : Run O P E)
      → n ≤ length log
      → IsRunOf offsets projector source size n (drop n log) w count run
      → run.error ≡ none
      → start_version offsets projector source run.world ≡ ok (integer (length log))
  caught_up_start size n w count run within r fine = by_ending r.ending
    where
      by_ending :
          Ending offsets projector size r.reached r.rest run
          → start_version offsets projector source run.world ≡ ok (integer (length log))
      by_ending (caught_up over e same) =
          ap (start_version offsets projector source) same
          ∙ r.resumes
          ∙ ap (λ k. ok (integer k))
              (omega (
                arith,
                ap length r.in_order,
                length-append (joined r.batches) r.rest,
                ap length over,
                length-drop n log,
                within,
              ))
      by_ending (refused e h is) = let no = sym fine ∙ is in absurd (ground arith)

  -- `ApplySince` after an `ApplySince` that returned no error, with no new event in between, returns
  -- and applies nothing.
  pub apply_since_again :
      (size n : ℕ) (w : World O P) (run : Run O P E)
      → 0 < size
      → n ≤ length log
      → start_version offsets projector source w ≡ ok (integer n)
      → apply_since offsets projector (length log + 1) source size w ≡ some run
      → run.error ≡ none
      → (next : Run O P E) × (apply_since offsets projector (length log + 1) source size run.world
          ≡ some next)
        × (next.applied ≡ 0)
  apply_since_again size n w run sized within start returned fine =
      let (run', returned', r) = apply_since-IsRunOf size n w sized start in
      let same : run' ≡ run = some-injective _ _ (sym returned' ∙ returned) in
      let r' : IsRunOf offsets projector source size n (drop n log) w 0 run =
        subst (λ x. IsRunOf offsets projector source size n (drop n log) w 0 x) same r in
      let (next, again, q) =
        apply_since-IsRunOf size (length log) run.world sized
          (caught_up_start size n w 0 run within r' fine) in
      (
        next,
        again,
        omega (
          arith,
          q.counted,
          joined_none q.batches q.rest (q.in_order ∙ drop_all (length log) log (omega arith)),
        ),
      )
