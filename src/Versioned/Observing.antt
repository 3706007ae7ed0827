-- ===== src/Versioned/Observing.antt =====
-- version/store_decorator.go, `Load`: what the version manager observes.
use go_sync_kit.Base.{
  ℕ, ◌≤◌, ◌<◌, ◌⊎◌, Option, none, some, List, [], ◌∷◌, true, if◌then◌else◌, ◌≡◌, inl, inr, refl, ap,
  sym, ◌∙◌, subst, arith, Option-cases, map,
}
use go_sync_kit.Base.Dict.{lookup, is_some, HasDistinctKeys}
use mathlib.Core.Option.{some-injective}
use go_sync_kit.Types.{Event, Result, ok, EventWithVersion, Version, clock, as_integer, VectorClock}
use go_sync_kit.Clock.{get_clock, size, merge, max_nodes}
use go_sync_kit.Clock.Causality.{Within}
use go_sync_kit.Clock.Single.{merge_placed, get_clock-single}
use go_sync_kit.Clock.Merge.{get_clock-merge, merge_error_unchanged}
use go_sync_kit.Versioned.{
  VectorClockManager, EventClocks, cursor_to_vector_clock, update_from_version, after_merge,
  observe_loaded, VersionedStore, or_start, after_load, load_versioned,
}

after_merge-observed : (o : VectorClock × Option _) → (after_merge o).0.observed ≡ o.0
after_merge-observed (vc, none) = refl
after_merge-observed (vc, some e) = refl

-- The manager after it has observed a sequence number.
abbrev observe : ℕ → VectorClockManager → VectorClockManager
observe seq m = (update_from_version (some (clock (some (cursor_to_vector_clock seq)))) m).0

observe-merge :
    (seq : ℕ) (m : VectorClockManager)
    → (observe seq m).observed ≡ (merge m.observed (some (cursor_to_vector_clock seq))).0
unfolding update_from_version
observe-merge seq m = after_merge-observed (merge m.observed (some (cursor_to_vector_clock seq)))

single-HasDistinctKeys : (seq : ℕ) → HasDistinctKeys (cursor_to_vector_clock seq).clocks
unfolding lookup
single-HasDistinctKeys seq = (refl, tt)

observe-grows : (seq : ℕ) (m : VectorClockManager) → Within m.observed (observe seq m).observed
observe-grows seq m k =
    elim (Option-cases (merge m.observed (some (cursor_to_vector_clock seq))).1) [
      | inl fine ↦ omega (
        arith,
        get_clock-merge m.observed (cursor_to_vector_clock seq) k (single-HasDistinctKeys seq) fine,
        ap (λ vc. get_clock vc k) (observe-merge seq m),
      )
      | inr (e, failed) ↦ omega (
        arith,
        ap (λ vc. get_clock vc k) (observe-merge seq m ∙ merge_error_unchanged m.observed _ failed),
      )
    ]

-- The manager's clock has an entry for the sequence numbers or room for one, and is not over full.
pub record HasPlace (m : VectorClockManager) : Type 0 where
  pub placed :
      (is_some (lookup "sequence" m.observed.clocks) ≡ true) ⊎ (size m.observed < max_nodes)
  pub bounded : size m.observed ≤ max_nodes

observe-HasPlace :
    (seq : ℕ) (m : VectorClockManager)
    → HasPlace m
    → HasPlace (observe seq m) × (seq ≤ get_clock (observe seq m).observed "sequence")
observe-HasPlace seq m v =
    let (fine, known, same) =
      merge_placed m.observed "sequence" seq (omega arith) v.placed v.bounded in
    let merged = observe-merge seq m in
    (
      record {
        placed = inl (ap (λ vc. is_some (lookup "sequence" vc.clocks)) merged ∙ known);
        bounded = omega (arith, ap size merged, same);
      },
      omega (
        arith,
        get_clock-merge m.observed (cursor_to_vector_clock seq) "sequence"
            (single-HasDistinctKeys seq) fine,
        ap (λ vc. get_clock vc "sequence") merged,
        get_clock-single "sequence" seq,
      ),
    )

-- Every event with an integer version has one of at most the given number.
abbrev pub AllUpTo : ℕ → List EventWithVersion → Type 0
AllUpTo n [] = Unit
AllUpTo n (ev ∷ rest) = ((seq : ℕ) → as_integer ev.version ≡ some seq → seq ≤ n) × AllUpTo n rest

-- What a load does: the versions of the events are kept, the clock keeps what it held, and it has at
-- least the number of each event.
pub record IsObserved (m m' : VectorClockManager) (evs loaded : List EventWithVersion)
    : Type 0 where
  pub versions :
      map (λ (ev : EventWithVersion). ev.version) loaded
      ≡ map (λ (ev : EventWithVersion). ev.version) evs
  pub grows : Within m.observed m'.observed
  pub known : HasPlace m'
  pub up_to : AllUpTo (get_clock m'.observed "sequence") evs

unnumbered-IsObserved :
    (ev : EventWithVersion) (m m' : VectorClockManager) (evs loaded : List EventWithVersion)
    → as_integer ev.version ≡ none
    → IsObserved m m' evs loaded
    → IsObserved m m' (ev ∷ evs) (ev ∷ loaded)
unnumbered-IsObserved ev m m' evs loaded is o = record {
  versions = ap (λ l. ev.version ∷ l) o.versions;
  grows = o.grows;
  known = o.known;
  up_to = (λ seq h. let no = sym is ∙ h in absurd (ground arith), o.up_to);
}

numbered-IsObserved :
    (ev : EventWithVersion) (event : Event) (seq : ℕ) (m m' : VectorClockManager)
    (evs loaded : List EventWithVersion)
    → as_integer ev.version ≡ some seq
    → seq ≤ get_clock (observe seq m).observed "sequence"
    → IsObserved (observe seq m) m' evs loaded
    → IsObserved m m' (ev ∷ evs) (record ev { event = event } ∷ loaded)
numbered-IsObserved ev event seq m m' evs loaded is seen o = record {
  versions = ap (λ l. ev.version ∷ l) o.versions;
  grows = λ k. omega (arith, observe-grows seq m k, o.grows k);
  known = o.known;
  up_to =
      (λ n h. omega (arith, some-injective _ _ (sym is ∙ h), seen, o.grows "sequence"), o.up_to);
}

observe_loaded-IsObserved :
    (methods : EventClocks) (evs : List EventWithVersion) (m : VectorClockManager)
    → HasPlace m
    → IsObserved m (observe_loaded methods evs m).1 evs (observe_loaded methods evs m).0
unfolding observe_loaded
observe_loaded-IsObserved methods [] m v = record {
  versions = refl;
  grows = λ k. omega arith;
  known = v;
  up_to = tt;
}
observe_loaded-IsObserved methods (ev ∷ rest) m v =
    by_version (as_integer ev.version) refl (observe_loaded-IsObserved methods rest m v)
      (λ seq. observe_loaded-IsObserved methods rest (observe seq m) (observe-HasPlace seq m v).0)
  where
    result : Option ℕ → List EventWithVersion × VectorClockManager
    result none = (ev ∷ (observe_loaded methods rest m).0, (observe_loaded methods rest m).1)
    result (some seq) = (
      record ev {
        event =
            if methods.can_set ev.event
            then methods.set_version (cursor_to_vector_clock seq) ev.event
            else ev.event;
      }
          ∷ (observe_loaded methods rest (observe seq m)).0,
      (observe_loaded methods rest (observe seq m)).1,
    )

    by_version :
        (found : Option ℕ)
        → as_integer ev.version ≡ found
        → IsObserved m (observe_loaded methods rest m).1 rest (observe_loaded methods rest m).0
        → ((seq : ℕ)
            → IsObserved
                (observe seq m)
                (observe_loaded methods rest (observe seq m)).1
                rest
                (observe_loaded methods rest (observe seq m)).0)
        → IsObserved m (result found).1 (ev ∷ rest) (result found).0
    by_version none is skipped seen = unnumbered-IsObserved ev m _ rest _ is skipped
    by_version (some seq) is skipped seen =
        numbered-IsObserved ev _ seq m _ rest _ is (observe-HasPlace seq m v).1 (seen seq)

-- Where the version manager's clock has an entry for sequence numbers, or room for one, and is not over
-- full, as a new clock is, a `Load` for which the store returns events returns events with the same
-- versions in the same order. Afterwards the clock still is so, has lost nothing, and its entry is at
-- least the sequence number of every event returned.
pub load_versioned-IsObserved :
    {S E : Type 0} (load : Version → S → Result E (List EventWithVersion)) (methods : EventClocks)
    (since : Option Version) (s : VersionedStore S) (evs : List EventWithVersion)
    → load (or_start since) s.store ≡ ok evs
    → HasPlace s.manager
    → (loaded : List EventWithVersion) × ((load_versioned load methods since s).1 ≡ ok loaded)
      × IsObserved s.manager (load_versioned load methods since s).0.manager evs loaded
unfolding load_versioned
load_versioned-IsObserved load methods since s evs is v =
    let went = ap (after_load methods s) is in
    (
      (observe_loaded methods evs s.manager).0,
      ap (λ x. x.1) went,
      subst (λ m. IsObserved s.manager m evs (observe_loaded methods evs s.manager).0)
          (sym (ap (λ x. x.0.manager) went)) (observe_loaded-IsObserved methods evs s.manager v),
    )
