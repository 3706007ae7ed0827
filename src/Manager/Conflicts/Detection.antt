-- ===== src/Manager/Conflicts/Detection.antt =====
-- synckit/manager.go, `detectConflicts`: the index by key against a comparison of all pairs.
use Prim.Native.String.{◌++◌ as concat}
use text.Mathlib.TextLemmas.{append_assoc as concat_assoc}
use go_sync_kit.Base.{
  String, List, [], ◌∷◌, ◌++◌, Bool, true, str_eq, keep, ◌≡◌, refl, arith, ap, ◌∙◌, sym, eq_iff,
  append_assoc, Bool-cases, inl, inr, append-nil, map, ◌&&◌,
}
use go_sync_kit.Base.Dict.{Dict, lookup, insert, lookup-insert}
use go_sync_kit.Types.{EventWithVersion, Conflict}
use go_sync_kit.Manager.{Methods}
use go_sync_kit.Manager.Conflicts.{
  key_of, or_no_events, index_by_key, conflict_of, versions_differ, conflicts_with, scan_remote,
  detect_conflicts,
}

abbrev pub has_key : String → EventWithVersion → Bool
has_key k ev = str_eq (key_of ev.event) k

lookup-index_by_key :
    (evs : List EventWithVersion) (m : Dict (List EventWithVersion)) (k : String)
    → or_no_events (lookup k (index_by_key evs m))
      ≡ or_no_events (lookup k m) ++ keep (has_key k) evs
unfolding index_by_key
lookup-index_by_key [] m k = sym (append-nil (or_no_events (lookup k m)))
lookup-index_by_key (ev ∷ rest) m k =
    let here = key_of ev.event in
    let grown = or_no_events (lookup here m) ++ ev ∷ [] in
    let ih = lookup-index_by_key rest (insert here grown m) k in
    elim (Bool-cases (str_eq here k)) [
      | inl e ↦
          let same : here ≡ k = (eq_iff here k).0 e in
          rw (ih, lookup-insert, e)
            (append_assoc (or_no_events (lookup here m)) (ev ∷ []) (keep (has_key k) rest)
              ∙ ap (λ j. or_no_events (lookup j m) ++ ev ∷ keep (has_key k) rest) same)
      | inr e ↦ rw (ih, lookup-insert, e) refl
    ]

-- The pairs that are reported for a remote event, by comparing it with every local event.
pub conflicts_of : Methods → List EventWithVersion → EventWithVersion → List Conflict
conflicts_of methods local remote =
    map (λ l. conflict_of methods l remote)
      (keep (λ l. has_key (key_of remote.event) l && versions_differ methods l remote) local)

pub conflicts_of_all : Methods → List EventWithVersion → List EventWithVersion → List Conflict
conflicts_of_all methods local [] = []
conflicts_of_all methods local (remote ∷ rest) =
    conflicts_of methods local remote ++ conflicts_of_all methods local rest

conflicts_with-keep :
    (methods : Methods) (remote : EventWithVersion) (local : List EventWithVersion)
    → conflicts_with methods remote (keep (has_key (key_of remote.event)) local)
      ≡ conflicts_of methods local remote
unfolding conflicts_with conflicts_of
conflicts_with-keep methods remote [] = refl
conflicts_with-keep methods remote (l ∷ local) =
    ground (arith, conflicts_with-keep methods remote local)

scan_remote-eq-all :
    (methods : Methods) (local remote : List EventWithVersion)
    → scan_remote methods (index_by_key local []) remote ≡ conflicts_of_all methods local remote
unfolding scan_remote conflicts_of_all
scan_remote-eq-all methods local [] = refl
scan_remote-eq-all methods local (r ∷ remote) =
    rw (lookup-index_by_key local [] (key_of r.event), scan_remote-eq-all methods local remote)
      (unfold lookup in rw (conflicts_with-keep methods r local) refl)

-- The conflicts that are detected are those of all pairs of a remote and a local event with the
-- same key and versions that do not compare as equal, remote event by remote event, in order.
pub detect_conflicts-eq-all :
    (methods : Methods) (local remote : List EventWithVersion)
    → detect_conflicts methods local remote ≡ conflicts_of_all methods local remote
unfolding detect_conflicts
detect_conflicts-eq-all methods local remote = scan_remote-eq-all methods local remote

-- Two different pairs of aggregate and type may have one key, since ":" may stand in either: then
-- an event of one is reported as in conflict with an event of the other.
pub unrelated_events_conflict :
    (methods : Methods) (a b c : String) (local remote : EventWithVersion)
    → local.event.aggregate_id ≡ concat (concat a ":") b
    → local.event.kind ≡ c
    → remote.event.aggregate_id ≡ a
    → remote.event.kind ≡ concat (concat b ":") c
    → versions_differ methods local remote ≡ true
    → detect_conflicts methods (local ∷ []) (remote ∷ []) ≡ conflict_of methods local remote ∷ []
unrelated_events_conflict methods a b c local remote la lk ra rk differ =
    detect_conflicts-eq-all methods (local ∷ []) (remote ∷ [])
    ∙ unfold conflicts_of_all conflicts_of in
      rw ((eq_iff (key_of local.event) (key_of remote.event)).1 same_key, differ) refl
  where
    same_key : key_of local.event ≡ key_of remote.event
    same_key = unfold key_of in simp (la, lk, ra, rk, concat_assoc)
