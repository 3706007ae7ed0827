-- ===== src/Manager/Stores.antt =====
-- synckit/manager.go, the loop of `pull` that stores the events.
use go_sync_kit.Base.{
  ℕ, ◌+◌, Option, none, some, List, [], ◌∷◌, ◌++◌, Bool, ◌≡◌, refl, arith, ap, length, Bool-cases,
  inl, inr, subst, sym, if_eq_true, if_eq_false, true, false,
}
use go_sync_kit.Types.{Event, EventWithVersion, Version, ok}
use go_sync_kit.Machine.{Machine}
use go_sync_kit.SyncState.{SyncState}
use go_sync_kit.Manager.{
  EventStore, Transport, Methods, Options, Context, SyncError, store_error, context_done,
  apply_filter,
}
use go_sync_kit.Manager.Pull.{
  after_store, store_events, pull, pull_since, pull_events, conflict_stage, after_stage, finish,
}

-- The events that the store accepted, one `Store` after the other, the first being number `i`, each
-- with a context that is not done.
pub data Accepted {S E : Type 0} (st : EventStore S E) (ctx : Context)
    : ℕ → S → List EventWithVersion → S → Type 0 where
  done : {i : ℕ} {s : S} → Accepted st ctx i s [] s
  accept :
      {i : ℕ} {s s' s'' : S} {ev : EventWithVersion} {later : List EventWithVersion}
      → ctx.done_at_store i ≡ false
      → st.store ev.event ev.version s ≡ (s', none)
      → Accepted st ctx (i + 1) s' later s''
      → Accepted st ctx i s (ev ∷ later) s''

-- How the loop ends, with `n` events stored, the store at `reached` and the events `rest` still to
-- store: there are none, or the store refuses the next, or the context is done before it.
pub data Ending {S E : Type 0} (st : EventStore S E) (ctx : Context) (n : ℕ) (reached : S)
    (rest : List EventWithVersion) (final : S) (error : Option (SyncError E)) : Type 0 where
  all_stored : rest ≡ [] → error ≡ none → final ≡ reached → Ending st ctx n reached rest final error
  refused :
      (e : E) {ev : EventWithVersion} {later : List EventWithVersion}
      → rest ≡ ev ∷ later
      → ctx.done_at_store n ≡ false
      → st.store ev.event ev.version reached ≡ (final, some e)
      → error ≡ some (store_error e)
      → Ending st ctx n reached rest final error
  interrupted :
      {ev : EventWithVersion} {later : List EventWithVersion}
      → rest ≡ ev ∷ later
      → ctx.done_at_store n ≡ true
      → error ≡ some context_done
      → final ≡ reached
      → Ending st ctx n reached rest final error

-- The outcome of storing `evs` in order, up to an error; `count` is where the count starts.
pub record IsStoreOf {S E : Type 0} (st : EventStore S E) (ctx : Context) (s : S)
    (evs : List EventWithVersion) (count : ℕ) (final : S) (total : ℕ) (error : Option (SyncError E))
    : Type 0 where
  pub kept : List EventWithVersion
  pub rest : List EventWithVersion
  pub reached : S
  pub accepted : Accepted st ctx count s kept reached
  pub in_order : kept ++ rest ≡ evs
  pub counted : total ≡ count + length kept
  pub ending : Ending st ctx total reached rest final error

-- An outcome of the loop: the store, the count and the error.
abbrev pub IsOutcome :
    {S E : Type 0}
    → EventStore S E
    → Context
    → S
    → List EventWithVersion
    → ℕ
    → S × ℕ × Option (SyncError E)
    → Type 0
IsOutcome st ctx s evs count (final, total, error) = IsStoreOf st ctx s evs count final total error

module _ {S R E : Type 0} (methods : Methods) (st : EventStore S E) (t : Transport R E)
    (ctx : Context) (opts : Options E) where
  none_accepted :
      (s final : S) (evs : List EventWithVersion) (count : ℕ) (error : Option (SyncError E))
      → Ending st ctx count s evs final error
      → IsStoreOf st ctx s evs count final count error
  none_accepted s final evs count error ending = record {
    kept = [];
    rest = evs;
    reached = s;
    accepted = done;
    in_order = refl;
    counted = omega arith;
    ending = ending;
  }

  one_accepted :
      (s s' : S) (ev : EventWithVersion) (evs : List EventWithVersion) (count : ℕ)
      (out : S × ℕ × Option (SyncError E))
      → ctx.done_at_store count ≡ false
      → st.store ev.event ev.version s ≡ (s', none)
      → IsOutcome st ctx s' evs (count + 1) out
      → IsOutcome st ctx s (ev ∷ evs) count out
  one_accepted s s' ev evs count (final, total, error) going is later = record {
    kept = ev ∷ later.kept;
    rest = later.rest;
    reached = later.reached;
    accepted = accept going is later.accepted;
    in_order = ap (λ l. ev ∷ l) later.in_order;
    counted = omega (arith, later.counted);
    ending = later.ending;
  }

  store_events-IsOutcome :
      (i : ℕ) (evs : List EventWithVersion) (s : S)
      → IsOutcome st ctx s evs i (store_events methods st t ctx opts i evs s)
  unfolding store_events
  store_events-IsOutcome i [] s = none_accepted s s [] i none (all_stored refl refl refl)
  store_events-IsOutcome i (ev ∷ rest) s = elim (Bool-cases (ctx.done_at_store i)) [
    | inl stop ↦
        subst (IsOutcome st ctx s (ev ∷ rest) i) (sym (if_eq_true _ _ stop))
          (none_accepted s s (ev ∷ rest) i (some context_done) (interrupted refl stop refl refl))
    | inr going ↦ subst (IsOutcome st ctx s (ev ∷ rest) i) (sym (if_eq_false _ _ going)) (
        kept_going (st.store ev.event ev.version s) refl going
          (λ s'. store_events-IsOutcome (i + 1) rest s'))
  ]
    where
      kept_going :
          (stored : S × Option E)
          → st.store ev.event ev.version s ≡ stored
          → ctx.done_at_store i ≡ false
          → ((s' : S)
              → IsOutcome st ctx s' rest
                  (i + 1)
                  (store_events methods st t ctx opts (i + 1) rest s'))
          → IsOutcome st ctx s (ev ∷ rest) i (
              after_store methods st t ctx opts stored i
                (store_events methods st t ctx opts (i + 1) rest))
      kept_going (s', some e) is going later =
          none_accepted s s' (ev ∷ rest) i (some (store_error e)) (refused e refl going is refl)
      kept_going (s', none) is going later = one_accepted s s' ev rest i _ going is (later s')

  finish-IsStoreOf :
      (evs all : List EventWithVersion) (n : ℕ) (s : S) (m : Machine SyncState)
      (out : S × ℕ × Option (SyncError E))
      → IsOutcome st ctx s all 0 out
      → let p = finish methods st t ctx opts evs n m out in
        IsStoreOf st ctx s all 0 p.store p.result.events_pulled p.error
  finish-IsStoreOf evs all n s m (final, total, none) h = h
  finish-IsStoreOf evs all n s m (final, total, some e) h = h

  filter_nothing : (f : Option (Event → Bool)) → apply_filter f [] ≡ []
  filter_nothing none = refl
  filter_nothing (some p) = refl

  nothing_pulled : (s : S) → IsStoreOf st ctx s (apply_filter opts.filter []) 0 s 0 none
  nothing_pulled s = none_accepted s s _ 0 none (all_stored (filter_nothing opts.filter) refl refl)

  pull_events-IsStoreOf :
      (since : Version) (evs : List EventWithVersion) (s : S) (m : Machine SyncState)
      → opts.resolver ≡ none
      → let p = pull_events methods st t ctx opts since (ok evs) s m in
        IsStoreOf st ctx s (apply_filter opts.filter evs) 0 p.store p.result.events_pulled p.error
  unfolding pull_events conflict_stage after_stage
  pull_events-IsStoreOf since [] s m plain = nothing_pulled s
  pull_events-IsStoreOf since (ev ∷ rest) s m plain =
      let chosen = apply_filter opts.filter (ev ∷ rest) in
      rw plain (finish-IsStoreOf chosen chosen 0 s m _ (store_events-IsOutcome 0 chosen s))

  -- Without a resolver, and when the store tells its latest version and the remote side returns the
  -- events since it, `pull` stores those that pass the filter one by one in order, each with a context
  -- that is not done, and stops with the store's error at the first that the store refuses, with that
  -- of the context where the context is done before the next, and else without an error after all.
  -- The count is of those stored.
  pub pull-IsStoreOf :
      (s : S) (r : R) (m : Machine SyncState) (since : Version) (evs : List EventWithVersion)
      → opts.resolver ≡ none
      → st.latest_version s ≡ ok since
      → t.pull since r ≡ ok evs
      → let p = pull methods st t ctx opts s r m in
        IsStoreOf st ctx s (apply_filter opts.filter evs) 0 p.store p.result.events_pulled p.error
  unfolding pull pull_since
  pull-IsStoreOf s r m since evs plain latest pulled =
      rw (latest, pulled) (pull_events-IsStoreOf since evs s m plain)
