-- ===== src/MemChan/Replica.antt =====
-- transport/memchan/memchan.go behind the manager of synckit/manager.go, with the store of
-- storage/memstore/memstore.go.
use go_sync_kit.Base.{
  ℕ, zero, suc, ◌+◌, ◌-◌, ◌≤◌, none, List, [], ◌∷◌, ◌++◌, false, length, take, drop, joined, ◌≡◌,
  refl, sym, ap, ◌∙◌, arith, append-nil, append_assoc, take-append-drop, length-drop, if_eq_true,
  if_eq_false, lt→ltb,
}
use go_sync_kit.Types.{EventWithVersion, integer, as_integer, StoreError, ok}
use go_sync_kit.MemStore.{MemStore}
use go_sync_kit.MemStore.Invariant.{IsValid, Numbered}
use go_sync_kit.MemStore.Loading.{load-eq-drop, fits_all}
use go_sync_kit.Manager.{apply_filter, Transport, Options, Context}
use go_sync_kit.Manager.Push.{Pushed, effective_batch_size}
use go_sync_kit.Manager.Batches.{
  IsPushOf, Delivered, done, batch, Ending, all_sent, refused, interrupted, push-IsPushOf,
}
use go_sync_kit.Manager.OverMemStore.{mem_event_store}
use go_sync_kit.MemChan.{MemChan, greater, max_version, get_latest_version, pull, push}
use go_sync_kit.MemChan.Listening.{push_live}
use go_sync_kit.MemChan.Reading.{push-events}
use go_sync_kit.Manager.Push

-- The transport as the manager sees it, under contexts that are not done.
abbrev pub mem_chan_transport : Transport MemChan StoreError
mem_chan_transport = record {
  get_latest_version = get_latest_version false;
  pull = pull false;
  push = push false (λ n. false);
}

-- The greatest of consecutive versions is the last.
max_version-Numbered :
    (n k : ℕ) (evs : List EventWithVersion)
    → Numbered (n + 1) evs
    → k ≤ length evs
    → max_version n (take k evs) ≡ n + k
unfolding max_version
max_version-Numbered n zero evs v within = omega arith
max_version-Numbered n (suc k) [] v within = absurd (omega arith)
max_version-Numbered n (suc k) (ev ∷ rest) v within =
    let next : greater n (as_integer ev.version) ≡ n + 1 =
      ap (λ x. greater n (as_integer x)) v.0 ∙ if_eq_true _ _ (lt→ltb n (n + 1) (omega arith)) in
    ap (λ b. max_version b (take k rest)) next
    ∙ max_version-Numbered (n + 1) k rest v.1 (omega arith)
    ∙ omega arith

zero_add : (n : ℕ) → 0 + n ≡ n
zero_add n = omega arith

get_latest_version-take :
    (k : ℕ) (evs : List EventWithVersion) (c : MemChan)
    → Numbered 1 evs
    → k ≤ length evs
    → c.closed ≡ false
    → c.events ≡ take k evs
    → get_latest_version false c ≡ ok (integer k)
unfolding get_latest_version
get_latest_version-take k evs c v within is_open holds =
    if_eq_false _ _ is_open
    ∙ ap (λ l. ok (integer (max_version 0 l))) holds
    ∙ ap (λ n. ok (integer n)) (max_version-Numbered 0 k evs v within ∙ zero_add k)

pub push_ok :
    (evs : List EventWithVersion) (c : MemChan)
    → c.closed ≡ false
    → (push false (λ n. false) evs c).1 ≡ none
push_ok evs c is_open = ap (λ o. o.1) (push_live evs c is_open)

Delivered-events :
    {size : ℕ} {c c' : MemChan} {batches : List (List EventWithVersion)}
    → Delivered mem_chan_transport size c batches c'
    → c.closed ≡ false
    → (c'.events ≡ c.events ++ joined batches) × (c'.closed ≡ false)
Delivered-events done is_open = (sym (append-nil _), is_open)
Delivered-events {c} {c'} (batch {evs} {later} accepted small rest) is_open =
    let (stored, open_still) = push-events (λ n. false) evs c is_open in
    let was : (push false (λ n. false) evs c).0 ≡ _ = ap (λ o. o.0) accepted in
    let (events, open_after) = Delivered-events rest (sym (ap (λ x. x.closed) was) ∙ open_still) in
    (
      events
          ∙ ap (λ l. l ++ joined later) (sym (ap (λ x. x.events) was) ∙ stored)
          ∙ append_assoc c.events evs (joined later),
      open_after,
    )

pushed_all :
    (ctx : Context) (size : ℕ) (c : MemChan) (evs : List EventWithVersion)
    (p : Pushed MemChan StoreError)
    → ((n : ℕ) → ctx.done_at_batch n ≡ false)
    → c.closed ≡ false
    → IsPushOf mem_chan_transport ctx size c evs 0 p
    → (p.error ≡ none) × (p.count ≡ length evs) × (p.remote.events ≡ c.events ++ evs)
pushed_all ctx size c evs p calm is_open r = by_ending r.ending
  where
    reached : (r.reached.events ≡ c.events ++ joined r.batches) × (r.reached.closed ≡ false)
    reached = Delivered-events r.delivered is_open

    by_ending :
        Ending mem_chan_transport ctx size r.reached r.rest p
        → (p.error ≡ none) × (p.count ≡ length evs) × (p.remote.events ≡ c.events ++ evs)
    by_ending (all_sent over fine same) =
        let sent : joined r.batches ≡ evs =
          sym (append-nil _) ∙ ap (λ l. joined r.batches ++ l) (sym over) ∙ r.in_order in
        (
          fine,
          r.counted ∙ zero_add _ ∙ ap length sent,
          ap (λ x. x.events) same ∙ reached.0 ∙ ap (λ l. c.events ++ l) sent,
        )
    by_ending (refused e h is) =
        let no = sym (push_ok _ r.reached reached.1) ∙ ap (λ o. o.1) h in absurd (ground arith)
    by_ending (interrupted n is_done is same) =
        let no = sym (calm n) ∙ is_done in absurd (ground arith)

-- The in-memory transport as a replica of an in-memory store, both open: where it holds the first `k`
-- events of the store and the context is never done, the manager's `push` without a filter returns no
-- error, counts the events that were missing, and leaves it with exactly the events of the store.
pub push-replicates :
    (ctx : Context) (opts : Options StoreError) (s : MemStore) (c : MemChan) (k : ℕ)
    → ((n : ℕ) → ctx.done_at_batch n ≡ false)
    → opts.filter ≡ none
    → IsValid s
    → s.closed ≡ false
    → c.closed ≡ false
    → k ≤ length s.events
    → c.events ≡ take k s.events
    → (p : Pushed MemChan StoreError) × (Push.push mem_event_store mem_chan_transport ctx opts s c
        ≡ p)
      × (p.error ≡ none)
      × (p.count ≡ length s.events - k)
      × (p.remote.events ≡ s.events)
push-replicates ctx opts s c k calm unfiltered v store_open chan_open within holds =
    let p = Push.push mem_event_store mem_chan_transport ctx opts s c in
    let went =
      push-IsPushOf mem_event_store mem_chan_transport ctx opts s c (integer k) (drop k s.events)
        (get_latest_version-take k s.events c v.numbered within chan_open holds)
        (load-eq-drop k [] s v store_open ∙ ap ok (fits_all (drop k s.events))) in
    let (fine, counted, stored) =
      pushed_all ctx (effective_batch_size opts.batch_size) c (drop k s.events) p calm chan_open
        (rw⁻¹ (ap (λ f. apply_filter f (drop k s.events)) unfiltered) went) in
    (
      p,
      refl,
      fine,
      counted ∙ length-drop k s.events,
      stored ∙ ap (λ l. l ++ drop k s.events) holds ∙ take-append-drop k s.events,
    )
