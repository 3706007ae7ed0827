-- ===== src/Manager/Push.antt =====
-- synckit/manager.go, `push`.
use go_sync_kit.Base.{
  ℕ, zero, suc, ◌+◌, Option, none, some, List, [], ◌∷◌, if◌then◌else◌, length, take, drop,
}
use go_sync_kit.Base.Int.{ℤ, pos, negsuc}
use go_sync_kit.Types.{EventWithVersion, Version, Result, ok, err}
use go_sync_kit.Manager.{
  EventStore, Transport, Options, Context, SyncError, transport_error, store_error, context_done,
  apply_filter,
}

-- `if batchSize <= 0 { batchSize = 100 }`.
abbrev pub effective_batch_size : ℤ → ℕ
effective_batch_size (pos zero) = 100
effective_batch_size (pos (suc n)) = suc n
effective_batch_size (negsuc n) = 100

-- What the batch loop leaves: the remote side, the number of events pushed, and the error.
pub record Pushed (R E : Type 0) : Type 0 where
  pub remote : R
  pub count : ℕ
  pub error : Option (SyncError E)

module _ {R E : Type 0} (t : Transport R E) (ctx : Context) where
  abbrev pub after_batch : R × Option E → ℕ → ℕ → (R → Pushed R E) → Pushed R E
  after_batch (r, some e) count new next = record {
    remote = r;
    count = count;
    error = some (transport_error e);
  }
  after_batch (r, none) count new next = next r

  -- The loop over the batches: `rest` are the events from index `i` on. The fuel bounds the number
  -- of batches; with fuel for each event it does not run out.
  unfoldable pub push_batches : ℕ → ℕ → ℕ → List EventWithVersion → R → ℕ → Pushed R E
  push_batches fuel size n [] r count = record { remote = r; count = count; error = none }
  push_batches zero size n (ev ∷ rest) r count = record { remote = r; count = count; error = none }
  push_batches (suc fuel) size n (ev ∷ rest) r count =
      let batch = take size (ev ∷ rest) in
      let pushed =
        after_batch (t.push batch r) count (length batch) (λ r'.
          push_batches fuel size (n + 1) (drop size (ev ∷ rest)) r' (count + length batch)) in
      if ctx.done_at_batch n
      then record { remote = r; count = count; error = some context_done }
      else pushed

module _ {S R E : Type 0} (st : EventStore S E) (t : Transport R E) (ctx : Context)
    (opts : Options E) where
  unfoldable pub push_loaded : Result E (List EventWithVersion) → R → Pushed R E
  push_loaded (err e) r = record { remote = r; count = 0; error = some (store_error e) }
  push_loaded (ok evs) r =
      let chosen = apply_filter opts.filter evs in
      push_batches t ctx (length chosen) (effective_batch_size opts.batch_size) 0 chosen r 0

  unfoldable pub push_since : Result E Version → S → R → Pushed R E
  push_since (err e) s r = record { remote = r; count = 0; error = some (transport_error e) }
  push_since (ok since) s r = push_loaded (st.load since s) r

  -- `push`: what is newer than the remote side's latest version goes out in batches.
  unfoldable pub push : S → R → Pushed R E
  unfolding push_since push_loaded push_batches
  push s r = push_since (t.get_latest_version r) s r
