-- ===== src/Manager/Batches.antt =====
-- synckit/manager.go, the batch loop of `push`.
use go_sync_kit.Base.{
  joined, ℕ, zero, suc, ◌+◌, ◌<◌, ◌≤◌, Option, none, some, List, [], ◌∷◌, ◌++◌, ◌≡◌, refl, arith,
  ap, ◌∙◌, length, take, drop, if_both_known, true, length-take, length-append, take-append-drop,
  length-drop, append_assoc,
}
use go_sync_kit.Base.Int.{ℤ, pos, negsuc}
use go_sync_kit.Types.{EventWithVersion, Version, ok}
use go_sync_kit.Manager.{
  EventStore, Transport, Options, Context, transport_error, context_done, apply_filter,
}
use go_sync_kit.Manager.Push.{
  effective_batch_size, Pushed, after_batch, push_batches, push_loaded, push_since, push,
}

-- The batches that the remote side accepted, in order, from one of its states to another.
pub data Delivered {R E : Type 0} (t : Transport R E) (size : ℕ)
    : R → List (List EventWithVersion) → R → Type 0 where
  done : {r : R} → Delivered t size r [] r
  batch :
      {r r' r'' : R} {evs : List EventWithVersion} {later : List (List EventWithVersion)}
      → t.push evs r ≡ (r', none)
      → length evs ≤ size
      → Delivered t size r' later r''
      → Delivered t size r (evs ∷ later) r''

-- How the loop ends, with the remote side at `reached` and the events `rest` still to go.
pub data Ending {R E : Type 0} (t : Transport R E) (ctx : Context) (size : ℕ) (reached : R)
    (rest : List EventWithVersion) (p : Pushed R E) : Type 0 where
  all_sent : rest ≡ [] → p.error ≡ none → p.remote ≡ reached → Ending t ctx size reached rest p
  refused :
      (e : E)
      → t.push (take size rest) reached ≡ (p.remote, some e)
      → p.error ≡ some (transport_error e)
      → Ending t ctx size reached rest p
  interrupted :
      (n : ℕ)
      → ctx.done_at_batch n ≡ true
      → p.error ≡ some context_done
      → p.remote ≡ reached
      → Ending t ctx size reached rest p

-- `p` comes from delivering the events `evs` in order, in batches of at most `size`, up to an error.
pub record IsPushOf {R E : Type 0} (t : Transport R E) (ctx : Context) (size : ℕ) (r : R)
    (evs : List EventWithVersion) (count : ℕ) (p : Pushed R E) : Type 0 where
  pub batches : List (List EventWithVersion)
  pub reached : R
  pub rest : List EventWithVersion
  pub delivered : Delivered t size r batches reached
  pub in_order : joined batches ++ rest ≡ evs
  pub counted : p.count ≡ count + length (joined batches)
  pub ending : Ending t ctx size reached rest p

module _ {R E : Type 0} (t : Transport R E) (ctx : Context) where
  none_delivered :
      (size : ℕ) (r : R) (evs : List EventWithVersion) (count : ℕ) (p : Pushed R E)
      → p.count ≡ count
      → Ending t ctx size r evs p
      → IsPushOf t ctx size r evs count p
  none_delivered size r evs count p counted ending = record {
    batches = [];
    reached = r;
    rest = evs;
    delivered = done;
    in_order = refl;
    counted = omega (arith, counted);
    ending = ending;
  }

  one_delivered :
      (size : ℕ) (r r' : R) (evs : List EventWithVersion) (count : ℕ) (p : Pushed R E)
      → t.push (take size evs) r ≡ (r', none)
      → IsPushOf t ctx size r' (drop size evs) (count + length (take size evs)) p
      → IsPushOf t ctx size r evs count p
  one_delivered size r r' evs count p accepted later = record {
    batches = take size evs ∷ later.batches;
    reached = later.reached;
    rest = later.rest;
    delivered = batch accepted (omega (arith, length-take size evs)) later.delivered;
    in_order =
        append_assoc (take size evs) (joined later.batches) later.rest
        ∙ ap (λ l. take size evs ++ l) later.in_order
        ∙ take-append-drop size evs;
    counted = omega (arith, later.counted, length-append (take size evs) (joined later.batches));
    ending = later.ending;
  }

  push_batches-IsPushOf :
      (fuel size n : ℕ) (evs : List EventWithVersion) (r : R) (count : ℕ)
      → 0 < size
      → length evs ≤ fuel
      → IsPushOf t ctx size r evs count (push_batches t ctx fuel size n evs r count)
  unfolding push_batches
  push_batches-IsPushOf fuel size n [] r count sized enough =
      none_delivered size r [] count _ refl (all_sent refl refl refl)
  push_batches-IsPushOf zero size n (ev ∷ rest) r count sized enough = absurd (omega arith)
  push_batches-IsPushOf (suc fuel) size n (ev ∷ rest) r count sized enough =
      if_both_known {A = Pushed R E} (IsPushOf t ctx size r (ev ∷ rest) count) (ctx.done_at_batch n)
        refl
        (λ is_done.
          none_delivered size r (ev ∷ rest) count _ refl (interrupted n is_done refl refl))
        (sent (t.push (take size (ev ∷ rest)) r) refl (λ r'.
          push_batches-IsPushOf fuel size (n + 1) (drop size (ev ∷ rest)) r' _ sized
            (omega (arith, length-drop size (ev ∷ rest)))))
    where
      next : R → Pushed R E
      next r' =
          push_batches t ctx fuel size (n + 1) (drop size (ev ∷ rest)) r'
            (count + length (take size (ev ∷ rest)))

      sent :
          (outcome : R × Option E)
          → t.push (take size (ev ∷ rest)) r ≡ outcome
          → ((r' : R)
              → IsPushOf t ctx size r'
                  (drop size (ev ∷ rest))
                  (count + length (take size (ev ∷ rest)))
                  (next r'))
          → IsPushOf t ctx size r
              (ev ∷ rest)
              count
              (after_batch t ctx outcome count (length (take size (ev ∷ rest))) next)
      sent (r', some e) is later =
          none_delivered size r (ev ∷ rest) count _ refl (refused e is refl)
      sent (r', none) is later = one_delivered size r r' (ev ∷ rest) count _ is (later r')

effective_batch_size-positive : (n : ℤ) → 0 < effective_batch_size n
effective_batch_size-positive (pos zero) = omega arith
effective_batch_size-positive (pos (suc n)) = omega arith
effective_batch_size-positive (negsuc n) = omega arith

module _ {S R E : Type 0} (st : EventStore S E) (t : Transport R E) (ctx : Context)
    (opts : Options E) where
  -- When the remote side tells its latest version and the store loads `evs` since it, `push`
  -- delivers what passes the filter: in order, in batches of at most the batch size, and up to the
  -- first batch that the remote side refuses or a done context. Without an error all of them are
  -- delivered, and the count is of those delivered.
  pub push-IsPushOf :
      (s : S) (r : R) (since : Version) (evs : List EventWithVersion)
      → t.get_latest_version r ≡ ok since
      → st.load since s ≡ ok evs
      → IsPushOf t ctx
          (effective_batch_size opts.batch_size)
          r
          (apply_filter opts.filter evs)
          0
          (push st t ctx opts s r)
  unfolding push push_since push_loaded
  push-IsPushOf s r since evs latest loaded =
      let chosen = apply_filter opts.filter evs in
      rw (latest, loaded)
        (push_batches-IsPushOf t ctx (length chosen) (effective_batch_size opts.batch_size) 0 chosen
          r 0 (effective_batch_size-positive opts.batch_size) (omega arith))
