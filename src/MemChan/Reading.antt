-- ===== src/MemChan/Reading.antt =====
-- transport/memchan/memchan.go: what `Pull` and `GetLatestVersion` read.
use go_sync_kit.Base.{
  ℕ, ◌≤◌, Option, none, some, List, [], ◌∷◌, ◌++◌, Bool, false, ◌≡◌, refl, sym, ap, ◌∙◌, arith,
  keep, keep-append, Bool-cases, inl, inr, if_eq_true, if_eq_false, length,
}
use go_sync_kit.Types.{
  EventWithVersion, Version, integer, as_integer, since_seq, is_newer, seq_above, StoreError, ok,
  same_ok,
}
use go_sync_kit.MemChan.{
  Listener, MemChan, pushed, push, notify_all, pull, pull_since, greater, max_version,
  get_latest_version,
}

pushed-events :
    (c : MemChan) (outcome : List Listener × Bool)
    → ((pushed c outcome).0.events ≡ c.events) × ((pushed c outcome).0.closed ≡ c.closed)
pushed-events c (subs, stopped) = (refl, refl)

-- Whether or not its context is done on the way, a push to an open transport leaves it open, with the
-- events after those that it held.
pub push-events :
    (done : ℕ → Bool) (evs : List EventWithVersion) (c : MemChan)
    → c.closed ≡ false
    → ((push false done evs c).0.events ≡ c.events ++ evs)
      × ((push false done evs c).0.closed ≡ false)
unfolding push
push-events done evs c is_open =
    let (stored, open_still) =
      pushed-events (record c { events = c.events ++ evs })
        (notify_all done c.capacity 0 evs c.subs) in
    let went = if_eq_false {A = MemChan × Option StoreError} _ _ is_open in
    (ap (λ o. o.0.events) went ∙ stored, ap (λ o. o.0.closed) went ∙ open_still ∙ is_open)

pub pull-open :
    (since : Version) (n : ℕ) (c : MemChan)
    → c.closed ≡ false
    → since_seq since ≡ ok n
    → pull false since c ≡ ok (keep (is_newer n) c.events)
unfolding pull pull_since
pull-open since n c is_open readable = rw (is_open, readable) refl

-- A pull after a push to an open transport returns what it returned before the push and then the
-- pushed events that are newer, in order, also when the push was interrupted by its context.
pub pull-push :
    (done : ℕ → Bool) (evs : List EventWithVersion) (since : Version) (n : ℕ) (c : MemChan)
    → c.closed ≡ false
    → since_seq since ≡ ok n
    → (before : List EventWithVersion) × (pull false since c ≡ ok before)
      × (pull false since (push false done evs c).0 ≡ ok (before ++ keep (is_newer n) evs))
pull-push done evs since n c is_open readable =
    let (stored, open_still) = push-events done evs c is_open in
    (
      keep (is_newer n) c.events,
      pull-open since n c is_open readable,
      pull-open since n (push false done evs c).0 open_still readable
          ∙ ap (λ l. ok (keep (is_newer n) l)) stored
          ∙ ap ok (keep-append (is_newer n) c.events evs),
    )

greater-bound :
    (best n : ℕ) (seq : Option ℕ) → best ≤ n → seq_above n seq ≡ false → greater best seq ≤ n
greater-bound best n none low none_above = low
greater-bound best n (some seq) low none_above = ground arith

greater-low :
    (best n : ℕ) (seq : Option ℕ) → greater best seq ≤ n → (best ≤ n) × (seq_above n seq ≡ false)
greater-low best n none low = (low, refl)
greater-low best n (some seq) low = (ground arith, ground arith)

max_version-newer :
    (best n : ℕ) (evs : List EventWithVersion)
    → (max_version best evs ≤ n → (best ≤ n) × (keep (is_newer n) evs ≡ []))
      × (best ≤ n → keep (is_newer n) evs ≡ [] → max_version best evs ≤ n)
unfolding max_version
max_version-newer best n [] = (λ low. (low, refl), λ low nothing. low)
max_version-newer best n (ev ∷ rest) =
    extended (max_version-newer (greater best (as_integer ev.version)) n rest)
  where
    extended :
        (max_version (greater best (as_integer ev.version)) rest ≤ n
            → (greater best (as_integer ev.version) ≤ n) × (keep (is_newer n) rest ≡ []))
          × (greater best (as_integer ev.version) ≤ n
              → keep (is_newer n) rest ≡ []
              → max_version (greater best (as_integer ev.version)) rest ≤ n)
        → (max_version (greater best (as_integer ev.version)) rest ≤ n
            → (best ≤ n) × (keep (is_newer n) (ev ∷ rest) ≡ []))
          × (best ≤ n
              → keep (is_newer n) (ev ∷ rest) ≡ []
              → max_version (greater best (as_integer ev.version)) rest ≤ n)
    extended (bounds, bounded) = (
      λ low.
          let (here, nothing) = bounds low in
          let (low_best, not_here) = greater-low best n (as_integer ev.version) here in
          (low_best, if_eq_false _ _ not_here ∙ nothing),
      λ low nothing. elim (Bool-cases (is_newer n ev)) [
        | inl above ↦
            let no = ap length (sym (if_eq_true _ _ above) ∙ nothing) in absurd (omega (arith, no))
        | inr not_above ↦
            bounded (greater-bound best n (as_integer ev.version) low not_above)
              (sym (if_eq_false _ _ not_above) ∙ nothing)
      ],
    )

-- The latest version of an open transport is the least number since which a pull returns nothing.
pub latest-pull :
    (n : ℕ) (c : MemChan)
    → c.closed ≡ false
    → (m : ℕ) × (get_latest_version false c ≡ ok (integer m))
      × ((m ≤ n → pull false (integer n) c ≡ ok []) × (pull false (integer n) c ≡ ok [] → m ≤ n))
unfolding get_latest_version since_seq
latest-pull n c is_open = (
  max_version 0 c.events,
  if_eq_false _ _ is_open,
  (
    (λ low. pull-open (integer n) n c is_open refl ∙ ap ok (newer.0 low).1),
    λ nothing.
        newer.1 (omega arith) (
          same_ok (pull false (integer n) c) _ [] (pull-open (integer n) n c is_open refl) nothing),
  ),
)
  where
    newer :
        (max_version 0 c.events ≤ n → (0 ≤ n) × (keep (is_newer n) c.events ≡ []))
        × (0 ≤ n → keep (is_newer n) c.events ≡ [] → max_version 0 c.events ≤ n)
    newer = max_version-newer 0 n c.events
