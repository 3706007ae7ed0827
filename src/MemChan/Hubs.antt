-- ===== src/MemChan/Hubs.antt =====
-- transport/memchan/memchan.go, `Broadcast`: what reaches the transports of a hub.
use go_sync_kit.Base.{
  ℕ, Option, none, some, String, List, [], ◌∷◌, ◌++◌, Bool, true, false, ◌≡◌, refl, arith,
}
use go_sync_kit.Base.Dict.{Dict}
use go_sync_kit.Types.{EventWithVersion, StoreError, closed_error}
use go_sync_kit.MemChan.{MemChan, Hub, push, push_to_all, after_push, broadcast}
use go_sync_kit.MemChan.Reading.{push-events}
use go_sync_kit.MemChan.Replica.{push_ok}

-- The transports before and after a broadcast of `evs`, by the same names in the same order: each gets
-- the events, up to a closed one, from which on all are as they were and whose name is in the error.
pub data Reached (evs : List EventWithVersion)
    : Dict MemChan → Dict MemChan → Option (String × StoreError) → Type 0 where
  reached_all : Reached evs [] [] none
  got_them :
      {name : String} {c c' : MemChan} {before after : Dict MemChan}
      {e : Option (String × StoreError)}
      → c.closed ≡ false
      → c'.events ≡ c.events ++ evs
      → Reached evs before after e
      → Reached evs ((name, c) ∷ before) ((name, c') ∷ after) e
  found_closed :
      {name : String} {c : MemChan} {rest : Dict MemChan}
      → c.closed ≡ true
      → Reached evs ((name, c) ∷ rest) ((name, c) ∷ rest) (some (name, closed_error))

abbrev Reaches :
    List EventWithVersion → Dict MemChan → Dict MemChan × Option (String × StoreError) → Type 0
Reaches evs before (after, e) = Reached evs before after e

after_open :
    {evs : List EventWithVersion} (name : String) (c : MemChan) {rest : Dict MemChan}
    {later : Dict MemChan × Option (String × StoreError)} (went : MemChan × Option StoreError)
    → c.closed ≡ false
    → went.1 ≡ none
    → went.0.events ≡ c.events ++ evs
    → Reaches evs rest later
    → Reaches evs ((name, c) ∷ rest) (after_push name went rest later)
after_open name c (c', none) is_open fine stored r = got_them is_open stored r
after_open name c (c', some e) is_open fine stored r = absurd (ground arith)

push_closed :
    (done : ℕ → Bool) (evs : List EventWithVersion) (c : MemChan)
    → c.closed ≡ true
    → push false done evs c ≡ (c, some closed_error)
unfolding push
push_closed done evs c shut = ground arith

push_to_all-Reaches :
    (evs : List EventWithVersion) (transports : Dict MemChan)
    → Reaches evs transports (push_to_all false (λ n. false) evs transports)
unfolding push_to_all
push_to_all-Reaches evs [] = reached_all
push_to_all-Reaches evs ((name, c) ∷ rest) = by_closed c.closed refl (push_to_all-Reaches evs rest)
  where
    by_closed :
        (b : Bool)
        → c.closed ≡ b
        → Reaches evs rest (push_to_all false (λ n. false) evs rest)
        → Reaches evs ((name, c) ∷ rest) (
            after_push name
              (push false (λ n. false) evs c)
              rest
              (push_to_all false (λ n. false) evs rest))
    by_closed true shut r = rw (push_closed (λ n. false) evs c shut) (found_closed shut)
    by_closed false is_open r =
        after_open name c (push false (λ n. false) evs c) is_open (push_ok evs c is_open)
          (push-events (λ n. false) evs c is_open).0 r

-- With a context that is not done, `Broadcast` adds the events to the hub's own, whatever comes after,
-- and to those of its transports in turn, up to the first closed one, whose name is in the error; from
-- that one on the transports are unchanged. Without a closed one all get them, and there is no error.
pub broadcast-Reached :
    (evs : List EventWithVersion) (h : Hub)
    → ((broadcast false (λ n. false) evs h).0.hub_events ≡ h.hub_events ++ evs)
      × Reached evs h.transports
          (broadcast false (λ n. false) evs h).0.transports
          (broadcast false (λ n. false) evs h).1
unfolding broadcast
broadcast-Reached evs h = (refl, push_to_all-Reaches evs h.transports)
