-- ===== src/MemChan/Listening.antt =====
-- transport/memchan/memchan.go: what a subscriber gets, along the steps of its channel and goroutine.
use go_sync_kit.Base.{
  joined_last, ℕ, ◌+◌, ◌≤◌, List, [], ◌∷◌, ◌++◌, true, false, ltb, if◌then◌else◌, length, map,
  joined, ◌≡◌, refl, sym, ap, ◌∙◌, arith, append-nil, append_assoc, length-append, Bool-cases, ◌⊎◌,
  inl, inr, if_eq_false, ltb→lt, none,
}
use mathlib.Core.List.{map-append, map-id, map-map}
use go_sync_kit.Types.{Event, EventWithVersion, integer}
use go_sync_kit.MemChan.{
  Listener, MemChan, offer, before, notify, notify_all, pushed, push, receive, tick, unless_stopped,
}

-- A step of a subscriber: a `Push` offers it an event, its goroutine takes one, or the ticker fires.
pub data Action : Type 0 where
  offered : Event → Action
  received : ℕ → Action
  ticked : Action

abbrev pub act : ℕ → Action → Listener → Listener
act capacity (offered ev) l = offer capacity ev l
act capacity (received now) l = receive now l
act capacity ticked l = tick l

abbrev pub run : ℕ → List Action → Listener → Listener
run capacity [] l = l
run capacity (a ∷ rest) l = run capacity rest (act capacity a l)

-- The events that were offered while the channel had room.
abbrev pub sent : ℕ → Action → Listener → List Event
sent capacity (offered ev) l = if ltb (length l.buffer) capacity then ev ∷ [] else []
sent capacity (received now) l = []
sent capacity ticked l = []

abbrev pub accepted : ℕ → List Action → Listener → List Event
accepted capacity [] l = []
accepted capacity (a ∷ rest) l = sent capacity a l ++ accepted capacity rest (act capacity a l)

abbrev pub event_of : EventWithVersion → Event
event_of ev = ev.event

-- What the handler got, then what is in the batch, then what is in the channel.
abbrev pub heard : Listener → List Event
heard l = map event_of (joined l.handled ++ l.batch) ++ l.buffer

heard-offer :
    (capacity : ℕ) (ev : Event) (l : Listener)
    → heard (offer capacity ev l) ≡ heard l ++ sent capacity (offered ev) l
unfolding offer
heard-offer capacity ev l = by_room (Bool-cases (ltb (length l.buffer) capacity))
  where
    by_room :
        (ltb (length l.buffer) capacity ≡ true) ⊎ (ltb (length l.buffer) capacity ≡ false)
        → heard (
            if ltb (length l.buffer) capacity then record l { buffer = l.buffer ++ ev ∷ [] } else l)
          ≡ heard l ++ (if ltb (length l.buffer) capacity then ev ∷ [] else [])
    by_room (inl room) =
        rw room (sym (append_assoc (map event_of (joined l.handled ++ l.batch)) l.buffer (ev ∷ [])))
    by_room (inr full) = rw full (sym (append-nil (heard l)))

heard-receive : (now : ℕ) (l : Listener) → heard (receive now l) ≡ heard l
unfolding receive
heard-receive now l = by_buffer l.buffer refl
  where
    by_buffer :
        (b : List Event)
        → l.buffer ≡ b
        → heard (elim b [
          | [] ↦ l
          | ev ∷ rest ↦ record l {
            buffer = rest;
            batch = l.batch ++ record { event = ev; version = integer now } ∷ [];
          }
        ])
          ≡ map event_of (joined l.handled ++ l.batch) ++ l.buffer
    by_buffer [] is = refl
    by_buffer (ev ∷ rest) is =
        let one = record { event = ev; version = integer now } ∷ [] in
        ap (λ evs. map event_of evs ++ rest) (sym (append_assoc (joined l.handled) l.batch one))
        ∙ ap (λ evs. evs ++ rest) (map-append event_of (joined l.handled ++ l.batch) one)
        ∙ append_assoc (map event_of (joined l.handled ++ l.batch)) (ev ∷ []) rest
        ∙ ap (λ b. map event_of (joined l.handled ++ l.batch) ++ b) (sym is)

heard-tick : (l : Listener) → heard (tick l) ≡ heard l
unfolding tick
heard-tick l = by_batch l.batch refl
  where
    by_batch :
        (b : List EventWithVersion)
        → l.batch ≡ b
        → heard (elim b [
          | [] ↦ l
          | ev ∷ rest ↦ record l { batch = []; handled = l.handled ++ l.batch ∷ [] }
        ])
          ≡ heard l
    by_batch [] is = refl
    by_batch (ev ∷ rest) is =
        ap (λ evs. map event_of evs ++ l.buffer)
          (append-nil (joined (l.handled ++ l.batch ∷ [])) ∙ joined_last l.handled l.batch)

heard-act :
    (capacity : ℕ) (a : Action) (l : Listener)
    → heard (act capacity a l) ≡ heard l ++ sent capacity a l
heard-act capacity (offered ev) l = heard-offer capacity ev l
heard-act capacity (received now) l = heard-receive now l ∙ sym (append-nil (heard l))
heard-act capacity ticked l = heard-tick l ∙ sym (append-nil (heard l))

-- However a subscriber's goroutine, its ticker and the pushes take turns, what the handler got, then
-- the batch, then the channel hold exactly the events that were offered while the channel had room,
-- each once and in the order of the pushes.
pub heard-run :
    (capacity : ℕ) (actions : List Action) (l : Listener)
    → heard (run capacity actions l) ≡ heard l ++ accepted capacity actions l
heard-run capacity [] l = sym (append-nil (heard l))
heard-run capacity (a ∷ rest) l =
    heard-run capacity rest (act capacity a l)
    ∙ ap (λ evs. evs ++ accepted capacity rest (act capacity a l)) (heard-act capacity a l)
    ∙ append_assoc (heard l) (sent capacity a l) (accepted capacity rest (act capacity a l))

-- The channel never holds more than its capacity.
abbrev pub Fits : ℕ → Listener → Type 0
Fits capacity l = length l.buffer ≤ capacity

act-Fits :
    (capacity : ℕ) (a : Action) (l : Listener) → Fits capacity l → Fits capacity (act capacity a l)
unfolding offer receive tick
act-Fits capacity (offered ev) l fits = by_room (Bool-cases (ltb (length l.buffer) capacity))
  where
    by_room :
        (ltb (length l.buffer) capacity ≡ true) ⊎ (ltb (length l.buffer) capacity ≡ false)
        → Fits capacity (
            if ltb (length l.buffer) capacity then record l { buffer = l.buffer ++ ev ∷ [] } else l)
    by_room (inl room) = rw room (omega (arith, ltb→lt _ _ room, length-append l.buffer (ev ∷ [])))
    by_room (inr full) = rw full fits
act-Fits capacity (received now) l fits = by_buffer l.buffer refl
  where
    by_buffer :
        (b : List Event)
        → l.buffer ≡ b
        → Fits capacity (elim b [
          | [] ↦ l
          | ev ∷ rest ↦ record l {
            buffer = rest;
            batch = l.batch ++ record { event = ev; version = integer now } ∷ [];
          }
        ])
    by_buffer [] is = fits
    by_buffer (ev ∷ rest) is = omega (arith, fits, ap length is)
act-Fits capacity ticked l fits = by_batch l.batch
  where
    by_batch :
        (b : List EventWithVersion)
        → Fits capacity (elim b [
          | [] ↦ l
          | ev ∷ rest ↦ record l { batch = []; handled = l.handled ++ l.batch ∷ [] }
        ])
    by_batch [] = fits
    by_batch (ev ∷ rest) = fits

pub run-Fits :
    (capacity : ℕ) (actions : List Action) (l : Listener)
    → Fits capacity l
    → Fits capacity (run capacity actions l)
run-Fits capacity [] l fits = fits
run-Fits capacity (a ∷ rest) l fits =
    run-Fits capacity rest (act capacity a l) (act-Fits capacity a l fits)

-- What the subscribers of a transport get from a push whose context is never done.
abbrev pub offers : List EventWithVersion → List Action
offers [] = []
offers (ev ∷ rest) = offered ev.event ∷ offers rest

notify_live :
    (capacity n : ℕ) (ev : Event) (subs : List Listener)
    → (m : ℕ) × (notify (λ k. false) capacity n ev subs ≡ (map (offer capacity ev) subs, m, false))
unfolding notify offer
notify_live capacity n ev [] = (n, refl)
notify_live capacity n ev (l ∷ rest) =
    let (m, is) = notify_live capacity (n + 1) ev rest in (m, ap (before (offer capacity ev l)) is)

notify_all_live :
    (capacity n : ℕ) (evs : List EventWithVersion) (subs : List Listener)
    → notify_all (λ k. false) capacity n evs subs ≡ (map (run capacity (offers evs)) subs, false)
unfolding notify_all
notify_all_live capacity n [] subs = ap (λ l. (l, false)) (sym (map-id subs))
notify_all_live capacity n (ev ∷ rest) subs =
    let (m, is) = notify_live capacity n ev.event subs in
    ap (λ r. unless_stopped r (λ subs' n'. notify_all (λ k. false) capacity n' rest subs')) is
    ∙ notify_all_live capacity m rest (map (offer capacity ev.event) subs)
    ∙ ap (λ l. (l, false)) (map-map (run capacity (offers rest)) (offer capacity ev.event) subs)

-- A push to an open transport, with a context that is not done, stores the events after those that
-- it holds and offers each of them in order to every subscriber.
pub push_live :
    (evs : List EventWithVersion) (c : MemChan)
    → c.closed ≡ false
    → push false (λ k. false) evs c ≡ (
      record c { events = c.events ++ evs; subs = map (run c.capacity (offers evs)) c.subs },
      none,
    )
unfolding push
push_live evs c is_open =
    if_eq_false _ _ is_open
    ∙ ap (pushed (record c { events = c.events ++ evs })) (notify_all_live c.capacity 0 evs c.subs)
