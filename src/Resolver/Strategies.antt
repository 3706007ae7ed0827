-- ===== src/Resolver/Strategies.antt =====
-- synckit/resolvers.go: the strategies that come with the library. They read versions that may be
-- nil, so a side of a conflict has an optional version here, and an optional event.
use go_sync_kit.Base.{
  String, Option, none, some, List, [], ◌∷◌, ◌++◌, if◌then◌else◌, str_eq, ◌≡◌, ◌⊎◌, inl, inr, refl,
  Bool-cases,
}
use go_sync_kit.Base.Int.{ℤ, pos, minus_one, negate, is_one, is_minus_one}
use go_sync_kit.Types.{Event, Version}

-- An `EventWithVersion` whose fields may be nil.
pub record Side : Type 0 where
  pub event : Option Event
  pub version : Option Version

pub record Contest : Type 0 where
  pub local : Side
  pub remote : Side

-- `ResolvedConflict` of two such sides.
pub record Decision : Type 0 where
  pub resolved_events : List Side
  pub decision : String
  pub reasons : List String

abbrev pub keep_local : Contest → String → Decision
keep_local c reason = record {
  resolved_events = c.local ∷ [];
  decision = "keep_local";
  reasons = reason ∷ [];
}

abbrev pub keep_remote : Contest → String → Decision
keep_remote c reason = record {
  resolved_events = c.remote ∷ [];
  decision = "keep_remote";
  reasons = reason ∷ [];
}

-- What both strategies do when a version is nil; `decide` is their `switch`.
abbrev pub by_versions :
    Contest → Option Version → Option Version → (Version → Version → Decision) → Decision
by_versions c none none decide = record {
  resolved_events = [];
  decision = "noop";
  reasons = "no versions" ∷ [];
}
by_versions c none (some w) decide = keep_remote c "local missing"
by_versions c (some v) none decide = keep_local c "remote missing"
by_versions c (some v) (some w) decide = decide v w

-- `LastWriteWinsResolver.Resolve`; `compare` is the method of versions.
pub last_write_wins : (Version → Version → ℤ) → Contest → Decision
last_write_wins compare c = by_versions c c.local.version c.remote.version (λ v w.
    if is_minus_one (compare v w)
    then keep_remote c "remote newer"
    else if is_one (compare v w)
    then keep_local c "local newer"
    else keep_remote c "equal versions, prefer remote")

-- `FirstWriteWinsResolver.Resolve`.
pub first_write_wins : (Version → Version → ℤ) → Contest → Decision
first_write_wins compare c = by_versions c c.local.version c.remote.version (λ v w.
    if is_minus_one (compare v w)
    then keep_local c "local is first"
    else if is_one (compare v w)
    then keep_remote c "remote is first"
    else keep_local c "equal versions, prefer local")

-- `c.Local != EventWithVersion{}`.
abbrev pub side_if_set : Side → List Side
side_if_set side = elim side.event [
  | some e ↦ side ∷ []
  | none ↦ elim side.version [ some v ↦ side ∷ [] | none ↦ [] ]
]

-- `AdditiveMergeResolver.Resolve`.
pub additive_merge : Contest → Decision
additive_merge c = record {
  resolved_events = side_if_set c.local ++ side_if_set c.remote;
  decision = "merge";
  reasons = "additive merge" ∷ [];
}

-- `ManualReviewResolver.Resolve`.
pub manual_review : String → Contest → Decision
manual_review reason c = record {
  resolved_events = [];
  decision = "manual_review";
  reasons = "manual review required" ∷ (if str_eq reason "" then [] else reason ∷ []);
}

-- The same conflict as the other replica sees it.
abbrev pub swapped : Contest → Contest
swapped c = record { local = c.remote; remote = c.local }

module _ (compare : Version → Version → ℤ) (e e' : Option Event) (v w : Version) where
  -- A contest of two sides with versions.
  abbrev pub contest : Contest
  contest = record {
    local = record { event = e; version = some v };
    remote = record { event = e'; version = some w };
  }

  -- Where one version is ahead and the comparison is antisymmetric, last-write-wins keeps the same
  -- event on both replicas, the one with the greater version.
  pub last_write_wins_converges :
      compare w v ≡ negate (compare v w)
      → (compare v w ≡ minus_one) ⊎ (compare v w ≡ pos 1)
      → ((last_write_wins compare contest).resolved_events
          ≡ (last_write_wins compare (swapped contest)).resolved_events)
        × ((last_write_wins compare contest).resolved_events
            ≡ (if is_one (compare v w) then contest.local else contest.remote) ∷ [])
  unfolding last_write_wins
  last_write_wins_converges anti (inl h) = rw (anti, h) (refl, refl)
  last_write_wins_converges anti (inr h) = rw (anti, h) (refl, refl)

  -- Where the comparison tells neither version ahead in either direction, as for concurrent vector
  -- clocks, each replica keeps the other's event.
  pub last_write_wins_diverges :
      compare v w ≡ pos 0
      → compare w v ≡ pos 0
      → ((last_write_wins compare contest).resolved_events ≡ contest.remote ∷ [])
        × ((last_write_wins compare (swapped contest)).resolved_events ≡ contest.local ∷ [])
  unfolding last_write_wins
  last_write_wins_diverges h h' = rw (h, h') (refl, refl)

  -- Of two events with versions, first-write-wins keeps the one that last-write-wins drops, whatever
  -- the comparison returns.
  pub first_write_wins_opposite :
      (((last_write_wins compare contest).resolved_events ≡ contest.local ∷ [])
        × ((first_write_wins compare contest).resolved_events ≡ contest.remote ∷ []))
      ⊎ (((last_write_wins compare contest).resolved_events ≡ contest.remote ∷ [])
          × ((first_write_wins compare contest).resolved_events ≡ contest.local ∷ []))
  unfolding last_write_wins first_write_wins
  first_write_wins_opposite = elim (Bool-cases (is_minus_one (compare v w))) [
    | inl older ↦ inr (rw older (refl, refl))
    | inr later ↦ elim (Bool-cases (is_one (compare v w))) [
      | inl newer ↦ inl (rw (later, newer) (refl, refl))
      | inr neither ↦ inr (rw (later, neither) (refl, refl))
    ]
  ]
