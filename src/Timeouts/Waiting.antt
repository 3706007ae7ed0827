-- ===== src/Timeouts/Waiting.antt =====
-- synckit/statemachine/timeout.go: which monitors wait.
use go_sync_kit.Base.{
  ℕ, ◌+◌, ◌≤◌, ◌<◌, ◌==◌, Option, none, some, List, [], ◌∷◌, false, ◌≡◌, refl, arith, if◌then◌else◌,
  if_both,
}
use go_sync_kit.Base.Int.{ℤ, is_positive}
use go_sync_kit.Timeouts.{
  Monitor, TimeoutHandler, cancel, cancel_current, stop_timeout, without, start_monitor,
}

module _ {T : Type 0} where
  -- Only the monitor that `currentTimeout` cancels is not cancelled.
  abbrev pub OnlyCurrentWaits : Option ℕ → List (Monitor T) → Type 0
  OnlyCurrentWaits current [] = Unit
  OnlyCurrentWaits current (m ∷ rest) =
      (m.cancelled ≡ false → current ≡ some m.number) × OnlyCurrentWaits current rest

  abbrev pub AllBelow : ℕ → List (Monitor T) → Type 0
  AllBelow n [] = Unit
  AllBelow n (m ∷ rest) = (m.number < n) × AllBelow n rest

  abbrev pub IsAbsent : ℕ → List (Monitor T) → Type 0
  IsAbsent n [] = Unit
  IsAbsent n (m ∷ rest) = ((m.number == n) ≡ false) × IsAbsent n rest

  abbrev pub HasDistinctNumbers : List (Monitor T) → Type 0
  HasDistinctNumbers [] = Unit
  HasDistinctNumbers (m ∷ rest) = IsAbsent m.number rest × HasDistinctNumbers rest

  pub record IsOrderly (h : TimeoutHandler T) : Type 0 where
    pub waits : OnlyCurrentWaits h.current h.monitors
    pub below : AllBelow h.started h.monitors
    pub distinct : HasDistinctNumbers h.monitors

  unfoldable pub waiting : List (Monitor T) → ℕ
  waiting [] = 0
  waiting (m ∷ rest) = let later = waiting rest in if m.cancelled then later else later + 1

  cancel-OnlyCurrentWaits :
      (n : ℕ) (l : List (Monitor T))
      → OnlyCurrentWaits (some n) l
      → OnlyCurrentWaits none (cancel n l)
  unfolding cancel
  cancel-OnlyCurrentWaits n [] w = tt
  cancel-OnlyCurrentWaits n (m ∷ rest) w = ground (arith, cancel-OnlyCurrentWaits n rest w.1)

  cancel_current-OnlyCurrentWaits :
      (current : Option ℕ) (l : List (Monitor T))
      → OnlyCurrentWaits current l
      → OnlyCurrentWaits none (cancel_current current l)
  cancel_current-OnlyCurrentWaits none l w = w
  cancel_current-OnlyCurrentWaits (some n) l w = cancel-OnlyCurrentWaits n l w

  OnlyCurrentWaits-any :
      (current : Option ℕ) (l : List (Monitor T))
      → OnlyCurrentWaits none l
      → OnlyCurrentWaits current l
  OnlyCurrentWaits-any current [] w = tt
  OnlyCurrentWaits-any current (m ∷ rest) w =
      (λ live. absurd (ground (arith, w.0 live)), OnlyCurrentWaits-any current rest w.1)

  cancel-AllBelow : (k n : ℕ) (l : List (Monitor T)) → AllBelow k l → AllBelow k (cancel n l)
  unfolding cancel
  cancel-AllBelow k n [] b = tt
  cancel-AllBelow k n (m ∷ rest) b = ground (arith, cancel-AllBelow k n rest b.1)

  AllBelow-suc : (k : ℕ) (l : List (Monitor T)) → AllBelow k l → AllBelow (k + 1) l
  AllBelow-suc k [] b = tt
  AllBelow-suc k (m ∷ rest) b = (omega (arith, b.0), AllBelow-suc k rest b.1)

  AllBelow-IsAbsent : (k : ℕ) (l : List (Monitor T)) → AllBelow k l → IsAbsent k l
  AllBelow-IsAbsent k [] b = tt
  AllBelow-IsAbsent k (m ∷ rest) b = (ground (arith, b.0), AllBelow-IsAbsent k rest b.1)

  cancel-IsAbsent : (k n : ℕ) (l : List (Monitor T)) → IsAbsent k l → IsAbsent k (cancel n l)
  unfolding cancel
  cancel-IsAbsent k n [] a = tt
  cancel-IsAbsent k n (m ∷ rest) a = ground (arith, cancel-IsAbsent k n rest a.1)

  cancel-HasDistinctNumbers :
      (n : ℕ) (l : List (Monitor T)) → HasDistinctNumbers l → HasDistinctNumbers (cancel n l)
  unfolding cancel
  cancel-HasDistinctNumbers n [] d = tt
  cancel-HasDistinctNumbers n (m ∷ rest) d =
      ground (arith, cancel-HasDistinctNumbers n rest d.1, cancel-IsAbsent m.number n rest d.0)

  pub stop_timeout-IsOrderly :
      (h : TimeoutHandler T)
      → IsOrderly h
      → IsOrderly (stop_timeout h) × OnlyCurrentWaits none (stop_timeout h).monitors
  unfolding stop_timeout
  stop_timeout-IsOrderly h o =
      let waits = cancel_current-OnlyCurrentWaits h.current h.monitors o.waits in
      (
        record { waits = waits; below = by_current h.current; distinct = distinct_by h.current },
        waits,
      )
    where
      by_current : (c : Option ℕ) → AllBelow h.started (cancel_current c h.monitors)
      by_current none = o.below
      by_current (some n) = cancel-AllBelow h.started n h.monitors o.below

      distinct_by : (c : Option ℕ) → HasDistinctNumbers (cancel_current c h.monitors)
      distinct_by none = o.distinct
      distinct_by (some n) = cancel-HasDistinctNumbers n h.monitors o.distinct

  pub start_monitor-IsOrderly :
      (timeout : ℤ) (h : TimeoutHandler T)
      → OnlyCurrentWaits none h.monitors
      → IsOrderly h
      → IsOrderly (start_monitor timeout h)
  unfolding start_monitor
  start_monitor-IsOrderly timeout h idle o =
      if_both IsOrderly (is_positive timeout)
        (record {
          waits = (λ live. refl, OnlyCurrentWaits-any (some h.started) h.monitors idle);
          below = (omega arith, AllBelow-suc h.started h.monitors o.below);
          distinct = (AllBelow-IsAbsent h.started h.monitors o.below, o.distinct);
        })
        o

  without-OnlyCurrentWaits :
      (current : Option ℕ) (n : ℕ) (l : List (Monitor T))
      → OnlyCurrentWaits current l
      → OnlyCurrentWaits current (without n l)
  unfolding without
  without-OnlyCurrentWaits current n [] w = tt
  without-OnlyCurrentWaits current n (m ∷ rest) w =
      if_both (OnlyCurrentWaits current) (m.number == n)
        (without-OnlyCurrentWaits current n rest w.1)
        (w.0, without-OnlyCurrentWaits current n rest w.1)

  without-AllBelow : (k n : ℕ) (l : List (Monitor T)) → AllBelow k l → AllBelow k (without n l)
  unfolding without
  without-AllBelow k n [] b = tt
  without-AllBelow k n (m ∷ rest) b =
      if_both (AllBelow k) (m.number == n) (without-AllBelow k n rest b.1)
        (b.0, without-AllBelow k n rest b.1)

  without-IsAbsent : (k n : ℕ) (l : List (Monitor T)) → IsAbsent k l → IsAbsent k (without n l)
  unfolding without
  without-IsAbsent k n [] a = tt
  without-IsAbsent k n (m ∷ rest) a =
      if_both (IsAbsent k) (m.number == n) (without-IsAbsent k n rest a.1)
        (a.0, without-IsAbsent k n rest a.1)

  without-HasDistinctNumbers :
      (n : ℕ) (l : List (Monitor T)) → HasDistinctNumbers l → HasDistinctNumbers (without n l)
  unfolding without
  without-HasDistinctNumbers n [] d = tt
  without-HasDistinctNumbers n (m ∷ rest) d =
      if_both HasDistinctNumbers (m.number == n) (without-HasDistinctNumbers n rest d.1)
        (without-IsAbsent m.number n rest d.0, without-HasDistinctNumbers n rest d.1)

  pub without-IsOrderly :
      (n : ℕ) (h : TimeoutHandler T)
      → IsOrderly h
      → IsOrderly (record h { monitors = without n h.monitors })
  without-IsOrderly n h o = record {
    waits = without-OnlyCurrentWaits h.current n h.monitors o.waits;
    below = without-AllBelow h.started n h.monitors o.below;
    distinct = without-HasDistinctNumbers n h.monitors o.distinct;
  }

  none_waits : (l : List (Monitor T)) → OnlyCurrentWaits none l → waiting l ≡ 0
  unfolding waiting
  none_waits [] w = refl
  none_waits (m ∷ rest) w = ground (arith, none_waits rest w.1)

  absent_idle :
      (n : ℕ) (l : List (Monitor T)) → OnlyCurrentWaits (some n) l → IsAbsent n l → waiting l ≡ 0
  unfolding waiting
  absent_idle n [] w a = refl
  absent_idle n (m ∷ rest) w a = ground (arith, absent_idle n rest w.1 a.1)

  pub waiting_bound :
      (current : Option ℕ) (l : List (Monitor T))
      → OnlyCurrentWaits current l
      → HasDistinctNumbers l
      → waiting l ≤ 1
  unfolding waiting
  waiting_bound none l w d = omega (arith, none_waits l w)
  waiting_bound (some n) [] w d = omega arith
  waiting_bound (some n) (m ∷ rest) w d =
      ground (arith, waiting_bound (some n) rest w.1 d.1, absent_idle m.number rest)
