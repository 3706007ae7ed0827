-- ===== src/Timeouts/Monitors.antt =====
-- synckit/statemachine/timeout.go: how many monitors wait at once.
use go_sync_kit.Base.{ℕ, ◌≤◌, String, Option, none, some, List, [], ◌∷◌, if◌then◌else◌, if_both}
use go_sync_kit.Base.Int.{ℤ}
use go_sync_kit.Machine.{Machine, transition}
use go_sync_kit.Timeouts.{
  Monitor, TimeoutConfig, TimeoutHandler, new_timeout_handler, stop_timeout, without, find,
  set_timeout, remove_timeout, start_timeout, handle_timeout, expire, expired,
}
use go_sync_kit.Timeouts.Waiting.{
  OnlyCurrentWaits, IsOrderly, waiting, stop_timeout-IsOrderly, start_monitor-IsOrderly,
  without-IsOrderly, waiting_bound,
}

-- What happens to a handler: the calls of its methods, a transition that others make, a timer that
-- runs out, and a goroutine that ends because it sees its cancellation.
pub data Step (T : Type 0) : Type 0 where
  set : T → ℤ → Step T
  remove : T → Step T
  start stop : Step T
  moved : ℕ → ℕ → T → Step T
  runs_out : ℕ → ℕ → ℕ → Step T
  ends : ℕ → Step T

module _ {T : Type 0} (same : Discrete T) (as_state : String → Option T) where
  abbrev pub ended : ℕ → Option (Monitor T) → TimeoutHandler T → TimeoutHandler T
  ended n none h = h
  ended n (some m) h = if m.cancelled then record h { monitors = without n h.monitors } else h

  unfoldable pub step : Step T → TimeoutHandler T → TimeoutHandler T
  step (set state timeout) h = set_timeout same state timeout h
  step (remove state) h = remove_timeout same state h
  step start h = start_timeout same h
  step stop h = stop_timeout h
  step (moved now id target) h = record h { machine = (transition same now id target h.machine).0 }
  step (runs_out now id n) h = expire same as_state now id n h
  step (ends n) h = ended n (find n h.monitors) h

  unfoldable pub run : List (Step T) → TimeoutHandler T → TimeoutHandler T
  run [] h = h
  run (s ∷ rest) h = run rest (step s h)

  start_timeout-IsOrderly : (h : TimeoutHandler T) → IsOrderly h → IsOrderly (start_timeout same h)
  unfolding start_timeout
  start_timeout-IsOrderly h o =
      let (stopped, idle) = stop_timeout-IsOrderly h o in
      if_both IsOrderly h.config.enable_timeouts
        (start_monitor-IsOrderly _ (stop_timeout h) idle stopped) o

  ended-IsOrderly :
      (n : ℕ) (m : Option (Monitor T)) (h : TimeoutHandler T)
      → IsOrderly h
      → IsOrderly (ended n m h)
  ended-IsOrderly n none h o = o
  ended-IsOrderly n (some m) h o = if_both IsOrderly m.cancelled (without-IsOrderly n h o) o

  expired-IsOrderly :
      (now id n : ℕ) (m : Option (Monitor T)) (h : TimeoutHandler T)
      → IsOrderly h
      → IsOrderly (expired same as_state now id n m h)
  unfolding handle_timeout
  expired-IsOrderly now id n none h o = o
  expired-IsOrderly now id n (some m) h o =
      let kept = without-IsOrderly n h o in
      record { waits = kept.waits; below = kept.below; distinct = kept.distinct }

  step-IsOrderly : (s : Step T) (h : TimeoutHandler T) → IsOrderly h → IsOrderly (step s h)
  unfolding step set_timeout remove_timeout expire
  step-IsOrderly (set state timeout) h o = record {
    waits = o.waits;
    below = o.below;
    distinct = o.distinct;
  }
  step-IsOrderly (remove state) h o = record {
    waits = o.waits;
    below = o.below;
    distinct = o.distinct;
  }
  step-IsOrderly start h o = start_timeout-IsOrderly h o
  step-IsOrderly stop h o = (stop_timeout-IsOrderly h o).0
  step-IsOrderly (moved now id target) h o = record {
    waits = o.waits;
    below = o.below;
    distinct = o.distinct;
  }
  step-IsOrderly (runs_out now id n) h o = expired-IsOrderly now id n (find n h.monitors) h o
  step-IsOrderly (ends n) h o = ended-IsOrderly n (find n h.monitors) h o

  run-IsOrderly :
      (steps : List (Step T)) (h : TimeoutHandler T) → IsOrderly h → IsOrderly (run steps h)
  unfolding run
  run-IsOrderly [] h o = o
  run-IsOrderly (s ∷ rest) h o = run-IsOrderly rest (step s h) (step-IsOrderly s h o)

  -- From a new handler on, whatever its methods, the transitions of the machine, the timers and the
  -- goroutines do, in any order, at most one monitor waits that is not cancelled, and it is the one that
  -- `currentTimeout` cancels.
  pub one_monitor_waits :
      (m : Machine T) (config : TimeoutConfig T) (steps : List (Step T))
      → let h = run steps (new_timeout_handler m config) in
        (waiting h.monitors ≤ 1) × OnlyCurrentWaits h.current h.monitors
  one_monitor_waits m config steps =
      let o =
        run-IsOrderly steps (new_timeout_handler m config)
          (unfold new_timeout_handler in record { waits = tt; below = tt; distinct = tt }) in
      (waiting_bound _ _ o.waits o.distinct, o.waits)
