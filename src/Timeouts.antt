-- ===== src/Timeouts.antt =====
-- synckit/statemachine/timeout.go: the handler of state timeouts, over any type of states. A monitor is
-- the goroutine that waits for one timeout, known by a number; that its timer runs out, or that it
-- sees its cancellation, are steps, and a cancelled monitor whose timer has run out may take either.
-- The callback is the list of its calls.
pub mod Waiting
pub mod Monitors
pub mod Actions
mod Tests
use go_sync_kit.Base.{
  ℕ, ◌+◌, ◌==◌, String, Option, none, some, List, [], ◌∷◌, Bool, true, false, if◌then◌else◌,
}
use go_sync_kit.Base.Int.{ℤ, pos, is_positive}
use go_sync_kit.Machine.{Machine, can_transition, transition, reset}
use mathlib.Core.Logic.{ite}

pub data TimeoutAction : Type 0 where
  transition_action fail_action callback_action reset_action ignore_action : TimeoutAction

-- `TargetState` is nil, a state, or a value of another type.
pub data Target (T : Type 0) : Type 0 where
  no_target another_type : Target T
  to_state : T → Target T

pub record TimeoutConfig (T : Type 0) : Type 0 where
  pub default_timeout : ℤ
  pub enable_timeouts : Bool
  pub action : TimeoutAction
  pub target_state : Target T

pub record Monitor (T : Type 0) : Type 0 where
  pub number : ℕ
  pub state : T
  pub timeout : ℤ
  pub cancelled : Bool

-- `current` is the monitor that `currentTimeout` cancels, which may have ended.
pub record TimeoutHandler (T : Type 0) : Type 0 where
  pub machine : Machine T
  pub timeouts : List (T × ℤ)
  pub current : Option ℕ
  pub config : TimeoutConfig T
  pub monitors : List (Monitor T)
  pub started : ℕ
  pub callbacks : List (T × ℤ)

abbrev pub failure_states : List String
failure_states = "failed" ∷ "error" ∷ "timeout" ∷ "stuck" ∷ []

module _ {T : Type 0} where
  -- `NewTimeoutHandler`.
  unfoldable pub new_timeout_handler : Machine T → TimeoutConfig T → TimeoutHandler T
  new_timeout_handler m config = record {
    machine = m;
    timeouts = [];
    current = none;
    config = config;
    monitors = [];
    started = 0;
    callbacks = [];
  }

  -- A call of the cancel function of a monitor.
  unfoldable pub cancel : ℕ → List (Monitor T) → List (Monitor T)
  cancel n [] = []
  cancel n (m ∷ rest) =
      let later = cancel n rest in
      if m.number == n then record m { cancelled = true } ∷ later else m ∷ later

  abbrev pub cancel_current : Option ℕ → List (Monitor T) → List (Monitor T)
  cancel_current none monitors = monitors
  cancel_current (some n) monitors = cancel n monitors

  -- `StopTimeout`.
  unfoldable pub stop_timeout : TimeoutHandler T → TimeoutHandler T
  stop_timeout h = record h { current = none; monitors = cancel_current h.current h.monitors }

  -- A goroutine that has ended.
  unfoldable pub without : ℕ → List (Monitor T) → List (Monitor T)
  without n [] = []
  without n (m ∷ rest) = let later = without n rest in if m.number == n then later else m ∷ later

  unfoldable pub find : ℕ → List (Monitor T) → Option (Monitor T)
  find n [] = none
  find n (m ∷ rest) = let later = find n rest in if m.number == n then some m else later

  -- The monitor that `StartTimeout` starts, if the timeout is positive.
  unfoldable pub start_monitor : ℤ → TimeoutHandler T → TimeoutHandler T
  start_monitor timeout h =
      if is_positive timeout
      then record h {
        current = some h.started;
        started = h.started + 1;
        monitors =
            record {
              number = h.started;
              state = h.machine.state;
              timeout = timeout;
              cancelled = false;
            }
            ∷ h.monitors;
      }
      else h

module _ {T : Type 0} (same : Discrete T) where
  unfoldable pub set_in : T → ℤ → List (T × ℤ) → List (T × ℤ)
  set_in state timeout [] = (state, timeout) ∷ []
  set_in state timeout ((s, d) ∷ rest) =
      let later = (s, d) ∷ set_in state timeout rest in
      ite (same s state) ((state, timeout) ∷ rest) later

  unfoldable pub remove_from : T → List (T × ℤ) → List (T × ℤ)
  remove_from state [] = []
  remove_from state ((s, d) ∷ rest) =
      let later = remove_from state rest in ite (same s state) later ((s, d) ∷ later)

  -- `SetTimeout` and `RemoveTimeout`.
  unfoldable pub set_timeout : T → ℤ → TimeoutHandler T → TimeoutHandler T
  unfolding set_in
  set_timeout state timeout h = record h { timeouts = set_in state timeout h.timeouts }

  -- `SetTimeouts`; the keys of a Go map are distinct, so their order does not matter.
  unfoldable pub set_timeouts : List (T × ℤ) → TimeoutHandler T → TimeoutHandler T
  unfolding set_timeout
  set_timeouts [] h = h
  set_timeouts ((state, timeout) ∷ rest) h = set_timeouts rest (set_timeout state timeout h)

  unfoldable pub remove_timeout : T → TimeoutHandler T → TimeoutHandler T
  unfolding remove_from
  remove_timeout state h = record h { timeouts = remove_from state h.timeouts }

  -- `getTimeoutForState`.
  unfoldable pub get_timeout_for_state : T → ℤ → List (T × ℤ) → ℤ
  get_timeout_for_state state default [] = default
  get_timeout_for_state state default ((s, d) ∷ rest) =
      let later = get_timeout_for_state state default rest in ite (same s state) d later

  -- `StartTimeout`.
  unfoldable pub start_timeout : TimeoutHandler T → TimeoutHandler T
  start_timeout h =
      if h.config.enable_timeouts
      then start_monitor (get_timeout_for_state h.machine.state h.config.default_timeout h.timeouts)
          (stop_timeout h)
      else h

  abbrev pub transition_to_target : ℕ → ℕ → Target T → Machine T → Machine T
  transition_to_target now id no_target m = m
  transition_to_target now id another_type m = m
  transition_to_target now id (to_state target) m = (transition same now id target m).0

  -- `handleTimeoutFail`: of the names that are states, the first that can be entered. Whether a text is
  -- a state, the type assertion, is an argument.
  unfoldable pub fail_over : (String → Option T) → ℕ → ℕ → List String → Machine T → Machine T
  fail_over as_state now id [] m = m
  fail_over as_state now id (name ∷ rest) m =
      let later = fail_over as_state now id rest m in
      elim (as_state name) [
        | none ↦ later
        | some target ↦
            if can_transition same target m then (transition same now id target m).0 else later
      ]

  -- The action of `handleTimeout`.
  unfoldable pub act :
      (String → Option T) → ℕ → ℕ → TimeoutConfig T → TimeoutAction → Machine T → Machine T
  act as_state now id config transition_action m = transition_to_target now id config.target_state m
  act as_state now id config fail_action m = fail_over as_state now id failure_states m
  act as_state now id config reset_action m = (reset same now id m).0
  act as_state now id config callback_action m = m
  act as_state now id config ignore_action m = m

  -- `handleTimeout`.
  unfoldable pub handle_timeout :
      (String → Option T) → ℕ → ℕ → T → ℤ → TimeoutHandler T → TimeoutHandler T
  handle_timeout as_state now id state timeout h = record h {
    callbacks = (state, timeout) ∷ h.callbacks;
    machine = act as_state now id h.config h.config.action h.machine;
  }

  abbrev pub expired :
      (String → Option T) → ℕ → ℕ → ℕ → Option (Monitor T) → TimeoutHandler T → TimeoutHandler T
  expired as_state now id n none h = h
  expired as_state now id n (some m) h =
      handle_timeout as_state now id m.state m.timeout
        (record h { monitors = without n h.monitors })

  -- The timer of a monitor runs out and its goroutine takes that case.
  unfoldable pub expire : (String → Option T) → ℕ → ℕ → ℕ → TimeoutHandler T → TimeoutHandler T
  expire as_state now id n h = expired as_state now id n (find n h.monitors) h
