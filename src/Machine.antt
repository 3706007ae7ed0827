-- ===== src/Machine.antt =====
-- synckit/statemachine/machine.go and types.go: the generic state machine. Of its observers only
-- the list is kept: they are called in goroutines of their own and cannot change the machine. The
-- time and the transition ID of a step are arguments.
pub mod Steps
pub mod History
mod Tests
use mathlib.Core.Logic.{ite}
use go_sync_kit.Base.{
  ℕ, zero, suc, ◌-◌, String, Option, none, some, List, [], ◌∷◌, ◌++◌, Bool, true, false, not, ltb,
  if◌then◌else◌, length, drop,
}
use go_sync_kit.Base.Int.{ℤ, pos, negsuc}

-- `map[T][]T`.
abbrev pub TransitionRules : Type 0 → Type 0
TransitionRules T = List (T × List T)

pub record StateTransition (T : Type 0) : Type 0 where
  pub from : T
  pub to : T
  pub timestamp : ℕ
  pub duration : ℕ
  pub transition_id : ℕ

pub data TransitionError : Type 0 where
  invalid_transition : TransitionError
  validation_failed : String → TransitionError

-- `StateMachineConfig`: nil rules are `none`, and so is an absent validator.
pub record Config (T : Type 0) : Type 0 where
  pub initial_state : T
  pub transition_rules : Option (TransitionRules T)
  pub validator : Option (T → T → Option String)
  pub max_history_size : ℤ

pub record Machine (T : Type 0) : Type 0 where
  pub initial : T
  pub rules : TransitionRules T
  pub validator : Option (T → T → Option String)
  pub max_history : ℕ
  pub state : T
  pub state_start : ℕ
  pub observers : List ℕ
  pub history : List (StateTransition T)

-- `if config.MaxHistorySize <= 0 { config.MaxHistorySize = 50 }`.
abbrev pub history_limit : ℤ → ℕ
history_limit (pos zero) = 50
history_limit (pos (suc n)) = suc n
history_limit (negsuc n) = 50

module _ {T : Type 0} where
  unfoldable pub with_rules : ℕ → Config T → Option (TransitionRules T) → Option (Machine T)
  with_rules now config none = none
  with_rules now config (some rules) = some (record {
    initial = config.initial_state;
    rules = rules;
    validator = config.validator;
    max_history = history_limit config.max_history_size;
    state = config.initial_state;
    state_start = now;
    observers = [];
    history = [];
  })

  -- `New`: `none` is the error "transition rules cannot be nil".
  unfoldable pub new : ℕ → Config T → Option (Machine T)
  unfolding with_rules
  new now config = with_rules now config config.transition_rules

  -- `addToHistory`.
  unfoldable pub add_to_history :
      ℕ → StateTransition T → List (StateTransition T) → List (StateTransition T)
  add_to_history limit t history =
      let longer = history ++ t ∷ [] in if ltb limit (length longer) then drop 1 longer else longer

  unfoldable pub subscribe : Option ℕ → Machine T → Machine T
  subscribe none m = m
  subscribe (some observer) m = record m { observers = m.observers ++ observer ∷ [] }

  -- `Unsubscribe` compares the addresses of two local variables, which differ: nothing is removed.
  abbrev pub unsubscribe : Option ℕ → Machine T → Machine T
  unsubscribe observer m = m

  abbrev pub validate : Option (T → T → Option String) → T → T → Option TransitionError
  validate none from to = none
  validate (some check) from to = elim (check from to) [
    | none ↦ none
    | some message ↦ some (validation_failed message)
  ]

module _ {T : Type 0} (same : Discrete T) where
  -- The loop of `Contains` over the allowed states.
  unfoldable pub among : T → List T → Bool
  among to [] = false
  among to (allowed ∷ rest) = let later = among to rest in ite (same allowed to) true later

  -- `tr[from]`: a key that is not there has no allowed states.
  unfoldable pub allowed_from : T → TransitionRules T → List T
  allowed_from from [] = []
  allowed_from from ((key, targets) ∷ rest) =
      let later = allowed_from from rest in ite (same key from) targets later

  unfoldable pub contains : TransitionRules T → T → T → Bool
  unfolding among allowed_from
  contains rules from to = among to (allowed_from from rules)

  unfoldable pub can_transition : T → Machine T → Bool
  can_transition to m = contains m.rules m.state to

  -- The update after both checks have passed.
  unfoldable pub perform : ℕ → ℕ → T → Machine T → Machine T
  perform now id to m = record m {
    state = to;
    state_start = now;
    history =
        add_to_history m.max_history
          (record {
            from = m.state;
            to = to;
            timestamp = now;
            duration = now - m.state_start;
            transition_id = id;
          })
          m.history;
  }

  unfoldable pub validated :
      ℕ → ℕ → T → Machine T → Option TransitionError → Machine T × Option TransitionError
  validated now id to m (some e) = (m, some e)
  validated now id to m none = (perform now id to m, none)

  -- `TransitionWithContext`.
  unfoldable pub transition : ℕ → ℕ → T → Machine T → Machine T × Option TransitionError
  unfolding validated perform can_transition
  transition now id to m =
      if not (can_transition to m)
      then (m, some invalid_transition)
      else validated now id to m (validate m.validator m.state to)

  -- `Reset` is an ordinary transition to the initial state.
  unfoldable pub reset : ℕ → ℕ → Machine T → Machine T × Option TransitionError
  reset now id m = transition now id m.initial m

  -- `Builder.Allow`: append to what is allowed from a state.
  unfoldable pub allow : T → List T → TransitionRules T → TransitionRules T
  allow from to [] = (from, to) ∷ []
  allow from to ((key, targets) ∷ rest) =
      let later = (key, targets) ∷ allow from to rest in
      ite (same key from) ((key, targets ++ to) ∷ rest) later
