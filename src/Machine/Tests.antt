-- ===== src/Machine/Tests.antt =====
-- synckit/statemachine/machine.go: examples, on a machine over numbers.
use go_sync_kit.Base.{◌≤◌, length, none, some, List, [], ◌∷◌, Bool, true, false, ◌≡◌, refl}
use go_sync_kit.Base.Int.{pos}
use go_sync_kit.Machine.{
  TransitionRules, Config, Machine, transition, contains, new, invalid_transition,
}
use go_sync_kit.Machine.Steps.{Attempt, attempt_all}
use go_sync_kit.Machine.History.{IsConsistent, capacity, history-IsConsistent}

unfoldable Bool-discrete : Discrete Bool
Bool-discrete = hlevel

abbrev one_way : TransitionRules Bool
one_way = (false, true ∷ []) ∷ []

abbrev config : Config Bool
config = record {
  initial_state = false;
  transition_rules = some one_way;
  validator = none;
  max_history_size = pos 1;
}

abbrev fresh : Machine Bool
fresh = record {
  initial = false;
  rules = one_way;
  validator = none;
  max_history = 1;
  state = false;
  state_start = 0;
  observers = [];
  history = [];
}

abbrev two_tries : List (Attempt Bool-discrete)
two_tries =
    record { at = 1; id = 1; target = true } ∷ record { at = 2; id = 2; target = false } ∷ []

refused_loop : (transition Bool-discrete 1 1 false fresh).1 ≡ some invalid_transition
unfolding transition contains Bool-discrete
refused_loop = refl

built : new 0 config ≡ some fresh
unfolding new
built = refl

history-IsConsistent_example :
    IsConsistent Bool-discrete (attempt_all Bool-discrete two_tries fresh)
    × (length (attempt_all Bool-discrete two_tries fresh).history ≤ capacity Bool-discrete config)
history-IsConsistent_example = history-IsConsistent Bool-discrete 0 config two_tries fresh built
