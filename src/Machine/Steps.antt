-- ===== src/Machine/Steps.antt =====
-- synckit/statemachine/machine.go: what one transition does, and where transitions can lead.
use go_sync_kit.Base.{
  ℕ, none, some, List, [], ◌∷◌, true, ◌≡◌, ◌↔◌, refl, arith, subst, Option-cases, inl, inr, ◌∙◌,
}
use go_sync_kit.Machine.{
  Machine, TransitionRules, TransitionError, transition, contains, validate, perform,
}

module _ {T : Type 0} (same : Discrete T) where
  -- A transition succeeds exactly when the rules allow it and the validator, if any, accepts it;
  -- the machine is then in the new state.
  pub transition_ok_iff :
      (now id : ℕ) (to : T) (m : Machine T)
      → ((transition same now id to m).1 ≡ none)
        ↔ ((contains same m.rules m.state to ≡ true) × (validate m.validator m.state to ≡ none))
  unfolding transition
  transition_ok_iff now id to m = (λ h. ground arith, λ h. ground arith)

  pub transition_ok :
      (now id : ℕ) (to : T) (m : Machine T)
      → contains same m.rules m.state to ≡ true
      → validate m.validator m.state to ≡ none
      → transition same now id to m ≡ (perform same now id to m, none)
  unfolding transition
  transition_ok now id to m allowed valid = rw (allowed, valid) refl

  -- A transition that is refused leaves the whole machine as it was, its history included.
  pub transition_error_unchanged :
      (now id : ℕ) (to : T) (m : Machine T) {e : TransitionError}
      → (transition same now id to m).1 ≡ some e
      → (transition same now id to m).0 ≡ m
  unfolding transition
  transition_error_unchanged now id to m h = ground arith

  pub rules-transition :
      (now id : ℕ) (to : T) (m : Machine T)
      → ((transition same now id to m).0.rules ≡ m.rules)
        × ((transition same now id to m).0.max_history ≡ m.max_history)
  unfolding transition
  rules-transition now id to m = ground arith

  -- A path in the graph of the rules.
  pub data Route (rules : TransitionRules T) : T → T → Type 0 where
    here : {s : T} → Route rules s s
    next : {s t u : T} → Route rules s t → contains same rules t u ≡ true → Route rules s u

  pub record Attempt : Type 0 where
    pub at : ℕ
    pub id : ℕ
    pub target : T

  -- Any sequence of calls, whatever their results.
  unfoldable pub attempt_all : List Attempt → Machine T → Machine T
  attempt_all [] m = m
  attempt_all (a ∷ rest) m = attempt_all rest (transition same a.at a.id a.target m).0

  transition-Route :
      (rules : TransitionRules T) (start : T) (a : Attempt) (m : Machine T)
      → m.rules ≡ rules
      → Route rules start m.state
      → Route rules start (transition same a.at a.id a.target m).0.state
  transition-Route rules start a m r path =
      elim (Option-cases (transition same a.at a.id a.target m).1) [
        | inl fine ↦
            let (allowed, valid) = (transition_ok_iff a.at a.id a.target m).0 fine in
            rw (transition_ok a.at a.id a.target m allowed valid) (
              unfold perform in
              next path (subst (λ t. contains same t m.state a.target ≡ true) r allowed))
        | inr (e, failed) ↦ rw (transition_error_unchanged a.at a.id a.target m failed) path
      ]

  attempt_all-Route :
      (rules : TransitionRules T) (start : T) (tries : List Attempt) (m : Machine T)
      → m.rules ≡ rules
      → Route rules start m.state
      → Route rules start (attempt_all tries m).state
  unfolding attempt_all
  attempt_all-Route rules start [] m r path = path
  attempt_all-Route rules start (a ∷ rest) m r path =
      attempt_all-Route rules start rest (transition same a.at a.id a.target m).0
        ((rules-transition a.at a.id a.target m).0 ∙ r) (transition-Route rules start a m r path)

  -- Whatever transitions are attempted, the machine moves along the graph of its rules.
  pub attempts_follow_rules :
      (tries : List Attempt) (m : Machine T) → Route m.rules m.state (attempt_all tries m).state
  attempts_follow_rules tries m = attempt_all-Route m.rules m.state tries m refl here
