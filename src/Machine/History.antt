-- ===== src/Machine/History.antt =====
-- synckit/statemachine/machine.go: the history is the recent end of the path that was taken.
use go_sync_kit.Base.{
  ℕ, zero, suc, ◌-◌, ◌≤◌, ◌<◌, Option, none, some, List, [], ◌∷◌, ◌++◌, true, ltb, ◌≡◌, refl, arith,
  length, length-append, drop, Option-cases, Bool-cases, inl, inr, if_both, length-drop, ltb→le,
  subst, sym, ap, ◌∙◌, ◌==◌, if◌then◌else◌,
}
use mathlib.Core.Option.{some-injective}
use go_sync_kit.Base.Int.{ℤ, pos, negsuc}
use go_sync_kit.Machine.{
  Machine, Config, TransitionRules, StateTransition, transition, contains, perform, add_to_history,
  new, with_rules, history_limit,
}
use go_sync_kit.Machine.Steps.{
  Attempt, attempt_all, rules-transition, transition_ok_iff, transition_ok,
  transition_error_unchanged,
}

module _ {T : Type 0} (same : Discrete T) where
  -- Each recorded transition starts where the one before it ended, and the last ends in `s`.
  abbrev pub LeadsTo : List (StateTransition T) → T → Type 0
  LeadsTo [] s = Unit
  LeadsTo (t ∷ []) s = t.to ≡ s
  LeadsTo (t ∷ u ∷ rest) s = (t.to ≡ u.from) × LeadsTo (u ∷ rest) s

  abbrev pub AllAllowed : TransitionRules T → List (StateTransition T) → Type 0
  AllAllowed rules [] = Unit
  AllAllowed rules (t ∷ rest) = (contains same rules t.from t.to ≡ true) × AllAllowed rules rest

  -- What holds of the history: it is bounded, it is a chain of transitions that the rules allow,
  -- and it ends in the current state.
  pub record IsConsistent (m : Machine T) : Type 0 where
    pub positive : 0 < m.max_history
    pub bounded : length m.history ≤ m.max_history
    pub chained : LeadsTo m.history m.state
    pub allowed : AllAllowed m.rules m.history

  LeadsTo-append :
      (h : List (StateTransition T)) (t : StateTransition T)
      → LeadsTo h t.from
      → LeadsTo (h ++ t ∷ []) t.to
  LeadsTo-append [] t l = refl
  LeadsTo-append (x ∷ []) t l = (l, refl)
  LeadsTo-append (x ∷ y ∷ rest) t l = (l.0, LeadsTo-append (y ∷ rest) t l.1)

  AllAllowed-append :
      (rules : TransitionRules T) (h : List (StateTransition T)) (t : StateTransition T)
      → AllAllowed rules h
      → contains same rules t.from t.to ≡ true
      → AllAllowed rules (h ++ t ∷ [])
  AllAllowed-append rules [] t a c = (c, tt)
  AllAllowed-append rules (x ∷ rest) t a c = (a.0, AllAllowed-append rules rest t a.1 c)

  LeadsTo-drop : (h : List (StateTransition T)) (s : T) → LeadsTo h s → LeadsTo (drop 1 h) s
  LeadsTo-drop [] s l = tt
  LeadsTo-drop (x ∷ []) s l = tt
  LeadsTo-drop (x ∷ y ∷ rest) s l = l.1

  AllAllowed-drop :
      (rules : TransitionRules T) (h : List (StateTransition T))
      → AllAllowed rules h
      → AllAllowed rules (drop 1 h)
  AllAllowed-drop rules [] a = tt
  AllAllowed-drop rules (x ∷ rest) a = a.1

  length-add_to_history :
      (limit : ℕ) (t : StateTransition T) (h : List (StateTransition T))
      → 0 < limit
      → length h ≤ limit
      → length (add_to_history limit t h) ≤ limit
  unfolding add_to_history
  length-add_to_history limit t h room fits =
      let grown = length-append h (t ∷ []) in
      elim (Bool-cases (ltb limit (length (h ++ t ∷ [])))) [
        | inl over ↦ rw over (omega (arith, length-drop 1 (h ++ t ∷ [])))
        | inr under ↦ rw under (ltb→le _ _ under)
      ]

  perform-IsConsistent :
      (now id : ℕ) (to : T) (m : Machine T)
      → contains same m.rules m.state to ≡ true
      → IsConsistent m
      → IsConsistent (perform same now id to m)
  unfolding perform
  perform-IsConsistent now id to m ok c = record {
    positive = c.positive;
    bounded = length-add_to_history m.max_history step m.history c.positive c.bounded;
    chained =
        unfold add_to_history in
        if_both (λ (h : List (StateTransition T)). LeadsTo h to) _
          (LeadsTo-drop (m.history ++ step ∷ []) to (LeadsTo-append m.history step c.chained))
          (LeadsTo-append m.history step c.chained);
    allowed =
        unfold add_to_history in
        if_both (λ (h : List (StateTransition T)). AllAllowed m.rules h) _
          (AllAllowed-drop m.rules (m.history ++ step ∷ [])
            (AllAllowed-append m.rules m.history step c.allowed ok))
          (AllAllowed-append m.rules m.history step c.allowed ok);
  }
    where
      step : StateTransition T
      step = record {
        from = m.state;
        to = to;
        timestamp = now;
        duration = now - m.state_start;
        transition_id = id;
      }

  -- Every call of `TransitionWithContext`, accepted or refused, keeps the history consistent.
  pub transition-IsConsistent :
      (now id : ℕ) (to : T) (m : Machine T)
      → IsConsistent m
      → IsConsistent (transition same now id to m).0
  transition-IsConsistent now id to m c = elim (Option-cases (transition same now id to m).1) [
    | inl fine ↦
        let (ok, valid) = (transition_ok_iff same now id to m).0 fine in
        rw (transition_ok same now id to m ok valid) (perform-IsConsistent now id to m ok c)
    | inr (e, failed) ↦ rw (transition_error_unchanged same now id to m failed) c
  ]

  history_limit_pos : (size : ℤ) → 0 < history_limit size
  history_limit_pos (pos zero) = omega arith
  history_limit_pos (pos (suc n)) = omega arith
  history_limit_pos (negsuc n) = omega arith

  with_rules-IsConsistent :
      (now : ℕ) (config : Config T) (rules : Option (TransitionRules T)) (m : Machine T)
      → with_rules now config rules ≡ some m
      → IsConsistent m
  unfolding with_rules
  with_rules-IsConsistent now config none m h = absurd (ground arith)
  with_rules-IsConsistent now config (some rules) m h =
      subst IsConsistent (some-injective _ _ h) (record {
        positive = history_limit_pos config.max_history_size;
        bounded = omega arith;
        chained = tt;
        allowed = tt;
      })

  -- How many transitions a configuration lets the history hold.
  abbrev pub capacity : Config T → ℕ
  capacity config = elim config.max_history_size [
    | pos n ↦ if n == 0 then 50 else n
    | negsuc n ↦ 50
  ]

  history_limit-eq-capacity :
      (config : Config T) → history_limit config.max_history_size ≡ capacity config
  history_limit-eq-capacity config = by_size config.max_history_size
    where
      by_size :
          (size : ℤ)
          → history_limit size ≡ elim size [ pos n ↦ if n == 0 then 50 else n | negsuc n ↦ 50 ]
      by_size (pos zero) = refl
      by_size (pos (suc n)) = ground arith
      by_size (negsuc n) = refl

  max_history-attempt_all :
      (tries : List (Attempt same)) (m : Machine T)
      → (attempt_all same tries m).max_history ≡ m.max_history
  unfolding attempt_all
  max_history-attempt_all [] m = refl
  max_history-attempt_all (a ∷ rest) m =
      max_history-attempt_all rest (transition same a.at a.id a.target m).0
      ∙ (rules-transition same a.at a.id a.target m).1

  max_history-with_rules :
      (now : ℕ) (config : Config T) (rules : Option (TransitionRules T)) (m : Machine T)
      → with_rules now config rules ≡ some m
      → m.max_history ≡ capacity config
  unfolding with_rules
  max_history-with_rules now config none m h = absurd (ground arith)
  max_history-with_rules now config (some rules) m h =
      sym (ap (λ (x : Machine T). x.max_history) (some-injective _ _ h))
      ∙ history_limit-eq-capacity config

  attempt_all-IsConsistent :
      (tries : List (Attempt same)) (m : Machine T)
      → IsConsistent m
      → IsConsistent (attempt_all same tries m)
  unfolding attempt_all
  attempt_all-IsConsistent [] m c = c
  attempt_all-IsConsistent (a ∷ rest) m c =
      attempt_all-IsConsistent rest (transition same a.at a.id a.target m).0
        (transition-IsConsistent a.at a.id a.target m c)

  -- From `New` on, after any calls of `TransitionWithContext`, the history holds at most
  -- `MaxHistorySize` transitions (50 if that is not positive), each allowed by the rules and
  -- starting where the one before ended, and the last ending in the current state.
  pub history-IsConsistent :
      (now : ℕ) (config : Config T) (tries : List (Attempt same)) (m : Machine T)
      → new now config ≡ some m
      → IsConsistent (attempt_all same tries m)
        × (length (attempt_all same tries m).history ≤ capacity config)
  unfolding new
  history-IsConsistent now config tries m h =
      let ends =
        attempt_all-IsConsistent tries m
          (with_rules-IsConsistent now config config.transition_rules m h) in
      (
        ends,
        omega (
          arith,
          ends.bounded,
          max_history-attempt_all tries m,
          max_history-with_rules now config config.transition_rules m h,
        ),
      )
