-- ===== src/StateMachine/Invariant.antt =====
-- Well-formed machines (internal/domain/state_machine.go): states and transitions are known, no
-- transition stands twice, and every method keeps it so.
use eval_prompt.Prelude.{
  suc, ◌≡◌, refl, ◌⊎◌, inl, inr, Bool, true, false, not, ◌&&◌, Option, List, [], ◌∷◌, ◌++◌, arith,
  Bool-cases, if_elim, any-append, Eq, ◌==◌, contains,
}
use eval_prompt.StateMachine.{
  Transition, Error, StateMachine, transition_beq_iff, transition_eq, has_state, add_transition,
  transition_to, transition,
}

module _ {A : Type 0} ⦃e : Eq A⦄ where
  abbrev pub distinct : List A → Bool
  distinct [] = true
  distinct (x ∷ xs) = not (contains xs x) && distinct xs

  pub distinct-concat :
      (xs : List A) (x : A)
      → contains xs x ≡ false
      → distinct xs ≡ true
      → distinct (xs ++ (x ∷ [])) ≡ true
  distinct-concat [] x h d = refl
  distinct-concat (y ∷ xs) x h d = ground (
    arith,
    any-append (λ z. z == y) xs (x ∷ []),
    e.beq_iff x y,
    e.beq_iff y x,
    distinct-concat xs x,
  )

module _ {S E C W : Type 0} ⦃eqS : Eq S⦄ ⦃eqE : Eq E⦄ where
  pub record IsValid (sm : StateMachine S E C W) : Type 0 where
    pub current_known : has_state sm sm.current ≡ true
    pub initial_known : has_state sm sm.initial ≡ true
    pub from_known :
        (t : Transition S E) → contains sm.transitions t ≡ true → has_state sm t.from ≡ true
    pub to_known :
        (t : Transition S E) → contains sm.transitions t ≡ true → has_state sm t.to ≡ true
    pub once : distinct sm.transitions ≡ true

  endpoint_known :
      (sm : StateMachine S E C W) (trans t : Transition S E) (f : Transition S E → S)
      → ((u : Transition S E) → contains sm.transitions u ≡ true → has_state sm (f u) ≡ true)
      → has_state sm (f trans) ≡ true
      → contains (sm.transitions ++ (trans ∷ [])) t ≡ true
      → has_state sm (f t) ≡ true
  endpoint_known sm trans t f old new h = elim (Bool-cases (contains sm.transitions t)) [
    | inl c ↦ old t c
    | inr c ↦
        let e : trans ≡ t =
          (transition_beq_iff trans t).0
            (ground (arith, any-append (λ u. u == t) sm.transitions (trans ∷ []))) in
        rw (← e) new
  ]

  -- A transition that is really added keeps the machine valid.
  added-IsValid :
      (trans : Transition S E) {sm : StateMachine S E C W}
      → IsValid sm
      → has_state sm trans.from ≡ true
      → has_state sm trans.to ≡ true
      → contains sm.transitions trans ≡ false
      → IsValid (record sm { transitions = sm.transitions ++ (trans ∷ []) })
  unfolding has_state
  added-IsValid trans {sm} h f t c = record {
    current_known = h.current_known;
    initial_known = h.initial_known;
    from_known = λ u. endpoint_known sm trans u (λ v. v.from) h.from_known f;
    to_known = λ u. endpoint_known sm trans u (λ v. v.to) h.to_known t;
    once = distinct-concat sm.transitions trans c h.once;
  }

  -- AddTransition keeps a well-formed machine well-formed, whether it adds the transition or refuses
  -- an unknown state or a transition that is there already.
  pub add_transition-IsValid :
      (from to : S) (event : E) {sm : StateMachine S E C W}
      → IsValid sm
      → IsValid (add_transition from to event sm).0
  unfolding add_transition
  add_transition-IsValid from to event {sm} h =
      if_elim Keeps (not (has_state sm from)) (λ _. h)
        λ f.
          if_elim Keeps (not (has_state sm to)) (λ _. h)
            λ t.
              if_elim Keeps (contains sm.transitions _) (λ _. h)
                λ c.
                  added-IsValid (record { from = from; to = to; event = event }) h (ground arith)
                    (ground arith) c
    where
      Keeps : StateMachine S E C W × Option (Error S E) → Type 0
      Keeps r = IsValid r.0

  -- A failed transition returns the machine that it was given; a transition that succeeds was
  -- registered, and changes the current state and the version alone.
  pub transition_cases :
      (from to : S) (event : E) (ctx : C) (sm : StateMachine S E C W) (w : W)
      → ((transition_to from to event ctx sm w).0 ≡ sm)
        ⊎ ((contains sm.transitions (record { from = from; to = to; event = event }) ≡ true)
            × ((transition_to from to event ctx sm w).0
                ≡ record sm { current = to; version = suc sm.version }))
  unfolding transition_to
  transition_cases from to event ctx sm w = ground arith

  -- Transition keeps a well-formed machine well-formed, whatever its guards and actions do, whether
  -- it succeeds or fails.
  pub transition-IsValid :
      (to : S) (event : E) (ctx : C) {sm : StateMachine S E C W} (w : W)
      → IsValid sm
      → IsValid (transition to event ctx sm w).0
  unfolding transition has_state
  transition-IsValid to event ctx {sm} w h = elim (transition_cases sm.current to event ctx sm w) [
    | inl same ↦ rw same h
    | inr (found, moved) ↦ rw moved (record {
      current_known = h.to_known _ found;
      initial_known = h.initial_known;
      from_known = h.from_known;
      to_known = h.to_known;
      once = h.once;
    })
  ]
