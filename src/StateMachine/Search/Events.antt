-- ===== src/StateMachine/Search/Events.antt =====
-- ValidEvents and IsTerminalState of internal/domain/state_machine.go.
use eval_prompt.Prelude.{
  ◌≡◌, refl, ◌↔◌, inl, inr, true, false, ◌&&◌, ◌||◌, some, List, [], ◌∷◌, ◌++◌, arith, Bool-cases,
  any, any-append, Eq, ◌==◌, beq_refl, contains,
}
use eval_prompt.StateMachine.{
  Transition, StateMachine, transition_eq, collect_events, can_transition, transition_to,
  transition, is_terminal_state, valid_events, state_transition,
}
use eval_prompt.StateMachine.Invariant.{distinct, distinct-concat}

module _ {S E : Type 0} ⦃eqS : Eq S⦄ ⦃eqE : Eq E⦄ where
  contains-collect_events :
      (s : S) (events : List E) (ts : List (Transition S E)) (event : E)
      → contains (collect_events s events ts) event
        ≡ (contains events event || any (λ t. t.from == s && t.event == event) ts)
  unfolding collect_events
  contains-collect_events s events [] event = ground arith
  contains-collect_events s events (t ∷ ts) event = ground (
    arith,
    contains-collect_events s events ts event,
    contains-collect_events s (events ++ (t.event ∷ [])) ts event,
    any-append (λ x. x == event) events (t.event ∷ []),
    eqE.beq_iff t.event event,
  )

  distinct-collect_events :
      (s : S) (events : List E) (ts : List (Transition S E))
      → distinct events ≡ true
      → distinct (collect_events s events ts) ≡ true
  unfolding collect_events
  distinct-collect_events s events [] h = h
  distinct-collect_events s events (t ∷ ts) h = ground (
    arith,
    distinct-collect_events s events ts,
    distinct-collect_events s (events ++ (t.event ∷ [])) ts,
    distinct-concat events t.event,
  )

  any_to :
      (s : S) (event : E) (ts : List (Transition S E))
      → any (λ t. t.from == s && t.event == event) ts ≡ true
      → (to : S) × (contains ts (record { from = s; to = to; event = event }) ≡ true)
  any_to s event [] h = cc
  any_to s event (t ∷ ts) h = elim (Bool-cases (t.from == s && t.event == event)) [
    | inl hit ↦ (t.to, ground (arith, beq_refl t.to))
    | inr miss ↦ let (to, m) = any_to s event ts (ground arith) in (to, ground arith)
  ]

  any_from :
      (s to : S) (event : E) (ts : List (Transition S E))
      → contains ts (record { from = s; to = to; event = event }) ≡ true
      → any (λ t. t.from == s && t.event == event) ts ≡ true
  any_from s to event [] h = cc
  any_from s to event (t ∷ ts) h = ground (arith, any_from s to event ts)

module _ {S E C W : Type 0} ⦃eqS : Eq S⦄ ⦃eqE : Eq E⦄ where
  -- ValidEvents lists each event once, and lists an event exactly where CanTransition accepts it
  -- for some target state.
  pub valid_events_lem :
      (sm : StateMachine S E C W) (event : E)
      → (distinct (valid_events sm) ≡ true)
        × ((contains (valid_events sm) event ≡ true)
            ↔ ((to : S) × (can_transition sm to event ≡ true)))
  unfolding valid_events can_transition
  valid_events_lem sm event = (
    distinct-collect_events sm.current [] sm.transitions refl,
    (
      λ h.
          any_to sm.current event sm.transitions
            (rw (contains-collect_events sm.current [] sm.transitions event) at h),
      λ (to, h).
          rw (contains-collect_events sm.current [] sm.transitions event)
            (any_from sm.current to event sm.transitions h),
    ),
  )

  -- From a terminal state every transition is refused, and nothing changes.
  pub terminal_refuses :
      (sm : StateMachine S E C W) (to : S) (event : E) (ctx : C) (w : W)
      → is_terminal_state sm sm.current ≡ true
      → transition to event ctx sm w ≡ (sm, w, some (state_transition sm.name sm.current to))
  unfolding transition transition_to is_terminal_state
  terminal_refuses sm to event ctx w h = ground (arith, no_edge sm.transitions)
    where
      no_edge :
          (ts : List (Transition S E))
          → any (λ t. t.from == sm.current) ts ≡ false
          → contains ts (record { from = sm.current; to = to; event = event }) ≡ false
      no_edge [] h' = refl
      no_edge (t ∷ ts) h' = ground (arith, no_edge ts)
