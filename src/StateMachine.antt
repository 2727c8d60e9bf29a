-- ===== src/StateMachine.antt =====
-- The generic state machine of internal/domain/state_machine.go: its state, its options and its
-- methods. A method returns the new machine and its error; the effects of actions go through a
-- state `W` of the caller's, and `ctx interface{}` is a value of the type `C`.
pub mod Invariant
pub mod Firing
pub mod Search
pub mod Aggregate
mod Examples
use eval_prompt.Prelude.{
  ℕ, suc, ◌≡◌, ◌↔◌, Bool, true, not, ◌&&◌, Option, none, some, List, [], ◌∷◌, ◌++◌, arith,
  if◌then◌else◌, any, Eq, ◌==◌, contains, Text,
}

pub record Transition (S E : Type 0) : Type 0 where
  pub from : S
  pub to : S
  pub event : E

-- The errors of the machine; `failure` is one that a guard or an action makes.
pub data Error (S E : Type 0) : Type 0 where
  no_states : Error S E
  unknown_state : S → Error S E
  transition_exists : S → S → E → Error S E
  state_transition : Text → S → S → Error S E
  domain_violation : Text → Error S E
  failure : Text → Error S E

abbrev pub Guard : Type 0 → Type 0 → Type 0 → Type 0
Guard S E C = S → S → E → C → Bool × Option (Error S E)

abbrev pub Action : Type 0 → Type 0 → Type 0 → Type 0 → Type 0
Action S E C W = S → S → E → C → W → W × Option (Error S E)

-- The two maps give the empty list at a transition that was never added to them.
pub record StateMachine (S E C W : Type 0) : Type 0 where
  pub name : Text
  pub states : List S
  pub transitions : List (Transition S E)
  pub guards : Transition S E → List (Guard S E C)
  pub actions : Transition S E → List (Action S E C W)
  pub initial : S
  pub current : S
  pub version : ℕ

abbrev pub transition_beq :
    {S E : Type 0} ⦃eqS : Eq S⦄ ⦃eqE : Eq E⦄ → Transition S E → Transition S E → Bool
transition_beq t u = t.from == u.from && (t.to == u.to && t.event == u.event)

pub transition_beq_iff :
    {S E : Type 0} ⦃eqS : Eq S⦄ ⦃eqE : Eq E⦄ (t u : Transition S E)
    → (transition_beq t u ≡ true) ↔ (t ≡ u)
transition_beq_iff ⦃eqS⦄ ⦃eqE⦄ t u =
    ground (arith, eqS.beq_iff t.from u.from, eqS.beq_iff t.to u.to, eqE.beq_iff t.event u.event)

instance abbrev pub transition_eq : {S E : Type 0} ⦃eqS : Eq S⦄ ⦃eqE : Eq E⦄ → Eq (Transition S E)
transition_eq = record { beq = transition_beq; beq_iff = transition_beq_iff }

module _ {S E C : Type 0} where
  -- The loop over the guards of a transition: the first that fails or forbids ends it.
  unfoldable pub run_guards : Text → S → S → E → C → List (Guard S E C) → Option (Error S E)
  run_guards name from to event ctx [] = none
  run_guards name from to event ctx (g ∷ gs) =
      let rest = run_guards name from to event ctx gs in
      elim ((g from to event ctx).1) [
        | some e ↦ some e
        | none ↦ if (g from to event ctx).0 then rest else some (state_transition name from to)
      ]

module _ {S E : Type 0} ⦃eqS : Eq S⦄ ⦃eqE : Eq E⦄ where
  -- The loop of ValidEvents: each event of a transition from the current state, once.
  unfoldable pub collect_events : S → List E → List (Transition S E) → List E
  collect_events s events [] = events
  collect_events s events (t ∷ ts) =
      collect_events s
        (if t.from == s && not (contains events t.event) then events ++ (t.event ∷ []) else events)
        ts

module _ {S E C W : Type 0} where
  unfoldable pub with_initial_state : S → StateMachine S E C W → StateMachine S E C W
  with_initial_state s sm = record sm { initial = s; current = s }

  unfoldable pub reset : StateMachine S E C W → StateMachine S E C W
  reset sm = record sm { current = sm.initial; version = 0 }

  -- The loop over the options.
  unfoldable pub apply_options :
      StateMachine S E C W
      → List (StateMachine S E C W → StateMachine S E C W)
      → StateMachine S E C W
  apply_options sm [] = sm
  apply_options sm (opt ∷ opts) = apply_options (opt sm) opts

  unfoldable pub new_state_machine :
      Text
      → List S
      → List (StateMachine S E C W → StateMachine S E C W)
      → Option (StateMachine S E C W) × Option (Error S E)
  new_state_machine name [] opts = (none, some no_states)
  new_state_machine name (s ∷ ss) opts = (
    some (
        apply_options
          (record {
            name = name;
            states = s ∷ ss;
            transitions = [];
            guards = λ _. [];
            actions = λ _. [];
            initial = s;
            current = s;
            version = 0;
          })
          opts),
    none,
  )

  -- The loop over the actions: the first that fails ends it, with the effects so far.
  unfoldable pub run_actions : S → S → E → C → List (Action S E C W) → W → W × Option (Error S E)
  run_actions from to event ctx [] w = (w, none)
  run_actions from to event ctx (a ∷ as') w =
      let rest = run_actions from to event ctx as' (a from to event ctx w).0 in
      elim ((a from to event ctx w).1) [
        | some e ↦ ((a from to event ctx w).0, some e)
        | none ↦ rest
      ]

module _ {S E C W : Type 0} ⦃eqS : Eq S⦄ ⦃eqE : Eq E⦄ where
  unfoldable pub with_guard : S → S → E → Guard S E C → StateMachine S E C W → StateMachine S E C W
  with_guard from to event g sm =
      let trans : Transition S E = record { from = from; to = to; event = event } in
      record sm { guards = λ t. if t == trans then sm.guards trans ++ (g ∷ []) else sm.guards t }

  unfoldable pub with_action :
      S → S → E → Action S E C W → StateMachine S E C W → StateMachine S E C W
  with_action from to event a sm =
      let trans : Transition S E = record { from = from; to = to; event = event } in
      record sm { actions = λ t. if t == trans then sm.actions trans ++ (a ∷ []) else sm.actions t }

  unfoldable pub has_state : StateMachine S E C W → S → Bool
  has_state sm s = contains sm.states s

  unfoldable pub add_transition :
      S → S → E → StateMachine S E C W → StateMachine S E C W × Option (Error S E)
  add_transition from to event sm =
      let trans : Transition S E = record { from = from; to = to; event = event } in
      if not (has_state sm from)
      then (sm, some (unknown_state from))
      else if not (has_state sm to)
      then (sm, some (unknown_state to))
      else if contains sm.transitions trans
      then (sm, some (transition_exists from to event))
      else (record sm { transitions = sm.transitions ++ (trans ∷ []) }, none)

  unfoldable pub can_transition : StateMachine S E C W → S → E → Bool
  can_transition sm to event =
      contains sm.transitions (record { from = sm.current; to = to; event = event })

  -- Guards, then actions, then the new state and version.
  unfoldable pub transition_to :
      S → S → E → C → StateMachine S E C W → W → StateMachine S E C W × W × Option (Error S E)
  transition_to from to event ctx sm w =
      let trans : Transition S E = record { from = from; to = to; event = event } in
      let acted = run_actions from to event ctx (sm.actions trans) w in
      if not (contains sm.transitions trans)
      then (sm, w, some (state_transition sm.name from to))
      else elim (run_guards sm.name from to event ctx (sm.guards trans)) [
        | some e ↦ (sm, w, some e)
        | none ↦ elim (acted.1) [
          | some e ↦ (sm, acted.0, some e)
          | none ↦ (record sm { current = to; version = suc sm.version }, acted.0, none)
        ]
      ]

  unfoldable pub transition :
      S → E → C → StateMachine S E C W → W → StateMachine S E C W × W × Option (Error S E)
  transition to event ctx sm w = transition_to sm.current to event ctx sm w

  unfoldable pub is_terminal_state : StateMachine S E C W → S → Bool
  is_terminal_state sm s = not (any (λ (t : Transition S E). t.from == s) sm.transitions)

  unfoldable pub valid_events : StateMachine S E C W → List E
  valid_events sm = collect_events sm.current [] sm.transitions
