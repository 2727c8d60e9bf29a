-- ===== src/StateMachine/Examples.antt =====
-- Runs of the state machine of internal/domain/state_machine.go on a door: 0 is open, 1 is closed
-- and 2 is locked; event 7 shuts, 8 locks and 9 unlocks.
use eval_prompt.Prelude.{
  ℕ, suc, ◌+◌, ◌≡◌, refl, ◌⊎◌, inl, inr, true, false, none, some, List, [], ◌∷◌, arith, Bool-cases,
  ◌==◌, contains, nat_eq, text,
}
use eval_prompt.StateMachine.{
  Transition, Guard, StateMachine, transition_beq, transition_beq_iff, transition_eq, run_guards,
  run_actions, has_state, transition_to, transition, state_transition,
}
use eval_prompt.StateMachine.Invariant.{IsValid, transition-IsValid}
use eval_prompt.StateMachine.Aggregate.{
  AggregateStateMachine, run_aggregate, TransitionRecord, record_transition, Chain,
  run_aggregate-Chain, start,
}
use eval_prompt.StateMachine.Search.Defs.{can_reach}
use eval_prompt.StateMachine.Search.Correct.{Walk, can_reach_decides}

abbrev door : StateMachine ℕ ℕ ℕ ℕ
door = record {
  name = text "Door";
  states = 0 ∷ 1 ∷ 2 ∷ [];
  transitions =
      record { from = 0; to = 1; event = 7 } ∷ record { from = 1; to = 2; event = 8 } ∷ [];
  guards = λ _. [];
  actions = λ _. [];
  initial = 0;
  current = 0;
  version = 0;
}

door_known :
    (f : Transition ℕ ℕ → ℕ) (t : Transition ℕ ℕ)
    → has_state door (f (record { from = 0; to = 1; event = 7 })) ≡ true
    → has_state door (f (record { from = 1; to = 2; event = 8 })) ≡ true
    → contains door.transitions t ≡ true
    → has_state door (f t) ≡ true
door_known f t a b h =
    elim (Bool-cases (transition_beq {S = ℕ} {E = ℕ} (record { from = 0; to = 1; event = 7 }) t)) [
      | inl e ↦ rw (← ((transition_beq_iff (record { from = 0; to = 1; event = 7 }) t).0 e)) a
      | inr n ↦
          rw (← ((transition_beq_iff (record { from = 1; to = 2; event = 8 }) t).0 (ground arith)))
            b
    ]

door-IsValid : IsValid door
unfolding has_state
door-IsValid = record {
  current_known = refl;
  initial_known = refl;
  from_known = λ t. door_known (λ u. u.from) t refl refl;
  to_known = λ t. door_known (λ u. u.to) t refl refl;
  once = refl;
}

-- A guard that wants the key 5.
abbrev needs_key : Guard ℕ ℕ ℕ
needs_key from to event key = (key == 5, none)

can_reach_decides_example :
    ((can_reach door 0 2 ≡ some true) × Walk door.transitions 0 2)
    ⊎ ((can_reach door 0 2 ≡ some false) × (¬ Walk door.transitions 0 2))
can_reach_decides_example = can_reach_decides door 0 2

transition-IsValid_example : IsValid (transition 1 7 0 door 0).0
transition-IsValid_example = transition-IsValid 1 7 0 0 door-IsValid

-- The door with the guard on each transition, and an action that counts.
abbrev guarded_door : StateMachine ℕ ℕ ℕ ℕ
guarded_door = record door {
  guards = λ _. needs_key ∷ [];
  actions = λ _. (λ _ _ _ _ n. (n + 1, none)) ∷ [];
}

door_opens : (transition 1 7 5 guarded_door 3).2 ≡ none
unfolding transition transition_to run_guards run_actions
door_opens = refl

door_stays : (transition 1 7 4 guarded_door 3).2 ≡ some (state_transition (text "Door") 0 1)
unfolding transition transition_to run_guards run_actions
door_stays = refl

-- A clock that ticks with each record, the version that comes next, and the history.
abbrev Log : Type 0
Log = ℕ × ℕ × List (TransitionRecord ℕ ℕ)

abbrev kept_history : Log → List (TransitionRecord ℕ ℕ)
kept_history log = log.2

abbrev log_move : ℕ → ℕ → ℕ → Log → Log
log_move from to event log =
    (log.0 + 3, suc log.1, record_transition from to event log.1 log.0 log.2)

abbrev tracked : AggregateStateMachine ℕ ℕ ℕ Log
tracked = record {
  machine = record {
    name = text "Door";
    states = 0 ∷ 1 ∷ 2 ∷ [];
    transitions = door.transitions;
    guards = λ _. [];
    actions = λ _. (λ _ _ _ _ log. ((log.0 + 1, log.1, log.2), none)) ∷ [];
    initial = 0;
    current = 0;
    version = 0;
  };
  on_transition = some log_move;
}

run_aggregate-Chain_example :
    Chain 0
      (kept_history (run_aggregate ((1, 7, 0) ∷ (0, 8, 0) ∷ (2, 8, 0) ∷ []) tracked (5, 1, [])).1)
      (run_aggregate ((1, 7, 0) ∷ (0, 8, 0) ∷ (2, 8, 0) ∷ []) tracked (5, 1, [])).0.machine.current
run_aggregate-Chain_example =
    run_aggregate-Chain kept_history log_move 0 ((1, 7, 0) ∷ (0, 8, 0) ∷ (2, 8, 0) ∷ []) tracked
      (5, 1, []) (λ from to event log. (log.1, log.0, refl)) refl (λ t. (λ _ _ _ _ log. refl, tt))
      start
