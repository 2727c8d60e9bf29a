-- ===== src/Domain/Asset/Machine.antt =====
-- NewAssetStateMachine, its predicates and EvalGuard (internal/domain/state_machine.go), and how
-- they agree with the asset's own table of transitions (internal/domain/asset.go).
use eval_prompt.Prelude.{
  ◌≡◌, refl, Bool, true, false, ◌&&◌, ◌||◌, Option, none, some, List, [], ◌∷◌, map, arith,
  if◌then◌else◌, ◌==◌, Text, text,
}
use eval_prompt.Prelude.Int.{ℤ, ltb_ℤ}
use eval_prompt.StateMachine.{
  Error, Guard, StateMachine, transition_eq, with_initial_state, apply_options, new_state_machine,
  has_state, add_transition, can_transition, domain_violation,
}
use eval_prompt.Domain.Events.{
  EventType, EventType-discrete, event_type_eq, prompt_asset_updated, prompt_asset_archived,
  label_promoted, eval_started, eval_completed, eval_failed,
}
use eval_prompt.Domain.Asset.{
  State, State-discrete, state_eq, state_can_transition_to, created, evaluating, evaluated,
  promoted, archived, other_state,
}

module _ {C W : Type 0} where
  -- `_ = asm.AddTransition(…)` in a row: the errors are dropped.
  unfoldable pub add_transitions :
      List (State × State × EventType)
      → StateMachine State EventType C W
      → StateMachine State EventType C W
  add_transitions [] sm = sm
  add_transitions ((from, to, event) ∷ rest) sm =
      add_transitions rest (add_transition from to event sm).0

abbrev pub asset_states : List State
asset_states = created ∷ evaluating ∷ evaluated ∷ promoted ∷ archived ∷ []

abbrev pub asset_transitions : List (State × State × EventType)
asset_transitions =
    (created, evaluating, eval_started)
    ∷ (evaluating, evaluated, eval_completed)
    ∷ (evaluating, created, eval_failed)
    ∷ (evaluated, promoted, label_promoted)
    ∷ (evaluated, created, prompt_asset_updated)
    ∷ (promoted, created, prompt_asset_updated)
    ∷ (created, archived, prompt_asset_archived)
    ∷ (evaluated, archived, prompt_asset_archived)
    ∷ (promoted, archived, prompt_asset_archived)
    ∷ []

module _ (C W : Type 0) where
  unfoldable pub new_asset_state_machine :
      Option (StateMachine State EventType C W) × Option (Error State EventType)
  unfolding add_transitions
  new_asset_state_machine =
      let made =
        new_state_machine {S = State} {E = EventType} {C = C} {W = W} (text "Asset") asset_states
          (with_initial_state created ∷ []) in
      elim (made.0) [ none ↦ made | some sm ↦ (some (add_transitions asset_transitions sm), none) ]

module _ {C W : Type 0} where
  unfoldable pub machine_can_eval : StateMachine State EventType C W → Bool
  machine_can_eval asm =
      can_transition asm evaluating eval_started || can_transition asm created eval_started

  unfoldable pub machine_can_promote : StateMachine State EventType C W → Bool
  machine_can_promote asm =
      can_transition asm promoted label_promoted || can_transition asm evaluated label_promoted

  unfoldable pub machine_can_archive : StateMachine State EventType C W → Bool
  machine_can_archive asm = can_transition asm archived prompt_asset_archived

-- EvalGuard: the context is an int or something else. `print` is how fmt prints the two numbers.
unfoldable pub eval_guard : (ℤ → ℤ → Text) → ℤ → Guard State EventType (Option ℤ)
eval_guard print threshold from to event ctx = elim ctx [
  | none ↦ (true, none)
  | some score ↦
      if event == label_promoted && ltb_ℤ score threshold
      then (false, some (domain_violation (print score threshold)))
      else (true, none)
]

-- The machine that comes out of the calls.
asset_machine : (C W : Type 0) → StateMachine State EventType C W
asset_machine C W = record {
  name = text "Asset";
  states = asset_states;
  transitions =
      map (λ (from, to, event). record { from = from; to = to; event = event }) asset_transitions;
  guards = λ _. [];
  actions = λ _. [];
  initial = created;
  current = created;
  version = 0;
}

asset_machine_made : (C W : Type 0) → new_asset_state_machine C W ≡ (some (asset_machine C W), none)
unfolding new_asset_state_machine new_state_machine with_initial_state add_transition apply_options
    has_state asset_machine EventType-discrete State-discrete
asset_machine_made C W = refl

table_agrees :
    (C W : Type 0) (s to : State) (event : EventType)
    → can_transition (record (asset_machine C W) { current = s }) to event
      ≡ state_can_transition_to s to event
unfolding asset_machine can_transition state_can_transition_to State-discrete
table_agrees C W created to event = ground arith
table_agrees C W evaluating to event = ground arith
table_agrees C W evaluated to event = ground arith
table_agrees C W promoted to event = ground arith
table_agrees C W archived to event = ground arith
table_agrees C W (other_state s) to event = ground arith

-- NewAssetStateMachine gives a machine in the state CREATED with version 0, whose table of
-- transitions is, in every state and for every target and event, the one that the asset itself
-- uses in canTransitionTo.
pub new_asset_state_machine_agrees :
    (C W : Type 0)
    → (asm : StateMachine State EventType C W) × (new_asset_state_machine C W ≡ (some asm, none))
      × (asm.current ≡ created)
      × (asm.version ≡ 0)
      × ((s to : State) (event : EventType)
          → can_transition (record asm { current = s }) to event
            ≡ state_can_transition_to s to event)
unfolding asset_machine
new_asset_state_machine_agrees C W =
    (asset_machine C W, asset_machine_made C W, refl, refl, table_agrees C W)
