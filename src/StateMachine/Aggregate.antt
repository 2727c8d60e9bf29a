-- ===== src/StateMachine/Aggregate.antt =====
-- RecordAction, AggregateStateMachine and TransitionHistory of internal/domain/state_machine.go.
-- A callback changes the state `W` that the actions change too.
use eval_prompt.Prelude.{
  ℕ, suc, ◌≡◌, refl, ◌∙◌, ◌⊎◌, inl, inr, Option, none, some, List, [], ◌∷◌, ◌++◌, arith, All, Eq,
  Text,
}
use eval_prompt.StateMachine.{
  Transition, Error, Action, StateMachine, transition_eq, new_state_machine, run_actions,
  add_transition, transition_to, transition, no_states,
}

module _ {S E C W : Type 0} where
  unfoldable pub record_action : (S → S → E → W → W) → Action S E C W
  record_action record' from to event ctx w = (record' from to event w, none)

pub record AggregateStateMachine (S E C W : Type 0) : Type 0 where
  pub machine : StateMachine S E C W
  pub on_transition : Option (S → S → E → W → W)

module _ {S E C W : Type 0} ⦃eqS : Eq S⦄ ⦃eqE : Eq E⦄ where
  -- The option that NewAggregateStateMachine appends: with a callback it adds the transition from
  -- the first state to itself on the empty event, and drops the error.
  unfoldable pub ensure_states :
      E → S → Option (S → S → E → W → W) → StateMachine S E C W → StateMachine S E C W
  ensure_states empty_event first none sm = sm
  ensure_states empty_event first (some _) sm = (add_transition first first empty_event sm).0

  -- The index `states[0]` is only read where there are states.
  unfoldable pub new_aggregate_state_machine :
      E
      → Text
      → List S
      → Option (S → S → E → W → W)
      → List (StateMachine S E C W → StateMachine S E C W)
      → Option (AggregateStateMachine S E C W) × Option (Error S E)
  unfolding ensure_states
  new_aggregate_state_machine empty_event name [] on_transition opts = (none, some no_states)
  new_aggregate_state_machine empty_event name (s ∷ ss) on_transition opts =
      let (made, err) =
        new_state_machine name (s ∷ ss)
          (opts ++ (ensure_states empty_event s on_transition ∷ [])) in
      elim made [
        | none ↦ (none, err)
        | some sm ↦ (some (record { machine = sm; on_transition = on_transition }), none)
      ]

  -- Transition, with the callback after it where it succeeds.
  unfoldable pub aggregate_transition :
      S
      → E
      → C
      → AggregateStateMachine S E C W
      → W
      → AggregateStateMachine S E C W × W × Option (Error S E)
  aggregate_transition to event ctx asm w =
      let from = asm.machine.current in
      let r = transition to event ctx asm.machine w in
      let asm' : AggregateStateMachine S E C W = record asm { machine = r.0 } in
      elim (r.2) [
        | some err ↦ (asm', r.1, some err)
        | none ↦ elim (asm.on_transition) [
          | none ↦ (asm', r.1, none)
          | some callback ↦ (asm', callback from to event r.1, none)
        ]
      ]

  -- Calls of Transition in a row.
  pub run_aggregate :
      List (S × E × C) → AggregateStateMachine S E C W → W → AggregateStateMachine S E C W × W
  run_aggregate [] asm w = (asm, w)
  run_aggregate ((to, event, ctx) ∷ calls) asm w =
      let r = aggregate_transition to event ctx asm w in run_aggregate calls r.0 r.1

pub record TransitionRecord (S E : Type 0) : Type 0 where
  pub from : S
  pub to : S
  pub event : E
  pub at : ℕ
  pub version : ℕ

-- Record, on the list that TransitionHistory holds.
unfoldable pub record_transition :
    {S E : Type 0} → S → S → E → ℕ → ℕ → List (TransitionRecord S E) → List (TransitionRecord S E)
record_transition from to event version now history =
    history ++ (record { from = from; to = to; event = event; at = now; version = version } ∷ [])

-- The records lead from the one state to the other, each from where the one before it ended.
pub data Chain {S E : Type 0} (s : S) : List (TransitionRecord S E) → S → Type 0 where
  start : Chain s [] s
  onward :
      {history : List (TransitionRecord S E)} {u : S} (t : TransitionRecord S E)
      → Chain s history u
      → t.from ≡ u
      → Chain s (history ++ (t ∷ [])) t.to

-- The record of one move.
abbrev pub recorded : {S E : Type 0} → ℕ → ℕ → S → S → E → TransitionRecord S E
recorded version now from to event = record {
  from = from;
  to = to;
  event = event;
  at = now;
  version = version;
}

module _ {S E W : Type 0} (history : W → List (TransitionRecord S E)) where
  -- A callback that records each move in the history, at any time and with any version.
  abbrev pub Recording : (S → S → E → W → W) → Type 0
  Recording callback =
      (from to : S) (event : E) (w : W)
      → (version : ℕ) × (now : ℕ) × (history (callback from to event w)
          ≡ record_transition from to event version now (history w))

  -- An action that leaves the history as it is.
  abbrev pub Quiet : {C : Type 0} → Action S E C W → Type 0
  Quiet {C} a =
      (from to : S) (event : E) (ctx : C) (w : W) → history (a from to event ctx w).0 ≡ history w

  run_actions-Quiet :
      {C : Type 0} (from to : S) (event : E) (ctx : C) (as' : List (Action S E C W)) (w : W)
      → All {0, 0} Quiet as'
      → history (run_actions from to event ctx as' w).0 ≡ history w
  unfolding run_actions
  run_actions-Quiet from to event ctx [] w q = refl
  run_actions-Quiet {C} from to event ctx (a ∷ as') w (q, qs) =
      by_answer (a from to event ctx w) (λ v. run_actions-Quiet from to event ctx as' v qs)
        (q from to event ctx w)
    where
      by_answer :
          (r : W × Option (Error S E))
          → ((v : W) → history (run_actions from to event ctx as' v).0 ≡ history v)
          → history r.0 ≡ history w
          → history
              (elim r.1 as (λ _. W × Option (Error S E)) [
                | some e ↦ (r.0, some e)
                | none ↦ run_actions from to event ctx as' r.0
              ]).0
            ≡ history w
      by_answer (v, none) ih h = ih v ∙ h
      by_answer (v, some e) ih h = h

module _ {S E C W : Type 0} ⦃eqS : Eq S⦄ ⦃eqE : Eq E⦄ (history : W → List (TransitionRecord S E))
    (callback : S → S → E → W → W) (origin : S) where
  -- What a run keeps: the callback stays, no action changes the history, and the history leads to
  -- the current state.
  abbrev Tracked : AggregateStateMachine S E C W → W → Type 0
  Tracked asm w =
      (asm.on_transition ≡ some callback)
      × ((t : Transition S E) → All {0, 0} (Quiet history) (asm.machine.actions t))
      × Chain origin (history w) asm.machine.current

  -- The world after the actions of a move.
  abbrev acted : S → E → C → AggregateStateMachine S E C W → W → W
  acted to event ctx asm w =
      (run_actions asm.machine.current to event ctx
        (asm.machine.actions (record { from = asm.machine.current; to = to; event = event })) w).0

  -- With the callback: the machine stays, or the state moves and the callback is called.
  aggregate_cases :
      (to : S) (event : E) (ctx : C) (asm : AggregateStateMachine S E C W) (w : W)
      → asm.on_transition ≡ some callback
      → let r = aggregate_transition to event ctx asm w in
        ((r.0 ≡ asm) × ((r.1 ≡ w) ⊎ (r.1 ≡ acted to event ctx asm w)))
        ⊎ ((r.0 ≡ record asm {
          machine = record asm.machine { current = to; version = suc asm.machine.version };
        })
            × (r.1 ≡ callback asm.machine.current to event (acted to event ctx asm w)))
  unfolding aggregate_transition transition transition_to
  aggregate_cases to event ctx asm w on = ground arith

  Tracked-aggregate_transition :
      Recording history callback
      → (to : S) (event : E) (ctx : C) (asm : AggregateStateMachine S E C W) (w : W) → Tracked asm w
      → Tracked
          (aggregate_transition to event ctx asm w).0
          (aggregate_transition to event ctx asm w).1
  unfolding record_transition
  Tracked-aggregate_transition records to event ctx asm w (on, quiet, chain) =
      let trans : Transition S E = record { from = asm.machine.current; to = to; event = event } in
      let kept : history (acted to event ctx asm w) ≡ history w =
        run_actions-Quiet history asm.machine.current to event ctx (asm.machine.actions trans) w
          (quiet trans) in
      elim (aggregate_cases to event ctx asm w on) [
        | inl (same, inl unchanged) ↦ rw (same, unchanged) (on, quiet, chain)
        | inl (same, inr after) ↦ rw (same, after, kept) (on, quiet, chain)
        | inr (moved, after) ↦
            let (version, now, recorded_here) =
              records asm.machine.current to event (acted to event ctx asm w) in
            rw (moved, after, recorded_here, kept)
              (on, quiet, onward (recorded version now asm.machine.current to event) chain refl)
      ]

  -- An aggregate state machine whose callback records each move, at whatever time and with whatever
  -- version, and whose actions leave the history alone, keeps a gapless history: after any calls of
  -- Transition, accepted or refused, the records lead from the state where the history began to the
  -- current state, each from where the one before it ended.
  pub run_aggregate-Chain :
      (calls : List (S × E × C)) (asm : AggregateStateMachine S E C W) (w : W)
      → Recording history callback
      → asm.on_transition ≡ some callback
      → ((t : Transition S E) → All {0, 0} (Quiet history) (asm.machine.actions t))
      → Chain origin (history w) asm.machine.current
      → let r = run_aggregate calls asm w in Chain origin (history r.1) r.0.machine.current
  unfolding run_aggregate
  run_aggregate-Chain [] asm w records on quiet chain = chain
  run_aggregate-Chain ((to, event, ctx) ∷ calls) asm w records on quiet chain =
      let r = aggregate_transition to event ctx asm w in
      let (on', quiet', chain') =
        Tracked-aggregate_transition records to event ctx asm w (on, quiet, chain) in
      run_aggregate-Chain calls r.0 r.1 records on' quiet' chain'
