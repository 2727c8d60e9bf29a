-- ===== src/StateMachine/Firing.antt =====
-- What a transition of internal/domain/state_machine.go does: when it succeeds, what stands in
-- its way, and how many have succeeded.
use eval_prompt.Prelude.{
  ℕ, suc, ◌+◌, ◌≡◌, false, Option, none, some, List, [], ◌∷◌, ◌++◌, arith, Eq, beq_refl, Text,
}
use eval_prompt.StateMachine.{
  Transition, Error, Guard, Action, StateMachine, transition_eq, run_guards, with_guard,
  transition_to, transition, state_transition,
}

-- How many calls gave no error.
abbrev pub successes {ℓ} : {A : Type ℓ} → List (Option A) → ℕ
successes [] = 0
successes (none ∷ es) = suc (successes es)
successes (some _ ∷ es) = successes es

module _ {S E C : Type 0} where
  -- Guards are asked in the order in which they were added, and the first one that objects
  -- decides: no action is run, and nothing changes.
  pub run_guards_first :
      (name : Text) (from to : S) (event : E) (ctx : C) (before after : List (Guard S E C))
      (g : Guard S E C)
      → run_guards name from to event ctx before ≡ none
      → (g from to event ctx).1 ≡ none
      → (g from to event ctx).0 ≡ false
      → run_guards name from to event ctx (before ++ (g ∷ after))
        ≡ some (state_transition name from to)
  unfolding run_guards
  run_guards_first name from to event ctx [] after g h e f = ground arith
  run_guards_first name from to event ctx (b ∷ before) after g h e f =
      ground (arith, run_guards_first name from to event ctx before after g)

-- The actions, one after the other, give no error and turn the one world into the other.
abbrev pub Acts : {S E C W : Type 0} → S → S → E → C → List (Action S E C W) → W → W → Type 0
Acts from to event ctx [] w u = w ≡ u
Acts from to event ctx (a ∷ as') w u =
    ((a from to event ctx w).1 ≡ none) × Acts from to event ctx as' (a from to event ctx w).0 u

module _ {S E C W : Type 0} ⦃eqS : Eq S⦄ ⦃eqE : Eq E⦄ where
  -- The machine and the world after a transition, by its error.
  pub transition_effect :
      (to : S) (event : E) (ctx : C) (sm : StateMachine S E C W) (w : W)
      → (transition to event ctx sm w).0 ≡ elim ((transition to event ctx sm w).2) [
        | none ↦ record sm { current = to; version = suc sm.version }
        | some _ ↦ sm
      ]
  unfolding transition transition_to
  transition_effect to event ctx sm w = ground arith

  -- The calls of Transition in a row; the errors are left to the caller.
  pub run :
      List (S × E × C)
      → StateMachine S E C W
      → W
      → StateMachine S E C W × W × List (Option (Error S E))
  run [] sm w = (sm, w, [])
  run ((to, event, ctx) ∷ calls) sm w =
      let r = transition to event ctx sm w in
      let (sm', w', errs) = run calls r.0 r.1 in (sm', w', r.2 ∷ errs)

  -- Version counts the transitions that succeeded.
  pub version-run :
      (calls : List (S × E × C)) (sm : StateMachine S E C W) (w : W)
      → (run calls sm w).0.version ≡ sm.version + successes ((run calls sm w).2)
  unfolding run
  version-run [] sm w = omega arith
  version-run ((to, event, ctx) ∷ calls) sm w =
      let r = transition to event ctx sm w in
      ground (arith, version-run calls r.0 r.1, transition_effect to event ctx sm w)

  -- If a transition succeeds, and a guard is added to it that forbids it with no error, then it is
  -- refused with the error of the state machine, and neither the machine nor the world changes.
  pub with_guard_veto :
      (to : S) (event : E) (ctx : C) (g : Guard S E C) (sm : StateMachine S E C W) (w : W)
      → (transition to event ctx sm w).2 ≡ none
      → (g sm.current to event ctx).1 ≡ none
      → (g sm.current to event ctx).0 ≡ false
      → transition to event ctx (with_guard sm.current to event g sm) w
        ≡ (with_guard sm.current to event g sm, w, some (state_transition sm.name sm.current to))
  unfolding with_guard transition transition_to
  with_guard_veto to event ctx g sm w ok e f = ground (
    arith,
    run_guards_first sm.name sm.current to event ctx
        (sm.guards (record { from = sm.current; to = to; event = event })) [] g,
    beq_refl {A = Transition S E} (record { from = sm.current; to = to; event = event }),
  )
