-- ===== src/StateMachine/Search/Defs.antt =====
-- The loop of CanReach (internal/domain/state_machine.go).
use eval_prompt.Prelude.{
  ℕ, zero, suc, Bool, true, false, not, ◌&&◌, Option, none, some, List, [], ◌∷◌, ◌++◌,
  if◌then◌else◌, length, Eq, ◌==◌, contains,
}
use eval_prompt.StateMachine.{Transition, StateMachine, transition_eq}

module _ {S E : Type 0} ⦃eqS : Eq S⦄ where
  -- The inner loop: the targets of `current` that are not visited join the queue.
  unfoldable pub enqueue : S → List S → List S → List (Transition S E) → List S
  enqueue current visited queue [] = queue
  enqueue current visited queue (t ∷ ts) =
      enqueue current visited
        (if t.from == current && not (contains visited t.to) then queue ++ (t.to ∷ []) else queue)
        ts

  -- The outer loop with fuel; `none` means that the fuel ran out.
  unfoldable pub search_loop : List (Transition S E) → S → ℕ → List S → List S → Option Bool
  search_loop ts to zero visited queue = elim queue [ [] ↦ some false | _ ∷ _ ↦ none ]
  search_loop ts to (suc fuel) visited queue = elim queue [
    | [] ↦ some false
    | current ∷ rest ↦
        let again = search_loop ts to fuel visited rest in
        let onward =
          search_loop ts to fuel (current ∷ visited)
            (enqueue current (current ∷ visited) rest ts) in
        if current == to then some true else if contains visited current then again else onward
  ]

module _ {S E C W : Type 0} ⦃eqS : Eq S⦄ where
  -- The fuel is one round more than there are transitions.
  unfoldable pub can_reach : StateMachine S E C W → S → S → Option Bool
  can_reach sm from to = search_loop sm.transitions to (suc (length sm.transitions)) [] (from ∷ [])
