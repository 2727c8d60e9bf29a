-- ===== src/StateMachine/Search/Work.antt =====
-- The search of CanReach ends: a transition joins the queue at most once.
use eval_prompt.Prelude.{
  ℕ, zero, suc, ◌+◌, ◌≤◌, ◌≡◌, refl, ap, inl, inr, Bool, true, false, some, List, [], ◌∷◌, ◌++◌,
  arith, Bool-cases, length, length-append, Eq, ◌==◌, contains,
}
use eval_prompt.StateMachine.{Transition, StateMachine, transition_eq}
use eval_prompt.StateMachine.Search.Defs.{enqueue, search_loop, can_reach}

module _ {S E : Type 0} ⦃eqS : Eq S⦄ where
  -- The transitions whose source is still to be visited.
  abbrev open_edges : List S → List (Transition S E) → ℕ
  open_edges visited [] = 0
  open_edges visited (t ∷ ts) =
      let rest = open_edges visited ts in
      elim (contains visited t.from) [ true ↦ rest | false ↦ suc rest ]

  open_edges-nil : (ts : List (Transition S E)) → open_edges [] ts ≡ length ts
  open_edges-nil [] = refl
  open_edges-nil (t ∷ ts) = ap suc (open_edges-nil ts)

  enqueue_work :
      (current : S) (visited seen queue : List S) (ts : List (Transition S E))
      → contains visited current ≡ false
      → length (enqueue current seen queue ts) + open_edges (current ∷ visited) ts
        ≤ length queue + open_edges visited ts
  unfolding enqueue
  enqueue_work current visited seen queue [] h = omega arith
  enqueue_work current visited seen queue (t ∷ ts) h = ground (
    arith,
    eqS.beq_iff t.from current,
    eqS.beq_iff current t.from,
    length-append queue (t.to ∷ []),
    enqueue_work current visited seen queue ts,
    enqueue_work current visited seen (queue ++ (t.to ∷ [])) ts,
  )

  -- With fuel for its work the search returns.
  search_loop_returns :
      (ts : List (Transition S E)) (to : S) (fuel : ℕ) (visited queue : List S)
      → length queue + open_edges visited ts ≤ fuel
      → (found : Bool) × (search_loop ts to fuel visited queue ≡ some found)
  unfolding search_loop
  search_loop_returns ts to zero visited [] h = (false, refl)
  search_loop_returns ts to zero visited (s ∷ queue) h = absurd (omega arith)
  search_loop_returns ts to (suc fuel) visited [] h = (false, refl)
  search_loop_returns ts to (suc fuel) visited (s ∷ queue) h = elim (Bool-cases (s == to)) [
    | inl hit ↦ (true, ground arith)
    | inr miss ↦ elim (Bool-cases (contains visited s)) [
      | inl old ↦
          let (found, e) = search_loop_returns ts to fuel visited queue (omega arith) in
          (found, ground arith)
      | inr new ↦
          let (found, e) =
            search_loop_returns ts to fuel (s ∷ visited) (enqueue s (s ∷ visited) queue ts)
              (omega (arith, enqueue_work s visited (s ∷ visited) queue ts new)) in
          (found, ground arith)
    ]
  ]

module _ {S E C W : Type 0} ⦃eqS : Eq S⦄ where
  -- CanReach ends after at most one round more than there are transitions.
  pub can_reach_returns :
      (sm : StateMachine S E C W) (from to : S)
      → (found : Bool) × (can_reach sm from to ≡ some found)
  unfolding can_reach
  can_reach_returns sm from to =
      search_loop_returns sm.transitions to (suc (length sm.transitions)) [] (from ∷ [])
        (omega (arith, open_edges-nil sm.transitions))
