-- ===== src/StateMachine/Search/Correct.antt =====
-- CanReach answers true exactly where a walk over the registered transitions leads.
use eval_prompt.Prelude.{
  ℕ, zero, suc, ◌≡◌, refl, ◌⊎◌, inl, inr, Bool, true, false, not, ◌&&◌, ◌||◌, some, List, [], ◌∷◌,
  ◌++◌, arith, Bool-cases, length, any, any-append, Eq, ◌==◌, beq_refl, contains,
}
use eval_prompt.StateMachine.{Transition, StateMachine, transition_beq_iff, transition_eq}
use eval_prompt.StateMachine.Search.Work.{can_reach_returns}
use eval_prompt.StateMachine.Search.Defs.{enqueue, search_loop, can_reach}

-- The walks over registered transitions.
pub data Walk {S E : Type 0} ⦃eqS : Eq S⦄ ⦃eqE : Eq E⦄ (ts : List (Transition S E)) (s : S)
    : S → Type 0 where
  here : Walk ts s s
  step :
      {u v : S} (t : Transition S E)
      → Walk ts s u
      → contains ts t ≡ true
      → t.from ≡ u
      → t.to ≡ v
      → Walk ts s v

module _ {S E : Type 0} ⦃eqS : Eq S⦄ ⦃eqE : Eq E⦄ where
  any-intro :
      (p : Transition S E → Bool) (ts : List (Transition S E)) (t : Transition S E)
      → contains ts t ≡ true
      → p t ≡ true
      → any p ts ≡ true
  any-intro p [] t h e = cc
  any-intro p (u ∷ ts) t h e = elim (Bool-cases (u == t)) [
    | inl same ↦ let q : u ≡ t = (transition_beq_iff u t).0 same in rw q (ground arith)
    | inr differs ↦ ground (arith, any-intro p ts t)
  ]

  any-witness :
      (p : Transition S E → Bool) (ts : List (Transition S E))
      → any p ts ≡ true
      → (t : Transition S E) × (contains ts t ≡ true) × (p t ≡ true)
  any-witness p [] h = cc
  any-witness p (u ∷ ts) h = elim (Bool-cases (p u)) [
    | inl yes' ↦ (u, ground (arith, beq_refl u), yes')
    | inr no' ↦ let (t, m, e) = any-witness p ts (ground arith) in (t, ground arith, e)
  ]

  -- The transitions that lead from `current` to `s`, a state still to be seen.
  abbrev fresh_edge : S → List S → S → Transition S E → Bool
  fresh_edge current seen s t = t.from == current && (not (contains seen t.to) && t.to == s)

  contains-enqueue :
      (current : S) (seen queue : List S) (ts : List (Transition S E)) (s : S)
      → contains (enqueue current seen queue ts) s
        ≡ (contains queue s || any (fresh_edge current seen s) ts)
  unfolding enqueue
  contains-enqueue current seen queue [] s = ground arith
  contains-enqueue current seen queue (t ∷ ts) s = ground (
    arith,
    contains-enqueue current seen queue ts s,
    contains-enqueue current seen (queue ++ (t.to ∷ [])) ts s,
    any-append (λ x. x == s) queue (t.to ∷ []),
  )

  -- What the loop keeps: all that it met lies on a walk, the target has not been visited, and a
  -- visited state has its targets visited or in the queue.
  record Inv (ts : List (Transition S E)) (source target : S) (visited queue : List S)
      : Type 0 where
    sound : (s : S) → contains queue s ≡ true → Walk ts source s
    started : (contains visited source || contains queue source) ≡ true
    missed : contains visited target ≡ false
    closed :
        (t : Transition S E)
        → contains ts t ≡ true
        → contains visited t.from ≡ true
        → (contains visited t.to || contains queue t.to) ≡ true

  module _ (ts : List (Transition S E)) (source target : S) where
    Inv-start : Inv ts source target [] (source ∷ [])
    Inv-start = record {
      sound = λ s h. let e : source ≡ s = (eqS.beq_iff source s).0 (ground arith) in rw (← e) here;
      started = ground (arith, beq_refl source);
      missed = refl;
      closed = λ t m h. cc;
    }

    Inv-skip :
        (s : S) (visited queue : List S)
        → contains visited s ≡ true
        → Inv ts source target visited (s ∷ queue)
        → Inv ts source target visited queue
    Inv-skip s visited queue old h = record {
      sound = λ u m. h.sound u (ground arith);
      started = ground (arith, h.started, eqS.beq_iff s source);
      missed = h.missed;
      closed = λ t m f. ground (arith, h.closed t m f, eqS.beq_iff s t.to);
    }

    visit_sound :
        (s : S) (visited queue : List S)
        → Inv ts source target visited (s ∷ queue)
        → (u : S) → contains (enqueue s (s ∷ visited) queue ts) u ≡ true
        → Walk ts source u
    visit_sound s visited queue h u m = elim (Bool-cases (contains queue u)) [
      | inl old ↦ h.sound u (ground arith)
      | inr new ↦
          let (t, registered, e) =
            any-witness (fresh_edge s (s ∷ visited) u) ts
              (ground (arith, contains-enqueue s (s ∷ visited) queue ts u)) in
          step t (h.sound s (ground (arith, beq_refl s))) registered
            ((eqS.beq_iff t.from s).0 (ground arith)) ((eqS.beq_iff t.to u).0 (ground arith))
    ]

    visit_closed :
        (s : S) (visited queue : List S)
        → Inv ts source target visited (s ∷ queue)
        → (t : Transition S E) → contains ts t ≡ true
        → contains (s ∷ visited) t.from ≡ true
        → (contains (s ∷ visited) t.to || contains (enqueue s (s ∷ visited) queue ts) t.to) ≡ true
    visit_closed s visited queue h t m f = rw (contains-enqueue s (s ∷ visited) queue ts t.to) (
        ground (
          arith,
          h.closed t m,
          eqS.beq_iff s t.from,
          eqS.beq_iff t.from s,
          beq_refl t.to,
          any-intro (fresh_edge s (s ∷ visited) t.to) ts t m,
        ))

    Inv-visit :
        (s : S) (visited queue : List S)
        → (s == target) ≡ false
        → Inv ts source target visited (s ∷ queue)
        → Inv ts source target (s ∷ visited) (enqueue s (s ∷ visited) queue ts)
    Inv-visit s visited queue miss h = record {
      sound = visit_sound s visited queue h;
      started = ground (arith, h.started, contains-enqueue s (s ∷ visited) queue ts source);
      missed = ground (arith, h.missed);
      closed = visit_closed s visited queue h;
    }

    -- With an empty queue every walk ends in a visited state, which the target is not.
    Inv-unreachable :
        (visited : List S)
        → Inv ts source target visited []
        → (s : S) → Walk ts source s
        → contains visited s ≡ true
    Inv-unreachable visited h s here = ground (arith, h.started)
    Inv-unreachable visited h s (step t w m f e) =
        let start = Inv-unreachable visited h _ w in
        rw (← e) (ground (arith, h.closed t m (rw f start)))

    unreachable : (visited : List S) → Inv ts source target visited [] → ¬ Walk ts source target
    unreachable visited h w = ground (arith, h.missed, Inv-unreachable visited h target w)

    abbrev Verdict : Bool → Type 0
    Verdict true = Walk ts source target
    Verdict false = ¬ Walk ts source target

    search_loop-Verdict :
        (fuel : ℕ) (visited queue : List S) {found : Bool}
        → Inv ts source target visited queue
        → search_loop ts target fuel visited queue ≡ some found
        → Verdict found
    unfolding search_loop
    search_loop-Verdict zero visited [] {found} h e =
        let q : false ≡ found = ground arith in rw (← q) (unreachable visited h)
    search_loop-Verdict zero visited (s ∷ queue) h e = cc
    search_loop-Verdict (suc fuel) visited [] {found} h e =
        let q : false ≡ found = ground arith in rw (← q) (unreachable visited h)
    search_loop-Verdict (suc fuel) visited (s ∷ queue) {found} h e =
        elim (Bool-cases (s == target)) [
          | inl hit ↦
              let q : true ≡ found = ground arith in
              let there : s ≡ target = (eqS.beq_iff s target).0 hit in
              rw (← q) (rw (← there) (h.sound s (ground (arith, beq_refl s))))
          | inr miss ↦ elim (Bool-cases (contains visited s)) [
            | inl old ↦
                search_loop-Verdict fuel visited queue (Inv-skip s visited queue old h)
                  (ground arith)
            | inr new ↦
                search_loop-Verdict fuel (s ∷ visited) (enqueue s (s ∷ visited) queue ts)
                  (Inv-visit s visited queue miss h) (ground arith)
          ]
        ]

module _ {S E C W : Type 0} ⦃eqS : Eq S⦄ ⦃eqE : Eq E⦄ where
  -- CanReach always answers, true with a walk over registered transitions, or false where no walk
  -- leads from the one state to the other.
  pub can_reach_decides :
      (sm : StateMachine S E C W) (source target : S)
      → ((can_reach sm source target ≡ some true) × Walk sm.transitions source target)
        ⊎ ((can_reach sm source target ≡ some false) × (¬ Walk sm.transitions source target))
  unfolding can_reach
  can_reach_decides sm source target =
      let (found, e) = can_reach_returns sm source target in
      go found e (
        search_loop-Verdict sm.transitions source target (suc (length sm.transitions)) []
          (source ∷ []) (Inv-start sm.transitions source target) e)
    where
      go :
          (found : Bool)
          → can_reach sm source target ≡ some found
          → Verdict sm.transitions source target found
          → ((can_reach sm source target ≡ some true) × Walk sm.transitions source target)
            ⊎ ((can_reach sm source target ≡ some false) × (¬ Walk sm.transitions source target))
      go true e v = inl (e, v)
      go false e v = inr (e, v)
