-- ===== src/Executor/Pool/Progress.antt =====
-- The pool of Execute (internal/service/eval_executor.go) neither blocks nor runs for ever.
use eval_prompt.Prelude.{
  ℕ, zero, suc, ◌+◌, ◌*◌, ◌≤◌, ◌<◌, ◌≡◌, refl, ◌⊎◌, inl, inr, List, [], ◌∷◌, arith, if◌then◌else◌,
  Bool-cases, length, length-append, List-cases, Text,
}
use eval_prompt.Executor.Pool.{
  items_of_case, produced_items, Pool, Step, Waited, produce, close_queue, take_item, send_result,
  collect, leave,
}

length-items_of_case :
    {A : Type 0} (make : Text → ℕ → A) (case_id : Text) (run_num n : ℕ)
    → length (items_of_case make case_id run_num n) ≡ n
unfolding items_of_case
length-items_of_case make case_id run_num zero = omega arith
length-items_of_case make case_id run_num (suc n) =
    omega (arith, length-items_of_case make case_id (suc run_num) n)

-- The producer makes RunsPerCase items for each case.
pub length-produced_items :
    {A : Type 0} (make : Text → ℕ → A) (case_ids : List Text) (runs_per_case : ℕ)
    → length (produced_items make case_ids runs_per_case) ≡ length case_ids * runs_per_case
unfolding produced_items
length-produced_items make [] n = omega arith
length-produced_items make (c ∷ cs) n = ground (
  arith,
  length-append (items_of_case make c 1 n) (produced_items make cs n),
  length-items_of_case make c 1 n,
  length-produced_items make cs n,
)

-- The steps that are left at most.
abbrev pub work : {A : Type 0} → Pool A → ℕ
work p =
    5 * length p.remaining
    + 4 * length p.queue
    + (if p.closed then 0 else 1)
    + p.idle
    + 3 * length p.busy
    + length p.results

module _ {A : Type 0} where
  -- Every step leaves less work, so that no sequence of steps is longer than the work at its start.
  pub work-Step : (total : ℕ) (p q : Pool A) → Step total p q → work q < work p
  work-Step total p _ (produce x xs e room) = ground (arith, length-append p.queue (x ∷ []))
  work-Step total p _ (close_queue e c) = ground arith
  work-Step total p _ (take_item x xs k e i) = ground arith
  work-Step total p _ (send_result before x after e room) = ground (
    arith,
    length-append before (x ∷ after),
    length-append before after,
    length-append p.results (x ∷ []),
  )
  work-Step total p _ (collect x xs e) = ground (arith, length-append p.collected (x ∷ []))
  work-Step total p _ (leave k e c i) = ground arith

  -- Where the channels have room for at least one element, the pool never blocks: a step can be
  -- taken, or all workers have returned and the results are collected.
  pub Step-or_Waited :
      (total : ℕ) (p : Pool A)
      → 1 ≤ total
      → ((q : Pool A) × Step total p q) ⊎ (Waited p × (p.results ≡ []))
  Step-or_Waited total p t = elim (List-cases p.results) [
    | inr (x, xs, e) ↦ inl (_, collect x xs e)
    | inl no_results ↦ elim (List-cases p.busy) [
      | inr (x, xs, e) ↦ inl (_, send_result [] x xs e (ground arith))
      | inl no_busy ↦ go p.idle refl (no_results, no_busy)
    ]
  ]
    where
      go :
          (k : ℕ)
          → p.idle ≡ k
          → (p.results ≡ []) × (p.busy ≡ [])
          → ((q : Pool A) × Step total p q) ⊎ (Waited p × (p.results ≡ []))
      go zero i (no_results, no_busy) = inr ((i, no_busy), no_results)
      go (suc k) i _ = elim (List-cases p.queue) [
        | inr (x, xs, e) ↦ inl (_, take_item x xs k e i)
        | inl no_queue ↦ elim (List-cases p.remaining) [
          | inr (x, xs, e) ↦ inl (_, produce x xs e (ground arith))
          | inl no_remaining ↦ elim (Bool-cases p.closed) [
            | inl c ↦ inl (_, leave k no_queue c i)
            | inr c ↦ inl (_, close_queue no_remaining c)
          ]
        ]
      ]
