-- ===== src/Executor/Progress.antt =====
-- What the progress of internal/service/eval_executor.go says of an execution.
use eval_prompt.Prelude.{
  ℕ, zero, suc, ◌+◌, ◌≤◌, ◌≡◌, refl, Bool, none, some, List, [], ◌∷◌, arith, leb, if◌then◌else◌,
  nat_eq, list_eq,
}
use eval_prompt.Domain.Execution.{ExecutionStatus}
use eval_prompt.Executor.{
  RunContext, cancel, update_progress, progress, RunStatus, RunResult, count_result,
  collect_results, run_completed, run_cancelled,
}

-- The status that an execution with these counts of ended runs has in the end: cancelled if all
-- runs were, completed if none failed, failed if none was completed, and a partial failure else.
abbrev pub verdict : ℕ → ℕ → ℕ → ExecutionStatus
verdict zero zero (suc x) = ExecutionStatus.cancelled
verdict c zero x = ExecutionStatus.completed
verdict zero (suc f) x = ExecutionStatus.failed
verdict (suc c) (suc f) x = ExecutionStatus.partial_failure

-- UpdateProgress stores the counts and keeps the total. Where they add up to the total or more
-- it sets the verdict and the time of completion, and else it keeps both.
pub update_progress_lem :
    (c f x now : ℕ) (rc : RunContext)
    → (progress (update_progress c f x now rc) ≡ (c, f, x, rc.total))
      × ((update_progress c f x now rc).status
          ≡ (if leb rc.total (c + f + x) then verdict c f x else rc.status))
      × ((update_progress c f x now rc).completed_at
          ≡ (if leb rc.total (c + f + x) then some now else rc.completed_at))
unfolding update_progress progress
update_progress_lem zero zero zero now rc = ground arith
update_progress_lem zero zero (suc x) now rc = ground arith
update_progress_lem (suc c) zero x now rc = ground arith
update_progress_lem zero (suc f) x now rc = ground arith
update_progress_lem (suc c) (suc f) x now rc = ground arith

count_result_one :
    (s : RunStatus) (now : ℕ) (rc : RunContext)
    → let rc' = count_result s now rc in
      (rc'.completed + rc'.failed + rc'.cancelled ≡ 1)
      × (rc'.total ≡ rc.total)
      × (2 ≤ rc.total → (rc'.status ≡ rc.status) × (rc'.completed_at ≡ rc.completed_at))
unfolding count_result
count_result_one s now rc = ground arith

-- Each result overwrites the counts instead of adding to them. So with two runs or more, whatever
-- the results are and however many, the counts never add up to more than 1 after a result, and
-- the execution never gets its verdict: status and completion time stay as they were.
pub collect_results_stuck :
    (item_repo execution_repo : Bool) (rs : List (RunResult × ℕ)) (rc : RunContext)
    → 2 ≤ rc.total
    → rc.completed + rc.failed + rc.cancelled ≤ 1
    → let rc' = (collect_results item_repo execution_repo rs rc).0 in
      (rc'.completed + rc'.failed + rc'.cancelled ≤ 1)
      × (rc'.status ≡ rc.status)
      × (rc'.completed_at ≡ rc.completed_at)
unfolding collect_results
collect_results_stuck i e [] rc t h = (h, refl, refl)
collect_results_stuck i e ((r, now) ∷ rs) rc t h = ground (
  arith,
  count_result_one r.status now rc,
  collect_results_stuck i e rs (count_result r.status now rc),
)

-- With a single run the verdict is right: it is the one of the run's own status.
pub collect_results_single :
    (item_repo execution_repo : Bool) (r : RunResult) (now : ℕ) (rc : RunContext)
    → rc.total ≡ 1
    → (collect_results item_repo execution_repo ((r, now) ∷ []) rc).0.status ≡ elim (r.status) [
      | run_completed ↦ ExecutionStatus.completed
      | run_cancelled ↦ ExecutionStatus.cancelled
      | _ ↦ ExecutionStatus.failed
    ]
unfolding collect_results count_result
collect_results_single i e r now rc t = ground arith

-- A second Cancel panics.
pub cancel_twice_panics : (rc rc' : RunContext) → cancel rc ≡ some rc' → cancel rc' ≡ none
unfolding cancel
cancel_twice_panics rc rc' h = ground arith
