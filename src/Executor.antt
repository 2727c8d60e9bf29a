-- ===== src/Executor.antt =====
-- The progress of an execution and the collection of results, internal/service/eval_executor.go.
pub mod Progress
pub mod Process
pub mod Pool
mod Examples
use eval_prompt.Prelude.{
  ℕ, ◌+◌, Bool, true, false, ◌&&◌, Option, none, some, List, [], ◌∷◌, ◌++◌, ltb, leb, if◌then◌else◌,
  ◌==◌, nat_eq, list_eq, Text,
}
use eval_prompt.Prelude.Int.{ℤ}
use eval_prompt.Prelude.Values.{Fraction}
use eval_prompt.Domain.EvalCase.{RubricCheckResult}
use eval_prompt.Domain.Execution.{
  ExecutionStatus, WorkItemStatus, EvalWorkItem, item_completed, item_failed, item_cancelled,
}

-- `context_done` says that the context was cancelled, `channel_closed` that cancelCh was closed.
pub record RunContext : Type 0 where
  pub context_done : Bool
  pub channel_closed : Bool
  pub status : ExecutionStatus
  pub completed : ℕ
  pub failed : ℕ
  pub cancelled : ℕ
  pub total : ℕ
  pub started_at : Option ℕ
  pub completed_at : Option ℕ

unfoldable pub new_run_context : RunContext
new_run_context = record {
  context_done = false;
  channel_closed = false;
  status = ExecutionStatus.pending;
  completed = 0;
  failed = 0;
  cancelled = 0;
  total = 0;
  started_at = none;
  completed_at = none;
}

abbrev pub is_cancelled : RunContext → Bool
is_cancelled rc = rc.channel_closed

-- Cancel closes cancelCh, which panics where it is closed already.
unfoldable pub cancel : RunContext → Option RunContext
cancel rc =
    if rc.channel_closed
    then none
    else some (record rc {
      context_done = true;
      channel_closed = true;
      status = ExecutionStatus.cancelled;
    })

unfoldable pub update_progress : ℕ → ℕ → ℕ → ℕ → RunContext → RunContext
update_progress completed failed cancelled now rc0 =
    let rc = record rc0 { completed = completed; failed = failed; cancelled = cancelled } in
    if leb rc.total (rc.completed + rc.failed + rc.cancelled)
    then (if ltb 0 rc.cancelled && (rc.completed == 0 && rc.failed == 0)
        then record rc { status = ExecutionStatus.cancelled; completed_at = some now }
        else if failed == 0
        then record rc { status = ExecutionStatus.completed; completed_at = some now }
        else if ltb 0 completed
        then record rc { status = ExecutionStatus.partial_failure; completed_at = some now }
        else record rc { status = ExecutionStatus.failed; completed_at = some now })
    else rc

unfoldable pub set_running : ℕ → RunContext → RunContext
set_running now rc = record rc { status = ExecutionStatus.running; started_at = some now }

unfoldable pub set_total : ℕ → RunContext → RunContext
set_total total rc = record rc { total = total }

unfoldable pub progress : RunContext → ℕ × ℕ × ℕ × ℕ
progress rc = (rc.completed, rc.failed, rc.cancelled, rc.total)

pub data RunStatus : Type 0 where
  run_pending run_running run_completed run_failed run_cancelled : RunStatus

pub record RunResult : Type 0 where
  pub work_item : EvalWorkItem
  pub status : RunStatus
  pub deterministic_score : Fraction
  pub rubric_score : ℤ
  pub rubric_details : List RubricCheckResult
  pub error : Text

-- What collectResults asks the repositories to do.
pub data Call : Type 0 where
  store_result : EvalWorkItem → WorkItemStatus → ℕ → Call
  store_progress : ℕ → ℕ → ℕ → Call

-- One result: the progress by its status.
unfoldable pub count_result : RunStatus → ℕ → RunContext → RunContext
unfolding update_progress
count_result run_completed now rc = update_progress 1 0 0 now rc
count_result run_failed now rc = update_progress 0 1 0 now rc
count_result run_cancelled now rc = update_progress 0 0 1 now rc
count_result run_pending now rc = update_progress 0 1 0 now rc
count_result run_running now rc = update_progress 0 1 0 now rc

unfoldable pub item_status : RunStatus → WorkItemStatus
item_status run_completed = item_completed
item_status run_cancelled = item_cancelled
item_status run_pending = item_failed
item_status run_running = item_failed
item_status run_failed = item_failed

-- The loop over the results, each with the time of its arrival; the two flags say whether the
-- repositories are there. Errors of the repositories are logged and dropped.
unfoldable pub collect_results :
    Bool → Bool → List (RunResult × ℕ) → RunContext → RunContext × List Call
collect_results item_repo execution_repo [] rc = (rc, [])
collect_results item_repo execution_repo ((r, now) ∷ rs) rc =
    let rc' = count_result r.status now rc in
    let (last, calls) = collect_results item_repo execution_repo rs rc' in
    (
      last,
      (if item_repo then store_result r.work_item (item_status r.status) now ∷ [] else [])
          ++ ((if execution_repo
                then store_progress rc'.completed rc'.failed rc'.cancelled ∷ []
                else [])
              ++ calls),
    )
