-- ===== src/Domain/Execution.antt =====
-- internal/domain/eval_execution.go.
use eval_prompt.Prelude.{
  ℕ, Option, none, some, List, if◌then◌else◌, nat_eq, list_eq, Text, text, is_empty,
}
use eval_prompt.Prelude.Int.{ℤ}
use eval_prompt.Prelude.Values.{Fraction}
use eval_prompt.Domain.Errors.{Failure, plain}

pub data ExecutionMode : Type 0 where
  single batch matrix : ExecutionMode

pub data ExecutionStatus : Type 0 where
  pending running completed partial_failure failed cancelled : ExecutionStatus

-- The run counts are counts, and never negative.
pub record EvalExecution : Type 0 where
  pub id : Text
  pub asset_id : Text
  pub snapshot_id : Text
  pub mode : ExecutionMode
  pub runs_per_case : ℕ
  pub case_ids : List Text
  pub total_runs : ℕ
  pub completed_runs : ℕ
  pub failed_runs : ℕ
  pub cancelled_runs : ℕ
  pub status : ExecutionStatus
  pub concurrency : ℤ
  pub model : Text
  pub temperature : Fraction
  pub created_at : ℕ
  pub started_at : Option ℕ
  pub completed_at : Option ℕ

unfoldable pub validate : EvalExecution → Option Failure
validate e =
    if is_empty e.id
    then some (plain (text "execution ID is required"))
    else if is_empty e.asset_id
    then some (plain (text "asset ID is required"))
    else if is_empty e.case_ids
    then some (plain (text "case IDs cannot be empty"))
    else none

-- The constants WorkItemStatusPending, …Running, …Completed, …Failed and …Cancelled.
pub data WorkItemStatus : Type 0 where
  item_pending item_running item_completed item_failed item_cancelled : WorkItemStatus

pub record EvalWorkItem : Type 0 where
  pub id : Text
  pub execution_id : Text
  pub case_id : Text
  pub run_number : ℕ
  pub status : WorkItemStatus
  pub prompt_hash : Text
  pub prompt_text : Text
  pub response : Text
  pub model : Text
  pub temperature : Fraction
  pub tokens_in : ℤ
  pub tokens_out : ℤ
  pub duration_ms : ℤ
  pub error : Text
  pub created_at : ℕ
  pub completed_at : Option ℕ
