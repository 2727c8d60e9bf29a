-- ===== src/Domain/EvalRun.antt =====
-- internal/domain/eval_run.go.
use eval_prompt.Prelude.{
  ℕ, Bool, true, false, Option, none, some, List, [], if◌then◌else◌, nat_eq, list_eq, Text, text,
}
use eval_prompt.Prelude.Int.{ℤ, pos}
use eval_prompt.Prelude.Values.{Fraction}
use eval_prompt.Domain.Errors.{
  Failure, snapshot_not_found, eval_case_not_found, new_domain_error, err_invalid_id, domain,
}
use eval_prompt.Domain.Types.{EntityId, id_is_empty}
use eval_prompt.Domain.EvalCase.{RubricCheckResult}

pub data EvalRunStatus : Type 0 where
  pending running passed failed : EvalRunStatus

pub record EvalRun : Type 0 where
  pub id : EntityId
  pub eval_case_id : EntityId
  pub snapshot_id : EntityId
  pub status : EvalRunStatus
  pub deterministic_score : Fraction
  pub rubric_score : ℤ
  pub rubric_details : List RubricCheckResult
  pub trace_path : Text
  pub token_input : ℤ
  pub token_output : ℤ
  pub duration_ms : ℤ
  pub created_at : ℕ

unfoldable pub validate : EvalRun → Option Failure
validate e =
    if id_is_empty e.id
    then some (domain (err_invalid_id e.id.value))
    else if id_is_empty e.eval_case_id
    then some (domain (new_domain_error eval_case_not_found (text "eval_case_id is required")))
    else if id_is_empty e.snapshot_id
    then some (domain (new_domain_error snapshot_not_found (text "snapshot_id is required")))
    else none

unfoldable pub is_passed : EvalRun → Bool
is_passed e = elim (e.status) [ passed ↦ true | _ ↦ false ]

unfoldable pub is_failed : EvalRun → Bool
is_failed e = elim (e.status) [ failed ↦ true | _ ↦ false ]

abbrev pub total_score : EvalRun → ℤ
total_score e = e.rubric_score

unfoldable pub new_eval_run : EntityId → EntityId → EntityId → ℕ → EvalRun
new_eval_run id eval_case_id snapshot_id now = record {
  id = id;
  eval_case_id = eval_case_id;
  snapshot_id = snapshot_id;
  status = pending;
  deterministic_score = record { num = pos 0; den = 1 };
  rubric_score = pos 0;
  rubric_details = [];
  trace_path = [];
  token_input = pos 0;
  token_output = pos 0;
  duration_ms = pos 0;
  created_at = now;
}

unfoldable pub start : EvalRun → EvalRun
start e = record e { status = running }

unfoldable pub complete : Fraction → ℤ → Bool → EvalRun → EvalRun
complete deterministic_score rubric_score did_pass e = record e {
  deterministic_score = deterministic_score;
  rubric_score = rubric_score;
  status = if did_pass then passed else failed;
}

unfoldable pub fail : EvalRun → EvalRun
fail e = record e { status = failed }
