-- ===== src/Executor/Process.antt =====
-- What a worker does with one work item: processItem and markCancelled of
-- internal/service/eval_executor.go.
pub mod Item
pub mod Outcome
pub mod Plugin
use eval_prompt.Prelude.{
  ℕ, ◌*◌, ◌⊎◌, Bool, ◌&&◌, Option, none, some, List, [], ◌∷◌, ◌++◌, map, if◌then◌else◌, Text, text,
  is_empty,
}
use eval_prompt.Prelude.Int.{ℤ, ◌*ℤ◌, leb_ℤ, mul64, quo64, pos}
use eval_prompt.Prelude.Values.{Fraction}
use eval_prompt.Domain.Types.{EntityId}
use eval_prompt.Domain.EvalCase.{RubricCheck, Rubric, RubricCheckResult, EvalCase}
use eval_prompt.Domain.EvalRun.{EvalRun}
use eval_prompt.Domain.Execution.{WorkItemStatus, EvalWorkItem, item_failed, item_cancelled}
use eval_prompt.Eval.Assertions.{TraceEvent, DeterministicCheck}
use eval_prompt.Eval.Deterministic.{DeterministicResult}
use eval_prompt.Eval.Rubric.{RubricResult, RubricError}
use eval_prompt.Executor.{RunStatus, RunResult, run_failed, run_cancelled}

-- What the worker uses of service.LLMResponse.
pub record LlmResponse : Type 0 where
  pub content : Text
  pub tokens_in : ℤ
  pub tokens_out : ℤ

-- The interface EvalRunner with the model already given; no result is a panic.
pub record Runner : Type 0 where
  pub deterministic :
      List TraceEvent → List DeterministicCheck → Option (DeterministicResult × Option Text)
  pub rubric : Text → Rubric → Text → RubricResult × Option RubricError

-- What the worker calls. GetByID gives an error, a case, or neither, as the repository without a
-- client does; Invoke gives an error or a response. The model and the runner may be nil, and the two
-- flags say whether the repositories of work items and runs are there.
pub record Services : Type 0 where
  pub is_valid_ulid : Text → Bool
  pub hash_prompt : Text → Text
  pub get_case : Text → Option EvalCase ⊎ Text
  pub llm : Option (Text → Text → Fraction → LlmResponse ⊎ Text)
  pub runner : Option Runner
  pub has_items : Bool
  pub has_runs : Bool

-- What one call of processItem reads from outside: the execution's fields, whether one of the two
-- channels of cancellation is closed, the new run's ID, the time and the duration of the call.
pub record Setting : Type 0 where
  pub snapshot_id : Text
  pub model : Text
  pub temperature : Fraction
  pub is_cancelled : Bool
  pub run_id : EntityId
  pub now : ℕ
  pub duration_ms : ℤ

-- What the worker asks for, in order; the errors of the repositories are logged and dropped.
pub data Effect : Type 0 where
  update_status : Text → WorkItemStatus → Effect
  update_result : EvalWorkItem → WorkItemStatus → ℕ → Effect
  create_run : EvalRun → Effect
  send : RunResult → Effect

abbrev pub when : Bool → Effect → List Effect
when b e = if b then e ∷ [] else []

-- A result that carries no scores.
abbrev pub bare_result : EvalWorkItem → RunStatus → Text → RunResult
bare_result item status error = record {
  work_item = item;
  status = status;
  deterministic_score = record { num = pos 0; den = 1 };
  rubric_score = pos 0;
  rubric_details = [];
  error = error;
}

-- The item goes to the repository with no response, and its own fields stay.
unfoldable pub mark_cancelled : Services → ℕ → EvalWorkItem → EvalWorkItem × List Effect
mark_cancelled s now item0 =
    let item = record item0 {
      status = item_cancelled;
      completed_at = some now;
      error = text "cancelled";
    } in
    let stored = record item {
      response = [];
      tokens_in = pos 0;
      tokens_out = pos 0;
      duration_ms = pos 0;
    } in
    (
      item,
      when s.has_items (update_result stored item_cancelled now)
          ++ (send (bare_result item run_cancelled (text "cancelled")) ∷ []),
    )

-- The branches that end with an error.
unfoldable pub fail_item : Text → EvalWorkItem → EvalWorkItem × List Effect
fail_item error item0 =
    let item = record item0 { status = item_failed; error = error } in
    (item, send (bare_result item run_failed error) ∷ [])

unfoldable pub check_of : RubricCheck → DeterministicCheck
check_of c = record {
  id = c.id;
  check_type = text "content_contains";
  path = [];
  expected = c.description;
  json_path = [];
}

-- The deterministic score; the trace given to the runner is nil.
unfoldable pub deterministic_score : Services → List RubricCheck → Option Fraction
unfolding check_of
deterministic_score s checks = elim (s.runner) [
  | none ↦ some (record { num = pos 1; den = 1 })
  | some r ↦
      if is_empty checks
      then some (record { num = pos 1; den = 1 })
      else elim (r.deterministic [] (map check_of checks)) [
        | none ↦ none
        | some (result, none) ↦ some (result.score)
        | some (result, some err) ↦ some (record { num = pos 1; den = 1 })
      ]
]

-- The rubric score and its details.
unfoldable pub rubric_score : Services → Text → Rubric → Text → ℤ × List RubricCheckResult
rubric_score s response rubric model = elim (s.runner) [
  | none ↦ (pos 0, [])
  | some r ↦ elim (s.llm) [
    | none ↦ (pos 0, [])
    | some _ ↦
        if is_empty rubric.checks then (pos 0, []) else elim ((r.rubric response rubric model).1) [
          | none ↦
              ((r.rubric response rubric model).0.score, (r.rubric response rubric model).0.details)
          | some err ↦ (pos 0, [])
        ]
  ]
]

-- deterministicScore >= 0.8 && rubricScore >= MaxScore*80/100, with the 64-bit wrap-around.
unfoldable pub passes : Rubric → Fraction → ℤ → Bool
passes rubric deterministic score =
    leb_ℤ (pos (8 * deterministic.den)) (pos 10 *ℤ deterministic.num)
    && leb_ℤ (quo64 (mul64 rubric.max_score (pos 80)) (pos 100)) score
