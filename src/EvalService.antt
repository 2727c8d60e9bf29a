-- ===== src/EvalService.antt =====
-- RunEval of internal/service/eval_service.go: the runs of an evaluation, their tally, the scores
-- and the status. The fields of RunEvalRequest that RunEval does not read otherwise go into the
-- execution unchanged.
pub mod Tally
pub mod Run
pub mod Outcome
mod Examples
use eval_prompt.Prelude.{
  ℕ, zero, suc, ◌⊎◌, inl, inr, Bool, not, ◌&&◌, ◌||◌, Option, none, some, List, [], ◌∷◌, ◌++◌, ltb,
  if◌then◌else◌, ◌==◌, nat_eq, list_eq, Text, text, is_empty,
}
use eval_prompt.Prelude.Int.{ℤ, ◌+ℤ◌, tdiv, ltb_ℤ, leb_ℤ, pos}
use eval_prompt.Prelude.Strings.{contains_text}
use eval_prompt.Prelude.Values.{Fraction}
use eval_prompt.Domain.EvalCase.{RubricCheck, Rubric}
use eval_prompt.Domain.Execution.{ExecutionMode, ExecutionStatus, EvalExecution}
use eval_prompt.Eval.Rubric.{RubricResult, RubricError}

pub record RunEvalRequest : Type 0 where
  pub asset_id : Text
  pub snapshot_version : Text
  pub eval_case_ids : List Text
  pub mode : ExecutionMode
  pub runs_per_case : ℕ
  pub concurrency : ℤ
  pub model : Text
  pub temperature : Fraction

pub record EvalCaseInfo : Type 0 where
  pub id : Text
  pub content : Text
  pub expected : Text
  pub rubric : Rubric

-- What is used of the model's response, with the latency of the call.
pub record Reply : Type 0 where
  pub content : Text
  pub tokens_in : ℤ
  pub tokens_out : ℤ
  pub latency_ms : ℤ

-- The stores, the model and the files. A read of a file and a call of the model may come out
-- differently for each run, whose index in the list of items is given.
pub record EvalService : Type 0 where
  pub has_invoker : Bool
  pub has_execution_store : Bool
  pub has_call_store : Bool
  pub read_eval_case : Text → Text ⊎ Text
  pub load_test_cases : Text → List EvalCaseInfo ⊎ Text
  pub save : EvalExecution → Option Text
  pub read_prompt : ℕ → Text → Text ⊎ Text
  pub invoke : ℕ → Text → Text → Fraction → Reply ⊎ Text
  pub runner : Option (ℕ → Text → Rubric → Text → RubricResult × Option RubricError)

-- float64 arithmetic: int(completed / total * 100); the score blended from the total of the
-- deterministic scores, the completed runs and the average rubric score; and the rate lowered by
-- the average deterministic score.
pub record Floats : Type 0 where
  pub rate : ℕ → ℕ → ℤ
  pub blend : ℕ → ℕ → ℤ → ℤ
  pub lower : ℤ → ℕ → ℕ → ℤ

-- loadEvalCasesForRun with explicit IDs: the loop over them.
unfoldable pub load_explicit : (Text → Text ⊎ Text) → List Text → List EvalCaseInfo ⊎ Text
load_explicit read [] = inl []
load_explicit read (case_id ∷ case_ids) =
    let rest = load_explicit read case_ids in
    elim (read case_id) [
      | inr err ↦ inr (text "failed to read eval case " ++ (case_id ++ (text ": " ++ err)))
      | inl content ↦ elim rest [
        | inr err ↦ inr err
        | inl cases ↦ inl (
            record {
              id = case_id;
              content = content;
              expected = [];
              rubric = record { max_score = pos 0; checks = [] };
            }
            ∷ cases)
      ]
    ]

unfoldable pub load_eval_cases_for_run : EvalService → Text → List Text → List EvalCaseInfo ⊎ Text
unfolding load_explicit
load_eval_cases_for_run s asset_id case_ids =
    if is_empty case_ids
    then s.load_test_cases asset_id
    else load_explicit s.read_eval_case case_ids

-- `if concurrency <= 0`, twice: the request's, the service's or 1.
unfoldable pub effective_concurrency : ℤ → ℤ → ℤ
effective_concurrency requested configured =
    if leb_ℤ requested (pos 0)
    then (if leb_ℤ configured (pos 0) then pos 1 else configured)
    else requested

-- The items: each case with the numbers of its runs.
unfoldable pub runs_of : EvalCaseInfo → ℕ → ℕ → List (EvalCaseInfo × ℕ)
runs_of c run zero = []
runs_of c run (suc left) = (c, run) ∷ runs_of c (suc run) left

unfoldable pub work_items : List EvalCaseInfo → ℕ → List (EvalCaseInfo × ℕ)
unfolding runs_of
work_items [] runs_per_case = []
work_items (c ∷ cs) runs_per_case = runs_of c 1 runs_per_case ++ work_items cs runs_per_case

-- How a run ends: it failed, or it is completed with what it adds to the totals. The flag says
-- whether the deterministic score is 1, the list of the rubric's checks whether there are any.
pub data RunOutcome : Type 0 where
  failed_run : Text → RunOutcome
  completed_run : Reply → Bool → ℤ → List RubricCheck → RunOutcome

unfoldable pub rubric_score_of : EvalService → ℕ → Text → Rubric → Text → ℤ
rubric_score_of s idx content rubric model = elim (s.runner) [
  | none ↦ pos 0
  | some run_rubric' ↦
      if is_empty rubric.checks then pos 0 else elim ((run_rubric' idx content rubric model).1) [
        | none ↦ (run_rubric' idx content rubric model).0.score
        | some _ ↦ pos 0
      ]
]

-- The body of a run's goroutine.
unfoldable pub perform_run : EvalService → RunEvalRequest → ℕ → EvalCaseInfo → RunOutcome
unfolding rubric_score_of
perform_run s req idx c = elim (s.read_prompt idx req.asset_id) [
  | inr err ↦ failed_run err
  | inl prompt ↦
      elim (s.invoke idx (prompt ++ (text "\n\n" ++ c.content)) req.model req.temperature) [
        | inr err ↦ failed_run err
        | inl reply ↦
            completed_run reply (is_empty c.expected || contains_text reply.content c.expected)
              (rubric_score_of s idx reply.content c.rubric req.model) c.rubric.checks
      ]
]

-- The variables behind the mutex; the deterministic total counts the runs with score 1.
pub record Totals : Type 0 where
  pub completed : ℕ
  pub failed : ℕ
  pub tokens_in : ℤ
  pub tokens_out : ℤ
  pub duration_ms : ℤ
  pub deterministic : ℕ
  pub rubric : ℤ
  pub rubric_runs : ℕ

abbrev pub no_runs : Totals
no_runs = record {
  completed = 0;
  failed = 0;
  tokens_in = pos 0;
  tokens_out = pos 0;
  duration_ms = pos 0;
  deterministic = 0;
  rubric = pos 0;
  rubric_runs = 0;
}

-- What one run does under the lock.
unfoldable pub add_run : RunOutcome → Totals → Totals
add_run (failed_run err) t = record t { failed = suc t.failed }
add_run (completed_run reply exact score checks) t =
    let counted = ltb_ℤ (pos 0) score || not (is_empty checks) in
    record t {
      completed = suc t.completed;
      tokens_in = t.tokens_in +ℤ reply.tokens_in;
      tokens_out = t.tokens_out +ℤ reply.tokens_out;
      duration_ms = t.duration_ms +ℤ reply.latency_ms;
      deterministic = if exact then suc t.deterministic else t.deterministic;
      rubric = if counted then t.rubric +ℤ score else t.rubric;
      rubric_runs = if counted then suc t.rubric_runs else t.rubric_runs;
    }

-- The runs take the lock in some order: the list is in that order.
unfoldable pub tally : List RunOutcome → Totals → Totals
tally [] t = t
tally (r ∷ rs) t = tally rs (add_run r t)

unfoldable pub final_status : Totals → ExecutionStatus
final_status t =
    if t.failed == 0
    then ExecutionStatus.completed
    else if t.completed == 0
    then ExecutionStatus.failed
    else ExecutionStatus.partial_failure

unfoldable pub average_rubric : Totals → ℤ
average_rubric t = if ltb 0 t.rubric_runs then tdiv t.rubric (pos t.rubric_runs) else pos 0

-- The overall score; the average of the deterministic scores is below 1 where not all are 1.
unfoldable pub overall_score : Floats → ℕ → Totals → ℤ
unfolding average_rubric
overall_score f total_runs t =
    let rate = if ltb 0 total_runs then f.rate t.completed total_runs else pos 0 in
    if ltb 0 t.rubric_runs && ltb 0 t.completed
    then f.blend t.deterministic t.completed (average_rubric t)
    else if ltb t.deterministic t.completed && ltb 0 t.completed
    then f.lower rate t.deterministic t.completed
    else rate
