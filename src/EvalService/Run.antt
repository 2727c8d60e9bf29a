-- ===== src/EvalService/Run.antt =====
-- RunEval of internal/service/eval_service.go as a whole: the guards, the execution, its runs and the
-- calls of the stores.
use eval_prompt.Prelude.{
  ℕ, suc, ◌*◌, ◌⊎◌, inl, inr, not, none, some, List, [], ◌∷◌, ◌++◌, map, if◌then◌else◌, length,
  nat_eq, list_eq, Text, text, is_empty,
}
use eval_prompt.Prelude.Int.{ℤ}
use eval_prompt.Domain.Execution.{ExecutionStatus, EvalExecution}
use eval_prompt.EvalService.{
  RunEvalRequest, EvalCaseInfo, Reply, EvalService, Floats, load_eval_cases_for_run, work_items,
  RunOutcome, perform_run, Totals, no_runs, tally, final_status, overall_score, failed_run,
  completed_run,
}

-- What RunEval asks of the stores, in order; of these calls only an error of the first ends it.
pub data StoreCall : Type 0 where
  save_execution : EvalExecution → StoreCall
  append_failed_call : Text → ℕ → Text → StoreCall
  append_successful_call : Text → ℕ → Reply → StoreCall
  update_status : Text → ExecutionStatus → StoreCall
  update_progress : Text → ℕ → ℕ → ℕ → StoreCall
  update_asset_eval_history : EvalExecution → ℤ → Totals → StoreCall

-- The runs of all items, numbered from `idx`, each with its case and the number of the run.
unfoldable pub perform_runs :
    EvalService → RunEvalRequest → ℕ → List (EvalCaseInfo × ℕ) → List (Text × ℕ × RunOutcome)
perform_runs s req idx [] = []
perform_runs s req idx ((c, run) ∷ items) =
    (c.id, run, perform_run s req idx c) ∷ perform_runs s req (suc idx) items

-- The call that a run appends.
unfoldable pub append_call : Text × ℕ × RunOutcome → StoreCall
append_call (case_id, run, failed_run err) = append_failed_call case_id run err
append_call (case_id, run, completed_run reply _ _ _) = append_successful_call case_id run reply

abbrev pub outcome : Text × ℕ × RunOutcome → RunOutcome
outcome (_, _, o) = o

unfoldable pub new_execution : Text → ℕ → RunEvalRequest → List EvalCaseInfo → EvalExecution
new_execution id now req cases = record {
  id = id;
  asset_id = req.asset_id;
  snapshot_id = req.snapshot_version;
  mode = req.mode;
  runs_per_case = req.runs_per_case;
  case_ids = if is_empty req.eval_case_ids then map (λ c. c.id) cases else req.eval_case_ids;
  total_runs = length cases * req.runs_per_case;
  completed_runs = 0;
  failed_runs = 0;
  cancelled_runs = 0;
  status = ExecutionStatus.running;
  concurrency = req.concurrency;
  model = req.model;
  temperature = req.temperature;
  created_at = now;
  started_at = none;
  completed_at = none;
}

-- The end of RunEval, after the runs.
unfoldable pub conclude_eval : Floats → ℕ → EvalExecution → Totals → EvalExecution × List StoreCall
unfolding final_status overall_score
conclude_eval f now exec0 t =
    let exec = record exec0 {
      status = final_status t;
      completed_runs = t.completed;
      failed_runs = t.failed;
      completed_at = some now;
    } in
    (
      exec,
      update_status exec.id (final_status t)
          ∷ update_progress exec.id t.completed t.failed 0
          ∷ update_asset_eval_history exec (overall_score f exec.total_runs t) t
          ∷ [],
    )

-- RunEval with its runs in the order of the items; `inr` is the error, and the calls of the
-- stores are listed in both cases. The times are those of the start and of the end.
unfoldable pub run_eval :
    EvalService → Floats → Text → ℕ → ℕ → RunEvalRequest → (EvalExecution ⊎ Text) × List StoreCall
unfolding conclude_eval perform_runs append_call new_execution load_eval_cases_for_run work_items
    tally
run_eval s f id now later req =
    if not s.has_invoker
    then (inr (text "LLM invoker not configured"), [])
    else if not s.has_execution_store
    then (inr (text "execution store not configured"), [])
    else if not s.has_call_store
    then (inr (text "call store not configured"), [])
    else elim (load_eval_cases_for_run s req.asset_id req.eval_case_ids) [
      | inr err ↦ (inr err, [])
      | inl cases ↦
          if is_empty cases
          then (inr (text "no eval cases found for asset " ++ req.asset_id), [])
          else (let exec = new_execution id now req cases in
              elim (s.save exec) [
                | some err ↦
                    (inr (text "failed to save execution: " ++ err), save_execution exec ∷ [])
                | none ↦
                    let runs = perform_runs s req 0 (work_items cases req.runs_per_case) in
                    let (done, calls) =
                      conclude_eval f later exec (tally (map outcome runs) no_runs) in
                    (inl done, (save_execution exec ∷ map append_call runs) ++ calls)
              ])
    ]
