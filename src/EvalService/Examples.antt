-- ===== src/EvalService/Examples.antt =====
-- Runs of RunEval of internal/service/eval_service.go.
use eval_prompt.Prelude.{
  ◌+◌, ◌*◌, ◌/◌, ◌≡◌, refl, inl, inr, true, none, some, List, [], ◌∷◌, if◌then◌else◌, ◌==◌, nat_eq,
  list_eq, text,
}
use eval_prompt.Prelude.Int.{pos}
use eval_prompt.Domain.Execution.{ExecutionMode, ExecutionStatus, EvalExecution}
use eval_prompt.EvalService.Run.{new_execution, run_eval}
use eval_prompt.EvalService.{
  RunEvalRequest, EvalCaseInfo, Reply, EvalService, Floats, RunOutcome, perform_run, no_runs,
  add_run, tally, failed_run, completed_run,
}
use eval_prompt.Prelude.Shuffle.{swap}
use eval_prompt.EvalService.Tally.{tally-Shuffle}
use eval_prompt.EvalService.Outcome.{run_eval_accounts}

-- A model that answers the first run and fails at the others.
abbrev service : EvalService
service = record {
  has_invoker = true;
  has_execution_store = true;
  has_call_store = true;
  read_eval_case = λ id. inl id;
  load_test_cases = λ _. inr (text "no file");
  save = λ _. none;
  read_prompt = λ _ _. inl (text "be kind");
  invoke = λ idx _ _ _. if idx == 0 then inl reply else inr (text "busy");
  runner = none;
}
  where
    reply : Reply
    reply = record {
      content = text "hi";
      tokens_in = pos 2;
      tokens_out = pos 1;
      latency_ms = pos 9;
    }

abbrev floats : Floats
floats = record {
  rate = λ completed total. pos (completed * 100 / total);
  blend = λ _ _ rubric. rubric;
  lower = λ rate exact completed. rate;
}

abbrev request : RunEvalRequest
request = record {
  asset_id = text "a1";
  snapshot_version = text "v1";
  eval_case_ids = text "c1" ∷ [];
  mode = ExecutionMode.batch;
  runs_per_case = 2;
  concurrency = pos 0;
  model = text "m";
  temperature = record { num = pos 0; den = 1 };
}

abbrev cases : List EvalCaseInfo
cases =
    record {
      id = text "c1";
      content = text "c1";
      expected = [];
      rubric = record { max_score = pos 0; checks = [] };
    }
    ∷ []

abbrev finished : EvalExecution
finished = record (new_execution (text "e1") 1 request cases) {
  status = ExecutionStatus.partial_failure;
  completed_runs = 1;
  failed_runs = 1;
  completed_at = some 2;
}

evaluated_run : (run_eval service floats (text "e1") 1 2 request).0 ≡ inl finished
unfolding run_eval add_run perform_run
evaluated_run = refl

run_eval_accounts_example :
    (finished.completed_runs + finished.failed_runs ≡ finished.total_runs)
    × (finished.cancelled_runs ≡ 0)
    × (finished.completed_at ≡ some 2)
    × (finished.status ≡ ExecutionStatus.partial_failure)
run_eval_accounts_example =
    run_eval_accounts service floats (text "e1") 1 2 request finished evaluated_run

abbrev ended : List RunOutcome
ended =
    failed_run (text "busy")
    ∷ completed_run
        (record { content = []; tokens_in = pos 1; tokens_out = pos 1; latency_ms = pos 4 }) true
        (pos 0) []
    ∷ []

abbrev other_order : List RunOutcome
other_order =
    completed_run
      (record { content = []; tokens_in = pos 1; tokens_out = pos 1; latency_ms = pos 4 }) true
      (pos 0) []
    ∷ failed_run (text "busy")
    ∷ []

tally-Shuffle_example : tally ended no_runs ≡ tally other_order no_runs
tally-Shuffle_example = tally-Shuffle no_runs swap
