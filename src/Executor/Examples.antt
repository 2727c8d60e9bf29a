-- ===== src/Executor/Examples.antt =====
-- Runs of the executor of internal/service/eval_executor.go.
use eval_prompt.Prelude.{
  ℕ, ◌+◌, ◌≤◌, ◌<◌, ◌≡◌, refl, ◌⊎◌, inl, true, false, Option, none, some, List, [], ◌∷◌, arith,
  ◌==◌, nat_eq, list_eq, text,
}
use eval_prompt.Prelude.Int.{pos}
use eval_prompt.Prelude.Values.{Fraction}
use eval_prompt.Domain.EvalCase.{EvalCase}
use eval_prompt.Domain.Execution.{ExecutionStatus, EvalWorkItem, item_pending}
use eval_prompt.Eval.Assertions.{Platform}
use eval_prompt.Executor.{
  RunContext, new_run_context, set_running, set_total, RunResult, collect_results, run_completed,
}
use eval_prompt.Executor.Progress.{collect_results_stuck}
use eval_prompt.Executor.Process.Item.{run_item}
use eval_prompt.Executor.Process.{Runner, Services, Setting, deterministic_score}
use eval_prompt.Executor.Process.Outcome.{Ends, run_item-Ends}
use eval_prompt.Executor.Process.Plugin.{
  plugin_runner, plugin_deterministic_score, RunsFail, run_item-RunsFail,
}
use eval_prompt.Executor.Pool.{
  Pool, start_pool, Step, Reachable, Waited, produce, close_queue, take_item, send_result, leave,
  started, stepped,
}
use eval_prompt.Executor.Pool.Exactly.{count, in_pool-Waited}
use eval_prompt.Executor.Pool.Progress.{work, work-Step, Step-or_Waited}

abbrev zero_point : Fraction
zero_point = record { num = pos 0; den = 1 }

abbrev item : EvalWorkItem
item = record {
  id = text "w1";
  execution_id = text "e1";
  case_id = text "c1";
  run_number = 1;
  status = item_pending;
  prompt_hash = [];
  prompt_text = [];
  response = [];
  model = text "m";
  temperature = zero_point;
  tokens_in = pos 0;
  tokens_out = pos 0;
  duration_ms = pos 0;
  error = [];
  created_at = 0;
  completed_at = none;
}

abbrev eval_case : EvalCase
eval_case = record {
  id = record { value = text "c1" };
  asset_id = record { value = text "a1" };
  name = text "greets";
  prompt = text "say hi";
  should_trigger = true;
  expected_output = [];
  rubric = record {
    max_score = pos 100;
    checks = record { id = text "k"; description = text "hi"; weight = pos 1 } ∷ [];
  };
  created_at = 0;
  version = 0;
}

abbrev bare : Platform
bare = record {
  file_exists = λ _. false;
  is_json_object = λ _. false;
  parse_json = λ _. none;
  print_value = λ _. [];
  scan_int = λ _. pos 0;
}

-- A model that always answers, with the runner of the plugin or with none.
abbrev services : Option Runner → Services
services runner = record {
  is_valid_ulid = λ _. true;
  hash_prompt = λ prompt. prompt;
  get_case = λ _. inl (some eval_case);
  llm = some (λ _ _ _. inl (record { content = text "hi"; tokens_in = pos 2; tokens_out = pos 1 }));
  runner = runner;
  has_items = true;
  has_runs = true;
}

abbrev setting : Setting
setting = record {
  snapshot_id = text "s1";
  model = text "m";
  temperature = zero_point;
  is_cancelled = false;
  run_id = record { value = text "r1" };
  now = 7;
  duration_ms = pos 3;
}

run_item-Ends_example : Ends (run_item false (services none) setting item)
unfolding deterministic_score
run_item-Ends_example =
    run_item-Ends false (services none) setting item refl (λ checks e. cc) (λ e. cc) (λ e. cc)

plugin_deterministic_score_example :
    deterministic_score (services (some (plugin_runner bare none))) eval_case.rubric.checks
    ≡ some (record { num = pos 0; den = 1 })
plugin_deterministic_score_example =
    plugin_deterministic_score bare none (services (some (plugin_runner bare none)))
      eval_case.rubric.checks refl

run_item-RunsFail_example :
    RunsFail (run_item false (services (some (plugin_runner bare none))) setting item)
run_item-RunsFail_example =
    run_item-RunsFail bare none (services (some (plugin_runner bare none))) refl false setting item
      eval_case refl refl

abbrev three_runs : RunContext
three_runs = set_total 3 (set_running 1 new_run_context)

abbrev done : RunResult
done = record {
  work_item = item;
  status = run_completed;
  deterministic_score = zero_point;
  rubric_score = pos 0;
  rubric_details = [];
  error = [];
}

abbrev three_results : List (RunResult × ℕ)
three_results = (done, 4) ∷ (done, 5) ∷ (done, 6) ∷ []

collect_results_stuck_example :
    ((collect_results true true three_results three_runs).0.completed
        + (collect_results true true three_results three_runs).0.failed
        + (collect_results true true three_results three_runs).0.cancelled
      ≤ 1)
    × ((collect_results true true three_results three_runs).0.status ≡ ExecutionStatus.running)
    × ((collect_results true true three_results three_runs).0.completed_at ≡ none)
unfolding set_total set_running new_run_context
collect_results_stuck_example =
    collect_results_stuck true true three_results three_runs (omega arith) (omega arith)

-- One worker and one item, with the number 5: produced, the channel closed, taken and sent.
abbrev one_item : List ℕ
one_item = 5 ∷ []

abbrev worked : Pool ℕ
worked = record {
  remaining = [];
  queue = [];
  closed = true;
  idle = 0;
  busy = [];
  results = 5 ∷ [];
  collected = [];
}

worked-Reachable : Reachable 1 1 one_item worked
unfolding start_pool
worked-Reachable =
    stepped
      (stepped
        (stepped
          (stepped (stepped started (produce 5 [] refl (omega arith))) (close_queue refl refl))
          (take_item 5 [] 0 refl refl))
        (send_result [] 5 [] refl (omega arith)))
      (leave 0 refl refl refl)

in_pool-Waited_example :
    count (λ i. i == 5) worked.results + count (λ i. i == 5) worked.collected
    ≡ count (λ i. i == 5) one_item
in_pool-Waited_example =
    in_pool-Waited (λ i. i == 5) 1 1 one_item worked (omega arith) worked-Reachable (refl, refl)

Step-or_Waited_example :
    ((q : Pool ℕ) × Step 1 (start_pool 2 one_item) q)
    ⊎ (Waited (start_pool 2 one_item) × ((start_pool 2 one_item).results ≡ []))
Step-or_Waited_example = Step-or_Waited 1 (start_pool 2 one_item) (omega arith)

first-Step :
    Step 1
      (start_pool 1 one_item)
      (record (start_pool 1 one_item) { remaining = []; queue = one_item })
unfolding start_pool
first-Step = produce 5 [] refl (omega arith)

work-Step_example :
    work (record (start_pool 1 one_item) { remaining = []; queue = one_item })
    < work (start_pool 1 one_item)
work-Step_example = work-Step 1 (start_pool 1 one_item) _ first-Step
