-- ===== src/Executor/Process/Item.antt =====
-- processItem and the body of runLoop in internal/service/eval_executor.go: one work item from
-- start to end.
use eval_prompt.Prelude.{
  inl, inr, Bool, Option, none, some, List, [], ◌∷◌, ◌++◌, if◌then◌else◌, text,
}
use eval_prompt.Prelude.Int.{ℤ}
use eval_prompt.Prelude.Values.{Fraction}
use eval_prompt.Domain.Types.{EntityId, new_id}
use eval_prompt.Domain.EvalCase.{RubricCheckResult, EvalCase}
use eval_prompt.Domain.EvalRun.{new_eval_run, complete}
use eval_prompt.Domain.Execution.{EvalWorkItem, item_running, item_completed}
use eval_prompt.Executor.{run_completed}
use eval_prompt.Executor.Process.{
  Services, Setting, Effect, when, mark_cancelled, fail_item, deterministic_score, rubric_score,
  passes, update_status, update_result, create_run, send,
}

-- The end of processItem, with the snapshot's ID: the run, the item and the result.
unfoldable pub record_run :
    Services
    → Setting
    → EvalCase
    → Fraction
    → ℤ × List RubricCheckResult
    → EntityId
    → EvalWorkItem
    → EvalWorkItem × List Effect
unfolding passes new_eval_run complete
record_run s at eval_case deterministic (score, details) snapshot item0 =
    let run =
      complete deterministic score (passes eval_case.rubric deterministic score)
        (record (new_eval_run at.run_id eval_case.id snapshot at.now) {
          rubric_details = details;
          token_input = item0.tokens_in;
          token_output = item0.tokens_out;
          duration_ms = item0.duration_ms;
        }) in
    let item = record item0 { status = item_completed } in
    (
      item,
      (when s.has_runs (create_run run)
            ++ when s.has_items (update_result item item_completed at.now))
          ++ (send (record {
            work_item = item;
            status = run_completed;
            deterministic_score = deterministic;
            rubric_score = score;
            rubric_details = details;
            error = [];
          })
              ∷ []),
    )

-- domain.MustNewID panics where the snapshot's ID is no ULID.
unfoldable pub finish :
    Services
    → Setting
    → EvalCase
    → Fraction
    → ℤ × List RubricCheckResult
    → EvalWorkItem
    → Option (EvalWorkItem × List Effect)
unfolding record_run new_id
finish s at eval_case deterministic scored item =
    let (snapshot, err) = new_id s.is_valid_ulid at.snapshot_id in
    elim err [
      | some _ ↦ none
      | none ↦ some (record_run s at eval_case deterministic scored snapshot item)
    ]

-- After the model's response.
unfoldable pub score_item :
    Services → Setting → EvalCase → EvalWorkItem → Option (EvalWorkItem × List Effect)
unfolding finish rubric_score deterministic_score
score_item s at eval_case item = elim (deterministic_score s eval_case.rubric.checks) [
  | none ↦ none
  | some d ↦ finish s at eval_case d (rubric_score s item.response eval_case.rubric item.model) item
]

-- After the case was found: the prompt, the second look for cancellation, and the call of the
-- model, which panics where it is nil.
unfoldable pub answer_item :
    Services → Setting → EvalCase → EvalWorkItem → Option (EvalWorkItem × List Effect)
unfolding score_item mark_cancelled fail_item
answer_item s at eval_case item0 =
    let item = record item0 {
      prompt_text = eval_case.prompt;
      prompt_hash = s.hash_prompt eval_case.prompt;
      model = at.model;
      temperature = at.temperature;
    } in
    if at.is_cancelled then some (mark_cancelled s at.now item) else elim (s.llm) [
      | none ↦ none
      | some invoke ↦ elim (invoke eval_case.prompt at.model at.temperature) [
        | inr err ↦ some (fail_item (text "LLM invocation failed: " ++ err) item)
        | inl response ↦ score_item s at eval_case (record item {
          response = response.content;
          tokens_in = response.tokens_in;
          tokens_out = response.tokens_out;
          duration_ms = at.duration_ms;
        })
      ]
    ]

-- The item at the end and the effects; `none` is a panic, as where there is neither a case nor an
-- error.
unfoldable pub process_item :
    Services → Setting → EvalWorkItem → Option (EvalWorkItem × List Effect)
unfolding answer_item fail_item
process_item s at item0 =
    let item = record item0 { status = item_running } in
    let started = when s.has_items (update_status item.id item_running) in
    elim (s.get_case item.case_id) [
      | inr err ↦
          let (item', effects) = fail_item (text "failed to get eval case: " ++ err) item in
          some (item', started ++ effects)
      | inl none ↦ none
      | inl (some eval_case) ↦ elim (answer_item s at eval_case item) [
        | none ↦ none
        | some (item', effects) ↦ some (item', started ++ effects)
      ]
    ]

-- One round of runLoop: the first look for cancellation, and the item.
unfoldable pub run_item :
    Bool → Services → Setting → EvalWorkItem → Option (EvalWorkItem × List Effect)
unfolding process_item mark_cancelled
run_item cancelled_before s at item =
    if cancelled_before then some (mark_cancelled s at.now item) else process_item s at item
