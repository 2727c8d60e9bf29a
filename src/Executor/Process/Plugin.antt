-- ===== src/Executor/Process/Plugin.antt =====
-- The worker of internal/service/eval_executor.go with the runner of plugins/eval/runner.go.
use eval_prompt.Prelude.{
  ℕ, suc, ◌<◌, ◌≡◌, refl, ap, ◌∙◌, ◌⊎◌, inl, inr, Bool, true, false, Option, none, some, List, [],
  ◌∷◌, ◌++◌, map, arith, if◌then◌else◌, if_elim, length, any, All, Text, text, is_empty,
}
use eval_prompt.Prelude.Int.{ℤ, ◌-ℤ◌, ◌*ℤ◌, pos}
use eval_prompt.Prelude.Values.{Fraction}
use eval_prompt.Domain.Errors.{Failure}
use eval_prompt.Domain.Types.{EntityId, new_id}
use eval_prompt.Domain.EvalCase.{RubricCheck, Rubric, RubricCheckResult, EvalCase}
use eval_prompt.Domain.EvalRun.{EvalRunStatus, EvalRun, complete}
use eval_prompt.Domain.Execution.{EvalWorkItem, item_running}
use eval_prompt.Eval.Assertions.{Platform, check_content_contains, run_check}
use eval_prompt.Eval.Deterministic.{
  DeterministicResult, run_deterministic, failing, panicking, failing_ids, share,
  run_deterministic_lem,
}
use eval_prompt.Eval.Rubric.{Grader, run_rubric}
use eval_prompt.Executor.Process.Item.{
  record_run, finish, score_item, answer_item, process_item, run_item,
}
use eval_prompt.Executor.Process.{
  LlmResponse, Runner, Services, Setting, Effect, when, mark_cancelled, fail_item, check_of,
  deterministic_score, rubric_score, passes, update_status, update_result, create_run, send,
}

abbrev pub with_no_error : Option DeterministicResult → Option (DeterministicResult × Option Text)
with_no_error none = none
with_no_error (some r) = some (r, none)

-- The runner of the eval plugin; its RunDeterministic never gives an error.
unfoldable pub plugin_runner : Platform → Option Grader → Runner
plugin_runner os grader = record {
  deterministic = λ trace checks. with_no_error (run_deterministic os trace checks);
  rubric = run_rubric grader;
}

-- On the empty trace a content check fails, and does not panic.
check_of-fails :
    (os : Platform) (c : RubricCheck)
    → (failing os [] (check_of c) ≡ true) × (panicking os [] (check_of c) ≡ false)
unfolding run_check check_of check_content_contains
check_of-fails os c = (refl, refl)

no_panic : (os : Platform) (cs : List RubricCheck) → any (panicking os []) (map check_of cs) ≡ false
no_panic os [] = refl
no_panic os (c ∷ cs) = ground (arith, (check_of-fails os c).1, no_panic os cs)

all_fail :
    (os : Platform) (cs : List RubricCheck)
    → length (failing_ids os [] (map check_of cs)) ≡ length cs
all_fail os [] = refl
all_fail os (c ∷ cs) = ground (arith, (check_of-fails os c).0, all_fail os cs)

length-map_check : (cs : List RubricCheck) → length (map check_of cs) ≡ length cs
length-map_check [] = refl
length-map_check (c ∷ cs) = ground (arith, length-map_check cs)

share-none : (n : ℕ) → share (suc n) (suc n) ≡ record { num = pos 0; den = suc n }
unfolding ◌-ℤ◌
share-none n = ground arith

-- With the plugin's runner the deterministic score of the executor is 1 where the eval case has no
-- checks, and 0 out of their number in every other case: the runner is given no trace, in which no
-- content check can find its text.
pub plugin_deterministic_score :
    (os : Platform) (grader : Option Grader) (s : Services) (cs : List RubricCheck)
    → s.runner ≡ some (plugin_runner os grader)
    → deterministic_score s cs
      ≡ some (
          if is_empty cs
          then record { num = pos 1; den = 1 }
          else record { num = pos 0; den = length cs })
unfolding deterministic_score plugin_runner
plugin_deterministic_score os grader s [] h = rw (h, deterministic_score) refl
plugin_deterministic_score os grader s (c ∷ cs) h =
    let (r, e, _, _, scored) =
      run_deterministic_lem os [] (map check_of (c ∷ cs)) (no_panic os (c ∷ cs)) in
    rw (h, e, deterministic_score)
      (ap some
        (scored ∙ rw (all_fail os (c ∷ cs), length-map_check (c ∷ cs)) (share-none (length cs))))

-- The runs that are recorded.
abbrev pub runs : List Effect → List EvalRun
runs [] = []
runs (create_run r ∷ es) = r ∷ runs es
runs (_ ∷ es) = runs es

runs-append : (es fs : List Effect) → runs (es ++ fs) ≡ runs es ++ runs fs
runs-append [] fs = refl
runs-append (create_run r ∷ es) fs = ap (λ l. r ∷ l) (runs-append es fs)
runs-append (update_status i s ∷ es) fs = runs-append es fs
runs-append (update_result i s t ∷ es) fs = runs-append es fs
runs-append (send r ∷ es) fs = runs-append es fs

passes-zero :
    (rubric : Rubric) (n : ℕ) (score : ℤ)
    → 0 < n
    → passes rubric (record { num = pos 0; den = n }) score ≡ false
unfolding passes ◌*ℤ◌
passes-zero rubric n score h = ground arith

length-pos : (cs : List RubricCheck) → is_empty cs ≡ false → 0 < length cs
length-pos [] h = absurd (ground arith)
length-pos (c ∷ cs) h = omega arith

-- The runs recorded all failed, if there is a result at all.
abbrev pub RunsFail : Option (EvalWorkItem × List Effect) → Type 0
RunsFail none = Unit
RunsFail (some (_, effects)) = All (λ r. r.status ≡ EvalRunStatus.failed) (runs effects)

record_run-RunsFail :
    (s : Services) (at : Setting) (eval_case : EvalCase) (d : Fraction)
    (score : ℤ × List RubricCheckResult) (snapshot : EntityId) (item : EvalWorkItem)
    → passes eval_case.rubric d score.0 ≡ false
    → RunsFail (some (record_run s at eval_case d score snapshot item))
unfolding record_run complete
record_run-RunsFail s at eval_case d score snapshot item h = ground arith

runs-when : (b : Bool) (e : Effect) → runs (e ∷ []) ≡ [] → runs (when b e) ≡ []
runs-when b e h = ground arith

mark_cancelled-RunsFail :
    (s : Services) (now : ℕ) (item : EvalWorkItem) → RunsFail (some (mark_cancelled s now item))
unfolding mark_cancelled
mark_cancelled-RunsFail s now item = ground arith

finish-RunsFail :
    (s : Services) (at : Setting) (eval_case : EvalCase) (d : Fraction)
    (score : ℤ × List RubricCheckResult) (item : EvalWorkItem)
    → passes eval_case.rubric d score.0 ≡ false
    → RunsFail (finish s at eval_case d score item)
unfolding finish
finish-RunsFail s at eval_case d score item h =
    let (snapshot, err) = new_id s.is_valid_ulid at.snapshot_id in by_error snapshot err
  where
    by_error :
        (snapshot : EntityId) (err : Option Failure)
        → RunsFail (elim err [
          | some _ ↦ none
          | none ↦ some (record_run s at eval_case d score snapshot item)
        ])
    by_error snapshot (some _) = tt
    by_error snapshot none = record_run-RunsFail s at eval_case d score snapshot item h

module _ (os : Platform) (grader : Option Grader) (s : Services)
    (plugged : s.runner ≡ some (plugin_runner os grader)) where
  score_item-RunsFail :
      (at : Setting) (eval_case : EvalCase) (item : EvalWorkItem)
      → is_empty eval_case.rubric.checks ≡ false
      → RunsFail (score_item s at eval_case item)
  unfolding score_item
  score_item-RunsFail at eval_case item h =
      let cs = eval_case.rubric.checks in
      let d : Fraction = record { num = pos 0; den = length cs } in
      let scored : deterministic_score s cs ≡ some d =
        plugin_deterministic_score os grader s cs plugged ∙ rw h refl in
      rw (scored, score_item)
        (finish-RunsFail s at eval_case d (rubric_score s item.response eval_case.rubric item.model)
          item (passes-zero eval_case.rubric (length cs) _ (length-pos cs h)))

  answer_item-RunsFail :
      (at : Setting) (eval_case : EvalCase) (item : EvalWorkItem)
      → is_empty eval_case.rubric.checks ≡ false
      → RunsFail (answer_item s at eval_case item)
  unfolding answer_item fail_item
  answer_item-RunsFail at eval_case item h =
      if_elim RunsFail at.is_cancelled (λ _. mark_cancelled-RunsFail s at.now filled)
        λ _. modelled s.llm
    where
      filled : EvalWorkItem
      filled = record item {
        prompt_text = eval_case.prompt;
        prompt_hash = s.hash_prompt eval_case.prompt;
        model = at.model;
        temperature = at.temperature;
      }

      responded : LlmResponse → EvalWorkItem
      responded response = record filled {
        response = response.content;
        tokens_in = response.tokens_in;
        tokens_out = response.tokens_out;
        duration_ms = at.duration_ms;
      }

      answered :
          (answer : LlmResponse ⊎ Text)
          → RunsFail (elim answer [
            | inr err ↦ some (fail_item (text "LLM invocation failed: " ++ err) filled)
            | inl response ↦ score_item s at eval_case (responded response)
          ])
      answered (inr err) = tt
      answered (inl response) = score_item-RunsFail at eval_case (responded response) h

      modelled :
          (llm : Option (Text → Text → Fraction → LlmResponse ⊎ Text))
          → RunsFail (elim llm [
            | none ↦ none
            | some invoke ↦ elim (invoke eval_case.prompt at.model at.temperature) [
              | inr err ↦ some (fail_item (text "LLM invocation failed: " ++ err) filled)
              | inl response ↦ score_item s at eval_case (responded response)
            ]
          ])
      modelled none = tt
      modelled (some invoke) = answered (invoke eval_case.prompt at.model at.temperature)

  RunsFail-before :
      (started : List Effect)
      → runs started ≡ []
      → (o : Option (EvalWorkItem × List Effect)) → RunsFail o
      → RunsFail (elim o [ none ↦ none | some (item', effects) ↦ some (item', started ++ effects) ])
  RunsFail-before started quiet none h = tt
  RunsFail-before started quiet (some (item, effects)) h = rw (runs-append, quiet) h

  -- With the plugin's runner, no item of an eval case that has checks ever passes: every run that
  -- a worker records for it has the status failed, whatever the model answers.
  pub run_item-RunsFail :
      (early : Bool) (at : Setting) (item : EvalWorkItem) (eval_case : EvalCase)
      → s.get_case item.case_id ≡ inl (some eval_case)
      → is_empty eval_case.rubric.checks ≡ false
      → RunsFail (run_item early s at item)
  unfolding run_item process_item
  run_item-RunsFail early at item eval_case found_case h =
      if_elim RunsFail early (λ _. mark_cancelled-RunsFail s at.now item)
        λ _.
          rw (found_case, process_item)
            (RunsFail-before (when s.has_items (update_status item.id item_running))
              (runs-when s.has_items _ refl) (answer_item s at eval_case running_item)
              (answer_item-RunsFail at eval_case running_item h))
    where
      running_item : EvalWorkItem
      running_item = record item { status = item_running }
