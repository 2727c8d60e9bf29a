-- ===== src/Eval/Examples.antt =====
-- Runs of the checks and of the rubric of plugins/eval.
use eval_prompt.Prelude.{
  ◌≡◌, refl, inl, true, false, Option, none, some, List, [], ◌∷◌, arith, length, replicate, nat_eq,
  list_eq, Text, text, is_empty,
}
use eval_prompt.Prelude.Int.{◌+ℤ◌, ◌≤ℤ◌, leb_ℤ, wrap64, add64, mul64, quo64, pos}
use eval_prompt.Prelude.Strings.{has_prefix, contains_text}
use eval_prompt.Prelude.Values.{get_field, str, arr, nil, cons, end, field}
use eval_prompt.Domain.EvalCase.{RubricCheck, RubricCheckResult, add_weights, calculate_score}
use eval_prompt.Eval.Assertions.{
  TraceEvent, DeterministicCheck, Platform, check_content_contains, walk_path, run_check,
  path_not_found,
}
use eval_prompt.Eval.Assertions.JsonPath.{one_bracket_fails}
use eval_prompt.Eval.Deterministic.{
  DeterministicResult, run_deterministic, failing_ids, share, run_deterministic_lem,
}
use eval_prompt.Eval.Rubric.{Grader, run_rubric}
use eval_prompt.Eval.Rubric.Score.{run_rubric-calculate_score, one_check, repeated_results_exceed}
use eval_prompt.Eval.Rubric.Fallback.{fallback_full_marks}

-- A system without files, in which no text is JSON.
abbrev bare : Platform
bare = record {
  file_exists = λ _. false;
  is_json_object = λ _. false;
  parse_json = λ _. none;
  print_value = λ _. [];
  scan_int = λ _. pos 0;
}

abbrev says : Text → TraceEvent
says content = record {
  span_id = [];
  parent_id = [];
  name = text "answer";
  timestamp = 1;
  event_type = text "llm_output";
  payload = field (text "content") (str content) end;
}

abbrev wants : Text → DeterministicCheck
wants expected = record {
  id = expected;
  check_type = text "content_contains";
  path = [];
  expected = expected;
  json_path = [];
}

abbrev two_checks : List DeterministicCheck
two_checks = wants (text "hi") ∷ wants (text "bye") ∷ []

run_deterministic_lem_example :
    (r : DeterministicResult) × (run_deterministic bare (says (text "oh hi") ∷ []) two_checks
      ≡ some r)
    × (r.failed ≡ failing_ids bare (says (text "oh hi") ∷ []) two_checks)
    × (r.passed ≡ is_empty (failing_ids bare (says (text "oh hi") ∷ []) two_checks))
    × (r.score ≡ share 2 (length (failing_ids bare (says (text "oh hi") ∷ []) two_checks)))
unfolding run_check check_content_contains contains_text has_prefix get_field
run_deterministic_lem_example =
    run_deterministic_lem bare (says (text "oh hi") ∷ []) two_checks refl

one_bracket_fails_example :
    walk_path bare ((b'[' ∷ text "0]") ∷ []) (arr (cons (str (text "x")) nil))
    ≡ path_not_found (text "0]")
unfolding has_prefix
one_bracket_fails_example = one_bracket_fails bare (text "0]") [] (cons (str (text "x")) nil) refl

abbrev check : RubricCheck
check = record { id = text "a"; description = text "greets"; weight = pos 2 }

abbrev passes_a : RubricCheckResult
passes_a = record { check_id = text "a"; passed = true; score = pos 0; details = [] }

-- A model that answers with the same results to every prompt; `none` is an answer with no JSON.
abbrev grader : Option (List RubricCheckResult) → Grader
grader results = record {
  invoke = λ _ _ _. inl (text "ok");
  marshal_checks = λ _. [];
  parse_results = λ _. results;
}

abbrev once : List RubricCheckResult
once = passes_a ∷ []

weighs : pos 1 ≤ℤ add_weights (pos 0) (one_check 100 check).checks
unfolding add_weights add64 wrap64 ◌+ℤ◌
weighs = omega arith

weighs_two : add_weights (pos 0) (one_check 100 check).checks ≡ pos 2
unfolding add_weights add64 wrap64 ◌+ℤ◌
weighs_two = refl

run_rubric-calculate_score_example :
    ((run_rubric (some (grader (some once))) (text "hi") (one_check 100 check) (text "m")).0.score
      ≡ calculate_score (one_check 100 check) once)
    × ((run_rubric
          (some (grader (some once)))
          (text "hi")
          (one_check 100 check)
          (text "m")).0.passed
        ≡ leb_ℤ
            (quo64 (mul64 (pos 100) (pos 80)) (pos 100))
            (calculate_score (one_check 100 check) once))
run_rubric-calculate_score_example =
    run_rubric-calculate_score (grader (some once)) (text "hi") (text "m") (text "ok")
      (one_check 100 check) once refl refl refl (λ e. cc) weighs

repeated_results_exceed_example :
    (run_rubric
      (some (grader (some (replicate 3 passes_a))))
      (text "hi")
      (one_check 100 check)
      (text "m")).0.score
    ≡ pos 300
repeated_results_exceed_example =
    repeated_results_exceed (grader (some (replicate 3 passes_a))) (text "hi") (text "m")
      (text "ok") check 1 100 3 passes_a refl refl refl refl refl (omega arith) (omega arith)
      (omega arith)

fallback_full_marks_example :
    ((run_rubric (some (grader none)) (text "hi") (one_check 100 check) (text "m")).0.score
      ≡ pos 100)
    × ((run_rubric (some (grader none)) (text "hi") (one_check 100 check) (text "m")).0.passed
        ≡ true)
fallback_full_marks_example =
    fallback_full_marks (grader none) (text "hi") (text "m") (text "ok") (one_check 100 check) 100 1
      refl refl refl refl weighs_two refl (omega arith) (omega arith)
