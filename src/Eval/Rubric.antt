-- ===== src/Eval/Rubric.antt =====
-- RunRubric of plugins/eval/runner.go. The service's rubric types have the fields of the domain's.
pub mod Score
pub mod Fallback
use eval_prompt.Prelude.{
  ℕ, ◌⊎◌, inl, inr, Bool, true, false, ◌&&◌, Option, none, some, List, [], ◌∷◌, ◌++◌, ltb,
  if◌then◌else◌, length, ◌==◌, nat_eq, list_eq, Text, text, is_empty,
}
use eval_prompt.Prelude.Int.{ℤ, ltb_ℤ, leb_ℤ, add64, mul64, quo64, pos}
use eval_prompt.Domain.EvalCase.{RubricCheck, Rubric, RubricCheckResult}

-- service.RubricResult.
pub record RubricResult : Type 0 where
  pub score : ℤ
  pub max_score : ℤ
  pub passed : Bool
  pub details : List RubricCheckResult

pub data RubricError : Type 0 where
  no_invoker : RubricError
  invocation_failed : Text → RubricError

-- The model and the JSON package: an invocation gives the content of the response or an error,
-- from the prompt, the model's name and the temperature in tenths.
pub record Grader : Type 0 where
  pub invoke : Text → Text → ℕ → Text ⊎ Text
  pub marshal_checks : List RubricCheck → Text
  pub parse_results : Text → Option (List RubricCheckResult)

unfoldable pub build_grading_prompt : Grader → Text → Rubric → Text
build_grading_prompt g output rubric =
    text "You are evaluating an AI assistant's response against a rubric.\n\n"
    ++ (text "Output to evaluate:\n"
        ++ (text "```\n"
            ++ (output
                ++ (text "\n```\n\n"
                    ++ (text "Rubric checks (answer in JSON array format):\n"
                        ++ (text "```\n"
                            ++ (g.marshal_checks rubric.checks
                                ++ (text "\n```\n\n"
                                    ++ (text
                                          "For each check, determine if it passed (true/false) and provide a score (0 to weight) and details.\n"
                                        ++ text
                                            "Respond with a JSON array of results like:\n[{\"check_id\": \"id1\", \"passed\": true, \"score\": 10, \"details\": \"explanation\"}]")))))))))

-- parseGradingResponse, the fallback where the response is not JSON.
unfoldable pub parse_grading_response : Text → List RubricCheck → List RubricCheckResult
parse_grading_response content [] = []
parse_grading_response content (c ∷ cs) =
    record {
      check_id = c.id;
      passed = ltb 0 (length content);
      score = pos 0;
      details = text "parse failed, using fallback";
    }
    ∷ parse_grading_response content cs

-- The inner loop: each result that passes the check adds its weight.
unfoldable pub add_passed : RubricCheck → ℤ → List RubricCheckResult → ℤ
unfolding add64
add_passed c weighted [] = weighted
add_passed c weighted (r ∷ rs) =
    add_passed c (if r.check_id == c.id && r.passed then add64 weighted c.weight else weighted) rs

unfoldable pub weigh_all : List RubricCheckResult → ℤ → ℤ → List RubricCheck → ℤ × ℤ
unfolding add_passed add64
weigh_all results total weighted [] = (total, weighted)
weigh_all results total weighted (c ∷ cs) =
    weigh_all results (add64 total c.weight) (add_passed c weighted results) cs

-- The score and the verdict from the two weights; without weight the result stays as it is.
unfoldable pub grade : ℤ → ℤ × ℤ → RubricResult → RubricResult
unfolding mul64 quo64
grade max_score (total, weighted) r =
    if ltb_ℤ (pos 0) total
    then (let s = quo64 (mul64 weighted max_score) total in
        record r { score = s; passed = leb_ℤ (quo64 (mul64 max_score (pos 80)) (pos 100)) s })
    else r

unfoldable pub graded_results : Grader → Rubric → Text → List RubricCheckResult
unfolding parse_grading_response
graded_results g rubric content = elim (g.parse_results content) [
  | none ↦ parse_grading_response content rubric.checks
  | some results ↦ results
]

unfoldable pub run_rubric : Option Grader → Text → Rubric → Text → RubricResult × Option RubricError
unfolding grade weigh_all graded_results
run_rubric none output rubric model =
    (record { score = pos 0; max_score = pos 0; passed = false; details = [] }, some no_invoker)
run_rubric (some g) output rubric model =
    let start : RubricResult = record {
      score = pos 0;
      max_score = rubric.max_score;
      passed = true;
      details = [];
    } in
    if is_empty rubric.checks
    then (start, none)
    else elim (g.invoke (build_grading_prompt g output rubric) model 3) [
      | inr err ↦ (start, some (invocation_failed err))
      | inl content ↦
          let results = graded_results g rubric content in
          (
            grade rubric.max_score (weigh_all results (pos 0) (pos 0) rubric.checks)
                (record start { details = results }),
            none,
          )
    ]
