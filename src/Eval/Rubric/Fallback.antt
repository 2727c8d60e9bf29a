-- ===== src/Eval/Rubric/Fallback.antt =====
-- The fallback of RunRubric where the model's response is not JSON (plugins/eval/runner.go,
-- parseGradingResponse).
use mathlib.Core.List.{append_assoc}
use eval_prompt.Prelude.{
  ℕ, suc, ◌*◌, ◌<◌, ◌≡◌, refl, sym, ◌∙◌, inl, Bool, true, false, not, ◌&&◌, none, some, List, [],
  ◌∷◌, ◌++◌, arith, any, any-append, All, ◌==◌, list_beq_iff, nat_eq, list_eq, Text, is_empty,
}
use eval_prompt.Prelude.Int.{leb_ℤ, mul64, quo64, mul64-pos, quo64-pos, pos}
use eval_prompt.Domain.EvalCase.{RubricCheck, Rubric, add_weights, first_passed, scale}
use eval_prompt.Domain.EvalCase.Score.{int_limit, weigh_full, scale_full, add_weights-weigh}
use eval_prompt.Eval.Rubric.{Grader, build_grading_prompt, parse_grading_response, run_rubric}
use eval_prompt.Eval.Rubric.Score.{distinct_results, weigh_all-weigh}

-- No two checks have the same ID.
abbrev pub distinct_checks : List RubricCheck → Bool
distinct_checks [] = true
distinct_checks (c ∷ cs) = not (any (λ (d : RubricCheck). d.id == c.id) cs) && distinct_checks cs

any_result :
    (content id : Text) (cs : List RubricCheck)
    → any (λ s. s.check_id == id) (parse_grading_response content cs) ≡ any (λ d. d.id == id) cs
unfolding parse_grading_response
any_result content id [] = refl
any_result content id (c ∷ cs) = ground (arith, any_result content id cs)

distinct_fallback :
    (content : Text) (cs : List RubricCheck)
    → distinct_results (parse_grading_response content cs) ≡ distinct_checks cs
unfolding parse_grading_response
distinct_fallback content [] = refl
distinct_fallback content (c ∷ cs) =
    ground (arith, any_result content c.id cs, distinct_fallback content cs)

first_passed-any :
    (content id : Text) (cs : List RubricCheck)
    → is_empty content ≡ false
    → first_passed id (parse_grading_response content cs) ≡ any (λ d. d.id == id) cs
unfolding parse_grading_response first_passed
first_passed-any content id [] h = refl
first_passed-any content id (c ∷ cs) h = ground (arith, first_passed-any content id cs)

All-found :
    (content : Text) (whole seen cs : List RubricCheck)
    → whole ≡ seen ++ cs
    → is_empty content ≡ false
    → All (λ c. first_passed c.id (parse_grading_response content whole) ≡ true) cs
All-found content whole seen [] e h = tt
All-found content whole seen (c ∷ cs) e h =
    let here : any (λ d. d.id == c.id) (seen ++ (c ∷ cs)) ≡ true =
      ground (arith, any-append (λ d. d.id == c.id) seen (c ∷ cs), list_beq_iff c.id c.id) in
    (
      first_passed-any content c.id whole h ∙ rw e here,
      All-found content whole (seen ++ (c ∷ [])) cs (e ∙ sym (append_assoc seen (c ∷ []) cs)) h,
    )

-- The threshold lies below the maximum.
threshold_le :
    (m : ℕ) → m * 80 < int_limit → leb_ℤ (quo64 (mul64 (pos m) (pos 80)) (pos 100)) (pos m) ≡ true
threshold_le m h = rw (mul64-pos m 80 h, quo64-pos (m * 80) 100 (omega (arith, h))) (ground arith)

-- A response that is not empty and not JSON gets full marks and passes, whatever it says, if the
-- IDs of the checks are distinct, the checks weigh more than nothing together, the maximum is not
-- negative, and neither its product with that weight nor that with 80 is 2^63 or more.
pub fallback_full_marks :
    (g : Grader) (output model content : Text) (rubric : Rubric) (m t : ℕ)
    → g.invoke (build_grading_prompt g output rubric) model 3 ≡ inl content
    → g.parse_results content ≡ none
    → is_empty content ≡ false
    → distinct_checks rubric.checks ≡ true
    → add_weights (pos 0) rubric.checks ≡ pos (suc t)
    → rubric.max_score ≡ pos m
    → suc t * m < int_limit
    → m * 80 < int_limit
    → let r = (run_rubric (some g) output rubric model).0 in
      (r.score ≡ rubric.max_score) × (r.passed ≡ true)
unfolding run_rubric scale
fallback_full_marks g output model content rubric m t i p e d w n l k =
    let cs = rubric.checks in
    let results = parse_grading_response content cs in
    ground (
      arith,
      weigh_all-weigh results (pos 0) (pos 0) cs (distinct_fallback content cs ∙ d),
      add_weights-weigh results (pos 0) (pos 0) cs,
      weigh_full results (pos 0) cs (All-found content cs [] cs refl e),
      w,
      n,
      scale_full m t l,
      threshold_le m k,
    )
