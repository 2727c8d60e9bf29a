-- ===== src/Eval/Rubric/Score.antt =====
-- The score of RunRubric (plugins/eval/runner.go) beside that of CalculateScore
-- (internal/domain/eval_case.go).
use native.Mathlib.Nat.{mul-div_cancel_left}
use eval_prompt.Prelude.{
  ℕ, zero, suc, ◌+◌, ◌*◌, ◌/◌, ◌<◌, ◌≡◌, refl, ap, ◌∙◌, ◌≢◌, inl, inr, Bool, true, false, not, ◌&&◌,
  some, List, [], ◌∷◌, arith, if◌then◌else◌, Bool-cases, replicate, any, ◌==◌, list_beq_iff, nat_eq,
  list_eq, Text,
}
use eval_prompt.Prelude.Int.{
  ℤ, ◌≤ℤ◌, leb_ℤ, add64, mul64, quo64, add64-pos, mul64-pos, quo64-pos, pos,
}
use eval_prompt.Domain.EvalCase.{
  RubricCheck, Rubric, RubricCheckResult, add_weights, first_passed, weigh, scale, calculate_score,
}
use eval_prompt.Domain.EvalCase.Score.{int_limit, quotient_le, add_weights-weigh}
use eval_prompt.Eval.Rubric.{Grader, build_grading_prompt, add_passed, weigh_all, run_rubric}

-- No two results are for the same check.
abbrev pub distinct_results : List RubricCheckResult → Bool
distinct_results [] = true
distinct_results (r ∷ rs) =
    not (any (λ (s : RubricCheckResult). s.check_id == r.check_id) rs) && distinct_results rs

add_passed-absent :
    (c : RubricCheck) (weighted : ℤ) (rs : List RubricCheckResult)
    → any (λ s. s.check_id == c.id) rs ≡ false
    → add_passed c weighted rs ≡ weighted
unfolding add_passed
add_passed-absent c weighted [] h = refl
add_passed-absent c weighted (r ∷ rs) h = ground (arith, add_passed-absent c weighted rs)

add_passed-first :
    (c : RubricCheck) (weighted : ℤ) (rs : List RubricCheckResult)
    → distinct_results rs ≡ true
    → add_passed c weighted rs
      ≡ (if first_passed c.id rs then add64 weighted c.weight else weighted)
unfolding add_passed first_passed
add_passed-first c weighted [] h = refl
add_passed-first c weighted (r ∷ rs) h = elim (Bool-cases (r.check_id == c.id)) [
  | inl hit ↦
      let same : r.check_id ≡ c.id = (list_beq_iff r.check_id c.id).0 hit in
      let absent : any (λ s. s.check_id == c.id) rs ≡ false = rw (← same) (ground arith) in
      ground
        (arith, add_passed-absent c weighted rs, add_passed-absent c (add64 weighted c.weight) rs)
  | inr miss ↦ ground (arith, add_passed-first c weighted rs)
]

pub weigh_all-weigh :
    (results : List RubricCheckResult) (total weighted : ℤ) (cs : List RubricCheck)
    → distinct_results results ≡ true
    → weigh_all results total weighted cs ≡ weigh results total weighted cs
unfolding weigh_all weigh
weigh_all-weigh results total weighted [] h = refl
weigh_all-weigh results total weighted (c ∷ cs) h =
    rw (add_passed-first c weighted results h)
      (weigh_all-weigh results (add64 total c.weight) _ cs h)

-- A graded response with at most one result for each check gets the score that CalculateScore
-- computes from the same results, if the checks weigh more than nothing together and there are
-- results; it passes exactly where that score is at least 80% of the maximum, rounded as an int.
pub run_rubric-calculate_score :
    (g : Grader) (output model content : Text) (rubric : Rubric) (results : List RubricCheckResult)
    → g.invoke (build_grading_prompt g output rubric) model 3 ≡ inl content
    → g.parse_results content ≡ some results
    → distinct_results results ≡ true
    → results ≢ []
    → pos 1 ≤ℤ add_weights (pos 0) rubric.checks
    → let r = (run_rubric (some g) output rubric model).0 in
      (r.score ≡ calculate_score rubric results)
      × (r.passed
          ≡ leb_ℤ
              (quo64 (mul64 rubric.max_score (pos 80)) (pos 100))
              (calculate_score rubric results))
unfolding run_rubric calculate_score scale add_weights
run_rubric-calculate_score g output model content rubric results i p d n w = ground (
  arith,
  weigh_all-weigh results (pos 0) (pos 0) rubric.checks d,
  add_weights-weigh results (pos 0) (pos 0) rubric.checks,
)

add_passed-copies :
    (c : RubricCheck) (w a n : ℕ) (r : RubricCheckResult)
    → c.weight ≡ pos w
    → r.check_id ≡ c.id
    → r.passed ≡ true
    → a + n * w < int_limit
    → add_passed c (pos a) (replicate n r) ≡ pos (a + n * w)
unfolding add_passed
add_passed-copies c w a zero r e i p l = ap pos (omega arith)
add_passed-copies c w a (suc n) r e i p l =
    let k : a + w + n * w ≡ a + suc n * w = omega arith in
    let fits : a + w < int_limit = omega (arith, k) in
    let sum : add64 (pos a) c.weight ≡ pos (a + w) = rw e (add64-pos a w fits) in
    let rest = add_passed-copies c w (a + w) n r e i p (rw k l) in
    ground (arith, list_beq_iff r.check_id c.id, sum, k, rest)

-- The rubric with a single check.
abbrev pub one_check : ℕ → RubricCheck → Rubric
one_check m c = record { max_score = pos m; checks = c ∷ [] }

-- A result that passes and is given n times counts n times: with one check of positive weight,
-- the score is n times the maximum, above it as soon as n is at least 2 and the maximum positive, if
-- no product is 2^63 or more.
pub repeated_results_exceed :
    (g : Grader) (output model content : Text) (c : RubricCheck) (w m n : ℕ) (r : RubricCheckResult)
    → c.weight ≡ pos (suc w)
    → r.check_id ≡ c.id
    → r.passed ≡ true
    → g.invoke (build_grading_prompt g output (one_check m c)) model 3 ≡ inl content
    → g.parse_results content ≡ some (replicate n r)
    → suc w < int_limit
    → n * suc w < int_limit
    → n * suc w * m < int_limit
    → (run_rubric (some g) output (one_check m c) model).0.score ≡ pos (n * m)
unfolding run_rubric
repeated_results_exceed g output model content c w m n r e i p inv parsed l1 l2 l3 =
    let k : n * suc w * m ≡ suc w * (n * m) = omega arith in
    let q : n * suc w * m / suc w ≡ n * m =
      rw k (mul-div_cancel_left (n * m) {n = suc w} (omega arith)) in
    let fits : n * suc w * m / suc w < int_limit =
      omega (arith, l3, quotient_le (n * suc w * m) (suc w)) in
    let total : add64 (pos 0) c.weight ≡ pos (suc w) =
      rw e (add64-pos 0 (suc w) (omega (arith, l1)) ∙ ap pos (omega arith)) in
    ground (
      arith,
      add_passed-copies c (suc w) 0 n r e i p (omega (arith, l2)),
      total,
      mul64-pos (n * suc w) m l3,
      quo64-pos (n * suc w * m) (suc w) fits,
      q,
    )
