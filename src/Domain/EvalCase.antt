-- ===== src/Domain/EvalCase.antt =====
-- Eval cases, rubrics and their scores: internal/domain/eval_case.go.
pub mod Score
use eval_prompt.Prelude.{
  ℕ, ◌≤◌, ◌≡◌, ◌↔◌, Bool, false, Option, none, some, List, [], ◌∷◌, ◌++◌, arith, if◌then◌else◌,
  length, any, ◌==◌, nat_eq, list_eq, Text, text, is_empty,
}
use eval_prompt.Prelude.Int.{ℤ, int_eq, add64, mul64, quo64, pos}
use eval_prompt.Domain.Errors.{
  Failure, eval_case_not_found, new_domain_error, err_invalid_id, plain, domain,
}
use eval_prompt.Domain.Types.{EntityId, id_is_empty, validate_length}

pub record RubricCheck : Type 0 where
  pub id : Text
  pub description : Text
  pub weight : ℤ

pub record Rubric : Type 0 where
  pub max_score : ℤ
  pub checks : List RubricCheck

pub record RubricCheckResult : Type 0 where
  pub check_id : Text
  pub passed : Bool
  pub score : ℤ
  pub details : Text

pub record EvalCase : Type 0 where
  pub id : EntityId
  pub asset_id : EntityId
  pub name : Text
  pub prompt : Text
  pub should_trigger : Bool
  pub expected_output : Text
  pub rubric : Rubric
  pub created_at : ℕ
  pub version : ℕ

unfoldable pub validate : (ℤ → Text) → EvalCase → Option Failure
validate print e =
    if id_is_empty e.id
    then some (domain (err_invalid_id e.id.value))
    else if id_is_empty e.asset_id
    then some (domain (new_domain_error eval_case_not_found (text "asset_id is required")))
    else elim (validate_length print (text "name") e.name (pos 1) (pos 128)) [
      | some err ↦ some err
      | none ↦
          if is_empty e.prompt
          then some (domain (new_domain_error eval_case_not_found (text "prompt is required")))
          else none
    ]

unfoldable pub new_eval_case_with_id :
    EntityId → EntityId → ℕ → Text → Text → Bool → Text → Rubric → EvalCase
new_eval_case_with_id id asset_id now name prompt should_trigger expected_output rubric = record {
  id = id;
  asset_id = asset_id;
  name = name;
  prompt = prompt;
  should_trigger = should_trigger;
  expected_output = expected_output;
  rubric = rubric;
  created_at = now;
  version = 0;
}

-- The loop of TotalRubricWeight.
unfoldable pub add_weights : ℤ → List RubricCheck → ℤ
unfolding add64
add_weights total [] = total
add_weights total (c ∷ cs) = add_weights (add64 total c.weight) cs

unfoldable pub total_rubric_weight : EvalCase → ℤ
unfolding add_weights
total_rubric_weight e = add_weights (pos 0) e.rubric.checks

-- The loop of RubricWeightMap: a later check with the same ID overwrites the weight.
unfoldable pub put_weights : (Text → Option ℤ) → List RubricCheck → Text → Option ℤ
put_weights weights [] = weights
put_weights weights (c ∷ cs) =
    put_weights (λ id. if c.id == id then some c.weight else weights id) cs

unfoldable pub rubric_weight_map : EvalCase → Text → Option ℤ
unfolding put_weights
rubric_weight_map e = put_weights (λ _. none) e.rubric.checks

-- The inner loop of CalculateScore stops at the first result for the check.
unfoldable pub first_passed : Text → List RubricCheckResult → Bool
first_passed id [] = false
first_passed id (r ∷ rs) =
    let rest = first_passed id rs in if r.check_id == id then r.passed else rest

-- The outer loop: the total weight and the weight of the checks passed.
unfoldable pub weigh : List RubricCheckResult → ℤ → ℤ → List RubricCheck → ℤ × ℤ
unfolding add64
weigh results total weighted [] = (total, weighted)
weigh results total weighted (c ∷ cs) =
    weigh results (add64 total c.weight)
      (if first_passed c.id results then add64 weighted c.weight else weighted) cs

-- The score from the two weights.
unfoldable pub scale : ℤ → ℤ × ℤ → ℤ
unfolding mul64 quo64
scale max_score (total, weighted) =
    if total == pos 0 then pos 0 else quo64 (mul64 weighted max_score) total

unfoldable pub calculate_score : Rubric → List RubricCheckResult → ℤ
calculate_score rubric results =
    if is_empty results
    then pos 0
    else scale rubric.max_score (weigh results (pos 0) (pos 0) rubric.checks)

-- ValidateResults: the first result whose check is not in the rubric.
unfoldable pub validate_results : Rubric → List RubricCheckResult → Option Failure
validate_results rubric [] = none
validate_results rubric (r ∷ rs) =
    let rest = validate_results rubric rs in
    if any (λ (c : RubricCheck). c.id == r.check_id) rubric.checks
    then rest
    else some (plain (text "unknown check_id in results: " ++ r.check_id))

-- Validate accepts exactly the eval cases with an ID, an asset, a name of 1 to 128 bytes and a
-- prompt.
pub eval_case_validate_iff :
    (print : ℤ → Text) (e : EvalCase)
    → (validate print e ≡ none) ↔ (
        (is_empty e.id.value ≡ false)
        × ((is_empty e.asset_id.value ≡ false)
            × ((1 ≤ length e.name) × ((length e.name ≤ 128) × (is_empty e.prompt ≡ false)))))
unfolding validate validate_length
eval_case_validate_iff print e = ground arith
