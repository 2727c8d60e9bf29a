-- ===== src/Domain/Examples.antt =====
-- Runs of the shared types and eval cases of internal/domain.
use eval_prompt.Prelude.{
  ◌≡◌, refl, ◌⊎◌, inl, Bool, true, false, List, [], ◌∷◌, arith, nat_eq, list_eq, Text, text,
}
use eval_prompt.Prelude.Int.{◌≤ℤ◌, pos}
use eval_prompt.Domain.Records.{Fresh, EventBody, DomainEvent, OutboxEvent, prompt_asset_updated}
use eval_prompt.Domain.Paging.{new_page, new_page_bounds}
use eval_prompt.Domain.EvalCase.{Rubric, RubricCheckResult, calculate_score}
use eval_prompt.Domain.EvalCase.Score.{calculate_score_bounds}

abbrev rubric : Rubric
rubric = record {
  max_score = pos 100;
  checks =
      record { id = text "a"; description = text "names it"; weight = pos 1 }
      ∷ record { id = text "b"; description = text "is short"; weight = pos 3 }
      ∷ [];
}

abbrev result : Text → Bool → RubricCheckResult
result id did_pass = record { check_id = id; passed = did_pass; score = pos 0; details = [] }

abbrev half : List RubricCheckResult
half = result (text "a") true ∷ result (text "b") false ∷ []

abbrev full : List RubricCheckResult
full = result (text "a") true ∷ result (text "b") true ∷ []

abbrev wrong : List RubricCheckResult
wrong = result (text "c") true ∷ []

new_page_bounds_example :
    (pos 1 ≤ℤ (new_page (pos 5) (pos 700)).limit)
    × ((new_page (pos 5) (pos 700)).limit ≤ℤ pos 100)
    × ((new_page (pos 5) (pos 700)).offset ≡ pos 5)
    × ((new_page (pos 5) (pos 700)).limit ≡ pos 100)
new_page_bounds_example = new_page_bounds (pos 5) (pos 700)

calculate_score_bounds_example :
    (pos 0 ≤ℤ calculate_score rubric half) × (calculate_score rubric half ≤ℤ pos 100)
calculate_score_bounds_example =
    calculate_score_bounds rubric half 100 (omega arith, (omega arith, tt)) refl (omega arith)
      (omega arith)

abbrev fresh : Fresh
fresh = record { event_id = record { value = text "e1" }; now = 4; key = text "k1" }

abbrev updated : EventBody
updated = prompt_asset_updated (text "h") (text "typo")

abbrev to_json : DomainEvent → Text ⊎ Text
to_json e = inl (text "{}")

abbrev stored : OutboxEvent
stored = record {
  id = record { value = text "e1" };
  aggregate_type = text "a1";
  aggregate_id = record { value = text "a1" };
  event_type = text "PromptAssetUpdatedV1";
  payload = text "{}";
  occurred_at = 4;
  idempotency_key = text "a1/e1";
  retry_count = 0;
}
