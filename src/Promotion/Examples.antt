-- ===== src/Promotion/Examples.antt =====
-- A promotion with whole scores (internal/authz/eval_gate_guard.go).
use eval_prompt.Prelude.{
  ℕ, ◌≡◌, refl, ◌↔◌, false, none, some, List, [], ◌∷◌, ltb, nat_eq, list_eq, Text, text,
}
use eval_prompt.Prelude.Maps.{get_key}
use eval_prompt.Promotion.{
  new_snapshot_metrics_store, get_snapshot_eval_score, new_eval_gate_guard,
  new_eval_gate_guard_with_threshold, check_prod_promotion,
}
use eval_prompt.Promotion.Latest.{set_scores, last_score, check_prod_promotion-eq-none_iff}
use eval_prompt.Prelude.{nat_eq, list_eq}

abbrev two_sets : List (Text × ℕ)
two_sets = (text "s1", 70) ∷ (text "s1", 85) ∷ []

check_prod_promotion-eq-none_iff_example :
    (check_prod_promotion ltb
        (λ n. n ∷ [])
        (new_eval_gate_guard_with_threshold
          (get_snapshot_eval_score (set_scores two_sets new_snapshot_metrics_store))
          80)
        (text "s1")
      ≡ none)
    ↔ ((score : ℕ) × (last_score (text "s1") two_sets none ≡ some score) × (ltb score 80 ≡ false))
check_prod_promotion-eq-none_iff_example =
    check_prod_promotion-eq-none_iff ltb (λ n. n ∷ []) 80 two_sets (text "s1")

unset_refused :
    check_prod_promotion ltb
      (λ n. n ∷ [])
      (new_eval_gate_guard 80
        (get_snapshot_eval_score (set_scores two_sets new_snapshot_metrics_store)))
      (text "s2")
    ≡ some (text "failed to get eval score: snapshot not found: s2")
unfolding check_prod_promotion new_eval_gate_guard get_snapshot_eval_score set_scores
    new_snapshot_metrics_store get_key
unset_refused = refl
