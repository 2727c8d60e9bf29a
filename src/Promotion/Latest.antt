-- ===== src/Promotion/Latest.antt =====
-- Promotion by the scores that were set (internal/authz/eval_gate_guard.go).
use eval_prompt.Prelude.{
  ◌≡◌, refl, ap, ◌∙◌, ◌↔◌, ◌⊎◌, inl, inr, Bool, false, Option, none, some, List, [], ◌∷◌, ◌++◌,
  arith, if◌then◌else◌, ◌==◌, nat_eq, list_eq, Text, text,
}
use eval_prompt.Prelude.Maps.{get_key, get_key-put_key}
use eval_prompt.Promotion.{
  SnapshotMetricsStore, new_snapshot_metrics_store, set_eval_score, get_snapshot_eval_score,
  new_eval_gate_guard_with_threshold, check_prod_promotion,
}

module _ {F : Type 0} where
  -- Scores that are set one after the other.
  unfoldable pub set_scores : List (Text × F) → SnapshotMetricsStore F → SnapshotMetricsStore F
  unfolding set_eval_score
  set_scores [] s = s
  set_scores (e ∷ sets) s = set_scores sets (set_eval_score e.0 e.1 s)

  -- The last score that was set for a snapshot, or an earlier one.
  abbrev pub last_score : Text → List (Text × F) → Option F → Option F
  last_score snapshot_id [] before = before
  last_score snapshot_id (e ∷ sets) before =
      last_score snapshot_id sets (if e.0 == snapshot_id then some e.1 else before)

  set_scores-last_score :
      (snapshot_id : Text) (sets : List (Text × F)) (s : SnapshotMetricsStore F)
      → get_key snapshot_id (set_scores sets s).scores
        ≡ last_score snapshot_id sets (get_key snapshot_id s.scores)
  unfolding set_scores set_eval_score
  set_scores-last_score snapshot_id [] s = refl
  set_scores-last_score snapshot_id (e ∷ sets) s =
      set_scores-last_score snapshot_id sets (set_eval_score e.0 e.1 s)
      ∙ ap (last_score snapshot_id sets) (get_key-put_key snapshot_id e.0 e.1 s.scores)

  -- With a store of scores that were set one after the other, a promotion is allowed exactly where
  -- the snapshot has a score and the last one that was set is not below the threshold.
  pub check_prod_promotion-eq-none_iff :
      (lt : F → F → Bool) (show : F → Text) (threshold : F) (sets : List (Text × F))
      (snapshot_id : Text)
      → (check_prod_promotion lt show
            (new_eval_gate_guard_with_threshold
              (get_snapshot_eval_score (set_scores sets new_snapshot_metrics_store))
              threshold)
            snapshot_id
          ≡ none)
        ↔ ((score : F) × (last_score snapshot_id sets none ≡ some score)
            × (lt score threshold ≡ false))
  unfolding check_prod_promotion new_eval_gate_guard_with_threshold get_snapshot_eval_score
      new_snapshot_metrics_store get_key
  check_prod_promotion-eq-none_iff lt show threshold sets snapshot_id =
      by_score (get_key snapshot_id (set_scores sets new_snapshot_metrics_store).scores)
        (set_scores-last_score snapshot_id sets new_snapshot_metrics_store)
    where
      by_score :
          (found : Option F)
          → found ≡ last_score snapshot_id sets none
          → (elim (elim found as (λ _. F ⊎ Text) [
            | none ↦ inr (text "snapshot not found: " ++ snapshot_id)
            | some score ↦ inl score
          ])
                as (λ _. Option Text) [
                  | inr err ↦ some (text "failed to get eval score: " ++ err)
                  | inl score ↦
                      if lt score threshold
                      then some (
                          text "eval score below threshold: got "
                          ++ (show score ++ (text ", need " ++ show threshold)))
                      else none
                ]
              ≡ none)
            ↔ ((score : F) × (last_score snapshot_id sets none ≡ some score)
                × (lt score threshold ≡ false))
      by_score none e = (λ h. cc, λ r. cc)
      by_score (some score) e = ground arith
