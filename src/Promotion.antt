-- ===== src/Promotion.antt =====
-- The gate before a promotion to production: internal/authz/eval_gate_guard.go. A float64 is an
-- element of a type F with the comparison < and what fmt prints for %.2f.
pub mod Latest
mod Examples
use eval_prompt.Prelude.{
  ◌⊎◌, inl, inr, Bool, Option, none, some, List, [], ◌++◌, if◌then◌else◌, Text, text,
}
use eval_prompt.Prelude.Maps.{get_key, put_key}

pub record SnapshotMetricsStore (F : Type 0) : Type 0 where
  pub scores : List (Text × F)

pub record EvalGateGuard (F : Type 0) : Type 0 where
  pub snapshot_getter : Text → F ⊎ Text
  pub threshold : F

module _ {F : Type 0} where
  unfoldable pub new_snapshot_metrics_store : SnapshotMetricsStore F
  new_snapshot_metrics_store = record { scores = [] }

  unfoldable pub set_eval_score : Text → F → SnapshotMetricsStore F → SnapshotMetricsStore F
  unfolding put_key
  set_eval_score snapshot_id score s = record { scores = put_key snapshot_id score s.scores }

  unfoldable pub get_snapshot_eval_score : SnapshotMetricsStore F → Text → F ⊎ Text
  unfolding get_key
  get_snapshot_eval_score s snapshot_id = elim (get_key snapshot_id s.scores) [
    | none ↦ inr (text "snapshot not found: " ++ snapshot_id)
    | some score ↦ inl score
  ]

  -- With the constant DefaultEvalThreshold.
  unfoldable pub new_eval_gate_guard : F → (Text → F ⊎ Text) → EvalGateGuard F
  new_eval_gate_guard default_threshold getter = record {
    snapshot_getter = getter;
    threshold = default_threshold;
  }

  unfoldable pub new_eval_gate_guard_with_threshold : (Text → F ⊎ Text) → F → EvalGateGuard F
  new_eval_gate_guard_with_threshold getter threshold = record {
    snapshot_getter = getter;
    threshold = threshold;
  }

  unfoldable pub check_prod_promotion :
      (F → F → Bool) → (F → Text) → EvalGateGuard F → Text → Option Text
  check_prod_promotion lt show g snapshot_id = elim (g.snapshot_getter snapshot_id) [
    | inr err ↦ some (text "failed to get eval score: " ++ err)
    | inl score ↦
        if lt score g.threshold
        then some (
            text "eval score below threshold: got "
            ++ (show score ++ (text ", need " ++ show g.threshold)))
        else none
  ]
