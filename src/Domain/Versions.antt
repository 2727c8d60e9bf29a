-- ===== src/Domain/Versions.antt =====
-- Snapshots, labels, model adaptations and audit logs: internal/domain/snapshot.go, label.go,
-- model_adaptation.go and audit_log.go. The free-form maps of metrics and details are left out of
-- the records, since nothing here reads them.
use eval_prompt.Prelude.{
  ℕ, ◌≡◌, ◌↔◌, Bool, false, Option, none, some, List, [], arith, if◌then◌else◌, ◌==◌, nat_eq,
  list_eq, Text, text, is_empty,
}
use eval_prompt.Prelude.Int.{pos}
use eval_prompt.Prelude.Values.{Fraction}
use eval_prompt.Domain.Errors.{
  Failure, domain_rule_violation, snapshot_version_invalid, label_name_invalid, new_domain_error,
  err_invalid_id, plain, domain,
}
use eval_prompt.Domain.Types.{EntityId, id_is_empty}

pub record Snapshot : Type 0 where
  pub id : EntityId
  pub asset_id : EntityId
  pub version : Text
  pub content_hash : Text
  pub commit_hash : Text
  pub author : Text
  pub reason : Text
  pub model : Text
  pub temperature : Fraction
  pub created_at : ℕ

unfoldable pub validate_snapshot : Snapshot → Option Failure
validate_snapshot s =
    if id_is_empty s.id
    then some (domain (err_invalid_id s.id.value))
    else if id_is_empty s.asset_id
    then some (plain (text "asset_id is required"))
    else if is_empty s.version
    then some (domain (new_domain_error snapshot_version_invalid (text "version is required")))
    else if is_empty s.content_hash
    then some (plain (text "content_hash is required"))
    else none

unfoldable pub new_snapshot_with_commit :
    EntityId → ℕ → EntityId → Text → Text → Text → Text → Text → Snapshot
new_snapshot_with_commit id now asset_id version content_hash commit_hash author reason = record {
  id = id;
  asset_id = asset_id;
  version = version;
  content_hash = content_hash;
  commit_hash = commit_hash;
  author = author;
  reason = reason;
  model = [];
  temperature = record { num = pos 0; den = 1 };
  created_at = now;
}

unfoldable pub new_snapshot : EntityId → ℕ → EntityId → Text → Text → Text → Text → Snapshot
unfolding new_snapshot_with_commit
new_snapshot id now asset_id version content_hash author reason =
    new_snapshot_with_commit id now asset_id version content_hash [] author reason

pub record Label : Type 0 where
  pub id : EntityId
  pub asset_id : EntityId
  pub name : Text
  pub snapshot_id : EntityId
  pub updated_at : ℕ

unfoldable pub validate_label : Label → Option Failure
validate_label l =
    if id_is_empty l.id
    then some (domain (err_invalid_id l.id.value))
    else if id_is_empty l.asset_id
    then some (plain (text "asset_id is required"))
    else if is_empty l.name
    then some (domain (new_domain_error label_name_invalid (text "label name is required")))
    else if id_is_empty l.snapshot_id
    then some (plain (text "snapshot_id is required"))
    else none

unfoldable pub new_label : EntityId → ℕ → EntityId → EntityId → Text → Label
new_label id now asset_id snapshot_id name = record {
  id = id;
  asset_id = asset_id;
  name = name;
  snapshot_id = snapshot_id;
  updated_at = now;
}

unfoldable pub is_prod : Label → Bool
is_prod l = l.name == text "prod"

unfoldable pub is_dev : Label → Bool
is_dev l = l.name == text "dev"

unfoldable pub is_staging : Label → Bool
is_staging l = l.name == text "staging"

pub record ModelAdaptation : Type 0 where
  pub id : EntityId
  pub prompt_id : EntityId
  pub source_model : Text
  pub target_model : Text
  pub adapted_content : Text
  pub format_changes : List Text
  pub eval_score : Fraction
  pub eval_run_id : EntityId
  pub created_at : ℕ

unfoldable pub validate_adaptation : ModelAdaptation → Option Failure
validate_adaptation m =
    if id_is_empty m.id
    then some (domain (err_invalid_id m.id.value))
    else if id_is_empty m.prompt_id
    then some (plain (text "prompt_id is required"))
    else if is_empty m.source_model
    then some (plain (text "source_model is required"))
    else if is_empty m.target_model
    then some (plain (text "target_model is required"))
    else if is_empty m.adapted_content
    then some (plain (text "adapted_content is required"))
    else none

unfoldable pub new_model_adaptation : EntityId → ℕ → EntityId → Text → Text → Text → ModelAdaptation
new_model_adaptation id now prompt_id source_model target_model adapted_content = record {
  id = id;
  prompt_id = prompt_id;
  source_model = source_model;
  target_model = target_model;
  adapted_content = adapted_content;
  format_changes = [];
  eval_score = record { num = pos 0; den = 1 };
  eval_run_id = record { value = [] };
  created_at = now;
}

pub record AuditLog : Type 0 where
  pub id : EntityId
  pub operation : Text
  pub asset_id : EntityId
  pub user_id : EntityId
  pub created_at : ℕ

unfoldable pub validate_audit_log : AuditLog → Option Failure
validate_audit_log a =
    if is_empty a.operation
    then some (domain (new_domain_error domain_rule_violation (text "operation is required")))
    else none

unfoldable pub new_audit_log : EntityId → ℕ → Text → EntityId → EntityId → AuditLog
new_audit_log id now operation asset_id user_id = record {
  id = id;
  operation = operation;
  asset_id = asset_id;
  user_id = user_id;
  created_at = now;
}

-- A new label passes its validation exactly where its IDs and its name are not empty.
pub new_label-eq-none_iff :
    (id : EntityId) (now : ℕ) (asset_id snapshot_id : EntityId) (name : Text)
    → (validate_label (new_label id now asset_id snapshot_id name) ≡ none) ↔ (
        (is_empty id.value ≡ false)
        × ((is_empty asset_id.value ≡ false)
            × ((is_empty name ≡ false) × (is_empty snapshot_id.value ≡ false))))
unfolding validate_label new_label
new_label-eq-none_iff id now asset_id snapshot_id name = ground arith
