-- ===== src/Domain/Records.antt =====
-- The domain events of internal/domain/events.go with their constructors and Validate, and the
-- outbox event made from one. The texts of a Go `EventType` stand for it here. ToMap only copies
-- the fields under their names, and the JSON of an event is a parameter.
use eval_prompt.Prelude.{
  ℕ, ◌≡◌, ◌≢◌, ◌⊎◌, inl, inr, false, not, ◌&&◌, Option, none, some, List, ◌++◌, arith,
  if◌then◌else◌, ◌==◌, nat_eq, list_eq, Text, text, is_empty,
}
use eval_prompt.Prelude.Int.{ℤ, ◌≤ℤ◌, ltb_ℤ, pos}
use eval_prompt.Prelude.Values.{Fraction}
use eval_prompt.Domain.Errors.{Failure, plain}
use eval_prompt.Domain.Types.{EntityId, id_is_empty}

pub record BaseEvent : Type 0 where
  pub event_id : EntityId
  pub aggregate_type : Text
  pub aggregate_id : EntityId
  pub event_type : Text
  pub occurred_at : ℕ
  pub idempotency_key : Text
  pub version : ℤ

-- What is generated for a new event: its ID, the time and the idempotency key.
pub record Fresh : Type 0 where
  pub event_id : EntityId
  pub now : ℕ
  pub key : Text

unfoldable pub new_base_event : Fresh → Text → EntityId → Text → ℤ → BaseEvent
new_base_event fresh aggregate_type aggregate_id event_type version = record {
  event_id = fresh.event_id;
  aggregate_type = aggregate_type;
  aggregate_id = aggregate_id;
  event_type = event_type;
  occurred_at = fresh.now;
  idempotency_key = fresh.key;
  version = version;
}

unfoldable pub validate_base : BaseEvent → Option Failure
validate_base e =
    if id_is_empty e.event_id
    then some (plain (text "event_id is required"))
    else if is_empty e.aggregate_type
    then some (plain (text "aggregate_type is required"))
    else if id_is_empty e.aggregate_id
    then some (plain (text "aggregate_id is required"))
    else if is_empty e.event_type
    then some (plain (text "event_type is required"))
    else if ltb_ℤ e.version (pos 0)
    then some (plain (text "version must be non-negative"))
    else none

-- The part of each event beside its base, and the base.
pub data EventBody : Type 0 where
  prompt_asset_created :
      (name description asset_type : Text) → List Text → (file_path : Text) → EventBody
  prompt_asset_updated : (content_hash reason : Text) → EventBody
  snapshot_committed :
      (snapshot_id : EntityId) (version content_hash commit_hash author reason : Text) → EventBody
  label_promoted : (label_name from_version to_version : Text) (eval_score : ℤ) → EventBody
  eval_completed :
      (eval_run_id eval_case_id snapshot_id : EntityId) (status : Text)
      (deterministic_score : Fraction) (rubric_score total_score duration_ms : ℤ)
      → EventBody
  prompt_adapted : (source_model target_model adapted_content : Text) (score_delta : ℤ) → EventBody

pub record DomainEvent : Type 0 where
  pub base : BaseEvent
  pub body : EventBody

-- The checks of each Validate after those of the base.
unfoldable pub validate_body : EventBody → Option Failure
validate_body (prompt_asset_created name _ _ _ _) =
    if is_empty name then some (plain (text "name is required")) else none
validate_body (prompt_asset_updated content_hash _) =
    if is_empty content_hash then some (plain (text "content_hash is required")) else none
validate_body (snapshot_committed snapshot_id version _ _ _ _) =
    if id_is_empty snapshot_id
    then some (plain (text "snapshot_id is required"))
    else if is_empty version
    then some (plain (text "version is required"))
    else none
validate_body (label_promoted label_name _ to_version _) =
    if is_empty label_name
    then some (plain (text "label_name is required"))
    else if is_empty to_version
    then some (plain (text "to_version is required"))
    else none
validate_body (eval_completed eval_run_id _ _ status _ _ _ _) =
    if id_is_empty eval_run_id
    then some (plain (text "eval_run_id is required"))
    else if not (status == text "passed") && not (status == text "failed")
    then some (plain (text "status must be 'passed' or 'failed'"))
    else none
validate_body (prompt_adapted source_model target_model _ _) =
    if is_empty source_model
    then some (plain (text "source_model is required"))
    else if is_empty target_model
    then some (plain (text "target_model is required"))
    else none

unfoldable pub validate_event : DomainEvent → Option Failure
unfolding validate_base validate_body
validate_event e = elim (validate_base e.base) [ some err ↦ some err | none ↦ validate_body e.body ]

-- The aggregate type and the event type that each constructor gives to the base.
abbrev pub kind_of : EventBody → Text × Text
kind_of (prompt_asset_created _ _ _ _ _) = (text "Asset", text "PromptAssetCreatedV1")
kind_of (prompt_asset_updated _ _) = (text "Asset", text "PromptAssetUpdatedV1")
kind_of (snapshot_committed _ _ _ _ _ _) = (text "Snapshot", text "SnapshotCommittedV1")
kind_of (label_promoted _ _ _ _) = (text "Label", text "LabelPromotedV1")
kind_of (eval_completed _ _ _ _ _ _ _ _) = (text "EvalRun", text "EvalCompletedV1")
kind_of (prompt_adapted _ _ _ _) = (text "ModelAdaptation", text "PromptAdaptedV1")

-- The aggregate of an event: the ID given to the constructor, or the ID of the snapshot or of the
-- run where the constructor takes it from the body.
abbrev pub aggregate_of : EntityId → EventBody → EntityId
aggregate_of asset_id (snapshot_committed snapshot_id _ _ _ _ _) = snapshot_id
aggregate_of asset_id (eval_completed eval_run_id _ _ _ _ _ _ _) = eval_run_id
aggregate_of asset_id _ = asset_id

-- The constructors of the events.
unfoldable pub new_event : Fresh → EntityId → ℤ → EventBody → DomainEvent
unfolding new_base_event
new_event fresh asset_id version body = record {
  base =
      new_base_event fresh (kind_of body).0 (aggregate_of asset_id body) (kind_of body).1 version;
  body = body;
}

-- An outbox event; its status is pending.
pub record OutboxEvent : Type 0 where
  pub id : EntityId
  pub aggregate_type : Text
  pub aggregate_id : EntityId
  pub event_type : Text
  pub payload : Text
  pub occurred_at : ℕ
  pub idempotency_key : Text
  pub retry_count : ℕ

-- `to_json` is EventToJSON, with its error.
unfoldable pub new_outbox_event : (DomainEvent → Text ⊎ Text) → DomainEvent → OutboxEvent ⊎ Text
new_outbox_event to_json e = elim (to_json e) [
  | inr err ↦ inr err
  | inl payload ↦ inl (record {
    id = e.base.event_id;
    aggregate_type = e.base.aggregate_id.value;
    aggregate_id = e.base.aggregate_id;
    event_type = e.base.event_type;
    payload = payload;
    occurred_at = e.base.occurred_at;
    idempotency_key = e.base.aggregate_id.value ++ (text "/" ++ e.base.event_id.value);
    retry_count = 0;
  })
]

-- A new event with a generated ID, an aggregate and a version that is not negative passes its
-- validation exactly where its body does.
pub new_event-validate :
    (fresh : Fresh) (asset_id : EntityId) (version : ℤ) (body : EventBody)
    → is_empty fresh.event_id.value ≡ false
    → is_empty (aggregate_of asset_id body).value ≡ false
    → pos 0 ≤ℤ version
    → validate_event (new_event fresh asset_id version body) ≡ validate_body body
unfolding validate_event new_event
new_event-validate fresh asset_id version (prompt_asset_created n d a t f) h g v = ground arith
new_event-validate fresh asset_id version (prompt_asset_updated c r) h g v = ground arith
new_event-validate fresh asset_id version (snapshot_committed s w c k a r) h g v = ground arith
new_event-validate fresh asset_id version (label_promoted n f t s) h g v = ground arith
new_event-validate fresh asset_id version (eval_completed a b c d e f i j) h g v = ground arith
new_event-validate fresh asset_id version (prompt_adapted s t c d) h g v = ground arith

-- The outbox event of a new event does not carry the aggregate type of the event: it carries the
-- aggregate's ID in that place too, which differs from the type unless the ID is that very text.
pub new_outbox_event-aggregate_type :
    (to_json : DomainEvent → Text ⊎ Text) (fresh : Fresh) (asset_id : EntityId) (version : ℤ)
    (body : EventBody) (o : OutboxEvent)
    → new_outbox_event to_json (new_event fresh asset_id version body) ≡ inl o
    → (aggregate_of asset_id body).value ≢ (kind_of body).0
    → (o.aggregate_type ≡ o.aggregate_id.value)
      × (o.aggregate_type ≢ (new_event fresh asset_id version body).base.aggregate_type)
unfolding new_outbox_event new_event
new_outbox_event-aggregate_type to_json fresh asset_id version body o h d = ground arith
