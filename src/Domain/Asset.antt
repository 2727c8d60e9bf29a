-- ===== src/Domain/Asset.antt =====
-- The asset entity (internal/domain/asset.go) and its state machine
-- (internal/domain/state_machine.go, NewAssetStateMachine).
pub mod Machine
pub mod History
mod Examples
use eval_prompt.Prelude.{
  ℕ, suc, ◌≤◌, String, ◌≡◌, ◌↔◌, Bool, true, false, not, ◌&&◌, ◌||◌, Option, none, some, List,
  arith, if◌then◌else◌, length, Eq, decide_beq, decide_beq_iff, ◌==◌, string_eq, nat_eq, list_eq,
  String-discrete, Text, text, is_empty,
}
use eval_prompt.Prelude.Int.{ℤ, pos}
use eval_prompt.Domain.Errors.{
  Failure, asset_content_hash_mismatch, asset_file_path_invalid, new_domain_error, err_invalid_id,
  err_state_transition, domain,
}
use eval_prompt.Domain.Types.{EntityId, id_is_empty, validate_length}
use eval_prompt.Domain.Events.{
  EventType, event_type_eq, prompt_asset_updated, prompt_asset_archived, label_promoted,
  eval_started, eval_completed, eval_failed,
}

-- A Go `State` is a string: `other_state` is any string but the constants.
pub data State : Type 0 where
  created evaluating evaluated promoted archived : State
  other_state : String → State

unfoldable pub State-discrete : Discrete State
State-discrete = hlevel String-discrete

instance abbrev pub state_eq : Eq State
state_eq = record { beq = decide_beq State-discrete; beq_iff = decide_beq_iff State-discrete }

abbrev pub is_created : State → Bool
is_created created = true
is_created _ = false

abbrev pub is_evaluated : State → Bool
is_evaluated evaluated = true
is_evaluated _ = false

abbrev pub is_promoted : State → Bool
is_promoted promoted = true
is_promoted _ = false

-- `string(a.State)`.
abbrev pub state_text : State → Text
state_text created = text "CREATED"
state_text evaluating = text "EVALUATING"
state_text evaluated = text "EVALUATED"
state_text promoted = text "PROMOTED"
state_text archived = text "ARCHIVED"
state_text (other_state s) = text s

-- A time is a number of ticks; 0 is the zero time.
pub record Asset : Type 0 where
  pub id : EntityId
  pub name : Text
  pub description : Text
  pub asset_type : Text
  pub category : Text
  pub tags : List Text
  pub content_hash : Text
  pub file_path : Text
  pub repo_path : Text
  pub state : State
  pub created_at : ℕ
  pub updated_at : ℕ
  pub version : ℕ

-- Validate. `print` is how fmt prints an int.
unfoldable pub validate : (ℤ → Text) → Asset → Option Failure
validate print a =
    if id_is_empty a.id
    then some (domain (err_invalid_id a.id.value))
    else elim (validate_length print (text "name") a.name (pos 1) (pos 100)) [
      | some err ↦ some err
      | none ↦
          if is_empty a.content_hash
          then some (
              domain
                (new_domain_error asset_content_hash_mismatch (text "content hash is required")))
          else if is_empty a.file_path
          then some
              (domain (new_domain_error asset_file_path_invalid (text "file path is required")))
          else none
    ]

unfoldable pub can_promote : Asset → Bool
can_promote a = is_evaluated a.state || is_promoted a.state

unfoldable pub can_eval : Asset → Bool
can_eval a = is_created a.state || is_evaluated a.state

unfoldable pub can_archive : Asset → Bool
can_archive a = is_created a.state || (is_evaluated a.state || is_promoted a.state)

-- The `switch` of canTransitionTo, over the current state.
unfoldable pub state_can_transition_to : State → State → EventType → Bool
state_can_transition_to created to event =
    if to == evaluating && event == eval_started
    then true
    else if to == archived && event == prompt_asset_archived
    then true
    else false
state_can_transition_to evaluating to event =
    if to == evaluated && event == eval_completed
    then true
    else if to == created && event == eval_failed
    then true
    else false
state_can_transition_to evaluated to event =
    if to == promoted && event == label_promoted
    then true
    else if to == created && event == prompt_asset_updated
    then true
    else if to == archived && event == prompt_asset_archived
    then true
    else false
state_can_transition_to promoted to event =
    if to == created && event == prompt_asset_updated
    then true
    else if to == archived && event == prompt_asset_archived
    then true
    else false
state_can_transition_to archived to event = false
state_can_transition_to (other_state s) to event = false

unfoldable pub can_transition_to : Asset → State → EventType → Bool
unfolding state_can_transition_to
can_transition_to a to event = state_can_transition_to a.state to event

-- TransitionTo, at the time `now`.
unfoldable pub transition_to : State → EventType → ℕ → Asset → Asset × Option Failure
unfolding can_transition_to
transition_to new_state event now a =
    if not (can_transition_to a new_state event)
    then (
      a,
      some (
          domain (err_state_transition (text "Asset") (state_text a.state) (state_text new_state))),
    )
    else (record a { state = new_state; updated_at = now; version = suc a.version }, none)

unfoldable pub new_asset_with_id :
    EntityId → ℕ → Text → Text → Text → Text → List Text → Text → Text → Text → Asset
new_asset_with_id id now name description biz_line category tags content_hash file_path repo_path =
    record {
      id = id;
      name = name;
      description = description;
      asset_type = biz_line;
      category = category;
      tags = tags;
      content_hash = content_hash;
      file_path = file_path;
      repo_path = repo_path;
      state = created;
      created_at = now;
      updated_at = now;
      version = 0;
    }

-- Validate accepts exactly the assets with an ID, a name of 1 to 100 bytes, a content hash and a
-- file path.
pub asset_validate_iff :
    (print : ℤ → Text) (a : Asset)
    → (validate print a ≡ none) ↔ (
        (is_empty a.id.value ≡ false)
        × ((1 ≤ length a.name)
            × ((length a.name ≤ 100)
                × ((is_empty a.content_hash ≡ false) × (is_empty a.file_path ≡ false)))))
unfolding validate validate_length
asset_validate_iff print a = ground arith
