-- ===== src/Domain/Errors.antt =====
-- internal/domain/errors.go. LayerName repeats the layer as text, and is left out.
use eval_prompt.Prelude.{
  ℕ, ◌≡◌, refl, ◌↔◌, ◌⊎◌, Bool, true, false, ◌||◌, Option, none, some, [], ◌++◌, arith,
  if◌then◌else◌, ◌==◌, nat_eq, Text, text,
}

pub record ErrorCode : Type 0 where
  pub layer : ℕ
  pub sequence : ℕ

pub record DomainError : Type 0 where
  pub code : ErrorCode
  pub message : Text
  pub details : Text
  pub layer : ℕ

-- A Go `error`: one of fmt.Errorf and errors.New, or a DomainError.
pub data Failure : Type 0 where
  plain : Text → Failure
  domain : DomainError → Failure

abbrev pub invalid_entity_id : ErrorCode
invalid_entity_id = record { layer = 2; sequence = 201 }

abbrev pub entity_not_found : ErrorCode
entity_not_found = record { layer = 2; sequence = 202 }

abbrev pub invalid_state_transition : ErrorCode
invalid_state_transition = record { layer = 2; sequence = 203 }

abbrev pub concurrency_conflict : ErrorCode
concurrency_conflict = record { layer = 2; sequence = 205 }

abbrev pub domain_rule_violation : ErrorCode
domain_rule_violation = record { layer = 2; sequence = 206 }

abbrev pub asset_name_empty : ErrorCode
asset_name_empty = record { layer = 2; sequence = 209 }

abbrev pub asset_content_hash_mismatch : ErrorCode
asset_content_hash_mismatch = record { layer = 2; sequence = 211 }

abbrev pub asset_file_path_invalid : ErrorCode
asset_file_path_invalid = record { layer = 2; sequence = 212 }

abbrev pub asset_type_required : ErrorCode
asset_type_required = record { layer = 2; sequence = 214 }

abbrev pub asset_type_invalid : ErrorCode
asset_type_invalid = record { layer = 2; sequence = 215 }

abbrev pub asset_main_required : ErrorCode
asset_main_required = record { layer = 2; sequence = 216 }

abbrev pub asset_state_invalid : ErrorCode
asset_state_invalid = record { layer = 2; sequence = 217 }

abbrev pub asset_category_invalid : ErrorCode
asset_category_invalid = record { layer = 2; sequence = 218 }

abbrev pub snapshot_version_invalid : ErrorCode
snapshot_version_invalid = record { layer = 2; sequence = 220 }

abbrev pub snapshot_not_found : ErrorCode
snapshot_not_found = record { layer = 2; sequence = 221 }

abbrev pub label_name_invalid : ErrorCode
label_name_invalid = record { layer = 2; sequence = 240 }

abbrev pub eval_case_not_found : ErrorCode
eval_case_not_found = record { layer = 2; sequence = 260 }

unfoldable pub new_domain_error : ErrorCode → Text → DomainError
new_domain_error code message = record {
  code = code;
  message = message;
  details = [];
  layer = code.layer;
}

unfoldable pub new_domain_error_with_details : ErrorCode → Text → Text → DomainError
new_domain_error_with_details code message details = record {
  code = code;
  message = message;
  details = details;
  layer = code.layer;
}

-- WrapError: the error's text is the caller's, since it depends on how fmt prints it.
unfoldable pub wrap_error : (Failure → Text) → Option Failure → ErrorCode → Text → Option Failure
wrap_error error_text none code message = none
wrap_error error_text (some err) code message = some (
    domain
      (record { code = code; message = message; details = error_text err; layer = code.layer }))

unfoldable pub err_invalid_id : Text → DomainError
unfolding new_domain_error_with_details
err_invalid_id id =
    new_domain_error_with_details invalid_entity_id (text "invalid entity ID format") id

unfoldable pub err_not_found : Text → Text → DomainError
unfolding new_domain_error_with_details
err_not_found entity_type id =
    new_domain_error_with_details entity_not_found (entity_type ++ text " not found") id

unfoldable pub err_state_transition : Text → Text → Text → DomainError
unfolding new_domain_error_with_details
err_state_transition entity_type from to =
    new_domain_error_with_details invalid_state_transition
      (text "invalid state transition for " ++ entity_type) (from ++ (text " -> " ++ to))

unfoldable pub err_domain_violation : Text → Text → DomainError
unfolding new_domain_error_with_details
err_domain_violation rule details =
    new_domain_error_with_details domain_rule_violation (text "domain rule violation: " ++ rule)
      details

-- The `switch` on the sequence of an L2 code.
l2_status : ℕ → ℕ
l2_status s =
    if s == 201 || (s == 204 || (s == 206 || (s == 207 || s == 208)))
    then 400
    else if s == 202 || s == 205
    then 409
    else 500

-- The `switch` on the sequence of an L4 code.
l4_status : ℕ → ℕ
l4_status s = if s == 600 then 400 else if s == 601 || s == 602 then 404 else 500

unfoldable pub http_status : DomainError → ℕ
unfolding l2_status l4_status
http_status e =
    let l = e.code.layer in
    if l == 1
    then 500
    else if l == 2
    then l2_status e.code.sequence
    else if l == 3
    then 403
    else if l == 4
    then l4_status e.code.sequence
    else if l == 5
    then 400
    else 500

unfoldable pub is_not_found : DomainError → Bool
unfolding http_status
is_not_found e = http_status e == 404

unfoldable pub is_conflict : DomainError → Bool
unfolding http_status
is_conflict e = http_status e == 409

-- IsNotFound is true for the codes L4601 and L4602, and for no other. IsConflict is true for the
-- codes L2202 and L2205, and for no other.
pub is_not_found_iff :
    (e : DomainError)
    → ((is_not_found e ≡ true)
        ↔ ((e.code.layer ≡ 4) × ((e.code.sequence ≡ 601) ⊎ (e.code.sequence ≡ 602))))
      × ((is_conflict e ≡ true)
          ↔ ((e.code.layer ≡ 2) × ((e.code.sequence ≡ 202) ⊎ (e.code.sequence ≡ 205))))
unfolding is_not_found is_conflict
is_not_found_iff e = ground arith

-- The error that ErrNotFound makes is not a not-found error by IsNotFound: it is a conflict, with
-- the status 409.
pub err_not_found-is_conflict :
    (entity_type id : Text)
    → (is_not_found (err_not_found entity_type id) ≡ false)
      × ((is_conflict (err_not_found entity_type id) ≡ true)
          × (http_status (err_not_found entity_type id) ≡ 409))
unfolding is_not_found is_conflict err_not_found
err_not_found-is_conflict entity_type id = (refl, (refl, refl))
