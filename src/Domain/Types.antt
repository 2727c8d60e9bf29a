-- ===== src/Domain/Types.antt =====
-- Identifiers, states and validation helpers of internal/domain/types.go.
use eval_prompt.Prelude.{
  ◌≡◌, ◌↔◌, Bool, true, false, not, ◌&&◌, Option, none, some, List, [], ◌∷◌, ◌++◌, arith,
  if◌then◌else◌, length, Eq, ◌==◌, list_beq_iff, nat_eq, list_eq, Text, text, is_empty,
}
use eval_prompt.Prelude.Int.{ℤ, ltb_ℤ, leb_ℤ, int_eq, pos}
use eval_prompt.Domain.Errors.{Failure, plain}

-- The value of an ID; the zero value is the empty text.
pub record EntityId : Type 0 where
  pub value : Text

abbrev pub id_is_empty : EntityId → Bool
id_is_empty id = is_empty id.value

abbrev pub id_equal : EntityId → EntityId → Bool
id_equal a b = a.value == b.value

pub id_equal_iff : (a b : EntityId) → (id_equal a b ≡ true) ↔ (a ≡ b)
id_equal_iff a b = ground (arith, list_beq_iff a.value b.value)

instance abbrev pub id_eq : Eq EntityId
id_eq = record { beq = id_equal; beq_iff = id_equal_iff }

-- `ids.Contains`.
unfoldable pub ids_contains : List EntityId → EntityId → Bool
ids_contains [] id = false
ids_contains (other ∷ ids) id =
    let rest = ids_contains ids id in if id_equal id other then true else rest

unfoldable pub string_slice : List EntityId → List Text
string_slice [] = []
string_slice (id ∷ ids) = id.value ∷ string_slice ids

-- ulid.Parse is a library's: `is_valid_ulid` says whether it gives no error.
module _ (is_valid_ulid : Text → Bool) where
  unfoldable pub new_id : Text → EntityId × Option Failure
  new_id value =
      if not (is_valid_ulid value)
      then (record { value = [] }, some (plain (text "invalid ULID: " ++ value)))
      else (record { value = value }, none)

  unfoldable pub validate_id : Text → Option Failure
  validate_id id =
      if is_empty id
      then some (plain (text "ID cannot be empty"))
      else if not (is_valid_ulid id)
      then some (plain (text "ID must be a valid ULID: " ++ id))
      else none

-- len(value) < min, len(value) > max: the messages print the bounds, which fmt does.
unfoldable pub validate_length : (ℤ → Text) → Text → Text → ℤ → ℤ → Option Failure
validate_length print name value min max =
    if ltb_ℤ (pos (length value)) min
    then some (plain (name ++ (text " must be at least " ++ (print min ++ text " characters"))))
    else if ltb_ℤ max (pos (length value))
    then some (plain (name ++ (text " must be at most " ++ (print max ++ text " characters"))))
    else none

-- A value of Go's `int` type EntityState.
abbrev pub EntityState : Type 0
EntityState = ℤ

abbrev pub entity_state_is_valid : EntityState → Bool
entity_state_is_valid s = leb_ℤ (pos 0) s && leb_ℤ s (pos 3)

unfoldable pub entity_state_string : EntityState → Text
entity_state_string s =
    if s == pos 0
    then text "created"
    else if s == pos 1
    then text "active"
    else if s == pos 2
    then text "inactive"
    else if s == pos 3
    then text "deleted"
    else text "unknown"
