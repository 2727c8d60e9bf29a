-- ===== src/Domain/FrontMatter.antt =====
-- The front matter of a prompt file: the records of internal/domain/frontmatter.go and their
-- validation. A map from a model's name to its statistics is a list of pairs.
use eval_prompt.Prelude.{ℕ, Option, none, some, List, if◌then◌else◌, Text, text, is_empty}
use eval_prompt.Prelude.Int.{ℤ}
use eval_prompt.Prelude.Values.{Fraction, Json}
use eval_prompt.Domain.Errors.{
  Failure, invalid_entity_id, asset_name_empty, new_domain_error, domain,
}

pub record EvalHistoryEntry : Type 0 where
  pub run_id : Text
  pub snapshot_id : Text
  pub score : ℤ
  pub deterministic_score : Fraction
  pub rubric_score : ℤ
  pub model : Text
  pub eval_case_version : Text
  pub tokens_in : ℤ
  pub tokens_out : ℤ
  pub duration_ms : ℤ
  pub date : Text
  pub by : Text

pub record ModelStat : Type 0 where
  pub count : ℤ
  pub mean : Fraction
  pub m2 : Fraction
  pub min : Fraction
  pub max : Fraction
  pub last_run : Text

abbrev pub EvalStats : Type 0
EvalStats = List (Text × ModelStat)

pub record LabelEntry : Type 0 where
  pub name : Text
  pub snapshot : Text
  pub date : Text

pub record TriggerEntry : Type 0 where
  pub pattern_text : Text
  pub examples : List Text
  pub confidence : Fraction

pub record TestCaseRubricCheck : Type 0 where
  pub check : Text
  pub weight : Fraction
  pub criteria : Text

pub record TestCaseExpected : Type 0 where
  pub score : ℤ
  pub content : Text

pub record TestCase : Type 0 where
  pub id : Text
  pub name : Text
  pub input : Json
  pub expected : Option TestCaseExpected
  pub rubric : List TestCaseRubricCheck

unfoldable pub validate_test_case : TestCase → Option Failure
validate_test_case tc =
    if is_empty tc.id
    then some (domain (new_domain_error invalid_entity_id (text "test case ID is required")))
    else none

pub record FrontMatter : Type 0 where
  pub id : Text
  pub name : Text
  pub description : Text
  pub version : Text
  pub content_hash : Text
  pub state : Text
  pub asset_type : Text
  pub tags : List Text
  pub keywords : List Text
  pub updated_at : ℕ
  pub category : Text
  pub eval_history : List EvalHistoryEntry
  pub eval_stats : EvalStats
  pub labels : List LabelEntry
  pub recommended_snapshot_id : Text
  pub triggers : List TriggerEntry
  pub test_cases : List TestCase

unfoldable pub validate_front_matter : FrontMatter → Option Failure
validate_front_matter f =
    if is_empty f.id
    then some (domain (new_domain_error invalid_entity_id (text "front matter id is required")))
    else if is_empty f.name
    then some (domain (new_domain_error asset_name_empty (text "front matter name is required")))
    else none

pub record EvalPromptFrontMatter : Type 0 where
  pub id : Text
  pub name : Text
  pub description : Text
  pub version : Text
  pub content_hash : Text
  pub state : Text
  pub asset_type : Text
  pub tags : List Text
  pub eval_case_ids : List Text
  pub model : Text
  pub test_cases : List TestCase

unfoldable pub validate_eval_prompt : EvalPromptFrontMatter → Option Failure
validate_eval_prompt f =
    if is_empty f.id
    then some (
        domain
          (new_domain_error invalid_entity_id (text "eval prompt front matter id is required")))
    else if is_empty f.name
    then some (
        domain
          (new_domain_error asset_name_empty (text "eval prompt front matter name is required")))
    else none
