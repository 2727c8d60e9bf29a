-- ===== src/Domain/AssetFile.antt =====
-- The registry file asset.yaml of an asset: internal/domain/asset_yaml.go. The YAML package is a
-- parameter, and so is the user's home directory.
pub mod Parsed
use eval_prompt.Prelude.{
  ℕ, ◌⊎◌, inl, inr, Bool, true, false, not, ◌&&◌, ◌||◌, Option, none, some, List, [], ◌∷◌, ◌++◌,
  if◌then◌else◌, drop, any, ◌==◌, contains, nat_eq, list_eq, Text, text, is_empty,
}
use eval_prompt.Prelude.Strings.{has_prefix, trim_prefix}
use eval_prompt.Prelude.Spaces.{trim_space}
use eval_prompt.Domain.Errors.{
  Failure, asset_name_empty, asset_type_required, asset_type_invalid, asset_main_required,
  asset_state_invalid, asset_category_invalid, new_domain_error, domain,
}
use eval_prompt.Domain.FrontMatter.{FrontMatter}

pub record FileEntry : Type 0 where
  pub path : Text
  pub role : Text

pub record Upstream : Type 0 where
  pub url : Text
  pub branch : Text
  pub last_sync : Text

-- A zero time is the tick 0.
pub record AssetMetadata : Type 0 where
  pub created_at : ℕ
  pub created_by : Text
  pub updated_at : ℕ
  pub updated_by : Text

pub record AssetYaml : Type 0 where
  pub asset_type : Text
  pub name : Text
  pub main : Text
  pub description : Text
  pub tags : List Text
  pub category : Text
  pub state : Text
  pub main_function : Text
  pub files : List FileEntry
  pub external : List FileEntry
  pub version : Text
  pub upstream : Option Upstream
  pub metadata : Option AssetMetadata

unfoldable pub is_valid_asset_type : Text → Bool
is_valid_asset_type t =
    contains
      (text "prompt"
        ∷ text "skill"
        ∷ text "agent"
        ∷ text "mcp"
        ∷ text "workflow"
        ∷ text "knowledge"
        ∷ [])
      t

unfoldable pub is_valid_state : Text → Bool
is_valid_state s =
    contains
      (text "draft" ∷ text "published" ∷ text "archived" ∷ text "deleted" ∷ text "unavailable" ∷ [])
      s

unfoldable pub is_valid_category : Text → Bool
is_valid_category c = contains (text "content" ∷ text "eval" ∷ text "metric" ∷ []) c

unfoldable pub validate_asset_yaml : AssetYaml → Option Failure
unfolding is_valid_asset_type is_valid_state is_valid_category
validate_asset_yaml a =
    if is_empty a.asset_type
    then some (domain (new_domain_error asset_type_required (text "asset_type is required")))
    else if not (is_valid_asset_type a.asset_type)
    then some (
        domain (
          new_domain_error asset_type_invalid
            (text "asset_type must be one of: prompt, skill, agent, mcp, workflow, knowledge")))
    else if is_empty a.name
    then some (domain (new_domain_error asset_name_empty (text "name is required")))
    else if is_empty a.main
    then some (domain (new_domain_error asset_main_required (text "main is required")))
    else if not (is_empty a.state) && not (is_valid_state a.state)
    then some (
        domain (
          new_domain_error asset_state_invalid
            (text "state must be one of: draft, published, archived, deleted, unavailable")))
    else if not (is_empty a.category) && not (is_valid_category a.category)
    then some (
        domain (
          new_domain_error asset_category_invalid
            (text "category must be one of: content, eval, metric")))
    else none

unfoldable pub default_state : AssetYaml → Text
default_state a = if is_empty a.state then text "draft" else a.state

unfoldable pub default_category : AssetYaml → Text
default_category a = if is_empty a.category then text "content" else a.category

-- The path and whether it is outside the repository. `home` is os.UserHomeDir.
unfoldable pub resolve_main : Text ⊎ Text → AssetYaml → Text → (Text × Bool) ⊎ Text
unfolding trim_space has_prefix trim_prefix
resolve_main home a repo_path =
    let main = trim_space a.main in
    if is_empty main
    then inr (text "main path is empty")
    else if has_prefix main (text "~/") || main == text "~"
    then elim home [
      | inr err ↦ inr (text "expand home directory: get user home directory: " ++ err)
      | inl dir ↦ if main == text "~" then inl (dir, true) else inl (dir ++ drop 1 main, true)
    ]
    else if has_prefix main (text "/")
    then inl (main, true)
    else if is_empty repo_path
    then inl (main, false)
    else inl (trim_prefix (trim_prefix main repo_path) (text "/"), false)

-- The loops over the files of GetMainFileRole, GetFileRole and HasFile.
unfoldable pub role_in : List FileEntry → Text → Option Text
role_in [] path = none
role_in (f ∷ fs) path = let rest = role_in fs path in if f.path == path then some f.role else rest

unfoldable pub get_main_file_role : AssetYaml → Text
unfolding role_in
get_main_file_role a = elim (role_in a.files a.main) [ some role ↦ role | none ↦ text "main" ]

unfoldable pub has_file : AssetYaml → Text → Bool
has_file a path = any (λ (f : FileEntry). f.path == path) a.files

unfoldable pub has_external : AssetYaml → Text → Bool
has_external a path = any (λ (e : FileEntry). e.path == path) a.external

unfoldable pub get_file_role : AssetYaml → Text → Text
unfolding role_in
get_file_role a path = elim (role_in a.files path) [
  | some role ↦ role
  | none ↦ elim (role_in a.external path) [ some role ↦ role | none ↦ [] ]
]

unfoldable pub new_asset_yaml : ℕ → Text → Text → Text → AssetYaml
new_asset_yaml now asset_type name main = record {
  asset_type = asset_type;
  name = name;
  main = main;
  description = [];
  tags = [];
  category = text "content";
  state = text "draft";
  main_function = [];
  files = [];
  external = [];
  version = [];
  upstream = none;
  metadata = some (record { created_at = now; created_by = []; updated_at = now; updated_by = [] });
}

-- `unmarshal` is yaml.Unmarshal into an empty AssetYAML, `error_text` the text of an error.
unfoldable pub parse_asset_yaml :
    (Text → AssetYaml ⊎ Text) → (Failure → Text) → Text → AssetYaml ⊎ Text
unfolding validate_asset_yaml default_state default_category
parse_asset_yaml unmarshal error_text content =
    if is_empty content then inr (text "empty content") else elim (unmarshal content) [
      | inr err ↦ inr (text "parse asset yaml: " ++ err)
      | inl ay ↦
          let ay' : AssetYaml = record ay {
            state = default_state ay;
            category = default_category ay;
          } in
          elim (validate_asset_yaml ay') [
            | some err ↦ inr (text "validate asset yaml: " ++ error_text err)
            | none ↦ inl ay'
          ]
    ]

unfoldable pub asset_yaml_from_front_matter : FrontMatter → Text → AssetYaml
asset_yaml_from_front_matter fm main_path = record {
  asset_type = fm.asset_type;
  name = fm.name;
  main = main_path;
  description = fm.description;
  tags = fm.tags;
  category = if is_empty fm.category then text "content" else fm.category;
  state = if is_empty fm.state then text "draft" else fm.state;
  main_function = [];
  files = [];
  external = [];
  version = fm.version;
  upstream = none;
  metadata =
      some
        (record { created_at = 0; created_by = []; updated_at = fm.updated_at; updated_by = [] });
}
