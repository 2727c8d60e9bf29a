-- ===== src/Domain/AssetFile/Parsed.antt =====
-- What ParseAssetYAML of internal/domain/asset_yaml.go promises of the files that it accepts.
use eval_prompt.Prelude.{
  ◌≡◌, refl, ◌⊎◌, inl, inr, Bool, true, false, not, ◌&&◌, Option, none, some, [], ◌∷◌, ◌++◌, arith,
  guard_passed, Text, text, is_empty,
}
use eval_prompt.Domain.Errors.{Failure}
use eval_prompt.Domain.AssetFile.{
  AssetYaml, is_valid_asset_type, is_valid_state, is_valid_category, validate_asset_yaml,
  default_state, default_category, parse_asset_yaml,
}

abbrev pub Known : AssetYaml → Type 0
Known ay =
    (is_valid_asset_type ay.asset_type ≡ true)
    × ((is_empty ay.name ≡ false)
        × ((is_empty ay.main ≡ false)
            × ((is_valid_state ay.state ≡ true) × (is_valid_category ay.category ≡ true))))

passed_test : (b : Bool) → not b ≡ false → b ≡ true
passed_test b h = ground arith

passed_filled : (a b : Bool) → a ≡ false → (not a && not b) ≡ false → b ≡ true
passed_filled a b e h = ground arith

validate_asset_yaml-Known :
    (ay : AssetYaml)
    → is_empty ay.state ≡ false
    → is_empty ay.category ≡ false
    → validate_asset_yaml ay ≡ none
    → Known ay
unfolding validate_asset_yaml
validate_asset_yaml-Known ay s c h =
    let (no_type, h1) = guard_passed (is_empty ay.asset_type) _ _ h in
    let (bad_type, h2) = guard_passed (not (is_valid_asset_type ay.asset_type)) _ _ h1 in
    let (no_name, h3) = guard_passed (is_empty ay.name) _ _ h2 in
    let (no_main, h4) = guard_passed (is_empty ay.main) _ _ h3 in
    let (bad_state, h5) =
      guard_passed (not (is_empty ay.state) && not (is_valid_state ay.state)) _ _ h4 in
    let (bad_category, h6) =
      guard_passed (not (is_empty ay.category) && not (is_valid_category ay.category)) _ _ h5 in
    (
      passed_test _ bad_type,
      (no_name, (no_main, (passed_filled _ _ s bad_state, passed_filled _ _ c bad_category))),
    )

default_state-filled :
    (ay : AssetYaml)
    → (is_empty (default_state ay) ≡ false) × (is_empty (default_category ay) ≡ false)
unfolding default_state default_category
default_state-filled ay = ground arith

-- A file that ParseAssetYAML accepts has a known type, a name, a main file, a known state and a
-- known category, also where the file leaves state or category out.
pub parse_asset_yaml-Known :
    (unmarshal : Text → AssetYaml ⊎ Text) (error_text : Failure → Text) (content : Text)
    (ay : AssetYaml)
    → parse_asset_yaml unmarshal error_text content ≡ inl ay
    → Known ay
unfolding parse_asset_yaml
parse_asset_yaml-Known unmarshal error_text [] ay h = cc
parse_asset_yaml-Known unmarshal error_text (c ∷ content) ay h = parsed (unmarshal (c ∷ content)) h
  where
    validated :
        (a : AssetYaml) (v : Option Failure)
        → validate_asset_yaml a ≡ v
        → is_empty a.state ≡ false
        → is_empty a.category ≡ false
        → elim v as (λ _. AssetYaml ⊎ Text) [
          | some err ↦ inr (text "validate asset yaml: " ++ error_text err)
          | none ↦ inl a
        ]
          ≡ inl ay
        → Known ay
    validated a (some err) e s t k = cc
    validated a none e s t k = let q : a ≡ ay = cc in rw q at (validate_asset_yaml-Known a s t e)

    parsed :
        (r : AssetYaml ⊎ Text)
        → elim r as (λ _. AssetYaml ⊎ Text) [
          | inr err ↦ inr (text "parse asset yaml: " ++ err)
          | inl a ↦
              let a' : AssetYaml = record a {
                state = default_state a;
                category = default_category a;
              } in
              elim (validate_asset_yaml a') [
                | some err ↦ inr (text "validate asset yaml: " ++ error_text err)
                | none ↦ inl a'
              ]
        ]
          ≡ inl ay
        → Known ay
    parsed (inr err) k = cc
    parsed (inl a) k =
        let a' : AssetYaml = record a { state = default_state a; category = default_category a } in
        validated a' (validate_asset_yaml a') refl (default_state-filled a).0
          (default_state-filled a).1 k
