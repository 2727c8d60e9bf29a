-- ===== src/FrontMatter/Markdown.antt =====
-- A prompt file as front matter and body: the rest of internal/yamlutil/frontmatter.go. The YAML
-- package is a parameter.
use eval_prompt.Prelude.{
  ◌+◌, ◌⊎◌, inl, inr, not, Option, none, some, [], ◌∷◌, ◌++◌, if◌then◌else◌, take, drop, ◌==◌,
  nat_eq, list_eq, Text, text,
}
use eval_prompt.Prelude.Strings.{has_prefix, has_suffix, index_of}
use eval_prompt.Prelude.Spaces.{trim_space}
use eval_prompt.Domain.Errors.{Failure}
use eval_prompt.Domain.FrontMatter.{
  FrontMatter, validate_front_matter, EvalPromptFrontMatter, validate_eval_prompt,
}

-- yaml.Unmarshal into an empty struct, yaml.Marshal, and the text of an error.
pub record Yaml (T : Type 0) : Type 0 where
  pub unmarshal : Text → T ⊎ Text
  pub marshal : T → Text ⊎ Text
  pub error_text : Failure → Text

abbrev pub dashes : Text
dashes = text "---"

-- What follows the opening delimiter.
abbrev pub after_opening : Text → Text
after_opening content =
    let rest = drop 3 content in elim rest [ [] ↦ [] | c ∷ s ↦ if c == 10 then s else c ∷ s ]

module _ {T : Type 0} (yaml : Yaml T) (validate : T → Option Failure) where
  -- parseFrontMatterInto. `invalid` is the text before a validation error.
  unfoldable pub parse_front_matter_into : Text → Text → (T × Text) ⊎ Text
  unfolding has_prefix index_of trim_space
  parse_front_matter_into invalid content =
      if not (has_prefix content dashes)
      then inr (text "no front matter found: expected --- at start")
      else elim (index_of (after_opening content) dashes) [
        | none ↦ inr (text "no closing --- found")
        | some idx ↦ elim (yaml.unmarshal (trim_space (take idx (after_opening content)))) [
          | inr err ↦ inr (text "failed to parse front matter: " ++ err)
          | inl fm ↦ elim (validate fm) [
            | some err ↦ inr (invalid ++ yaml.error_text err)
            | none ↦ inl (fm, trim_space (drop (idx + 3) (after_opening content)))
          ]
        ]
      ]

module _ {T : Type 0} (yaml : Yaml T) where
  -- FormatMarkdown. `failed` is the text before an error of yaml.Marshal.
  unfoldable pub format_front_matter : Text → T → Text → Text ⊎ Text
  unfolding has_suffix
  format_front_matter failed fm content = elim (yaml.marshal fm) [
    | inr err ↦ inr (failed ++ err)
    | inl yaml_content ↦ inl (
        text "---\n"
        ++ (yaml_content
            ++ (text "---\n"
                ++ (content ++ (if has_suffix content (text "\n") then [] else text "\n")))))
  ]

unfoldable pub parse_front_matter : Yaml FrontMatter → Text → (FrontMatter × Text) ⊎ Text
unfolding parse_front_matter_into validate_front_matter
parse_front_matter yaml content =
    parse_front_matter_into yaml validate_front_matter (text "front matter validation failed: ")
      content

unfoldable pub parse_eval_prompt_front_matter :
    Yaml EvalPromptFrontMatter → Text → (EvalPromptFrontMatter × Text) ⊎ Text
unfolding parse_front_matter_into validate_eval_prompt
parse_eval_prompt_front_matter yaml content =
    parse_front_matter_into yaml validate_eval_prompt
      (text "eval prompt front matter validation failed: ") content

unfoldable pub format_markdown : Yaml FrontMatter → FrontMatter → Text → Text ⊎ Text
unfolding format_front_matter
format_markdown yaml fm content =
    format_front_matter yaml (text "failed to serialize front matter: ") fm content

unfoldable pub format_eval_prompt_markdown :
    Yaml EvalPromptFrontMatter → EvalPromptFrontMatter → Text → Text ⊎ Text
unfolding format_front_matter
format_eval_prompt_markdown yaml fm content =
    format_front_matter yaml (text "failed to serialize eval prompt front matter: ") fm content
