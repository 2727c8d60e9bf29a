-- ===== src/FrontMatter/Examples.antt =====
-- Runs of NormalizeBody, FormatMarkdown and ParseFrontMatter of internal/yamlutil/frontmatter.go.
use eval_prompt.Prelude.{◌≡◌, refl, inl, [], ◌∷◌, ◌++◌, Text, text}
use eval_prompt.Prelude.Strings.{has_prefix, contains_text}
use eval_prompt.Prelude.Spaces.{trim_space}
use eval_prompt.Domain.FrontMatter.{FrontMatter, validate_front_matter}
use eval_prompt.FrontMatter.Markdown.{Yaml, dashes, parse_front_matter, format_markdown}
use eval_prompt.FrontMatter.Reread.{parse_front_matter-format_markdown, parse_front_matter_cuts}
use eval_prompt.FrontMatter.{normalize_body}
use eval_prompt.FrontMatter.Idempotent.{normalize_body-normalize_body}

-- A blank line, `hi` with a trailing blank, a carriage return, and two more blank lines.
abbrev body : Text
body = 10 ∷ (text "hi " ++ (13 ∷ 10 ∷ 10 ∷ 32 ∷ 10 ∷ []))

normalize_body-normalize_body_example : normalize_body (normalize_body body) ≡ normalize_body body
normalize_body-normalize_body_example = normalize_body-normalize_body body

abbrev fm : FrontMatter
fm = record {
  id = text "a";
  name = text "A";
  description = [];
  version = [];
  content_hash = [];
  state = [];
  asset_type = [];
  tags = [];
  keywords = [];
  updated_at = 0;
  category = [];
  eval_history = [];
  eval_stats = [];
  labels = [];
  recommended_snapshot_id = [];
  triggers = [];
  test_cases = [];
}

abbrev yaml : Yaml FrontMatter
yaml = record {
  unmarshal = λ _. inl fm;
  marshal = λ _. inl (text "id: a\nname: A\n");
  error_text = λ _. [];
}

parse_front_matter-format_markdown_example :
    (file : Text) × ((format_markdown yaml fm (text "\nbody ") ≡ inl file)
      × (parse_front_matter yaml file ≡ inl (fm, trim_space (text "\nbody "))))
unfolding contains_text has_prefix validate_front_matter
parse_front_matter-format_markdown_example =
    parse_front_matter-format_markdown yaml fm (text "id: a\nname: A\n") (text "\nbody ") refl refl
      refl refl

parse_front_matter_cuts_example :
    parse_front_matter yaml
      (text "---\n" ++ (text "id: a\nname: A" ++ (dashes ++ text "B\n---\nbody")))
    ≡ inl (fm, trim_space (text "B\n---\nbody"))
unfolding contains_text has_prefix validate_front_matter
parse_front_matter_cuts_example =
    parse_front_matter_cuts yaml (text "id: a\nname: A") (text "B\n---\nbody") fm refl refl refl
