-- ===== src/FrontMatter/Reread.antt =====
-- What FormatMarkdown of internal/yamlutil/frontmatter.go writes, ParseFrontMatter reads again.
use mathlib.Core.List.{reverse, reverse-append, append-nil}
use eval_prompt.Prelude.{
  ℕ, zero, suc, ◌+◌, ◌≡◌, refl, ap, ◌∙◌, inl, Bool, true, false, Option, none, some, List, [], ◌∷◌,
  ◌++◌, arith, if◌then◌else◌, or_false, length, drop, take-append, nat_eq, list_eq, Text, text,
  is_empty,
}
use eval_prompt.Prelude.Strings.{has_prefix, has_suffix, contains_text, index_of}
use eval_prompt.Prelude.Spaces.{space_before, space_behind, skip_spaces, trim_space}
use eval_prompt.Domain.Errors.{Failure}
use eval_prompt.Domain.FrontMatter.{FrontMatter, validate_front_matter}
use eval_prompt.FrontMatter.Markdown.{
  Yaml, dashes, parse_front_matter_into, format_front_matter, parse_front_matter, format_markdown,
}

-- The first bytes of a text before a delimiter decide whether one stands at its start.
dashes-has_prefix :
    (c : ℕ) (before after : Text)
    → has_prefix (c ∷ (before ++ (dashes ++ after))) dashes
      ≡ has_prefix (c ∷ (before ++ text "--")) dashes
unfolding has_prefix
dashes-has_prefix c [] after = refl
dashes-has_prefix c (d ∷ []) after = refl
dashes-has_prefix c (d ∷ e ∷ before) after = refl

index_of-dashes :
    (before after : Text)
    → contains_text (before ++ text "--") dashes ≡ false
    → index_of (before ++ (dashes ++ after)) dashes ≡ some (length before)
unfolding index_of contains_text has_prefix
index_of-dashes [] after h = refl
index_of-dashes (c ∷ before) after h =
    let (now, later) = or_false _ _ h in
    rw (dashes-has_prefix c before after ∙ now, index_of-dashes before after later) refl

drop-append {ℓ} :
    {A : Type ℓ} (n : ℕ) (xs ys : List A) → drop (length xs + n) (xs ++ ys) ≡ drop n ys
drop-append n [] ys = ap (λ m. drop m ys) (omega arith)
drop-append n (x ∷ xs) ys =
    let counted : suc (length xs) + n ≡ suc (length xs + n) = omega arith in
    rw counted (drop-append n xs ys)

-- A newline at the end does not make a space longer, and is one.
space_before-newline :
    (c : ℕ) (s : Text) → space_before (c ∷ (s ++ (10 ∷ []))) ≡ space_before (c ∷ s)
unfolding space_before
space_before-newline c [] = ground arith
space_before-newline c (d ∷ []) = ground arith
space_before-newline c (d ∷ e ∷ s) = refl

abbrev with_newline : Text → Text
with_newline s = if is_empty s then [] else s ++ (10 ∷ [])

skip_spaces-newline :
    (n : ℕ) (s : Text)
    → skip_spaces space_before n (s ++ (10 ∷ [])) ≡ with_newline (skip_spaces space_before n s)
unfolding skip_spaces space_before
skip_spaces-newline zero [] = refl
skip_spaces-newline (suc n) [] = refl
skip_spaces-newline (suc n) (c ∷ s) = skip_spaces-newline n s
skip_spaces-newline zero (c ∷ s) =
    rw (space_before-newline c s, skip_spaces)
      (by_space (space_before (c ∷ s)) (λ n. skip_spaces-newline n s))
  where
    by_space :
        (k : ℕ)
        → ((n : ℕ)
            → skip_spaces space_before n (s ++ (10 ∷ []))
              ≡ with_newline (skip_spaces space_before n s))
        → elim k as (λ _. Text) [
          | zero ↦ c ∷ (s ++ (10 ∷ []))
          | suc n ↦ skip_spaces space_before n (s ++ (10 ∷ []))
        ]
          ≡ with_newline (elim k [ zero ↦ c ∷ s | suc n ↦ skip_spaces space_before n s ])
    by_space zero h = refl
    by_space (suc n) h = h n

skip_spaces-newline_behind :
    (s : Text) → skip_spaces space_behind 0 (10 ∷ s) ≡ skip_spaces space_behind 0 s
unfolding skip_spaces space_behind
skip_spaces-newline_behind [] = refl
skip_spaces-newline_behind (c ∷ []) = refl
skip_spaces-newline_behind (c ∷ d ∷ s) = refl

reverse-with_newline :
    (s : Text)
    → skip_spaces space_behind 0 (reverse (with_newline s)) ≡ skip_spaces space_behind 0 (reverse s)
reverse-with_newline [] = refl
reverse-with_newline (c ∷ s) =
    ap (skip_spaces space_behind 0) (reverse-append (c ∷ s) (10 ∷ []))
    ∙ skip_spaces-newline_behind (reverse (c ∷ s))

trim_space-newline_after : (s : Text) → trim_space (s ++ (10 ∷ [])) ≡ trim_space s
unfolding trim_space
trim_space-newline_after s =
    ap (λ t. reverse (skip_spaces space_behind 0 (reverse t))) (skip_spaces-newline 0 s)
    ∙ ap reverse (reverse-with_newline (skip_spaces space_before 0 s))

trim_space-newline_before : (s : Text) → trim_space (10 ∷ s) ≡ trim_space s
unfolding trim_space skip_spaces space_before
trim_space-newline_before [] = refl
trim_space-newline_before (c ∷ []) = refl
trim_space-newline_before (c ∷ d ∷ s) = refl

-- A file that ParseFrontMatter reads: an opening line, YAML up to the first three dashes, a rest.
parse-delimited :
    {T : Type 0} (yaml : Yaml T) (validate : T → Option Failure) (invalid before after : Text)
    (fm : T)
    → contains_text (before ++ text "--") dashes ≡ false
    → yaml.unmarshal (trim_space before) ≡ inl fm
    → validate fm ≡ none
    → parse_front_matter_into yaml validate invalid (text "---\n" ++ (before ++ (dashes ++ after)))
      ≡ inl (fm, trim_space after)
unfolding parse_front_matter_into has_prefix
parse-delimited yaml validate invalid before after fm clear read valid =
    rw
      (
        index_of-dashes before after clear,
        take-append before (dashes ++ after),
        read,
        valid,
        drop-append 3 before (dashes ++ after),
      )
      refl

-- The rest that FormatMarkdown writes has the body's spaces at its ends, and one newline more.
written_body :
    (content : Text)
    → trim_space (10 ∷ (content ++ (if has_suffix content (text "\n") then [] else text "\n")))
      ≡ trim_space content
written_body content =
    trim_space-newline_before
      (content ++ (if has_suffix content (text "\n") then [] else text "\n"))
    ∙ by_suffix (has_suffix content (text "\n"))
  where
    by_suffix :
        (b : Bool) → trim_space (content ++ (if b then [] else text "\n")) ≡ trim_space content
    by_suffix true = ap trim_space (append-nil content)
    by_suffix false = trim_space-newline_after content

-- What FormatMarkdown writes, ParseFrontMatter reads: the same front matter, and the body without
-- the spaces at its ends. It needs a valid front matter, whose YAML reads as that front matter once
-- trimmed, and which has no three dashes in a row, also where two more follow it.
pub parse_front_matter-format_markdown :
    (yaml : Yaml FrontMatter) (fm : FrontMatter) (yaml_content content : Text)
    → yaml.marshal fm ≡ inl yaml_content
    → yaml.unmarshal (trim_space yaml_content) ≡ inl fm
    → validate_front_matter fm ≡ none
    → contains_text (yaml_content ++ text "--") dashes ≡ false
    → (file : Text) × ((format_markdown yaml fm content ≡ inl file)
        × (parse_front_matter yaml file ≡ inl (fm, trim_space content)))
unfolding format_markdown parse_front_matter format_front_matter
parse_front_matter-format_markdown yaml fm yaml_content content m u v d = (
  text "---\n"
      ++ (yaml_content
          ++ (text "---\n"
              ++ (content ++ (if has_suffix content (text "\n") then [] else text "\n")))),
  (
    rw (m, format_front_matter, format_markdown) refl,
    parse-delimited yaml validate_front_matter (text "front matter validation failed: ")
          yaml_content
          (10 ∷ (content ++ (if has_suffix content (text "\n") then [] else text "\n"))) fm d u v
        ∙ ap (λ body. inl (fm, body)) (written_body content),
  ),
)

-- The YAML ends at the first three dashes, also within a line: the rest of the front matter is then
-- taken for the body.
pub parse_front_matter_cuts :
    (yaml : Yaml FrontMatter) (before after : Text) (fm : FrontMatter)
    → contains_text (before ++ text "--") dashes ≡ false
    → yaml.unmarshal (trim_space before) ≡ inl fm
    → validate_front_matter fm ≡ none
    → parse_front_matter yaml (text "---\n" ++ (before ++ (dashes ++ after)))
      ≡ inl (fm, trim_space after)
unfolding parse_front_matter
parse_front_matter_cuts yaml before after fm =
    parse-delimited yaml validate_front_matter (text "front matter validation failed: ") before
      after fm
