-- ===== src/FrontMatter.antt =====
-- NormalizeBody of internal/yamlutil/frontmatter.go. A byte 10 is a newline, 13 a carriage return.
pub mod Normal
pub mod Idempotent
pub mod Markdown
pub mod Reread
mod Examples
use eval_prompt.Prelude.{
  ℕ, Bool, false, ◌&&◌, ◌||◌, List, [], ◌∷◌, ◌++◌, if◌then◌else◌, ◌==◌, nat_eq, list_eq, Text,
  is_empty,
}
use eval_prompt.Prelude.Strings.{split_on, join_with}

-- ReplaceAll(body, "\r\n", "\n").
unfoldable pub replace_crlf : Text → Text
replace_crlf [] = []
replace_crlf (c ∷ s) =
    let rest = replace_crlf s in
    if c == 13 && elim s [ [] ↦ false | d ∷ _ ↦ d == 10 ] then rest else c ∷ rest

-- ReplaceAll(body, "\r", "\n").
unfoldable pub replace_cr : Text → Text
replace_cr [] = []
replace_cr (c ∷ s) = (if c == 13 then 10 else c) ∷ replace_cr s

module _ {A : Type 0} where
  -- The list without its last elements that pass the test: TrimRight on bytes, and the loop over
  -- the trailing blank lines.
  unfoldable pub trim_right : (A → Bool) → List A → List A
  trim_right f [] = []
  trim_right f (x ∷ xs) =
      let rest = trim_right f xs in if f x && is_empty rest then [] else x ∷ rest

  -- The loop over the leading blank lines.
  unfoldable pub drop_leading : (A → Bool) → List A → List A
  drop_leading f [] = []
  drop_leading f (x ∷ xs) = let rest = drop_leading f xs in if f x then rest else x ∷ xs

abbrev pub is_blank : ℕ → Bool
is_blank c = c == 32 || c == 9

abbrev pub is_newline : ℕ → Bool
is_newline c = c == 10

abbrev pub blank_line : Text → Bool
blank_line l = is_empty l

-- The loop that trims each line.
unfoldable pub trim_lines : List Text → List Text
unfolding trim_right
trim_lines [] = []
trim_lines (l ∷ ls) = trim_right is_blank l ∷ trim_lines ls

-- The lines that remain.
unfoldable pub kept_lines : Text → List Text
unfolding trim_lines trim_right drop_leading replace_cr replace_crlf
kept_lines body =
    trim_right blank_line
      (drop_leading blank_line (trim_lines (split_on 10 (replace_cr (replace_crlf body)))))

unfoldable pub normalize_body : Text → Text
unfolding kept_lines trim_right
normalize_body body = trim_right is_newline (join_with 10 (kept_lines body)) ++ (10 ∷ [])
