-- ===== src/Judge.antt =====
-- The judge of internal/service/eval/judge.go. The invoker and strconv.ParseFloat are parameters; a
-- float64 is an element of a type F.
pub mod Number
mod Examples
use eval_prompt.Prelude.{
  ℕ, suc, ◌⊎◌, inl, inr, Bool, false, not, ◌&&◌, ◌||◌, [], ◌∷◌, ◌++◌, ltb, leb, if◌then◌else◌, take,
  ◌==◌, nat_eq, list_eq, Text, text, is_empty,
}
use eval_prompt.Prelude.Spaces.{trim_space}

abbrev pub is_digit : ℕ → Bool
is_digit c = leb 48 c && leb c 57

-- The text from its first digit on.
unfoldable pub from_digit : Text → Text
from_digit [] = []
from_digit (c ∷ s) = let rest = from_digit s in if is_digit c then c ∷ s else rest

-- Where the number ends, counted from its start: the loop from place i, with the end so far and
-- whether a point has been seen.
unfoldable pub number_end : Text → ℕ → ℕ → Bool → ℕ
number_end [] i last has_decimal = last
number_end (c ∷ s) i last has_decimal =
    let taken = is_digit c || c == 46 && not has_decimal in
    let rest = number_end s (suc i) (if taken then suc i else last) (has_decimal || c == 46) in
    if taken
    then rest
    else if c == 47
    then last
    else if not (c == 32) && not (c == 9) && not (c == 46)
    then (if ltb 0 i then i else last)
    else rest

unfoldable pub number_text : Text → Text
unfolding from_digit number_end
number_text s = let n = from_digit s in take (number_end n 0 0 false) n

-- What Score asks the model.
abbrev pub score_prompt : Text → Text → Text → Text
score_prompt prompt output criteria =
    prompt
    ++ (10 ∷ 10 ∷ text "Output to evaluate:"
        ++ (10 ∷ output
            ++ (10 ∷ 10 ∷ text "Evaluation criteria:"
                ++ (10 ∷ criteria
                    ++ (10
                        ∷ 10
                        ∷ text
                            "Score the output on a scale of 0-10. Respond with only the numeric score.")))))

module _ {F : Type 0} where
  -- The spaces that TrimLeft would remove are gone after TrimSpace.
  unfoldable pub parse_float : (Text → F ⊎ Text) → Text → F ⊎ Text
  unfolding number_text trim_space
  parse_float parse s =
      let num = number_text (trim_space s) in
      if is_empty num || num == text "." then inr (text "invalid syntax") else parse num

  unfoldable pub score :
      (Text → Text ⊎ Text) → (Text → F ⊎ Text) → F → (F → F) → Text → Text → Text → F ⊎ Text
  unfolding parse_float
  score invoke parse half tenth prompt output criteria =
      elim (invoke (score_prompt prompt output criteria)) [
        | inr err ↦ inr err
        | inl content ↦ elim (parse_float parse content) [
          | inr err ↦ inl half
          | inl value ↦ inl (tenth value)
        ]
      ]

  -- The score and the answer.
  unfoldable pub score_text :
      (Text → Text ⊎ Text)
      → (Text → F ⊎ Text)
      → F
      → (F → F)
      → Text
      → Text
      → Text
      → (F × Text) ⊎ Text
  unfolding parse_float
  score_text invoke parse half tenth prompt output criteria =
      elim (invoke (score_prompt prompt output criteria)) [
        | inr err ↦ inr err
        | inl content ↦ elim (parse_float parse content) [
          | inr err ↦ inl (half, content)
          | inl value ↦ inl (tenth value, content)
        ]
      ]

  unfoldable pub compare : (Text → Text ⊎ Text) → F → F → F → Text → Text → Text → F ⊎ Text
  compare invoke a_better b_better half prompt output_a output_b =
      elim (invoke (
        prompt
        ++ (10 ∷ 10 ∷ text "Output A:"
            ++ (10 ∷ output_a
                ++ (10 ∷ 10 ∷ text "Output B:"
                    ++ (10 ∷ output_b
                        ++ (10
                            ∷ 10
                            ∷ text "Which output is better? Respond with only 'A' or 'B'."))))))) [
                              | inr err ↦ inr err
                              | inl content ↦
                                  if content == text "A"
                                  then inl a_better
                                  else if content == text "B"
                                  then inl b_better
                                  else inl half
                            ]
