-- ===== src/Judge/Examples.antt =====
-- Answers of a judge (internal/service/eval/judge.go).
use eval_prompt.Prelude.{ℕ, ◌≡◌, refl, ◌⊎◌, inl, inr, some, [], ◌∷◌, nat_eq, list_eq, Text, text}
use eval_prompt.Prelude.Spaces.{trim_space}
use eval_prompt.Judge.{from_digit, number_end, number_text, parse_float, score}
use eval_prompt.Judge.Number.{number_text_lem}

number_text_lem_example :
    (number_text (text "Score: 8.3") ≡ text "8.3")
    × (number_text (text "Score: 8.3/10") ≡ text "8.3")
    × (number_text (text "Score: 8.3 o10") ≡ text "8.3 ")
    × (number_text (text "Score: ") ≡ [])
number_text_lem_example =
    number_text_lem (text "Score: ") 56 [] (some (text "3")) (text "10") 111 refl refl refl refl

-- A parser that reads one digit.
abbrev one_digit : Text → ℕ ⊎ Text
one_digit [] = inr (text "invalid syntax")
one_digit (c ∷ []) = inl c
one_digit (c ∷ d ∷ s) = inr (text "invalid syntax")

falls_back :
    score (λ p. inl (text "8 out of 10")) one_digit 5 (λ x. x) (text "p") (text "o") (text "c")
    ≡ inl 5
unfolding score parse_float number_text number_end from_digit trim_space
falls_back = refl
