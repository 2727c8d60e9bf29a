-- ===== src/Judge/Number.antt =====
-- The number that parseFloat finds in an answer (internal/service/eval/judge.go).
use mathlib.Core.List.{append-nil, append_assoc}
use eval_prompt.Judge.{
  is_digit, from_digit, number_end, number_text, score_prompt, parse_float, score, score_text,
}
use eval_prompt.Prelude.{
  ℕ, suc, ◌+◌, ◌≡◌, refl, sym, ap, ◌∙◌, ◌⊎◌, inl, inr, Bool, true, false, not, ◌||◌, Option, none,
  some, [], ◌∷◌, ◌++◌, arith, length, take, length-append, any, take-append, ◌==◌, nat_eq, list_eq,
  Text,
}

-- Text without digits, and text of digits only.
abbrev pub digitless : Text → Bool
digitless s = not (any is_digit s)

abbrev pub digits_only : Text → Bool
digits_only s = not (any (λ c. not (is_digit c)) s)

from_digit-append :
    (before : Text) (d : ℕ) (s : Text)
    → digitless before ≡ true
    → is_digit d ≡ true
    → from_digit (before ++ (d ∷ s)) ≡ d ∷ s
unfolding from_digit
from_digit-append [] d s h k = rw k refl
from_digit-append (c ∷ before) d s h k = ground (arith, from_digit-append before d s)

from_digit_none : (s : Text) → digitless s ≡ true → from_digit s ≡ []
unfolding from_digit
from_digit_none [] h = refl
from_digit_none (c ∷ s) h = ground (arith, from_digit_none s)

digits_only-head : (c : ℕ) (digits : Text) → digits_only (c ∷ digits) ≡ true → is_digit c ≡ true
digits_only-head c digits h = ground arith

digits_only-tail :
    (c : ℕ) (digits : Text) → digits_only (c ∷ digits) ≡ true → digits_only digits ≡ true
digits_only-tail c digits h = ground arith

digit-point : (c : ℕ) → is_digit c ≡ true → (c == 46) ≡ false
digit-point c h = ground arith

number_end-append :
    (digits rest : Text) (i last : ℕ) (has_decimal : Bool)
    → digits_only digits ≡ true
    → number_end (digits ++ rest) i i has_decimal
      ≡ number_end rest (i + length digits) (i + length digits) has_decimal
unfolding number_end
number_end-append [] rest i last has_decimal h = ground arith
number_end-append (c ∷ digits) rest i last true h =
    let digit = digits_only-head c digits h in
    rw digit (
      number_end-append digits rest (suc i) (suc i) true (digits_only-tail c digits h)
      ∙ ap (λ n. number_end rest n n true) (omega arith))
number_end-append (c ∷ digits) rest i last false h =
    let digit = digits_only-head c digits h in
    rw (digit, digit-point c digit)
      (number_end-append digits rest (suc i) (suc i) false (digits_only-tail c digits h)
        ∙ ap (λ n. number_end rest n n false) (omega arith))

-- A number with decimals or without.
abbrev pub fraction : Option Text → Text
fraction none = []
fraction (some decimals) = 46 ∷ decimals

abbrev pub decimal_digits : Option Text → Bool
decimal_digits none = true
decimal_digits (some decimals) = digits_only decimals

number_end-fraction :
    (decimals : Option Text) (rest : Text) (i : ℕ)
    → decimal_digits decimals ≡ true
    → number_end (fraction decimals ++ rest) i i false
      ≡ number_end rest
          (i + length (fraction decimals))
          (i + length (fraction decimals))
          (elim decimals [ none ↦ false | some _ ↦ true ])
unfolding number_end
number_end-fraction none rest i h = ap (λ n. number_end rest n n false) (omega arith)
number_end-fraction (some decimals) rest i h =
    number_end-append decimals rest (suc i) (suc i) true h
    ∙ ap (λ n. number_end rest n n true) (omega arith)

-- The text of the number in the answer.
abbrev pub numeral : ℕ → Text → Option Text → Text
numeral d digits decimals = d ∷ digits ++ fraction decimals

length-numeral :
    (d : ℕ) (digits : Text) (decimals : Option Text)
    → (0 + length (d ∷ digits)) + length (fraction decimals) ≡ length (numeral d digits decimals)
length-numeral d digits decimals = omega (arith, length-append digits (fraction decimals))

number_text-append :
    (before : Text) (d : ℕ) (digits : Text) (decimals : Option Text) (tail : Text)
    → digitless before ≡ true
    → digits_only (d ∷ digits) ≡ true
    → decimal_digits decimals ≡ true
    → let n = length (numeral d digits decimals) in
      number_text (before ++ (numeral d digits decimals ++ tail))
      ≡ take
          (number_end tail n n (elim decimals [ none ↦ false | some _ ↦ true ]))
          (numeral d digits decimals ++ tail)
unfolding number_text
number_text-append before d digits decimals tail h k f =
    ap (λ n. take (number_end n 0 0 false) n)
      (from_digit-append before d ((digits ++ fraction decimals) ++ tail) h
        (digits_only-head d digits k))
    ∙ ap (λ n. take n (numeral d digits decimals ++ tail))
        (ap (λ s. number_end s 0 0 false) (append_assoc (d ∷ digits) (fraction decimals) tail)
          ∙ number_end-append (d ∷ digits) (fraction decimals ++ tail) 0 0 false k
          ∙ number_end-fraction decimals tail (0 + length (d ∷ digits)) f
          ∙ ap (λ m. number_end tail m m (elim decimals [ none ↦ false | some _ ↦ true ]))
              (length-numeral d digits decimals))

number_text_none : (s : Text) → digitless s ≡ true → number_text s ≡ []
unfolding number_text number_end
number_text_none s h = ap (λ n. take (number_end n 0 0 false) n) (from_digit_none s h)

take_further :
    (xs : Text) (y : ℕ) (ys : Text) → take (suc (length xs)) (xs ++ (y ∷ ys)) ≡ xs ++ (y ∷ [])
take_further [] y ys = refl
take_further (x ∷ xs) y ys = ap (λ zs. x ∷ zs) (take_further xs y ys)

number_end-slash :
    (rest : Text) (n : ℕ) (has_decimal : Bool) → number_end (47 ∷ rest) n n has_decimal ≡ n
unfolding number_end
number_end-slash rest n true = refl
number_end-slash rest n false = refl

-- The number ends at a space before a letter, behind the space.
number_end-space :
    (c : ℕ) (rest : Text) (n : ℕ) (has_decimal : Bool)
    → (is_digit c || c == 46 || c == 32 || c == 9 || c == 47) ≡ false
    → number_end (32 ∷ c ∷ rest) n n has_decimal ≡ suc n
unfolding number_end
number_end-space c rest n true w = ground arith
number_end-space c rest n false w = ground arith

-- An answer without digits before a number, which may have a point and decimals, gives that number
-- where it stands at the end or before a slash. Before a space and a further word it gives the
-- number with the space. What is without digits gives no number.
pub number_text_lem :
    (before : Text) (d : ℕ) (digits : Text) (decimals : Option Text) (rest : Text) (c : ℕ)
    → digitless before ≡ true
    → digits_only (d ∷ digits) ≡ true
    → decimal_digits decimals ≡ true
    → (is_digit c || c == 46 || c == 32 || c == 9 || c == 47) ≡ false
    → let number = numeral d digits decimals in
      (number_text (before ++ number) ≡ number)
      × (number_text (before ++ (number ++ (47 ∷ rest))) ≡ number)
      × (number_text (before ++ (number ++ (32 ∷ c ∷ rest))) ≡ number ++ (32 ∷ []))
      × (number_text before ≡ [])
unfolding number_end
number_text_lem before d digits decimals rest c h k f w =
    let number = numeral d digits decimals in
    let pointed = elim decimals as (λ _. Bool) [ none ↦ false | some _ ↦ true ] in
    (
      ap (λ s. number_text (before ++ s)) (sym (append-nil number))
          ∙ number_text-append before d digits decimals [] h k f
          ∙ take-append number [],
      number_text-append before d digits decimals (47 ∷ rest) h k f
          ∙ ap (λ n. take n (number ++ (47 ∷ rest))) (number_end-slash rest (length number) pointed)
          ∙ take-append number (47 ∷ rest),
      number_text-append before d digits decimals (32 ∷ c ∷ rest) h k f
          ∙ ap (λ n. take n (number ++ (32 ∷ c ∷ rest)))
              (number_end-space c rest (length number) pointed w)
          ∙ take_further number 32 (c ∷ rest),
      number_text_none before h,
    )

-- Score gives the score of ScoreText without the answer.
score-score_text :
    {F : Type 0} (invoke : Text → Text ⊎ Text) (parse : Text → F ⊎ Text) (half : F) (tenth : F → F)
    (prompt output criteria : Text)
    → score invoke parse half tenth prompt output criteria
      ≡ elim (score_text invoke parse half tenth prompt output criteria) [
        | inl answer ↦ inl answer.0
        | inr err ↦ inr err
      ]
unfolding score score_text
score-score_text {F = F} invoke parse half tenth prompt output criteria =
    by_answer (invoke (score_prompt prompt output criteria))
  where
    by_value :
        (content : Text) (value : F ⊎ Text)
        → elim value as (λ _. F ⊎ Text) [ inr err ↦ inl half | inl x ↦ inl (tenth x) ]
          ≡ elim (elim value as (λ _. (F × Text) ⊎ Text) [
            | inr err ↦ inl (half, content)
            | inl x ↦ inl (tenth x, content)
          ]) [ inl a ↦ inl a.0 | inr err ↦ inr err ]
    by_value content (inr err) = refl
    by_value content (inl x) = refl

    by_answer :
        (answer : Text ⊎ Text)
        → elim answer as (λ _. F ⊎ Text) [
          | inr err ↦ inr err
          | inl content ↦ elim (parse_float parse content) [
            | inr err ↦ inl half
            | inl value ↦ inl (tenth value)
          ]
        ]
          ≡ elim (elim answer as (λ _. (F × Text) ⊎ Text) [
            | inr err ↦ inr err
            | inl content ↦ elim (parse_float parse content) [
              | inr err ↦ inl (half, content)
              | inl value ↦ inl (tenth value, content)
            ]
          ]) [ inl a ↦ inl a.0 | inr err ↦ inr err ]
    by_answer (inr err) = refl
    by_answer (inl content) = by_value content (parse_float parse content)
