-- ===== src/FrontMatter/Normal.antt =====
-- NormalizeBody of internal/yamlutil/frontmatter.go is idempotent: the form that it gives is normal.
use eval_prompt.Prelude.{
  ℕ, ◌≡◌, refl, Bool, true, not, ◌&&◌, List, [], ◌∷◌, ◌++◌, arith, all, All, ◌==◌, nat_eq, list_eq,
  Text,
}
use eval_prompt.Prelude.Strings.{split_on}
use eval_prompt.FrontMatter.{
  replace_crlf, replace_cr, trim_right, drop_leading, is_blank, trim_lines,
}

-- A byte that stands within a line.
abbrev pub inner : ℕ → Bool
inner c = not (c == 10) && not (c == 13)

module _ {A : Type 0} where
  pub all-trim_right :
      (p f : A → Bool) (xs : List A) → all p xs ≡ true → all p (trim_right f xs) ≡ true
  unfolding trim_right
  all-trim_right p f [] h = refl
  all-trim_right p f (x ∷ xs) h = ground (arith, all-trim_right p f xs)

  all-drop_leading :
      (p f : A → Bool) (xs : List A) → all p xs ≡ true → all p (drop_leading f xs) ≡ true
  unfolding drop_leading
  all-drop_leading p f [] h = refl
  all-drop_leading p f (x ∷ xs) h = ground (arith, all-drop_leading p f xs)

  pub trim_right-trim_right :
      (f : A → Bool) (xs : List A) → trim_right f (trim_right f xs) ≡ trim_right f xs
  unfolding trim_right
  trim_right-trim_right f [] = refl
  trim_right-trim_right f (x ∷ xs) = ground (arith, trim_right-trim_right f xs)

  -- The first element does not pass the test.
  abbrev pub starts : (A → Bool) → List A → Bool
  starts f [] = true
  starts f (x ∷ xs) = not (f x)

  pub starts-drop_leading : (f : A → Bool) (xs : List A) → starts f (drop_leading f xs) ≡ true
  unfolding drop_leading
  starts-drop_leading f [] = refl
  starts-drop_leading f (x ∷ xs) = ground (arith, starts-drop_leading f xs)

  pub starts-trim_right :
      (f : A → Bool) (xs : List A) → starts f xs ≡ true → starts f (trim_right f xs) ≡ true
  unfolding trim_right
  starts-trim_right f [] h = refl
  starts-trim_right f (x ∷ xs) h = ground arith

  pub drop_leading-same : (f : A → Bool) (xs : List A) → starts f xs ≡ true → drop_leading f xs ≡ xs
  unfolding drop_leading
  drop_leading-same f [] h = refl
  drop_leading-same f (x ∷ xs) h = ground arith

  -- A last element that passes the test is trimmed.
  pub trim_right-append :
      (f : A → Bool) (xs : List A) (x : A)
      → f x ≡ true
      → trim_right f (xs ++ (x ∷ [])) ≡ trim_right f xs
  unfolding trim_right
  trim_right-append f [] x h = ground arith
  trim_right-append f (y ∷ xs) x h = ground (arith, trim_right-append f xs x)

pub all-split_on :
    (s : Text) → all (λ c. not (c == 13)) s ≡ true → all (λ l. all inner l) (split_on 10 s) ≡ true
unfolding split_on
all-split_on [] h = refl
all-split_on (c ∷ s) h = by_parts (split_on 10 s) refl (all-split_on s (ground arith))
  where
    by_parts :
        (parts : List Text)
        → split_on 10 s ≡ parts
        → all (λ l. all inner l) (split_on 10 s) ≡ true
        → all (λ l. all inner l) (split_on 10 (c ∷ s)) ≡ true
    by_parts [] e g = ground arith
    by_parts (l ∷ ls) e g = ground arith

pub replace_cr-all : (s : Text) → all (λ c. not (c == 13)) (replace_cr s) ≡ true
unfolding replace_cr
replace_cr-all [] = refl
replace_cr-all (c ∷ s) = ground (arith, replace_cr-all s)

pub replace_cr-same :
    (s : Text) → all (λ c. not (c == 13)) s ≡ true → replace_cr (replace_crlf s) ≡ s
unfolding replace_cr replace_crlf
replace_cr-same [] h = refl
replace_cr-same (c ∷ s) h = ground (arith, replace_cr-same s)

-- A line that is trimmed and has only inner bytes.
abbrev pub Tidy : Text → Type 0
Tidy l = (all inner l ≡ true) × (trim_right is_blank l ≡ l)

pub All-trim_lines : (ls : List Text) → all (λ l. all inner l) ls ≡ true → All Tidy (trim_lines ls)
unfolding trim_lines
All-trim_lines [] h = tt
All-trim_lines (l ∷ ls) h = (
  (all-trim_right inner is_blank l (ground arith), trim_right-trim_right is_blank l),
  All-trim_lines ls (ground arith),
)
