-- ===== src/Prelude/Spaces.antt =====
-- TrimSpace of Go's package strings, on the bytes of UTF-8: the ASCII spaces, and the spaces of
-- two and three bytes that unicode.IsSpace accepts.
use eval_prompt.Prelude.{
  ℕ, zero, suc, Bool, ◌&&◌, ◌||◌, List, [], ◌∷◌, ◌++◌, leb, if◌then◌else◌, ◌==◌, nat_eq, list_eq,
  Text, is_empty,
}
use mathlib.Core.List.{reverse}

abbrev pub is_ascii_space : ℕ → Bool
is_ascii_space c = c == 32 || (leb 9 c && leb c 13)

-- U+0085 and U+00A0.
abbrev pub is_space_2 : ℕ → ℕ → Bool
is_space_2 c d = c == 194 && (d == 133 || d == 160)

-- U+1680, U+2000 to U+200A, U+2028, U+2029, U+202F, U+205F and U+3000.
abbrev pub is_space_3 : ℕ → ℕ → ℕ → Bool
is_space_3 c d e =
    c == 225 && (d == 154 && e == 128)
    || (c == 226
          && (d == 128 && (leb 128 e && leb e 138 || (e == 168 || (e == 169 || e == 175)))
              || d == 129 && e == 159)
        || c == 227 && (d == 128 && e == 128))

-- The length of the space at the start of a text, 0 without one.
unfoldable pub space_before : Text → ℕ
space_before [] = 0
space_before (c ∷ []) = if is_ascii_space c then 1 else 0
space_before (c ∷ d ∷ []) = if is_ascii_space c then 1 else if is_space_2 c d then 2 else 0
space_before (c ∷ d ∷ e ∷ s) =
    if is_ascii_space c then 1 else if is_space_2 c d then 2 else if is_space_3 c d e then 3 else 0

-- The same at the end of a text that is read backwards.
unfoldable pub space_behind : Text → ℕ
space_behind [] = 0
space_behind (c ∷ []) = if is_ascii_space c then 1 else 0
space_behind (c ∷ d ∷ []) = if is_ascii_space c then 1 else if is_space_2 d c then 2 else 0
space_behind (c ∷ d ∷ e ∷ s) =
    if is_ascii_space c then 1 else if is_space_2 d c then 2 else if is_space_3 e d c then 3 else 0

-- The text without the spaces at its start, where the first `n` bytes belong to a space.
unfoldable pub skip_spaces : (Text → ℕ) → ℕ → Text → Text
skip_spaces space n [] = []
skip_spaces space (suc n) (c ∷ s) = skip_spaces space n s
skip_spaces space zero (c ∷ s) = elim (space (c ∷ s)) [
  | zero ↦ c ∷ s
  | suc n ↦ skip_spaces space n s
]

unfoldable pub trim_space : Text → Text
unfolding skip_spaces space_before space_behind
trim_space s = reverse (skip_spaces space_behind 0 (reverse (skip_spaces space_before 0 s)))

-- The loop of Fields: the first `n` bytes belong to a space, `word` is read so far.
unfoldable pub fields_from : ℕ → Text → Text → List Text
unfolding space_before
fields_from n word [] = if is_empty word then [] else word ∷ []
fields_from (suc n) word (c ∷ s) = fields_from n word s
fields_from zero word (c ∷ s) = elim (space_before (c ∷ s)) [
  | zero ↦ fields_from zero (word ++ (c ∷ [])) s
  | suc n ↦ let rest = fields_from n [] s in if is_empty word then rest else word ∷ rest
]

unfoldable pub fields : Text → List Text
unfolding fields_from
fields s = fields_from zero [] s
