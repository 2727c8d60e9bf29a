-- ===== src/Indexer/Matching/Ignoring.antt =====
-- The search for a text of plugins/search/search.go that ignores case is the search for it among
-- lower-case letters.
use eval_prompt.Prelude.{
  ℕ, zero, suc, ◌+◌, ◌-◌, ◌<◌, ◌≡◌, refl, sym, inl, inr, false, [], ◌∷◌, arith, ltb, Bool-cases,
  length, take, nat_eq, list_eq, Text,
}
use eval_prompt.Prelude.Strings.{has_prefix, contains_text}
use eval_prompt.Indexer.Matching.{
  lower_byte, equal_bytes, equal_ignore_case, contains_from, contains_ignore_case,
}

-- The text with its ASCII letters in lower case.
abbrev pub lower : Text → Text
lower [] = []
lower (c ∷ s) = lower_byte c ∷ lower s

equal_ignore_case-has_prefix :
    (s sub : Text) → equal_ignore_case (take (length sub) s) sub ≡ has_prefix (lower s) (lower sub)
unfolding equal_ignore_case equal_bytes has_prefix
equal_ignore_case-has_prefix s [] = ground arith
equal_ignore_case-has_prefix [] (d ∷ sub) = ground arith
equal_ignore_case-has_prefix (c ∷ s) (d ∷ sub) = ground (arith, equal_ignore_case-has_prefix s sub)

short_has_prefix : (s sub : Text) → length s < length sub → has_prefix (lower s) (lower sub) ≡ false
unfolding has_prefix
short_has_prefix s [] h = ground arith
short_has_prefix [] (d ∷ sub) h = refl
short_has_prefix (c ∷ s) (d ∷ sub) h = ground (arith, short_has_prefix s sub)

short_contains_text :
    (s sub : Text) → length s < length sub → contains_text (lower s) (lower sub) ≡ false
unfolding contains_text
short_contains_text [] sub h = short_has_prefix [] sub h
short_contains_text (c ∷ s) sub h =
    ground (arith, short_has_prefix (c ∷ s) sub, short_contains_text s sub)

contains_from-contains_text :
    (n : ℕ) (s sub : Text)
    → n + length sub ≡ length s + 1
    → contains_from n s sub ≡ contains_text (lower s) (lower sub)
unfolding contains_from contains_text
contains_from-contains_text zero s sub h = sym (short_contains_text s sub (omega arith))
contains_from-contains_text (suc n) [] sub h = ground (arith, equal_ignore_case-has_prefix [] sub)
contains_from-contains_text (suc n) (c ∷ s) sub h =
    ground (arith, equal_ignore_case-has_prefix (c ∷ s) sub, contains_from-contains_text n s sub)

-- containsIgnoreCase finds a text exactly where it stands if both are put in lower case.
pub contains_ignore_case-contains_text :
    (s substr : Text) → contains_ignore_case s substr ≡ contains_text (lower s) (lower substr)
unfolding contains_ignore_case contains_text has_prefix
contains_ignore_case-contains_text [] [] = refl
contains_ignore_case-contains_text (c ∷ s) [] = refl
contains_ignore_case-contains_text s (d ∷ sub) =
    elim (Bool-cases (ltb (length s) (suc (length sub)))) [
      | inl short ↦ ground (arith, short_contains_text s (d ∷ sub))
      | inr long ↦
          ground (arith, contains_from-contains_text (length s - length (d ∷ sub) + 1) s (d ∷ sub))
    ]
