-- ===== src/Prelude/Strings.antt =====
-- What the program uses of Go's package strings, over texts as lists of bytes.
use mathlib.Core.List.{reverse}
use eval_prompt.Prelude.Tests.{if◌then◌else◌, Bool-cases}
use eval_prompt.Prelude.Equality.{◌==◌, nat_eq, list_eq}
use eval_prompt.Prelude.Texts.{Text}
use Prim.Native.Nat.{ℕ, suc}
use mathlib.Core.Path.{◌≡◌, refl, ap}
use mathlib.Core.Logic.{inl, inr}
use mathlib.Core.Bool.{Bool, true, false, ◌&&◌, ◌||◌}
use mathlib.Core.Option.{Option, none, some}
use mathlib.Core.List.{List, [], ◌∷◌, ◌++◌}
use native.Mathlib.Omega.{arith}

-- HasPrefix(s, p).
unfoldable pub has_prefix : Text → Text → Bool
has_prefix s [] = true
has_prefix [] (p ∷ ps) = false
has_prefix (c ∷ s) (p ∷ ps) = c == p && has_prefix s ps

-- The text after a prefix.
unfoldable pub strip_prefix : Text → Text → Option Text
strip_prefix s [] = some s
strip_prefix [] (p ∷ ps) = none
strip_prefix (c ∷ s) (p ∷ ps) = let rest = strip_prefix s ps in if c == p then rest else none

-- TrimPrefix(s, p).
unfoldable pub trim_prefix : Text → Text → Text
unfolding strip_prefix
trim_prefix s p = elim (strip_prefix s p) [ none ↦ s | some rest ↦ rest ]

unfoldable pub has_suffix : Text → Text → Bool
unfolding has_prefix
has_suffix s p = has_prefix (reverse s) (reverse p)

unfoldable pub trim_suffix : Text → Text → Text
unfolding trim_prefix
trim_suffix s p = elim (strip_prefix (reverse s) (reverse p)) [
  | none ↦ s
  | some rest ↦ reverse rest
]

-- Contains(s, sub).
unfoldable pub contains_text : Text → Text → Bool
unfolding has_prefix
contains_text [] sub = has_prefix [] sub
contains_text (c ∷ s) sub = has_prefix (c ∷ s) sub || contains_text s sub

-- Index(s, sub): the first place where `sub` stands.
unfoldable pub index_of : Text → Text → Option ℕ
unfolding has_prefix
index_of [] sub = if has_prefix [] sub then some 0 else none
index_of (c ∷ s) sub =
    let rest = elim (index_of s sub) as (λ _. Option ℕ) [ none ↦ none | some i ↦ some (suc i) ] in
    if has_prefix (c ∷ s) sub then some 0 else rest

-- Split(s, sep) for a separator of one byte.
unfoldable pub split_on : ℕ → Text → List Text
split_on sep [] = [] ∷ []
split_on sep (c ∷ s) =
    let parts = split_on sep s in
    if c == sep
    then [] ∷ parts
    else elim parts [ [] ↦ (c ∷ []) ∷ [] | first ∷ rest ↦ (c ∷ first) ∷ rest ]

-- Join(parts, sep) for a separator of one byte.
unfoldable pub join_with : ℕ → List Text → Text
join_with sep [] = []
join_with sep (s ∷ ss) = elim ss [ [] ↦ s | _ ∷ _ ↦ s ++ (sep ∷ join_with sep ss) ]

pub has_prefix-append : (p s : Text) → has_prefix (p ++ s) p ≡ true
unfolding has_prefix
has_prefix-append [] s = refl
has_prefix-append (c ∷ p) s = ground (arith, has_prefix-append p s)

pub has_prefix-split : (s p : Text) → has_prefix s p ≡ true → (rest : Text) × (s ≡ p ++ rest)
unfolding has_prefix
has_prefix-split s [] h = (s, refl)
has_prefix-split [] (p ∷ ps) h = cc
has_prefix-split (c ∷ s) (p ∷ ps) h =
    let (rest, e) = has_prefix-split s ps (ground arith) in (rest, ground arith)

-- Contains finds a text exactly where it stands.
pub contains_text-split :
    (s sub : Text)
    → contains_text s sub ≡ true
    → (before : Text) × (after : Text) × (s ≡ before ++ (sub ++ after))
unfolding contains_text
contains_text-split [] sub h = let (rest, e) = has_prefix-split [] sub h in ([], rest, e)
contains_text-split (c ∷ s) sub h = elim (Bool-cases (has_prefix (c ∷ s) sub)) [
  | inl now ↦ let (rest, e) = has_prefix-split (c ∷ s) sub now in ([], rest, e)
  | inr later ↦
      let (before, after, e) = contains_text-split s sub (ground arith) in
      (c ∷ before, after, ap (λ t. c ∷ t) e)
]

pub contains_text-intro :
    (before sub after : Text) → contains_text (before ++ (sub ++ after)) sub ≡ true
unfolding contains_text
contains_text-intro [] [] [] = refl
contains_text-intro [] [] (c ∷ after) = refl
contains_text-intro [] (c ∷ sub) after = ground (arith, has_prefix-append (c ∷ sub) after)
contains_text-intro (c ∷ before) sub after = ground (arith, contains_text-intro before sub after)
