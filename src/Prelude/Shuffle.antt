-- ===== src/Prelude/Shuffle.antt =====
-- Lists in another order, and the sorting of Go's package sort: the order is a Boolean test, and
-- the result does not depend on the algorithm where no two elements are equal in the order.
use eval_prompt.Prelude.Tests.{ltb, if◌then◌else◌, Bool-cases}
use eval_prompt.Prelude.Texts.{Text}
use mathlib.Core.Path.{◌≡◌, refl, sym, ap, ◌∙◌}
use mathlib.Core.Logic.{inl, inr}
use mathlib.Core.Bool.{Bool, true, false, not, ◌&&◌}
use mathlib.Core.List.{List, [], ◌∷◌}
use native.Mathlib.Omega.{arith}
use eval_prompt.Prelude.Lists.{all}

-- The same elements in another order.
pub data Shuffle {ℓ} {A : Type ℓ} : List A → List A → Type ℓ where
  same : {xs : List A} → Shuffle xs xs
  swap : {x y : A} {xs : List A} → Shuffle (x ∷ y ∷ xs) (y ∷ x ∷ xs)
  keep_head : {x : A} {xs ys : List A} → Shuffle xs ys → Shuffle (x ∷ xs) (x ∷ ys)
  chain : {xs ys zs : List A} → Shuffle xs ys → Shuffle ys zs → Shuffle xs zs

pub Shuffle-sym {ℓ} : {A : Type ℓ} {xs ys : List A} → Shuffle xs ys → Shuffle ys xs
Shuffle-sym same = same
Shuffle-sym (swap {x} {y} {xs}) = swap
Shuffle-sym (keep_head h) = keep_head (Shuffle-sym h)
Shuffle-sym (chain h k) = chain (Shuffle-sym k) (Shuffle-sym h)

pub all-Shuffle {ℓ} :
    {A : Type ℓ} (p : A → Bool) {xs ys : List A} → Shuffle xs ys → all p xs ≡ all p ys
all-Shuffle p same = refl
all-Shuffle p (swap {x} {y} {xs}) = ground arith
all-Shuffle p (keep_head {x} h) = ap (λ b. p x && b) (all-Shuffle p h)
all-Shuffle p (chain h k) = all-Shuffle p h ∙ all-Shuffle p k

all_weaken {ℓ} :
    {A : Type ℓ} (p q : A → Bool) (xs : List A)
    → ((x : A) → p x ≡ true → q x ≡ true)
    → all p xs ≡ true
    → all q xs ≡ true
all_weaken p q [] h e = refl
all_weaken p q (x ∷ xs) h e = ground (arith, h x, all_weaken p q xs h)

-- sort.Slice as an unknown algorithm, which gives the elements in another order.
pub record SortSlice (A : Type 0) : Type 0 where
  pub sort_slice : (A → A → Bool) → List A → List A
  pub shuffles : (less : A → A → Bool) (xs : List A) → Shuffle (sort_slice less xs) xs

-- The elements before which `x` does not belong stay in front.
unfoldable pub insert_by {ℓ} : {A : Type ℓ} → (A → A → Bool) → A → List A → List A
insert_by less x [] = x ∷ []
insert_by less x (y ∷ ys) =
    let rest = insert_by less x ys in if less y x then y ∷ rest else x ∷ y ∷ ys

-- sort.Slice(xs, less).
unfoldable pub sort_by {ℓ} : {A : Type ℓ} → (A → A → Bool) → List A → List A
unfolding insert_by
sort_by less [] = []
sort_by less (x ∷ xs) = insert_by less x (sort_by less xs)

-- No later element belongs before an earlier one.
abbrev pub sorted_by {ℓ} : {A : Type ℓ} → (A → A → Bool) → List A → Bool
sorted_by less [] = true
sorted_by less (x ∷ xs) = all (λ y. not (less y x)) xs && sorted_by less xs

-- No two elements are equal in the order.
abbrev pub strict_by {ℓ} : {A : Type ℓ} → (A → A → Bool) → List A → Bool
strict_by less [] = true
strict_by less (x ∷ xs) = all (λ y. if less x y then true else less y x) xs && strict_by less xs

module _ {ℓ} {A : Type ℓ} (less : A → A → Bool) where
  strict_by-Shuffle : {xs ys : List A} → Shuffle xs ys → strict_by less xs ≡ strict_by less ys
  strict_by-Shuffle same = refl
  strict_by-Shuffle (swap {x} {y} {xs}) = ground arith
  strict_by-Shuffle (keep_head {x} h) =
      ground (arith, all-Shuffle (λ y. if less x y then true else less y x) h, strict_by-Shuffle h)
  strict_by-Shuffle (chain h k) = strict_by-Shuffle h ∙ strict_by-Shuffle k

  pub insert_by-Shuffle : (x : A) (xs : List A) → Shuffle (insert_by less x xs) (x ∷ xs)
  unfolding insert_by
  insert_by-Shuffle x [] = same
  insert_by-Shuffle x (y ∷ ys) = branch (less y x) (insert_by-Shuffle x ys)
    where
      branch :
          (b : Bool)
          → Shuffle (insert_by less x ys) (x ∷ ys)
          → Shuffle (if b then y ∷ insert_by less x ys else x ∷ y ∷ ys) (x ∷ y ∷ ys)
      branch true h = chain (keep_head h) swap
      branch false h = same

  pub sort_by-Shuffle : (xs : List A) → Shuffle (sort_by less xs) xs
  unfolding sort_by
  sort_by-Shuffle [] = same
  sort_by-Shuffle (x ∷ xs) =
      chain (insert_by-Shuffle x (sort_by less xs)) (keep_head (sort_by-Shuffle xs))

module _ {ℓ} {A : Type ℓ} (less : A → A → Bool)
    (asym : (x y : A) → less x y ≡ true → less y x ≡ false)
    (weak : (x y z : A) → less x y ≡ false → less y z ≡ false → less x z ≡ false) where
  insert_by_comm :
      (x y : A) (zs : List A)
      → less x y ≡ true
      → insert_by less x (insert_by less y zs) ≡ insert_by less y (insert_by less x zs)
  unfolding insert_by
  insert_by_comm x y [] h = ground (arith, asym x y h)
  insert_by_comm x y (z ∷ zs) h = ground (arith, asym x y h, weak z y x, insert_by_comm x y zs h)

  -- Sorting forgets the order of elements that differ in it.
  pub sort_by-forgets :
      {xs ys : List A}
      → Shuffle xs ys
      → strict_by less xs ≡ true
      → sort_by less xs ≡ sort_by less ys
  unfolding sort_by
  sort_by-forgets same h = refl
  sort_by-forgets (swap {x} {y} {xs}) h = elim (Bool-cases (less x y)) [
    | inl e ↦ insert_by_comm x y (sort_by less xs) e
    | inr e ↦ sym (insert_by_comm y x (sort_by less xs) (ground arith))
  ]
  sort_by-forgets (keep_head {x} k) h = ap (insert_by less x) (sort_by-forgets k (ground arith))
  sort_by-forgets (chain k l) h =
      sort_by-forgets k h ∙ sort_by-forgets l (sym (strict_by-Shuffle less k) ∙ h)

  insert_by-sorted_by :
      (x : A) (xs : List A) → sorted_by less xs ≡ true → sorted_by less (insert_by less x xs) ≡ true
  unfolding insert_by
  insert_by-sorted_by x [] h = refl
  insert_by-sorted_by x (y ∷ ys) h = elim (Bool-cases (less y x)) [
    | inl e ↦ ground (
      arith,
      asym y x e,
      insert_by-sorted_by x ys,
      all-Shuffle (λ z. not (less z y)) (insert_by-Shuffle less x ys),
    )
    | inr e ↦ ground (
      arith,
      all_weaken (λ z. not (less z y)) (λ z. not (less z x)) ys (λ z n. ground (arith, weak z y x)),
    )
  ]

  pub sort_by-sorted_by : (xs : List A) → sorted_by less (sort_by less xs) ≡ true
  unfolding sort_by
  sort_by-sorted_by [] = refl
  sort_by-sorted_by (x ∷ xs) = insert_by-sorted_by x (sort_by less xs) (sort_by-sorted_by xs)

-- Go's `<` on strings: byte by byte, a prefix first.
abbrev pub text_ltb : Text → Text → Bool
text_ltb [] [] = false
text_ltb [] (d ∷ t) = true
text_ltb (c ∷ s) [] = false
text_ltb (c ∷ s) (d ∷ t) = if ltb c d then true else if ltb d c then false else text_ltb s t

pub text_ltb_asym : (s t : Text) → text_ltb s t ≡ true → text_ltb t s ≡ false
text_ltb_asym [] [] h = refl
text_ltb_asym [] (d ∷ t) h = refl
text_ltb_asym (c ∷ s) [] h = cc
text_ltb_asym (c ∷ s) (d ∷ t) h = ground (arith, text_ltb_asym s t)

pub text_ltb_weak :
    (s t u : Text) → text_ltb s t ≡ false → text_ltb t u ≡ false → text_ltb s u ≡ false
text_ltb_weak [] t [] h k = refl
text_ltb_weak (c ∷ s) t [] h k = refl
text_ltb_weak s [] (e ∷ u) h k = cc
text_ltb_weak [] (d ∷ t) (e ∷ u) h k = cc
text_ltb_weak (c ∷ s) (d ∷ t) (e ∷ u) h k = ground (arith, text_ltb_weak s t u)

pub text_ltb_total : (s t : Text) → text_ltb s t ≡ false → text_ltb t s ≡ false → s ≡ t
text_ltb_total [] [] h k = refl
text_ltb_total [] (d ∷ t) h k = cc
text_ltb_total (c ∷ s) [] h k = cc
text_ltb_total (c ∷ s) (d ∷ t) h k = ground (arith, text_ltb_total s t)
