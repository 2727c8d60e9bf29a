-- ===== src/Prelude/Equality.antt =====
-- Equality as an interface: a Boolean test that decides it.
use Prim.Native.Nat.{ℕ}
use Prim.Native.String.{String}
use mathlib.Core.Path.{◌≡◌, refl}
use mathlib.Core.Logic.{◌↔◌, inl, inr}
use mathlib.Core.Bool.{Bool, true, false, ◌&&◌}
use mathlib.Core.List.{List, [], ◌∷◌}
use native.Mathlib.Omega.{arith}
use text.Mathlib.Text.{◌==◌ as string_beq}
use text.Mathlib.TextEquality.{eq_iff as string_beq_iff}
use eval_prompt.Prelude.Tests.{nat_beq, nat_beq_iff, Bool-cases}
use eval_prompt.Prelude.Lists.{any}

pub record Eq {ℓ} (A : Type ℓ) : Type ℓ where
  pub beq : A → A → Bool
  pub beq_iff : (x y : A) → (beq x y ≡ true) ↔ (x ≡ y)

-- The test by a decision.
abbrev pub decide_beq {ℓ} : {A : Type ℓ} → Discrete A → A → A → Bool
decide_beq d a b = elim (d a b) [ yes _ ↦ true | no _ ↦ false ]

pub decide_beq_iff {ℓ} :
    {A : Type ℓ} (d : Discrete A) (a b : A) → (decide_beq d a b ≡ true) ↔ (a ≡ b)
decide_beq_iff d a b = go (d a b)
  where
    go : (w : Dec (a ≡ b)) → (elim w [ yes _ ↦ true | no _ ↦ false ] ≡ true) ↔ (a ≡ b)
    go (yes p) = (λ _. p, λ _. refl)
    go (no n) = (λ e. cc, λ p. absurd (n p))

abbrev pub ◌==◌ {ℓ} : {B : Type ℓ} ⦃eq : Eq B⦄ (x y : B) → Bool
◌==◌ ⦃eq⦄ x y = eq.beq x y

infix 50 ◌==◌
module _ {ℓ} {A : Type ℓ} ⦃e : Eq A⦄ where
  pub beq_refl : (a : A) → (a == a) ≡ true
  beq_refl a = (e.beq_iff a a).1 refl

  pub beq_sym : (a b : A) → (a == b) ≡ (b == a)
  beq_sym a b = ground (arith, e.beq_iff a b, e.beq_iff b a)

  abbrev pub list_beq : List A → List A → Bool
  list_beq [] [] = true
  list_beq (x ∷ xs) (y ∷ ys) = x == y && list_beq xs ys
  list_beq _ _ = false

  pub list_beq_iff : (xs ys : List A) → (list_beq xs ys ≡ true) ↔ (xs ≡ ys)
  list_beq_iff [] [] = (λ _. refl, λ _. refl)
  list_beq_iff (x ∷ xs) (y ∷ ys) = ground (arith, e.beq_iff x y, list_beq_iff xs ys)
  list_beq_iff [] (y ∷ ys) = (λ h. cc, λ h. cc)
  list_beq_iff (x ∷ xs) [] = (λ h. cc, λ h. cc)

  -- Membership by the test.
  abbrev pub contains : List A → A → Bool
  contains xs a = any (λ x. x == a) xs

instance abbrev pub string_eq : Eq String
string_eq = record { beq = string_beq; beq_iff = string_beq_iff }

instance abbrev pub nat_eq : Eq ℕ
nat_eq = record { beq = nat_beq; beq_iff = nat_beq_iff }

instance abbrev pub list_eq {ℓ} : {A : Type ℓ} ⦃e : Eq A⦄ → Eq (List A)
list_eq = record { beq = list_beq; beq_iff = list_beq_iff }

pub String-discrete : Discrete String
String-discrete s t = elim (Bool-cases (string_beq s t)) [
  | inl e ↦ yes ((string_beq_iff s t).0 e)
  | inr e ↦ no (λ p. ground (arith, string_beq_iff s t))
]
