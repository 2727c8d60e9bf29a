-- ===== src/Domain/EvalCase/Score.antt =====
-- What CalculateScore (internal/domain/eval_case.go) promises of its score.
use native.Mathlib.Nat.{mul-div_cancel_left}
use eval_prompt.Prelude.{
  ℕ, suc, ◌+◌, ◌*◌, ◌/◌, ◌≤◌, ◌<◌, ◌≡◌, refl, Bool, true, false, List, [], ◌∷◌, arith,
  if◌then◌else◌, if_elim, All, ◌==◌, nat_eq, list_eq, is_empty,
}
use eval_prompt.Prelude.Int.{
  ℤ, pos_part, ◌≤ℤ◌, int_eq, add64, add64-pos, mul64-pos, quo64-pos, pos, negsuc,
}
use eval_prompt.Domain.EvalCase.{
  RubricCheck, Rubric, RubricCheckResult, add_weights, first_passed, weigh, scale, calculate_score,
}

-- No check weighs less than nothing.
abbrev pub NonNegative : List RubricCheck → Type 0
NonNegative = All (λ c. pos 0 ≤ℤ c.weight)

-- The weights together, and the least number that an `int` does not hold.
abbrev pub sum_weights : List RubricCheck → ℕ
sum_weights [] = 0
sum_weights (c ∷ cs) = pos_part c.weight + sum_weights cs

abbrev pub int_limit : ℕ
int_limit = 9_223_372_036_854_775_808

as_pos : (z : ℤ) → pos 0 ≤ℤ z → z ≡ pos (pos_part z)
as_pos (pos n) h = refl
as_pos (negsuc n) h = absurd (omega arith)

add_nonnegative :
    (a : ℕ) (z : ℤ)
    → pos 0 ≤ℤ z
    → a + pos_part z < int_limit
    → add64 (pos a) z ≡ pos (a + pos_part z)
add_nonnegative a (pos n) h l = add64-pos a n l
add_nonnegative a (negsuc n) h l = absurd (omega arith)

weigh_bounds :
    (results : List RubricCheckResult) (total weighted : ℕ) (cs : List RubricCheck)
    → NonNegative cs
    → weighted ≤ total
    → total + sum_weights cs < int_limit
    → (w : ℕ) × ((weigh results (pos total) (pos weighted) cs
          ≡ (pos (total + sum_weights cs), pos w))
        × (w ≤ total + sum_weights cs))
unfolding weigh
weigh_bounds results total weighted [] n h l =
    let k : total ≡ total + 0 = omega arith in (weighted, (rw (← k) refl, omega arith))
weigh_bounds results total weighted (c ∷ cs) n h l =
    let k : total + pos_part c.weight + sum_weights cs
        ≡ total + (pos_part c.weight + sum_weights cs) =
      omega arith in
    rw
      (
        add_nonnegative total c.weight n.0 (omega arith),
        add_nonnegative weighted c.weight n.0 (omega arith),
        ← k,
      )
      (by_passed (total + pos_part c.weight) (weighted + pos_part c.weight) weighted
        (first_passed c.id results)
        (weigh_bounds results (total + pos_part c.weight) (weighted + pos_part c.weight) cs n.1
          (omega arith) (omega arith))
        (weigh_bounds results (total + pos_part c.weight) weighted cs n.1 (omega arith)
          (omega arith)))
  where
    Bounded : ℕ → ℤ → Type 0
    Bounded t v =
        (w : ℕ) × ((weigh results (pos t) v cs ≡ (pos (t + sum_weights cs), pos w))
          × (w ≤ t + sum_weights cs))

    by_passed :
        (t a b : ℕ) (passed : Bool)
        → Bounded t (pos a)
        → Bounded t (pos b)
        → Bounded t (if passed then pos a else pos b)
    by_passed t a b true x y = x
    by_passed t a b false x y = y

div_le : (w t m : ℕ) → w ≤ t → 0 < t → w * m / t ≤ m
div_le w t m h p = grind arith

mul_le : (w t m : ℕ) → w ≤ t → w * m ≤ t * m
mul_le w t m h = grind arith

pub quotient_le : (a b : ℕ) → a / b ≤ a
quotient_le a b = grind arith

scale_quotient :
    (m t w : ℕ)
    → w ≤ t
    → t * m < int_limit
    → scale (pos m) (pos t, pos w) ≡ (if t == 0 then pos 0 else pos (w * m / t))
unfolding scale
scale_quotient m t w h l =
    let p : w * m < int_limit = omega (arith, mul_le w t m h) in
    let q : w * m / t < int_limit = omega (arith, p, quotient_le (w * m) t) in
    rw (mul64-pos w m p, quo64-pos (w * m) t q) (ground arith)

-- With no negative weight and no negative maximum, the score lies between 0 and the maximum,
-- whatever the results are, if the weights together, and their product with the maximum, are less
-- than 2^63.
pub calculate_score_bounds :
    (rubric : Rubric) (results : List RubricCheckResult) (m : ℕ)
    → NonNegative rubric.checks
    → rubric.max_score ≡ pos m
    → sum_weights rubric.checks < int_limit
    → sum_weights rubric.checks * m < int_limit
    → (pos 0 ≤ℤ calculate_score rubric results) × (calculate_score rubric results ≤ℤ pos m)
unfolding calculate_score
calculate_score_bounds rubric results m n e l p =
    if_elim (λ s. (pos 0 ≤ℤ s) × (s ≤ℤ pos m)) (is_empty results) (λ _. (omega arith, omega arith))
      (λ _.
        let (w, (weighed, h)) =
          weigh_bounds results 0 0 rubric.checks n (omega arith) (omega arith) in
        let t = sum_weights rubric.checks in
        let z : 0 + t ≡ t = omega arith in
        rw (weighed, z, e, scale_quotient m t w (omega arith) p)
          (if_elim (λ s. (pos 0 ≤ℤ s) × (s ≤ℤ pos m)) (t == 0) (λ _. (omega arith, omega arith))
            (λ q. (omega arith, ground (arith, div_le w t m)))))

-- Where every check is passed, the weight passed is the total weight.
pub weigh_full :
    (results : List RubricCheckResult) (total : ℤ) (cs : List RubricCheck)
    → All (λ c. first_passed c.id results ≡ true) cs
    → (weigh results total total cs).1 ≡ (weigh results total total cs).0
unfolding weigh
weigh_full results total [] h = refl
weigh_full results total (c ∷ cs) h =
    rw (h.0, weigh) (weigh_full results (add64 total c.weight) cs h.1)

pub scale_full :
    (m t : ℕ) → suc t * m < int_limit → scale (pos m) (pos (suc t), pos (suc t)) ≡ pos m
scale_full m t l = ground (
  arith,
  scale_quotient m (suc t) (suc t) (omega arith) l,
  mul-div_cancel_left m {n = suc t} (omega arith),
)

pub add_weights-weigh :
    (results : List RubricCheckResult) (total weighted : ℤ) (cs : List RubricCheck)
    → (weigh results total weighted cs).0 ≡ add_weights total cs
unfolding weigh add_weights
add_weights-weigh results total weighted [] = refl
add_weights-weigh results total weighted (c ∷ cs) =
    add_weights-weigh results (add64 total c.weight) _ cs
