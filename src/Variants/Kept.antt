-- ===== src/Variants/Kept.antt =====
-- What the work items of generateWorkItems keep of the test cases
-- (internal/service/eval/orchestrator.go).
use mathlib.Core.List.{append-nil, append_assoc}
use eval_prompt.Prelude.{
  ℕ, suc, ◌≡◌, refl, sym, ◌∙◌, Bool, true, false, not, ◌&&◌, List, [], ◌∷◌, ◌++◌, arith,
  if◌then◌else◌, if_elim, or_true, any, any-append, All, All-append, ◌==◌, beq_refl, nat_eq,
  list_eq, Text, text, is_empty,
}
use eval_prompt.Prelude.Values.{Json, str}
use eval_prompt.Variants.{
  TestCase, EvalInput, variant, build_conflict_statement, extract_entity_name, constraint_conflict,
  default_prefixes, with_prefixes, adversarial_prefix, injection_strategy, WorkItem, to_input,
  number_items, generate_work_items,
}

-- A candidate that ends with the one of the input.
abbrev Extends : EvalInput → EvalInput → Type 0
Extends input v = (prefix : Text) × (v.candidate ≡ prefix ++ input.candidate)

after_prefix :
    (input : EvalInput) (prefix : Text) (added : List (Text × Json))
    → Extends input (variant input (prefix ++ (10 ∷ 10 ∷ input.candidate)) added)
after_prefix input prefix added =
    (prefix ++ (10 ∷ 10 ∷ []), sym (append_assoc prefix (10 ∷ 10 ∷ []) input.candidate))

with_prefixes-Extends :
    (input : EvalInput) (prefixes : List Text)
    → All {0, 0} (Extends input) (with_prefixes input prefixes)
unfolding with_prefixes
with_prefixes-Extends input [] = tt
with_prefixes-Extends input (prefix ∷ prefixes) = (
  after_prefix input prefix (
      (text "injection_strategy", str (text "adversarial_prefix"))
      ∷ (text "prefix_used", str prefix)
      ∷ []),
  with_prefixes-Extends input prefixes,
)

conflict_ends :
    (prefix candidate : Text)
    → (p : Text) × ((if not (is_empty candidate) then prefix ++ (10 ∷ 10 ∷ candidate) else prefix)
        ≡ p ++ candidate)
conflict_ends prefix [] = (prefix, sym (append-nil prefix))
conflict_ends prefix (c ∷ candidate) =
    (prefix ++ (10 ∷ 10 ∷ []), sym (append_assoc prefix (10 ∷ 10 ∷ []) (c ∷ candidate)))

constraint_conflict-Extends :
    (input : EvalInput) → All {0, 0} (Extends input) (constraint_conflict input)
unfolding constraint_conflict
constraint_conflict-Extends input =
    if_elim (All {0, 0} (Extends input)) (is_empty input.candidate && is_empty input.reference)
      (λ _. tt)
      (λ _.
        (conflict_ends (build_conflict_statement (extract_entity_name input)) input.candidate, tt))

adversarial_prefix-Extends :
    (prefixes : List Text) (input : EvalInput)
    → All {0, 0} (Extends input) (adversarial_prefix prefixes input)
unfolding adversarial_prefix
adversarial_prefix-Extends prefixes input =
    if_elim (All {0, 0} (Extends input)) (is_empty input.candidate) (λ _. tt)
      (λ _. with_prefixes-Extends input (if is_empty prefixes then default_prefixes else prefixes))

injection_strategy-Extends :
    (name : Text) (input : EvalInput)
    → (name == text "position_swap") ≡ false
    → All {0, 0} (Extends input) (injection_strategy name input)
unfolding injection_strategy
injection_strategy-Extends name input h = rw h (
    if_elim (All {0, 0} (Extends input)) (name == text "constraint_conflict")
      (λ _. constraint_conflict-Extends input)
      (λ _.
        if_elim (All {0, 0} (Extends input)) (name == text "adversarial_prefix")
          (λ _. adversarial_prefix-Extends [] input) (λ _. (([], refl), tt))))

-- An input with a candidate has a variant.
injection_strategy-is_empty :
    (name : Text) (input : EvalInput)
    → (name == text "position_swap") ≡ false
    → is_empty input.candidate ≡ false
    → is_empty (injection_strategy name input) ≡ false
unfolding injection_strategy constraint_conflict adversarial_prefix with_prefixes
injection_strategy-is_empty name input h full =
    rw (h, full)
      (if_elim (λ (vs : List EvalInput). is_empty vs ≡ false) (name == text "constraint_conflict")
        (λ _. refl)
        (λ _.
          if_elim (λ (vs : List EvalInput). is_empty vs ≡ false) (name == text "adversarial_prefix")
            (λ _. refl) (λ _. refl)))

-- An item whose prompt ends with the prompt of its test case.
abbrev pub Ends : WorkItem → Type 0
Ends item = (prefix : Text) × (item.prompt ≡ prefix ++ item.test_case.prompt)

number_items-Ends :
    (show : ℕ → Text) (tc : TestCase) (i : ℕ) (variants : List EvalInput)
    → All {0, 0} (Extends (to_input tc)) variants
    → All {0, 0} Ends (number_items show tc i variants)
unfolding number_items
number_items-Ends show tc i [] h = tt
number_items-Ends show tc i (v ∷ variants) h = (h.0, number_items-Ends show tc (suc i) variants h.1)

-- Items of a test case.
abbrev pub covered : List WorkItem → TestCase → Bool
covered items tc = any (λ (item : WorkItem). item.test_case.id == tc.id) items

number_items-covered :
    (show : ℕ → Text) (tc : TestCase) (i : ℕ) (variants : List EvalInput)
    → is_empty variants ≡ false
    → covered (number_items show tc i variants) tc ≡ true
unfolding number_items
number_items-covered show tc i [] h = absurd (ground arith)
number_items-covered show tc i (v ∷ variants) h = rw (beq_refl tc.id) refl

covered-append :
    (items more : List WorkItem) (test_cases : List TestCase)
    → All {0, 0} (λ tc. is_empty tc.prompt ≡ false → covered more tc ≡ true) test_cases
    → All {0, 0} (λ tc. is_empty tc.prompt ≡ false → covered (items ++ more) tc ≡ true) test_cases
covered-append items more [] h = tt
covered-append items more (tc ∷ test_cases) h = (
  λ full.
      any-append (λ (item : WorkItem). item.test_case.id == tc.id) items more
      ∙ rw (h.0 full) (or_true (covered items tc)),
  covered-append items more test_cases h.1,
)

-- With every strategy but position_swap, each test case with a prompt has a work item, and the
-- prompt of each work item ends with the prompt of its test case.
pub generate_work_items-covered :
    (show : ℕ → Text) (name : Text) (test_cases : List TestCase)
    → (name == text "position_swap") ≡ false
    → let items = generate_work_items show (injection_strategy name) test_cases in
      All {0, 0} Ends items
      × All {0, 0} (λ tc. is_empty tc.prompt ≡ false → covered items tc ≡ true) test_cases
unfolding generate_work_items
generate_work_items-covered show name [] h = (tt, tt)
generate_work_items-covered show name (tc ∷ test_cases) h =
    let first = number_items show tc 0 (injection_strategy name (to_input tc)) in
    let rest = generate_work_items show (injection_strategy name) test_cases in
    let ih = generate_work_items-covered show name test_cases h in
    (
      All-append Ends first rest
          (number_items-Ends show tc 0 (injection_strategy name (to_input tc))
            (injection_strategy-Extends name (to_input tc) h))
          ih.0,
      (
        λ full.
            any-append (λ (item : WorkItem). item.test_case.id == tc.id) first rest
            ∙ rw
                (number_items-covered show tc 0 (injection_strategy name (to_input tc))
                  (injection_strategy-is_empty name (to_input tc) h full))
                refl,
        covered-append first rest test_cases ih.1,
      ),
    )
