-- ===== src/Eval/Deterministic.antt =====
-- RunDeterministic of plugins/eval/runner.go.
use mathlib.Core.List.{append-nil, append_assoc}
use eval_prompt.Prelude.{
  ℕ, zero, suc, ◌≡◌, refl, sym, ap, ◌∙◌, ◌⊎◌, inl, inr, Bool, true, false, Option, none, some, List,
  [], ◌∷◌, ◌++◌, map, arith, ltb, if◌then◌else◌, length, any, keep, nat_eq, list_eq, Text, text,
  is_empty,
}
use eval_prompt.Prelude.Int.{◌-ℤ◌, pos}
use eval_prompt.Prelude.Values.{Fraction}
use eval_prompt.Eval.Assertions.{
  TraceEvent, DeterministicCheck, Platform, CheckResult, run_check, pass, fail, panics,
}

-- service.DeterministicResult.
pub record DeterministicResult : Type 0 where
  pub passed : Bool
  pub score : Fraction
  pub failed : List Text
  pub message : Text

-- The loop over the checks; `none` is a panic.
unfoldable pub run_checks :
    Platform
    → List TraceEvent
    → DeterministicResult
    → List DeterministicCheck
    → Option DeterministicResult
run_checks os trace r [] = some r
run_checks os trace r (c ∷ cs) = elim (run_check os trace c) [
  | none ↦
      run_checks os trace
        (record {
          passed = false;
          score = record { num = pos 0; den = 1 };
          failed = r.failed ++ (c.id ∷ []);
          message = text "unknown check type: " ++ c.check_type;
        })
        cs
  | some pass ↦ run_checks os trace r cs
  | some (fail _) ↦
      run_checks os trace (record r { passed = false; failed = r.failed ++ (c.id ∷ []) }) cs
  | some panics ↦ none
]

-- The score and the verdict after the loop.
unfoldable pub conclude : ℕ → DeterministicResult → DeterministicResult
conclude total r =
    let scored =
      if ltb 0 total
      then record r { score = record { num = pos total -ℤ pos (length r.failed); den = total } }
      else r in
    if ltb 0 (length scored.failed) then record scored { passed = false } else scored

-- The result before the loop.
abbrev pub clean : DeterministicResult
clean = record { passed = true; score = record { num = pos 1; den = 1 }; failed = []; message = [] }

unfoldable pub run_deterministic :
    Platform → List TraceEvent → List DeterministicCheck → Option DeterministicResult
unfolding conclude
run_deterministic os trace checks = elim (run_checks os trace clean checks) [
  | none ↦ none
  | some r ↦ some (conclude (length checks) r)
]

-- A check fails if its type is unknown or its checker gives an error.
abbrev pub fails : Option CheckResult → Bool
fails (some pass) = false
fails _ = true

abbrev pub is_panic : Option CheckResult → Bool
is_panic (some panics) = true
is_panic _ = false

module _ (os : Platform) (trace : List TraceEvent) where
  abbrev pub failing : DeterministicCheck → Bool
  failing c = fails (run_check os trace c)

  abbrev pub panicking : DeterministicCheck → Bool
  panicking c = is_panic (run_check os trace c)

module _ (os : Platform) (trace : List TraceEvent) where
  -- The result after a check that fails.
  abbrev mark_failed : DeterministicResult → DeterministicCheck → DeterministicResult
  mark_failed r c = elim (run_check os trace c) [
    | none ↦ record {
      passed = false;
      score = record { num = pos 0; den = 1 };
      failed = r.failed ++ (c.id ∷ []);
      message = text "unknown check type: " ++ c.check_type;
    }
    | _ ↦ record r { passed = false; failed = r.failed ++ (c.id ∷ []) }
  ]

  mark_failed-failed :
      (r : DeterministicResult) (c : DeterministicCheck)
      → (mark_failed r c).failed ≡ r.failed ++ (c.id ∷ [])
  mark_failed-failed r c = ground arith

  step_cases :
      (r : DeterministicResult) (c : DeterministicCheck) (cs : List DeterministicCheck)
      → panicking os trace c ≡ false
      → ((failing os trace c ≡ false) × (run_checks os trace r (c ∷ cs) ≡ run_checks os trace r cs))
        ⊎ ((failing os trace c ≡ true)
            × (run_checks os trace r (c ∷ cs) ≡ run_checks os trace (mark_failed r c) cs))
  unfolding run_checks
  step_cases r c cs h = ground arith

  -- The IDs of the failing checks, in order.
  abbrev pub failing_ids : List DeterministicCheck → List Text
  failing_ids checks = map (λ c. c.id) (keep (failing os trace) checks)

  failing_ids_good :
      (c : DeterministicCheck) (cs : List DeterministicCheck)
      → failing os trace c ≡ false
      → failing_ids (c ∷ cs) ≡ failing_ids cs
  failing_ids_good c cs h = ground arith

  failing_ids_bad :
      (c : DeterministicCheck) (cs : List DeterministicCheck)
      → failing os trace c ≡ true
      → failing_ids (c ∷ cs) ≡ c.id ∷ failing_ids cs
  failing_ids_bad c cs h = ground arith

  run_checks_lem :
      (r : DeterministicResult) (checks : List DeterministicCheck)
      → any (panicking os trace) checks ≡ false
      → (r' : DeterministicResult) × (run_checks os trace r checks ≡ some r')
        × (r'.failed ≡ r.failed ++ failing_ids checks)
        × (is_empty (failing_ids checks) ≡ true → r' ≡ r)
  run_checks_lem r [] h = (r, unfold run_checks in refl, sym (append-nil r.failed), λ _. refl)
  run_checks_lem r (c ∷ cs) h = elim (step_cases r c cs (ground arith)) [
    | inl (good, e) ↦
        let ids = failing_ids_good c cs good in
        let (r', ends, failed, same) = run_checks_lem r cs (ground arith) in
        (r', e ∙ ends, failed ∙ ap (λ l. r.failed ++ l) (sym ids), λ q. same (rw ids at q))
    | inr (bad, e) ↦
        let ids = failing_ids_bad c cs bad in
        let (r', ends, failed, same) = run_checks_lem (mark_failed r c) cs (ground arith) in
        (
          r',
          e ∙ ends,
          failed
              ∙ ap (λ l. l ++ failing_ids cs) (mark_failed-failed r c)
              ∙ append_assoc r.failed (c.id ∷ []) (failing_ids cs)
              ∙ ap (λ l. r.failed ++ l) (sym ids),
          λ q. let z : false ≡ true = rw ids at q in cc,
        )
  ]

conclude-failed : (n : ℕ) (r : DeterministicResult) → (conclude n r).failed ≡ r.failed
unfolding conclude
conclude-failed n r = ground arith

conclude-passed :
    (n : ℕ) (r : DeterministicResult) (ids : List Text)
    → r.failed ≡ ids
    → (is_empty ids ≡ true → r ≡ clean)
    → (conclude n r).passed ≡ is_empty ids
unfolding conclude
conclude-passed n r [] e same = ground (arith, same)
conclude-passed n r (i ∷ ids) e same = ground (arith, same)

-- The share of the checks that do not fail, and 1 where there are none.
abbrev pub share : ℕ → ℕ → Fraction
share zero k = record { num = pos 1; den = 1 }
share (suc n) k = record { num = pos (suc n) -ℤ pos k; den = suc n }

conclude-score :
    (n : ℕ) (r : DeterministicResult) (ids : List Text)
    → r.failed ≡ ids
    → (n ≡ 0 → r ≡ clean)
    → (conclude n r).score ≡ share n (length ids)
unfolding conclude
conclude-score zero r ids e same = ground (arith, same)
conclude-score (suc n) r ids e same =
    let l : length r.failed ≡ length ids = ap length e in ground arith

failing_ids-zero :
    (os : Platform) (trace : List TraceEvent) (checks : List DeterministicCheck)
    → length checks ≡ 0
    → is_empty (failing_ids os trace checks) ≡ true
failing_ids-zero os trace [] h = refl
failing_ids-zero os trace (c ∷ cs) h = absurd (omega arith)

-- Where no check panics, RunDeterministic returns: the failed IDs are those of the failing checks
-- in order, it passes exactly where none fails, and the score is the share of the checks that do
-- not fail, or 1 where there are no checks.
pub run_deterministic_lem :
    (os : Platform) (trace : List TraceEvent) (checks : List DeterministicCheck)
    → any (panicking os trace) checks ≡ false
    → (r : DeterministicResult) × (run_deterministic os trace checks ≡ some r)
      × (r.failed ≡ failing_ids os trace checks)
      × (r.passed ≡ is_empty (failing_ids os trace checks))
      × (r.score ≡ share (length checks) (length (failing_ids os trace checks)))
unfolding run_deterministic
run_deterministic_lem os trace checks h =
    let (r', ends, failed, same) = run_checks_lem os trace clean checks h in
    let ids = failing_ids os trace checks in
    (
      conclude (length checks) r',
      rw (ends, run_deterministic) refl,
      conclude-failed (length checks) r' ∙ failed,
      conclude-passed (length checks) r' ids failed same,
      conclude-score (length checks) r' ids failed (λ z. same (failing_ids-zero os trace checks z)),
    )
