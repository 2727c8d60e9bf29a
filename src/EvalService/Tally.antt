-- ===== src/EvalService/Tally.antt =====
-- The tally of the runs of RunEval (internal/service/eval_service.go): what it counts, and that
-- the order in which the runs end does not matter.
use eval_prompt.Prelude.{
  ◌+◌, ◌≤◌, ◌≡◌, refl, ap, ◌∙◌, ◌↔◌, Bool, true, false, not, List, [], ◌∷◌, arith, if◌then◌else◌,
  length, any, all,
}
use eval_prompt.Prelude.Shuffle.{Shuffle, same, swap, keep_head, chain}
use eval_prompt.Prelude.Int.{ℤ, ◌+ℤ◌, +ℤ_parts, eq_of_parts}
use eval_prompt.Domain.Execution.{ExecutionStatus}
use eval_prompt.EvalService.{
  RunOutcome, Totals, no_runs, add_run, tally, final_status, failed_run, completed_run,
}

add_right_comm : (a b c : ℤ) → a +ℤ b +ℤ c ≡ a +ℤ c +ℤ b
add_right_comm a b c =
    eq_of_parts (a +ℤ b +ℤ c) (a +ℤ c +ℤ b)
      (omega (arith, +ℤ_parts a b, +ℤ_parts (a +ℤ b) c, +ℤ_parts a c, +ℤ_parts (a +ℤ c) b))

add_run_comm : (r q : RunOutcome) (t : Totals) → add_run r (add_run q t) ≡ add_run q (add_run r t)
unfolding add_run
add_run_comm (failed_run e) (failed_run d) t = refl
add_run_comm (failed_run e) (completed_run r x s c) t = refl
add_run_comm (completed_run r x s c) (failed_run e) t = refl
add_run_comm (completed_run r x s c) (completed_run q y v d) t = ground (
  arith,
  add_right_comm t.tokens_in q.tokens_in r.tokens_in,
  add_right_comm t.tokens_out q.tokens_out r.tokens_out,
  add_right_comm t.duration_ms q.latency_ms r.latency_ms,
  add_right_comm t.rubric v s,
)

-- The totals do not depend on the order in which the goroutines of the runs take the lock.
pub tally-Shuffle : {rs qs : List RunOutcome} (t : Totals) → Shuffle rs qs → tally rs t ≡ tally qs t
unfolding tally
tally-Shuffle t same = refl
tally-Shuffle t (swap {x} {y} {xs}) = ap (tally xs) (add_run_comm y x t)
tally-Shuffle t (keep_head {x} h) = tally-Shuffle (add_run x t) h
tally-Shuffle t (chain h k) = tally-Shuffle t h ∙ tally-Shuffle t k

abbrev pub is_failed : RunOutcome → Bool
is_failed (failed_run _) = true
is_failed (completed_run _ _ _ _) = false

tally-counts :
    (rs : List RunOutcome) (t : Totals)
    → ((tally rs t).completed + (tally rs t).failed ≡ t.completed + t.failed + length rs)
      × (t.failed ≤ (tally rs t).failed)
      × (t.completed ≤ (tally rs t).completed)
      × ((t.failed ≡ (tally rs t).failed) ↔ (any is_failed rs ≡ false))
      × ((t.completed ≡ (tally rs t).completed) ↔ (all is_failed rs ≡ true))
unfolding tally add_run
tally-counts [] t = ground arith
tally-counts (failed_run e ∷ rs) t = ground (arith, tally-counts rs (add_run (failed_run e) t))
tally-counts (completed_run r x s c ∷ rs) t =
    ground (arith, tally-counts rs (add_run (completed_run r x s c) t))

-- Every run is counted once, as completed or as failed. The status is completed where no run
-- failed, failed where there are runs and all failed, and a partial failure in every other case.
pub final_status_lem :
    (rs : List RunOutcome)
    → ((tally rs no_runs).completed + (tally rs no_runs).failed ≡ length rs)
      × (final_status (tally rs no_runs) ≡ (
          if not (any is_failed rs)
          then ExecutionStatus.completed
          else if all is_failed rs
          then ExecutionStatus.failed
          else ExecutionStatus.partial_failure))
unfolding final_status
final_status_lem rs = ground (arith, tally-counts rs no_runs)
