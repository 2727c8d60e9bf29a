-- ===== src/EvalService/Outcome.antt =====
-- What RunEval of internal/service/eval_service.go returns.
use eval_prompt.Prelude.{
  ℕ, zero, suc, ◌+◌, ◌*◌, ◌<◌, ◌≡◌, refl, ◌⊎◌, inl, inr, Bool, true, false, ◌&&◌, some, List, [],
  ◌∷◌, ◌++◌, map, arith, if◌then◌else◌, length, length-append, all, ◌==◌, nat_eq, list_eq, Text,
  is_empty,
}
use eval_prompt.Prelude.Int.{int_eq, pos}
use eval_prompt.Domain.Execution.{ExecutionStatus, EvalExecution}
use eval_prompt.EvalService.Run.{perform_runs, outcome, new_execution, conclude_eval, run_eval}
use eval_prompt.EvalService.{
  RunEvalRequest, EvalCaseInfo, EvalService, Floats, load_explicit, load_eval_cases_for_run,
  runs_of, work_items, RunOutcome, rubric_score_of, perform_run, Totals, no_runs, add_run, tally,
  final_status, overall_score, failed_run, completed_run,
}
use eval_prompt.EvalService.Tally.{final_status_lem}

length-runs_of : (c : EvalCaseInfo) (run n : ℕ) → length (runs_of c run n) ≡ n
unfolding runs_of
length-runs_of c run zero = omega arith
length-runs_of c run (suc n) = omega (arith, length-runs_of c (suc run) n)

length-work_items : (cs : List EvalCaseInfo) (n : ℕ) → length (work_items cs n) ≡ length cs * n
unfolding work_items
length-work_items [] n = omega arith
length-work_items (c ∷ cs) n = ground (
  arith,
  length-append (runs_of c 1 n) (work_items cs n),
  length-runs_of c 1 n,
  length-work_items cs n,
)

length-perform_runs :
    (s : EvalService) (req : RunEvalRequest) (idx : ℕ) (items : List (EvalCaseInfo × ℕ))
    → length (map outcome (perform_runs s req idx items)) ≡ length items
unfolding perform_runs
length-perform_runs s req idx [] = refl
length-perform_runs s req idx ((c, run) ∷ items) =
    ground (arith, length-perform_runs s req (suc idx) items)

-- The totals of the runs of some cases.
abbrev pub totals : EvalService → RunEvalRequest → List EvalCaseInfo → Totals
totals s req cases =
    tally (map outcome (perform_runs s req 0 (work_items cases req.runs_per_case))) no_runs

-- Where there is no error, cases were loaded and the execution is concluded from their totals.
run_eval_cases :
    (s : EvalService) (f : Floats) (id : Text) (now later : ℕ) (req : RunEvalRequest)
    (exec : EvalExecution)
    → (run_eval s f id now later req).0 ≡ inl exec
    → (cases : List EvalCaseInfo) × (load_eval_cases_for_run s req.asset_id req.eval_case_ids
        ≡ inl cases)
      × (exec ≡ (conclude_eval f later (new_execution id now req cases) (totals s req cases)).0)
unfolding run_eval
run_eval_cases s f id now later req exec h =
    loaded (load_eval_cases_for_run s req.asset_id req.eval_case_ids) refl
  where
    loaded :
        (l : List EvalCaseInfo ⊎ Text)
        → load_eval_cases_for_run s req.asset_id req.eval_case_ids ≡ l
        → (cases : List EvalCaseInfo) × (load_eval_cases_for_run s req.asset_id req.eval_case_ids
            ≡ inl cases)
          × (exec ≡ (conclude_eval f later (new_execution id now req cases) (totals s req cases)).0)
    loaded (inr err) e = absurd (ground arith)
    loaded (inl cases) e = (cases, e, ground arith)

conclude_eval_accounts :
    (f : Floats) (later : ℕ) (exec : EvalExecution) (t : Totals)
    → t.completed + t.failed ≡ exec.total_runs
    → exec.cancelled_runs ≡ 0
    → let done = (conclude_eval f later exec t).0 in
      (done.completed_runs + done.failed_runs ≡ done.total_runs)
      × (done.cancelled_runs ≡ 0)
      × (done.status ≡ final_status t)
      × (done.completed_at ≡ some later)
unfolding conclude_eval
conclude_eval_accounts f later exec t h c = (h, c, refl, refl)

-- In an execution that RunEval returns, the completed and the failed runs add up to the total,
-- none is cancelled, the time of completion is set, and the status is completed where no run
-- failed, failed where one failed and none is completed, and a partial failure else.
pub run_eval_accounts :
    (s : EvalService) (f : Floats) (id : Text) (now later : ℕ) (req : RunEvalRequest)
    (exec : EvalExecution)
    → (run_eval s f id now later req).0 ≡ inl exec
    → (exec.completed_runs + exec.failed_runs ≡ exec.total_runs)
      × (exec.cancelled_runs ≡ 0)
      × (exec.completed_at ≡ some later)
      × (exec.status ≡ (
          if exec.failed_runs == 0
          then ExecutionStatus.completed
          else if exec.completed_runs == 0
          then ExecutionStatus.failed
          else ExecutionStatus.partial_failure))
unfolding conclude_eval new_execution final_status
run_eval_accounts s f id now later req exec h =
    let (cases, _, e) = run_eval_cases s f id now later req exec h in
    let runs = perform_runs s req 0 (work_items cases req.runs_per_case) in
    let counted = (final_status_lem (map outcome runs)).0 in
    rw e (
      ground (
        arith,
        counted,
        length-perform_runs s req 0 (work_items cases req.runs_per_case),
        length-work_items cases req.runs_per_case,
      ),
      refl,
      refl,
      refl,
    )

-- A case that asks for nothing: no expected text and no checks.
abbrev pub asks_nothing : EvalCaseInfo → Bool
asks_nothing c = is_empty c.expected && is_empty c.rubric.checks

load_explicit-asks_nothing :
    (read : Text → Text ⊎ Text) (ids : List Text) (cases : List EvalCaseInfo)
    → load_explicit read ids ≡ inl cases
    → all asks_nothing cases ≡ true
unfolding load_explicit
load_explicit-asks_nothing read [] cases h = ground arith
load_explicit-asks_nothing read (i ∷ ids) cases h =
    by_parts (read i) refl (load_explicit read ids) refl (load_explicit-asks_nothing read ids)
  where
    by_parts :
        (content : Text ⊎ Text)
        → read i ≡ content
        → (rest : List EvalCaseInfo ⊎ Text) → load_explicit read ids ≡ rest
        → ((others : List EvalCaseInfo)
            → load_explicit read ids ≡ inl others
            → all asks_nothing others ≡ true)
        → all asks_nothing cases ≡ true
    by_parts (inr err) e rest d ih = absurd (ground arith)
    by_parts (inl content) e (inr err) d ih = absurd (ground arith)
    by_parts (inl content) e (inl others) d ih = ground (arith, ih others d)

-- A run that adds nothing to the rubric's totals, and has the deterministic score 1 if completed.
abbrev pub plain_run : RunOutcome → Bool
plain_run (failed_run _) = true
plain_run (completed_run reply exact score checks) = exact && (score == pos 0 && is_empty checks)

perform_run-plain :
    (s : EvalService) (req : RunEvalRequest) (idx : ℕ) (c : EvalCaseInfo)
    → asks_nothing c ≡ true
    → plain_run (perform_run s req idx c) ≡ true
unfolding perform_run rubric_score_of
perform_run-plain s req idx c h = ground arith

runs_of-plain :
    (s : EvalService) (req : RunEvalRequest) (idx : ℕ) (c : EvalCaseInfo) (run n : ℕ)
    (items : List (EvalCaseInfo × ℕ))
    → asks_nothing c ≡ true
    → ((i : ℕ) → all plain_run (map outcome (perform_runs s req i items)) ≡ true)
    → all plain_run (map outcome (perform_runs s req idx (runs_of c run n ++ items))) ≡ true
unfolding perform_runs runs_of
runs_of-plain s req idx c run zero items h rest = rest idx
runs_of-plain s req idx c run (suc n) items h rest = ground (
  arith,
  perform_run-plain s req idx c h,
  runs_of-plain s req (suc idx) c (suc run) n items h rest,
)

work_items-plain :
    (s : EvalService) (req : RunEvalRequest) (cases : List EvalCaseInfo) (n : ℕ)
    → all asks_nothing cases ≡ true
    → (idx : ℕ) → all plain_run (map outcome (perform_runs s req idx (work_items cases n))) ≡ true
unfolding work_items
work_items-plain s req [] n h idx = unfold perform_runs in refl
work_items-plain s req (c ∷ cs) n h idx =
    runs_of-plain s req idx c 1 n (work_items cs n) (ground arith)
      (work_items-plain s req cs n (ground arith))

tally-plain :
    (rs : List RunOutcome) (t : Totals)
    → all plain_run rs ≡ true
    → t.deterministic ≡ t.completed
    → ((tally rs t).rubric_runs ≡ t.rubric_runs)
      × ((tally rs t).deterministic ≡ (tally rs t).completed)
unfolding tally add_run
tally-plain [] t h e = (refl, e)
tally-plain (failed_run err ∷ rs) t h e =
    ground (arith, tally-plain rs (add_run (failed_run err) t))
tally-plain (completed_run r x s c ∷ rs) t h e =
    ground (arith, int_eq.beq_iff s (pos 0), tally-plain rs (add_run (completed_run r x s c) t))

-- A request with explicit case IDs is scored by its completion rate alone: such cases are loaded
-- without an expected text and without a rubric, so that every answer of the model has the
-- deterministic score 1 and none is graded.
pub explicit_cases_rate :
    (s : EvalService) (f : Floats) (req : RunEvalRequest) (cases : List EvalCaseInfo) (total : ℕ)
    → is_empty req.eval_case_ids ≡ false
    → load_eval_cases_for_run s req.asset_id req.eval_case_ids ≡ inl cases
    → 0 < total
    → overall_score f total (totals s req cases) ≡ f.rate (totals s req cases).completed total
unfolding overall_score load_eval_cases_for_run
explicit_cases_rate s f req cases total given h p =
    let runs = perform_runs s req 0 (work_items cases req.runs_per_case) in
    let plain' =
      work_items-plain s req cases req.runs_per_case
        (load_explicit-asks_nothing s.read_eval_case req.eval_case_ids cases (ground arith)) 0 in
    ground (arith, tally-plain (map outcome runs) no_runs plain' refl)
