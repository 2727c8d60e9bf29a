-- ===== src/Executor/Process/Outcome.antt =====
-- What comes of a work item in internal/service/eval_executor.go: one result, and which one.
use mathlib.Core.List.{append_assoc}
use eval_prompt.Prelude.{
  ℕ, ◌≡◌, refl, sym, ap, ◌≢◌, ◌⊎◌, inl, inr, Bool, true, Option, none, some, List, [], ◌∷◌, ◌++◌,
  arith, if_elim, Text, text,
}
use eval_prompt.Prelude.Int.{ℤ}
use eval_prompt.Prelude.Values.{Fraction}
use eval_prompt.Domain.Types.{EntityId, new_id}
use eval_prompt.Domain.EvalCase.{RubricCheck, RubricCheckResult, EvalCase}
use eval_prompt.Domain.Execution.{EvalWorkItem, item_running}
use eval_prompt.Executor.{RunResult, item_status}
use eval_prompt.Executor.Process.Item.{
  record_run, finish, score_item, answer_item, process_item, run_item,
}
use eval_prompt.Executor.Process.{
  LlmResponse, Services, Setting, Effect, when, mark_cancelled, fail_item, deterministic_score,
  rubric_score, update_status, update_result, create_run, send,
}

-- The results sent among the effects, in order.
abbrev pub sends : List Effect → List RunResult
sends [] = []
sends (send r ∷ es) = r ∷ sends es
sends (_ ∷ es) = sends es

sends-append : (es fs : List Effect) → sends (es ++ fs) ≡ sends es ++ sends fs
sends-append [] fs = refl
sends-append (send r ∷ es) fs = ap (λ l. r ∷ l) (sends-append es fs)
sends-append (update_status i s ∷ es) fs = sends-append es fs
sends-append (update_result i s t ∷ es) fs = sends-append es fs
sends-append (create_run r ∷ es) fs = sends-append es fs

-- The effects end with a result for the item, the only one among them, and the status of the
-- result is the one of the item.
abbrev pub Reports : EvalWorkItem × List Effect → Type 0
Reports (item, effects) =
    (before : List Effect) × (r : RunResult) × (effects ≡ before ++ (send r ∷ []))
    × (sends before ≡ [])
    × (r.work_item ≡ item)
    × (item_status r.status ≡ item.status)

Reports-before :
    (started effects : List Effect) (item : EvalWorkItem)
    → sends started ≡ []
    → Reports (item, effects)
    → Reports (item, started ++ effects)
Reports-before started effects item none' (before, r, e, quiet, same, status) = (
  started ++ before,
  r,
  rw e (sym (append_assoc started before (send r ∷ []))),
  rw (sends-append, none', quiet) refl,
  same,
  status,
)

sends-when : (b : Bool) (e : Effect) → sends (e ∷ []) ≡ [] → sends (when b e) ≡ []
sends-when b e h = ground arith

sends-two :
    (b c : Bool) (e f : Effect)
    → sends (e ∷ []) ≡ []
    → sends (f ∷ []) ≡ []
    → sends (when b e ++ when c f) ≡ []
sends-two b c e f h k = rw (sends-append, sends-when b e h, sends-when c f k) refl

mark_cancelled-Reports :
    (s : Services) (now : ℕ) (item : EvalWorkItem) → Reports (mark_cancelled s now item)
unfolding mark_cancelled item_status
mark_cancelled-Reports s now item =
    (when s.has_items _, _, refl, sends-when s.has_items _ refl, refl, refl)

fail_item-Reports : (error : Text) (item : EvalWorkItem) → Reports (fail_item error item)
unfolding fail_item item_status
fail_item-Reports error item = ([], _, refl, refl, refl, refl)

-- The function returns, and what it returns reports.
abbrev pub Ends : Option (EvalWorkItem × List Effect) → Type 0
Ends o = (r : EvalWorkItem × List Effect) × (o ≡ some r) × Reports r

record_run-Reports :
    (s : Services) (at : Setting) (eval_case : EvalCase) (d : Fraction)
    (score : ℤ × List RubricCheckResult) (snapshot : EntityId) (item : EvalWorkItem)
    → Reports (record_run s at eval_case d score snapshot item)
unfolding record_run item_status
record_run-Reports s at eval_case d score snapshot item = (
  when s.has_runs _ ++ when s.has_items _,
  _,
  refl,
  sends-two s.has_runs s.has_items _ _ refl refl,
  refl,
  refl,
)

finish-Ends :
    (s : Services) (at : Setting) (eval_case : EvalCase) (d : Fraction)
    (score : ℤ × List RubricCheckResult) (item : EvalWorkItem)
    → s.is_valid_ulid at.snapshot_id ≡ true
    → Ends (finish s at eval_case d score item)
unfolding finish new_id
finish-Ends s at eval_case d score item h =
    let snapshot : EntityId = record { value = at.snapshot_id } in
    (
      record_run s at eval_case d score snapshot item,
      ground arith,
      record_run-Reports s at eval_case d score snapshot item,
    )

present : {A : Type 0} (o : Option A) → o ≢ none → (a : A) × (o ≡ some a)
present none n = absurd (n refl)
present (some a) n = (a, refl)

score_item-Ends :
    (s : Services) (at : Setting) (eval_case : EvalCase) (item : EvalWorkItem)
    → s.is_valid_ulid at.snapshot_id ≡ true
    → deterministic_score s eval_case.rubric.checks ≢ none
    → Ends (score_item s at eval_case item)
unfolding score_item
score_item-Ends s at eval_case item h scored =
    let (d, e) = present (deterministic_score s eval_case.rubric.checks) scored in
    rw (e, score_item)
      (finish-Ends s at eval_case d (rubric_score s item.response eval_case.rubric item.model) item
        h)

answer_item-Ends :
    (s : Services) (at : Setting) (eval_case : EvalCase) (item : EvalWorkItem)
    → s.is_valid_ulid at.snapshot_id ≡ true
    → deterministic_score s eval_case.rubric.checks ≢ none
    → s.llm ≢ none
    → Ends (answer_item s at eval_case item)
unfolding answer_item
answer_item-Ends s at eval_case item h scored has_model =
    let (invoke, e) = present s.llm has_model in
    if_elim Ends at.is_cancelled (λ _. (_, refl, mark_cancelled-Reports s at.now filled))
      λ _. rw e (answered (invoke eval_case.prompt at.model at.temperature))
  where
    filled : EvalWorkItem
    filled = record item {
      prompt_text = eval_case.prompt;
      prompt_hash = s.hash_prompt eval_case.prompt;
      model = at.model;
      temperature = at.temperature;
    }

    responded : LlmResponse → EvalWorkItem
    responded response = record filled {
      response = response.content;
      tokens_in = response.tokens_in;
      tokens_out = response.tokens_out;
      duration_ms = at.duration_ms;
    }

    answered :
        (answer : LlmResponse ⊎ Text)
        → Ends (elim answer [
          | inr err ↦ some (fail_item (text "LLM invocation failed: " ++ err) filled)
          | inl response ↦ score_item s at eval_case (responded response)
        ])
    answered (inr err) = (_, refl, fail_item-Reports (text "LLM invocation failed: " ++ err) filled)
    answered (inl response) = score_item-Ends s at eval_case (responded response) h scored

-- Where the snapshot's ID is a ULID, the runner's deterministic checks do not panic, there is a
-- model, and the repository gives a case or an error, a worker that takes an item always comes to
-- an end, whatever is cancelled or fails: the last thing it does is to send a result for the item
-- as it then is, no other result is sent, and the status of the result is the status of the item.
pub run_item-Ends :
    (early : Bool) (s : Services) (at : Setting) (item : EvalWorkItem)
    → s.is_valid_ulid at.snapshot_id ≡ true
    → ((checks : List RubricCheck) → deterministic_score s checks ≢ none)
    → s.llm ≢ none
    → s.get_case item.case_id ≢ inl none
    → Ends (run_item early s at item)
unfolding run_item process_item
run_item-Ends early s at item h scored has_model has_case =
    if_elim Ends early (λ _. (_, refl, mark_cancelled-Reports s at.now item))
      λ _. cased (s.get_case item.case_id) has_case
  where
    started : List Effect
    started = when s.has_items (update_status item.id item_running)

    running_item : EvalWorkItem
    running_item = record item { status = item_running }

    cased :
        (found_case : Option EvalCase ⊎ Text)
        → found_case ≢ inl none
        → Ends (elim found_case [
          | inr err ↦
              let (item', effects) =
                fail_item (text "failed to get eval case: " ++ err) running_item in
              some (item', started ++ effects)
          | inl none ↦ none
          | inl (some eval_case) ↦ elim (answer_item s at eval_case running_item) [
            | none ↦ none
            | some (item', effects) ↦ some (item', started ++ effects)
          ]
        ])
    cased (inr err) n = (
      _,
      refl,
      Reports-before started _ _ (sends-when s.has_items _ refl)
          (fail_item-Reports (text "failed to get eval case: " ++ err) running_item),
    )
    cased (inl none) n = absurd (n refl)
    cased (inl (some eval_case)) n =
        let ((item', effects), e, reports) =
          answer_item-Ends s at eval_case running_item h (scored eval_case.rubric.checks)
            has_model in
        (
          (item', started ++ effects),
          rw e refl,
          Reports-before started effects item' (sends-when s.has_items _ refl) reports,
        )
