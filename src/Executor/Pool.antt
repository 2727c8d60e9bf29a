-- ===== src/Executor/Pool.antt =====
-- The worker pool of Execute (internal/service/eval_executor.go) as interleaved steps of the
-- producer, the workers and the collector.
pub mod Exactly
pub mod Progress
use eval_prompt.Prelude.{
  ℕ, zero, suc, ◌<◌, ◌≡◌, Bool, true, false, List, [], ◌∷◌, ◌++◌, length, Text,
}

-- The items of one case: a run for each number up to RunsPerCase. `make` builds the item, with its
-- ULID and time, from the case and the number of the run.
unfoldable pub items_of_case : {A : Type 0} → (Text → ℕ → A) → Text → ℕ → ℕ → List A
items_of_case make case_id run_num zero = []
items_of_case make case_id run_num (suc left) =
    make case_id run_num ∷ items_of_case make case_id (suc run_num) left

-- The two loops of the producer.
unfoldable pub produced_items : {A : Type 0} → (Text → ℕ → A) → List Text → ℕ → List A
unfolding items_of_case
produced_items make [] runs_per_case = []
produced_items make (case_id ∷ case_ids) runs_per_case =
    items_of_case make case_id 1 runs_per_case ++ produced_items make case_ids runs_per_case

-- `remaining` is what the producer has still to send, `queue` the buffer of workCh and `closed`
-- whether it is closed, `idle` how many workers wait in runLoop, `busy` the items that workers
-- have taken, `results` the buffer of the results, and `collected` what collectResults received.
pub record Pool (A : Type 0) : Type 0 where
  pub remaining : List A
  pub queue : List A
  pub closed : Bool
  pub idle : ℕ
  pub busy : List A
  pub results : List A
  pub collected : List A

-- The pool as Execute starts it.
unfoldable pub start_pool : {A : Type 0} → ℕ → List A → Pool A
start_pool workers items = record {
  remaining = items;
  queue = [];
  closed = false;
  idle = workers;
  busy = [];
  results = [];
  collected = [];
}

-- The steps, each with its guard: a send needs room in the buffer of `total` elements, a receive
-- an element, and a worker leaves runLoop when the channel is closed and empty. An item that is
-- cancelled takes the same steps as one that is processed, since markCancelled sends a result too.
pub data Step {A : Type 0} (total : ℕ) (p : Pool A) : Pool A → Type 0 where
  produce :
      (x : A) (xs : List A)
      → p.remaining ≡ x ∷ xs
      → length p.queue < total
      → Step total p (record p { remaining = xs; queue = p.queue ++ (x ∷ []) })
  close_queue : p.remaining ≡ [] → p.closed ≡ false → Step total p (record p { closed = true })
  take_item :
      (x : A) (xs : List A) (k : ℕ)
      → p.queue ≡ x ∷ xs
      → p.idle ≡ suc k
      → Step total p (record p { queue = xs; idle = k; busy = x ∷ p.busy })
  send_result :
      (before : List A) (x : A) (after : List A)
      → p.busy ≡ before ++ (x ∷ after)
      → length p.results < total
      → Step total p
          (record p { busy = before ++ after; idle = suc p.idle; results = p.results ++ (x ∷ []) })
  collect :
      (x : A) (xs : List A)
      → p.results ≡ x ∷ xs
      → Step total p (record p { results = xs; collected = p.collected ++ (x ∷ []) })
  leave :
      (k : ℕ)
      → p.queue ≡ []
      → p.closed ≡ true
      → p.idle ≡ suc k
      → Step total p (record p { idle = k })

-- What can happen from the start.
pub data Reachable {A : Type 0} (total workers : ℕ) (items : List A) : Pool A → Type 0 where
  started : Reachable total workers items (start_pool workers items)
  stepped :
      {p q : Pool A}
      → Reachable total workers items p
      → Step total p q
      → Reachable total workers items q

-- All workers have returned, so that wg.Wait returns and Execute goes on to finalize.
abbrev pub Waited : {A : Type 0} → Pool A → Type 0
Waited p = (p.idle ≡ 0) × (p.busy ≡ [])
