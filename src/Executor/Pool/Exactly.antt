-- ===== src/Executor/Pool/Exactly.antt =====
-- The pool of Execute (internal/service/eval_executor.go) loses no item and repeats none.
use eval_prompt.Prelude.{
  ℕ, suc, ◌+◌, ◌≤◌, ◌≡◌, refl, ◌∙◌, ◌≢◌, inl, inr, Bool, true, false, List, [], ◌∷◌, ◌++◌, arith,
  if◌then◌else◌, Bool-cases, length, length-append, List-cases,
}
use eval_prompt.Executor.Pool.{
  Pool, start_pool, Step, Reachable, Waited, produce, close_queue, take_item, send_result, collect,
  leave, started, stepped,
}

module _ {A : Type 0} where
  -- How many elements pass a test.
  abbrev pub count : (A → Bool) → List A → ℕ
  count f [] = 0
  count f (x ∷ xs) = let rest = count f xs in if f x then suc rest else rest

  pub count-append : (f : A → Bool) (xs ys : List A) → count f (xs ++ ys) ≡ count f xs + count f ys
  count-append f [] ys = omega arith
  count-append f (x ∷ xs) ys = ground (arith, count-append f xs ys)

  -- How many items of the pool pass a test, wherever they are.
  abbrev pub in_pool : (A → Bool) → Pool A → ℕ
  in_pool f p =
      count f p.remaining
      + count f p.queue
      + count f p.busy
      + count f p.results
      + count f p.collected

  in_pool-Step :
      (f : A → Bool) (total : ℕ) {p q : Pool A} → Step total p q → in_pool f q ≡ in_pool f p
  in_pool-Step f total {p} (produce x xs e room) = ground (arith, count-append f p.queue (x ∷ []))
  in_pool-Step f total {p} (close_queue e c) = refl
  in_pool-Step f total {p} (take_item x xs k e i) = ground arith
  in_pool-Step f total {p} (send_result before x after e room) = ground (
    arith,
    count-append f before (x ∷ after),
    count-append f before after,
    count-append f p.results (x ∷ []),
  )
  in_pool-Step f total {p} (collect x xs e) = ground (arith, count-append f p.collected (x ∷ []))
  in_pool-Step f total {p} (leave k e c i) = refl

  pub in_pool-Reachable :
      (f : A → Bool) {total workers : ℕ} {items : List A} {p : Pool A}
      → Reachable total workers items p
      → in_pool f p ≡ count f items
  in_pool-Reachable f started = unfold start_pool in ground arith
  in_pool-Reachable f (stepped r s) = in_pool-Step f _ s ∙ in_pool-Reachable f r

  -- How many workers are in the pool: waiting or with an item.
  abbrev pub crew : Pool A → ℕ
  crew p = p.idle + length p.busy

  -- While a worker is there with the channel still open or an item waiting, nobody has left.
  record Inv (workers : ℕ) (p : Pool A) : Type 0 where
    open_crew : p.closed ≡ false → crew p ≡ workers
    closed_done : p.closed ≡ true → p.remaining ≡ []
    staffed : p.queue ≢ [] → crew p ≡ workers

  crew-busy :
      (before : List A) (x : A) (after : List A)
      → length (before ++ (x ∷ after)) ≡ suc (length (before ++ after))
  crew-busy before x after =
      ground (arith, length-append before (x ∷ after), length-append before after)

  Inv-Step : {total workers : ℕ} {p q : Pool A} → Step total p q → Inv workers p → Inv workers q
  Inv-Step {p = p} (produce x xs e room) h = record {
    open_crew = h.open_crew;
    closed_done = λ c. absurd (ground (arith, h.closed_done c));
    staffed = λ _. elim (Bool-cases p.closed) [
      | inl c ↦ absurd (ground (arith, h.closed_done c))
      | inr c ↦ h.open_crew c
    ];
  }
  Inv-Step {p = p} (close_queue e c) h = record {
    open_crew = λ d. cc;
    closed_done = λ _. e;
    staffed = h.staffed;
  }
  Inv-Step {p = p} (take_item x xs k e i) h = record {
    open_crew = λ c. ground (arith, h.open_crew c);
    closed_done = h.closed_done;
    staffed = λ _. ground (arith, h.staffed);
  }
  Inv-Step {p = p} (send_result before x after e room) h = record {
    open_crew = λ c. ground (arith, h.open_crew c, crew-busy before x after);
    closed_done = h.closed_done;
    staffed = λ n. ground (arith, h.staffed n, crew-busy before x after);
  }
  Inv-Step {p = p} (collect x xs e) h = record {
    open_crew = h.open_crew;
    closed_done = h.closed_done;
    staffed = h.staffed;
  }
  Inv-Step {p = p} (leave k e c i) h = record {
    open_crew = λ d. cc;
    closed_done = h.closed_done;
    staffed = λ n. absurd (n e);
  }

  Inv-Reachable :
      {total workers : ℕ} {items : List A} {p : Pool A}
      → Reachable total workers items p
      → Inv workers p
  Inv-Reachable started =
      unfold start_pool in
      record { open_crew = λ _. omega arith; closed_done = λ c. cc; staffed = λ n. absurd (n refl) }
  Inv-Reachable (stepped r s) = Inv-Step s (Inv-Reachable r)

  all_sent :
      {workers : ℕ} {p : Pool A}
      → 1 ≤ workers
      → Inv workers p
      → Waited p
      → (p.remaining ≡ []) × (p.queue ≡ [])
  all_sent {workers} {p} w h (no_idle, no_busy) =
      let gone : crew p ≡ 0 = ground arith in
      (
        elim (Bool-cases p.closed) [
          | inl c ↦ h.closed_done c
          | inr c ↦ absurd (omega (arith, h.open_crew c))
        ],
        elim (List-cases p.queue) [
          | inl e ↦ e
          | inr (x, xs, e) ↦ absurd (omega (arith, h.staffed (λ n. cc)))
        ],
      )

  -- With at least one worker, however the steps of the producer, the workers and the collector
  -- interleave: once all workers have returned, each work item has sent exactly one result, which
  -- is collected or waits in the channel. For every test, the results of the items that pass it are
  -- as many as the items that pass it.
  pub in_pool-Waited :
      (f : A → Bool) (total workers : ℕ) (items : List A) (p : Pool A)
      → 1 ≤ workers
      → Reachable total workers items p
      → Waited p
      → count f p.results + count f p.collected ≡ count f items
  in_pool-Waited f total workers items p w r waited =
      let all = in_pool-Reachable f r in
      let (sent, taken) = all_sent w (Inv-Reachable r) waited in ground (arith, waited.1)
