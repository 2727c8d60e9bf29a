-- ===== src/Outbox/Polling.antt =====
-- What processOutbox of internal/storage/outbox_poller.go leaves in the table.
use eval_prompt.Prelude.{
  ℕ, zero, suc, ◌≤◌, ◌<◌, ◌≡◌, refl, ap, ◌∙◌, ◌⊎◌, inl, inr, Bool, true, false, ◌&&◌, Option, none,
  some, List, [], ◌∷◌, map, arith, if◌then◌else◌, Bool-cases, if_elim, any, All, ◌==◌, nat_eq,
  list_eq, Text,
}
use eval_prompt.Outbox.{
  Row, Database, mark_processed, process_events, process_outbox, pending, processed,
}

-- The table with the rows of all these IDs processed.
abbrev pub mark_all : List Text → List Row → List Row
mark_all [] rows = rows
mark_all (id ∷ ids) rows = mark_all ids (mark_processed id rows)

-- The row as it is after a batch with these IDs.
abbrev pub after_batch : List Text → Row → Row
after_batch ids r = if any (λ id. r.id == id) ids then record r { status = processed } else r

mark_processed-map :
    (id : Text) (rows : List Row) → mark_processed id rows ≡ map (after_batch (id ∷ [])) rows
unfolding mark_processed
mark_processed-map id [] = refl
mark_processed-map id (r ∷ rows) = ground (arith, mark_processed-map id rows)

after_both :
    (id : Text) (ids : List Text) (r : Row)
    → after_batch ids (after_batch (id ∷ []) r) ≡ after_batch (id ∷ ids) r
after_both id ids r = elim (Bool-cases (r.id == id)) [
  | inl e ↦ rw e (
      if_elim (λ (q : Row). q ≡ record r { status = processed }) (any (λ i. r.id == i) ids)
        (λ _. refl) (λ _. refl))
  | inr e ↦ rw e refl
]

after_batch_twice :
    (id : Text) (ids : List Text) (rows : List Row)
    → map (after_batch ids) (map (after_batch (id ∷ [])) rows) ≡ map (after_batch (id ∷ ids)) rows
after_batch_twice id ids [] = refl
after_batch_twice id ids (r ∷ rows) = rw (after_batch_twice id ids rows, after_both id ids r) refl

mark_all-map : (ids : List Text) (rows : List Row) → mark_all ids rows ≡ map (after_batch ids) rows
mark_all-map [] [] = refl
mark_all-map [] (r ∷ rows) = ap (λ l. r ∷ l) (mark_all-map [] rows)
mark_all-map (id ∷ ids) rows =
    mark_all-map ids (mark_processed id rows)
    ∙ ap (map (after_batch ids)) (mark_processed-map id rows)
    ∙ after_batch_twice id ids rows

process_events_cases :
    (save : Text → Option Text) (ids : List Text) (rows : List Row)
    → ((process_events save ids rows ≡ inl (mark_all ids rows))
        × All {0, 0} (λ id. save id ≡ none) ids)
      ⊎ ((err : Text) × (process_events save ids rows ≡ inr err))
unfolding process_events
process_events_cases save [] rows = inl (refl, tt)
process_events_cases save (id ∷ ids) rows =
    by_save (save id) refl (process_events_cases save ids (mark_processed id rows))
  where
    by_save :
        (saved : Option Text)
        → save id ≡ saved
        → ((process_events save ids (mark_processed id rows)
              ≡ inl (mark_all ids (mark_processed id rows)))
            × All {0, 0} (λ i. save i ≡ none) ids)
          ⊎ ((err : Text) × (process_events save ids (mark_processed id rows) ≡ inr err))
        → ((elim saved [
          | some err ↦ inr err
          | none ↦ process_events save ids (mark_processed id rows)
        ]
              ≡ inl (mark_all (id ∷ ids) rows))
            × All {0, 0} (λ i. save i ≡ none) (id ∷ ids))
          ⊎ ((err : Text) × (elim saved [
            | some err ↦ inr err
            | none ↦ process_events save ids (mark_processed id rows)
          ]
                ≡ inr err))
    by_save (some err) e h = inr (err, refl)
    by_save none e (inl (h, saved)) = inl (h, (e, saved))
    by_save none e (inr failure) = inr failure

-- The database has no error in the transaction, with the commit only where there are IDs.
abbrev pub Committed : Database → List Text → Type 0
Committed db ids =
    (db.begin ≡ none)
    × ((ids ≡ []) ⊎ (All {0, 0} (λ id. db.save id ≡ none) ids × (db.commit ≡ none)))

abbrev AllOrNothing : Database → List Row → Type 0
AllOrNothing db rows =
    ((err : Text) × (process_outbox db rows ≡ (rows, some err)))
    ⊎ ((ids : List Text) × (db.query_pending rows ≡ inl ids)
        × (process_outbox db rows ≡ (mark_all ids rows, none))
        × Committed db ids)

outbox_cases : (db : Database) (rows : List Row) → AllOrNothing db rows
unfolding process_outbox
outbox_cases db rows = begun db.begin refl
  where
    ran :
        (ids : List Text) → db.begin ≡ none → db.query_pending rows ≡ inl ids → AllOrNothing db rows
    ran [] b q = inr ([], q, ground arith, (b, inl refl))
    ran (id ∷ ids) b q = elim (process_events_cases db.save (id ∷ ids) rows) [
      | inr (err, e) ↦ inl (err, ground arith)
      | inl (e, saved) ↦ committed db.commit refl e saved
    ]
      where
        committed :
            (c : Option Text)
            → db.commit ≡ c
            → process_events db.save (id ∷ ids) rows ≡ inl (mark_all (id ∷ ids) rows)
            → All {0, 0} (λ i. db.save i ≡ none) (id ∷ ids)
            → AllOrNothing db rows
        committed (some err) d e saved = inl (err, ground arith)
        committed none d e saved = inr (id ∷ ids, q, ground arith, (b, inr (saved, d)))

    queried :
        (found : List Text ⊎ Text)
        → db.begin ≡ none
        → db.query_pending rows ≡ found
        → AllOrNothing db rows
    queried (inr err) b q = inl (err, ground arith)
    queried (inl ids) b q = ran ids b q

    begun : (b : Option Text) → db.begin ≡ b → AllOrNothing db rows
    begun (some err) b = inl (err, ground arith)
    begun none b = queried (db.query_pending rows) b refl

-- processOutbox is all or nothing: with an error the table is as it was. Without one the query gave
-- IDs, and the table has the same rows in the same order, with the status processed in those whose
-- ID the query gave, and each of the others, and every other field, as it was; and the begin, and
-- with any IDs the update of each of them and the commit, had no error.
pub process_outbox_cases :
    (db : Database) (rows : List Row)
    → ((err : Text) × (process_outbox db rows ≡ (rows, some err)))
      ⊎ ((ids : List Text) × (db.query_pending rows ≡ inl ids)
          × (process_outbox db rows ≡ (map (after_batch ids) rows, none))
          × Committed db ids)
process_outbox_cases db rows = elim (outbox_cases db rows) [
  | inl unchanged ↦ inl unchanged
  | inr (ids, q, e, fine) ↦ inr (ids, q, e ∙ ap (λ l. (l, none)) (mark_all-map ids rows), fine)
]

abbrev pub is_pending : Row → Bool
is_pending r = elim (r.status) [ pending ↦ true | _ ↦ false ]

-- How many rows are pending.
abbrev pub count_pending : List Row → ℕ
count_pending [] = 0
count_pending (r ∷ rows) = let rest = count_pending rows in if is_pending r then suc rest else rest

-- Whether a pending row has the ID.
abbrev pub has_pending : List Row → Text → Bool
has_pending rows id = any (λ (r : Row). r.id == id && is_pending r) rows

mark_processed-count :
    (id : Text) (rows : List Row)
    → (count_pending (mark_processed id rows) ≤ count_pending rows)
      × (has_pending rows id ≡ true → count_pending (mark_processed id rows) < count_pending rows)
unfolding mark_processed
mark_processed-count id [] = ground arith
mark_processed-count id (r ∷ rows) = ground (arith, mark_processed-count id rows)

mark_processed-other :
    (id other : Text) (rows : List Row)
    → has_pending rows id ≡ false
    → has_pending (mark_processed id rows) other ≡ has_pending rows other
unfolding mark_processed
mark_processed-other id other [] h = refl
mark_processed-other id other (r ∷ rows) h = ground (arith, mark_processed-other id other rows)

mark_all-le :
    (ids : List Text) (rows : List Row) → count_pending (mark_all ids rows) ≤ count_pending rows
mark_all-le [] rows = omega arith
mark_all-le (id ∷ ids) rows =
    ground (arith, mark_all-le ids (mark_processed id rows), mark_processed-count id rows)

mark_all-lt :
    (ids : List Text) (rows : List Row)
    → any (has_pending rows) ids ≡ true
    → count_pending (mark_all ids rows) < count_pending rows
mark_all-lt [] rows h = cc
mark_all-lt (id ∷ ids) rows h = elim (Bool-cases (has_pending rows id)) [
  | inl now ↦ ground (arith, mark_all-le ids (mark_processed id rows), mark_processed-count id rows)
  | inr later ↦
      let kept =
        any-same (mark_processed id rows) rows ids (λ i. mark_processed-other id i rows later) in
      ground (arith, mark_all-lt ids (mark_processed id rows), mark_processed-count id rows, kept)
]
  where
    any-same :
        (rs qs : List Row) (is : List Text)
        → ((i : Text) → has_pending rs i ≡ has_pending qs i)
        → any (has_pending rs) is ≡ any (has_pending qs) is
    any-same rs qs [] same = refl
    any-same rs qs (i ∷ is) same = ground (arith, same i, any-same rs qs is same)

-- The polls in a row; errors are logged and dropped.
abbrev pub polls : ℕ → Database → List Row → List Row
polls zero db rows = rows
polls (suc n) db rows = polls n db (process_outbox db rows).0

process_outbox-healthy :
    (db : Database) (rows : List Row) (ids : List Text)
    → db.begin ≡ none
    → db.commit ≡ none
    → ((id : Text) → db.save id ≡ none)
    → db.query_pending rows ≡ inl ids
    → (process_outbox db rows).0 ≡ mark_all ids rows
unfolding process_outbox
process_outbox-healthy db rows [] b c s q = ground arith
process_outbox-healthy db rows (id ∷ ids) b c s q = let e = saved (id ∷ ids) rows in ground arith
  where
    saved : (is : List Text) (rs : List Row) → process_events db.save is rs ≡ inl (mark_all is rs)
    saved [] rs = unfold process_events in refl
    saved (i ∷ is) rs =
        unfold process_events in (rw (s i, process_events) (saved is (mark_processed i rs)))

-- Without errors of the database, and where the query finds a pending row as long as there is one,
-- polling drains the outbox: after as many polls as there are pending rows, none is pending.
pub polls_drain :
    (db : Database) (n : ℕ) (rows : List Row)
    → db.begin ≡ none
    → db.commit ≡ none
    → ((id : Text) → db.save id ≡ none)
    → ((rs : List Row)
        → (ids : List Text) × (db.query_pending rs ≡ inl ids)
          × ((count_pending rs ≡ 0) ⊎ (any (has_pending rs) ids ≡ true)))
    → count_pending rows ≤ n
    → count_pending (polls n db rows) ≡ 0
polls_drain db zero rows b c s q h = omega arith
polls_drain db (suc n) rows b c s q h =
    let (ids, found, live) = q rows in
    let e = process_outbox-healthy db rows ids b c s found in
    rw e (
      polls_drain db n (mark_all ids rows) b c s q
        (ground (arith, mark_all-le ids rows, mark_all-lt ids rows)))
