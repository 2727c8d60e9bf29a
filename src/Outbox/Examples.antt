-- ===== src/Outbox/Examples.antt =====
-- Runs of processOutbox of internal/storage/outbox_poller.go on a database without errors, whose
-- query finds one pending row at a time.
use eval_prompt.Prelude.{
  ◌≡◌, refl, ◌⊎◌, inl, inr, true, false, none, some, List, [], ◌∷◌, map, arith, if◌then◌else◌,
  Bool-cases, any, list_beq_iff, nat_eq, list_eq, Text, text,
}
use eval_prompt.Outbox.{RowStatus, Row, Database, process_outbox, pending, processed}
use eval_prompt.Outbox.Polling.{
  after_batch, Committed, process_outbox_cases, is_pending, count_pending, has_pending, polls,
  polls_drain,
}

abbrev next_pending : List Row → List Text
next_pending [] = []
next_pending (r ∷ rows) = let rest = next_pending rows in if is_pending r then r.id ∷ [] else rest

next_pending-live :
    (rs : List Row) → (count_pending rs ≡ 0) ⊎ (any (has_pending rs) (next_pending rs) ≡ true)
next_pending-live [] = inl refl
next_pending-live (r ∷ rows) = elim (Bool-cases (is_pending r)) [
  | inl now ↦ inr (ground (arith, list_beq_iff r.id r.id))
  | inr later ↦ elim (next_pending-live rows) [
    | inl none_left ↦ inl (ground arith)
    | inr found ↦ inr (still (next_pending rows) later found)
  ]
]
  where
    still :
        (ids : List Text)
        → is_pending r ≡ false
        → any (has_pending rows) ids ≡ true
        → any (has_pending (r ∷ rows)) (if is_pending r then r.id ∷ [] else ids) ≡ true
    still ids later h = rw later (wider ids h)
      where
        wider :
            (is : List Text)
            → any (has_pending rows) is ≡ true
            → any (has_pending (r ∷ rows)) is ≡ true
        wider [] g = g
        wider (i ∷ is) g = ground (arith, wider is)

abbrev database : Database
database = record {
  begin = none;
  query_pending = λ rows. inl (next_pending rows);
  save = λ _. none;
  commit = none;
}

abbrev row : Text → RowStatus → Row
row id status = record {
  id = id;
  event_type = text "LabelPromotedV1";
  aggregate_id = text "a";
  status = status;
  retry_count = 0;
}

abbrev table : List Row
table = row (text "1") pending ∷ row (text "2") processed ∷ row (text "3") pending ∷ []

process_outbox_cases_example :
    ((err : Text) × (process_outbox database table ≡ (table, some err)))
    ⊎ ((ids : List Text) × (database.query_pending table ≡ inl ids)
        × (process_outbox database table ≡ (map (after_batch ids) table, none))
        × Committed database ids)
process_outbox_cases_example = process_outbox_cases database table

polls_drain_example : count_pending (polls 2 database table) ≡ 0
polls_drain_example =
    polls_drain database 2 table refl refl (λ _. refl)
      (λ rs. (next_pending rs, refl, next_pending-live rs)) (omega arith)
