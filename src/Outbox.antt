-- ===== src/Outbox.antt =====
-- The outbox: processOutbox of internal/storage/outbox_poller.go and the statuses of
-- internal/storage/outbox_repository.go. The table of events is a list of rows; ent and SQL are
-- the parameter `Database`.
pub mod Polling
mod Examples
use eval_prompt.Prelude.{
  ℕ, ◌⊎◌, inl, inr, Option, none, some, List, [], ◌∷◌, if◌then◌else◌, ◌==◌, nat_eq, list_eq, Text,
  text, is_empty,
}
use eval_prompt.Prelude.Int.{ℤ, int_eq, pos}

-- A value of Go's `int` type EventStatus: 0 is pending, 1 processed and 2 failed.
abbrev pub EventStatus : Type 0
EventStatus = ℤ

unfoldable pub event_status_string : EventStatus → Text
event_status_string s =
    if s == pos 0
    then text "pending"
    else if s == pos 1
    then text "processed"
    else if s == pos 2
    then text "failed"
    else text "unknown"

-- The enumeration of the table, `outboxevent.Status`; any other text is `unlisted`.
pub data RowStatus : Type 0 where
  pending processed failed : RowStatus
  unlisted : Text → RowStatus

unfoldable pub status_to_ent : EventStatus → RowStatus
status_to_ent s =
    if s == pos 0
    then pending
    else if s == pos 1
    then processed
    else if s == pos 2
    then failed
    else pending

unfoldable pub status_from_ent : RowStatus → EventStatus
status_from_ent pending = pos 0
status_from_ent processed = pos 1
status_from_ent failed = pos 2
status_from_ent (unlisted _) = pos 0

pub record Row : Type 0 where
  pub id : Text
  pub event_type : Text
  pub aggregate_id : Text
  pub status : RowStatus
  pub retry_count : ℕ

-- What the transaction may run into: an error at its begin, of the query (which else gives the IDs
-- of at most 100 rows), of the update of a row, and of the commit.
pub record Database : Type 0 where
  pub begin : Option Text
  pub query_pending : List Row → List Text ⊎ Text
  pub save : Text → Option Text
  pub commit : Option Text

-- UpdateOne(event).SetStatus(processed).
unfoldable pub mark_processed : Text → List Row → List Row
mark_processed id [] = []
mark_processed id (r ∷ rows) =
    let rest = mark_processed id rows in
    if r.id == id then record r { status = processed } ∷ rest else r ∷ rest

-- The loop over the events: the rows inside the transaction, or the error of a save.
unfoldable pub process_events : (Text → Option Text) → List Text → List Row → List Row ⊎ Text
unfolding mark_processed
process_events save [] rows = inl rows
process_events save (id ∷ ids) rows =
    let rest = process_events save ids (mark_processed id rows) in
    elim (save id) [ some err ↦ inr err | none ↦ rest ]

-- The table after the call and the error: without a commit the transaction is rolled back.
unfoldable pub process_outbox : Database → List Row → List Row × Option Text
unfolding process_events
process_outbox db rows = elim (db.begin) [
  | some err ↦ (rows, some err)
  | none ↦ elim (db.query_pending rows) [
    | inr err ↦ (rows, some err)
    | inl ids ↦ if is_empty ids then (rows, none) else elim (process_events db.save ids rows) [
      | inr err ↦ (rows, some err)
      | inl rows' ↦ elim (db.commit) [ some err ↦ (rows, some err) | none ↦ (rows', none) ]
    ]
  ]
]
