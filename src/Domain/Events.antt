-- ===== src/Domain/Events.antt =====
-- The event types of internal/domain/events.go.
use eval_prompt.Prelude.{String, Eq, decide_beq, decide_beq_iff, String-discrete}

-- A Go `EventType` is a string: `other_event` is any string but the constants.
pub data EventType : Type 0 where
  prompt_asset_created prompt_asset_updated prompt_asset_deleted prompt_asset_archived : EventType
  snapshot_committed snapshot_tagged : EventType
  label_created label_updated label_promoted label_removed : EventType
  eval_started eval_completed eval_failed : EventType
  prompt_adapted optimization_suggested optimization_applied optimization_discarded : EventType
  other_event : String → EventType

unfoldable pub EventType-discrete : Discrete EventType
EventType-discrete = hlevel String-discrete

instance abbrev pub event_type_eq : Eq EventType
event_type_eq = record {
  beq = decide_beq EventType-discrete;
  beq_iff = decide_beq_iff EventType-discrete;
}
