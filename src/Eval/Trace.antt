-- ===== src/Eval/Trace.antt =====
-- The trace collector of plugins/eval/trace_collector.go. A context holds the innermost span, or
-- none. An open file is a list of the events written to it, one a line; the locks are left out,
-- since each event is written under its span's lock.
pub mod Complete
pub mod Closed
mod Examples
use eval_prompt.Prelude.{
  ℕ, ◌⊎◌, inl, inr, Bool, true, false, Option, none, some, List, [], ◌∷◌, ◌++◌, if◌then◌else◌,
  length, ◌==◌, nat_eq, list_eq, Text, text, is_empty,
}
use eval_prompt.Prelude.Maps.{get_key, put_key, delete_key}
use eval_prompt.Prelude.Values.{str, end, field}
use eval_prompt.Eval.Assertions.{TraceEvent}

pub record SpanInfo : Type 0 where
  pub span_id : Text
  pub parent_id : Text
  pub asset_id : Text
  pub snapshot_id : Text
  pub trace_path : Text

pub record TraceFile : Type 0 where
  pub written : List TraceEvent
  pub is_open : Bool

pub record TraceCollector : Type 0 where
  pub traces_dir : Text
  pub spans : List (Text × SpanInfo)
  pub files : List (Text × TraceFile)

-- The system: filepath.Join, and the errors of os.MkdirAll, os.Create, json.Marshal, and of writing
-- to and closing an open file.
pub record TraceSystem : Type 0 where
  pub join : Text → Text → Text
  pub mkdir_all : Text → Option Text
  pub create : Text → Option Text
  pub marshal : TraceEvent → Option Text
  pub write : Text → TraceEvent → Option Text
  pub close : Text → Option Text

unfoldable pub new_trace_collector : Text → TraceCollector
new_trace_collector traces_dir = record { traces_dir = traces_dir; spans = []; files = [] }

-- File.Write, which fails on a closed file.
unfoldable pub write_file :
    TraceSystem → Text → TraceEvent → TraceCollector → TraceCollector × Option Text
unfolding get_key put_key
write_file sys path event tc = elim (get_key path tc.files) [
  | none ↦ (tc, some (text "file already closed"))
  | some f ↦
      if f.is_open
      then elim (sys.write path event) [
        | some err ↦ (tc, some err)
        | none ↦ (
          record tc {
            files = put_key path (record f { written = f.written ++ (event ∷ []) }) tc.files;
          },
          none,
        )
      ]
      else (tc, some (text "file already closed"))
]

unfoldable pub write_event :
    TraceSystem → SpanInfo → TraceEvent → TraceCollector → TraceCollector × Option Text
unfolding write_file
write_event sys info event tc = elim (sys.marshal event) [
  | some err ↦ (tc, some (text "failed to marshal event: " ++ err))
  | none ↦
      let (tc', failed) = write_file sys info.trace_path event tc in
      (tc', elim failed [ none ↦ none | some err ↦ some (text "failed to write event: " ++ err) ])
]

-- File.Close: the file is closed, with an error or without.
unfoldable pub close_file : Text → TraceCollector → TraceCollector
unfolding get_key put_key
close_file path tc = elim (get_key path tc.files) [
  | none ↦ tc
  | some f ↦ record tc { files = put_key path (record f { is_open = false }) tc.files }
]

-- The span that StartSpan makes, from the first eight characters of a UUID and a UUID.
unfoldable pub new_span :
    TraceSystem → Option SpanInfo → Text → Text → Text → Text → TraceCollector → SpanInfo
new_span sys parent asset_id snapshot_id file_id span_id tc = record {
  span_id = span_id;
  parent_id = elim parent [ none ↦ [] | some p ↦ p.span_id ];
  asset_id = asset_id;
  snapshot_id = snapshot_id;
  trace_path =
      sys.join tc.traces_dir
        (asset_id ++ (text "_" ++ (snapshot_id ++ (text "_" ++ (file_id ++ text ".jsonl")))));
}

abbrev pub start_event : SpanInfo → ℕ → TraceEvent
start_event info now = record {
  span_id = info.span_id;
  parent_id = info.parent_id;
  name = text "span_start";
  timestamp = now;
  event_type = text "span_start";
  payload =
      field (text "asset_id") (str info.asset_id)
        (field (text "snapshot_id") (str info.snapshot_id) end);
}

abbrev pub end_event : SpanInfo → ℕ → TraceEvent
end_event info now = record {
  span_id = info.span_id;
  parent_id = info.parent_id;
  name = text "span_end";
  timestamp = now;
  event_type = text "span_end";
  payload = end;
}

-- The new context or an error.
unfoldable pub start_span :
    TraceSystem
    → Option SpanInfo
    → ℕ
    → Text
    → Text
    → Text
    → Text
    → TraceCollector
    → TraceCollector × (SpanInfo ⊎ Text)
unfolding write_event close_file put_key
start_span sys parent now asset_id snapshot_id file_id span_id tc =
    elim (sys.mkdir_all tc.traces_dir) [
      | some err ↦ (tc, inr (text "failed to create traces dir: " ++ err))
      | none ↦
          let info = new_span sys parent asset_id snapshot_id file_id span_id tc in
          elim (sys.create info.trace_path) [
            | some err ↦ (tc, inr (text "failed to create trace file: " ++ err))
            | none ↦
                let created : TraceCollector = record tc {
                  files =
                      put_key info.trace_path (record { written = []; is_open = true }) tc.files;
                } in
                let (tc', failed) = write_event sys info (start_event info now) created in
                elim failed [
                  | some err ↦ (
                    close_file info.trace_path tc',
                    inr (text "failed to write span start: " ++ err),
                  )
                  | none ↦ (record tc' { spans = put_key span_id info tc'.spans }, inl info)
                ]
          ]
    ]

-- The event as it is recorded in a span: its ID and the time are filled in where they are missing.
abbrev pub stamped : SpanInfo → ℕ → TraceEvent → TraceEvent
stamped info now event = record event {
  span_id = if is_empty event.span_id then info.span_id else event.span_id;
  timestamp = if event.timestamp == 0 then now else event.timestamp;
}

unfoldable pub record_event :
    TraceSystem → Option SpanInfo → ℕ → TraceEvent → TraceCollector → TraceCollector × Option Text
unfolding write_event
record_event sys none now event tc = (tc, some (text "no active span in context"))
record_event sys (some info) now event tc = write_event sys info (stamped info now event) tc

-- The path of the trace or an error.
unfoldable pub finalize :
    TraceSystem → Option SpanInfo → ℕ → TraceCollector → TraceCollector × (Text ⊎ Text)
unfolding write_event close_file delete_key
finalize sys none now tc = (tc, inr (text "no active span in context"))
finalize sys (some info) now tc =
    let (tc', failed) = write_event sys info (end_event info now) tc in
    elim failed [
      | some err ↦ (tc', inr (text "failed to write span end: " ++ err))
      | none ↦
          let closed = close_file info.trace_path tc' in
          elim (sys.close info.trace_path) [
            | some err ↦ (closed, inr (text "failed to close trace file: " ++ err))
            | none ↦ (
              record closed { spans = delete_key info.span_id closed.spans },
              inl info.trace_path,
            )
          ]
    ]

unfoldable pub get_active_spans : TraceCollector → ℕ
get_active_spans tc = length tc.spans

-- The loop of Close over the spans.
unfoldable pub close_files : List (Text × SpanInfo) → TraceCollector → TraceCollector
unfolding close_file
close_files [] tc = tc
close_files (s ∷ spans) tc = close_files spans (close_file s.1.trace_path tc)

unfoldable pub close_all : TraceCollector → TraceCollector
unfolding close_files
close_all tc = record (close_files tc.spans tc) { spans = [] }
