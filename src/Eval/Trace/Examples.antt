-- ===== src/Eval/Trace/Examples.antt =====
-- Spans of a trace collector whose system does not fail (plugins/eval/trace_collector.go).
use eval_prompt.Prelude.{◌≡◌, refl, none, List, [], ◌∷◌, ◌++◌, nat_eq, list_eq, Text, text}
use eval_prompt.Prelude.Values.{end}
use eval_prompt.Eval.Assertions.{TraceEvent}
use eval_prompt.Eval.Trace.{
  SpanInfo, TraceCollector, TraceSystem, new_trace_collector, new_span, start_span,
  get_active_spans, close_all,
}
use eval_prompt.Eval.Trace.Complete.{Recording, Traced, finalize-start_span}
use eval_prompt.Eval.Trace.Closed.{Refuses, close_all-Refuses}
use eval_prompt.Prelude.{nat_eq, list_eq}

abbrev steady : TraceSystem
steady = record {
  join = λ dir name. dir ++ (text "/" ++ name);
  mkdir_all = λ dir. none;
  create = λ path. none;
  marshal = λ event. none;
  write = λ path event. none;
  close = λ path. none;
}

abbrev fresh_span : Text → SpanInfo
fresh_span file_id =
    new_span steady none (text "a1") (text "s1") file_id (text "id1")
      (new_trace_collector (text "traces"))

abbrev llm_call : TraceEvent
llm_call = record {
  span_id = [];
  parent_id = [];
  name = text "llm";
  timestamp = 0;
  event_type = text "llm_call";
  payload = end;
}

abbrev recordings : List Recording
recordings =
    record { span = fresh_span (text "12345678"); now = 2; event = llm_call }
    ∷ record { span = fresh_span (text "abcdefgh"); now = 3; event = llm_call }
    ∷ record { span = fresh_span (text "12345678"); now = 4; event = llm_call }
    ∷ []

finalize-start_span_example : Traced steady (fresh_span (text "12345678")) 1 5 recordings (
    start_span steady none 1
      (text "a1")
      (text "s1")
      (text "12345678")
      (text "id1")
      (new_trace_collector (text "traces")))
finalize-start_span_example =
    finalize-start_span steady none (text "a1") (text "s1") (text "12345678") (text "id1")
      (new_trace_collector (text "traces")) 1 5 recordings (λ e. refl) (λ e. refl) refl refl refl

abbrev started_traces : TraceCollector
started_traces =
    (start_span steady none 1 (text "a1") (text "s1") (text "12345678") (text "id1")
      (new_trace_collector (text "traces"))).0

close_all-Refuses_example :
    Refuses steady (fresh_span (text "12345678")) (close_all started_traces)
    × (get_active_spans (close_all started_traces) ≡ 0)
unfolding start_span new_span new_trace_collector
close_all-Refuses_example =
    close_all-Refuses steady (fresh_span (text "12345678")) started_traces refl
