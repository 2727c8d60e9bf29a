-- ===== src/Eval/Trace/Complete.antt =====
-- The file of a span, from StartSpan to Finalize (plugins/eval/trace_collector.go), while events are
-- recorded in other spans too.
use eval_prompt.Prelude.{
  ℕ, ◌≡◌, refl, sym, ap, ◌∙◌, ◌⊎◌, inl, inr, true, false, not, Option, none, some, List, [], ◌∷◌,
  ◌++◌, if◌then◌else◌, Bool-cases, if_elim, ◌==◌, beq_refl, list_beq_iff, nat_eq, list_eq, Text,
  text,
}
use mathlib.Core.Path.{subst}
use mathlib.Core.List.{append-nil, append_assoc}
use eval_prompt.Prelude.Maps.{get_key, put_key, delete_key, get_key-put_key, get_key-keep_keys}
use eval_prompt.Eval.Assertions.{TraceEvent}
use eval_prompt.Eval.Trace.{
  SpanInfo, TraceFile, TraceCollector, TraceSystem, write_file, write_event, close_file, new_span,
  start_event, end_event, start_span, stamped, record_event, finalize,
}

-- An event that is recorded in a span at a time.
pub record Recording : Type 0 where
  pub span : SpanInfo
  pub now : ℕ
  pub event : TraceEvent

unfoldable pub record_all : TraceSystem → List Recording → TraceCollector → TraceCollector
unfolding record_event
record_all sys [] tc = tc
record_all sys (r ∷ rs) tc = record_all sys rs (record_event sys (some r.span) r.now r.event tc).0

-- The events recorded in spans with a path, as they are written.
abbrev pub recorded_in : Text → List Recording → List TraceEvent
recorded_in path [] = []
recorded_in path (r ∷ rs) =
    let rest = recorded_in path rs in
    if r.span.trace_path == path then stamped r.span r.now r.event ∷ rest else rest

-- The collector with other events in the file of a path, which is open.
abbrev pub with_events : Text → List TraceEvent → TraceCollector → TraceCollector
with_events path events tc = record tc {
  files = put_key path (record { written = events; is_open = true }) tc.files;
}

abbrev pub Holds : Text → List TraceEvent → TraceCollector → Type 0
Holds path events tc = get_key path tc.files ≡ some (record { written = events; is_open = true })

with_events-Holds :
    (path : Text) (events : List TraceEvent) (tc : TraceCollector)
    → Holds path events (with_events path events tc)
with_events-Holds path events tc =
    get_key-put_key path path (record { written = events; is_open = true }) tc.files
    ∙ rw (beq_refl path) refl

-- Writing to the file of a span.
write_event-here :
    (sys : TraceSystem) (info : SpanInfo) (event : TraceEvent) (tc : TraceCollector)
    (before : List TraceEvent)
    → sys.marshal event ≡ none
    → sys.write info.trace_path event ≡ none
    → Holds info.trace_path before tc
    → write_event sys info event tc
      ≡ (with_events info.trace_path (before ++ (event ∷ [])) tc, none)
unfolding write_event write_file
write_event-here sys info event tc before m w f = rw (m, f, w, write_file, write_event) refl

-- Recording an event in a span with the path of an open file.
record_event-at :
    (sys : TraceSystem) (path : Text) (r : Recording) (tc : TraceCollector)
    (before : List TraceEvent)
    → ((e : TraceEvent) → sys.marshal e ≡ none)
    → ((e : TraceEvent) → sys.write path e ≡ none)
    → Holds path before tc
    → r.span.trace_path ≡ path
    → write_event sys r.span (stamped r.span r.now r.event) tc
      ≡ (with_events path (before ++ (stamped r.span r.now r.event ∷ [])) tc, none)
record_event-at sys path r tc before m w h p =
    write_event-here sys r.span (stamped r.span r.now r.event) tc before
      (m (stamped r.span r.now r.event)) (rw p (w (stamped r.span r.now r.event))) (rw p h)
    ∙ rw p refl

-- Two collectors with the same spans and the same file under a path.
abbrev Alike : Text → TraceCollector → TraceCollector → Type 0
Alike path tc tc' = (get_key path tc.files ≡ get_key path tc'.files) × (tc.spans ≡ tc'.spans)

-- Writing leaves the other files as they are, and the spans, whether it succeeds or fails.
write_file-Alike :
    (sys : TraceSystem) (target : Text) (event : TraceEvent) (tc : TraceCollector) (path : Text)
    → (target == path) ≡ false
    → Alike path (write_file sys target event tc).0 tc
unfolding write_file
write_file-Alike sys target event tc path h =
    by_file (get_key target tc.files) (sys.write target event)
  where
    by_file :
        (found : Option TraceFile) (failed : Option Text)
        → Alike path
            (elim found as (λ _. TraceCollector × Option Text) [
              | none ↦ (tc, some (text "file already closed"))
              | some f ↦
                  if f.is_open
                  then elim failed as (λ _. TraceCollector × Option Text) [
                    | some err ↦ (tc, some err)
                    | none ↦ (
                      record tc {
                        files =
                            put_key target
                              (record f { written = f.written ++ (event ∷ []) })
                              tc.files;
                      },
                      none,
                    )
                  ]
                  else (tc, some (text "file already closed"))
            ]).0
            tc
    by_file none failed = (refl, refl)
    by_file (some f) (some err) =
        if_elim (λ (r : TraceCollector × Option Text). Alike path r.0 tc) f.is_open
          (λ _. (refl, refl)) (λ _. (refl, refl))
    by_file (some f) none =
        if_elim (λ (r : TraceCollector × Option Text). Alike path r.0 tc) f.is_open
          (λ _. (
            get_key-put_key path target (record f { written = f.written ++ (event ∷ []) }) tc.files
                ∙ rw h refl,
            refl,
          ))
          (λ _. (refl, refl))

write_event-Alike :
    (sys : TraceSystem) (info : SpanInfo) (event : TraceEvent) (tc : TraceCollector) (path : Text)
    → (info.trace_path == path) ≡ false
    → Alike path (write_event sys info event tc).0 tc
unfolding write_event
write_event-Alike sys info event tc path h =
    by_marshal (sys.marshal event) (write_file sys info.trace_path event tc)
      (write_file-Alike sys info.trace_path event tc path h)
  where
    by_marshal :
        (failed : Option Text) (r : TraceCollector × Option Text)
        → Alike path r.0 tc
        → Alike path
            (elim failed as (λ _. TraceCollector × Option Text) [
              | some err ↦ (tc, some (text "failed to marshal event: " ++ err))
              | none ↦ (
                r.0,
                elim r.1 [ none ↦ none | some err ↦ some (text "failed to write event: " ++ err) ],
              )
            ]).0
            tc
    by_marshal (some err) r a = (refl, refl)
    by_marshal none r a = a

-- Where the system fails on no event in the file of a path, the events that are recorded there
-- follow in order, whatever is recorded in other spans.
record_all-Holds :
    (sys : TraceSystem) (path : Text) (rs : List Recording) (tc : TraceCollector)
    (before : List TraceEvent)
    → ((e : TraceEvent) → sys.marshal e ≡ none)
    → ((e : TraceEvent) → sys.write path e ≡ none)
    → Holds path before tc
    → Holds path (before ++ recorded_in path rs) (record_all sys rs tc)
      × ((record_all sys rs tc).spans ≡ tc.spans)
unfolding record_all record_event
record_all-Holds sys path [] tc before m w h =
    (h ∙ ap (λ l. some (record { written = l; is_open = true })) (sym (append-nil before)), refl)
record_all-Holds sys path (r ∷ rs) tc before m w h = elim (Bool-cases (r.span.trace_path == path)) [
  | inl here ↦
      let later = before ++ (stamped r.span r.now r.event ∷ []) in
      let at =
        record_event-at sys path r tc before m w h ((list_beq_iff r.span.trace_path path).0 here) in
      let rest =
        record_all-Holds sys path rs (with_events path later tc) later m w
          (with_events-Holds path later tc) in
      (
        ap (λ (c : TraceCollector × Option Text). get_key path (record_all sys rs c.0).files) at
            ∙ rest.0
            ∙ ap (λ l. some (record { written = l; is_open = true }))
                (append_assoc before (stamped r.span r.now r.event ∷ []) (recorded_in path rs)
                  ∙ rw here refl),
        ap (λ (c : TraceCollector × Option Text). (record_all sys rs c.0).spans) at ∙ rest.1,
      )
  | inr elsewhere ↦
      let alike = write_event-Alike sys r.span (stamped r.span r.now r.event) tc path elsewhere in
      let rest =
        record_all-Holds sys path rs (write_event sys r.span (stamped r.span r.now r.event) tc).0
          before m w (alike.0 ∙ h) in
      (rw elsewhere rest.0, rest.1 ∙ alike.1)
]

abbrev with_span : Text → SpanInfo → TraceCollector → TraceCollector
with_span span_id info tc = record tc { spans = put_key span_id info tc.spans }

-- Closing an open file.
close_file-with_events :
    (path : Text) (events : List TraceEvent) (tc : TraceCollector)
    → (get_key path (close_file path (with_events path events tc)).files
        ≡ some (record { written = events; is_open = false }))
      × ((close_file path (with_events path events tc)).spans ≡ tc.spans)
unfolding close_file
close_file-with_events path events tc =
    rw (with_events-Holds path events tc, close_file)
      (
        get_key-put_key path path (record { written = events; is_open = false })
              (with_events path events tc).files
            ∙ rw (beq_refl path) refl,
        refl,
      )

get_key-delete_key :
    {V : Type 0} (k : Text) (m : List (Text × V)) → get_key k (delete_key k m) ≡ none
unfolding delete_key
get_key-delete_key k m = get_key-keep_keys k (λ q. not (q == k)) m ∙ rw (beq_refl k) refl

-- Finalizing a span whose file is open where the system does not fail.
finalize_succeeds :
    (sys : TraceSystem) (info : SpanInfo) (now : ℕ) (tc : TraceCollector) (before : List TraceEvent)
    → ((e : TraceEvent) → sys.marshal e ≡ none)
    → ((e : TraceEvent) → sys.write info.trace_path e ≡ none)
    → sys.close info.trace_path ≡ none
    → Holds info.trace_path before tc
    → ((finalize sys (some info) now tc).1 ≡ inl info.trace_path)
      × (get_key info.trace_path (finalize sys (some info) now tc).0.files
          ≡ some (record { written = before ++ (end_event info now ∷ []); is_open = false }))
      × (get_key info.span_id (finalize sys (some info) now tc).0.spans ≡ none)
unfolding finalize close_file
finalize_succeeds sys info now tc before m w c h =
    let written =
      write_event-here sys info (end_event info now) tc before (m (end_event info now))
        (w (end_event info now)) h in
    let closed = close_file-with_events info.trace_path (before ++ (end_event info now ∷ [])) tc in
    rw (written, c, finalize) (refl, rw written closed.0, get_key-delete_key info.span_id _)

-- What is left of a span that is finalized after it was started and events were recorded.
abbrev pub Traced :
    TraceSystem → SpanInfo → ℕ → ℕ → List Recording → TraceCollector × (SpanInfo ⊎ Text) → Type 0
Traced sys info now later rs r =
    let last = finalize sys (some info) later (record_all sys rs r.0) in
    (r.1 ≡ inl info)
    × (last.1 ≡ inl info.trace_path)
    × (get_key info.trace_path last.0.files
        ≡ some (record {
          written =
              (start_event info now ∷ recorded_in info.trace_path rs)
              ++ (end_event info later ∷ []);
          is_open = false;
        }))
    × (get_key info.span_id last.0.spans ≡ none)

module _ (sys : TraceSystem) (parent : Option SpanInfo)
    (asset_id snapshot_id file_id span_id : Text) (tc : TraceCollector) where
  -- The span that is started.
  abbrev started : SpanInfo
  started = new_span sys parent asset_id snapshot_id file_id span_id tc

  -- Starting a span where the system does not fail.
  start_span_succeeds :
      (now : ℕ)
      → ((e : TraceEvent) → sys.marshal e ≡ none)
      → ((e : TraceEvent) → sys.write started.trace_path e ≡ none)
      → sys.mkdir_all tc.traces_dir ≡ none
      → sys.create started.trace_path ≡ none
      → start_span sys parent now asset_id snapshot_id file_id span_id tc ≡ (
        with_span span_id started (
            with_events started.trace_path
              (start_event started now ∷ [])
              (with_events started.trace_path [] tc)),
        inl started,
      )
  unfolding start_span
  start_span_succeeds now m w d c =
      let wrote =
        write_event-here sys started (start_event started now)
          (with_events started.trace_path [] tc) [] (m (start_event started now))
          (w (start_event started now)) (with_events-Holds started.trace_path [] tc) in
      rw (d, c, wrote, start_span)
        (ap (λ (r : TraceCollector × Option Text). (with_span span_id started r.0, inl started))
          wrote)

  -- Where the system does not fail, a span that is started, and finalized after events have been
  -- recorded in it and in other spans, gives the path of its file. The file is closed and holds the
  -- start of the span, the events recorded under its path in their order, and the end of the span,
  -- and the span is no longer active.
  pub finalize-start_span :
      (now later : ℕ) (rs : List Recording)
      → ((e : TraceEvent) → sys.marshal e ≡ none)
      → ((e : TraceEvent) → sys.write started.trace_path e ≡ none)
      → sys.mkdir_all tc.traces_dir ≡ none
      → sys.create started.trace_path ≡ none
      → sys.close started.trace_path ≡ none
      → Traced sys started now later rs
          (start_span sys parent now asset_id snapshot_id file_id span_id tc)
  finalize-start_span now later rs m w d c close =
      let opened =
        with_events started.trace_path (start_event started now ∷ [])
          (with_events started.trace_path [] tc) in
      let recorded =
        record_all-Holds sys started.trace_path rs (with_span span_id started opened)
          (start_event started now ∷ []) m w
          (with_events-Holds started.trace_path (start_event started now ∷ [])
            (with_events started.trace_path [] tc)) in
      let last =
        finalize_succeeds sys started later (record_all sys rs (with_span span_id started opened))
          (start_event started now ∷ recorded_in started.trace_path rs) m w close recorded.0 in
      subst (Traced sys started now later rs) (sym (start_span_succeeds now m w d c))
        (refl, last.0, last.1, last.2)
