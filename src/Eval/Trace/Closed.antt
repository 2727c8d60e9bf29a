-- ===== src/Eval/Trace/Closed.antt =====
-- Spans whose file is closed, by Finalize or by Close (plugins/eval/trace_collector.go).
use eval_prompt.Eval.Assertions.{TraceEvent}
use eval_prompt.Prelude.{
  ℕ, ◌≡◌, refl, ◌≢◌, ◌⊎◌, inl, inr, Bool, true, false, not, ◌||◌, Option, none, some, List, [], ◌∷◌,
  ◌++◌, arith, if◌then◌else◌, if_elim, or_true, not-true, any, ◌==◌, beq_refl, list_beq_iff, Text,
  text,
}
use eval_prompt.Prelude.Maps.{get_key, put_key, delete_key, get_key-put_key}
use eval_prompt.Prelude.{nat_eq, list_eq}
use eval_prompt.Eval.Trace.{
  SpanInfo, TraceFile, TraceCollector, TraceSystem, write_file, write_event, close_file, end_event,
  stamped, record_event, finalize, get_active_spans, close_files, close_all,
}

-- No file is open under a path.
abbrev pub closed : Text → TraceCollector → Bool
closed path tc = elim (get_key path tc.files) [ none ↦ true | some f ↦ not f.is_open ]

closed-close_file : (path : Text) (tc : TraceCollector) → closed path (close_file path tc) ≡ true
unfolding close_file
closed-close_file path tc = by_file (get_key path tc.files) refl
  where
    by_file :
        (f : Option TraceFile)
        → get_key path tc.files ≡ f
        → closed path (elim f as (λ _. TraceCollector) [
          | none ↦ tc
          | some f ↦ record tc { files = put_key path (record f { is_open = false }) tc.files }
        ])
          ≡ true
    by_file none e = rw (e, closed) refl
    by_file (some f) e =
        rw
          (get_key-put_key path path (record f { is_open = false }) tc.files, beq_refl path, closed)
          refl

-- A file that is closed stays closed when another is.
close_file-closed :
    (path target : Text) (tc : TraceCollector)
    → closed path tc ≡ true
    → closed path (close_file target tc) ≡ true
unfolding close_file
close_file-closed path target tc h = by_file (get_key target tc.files)
  where
    by_file :
        (f : Option TraceFile)
        → closed path (elim f as (λ _. TraceCollector) [
          | none ↦ tc
          | some f ↦ record tc { files = put_key target (record f { is_open = false }) tc.files }
        ])
          ≡ true
    by_file none = h
    by_file (some f) =
        rw (get_key-put_key path target (record f { is_open = false }) tc.files, closed)
          (if_elim
            (λ (r : Option TraceFile). (elim r [ none ↦ true | some f ↦ not f.is_open ]) ≡ true)
            (target == path) (λ _. refl) (λ _. h))

write_file-closed :
    (sys : TraceSystem) (path : Text) (event : TraceEvent) (tc : TraceCollector)
    → closed path tc ≡ true
    → write_file sys path event tc ≡ (tc, some (text "file already closed"))
unfolding write_file
write_file-closed sys path event tc h = by_file (get_key path tc.files) h
  where
    by_file :
        (f : Option TraceFile)
        → elim f as (λ _. Bool) [ none ↦ true | some f ↦ not f.is_open ] ≡ true
        → elim f as (λ _. TraceCollector × Option Text) [
          | none ↦ (tc, some (text "file already closed"))
          | some f ↦
              if f.is_open
              then elim (sys.write path event) as (λ _. TraceCollector × Option Text) [
                | some err ↦ (tc, some err)
                | none ↦ (
                  record tc {
                    files =
                        put_key path (record f { written = f.written ++ (event ∷ []) }) tc.files;
                  },
                  none,
                )
              ]
              else (tc, some (text "file already closed"))
        ]
          ≡ (tc, some (text "file already closed"))
    by_file none h = refl
    by_file (some f) h = rw (not-true f.is_open h) refl

write_event-closed :
    (sys : TraceSystem) (info : SpanInfo) (event : TraceEvent) (tc : TraceCollector)
    → closed info.trace_path tc ≡ true
    → ((write_event sys info event tc).0 ≡ tc) × ((write_event sys info event tc).1 ≢ none)
unfolding write_event
write_event-closed sys info event tc h =
    by_marshal (sys.marshal event) (write_file sys info.trace_path event tc)
      (write_file-closed sys info.trace_path event tc h)
  where
    by_marshal :
        (failed : Option Text) (r : TraceCollector × Option Text)
        → r ≡ (tc, some (text "file already closed"))
        → let o = elim failed as (λ _. TraceCollector × Option Text) [
          | some err ↦ (tc, some (text "failed to marshal event: " ++ err))
          | none ↦ (
            r.0,
            elim r.1 [ none ↦ none | some err ↦ some (text "failed to write event: " ++ err) ],
          )
        ] in
          (o.0 ≡ tc) × (o.1 ≢ none)
    by_marshal (some err) r e = (refl, λ x. cc)
    by_marshal none r e = rw e (refl, λ x. cc)

-- In the context of a span, recording and finalizing fail and change nothing.
abbrev pub Refuses : TraceSystem → SpanInfo → TraceCollector → Type 0
Refuses sys info tc =
    ((now : ℕ) (event : TraceEvent)
      → ((record_event sys (some info) now event tc).0 ≡ tc)
        × ((record_event sys (some info) now event tc).1 ≢ none))
    × ((now : ℕ) (path : Text)
        → ((finalize sys (some info) now tc).0 ≡ tc)
          × ((finalize sys (some info) now tc).1 ≢ inl path))

closed-Refuses :
    (sys : TraceSystem) (info : SpanInfo) (tc : TraceCollector)
    → closed info.trace_path tc ≡ true
    → Refuses sys info tc
unfolding record_event finalize
closed-Refuses sys info tc h = (
  λ now event. write_event-closed sys info (stamped info now event) tc h,
  λ now path.
      by_write path (write_event sys info (end_event info now) tc)
        (write_event-closed sys info (end_event info now) tc h),
)
  where
    by_write :
        (path : Text) (r : TraceCollector × Option Text)
        → (r.0 ≡ tc) × (r.1 ≢ none)
        → let o = elim r.1 as (λ _. TraceCollector × (Text ⊎ Text)) [
          | some err ↦ (r.0, inr (text "failed to write span end: " ++ err))
          | none ↦
              let shut = close_file info.trace_path r.0 in
              elim (sys.close info.trace_path) [
                | some err ↦ (shut, inr (text "failed to close trace file: " ++ err))
                | none ↦ (
                  record shut { spans = delete_key info.span_id shut.spans },
                  inl info.trace_path,
                )
              ]
        ] in
          (o.0 ≡ tc) × (o.1 ≢ inl path)
    by_write path (t, none) a = absurd (a.1 refl)
    by_write path (t, some err) a = (a.0, λ x. cc)

finalize-closed :
    (sys : TraceSystem) (info : SpanInfo) (now : ℕ) (tc : TraceCollector) (path : Text)
    → (finalize sys (some info) now tc).1 ≡ inl path
    → closed info.trace_path (finalize sys (some info) now tc).0 ≡ true
unfolding finalize
finalize-closed sys info now tc path =
    by_write (write_event sys info (end_event info now) tc) (sys.close info.trace_path)
  where
    by_write :
        (r : TraceCollector × Option Text) (failed : Option Text)
        → let o = elim r.1 as (λ _. TraceCollector × (Text ⊎ Text)) [
          | some err ↦ (r.0, inr (text "failed to write span end: " ++ err))
          | none ↦
              let shut = close_file info.trace_path r.0 in
              elim failed [
                | some err ↦ (shut, inr (text "failed to close trace file: " ++ err))
                | none ↦ (
                  record shut { spans = delete_key info.span_id shut.spans },
                  inl info.trace_path,
                )
              ]
        ] in
          o.1 ≡ inl path → closed info.trace_path o.0 ≡ true
    by_write (t, some err) failed h = absurd (ground arith)
    by_write (t, none) (some err) h = absurd (ground arith)
    by_write (t, none) none h = closed-close_file info.trace_path t

-- Where a span is finalized without an error, recording in it and finalizing it again fail and
-- change nothing.
pub finalize-Refuses :
    (sys : TraceSystem) (info : SpanInfo) (now : ℕ) (tc : TraceCollector) (path : Text)
    → (finalize sys (some info) now tc).1 ≡ inl path
    → Refuses sys info (finalize sys (some info) now tc).0
finalize-Refuses sys info now tc path h =
    closed-Refuses sys info (finalize sys (some info) now tc).0
      (finalize-closed sys info now tc path h)

closed_or : (a : Bool) → (a || false) ≡ true → a ≡ true
closed_or a h = ground arith

closed_step :
    (a b c d : Bool)
    → (a ≡ true → d ≡ true)
    → (b ≡ true → d ≡ true)
    → (a || (b || c)) ≡ true
    → (d || c) ≡ true
closed_step true b c d f g h = rw (f refl) refl
closed_step false true c d f g h = rw (g refl) refl
closed_step false false c d f g h = ground arith

close_files-closed :
    (path : Text) (spans : List (Text × SpanInfo)) (tc : TraceCollector)
    → (closed path tc || any (λ (s : Text × SpanInfo). s.1.trace_path == path) spans) ≡ true
    → closed path (close_files spans tc) ≡ true
unfolding close_files
close_files-closed path [] tc h = closed_or (closed path tc) h
close_files-closed path (s ∷ spans) tc h =
    close_files-closed path spans (close_file s.1.trace_path tc) (
      closed_step (closed path tc) (s.1.trace_path == path)
        (any (λ (s : Text × SpanInfo). s.1.trace_path == path) spans)
        (closed path (close_file s.1.trace_path tc)) (close_file-closed path s.1.trace_path tc)
        (λ e. rw ((list_beq_iff s.1.trace_path path).0 e) (closed-close_file path tc)) h)

-- After Close no span is active, and recording in a span that was, or finalizing it, fails and
-- changes nothing.
pub close_all-Refuses :
    (sys : TraceSystem) (info : SpanInfo) (tc : TraceCollector)
    → any (λ (s : Text × SpanInfo). s.1.trace_path == info.trace_path) tc.spans ≡ true
    → Refuses sys info (close_all tc) × (get_active_spans (close_all tc) ≡ 0)
unfolding close_all get_active_spans
close_all-Refuses sys info tc h = (
  closed-Refuses sys info (close_all tc)
      (close_files-closed info.trace_path tc.spans tc (rw h (or_true (closed info.trace_path tc)))),
  refl,
)
