-- ===== src/Eval/Assertions.antt =====
-- The assertion library, plugins/eval/assertions.go.
pub mod JsonPath
pub mod Matching
use eval_prompt.Prelude.{
  ℕ, Bool, true, false, not, ◌&&◌, Option, none, some, List, [], ◌∷◌, ◌++◌, if◌then◌else◌, any,
  ◌==◌, contains, nat_eq, list_eq, Text, text, is_empty,
}
use eval_prompt.Prelude.Int.{ℤ, pos, negsuc}
use eval_prompt.Prelude.Strings.{
  has_prefix, trim_prefix, has_suffix, trim_suffix, contains_text, split_on,
}
use eval_prompt.Prelude.Values.{Json, Items, Fields, get_field, as_text, get_item, arr, obj}

-- service.TraceEvent; a time is a number of ticks, 0 for the zero time.
pub record TraceEvent : Type 0 where
  pub span_id : Text
  pub parent_id : Text
  pub name : Text
  pub timestamp : ℕ
  pub event_type : Text
  pub payload : Fields

-- service.DeterministicCheck.
pub record DeterministicCheck : Type 0 where
  pub id : Text
  pub check_type : Text
  pub path : Text
  pub expected : Text
  pub json_path : Text

-- What the checks ask of the system and of packages that are not part of the program.
pub record Platform : Type 0 where
  -- os.Stat gives no error.
  pub file_exists : Text → Bool
  -- json.Unmarshal into a map, and into an `any`.
  pub is_json_object : Text → Bool
  pub parse_json : Text → Option Json
  -- fmt.Sprintf("%v", value).
  pub print_value : Json → Text
  -- fmt.Sscanf(s, "%d", &n) for an n that is 0 before.
  pub scan_int : Text → ℤ

-- The events of one of the types that carry a text under the key, with a text that passes.
abbrev pub some_event : List Text → Text → (Text → Bool) → List TraceEvent → Bool
some_event types key test trace =
    any
      (λ (e : TraceEvent).
        contains types e.event_type
        && elim (as_text (get_field key e.payload)) [ none ↦ false | some s ↦ test s ])
      trace

unfoldable pub check_command_executed : List TraceEvent → DeterministicCheck → Option Text
check_command_executed trace check =
    if some_event (text "command_executed" ∷ []) (text "command")
      (λ cmd. contains_text cmd check.expected) trace
    then none
    else some (text "command not found: " ++ check.expected)

-- matchesPath: `*` alone, a prefix before a last `*`, or the path itself.
unfoldable pub matches_path : Text → Text → Bool
matches_path path pattern' =
    if pattern' == text "*"
    then true
    else if has_suffix pattern' (text "*")
    then has_prefix path (trim_suffix pattern' (text "*"))
    else path == pattern'

unfoldable pub check_file_exists : Platform → List TraceEvent → DeterministicCheck → Option Text
check_file_exists os trace check =
    if some_event (text "file_created" ∷ text "file_exists" ∷ []) (text "path")
      (λ path. matches_path path check.path) trace
    then none
    else if not (is_empty check.path) && os.file_exists check.path
    then none
    else some (text "file not found: " ++ check.path)

unfoldable pub check_json_valid : Platform → List TraceEvent → DeterministicCheck → Option Text
check_json_valid os trace check =
    if some_event (text "llm_output" ∷ text "output" ∷ []) (text "content") os.is_json_object trace
    then none
    else some (text "no valid JSON found in trace")

unfoldable pub check_content_contains : List TraceEvent → DeterministicCheck → Option Text
check_content_contains trace check =
    if some_event (text "llm_output" ∷ text "output" ∷ text "content" ∷ []) (text "content")
      (λ content. contains_text content check.expected) trace
    then none
    else some (text "content not found: " ++ check.expected)

-- What getJSONPath ends with; a negative index into a slice panics.
pub data PathResult : Type 0 where
  found : Json → PathResult
  out_of_bounds path_not_found : Text → PathResult
  panic : PathResult

-- `arr[idx]` behind the test `idx < len(arr)`.
unfoldable pub index_step : Text → ℤ → Items → PathResult
index_step part (pos i) vs = elim (get_item vs i) [ none ↦ out_of_bounds part | some v ↦ found v ]
index_step part (negsuc i) vs = panic

-- One round of the loop over the parts of a path.
unfoldable pub path_step : Platform → Text → Json → PathResult
path_step os raw current =
    let part = trim_prefix raw (text "[") in
    if has_prefix part (text "[") && has_suffix part (text "]")
    then elim current [
      | arr vs ↦
          index_step part (os.scan_int (trim_suffix (trim_prefix part (text "[")) (text "]"))) vs
      | _ ↦ out_of_bounds part
    ]
    else elim current [ obj fs ↦ found (get_field part fs) | _ ↦ path_not_found part ]

unfoldable pub walk_path : Platform → List Text → Json → PathResult
walk_path os [] current = found current
walk_path os (part ∷ parts) current = elim (path_step os part current) [
  | found v ↦ walk_path os parts v
  | out_of_bounds p ↦ out_of_bounds p
  | path_not_found p ↦ path_not_found p
  | panic ↦ panic
]

unfoldable pub get_json_path : Platform → Json → Text → PathResult
get_json_path os value path = walk_path os (split_on b'.' path) value

-- How a check ends: with no error, with one, or in a panic.
pub data CheckResult : Type 0 where
  pass : CheckResult
  fail : Text → CheckResult
  panics : CheckResult

abbrev pub of_error : Option Text → CheckResult
of_error none = pass
of_error (some e) = fail e

-- The value at the path of one output, printed, against what is expected.
unfoldable pub json_path_content : Platform → DeterministicCheck → Text → Option Bool
json_path_content os check content = elim (os.parse_json content) [
  | none ↦ some false
  | some v ↦ elim (get_json_path os v check.json_path) [
    | found value ↦ some (os.print_value value == check.expected)
    | panic ↦ none
    | _ ↦ some false
  ]
]

unfoldable pub check_json_path : Platform → List TraceEvent → DeterministicCheck → CheckResult
check_json_path os [] check = fail (
    text "json path "
    ++ (check.json_path ++ (text " with expected " ++ (check.expected ++ text " not found"))))
check_json_path os (e ∷ trace) check =
    let rest = check_json_path os trace check in
    if contains (text "llm_output" ∷ text "output" ∷ []) e.event_type
    then elim (as_text (get_field (text "content") e.payload)) [
      | none ↦ rest
      | some content ↦ elim (json_path_content os check content) [
        | none ↦ panics
        | some true ↦ pass
        | some false ↦ rest
      ]
    ]
    else rest

-- `lib.Get(check.Type)` and `checker.Check(trace, check)`; `none` where the type is unknown.
unfoldable pub run_check : Platform → List TraceEvent → DeterministicCheck → Option CheckResult
run_check os trace check =
    let t = check.check_type in
    if t == text "command_executed"
    then some (of_error (check_command_executed trace check))
    else if t == text "file_exists"
    then some (of_error (check_file_exists os trace check))
    else if t == text "json_valid"
    then some (of_error (check_json_valid os trace check))
    else if t == text "content_contains"
    then some (of_error (check_content_contains trace check))
    else if t == text "json_path"
    then some (check_json_path os trace check)
    else none
