-- ===== src/Lib.antt =====
-- Verification of eval-prompt, a manager of prompts with versions, evaluations and promotion.
--
-- The program keeps assets (prompts) in a life cycle CREATED, EVALUATING, EVALUATED, PROMOTED,
-- ARCHIVED. An evaluation runs the eval cases of an asset against a model: each answer is checked by
-- deterministic checks on a trace and graded by rubric through a model, and the results move the
-- execution and the asset on. The parts of the program and the files that model them:
--
--   StateMachine  the generic state machine of internal/domain/state_machine.go: the struct is a
--                 record, a method returns the new machine and its error, actions pass a state of
--                 the caller's on. Invariant, Firing and Search hold its theorems; Search/Defs has
--                 CanReach, a breadth-first search, and Aggregate the machine with a callback.
--   Domain        internal/domain. Errors is errors.go, Types and Paging are types.go, Events the
--                 event types of events.go, Asset is asset.go (History: runs of requests; Machine:
--                 NewAssetStateMachine and EvalGuard of state_machine.go), EvalCase is eval_case.go
--                 (Score: CalculateScore), EvalRun eval_run.go and Execution eval_execution.go.
--                 Versions is snapshot.go, label.go, model_adaptation.go and audit_log.go, and
--                 Records the events of events.go. FrontMatter is frontmatter.go, AssetFile
--                 asset_yaml.go.
--   Eval          plugins/eval. Trace is trace_collector.go, Assertions is assertions.go;
--                 Deterministic and Rubric are RunDeterministic and RunRubric of runner.go.
--   Executor      internal/service/eval_executor.go. Executor itself holds RunContext and
--                 collectResults, Process what a worker does with one item (Item: processItem;
--                 Plugin: with the runner of plugins/eval), Pool the goroutines of Execute as
--                 interleaved steps.
--   EvalService   internal/service/eval_service.go: cases, runs, tally, scores and status;
--                 EvalService/Run puts them together as RunEval.
--   Outbox        internal/storage/outbox_poller.go: processOutbox as a transaction; statuses of
--                 internal/storage/outbox_repository.go.
--   Lock          internal/lock/repo_lock.go: the list of repositories.
--   Promotion     internal/authz/eval_gate_guard.go: the gate before a promotion to production.
--   Paths         internal/authz/sandbox_guard.go and internal/pathutil/pathutil.go.
--   FrontMatter   internal/yamlutil/frontmatter.go: NormalizeBody, and Markdown for the files.
--   Indexer       plugins/search: the index and its operations of search.go (Matching: Search;
--                 Persist: the index file), and Reconcile of reconcile.go.
--   Trigger       internal/service/trigger_service.go over an index as an interface; Indexed fills
--                 it with the index of Indexer.
--   Variants      internal/service/eval: the strategies of injection.go, and generateWorkItems of
--                 orchestrator.go.
--   Judge         internal/service/eval/judge.go: Score, ScoreText, Compare and parseFloat.
--   Registry      internal/service/eval/registry.go.
--   Prelude       shared helpers: texts as lists of bytes, integers, lists, tests, JSON values.
--
-- Conventions. A Go string is a list of its bytes. An `int` that can be negative is an integer, a
-- counter is a natural number. The score of a rubric and its threshold (CalculateScore,
-- RunRubric, processItem) are computed with the 64-bit wrap-around (add64, mul64 and quo64 of
-- Prelude/Int); the sums of RunEval, counts and durations are unbounded.
-- A float64 that is a quotient of two ints is a fraction, other float64 arithmetic is a parameter.
-- A time is a number of ticks and is passed in, as are generated ULIDs. A panic is `none`. An error
-- is the Go error's constructor or text. A Go map is a list of pairs in the order of its range loop,
-- and where the order matters it is an argument. sort.Slice is a parameter where its test leaves
-- elements equal. A Go string type with constants, such as State, is a data type with a constructor
-- for each constant and one for every other string.
--
-- Loops are structural recursion, but for CanReach, which runs on fuel: one round more than there
-- are registered transitions, since each round takes a state from the queue and each transition
-- puts a state there at most once (StateMachine/Search/Work).
--
-- Code of other packages is a parameter: ulid.Parse, path/filepath, encoding/json, fmt, the
-- repositories and stores, the model, the file system and git.
--
-- Not modelled: storage and its generated code, the HTTP gateway, command line, configuration,
-- model adapters, git bridge and model providers, which do I/O or wrap other packages.
mod Prelude
pub mod StateMachine
pub mod Domain
pub mod Eval
pub mod Executor
pub mod EvalService
pub mod Lock
pub mod Paths
pub mod FrontMatter
pub mod Indexer
pub mod Judge
pub mod Promotion
pub mod Registry
pub mod Trigger
pub mod Variants
pub mod Outbox
