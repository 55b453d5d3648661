-- ===== src/Lib.antt =====
-- go-agent-claw: an agent that works on a directory of files with a language model, resumes after a
-- crash, and hands parts of its work to subagents. This library models the core of its Go code.
--
-- The parts and how they interact:
--
-- - Taskstore (internal/taskstore/store.go): the event log of one task. `append_event` is Task.Append,
--   `events` Task.Events, `read_events` readEvents, `open_task` and `create_task` the initialisation in
--   Store.openTask. The state is a `World`: the task in memory and the bytes of its log. Each call takes
--   the `Faults` of its system calls: any of them may fail, and a write may stop at any byte. JSON is
--   the parameter `Codec`; what is relied on is that a marshalled event contains no newline and
--   unmarshals to itself. Taskstore/Scan and Numbering are about the scan, Recovery about one Append,
--   Reopen about the calls after a failure, History about many calls in which the task is opened again
--   after each failure.
-- - Plan (internal/engine/plan.go): `check_plan` is checkPlan, `ready_step` readyStep, `propose_plan`
--   proposePlan from the decoded reply on. Plan/Index and Search are about the two loops of checkPlan, Fuel about
--   its termination, Ready about readyStep, Reset about replaced steps, Patch about what a new plan keeps, and Loop models the plan loop of
--   runTask (internal/engine/loop.go), which runs the steps and patches a blocked plan once.
-- - Budget (internal/engine/run_state.go, delegation.go and types.go): `reserve` is runState.reserve,
--   `record_event` runState.record, `admit_locked` the transaction of admitSubtask, `finish_subtask`
--   finishSubtask. Every turn, model call and tool call of the loop and of its subagents passes
--   `reserve` first; record_event hands each new state to the event log of Taskstore, whose failure is
--   the field `persist_fails` of a `Moment`. Each call holds the lock of the run, so a run with
--   subagents is a sequence of calls (`run`). Invariant, Trace and Admission are about the limits, Admitted
--   about how many subtasks are admitted, Separate and Apart about the paths of the subtasks, Prefix about
--   strings.HasPrefix, Denials about refused calls.
-- - Session (internal/context/session.go, internal/context/compactor.go, internal/schema/message.go):
--   the history of a conversation, the window of it that a request carries (`working_memory` is
--   GetWorkingMemory), and the grouping of tool calls with their results (`message_groups` is
--   messageGroups), and its compaction to a size (`compact_within` is CompactWithin). Shape says without
--   loops which histories are grouped, Groups and Paired are about the grouping, Window and Tail about the window;
--   Compactor models the compaction, Content is about folded texts and the notice, Compacted and Chosen about what
--   it sends.
-- - Coverage (internal/engine/reading_coverage.go, internal/engine/read_catalog.go,
--   internal/schema/reading.go): which bytes of each file the reads of a run covered. `file_coverage`
--   is the body of the loop of coverageFromManifest over the files, `status_of` its status,
--   `merged_coverage` the merging of mergeReadCoverage. Sorting is about the order of the ranges, Sweep
--   about the gaps, Files about the status, Merge about merged ranges.
-- - Catalog (internal/engine/read_catalog.go): the reads that may be reused and the versions of files
--   whose reads no longer hold. `remember_read`, `invalidate_reads`, `remove_read_version`,
--   `add_invalidation` and `remember_subreport` are the functions rememberReadLocked,
--   invalidateReadsLocked, removeReadVersionLocked, addReadInvalidationLocked and rememberSubreport; the
--   receipts are those that Coverage reads. Removal and Invariant are about the reads that no longer hold, Dropped
--   about what is removed.
-- - Effects (internal/engine/delivery.go, persistence.go and types.go): the receipts of the effects of
--   actions. `set_effect` is setEffect, `delivery_from_state` deliveryFromState, `effect_receipt`
--   effectReceipt. The ledger is a part of the state that runState.record saves. Ledger is about one
--   new receipt, Report about the delivery. Reconcile models AgentEngine.reconcile, which settles the
--   pending actions after a crash by the versions of their files; each settled action is saved by
--   runState.record, and the version of a file is a parameter; Settlement is about what is left.
-- - Artifacts (internal/taskstore/store.go): the materials and the checkpoint of a task, as files of a directory
--   whose system calls may fail. `read_artifact_page` is ReadArtifactPage with readArtifactPage, `write_atomic`
--   writeAtomic, `save_artifact`, `save_snapshot` and `load_snapshot` are the functions of these names. Paging is
--   about one page, Whole about reading page after page, Atomic about one write, Saved about what is read after a
--   write. Utf8 says which bytes unicode/utf8 decodes together as one character.
-- - Tools (internal/tools/registry.go, internal/tools/scope.go, internal/schema/message.go): the execution of one
--   tool call. `Tools.Registry.execute` is registryImpl.Execute, `allows_tool` ExecutionScope.allowsTool. The
--   tools, the middlewares (approval is one), the hook that records a write before it starts, and the context are
--   parameters over a world of their own. Scope models the modes; Steps and Admitted are about when a handler
--   starts, Refusal and Outcome about what a result claims.
-- - Approval (internal/feishu/approval.go): the middleware that asks a chat's approvers before a write or a command.
--   `guard`, `wait` and `resolve` are the methods of these names of approvalManager. The calls that hold its lock
--   while one call waits are a list of events. Decided is about the requests, Approved about what passes the guard.
-- - Edit (internal/tools/edit_file.go): the tool edit_file's replacement of a text. `fuzzy_replace` is fuzzyReplace,
--   `replace_unique` replaceUnique, `line_by_line_replace` lineByLineReplace. Unique is about the place of a text,
--   Lines about a block of lines, Levels about the four levels together.
-- - Action (internal/engine/execution.go): one action of the agent. `Execute.execute_action` is AgentEngine.execute, which
--   reserves the call in Budget, hands it to Tools with the hook `start_hook` that saves a write as pending before
--   its handler starts, and records the receipt in the ledger of Effects, from which reconcile goes on after a
--   crash. Started is about what is saved when a handler starts, Recalled about results that are returned again,
--   Known about when an effect is known, Settled about what is saved when the action returns.
-- - Turn (internal/engine/loop.go): the tool calls of one reply. `execute_batch` is executeBatch, `turn` the part of
--   converse that checks the calls, runs them, appends the observations to the session of Session and counts the
--   failures. Batch is about the groups of calls that run at once, Answers about the history, Failures about
--   repeated failures.
-- - Prelude: Boolean tests, lists over the native numbers, and results.
--
-- Numbers. Go's int and int64 counters are natural numbers: those modelled never become negative.
-- Task.Append's uint64 sequence number wraps at 2 ^ 64 as written.
--
-- Fuel. The loops that do not descend on a list take fuel: `read_events` one more than the bytes of the
-- file, since each round reads at least one; `check_plan` one more than the steps, since each nested
-- call marks a step; `message_groups` one more than the messages; `run_plan` 42 rounds, since each
-- round finishes one of at most 20 steps or uses the one patch. Running out is an error of its own,
-- which the results below exclude. `take_runes` has as many rounds as bytes, since each round takes one.
--
-- Not modelled: the requests of the conversation loop, what the single tools but edit_file do, the scope of a reading coverage, the analysis reports; the services, the
-- command line and the monitor, which are input and output. Prompts and messages are text that no
-- modelled code reads.
pub mod Prelude
pub mod Taskstore
pub mod Plan
pub mod Budget
pub mod Session
pub mod Action
pub mod Approval
pub mod Artifacts
pub mod Catalog
pub mod Coverage
pub mod Edit
pub mod Effects
pub mod Tools
pub mod Turn
pub mod Utf8
