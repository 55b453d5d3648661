-- ===== src/Turn.antt =====
-- internal/engine/loop.go: what one turn of AgentEngine.converse does with the tool calls of a reply. `execute_batch`
-- is executeBatch, `turn` the rest of the turn from the check of the calls' ids on. What execute returns for each
-- call is handed to them as `outcome`, by the place of the call: the calls of a group run at once, in any order.
-- The events of read-only failures (noteReadonlyResult, unresolvedReadonlyBoundary) are parameters too.
pub mod Batch
pub mod Answers
pub mod Failures
mod Tests
use go_agent_claw.Prelude.{
  ℕ, zero, suc, ◌+◌, Bool, true, false, not, ◌&&◌, ◌||◌, Option, none, some, List, [], ◌∷◌, ◌++◌,
  String, codes, leb, if◌then◌else◌, str_eq,
}
use go_agent_claw.Effects.{effect_none}
use go_agent_claw.Session.{
  ToolCall, Message, Session, Role, user, assistant, append_messages, has_id,
}
use go_agent_claw.Tools.{
  ToolStatus, status_empty, succeeded, rejected, failed, cancelled, ToolResult,
}
use go_agent_claw.Tools.Scope.{is_read_only}

pub record Outcome (E : Type 0) : Type 0 where
  pub result : ToolResult
  pub error : Option E

-- The zero value of a result, which stands for a call that was not executed. Nothing reads its effect, which
-- is the empty text in the source.
abbrev pub empty_result : ToolResult
empty_result = record {
  tool_call_id = "";
  output = [];
  status = status_empty;
  effect = effect_none;
  error_kind = "";
  error_code = "";
  retryable = none;
  exit_code = none;
  is_error = false;
  read = none;
  read_content = [];
  discovery = none;
}

abbrev pub is_unset : ToolStatus → Bool
is_unset status_empty = true
is_unset _ = false

-- How many calls, of at most `room`, go on reading.
unfoldable pub read_run : ℕ → List ToolCall → ℕ
read_run zero calls = zero
read_run (suc room) [] = zero
read_run (suc room) (c ∷ calls) =
    let more = read_run room calls in if is_read_only c.name then suc more else zero

abbrev pub is_named : String → List ToolCall → Bool
is_named name [] = false
is_named name (c ∷ calls) = str_eq c.name name

-- The calls that run together with `c`, less `c` itself, where `calls` follow.
unfoldable pub companions : ToolCall → List ToolCall → ℕ
unfolding read_run
companions c calls =
    if is_read_only c.name
    then read_run 3 calls
    else if str_eq c.name "spawn_subagent" && is_named c.name calls
    then 1
    else 0

abbrev pub first_of : {E : Type 0} → Option E → Option E → Option E
first_of none later = later
first_of (some e) later = some e

-- The loop over the groups, call by call: `i` is the place of the next call, `left` the calls that its group
-- still has, `failure` the first error of that group. A group is run to its end, and after an error no other
-- one is.
unfoldable pub run_groups :
    {E : Type 0} → (ℕ → Outcome E) → ℕ → ℕ → Option E → List ToolCall → List ToolResult × Option E
unfolding companions
run_groups outcome i left failure [] = ([], failure)
run_groups outcome i zero (some e) (c ∷ calls) =
    let (results, error) = run_groups outcome (i + 1) zero (some e) calls in
    (empty_result ∷ results, error)
run_groups outcome i zero none (c ∷ calls) =
    let (results, error) =
      run_groups outcome (i + 1) (companions c calls) (outcome i).error calls in
    ((outcome i).result ∷ results, error)
run_groups outcome i (suc left) failure (c ∷ calls) =
    let (results, error) =
      run_groups outcome (i + 1) left (first_of failure (outcome i).error) calls in
    ((outcome i).result ∷ results, error)

abbrev pub unexecuted : String → ToolResult
unexecuted id = record empty_result {
  tool_call_id = id;
  status = rejected;
  is_error = true;
  output = codes "任务已停止，本次调用未执行";
}

abbrev pub fill : ToolCall → ToolResult → ToolResult
fill c r = if is_unset r.status then unexecuted c.id else r

unfoldable pub fill_all : List ToolCall → List ToolResult → List ToolResult
fill_all [] results = []
fill_all (c ∷ calls) [] = []
fill_all (c ∷ calls) (r ∷ results) = fill c r ∷ fill_all calls results

unfoldable pub execute_batch :
    {E : Type 0} → (ℕ → Outcome E) → List ToolCall → List ToolResult × Option E
unfolding run_groups fill_all
execute_batch outcome calls =
    let (results, error) = run_groups outcome 0 zero none calls in (fill_all calls results, error)

-- No id is empty or stands twice.
unfoldable pub has_good_ids : List String → List ToolCall → Bool
unfolding has_id
has_good_ids seen [] = true
has_good_ids seen (c ∷ calls) =
    let later = has_good_ids (c.id ∷ seen) calls in
    if str_eq c.id "" || has_id c.id seen then false else later

-- The failures of each request in a row, by its actionKey.
abbrev pub Failures : Type 0
Failures = List (String × ℕ)

unfoldable pub failures_of : String → Failures → ℕ
failures_of k [] = 0
failures_of k ((j, n) ∷ m) = if str_eq j k then n else failures_of k m

unfoldable pub forget : String → Failures → Failures
forget k [] = []
forget k ((j, n) ∷ m) = let later = forget k m in if str_eq j k then later else (j, n) ∷ later

abbrev pub count : String → Failures → Failures
count k m = (k, failures_of k m + 1) ∷ forget k m

-- One round of the loop over the results: the failures, and the key of the request that stops the turn, if one
-- has. `tracked` says that the failure is counted as that of a read-only boundary.
unfoldable pub note_failure :
    Bool → String → Bool → Failures × Option String → Failures × Option String
unfolding failures_of forget
note_failure tracked key is_error (m, stopped) = if not is_error then (forget key m, stopped) else (
  count key m,
  if leb 3 (failures_of key (count key m)) && not tracked
      then first_of stopped (some key)
      else stopped,
)

unfoldable pub note_failures :
    (ToolCall → String)
    → (ToolCall → ToolResult → Bool)
    → List ToolCall
    → List ToolResult
    → Failures × Option String
    → Failures × Option String
unfolding note_failure
note_failures action_key tracked [] results s = s
note_failures action_key tracked (c ∷ calls) [] s = s
note_failures action_key tracked (c ∷ calls) (r ∷ results) s =
    note_failures action_key tracked calls results
      (note_failure (tracked c r) (action_key c) r.is_error s)

-- `content` is the text of observation, with what the recovery adds to it for an error.
unfoldable pub observations :
    (ToolCall → ToolResult → String) → List ToolCall → List ToolResult → List Message
observations content [] results = []
observations content (c ∷ calls) [] = []
observations content (c ∷ calls) (r ∷ results) =
    record {
      role = user;
      content = content c r;
      tool_calls = [];
      response_items = [];
      tool_call_id = c.id;
    }
    ∷ observations content calls results

pub data TurnError (E : Type 0) : Type 0 where
  bad_call_id : TurnError E
  batch_failed : E → TurnError E
  repeated_failure : String → TurnError E

-- What the surroundings of one turn do: the tools, the text of the observations, the tracking of read-only
-- failures, the error of that tracking, and the stop that it asks for.
pub record Surroundings (E : Type 0) : Type 0 where
  pub outcome : ℕ → Outcome E
  pub content : ToolCall → ToolResult → String
  pub action_key : ToolCall → String
  pub tracked : ToolCall → ToolResult → Bool
  pub boundary_error : Option E
  pub readonly_stop : Option E

pub record Reply : Type 0 where
  pub text : String
  pub tool_calls : List ToolCall
  pub response_items : List (List ℕ)

pub record Turned (E : Type 0) : Type 0 where
  pub session : Session
  pub failures : Failures
  pub error : Option (TurnError E)

abbrev pub batch_error : {E : Type 0} → Option E → Option (TurnError E)
batch_error none = none
batch_error (some e) = some (batch_failed e)

abbrev pub stop_error : {E : Type 0} → Option String → Option (TurnError E)
stop_error none = none
stop_error (some key) = some (repeated_failure key)

abbrev pub call_message : Reply → Message
call_message reply = record {
  role = assistant;
  content = reply.text;
  tool_calls = reply.tool_calls;
  response_items = reply.response_items;
  tool_call_id = "";
}

unfoldable pub turn : {E : Type 0} → Surroundings E → Reply → Session → Failures → Turned E
unfolding execute_batch observations note_failures has_good_ids
turn around reply session failures =
    let (results, error) = execute_batch around.outcome reply.tool_calls in
    let (counted, stopped) =
      note_failures around.action_key around.tracked reply.tool_calls results (failures, none) in
    let asked = append_messages (call_message reply ∷ []) session in
    if has_good_ids [] reply.tool_calls
    then record {
      session = append_messages (observations around.content reply.tool_calls results) asked;
      failures = counted;
      error = first_of (batch_error error) (
          first_of (batch_error around.boundary_error)
            (first_of (stop_error stopped) (batch_error around.readonly_stop)));
    }
    else record { session = session; failures = failures; error = some bad_call_id }
