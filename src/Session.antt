-- ===== src/Session.antt =====
-- internal/context/session.go and the grouping of internal/context/compactor.go: the history of a
-- session, the window of it that a request carries, and the batches of tool calls with their results.
-- The fields of a message that neither file reads (tool status, read identities, usage) and the
-- session's float cost are left out.
pub mod Shape
pub mod Groups
pub mod Window
pub mod Tail
pub mod Paired
pub mod Content
pub mod Chosen
pub mod Compactor
pub mod Compacted
mod Tests
use go_agent_claw.Prelude.{
  ℕ, zero, suc, ◌+◌, ◌-◌, Bool, true, false, not, ◌&&◌, ◌||◌, Option, none, some, List, [], ◌∷◌,
  ◌++◌, String, leb, ltb, ◌==◌, if◌then◌else◌, length, drop, get_elem?, str_eq, Result, ok, err,
  ◌>>=◌,
}

pub data Role : Type 0 where
  system user assistant : Role

pub record ToolCall : Type 0 where
  pub id : String
  pub name : String
  pub arguments : List ℕ

pub record Message : Type 0 where
  pub role : Role
  pub content : String
  pub tool_calls : List ToolCall
  pub response_items : List (List ℕ)
  pub tool_call_id : String

pub record Session : Type 0 where
  pub id : String
  pub work_dir : String
  pub prompt_tokens : ℕ
  pub completion_tokens : ℕ
  pub unknown_usage_calls : ℕ
  pub history : List Message

-- The token part of RecordUsageReport; `none` is a call whose usage is not known.
unfoldable pub record_usage : Option (ℕ × ℕ) → Session → Session
record_usage none s = record s { unknown_usage_calls = s.unknown_usage_calls + 1 }
record_usage (some (prompt, completion)) s = record s {
  prompt_tokens = s.prompt_tokens + prompt;
  completion_tokens = s.completion_tokens + completion;
}

unfoldable pub append_messages : List Message → Session → Session
append_messages msgs s = record s { history = s.history ++ msgs }

unfoldable pub reset_history : Session → Session
reset_history s = record s { history = [] }

abbrev pub is_user : Role → Bool
is_user user = true
is_user _ = false

abbrev pub is_assistant : Role → Bool
is_assistant assistant = true
is_assistant _ = false

unfoldable pub is_plain_user : Message → Bool
is_plain_user m = is_user m.role && str_eq m.tool_call_id ""

unfoldable pub is_tool_result : Message → Bool
is_tool_result m = is_user m.role && not (str_eq m.tool_call_id "")

unfoldable pub is_plain_at : List Message → ℕ → Bool
is_plain_at h i = elim (get_elem? h i) [ none ↦ false | some m ↦ is_plain_user m ]

abbrev pub max_backtrack : ℕ
max_backtrack = 3

-- The loop that steps back from `i` to a plain user message, or to the start.
unfoldable pub backtrack : List Message → ℕ → ℕ
unfolding is_plain_at
backtrack h zero = zero
backtrack h (suc i) =
    let earlier = backtrack h i in if is_plain_at h (suc i) then suc i else earlier

-- The tool results at the head are dropped.
unfoldable pub skip_orphans : List Message → List Message
skip_orphans [] = []
skip_orphans (m ∷ ms) = let later = skip_orphans ms in if is_tool_result m then later else m ∷ ms

abbrev pub notice : Message
notice = record {
  role = user;
  content = "[系统提示] 更早的对话历史（含最初的任务指令）已被截断。以下是最近的工作记录，请据此继续执行当前任务，不要重复已完成的步骤。";
  tool_calls = [];
  response_items = [];
  tool_call_id = "";
}

unfoldable pub with_notice : List Message → List Message
with_notice [] = notice ∷ []
with_notice (m ∷ ms) = if is_plain_user m then m ∷ ms else notice ∷ m ∷ ms

-- The window that starts at `start` before it is moved to a boundary.
unfoldable pub window : List Message → ℕ → List Message
unfolding backtrack skip_orphans with_notice
window h start =
    if leb (start - backtrack h start) max_backtrack
    then drop (backtrack h start) h
    else with_notice (skip_orphans (drop start h))

-- GetWorkingMemory; a limit of 0 stands for any that is not positive.
unfoldable pub working_memory : Session → ℕ → List Message
unfolding window
working_memory s limit =
    if leb (length s.history) limit || limit == 0
    then s.history
    else window s.history (length s.history - limit)

pub data GroupError : Type 0 where
  orphan_result bad_call_id missing_result out_of_fuel : GroupError

unfoldable pub has_id : String → List String → Bool
has_id k [] = false
has_id k (j ∷ ids) = str_eq j k || has_id k ids

unfoldable pub delete_id : String → List String → List String
delete_id k [] = []
delete_id k (j ∷ ids) = if str_eq j k then ids else j ∷ delete_id k ids

-- The ids of a message's calls, each of which must be new and not empty.
unfoldable pub open_calls : List ToolCall → List String → Result GroupError (List String)
unfolding has_id
open_calls [] pending = ok pending
open_calls (c ∷ cs) pending =
    let rest = open_calls cs (c.id ∷ pending) in
    if str_eq c.id "" || has_id c.id pending then err bad_call_id else rest

-- The results that follow a batch of calls: their number and what comes behind them.
unfoldable pub take_results : List String → ℕ → List Message → Result GroupError (ℕ × List Message)
unfolding has_id delete_id
take_results [] n msgs = ok (n, msgs)
take_results (p ∷ ps) n [] = err missing_result
take_results (p ∷ ps) n (m ∷ ms) =
    let rest = take_results (delete_id m.tool_call_id (p ∷ ps)) (n + 1) ms in
    if is_user m.role && has_id m.tool_call_id (p ∷ ps) then rest else err missing_result

abbrev pub calls_of : Message → List ToolCall
calls_of m = if is_assistant m.role then m.tool_calls else []

pub record Group : Type 0 where
  pub start : ℕ
  pub end : ℕ

-- Each round takes at least one message, so more fuel than messages suffices.
unfoldable pub group_from : ℕ → ℕ → List Message → Result GroupError (List Group)
unfolding open_calls take_results
group_from zero i msgs = err out_of_fuel
group_from (suc fuel) i [] = ok []
group_from (suc fuel) i (m ∷ ms) =
    let rest : Result GroupError (List Group) = open_calls (calls_of m) [] >>= λ pending.
    take_results pending (i + 1) ms >>= λ found. group_from fuel found.0 found.1 >>= λ groups.
    ok (record { start = i; end = found.0 } ∷ groups) in
    if str_eq m.tool_call_id "" then rest else err orphan_result

unfoldable pub message_groups : List Message → Result GroupError (List Group)
unfolding group_from
message_groups msgs = group_from (length msgs + 1) 0 msgs
