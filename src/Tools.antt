-- ===== src/Tools.antt =====
-- internal/tools/registry.go, internal/tools/scope.go and internal/schema/message.go: the admission and the
-- execution of one tool call. `execute` is registryImpl.Execute. The world `W` is what the tools, the middlewares
-- and the hook read and change, and `look` reads the context's error, which others may set at any time. The
-- observations and spans are left out but for the last stage, and whether the handler started. Texts are lists
-- of code points.
pub mod Scope
pub mod Registry
pub mod Steps
pub mod Admitted
pub mod Refusal
pub mod Outcome
mod Tests
use go_agent_claw.Prelude.{
  ℕ, Bool, true, false, not, Option, none, some, List, [], ◌∷◌, ◌++◌, String, codes, is_blank,
  if◌then◌else◌, str_eq,
}
use go_agent_claw.Effects.{EffectStatus, effect_none, effect_confirmed, effect_unknown}
use go_agent_claw.Coverage.{ReadReceipt}
use go_agent_claw.Session.{ToolCall}
use go_agent_claw.Tools.Scope.{is_read_only}

pub data ToolStatus : Type 0 where
  status_empty succeeded rejected failed cancelled : ToolStatus

pub data ℤ : Type 0 where
  pos negsuc : ℕ → ℤ

pub record DiscoveredFile : Type 0 where
  pub path : String
  pub bytes : ℕ

pub record DiscoveryReceipt : Type 0 where
  pub manifest_id : String
  pub path : String
  pub name_glob : String
  pub files : List DiscoveredFile
  pub truncated : Bool
  pub unreadable : ℕ

pub record ToolResult : Type 0 where
  pub tool_call_id : String
  pub output : List ℕ
  pub status : ToolStatus
  pub effect : EffectStatus
  pub error_kind : String
  pub error_code : String
  pub retryable : Option Bool
  pub exit_code : Option ℤ
  pub is_error : Bool
  pub read : Option ReadReceipt
  pub read_content : List ℕ
  pub discovery : Option DiscoveryReceipt

abbrev pub is_success : ToolStatus → Bool
is_success succeeded = true
is_success _ = false

unfoldable pub new_tool_result :
    String → List ℕ → ToolStatus → EffectStatus → String → Option ℤ → ToolResult
new_tool_result id output status effect kind exit_code = record {
  tool_call_id = id;
  output = output;
  status = status;
  effect = effect;
  error_kind = kind;
  error_code = "";
  retryable = none;
  exit_code = exit_code;
  is_error = not (is_success status);
  read = none;
  read_content = [];
  discovery = none;
}

pub record ExecutionError : Type 0 where
  pub status : ToolStatus
  pub effect : EffectStatus
  pub kind : String
  pub code : String
  pub retryable : Option Bool
  pub exit_code : Option ℤ

-- An error of a tool: the executionError that errors.As finds in it, and whether it is a deadline's or a
-- network timeout's.
pub record ToolError : Type 0 where
  pub text : List ℕ
  pub detail : Option ExecutionError
  pub timed_out : Bool

pub data ContextError : Type 0 where
  canceled deadline_exceeded : ContextError

unfoldable pub cancelled_before_execution : String → ContextError → ToolResult
unfolding new_tool_result
cancelled_before_execution id canceled =
    new_tool_result id (codes "工具执行已取消") cancelled effect_none "取消" none
cancelled_before_execution id deadline_exceeded =
    new_tool_result id (codes "工具在超时前未能开始") cancelled effect_none "超时" none

abbrev pub error_kind_of : ContextError → String
error_kind_of canceled = "取消"
error_kind_of deadline_exceeded = "超时"

abbrev pub error_message : String → ToolError → List ℕ → List ℕ
error_message name e output =
    let message = codes name ++ (codes ": " ++ e.text) in
    if is_blank output then message else message ++ (codes "\n" ++ output)

abbrev pub default_effect : String → EffectStatus
default_effect name =
    if is_read_only name
    then effect_none
    else if str_eq name "spawn_subagent"
    then effect_none
    else effect_unknown

abbrev pub or_else : {A : Type 0} → Option A → Option A → Option A
or_else none b = b
or_else (some a) b = some a

-- toolErrorResult with the context's error as it is then.
unfoldable pub tool_error_result :
    Option ContextError → ToolCall → List ℕ → Option ℤ → ToolError → ToolResult
unfolding new_tool_result
tool_error_result context call output exit_code e =
    let message = error_message call.name e output in
    let result = new_tool_result call.id message in
    elim e.detail [
      | some d ↦ record (result d.status d.effect d.kind (or_else d.exit_code exit_code)) {
        error_code = d.code;
        retryable = d.retryable;
      }
      | none ↦ elim context [
        | some x ↦ result cancelled (default_effect call.name) (error_kind_of x) exit_code
        | none ↦
            result failed (default_effect call.name) (if e.timed_out then "超时" else "执行失败")
              exit_code
      ]
    ]
