-- ===== src/Tools/Registry.antt =====
-- registryImpl.Execute of internal/tools/registry.go.
use go_agent_claw.Prelude.{
  ℕ, Bool, true, false, ◌||◌, Option, none, some, List, [], ◌∷◌, ◌++◌, String, codes, if◌then◌else◌,
  str_eq, Result, ok, err,
}
use go_agent_claw.Effects.{EffectStatus, effect_none, effect_confirmed, effect_unknown}
use go_agent_claw.Coverage.{ReadReceipt}
use go_agent_claw.Session.{ToolCall}
use go_agent_claw.Tools.{
  rejected, succeeded, ℤ, DiscoveryReceipt, ToolResult, new_tool_result, ToolError, ContextError,
  cancelled_before_execution, tool_error_result,
}
use go_agent_claw.Tools.Scope.{ExecutionScope, scope_from_context, is_read_only, allows_tool}

pub data Stage : Type 0 where
  at_context registration permission parameters middleware persist_hook handler : Stage

-- What a handler returns; each kind of handler leaves some fields empty.
pub record Handled : Type 0 where
  pub output : List ℕ
  pub read : Option ReadReceipt
  pub read_content : List ℕ
  pub discovery : Option DiscoveryReceipt
  pub exit_code : Option ℤ
  pub error : Option ToolError

abbrev pub handled : List ℕ → Option ToolError → Handled
handled output error = record {
  output = output;
  read = none;
  read_content = [];
  discovery = none;
  exit_code = none;
  error = error;
}

pub record Verdict : Type 0 where
  pub allowed : Bool
  pub reason : List ℕ

-- A tool implements some of the optional interfaces.
pub record Tool (W : Type 0) : Type 0 where
  pub validate : Option (W → List ℕ → Option ToolError)
  pub execute_discovery :
      Option (W → List ℕ → W × (List ℕ × Option DiscoveryReceipt × Option ToolError))
  pub execute_read_source :
      Option (W → List ℕ → W × (List ℕ × Option ReadReceipt × List ℕ × Option ToolError))
  pub execute_read : Option (W → List ℕ → W × (List ℕ × Option ReadReceipt × Option ToolError))
  pub execute_exit : Option (W → List ℕ → W × (List ℕ × Option ℤ × Option ToolError))
  pub execute_plain : W → List ℕ → W × (List ℕ × Option ToolError)

pub record Env (W : Type 0) : Type 0 where
  pub look : W → W × Option ContextError
  pub tools : String → Option (Tool W)
  pub middlewares : List (W → ToolCall → W × Verdict)
  pub hook : Option (W → W × Option (List ℕ))
  pub scope : ExecutionScope

-- What one step of the admission leaves: the world, and a value or the refusal with its stage.
abbrev pub Step : Type 0 → Type 0 → Type 0
Step W A = W × Result (Stage × ToolResult) A

infixr 5 ◌>=>◌
abbrev pub ◌>=>◌ : {W A B : Type 0} → Step W A → (W → A → Step W B) → Step W B
(w, ok a) >=> next = next w a
(w, err refusal) >=> next = (w, err refusal)

abbrev pub rejection : ToolCall → List ℕ → String → ToolResult
rejection call text kind = new_tool_result call.id text rejected effect_none kind none

module _ {W : Type 0} (env : Env W) (call : ToolCall) where
  -- ctx.Err() before the handler has started.
  unfoldable pub check_context : Stage → W → Step W (Unit {0})
  check_context stage w =
      let (w', seen) = env.look w in
      elim seen [
        | none ↦ (w', ok tt)
        | some e ↦ (w', err (stage, cancelled_before_execution call.id e))
      ]

  unfoldable pub find_tool : W → Step W (Tool W)
  unfolding new_tool_result
  find_tool w = elim (env.tools call.name) [
    | none ↦ (w, err (registration, rejection call (codes "未注册工具 " ++ codes call.name) "未知工具"))
    | some tool ↦ (w, ok tool)
  ]

  unfoldable pub require_tool : W → Step W (Unit {0})
  unfolding new_tool_result
  require_tool w =
      if allows_tool (scope_from_context env.scope) call.name
      then (w, ok tt)
      else (w, err (permission, rejection call (codes "当前执行模式不允许使用 " ++ codes call.name) "权限不足"))

  unfoldable pub check_arguments : Tool W → W → Step W (Unit {0})
  check_arguments tool w = elim tool.validate [
    | none ↦ (w, ok tt)
    | some validate ↦ elim (validate w call.arguments) [
      | none ↦ (w, ok tt)
      | some e ↦
          let (w', context) = env.look w in
          (w', err (parameters, tool_error_result context call [] none e))
    ]
  ]

  -- One middleware: the context is looked at before its verdict.
  unfoldable pub pass_middleware : (W → ToolCall → W × Verdict) → W → Step W (Unit {0})
  unfolding new_tool_result
  pass_middleware mw w =
      let (w', verdict) = mw w call in
      check_context middleware w' >=> (λ w'' done.
        if verdict.allowed
        then (w'', ok tt)
        else (w'', err (middleware, rejection call (codes "执行被拦截: " ++ verdict.reason) "准入拒绝")))

  unfoldable pub run_middlewares : List (W → ToolCall → W × Verdict) → W → Step W (Unit {0})
  run_middlewares [] w = (w, ok tt)
  run_middlewares (mw ∷ mws) w = pass_middleware mw w >=> (λ w' done. run_middlewares mws w')

  unfoldable pub run_hook : W → Step W (Unit {0})
  unfolding new_tool_result
  run_hook w = elim env.hook [
    | none ↦ (w, ok tt)
    | some hook ↦
        let (w', error) = hook w in
        elim error [
          | none ↦ (w', ok tt)
          | some text ↦ (w', err (persist_hook, rejection call text "执行前记录失败"))
        ]
  ]

  -- The steps before the handler starts.
  unfoldable pub admit : W → Step W (Tool W)
  admit w = check_context at_context w >=> (λ w₁ open_before. find_tool w₁ >=> (λ w₂ tool.
      require_tool w₂ >=> (λ w₃ permitted. check_arguments tool w₃ >=> (λ w₄ valid.
        run_middlewares env.middlewares w₄ >=> (λ w₅ passed. run_hook w₅ >=> (λ w₆ written.
          check_context persist_hook w₆ >=> (λ w₇ open_after. (w₇, ok tool))))))))

  -- The first of the optional interfaces that the tool implements.
  unfoldable pub run_handler : Tool W → W → W × Handled
  run_handler tool w = elim tool.execute_discovery [
    | some find ↦
        let (w', (output, receipt, error)) = find w call.arguments in
        (w', record (handled output error) { discovery = receipt })
    | none ↦ elim tool.execute_read_source [
      | some read_source ↦
          let (w', (output, receipt, source, error)) = read_source w call.arguments in
          (w', record (handled output error) { read = receipt; read_content = source })
      | none ↦ elim tool.execute_read [
        | some read_only ↦
            let (w', (output, receipt, error)) = read_only w call.arguments in
            (w', record (handled output error) { read = receipt })
        | none ↦ elim tool.execute_exit [
          | some run ↦
              let (w', (output, code, error)) = run w call.arguments in
              (w', record (handled output error) { exit_code = code })
          | none ↦
              let (w', (output, error)) = tool.execute_plain w call.arguments in
              (w', handled output error)
        ]
      ]
    ]
  ]

unfoldable pub success_effect : String → EffectStatus
success_effect name =
    if str_eq name "edit_file" || str_eq name "write_file"
    then effect_confirmed
    else if str_eq name "spawn_subagent"
    then effect_none
    else if is_read_only name
    then effect_none
    else effect_unknown

pub record Execution (W : Type 0) : Type 0 where
  pub world : W
  pub result : ToolResult
  pub stage : Stage
  pub handler_started : Bool

unfoldable pub finish : {W : Type 0} → Env W → ToolCall → W → Handled → W × ToolResult
unfolding new_tool_result
finish env call w h = elim h.error [
  | some e ↦
      let (w', context) = env.look w in (w', tool_error_result context call h.output h.exit_code e)
  | none ↦ (
    w,
    record (new_tool_result call.id h.output succeeded (success_effect call.name) "" h.exit_code) {
      read = h.read;
      read_content = h.read_content;
      discovery = h.discovery;
    },
  )
]

unfoldable pub execute : {W : Type 0} → Env W → ToolCall → W → Execution W
execute env call w =
    let (w', admitted) = admit env call w in
    elim admitted [
      | err (reached, refusal) ↦ record {
        world = w';
        result = refusal;
        stage = reached;
        handler_started = false;
      }
      | ok tool ↦
          let (w'', h) = run_handler env call tool w' in
          let (last, result) = finish env call w'' h in
          record { world = last; result = result; stage = handler; handler_started = true }
    ]
