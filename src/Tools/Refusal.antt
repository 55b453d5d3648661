-- ===== src/Tools/Refusal.antt =====
-- The refusals of registryImpl.Execute (internal/tools/registry.go) before the handler starts.
use go_agent_claw.Prelude.{
  ℕ, ◌≡◌, refl, subst, ◌⊎◌, inl, inr, true, Option, none, some, List, [], ◌∷◌, String, arith,
  Bool-cases, Option-cases, ok, err, ◌++◌, codes,
}
use go_agent_claw.Effects.{effect_none}
use go_agent_claw.Session.{ToolCall}
use go_agent_claw.Tools.{
  ToolResult, ToolError, ExecutionError, ContextError, canceled, deadline_exceeded, rejected,
  cancelled, new_tool_result, cancelled_before_execution, tool_error_result,
}
use go_agent_claw.Tools.Scope.{scope_from_context, allows_tool}
use go_agent_claw.Tools.Registry.{
  Env, Tool, Step, Verdict, Stage, middleware, persist_hook, at_context, check_context, find_tool,
  require_tool, check_arguments, pass_middleware, run_middlewares, run_hook, admit, ◌>=>◌,
  rejection,
}
use go_agent_claw.Tools.Steps.{find_tool-eq-ok}

-- A result that says that nothing happened.
pub record IsRefusal (call : ToolCall) (r : ToolResult) : Type 0 where
  pub answers : r.tool_call_id ≡ call.id
  pub harmless : r.effect ≡ effect_none
  pub stopped : (r.status ≡ rejected) ⊎ (r.status ≡ cancelled)
  pub reported : r.is_error ≡ true

-- The tool refuses arguments by `reject`.
abbrev pub RejectsCleanly : {W : Type 0} → Tool W → Type 0
RejectsCleanly {W} tool =
    (validate : W → List ℕ → Option ToolError) (w : W) (args : List ℕ) (e : ToolError)
    → tool.validate ≡ some validate
    → validate w args ≡ some e
    → (d : ExecutionError) × (e.detail ≡ some d) × (d.status ≡ rejected) × (d.effect ≡ effect_none)

-- The steps of an admission refuse cleanly.
abbrev pub RefusesBy : {W A : Type 0} → ToolCall → Step W A → Type 0
RefusesBy call step = (stage : Stage) (r : ToolResult) → step.1 ≡ err (stage, r) → IsRefusal call r

RefusesBy->=> :
    {W A B : Type 0} (call : ToolCall) (step : Step W A) (next : W → A → Step W B)
    → RefusesBy call step
    → ((w : W) (a : A) → step ≡ (w, ok a) → RefusesBy call (next w a))
    → RefusesBy call (step >=> next)
RefusesBy->=> call (w, ok a) next first later = later w a refl
RefusesBy->=> call (w, err e) next first later = λ stage r h. first stage r (ground (arith, h))

cancelled_before_execution-IsRefusal :
    (call : ToolCall) (e : ContextError) → IsRefusal call (cancelled_before_execution call.id e)
unfolding cancelled_before_execution new_tool_result
cancelled_before_execution-IsRefusal call canceled = record {
  answers = refl;
  harmless = refl;
  stopped = inr refl;
  reported = refl;
}
cancelled_before_execution-IsRefusal call deadline_exceeded = record {
  answers = refl;
  harmless = refl;
  stopped = inr refl;
  reported = refl;
}

rejection-IsRefusal :
    (call : ToolCall) (text : List ℕ) (kind : String) → IsRefusal call (rejection call text kind)
unfolding new_tool_result
rejection-IsRefusal call text kind = record {
  answers = refl;
  harmless = refl;
  stopped = inl refl;
  reported = refl;
}

tool_error_result-IsRefusal :
    (call : ToolCall) (context : Option ContextError) (e : ToolError) {d : ExecutionError}
    → e.detail ≡ some d
    → d.status ≡ rejected
    → d.effect ≡ effect_none
    → IsRefusal call (tool_error_result context call [] none e)
unfolding tool_error_result new_tool_result
tool_error_result-IsRefusal call context e detail status effect = record {
  answers = ground (arith, detail);
  harmless = ground (arith, detail, effect);
  stopped = inl (ground (arith, detail, status));
  reported = ground (arith, detail, status);
}

module _ {W : Type 0} (env : Env W) (call : ToolCall) where
  check_context-refuses : (stage : Stage) (w : W) → RefusesBy call (check_context env call stage w)
  unfolding check_context
  check_context-refuses stage w s r h = elim (Option-cases (env.look w).1) [
    | inl e ↦ absurd (ground (arith, e, h))
    | inr (x, e) ↦
        let same : cancelled_before_execution call.id x ≡ r = ground (arith, e, h) in
        subst (IsRefusal call) same (cancelled_before_execution-IsRefusal call x)
  ]

  find_tool-refuses : (w : W) → RefusesBy call (find_tool env call w)
  unfolding find_tool
  find_tool-refuses w s r h = elim (Option-cases (env.tools call.name)) [
    | inr (t, e) ↦ absurd (ground (arith, e, h))
    | inl e ↦
        let same : rejection call (codes "未注册工具 " ++ codes call.name) "未知工具" ≡ r =
          ground (arith, e, h) in
        subst (IsRefusal call) same (rejection-IsRefusal call _ _)
  ]

  require_tool-refuses : (w : W) → RefusesBy call (require_tool env call w)
  unfolding require_tool
  require_tool-refuses w s r h =
      elim (Bool-cases (allows_tool (scope_from_context env.scope) call.name)) [
        | inl e ↦ absurd (ground (arith, e, h))
        | inr e ↦
            let same : rejection call (codes "当前执行模式不允许使用 " ++ codes call.name) "权限不足" ≡ r =
              ground (arith, e, h) in
            subst (IsRefusal call) same (rejection-IsRefusal call _ _)
      ]

  check_arguments-refuses :
      (tool : Tool W) (w : W)
      → RejectsCleanly tool
      → RefusesBy call (check_arguments env call tool w)
  unfolding check_arguments
  check_arguments-refuses tool w clean s r h = elim (Option-cases tool.validate) [
    | inl e ↦ absurd (ground (arith, e, h))
    | inr (validate, e) ↦ elim (Option-cases (validate w call.arguments)) [
      | inl valid ↦ absurd (ground (arith, e, valid, h))
      | inr (x, invalid) ↦
          let (d, detail, status, effect) = clean validate w call.arguments x e invalid in
          let same : tool_error_result (env.look w).1 call [] none x ≡ r =
            ground (arith, e, invalid, h) in
          subst (IsRefusal call) same
            (tool_error_result-IsRefusal call (env.look w).1 x detail status effect)
    ]
  ]

  pass_middleware-refuses :
      (mw : W → ToolCall → W × Verdict) (w : W) → RefusesBy call (pass_middleware env call mw w)
  unfolding pass_middleware
  pass_middleware-refuses mw w =
      RefusesBy->=> call (check_context env call middleware (mw w call).0) _
        (check_context-refuses middleware _)
        (λ w' done passed s r h. elim (Bool-cases (mw w call).1.allowed) [
          | inl e ↦ absurd (ground (arith, e, h))
          | inr e ↦
              let same : rejection call (codes "执行被拦截: " ++ (mw w call).1.reason) "准入拒绝" ≡ r =
                ground (arith, e, h) in
              subst (IsRefusal call) same (rejection-IsRefusal call _ _)
        ])

  run_middlewares-refuses :
      (mws : List (W → ToolCall → W × Verdict)) (w : W)
      → RefusesBy call (run_middlewares env call mws w)
  unfolding run_middlewares
  run_middlewares-refuses [] w = λ s r h. absurd (ground (arith, h))
  run_middlewares-refuses (mw ∷ mws) w =
      RefusesBy->=> call (pass_middleware env call mw w) _ (pass_middleware-refuses mw w)
        (λ w' done passed. run_middlewares-refuses mws w')

  run_hook-refuses : (w : W) → RefusesBy call (run_hook env call w)
  unfolding run_hook
  run_hook-refuses w s r h = elim (Option-cases env.hook) [
    | inl e ↦ absurd (ground (arith, e, h))
    | inr (hook, e) ↦ elim (Option-cases (hook w).1) [
      | inl written ↦ absurd (ground (arith, e, written, h))
      | inr (text, e') ↦
          let same : rejection call text "执行前记录失败" ≡ r = ground (arith, e, e', h) in
          subst (IsRefusal call) same (rejection-IsRefusal call _ _)
    ]
  ]

  pub admit-refuses :
      ((tool : Tool W) → env.tools call.name ≡ some tool → RejectsCleanly tool)
      → (w : W) → RefusesBy call (admit env call w)
  unfolding admit
  admit-refuses clean w =
      RefusesBy->=> call (check_context env call at_context w) _
        (check_context-refuses at_context w)
        (λ w₁ d₁ s₁.
          RefusesBy->=> call (find_tool env call w₁) _ (find_tool-refuses w₁) (λ w₂ tool s₂.
            RefusesBy->=> call (require_tool env call w₂) _ (require_tool-refuses w₂) (λ w₃ d₃ s₃.
              RefusesBy->=> call (check_arguments env call tool w₃) _
                (check_arguments-refuses tool w₃ (clean tool (find_tool-eq-ok env call w₁ s₂).1))
                (λ w₄ d₄ s₄.
                  RefusesBy->=> call (run_middlewares env call env.middlewares w₄) _
                    (run_middlewares-refuses env.middlewares w₄)
                    (λ w₅ d₅ s₅.
                      RefusesBy->=> call (run_hook env call w₅) _ (run_hook-refuses w₅) (λ w₆ d₆ s₆.
                        RefusesBy->=> call (check_context env call persist_hook w₆) _
                          (check_context-refuses persist_hook w₆)
                          (λ w₇ d₇ s₇ s r h. absurd (ground (arith, h)))))))))
