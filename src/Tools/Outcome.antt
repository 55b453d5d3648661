-- ===== src/Tools/Outcome.antt =====
-- What the result of registryImpl.Execute (internal/tools/registry.go) claims about its effect.
use go_agent_claw.Prelude.{
  ◌≡◌, ◌≢◌, refl, sym, ap, ◌∙◌, subst, ◌⊎◌, inl, inr, true, false, some, String, arith, Bool-cases,
  Option-cases, Result-cases, str_eq, eq_iff,
}
use go_agent_claw.Effects.{effect_none}
use go_agent_claw.Session.{ToolCall}
use go_agent_claw.Tools.{ToolError, ExecutionError, succeeded, new_tool_result, tool_error_result}
use go_agent_claw.Tools.Scope.{
  ExecutionScope, mode_read_only, scope_from_context, allows_tool, is_read_only,
}
use go_agent_claw.Tools.Registry.{Env, Tool, admit, execute, run_handler, finish, success_effect}
use go_agent_claw.Tools.Admitted.{execute-IsAdmitted, admit-refused, admit-accepted}
use go_agent_claw.Tools.Refusal.{IsRefusal, RejectsCleanly, admit-refuses}

-- A tool call whose handler did not start has a result that answers the call, is an error, is rejected or
-- cancelled, and says that nothing was changed, provided that the tool refuses arguments by such a rejection.
pub execute-IsRefusal :
    {W : Type 0} (env : Env W) (call : ToolCall) (w : W)
    → ((tool : Tool W) → env.tools call.name ≡ some tool → RejectsCleanly tool)
    → (execute env call w).handler_started ≡ false
    → IsRefusal call (execute env call w).result
execute-IsRefusal env call w clean idle = elim (Result-cases (admit env call w).1) [
  | inl ((reached, refusal), h) ↦
      subst (IsRefusal call) (sym (admit-refused env call w h).1)
        (admit-refuses env call clean w reached refusal h)
  | inr (tool, h) ↦ absurd (ground (arith, (admit-accepted env call w h).started, idle))
]

-- No handler of the tool returns an error that claims success.
abbrev pub FailsHonestly : {W : Type 0} → Env W → ToolCall → Tool W → Type 0
FailsHonestly {W} env call tool =
    (w : W) (e : ToolError) (d : ExecutionError)
    → (run_handler env call tool w).1.error ≡ some e
    → e.detail ≡ some d
    → d.status ≢ succeeded

is_read_only-ne :
    (name other : String)
    → is_read_only name ≡ true
    → is_read_only other ≡ false
    → str_eq name other ≡ false
is_read_only-ne name other reads writes = elim (Bool-cases (str_eq name other)) [
  | inr e ↦ e
  | inl e ↦
      let same : name ≡ other = ground (arith, e, eq_iff name other) in
      absurd (ground (arith, reads, writes, same))
]

-- The tools that a run in read-only mode may start, none of which writes.
abbrev pub IsHarmless : String → Type 0
IsHarmless name = (is_read_only name ≡ true) ⊎ (name ≡ "spawn_subagent")

allows_tool-IsHarmless :
    (s : ExecutionScope) (name : String)
    → s.mode ≡ mode_read_only
    → allows_tool (scope_from_context s) name ≡ true
    → IsHarmless name
unfolding allows_tool scope_from_context
allows_tool-IsHarmless s name mode allowed = elim (Bool-cases (is_read_only name)) [
  | inl e ↦ inl e
  | inr e ↦ elim (Bool-cases (str_eq name "spawn_subagent")) [
    | inl spawn ↦ inr (ground (arith, spawn, eq_iff name "spawn_subagent"))
    | inr other ↦ absurd (ground (arith, e, other, mode, allowed))
  ]
]

success_effect-IsHarmless : (name : String) → IsHarmless name → success_effect name ≡ effect_none
unfolding success_effect is_read_only
success_effect-IsHarmless name (inl reads) = ground (
  arith,
  reads,
  is_read_only-ne name "edit_file" reads refl,
  is_read_only-ne name "write_file" reads refl,
)
success_effect-IsHarmless name (inr spawns) = ap success_effect spawns

finish-succeeded :
    {W : Type 0} (env : Env W) (call : ToolCall) (tool : Tool W) (w : W)
    → FailsHonestly env call tool
    → (finish env call (run_handler env call tool w).0 (run_handler env call tool w).1).1.status
      ≡ succeeded
    → (finish env call (run_handler env call tool w).0 (run_handler env call tool w).1).1.effect
      ≡ success_effect call.name
unfolding finish tool_error_result new_tool_result
finish-succeeded env call tool w honest s =
    elim (Option-cases (run_handler env call tool w).1.error) [
      | inl e ↦ ground (arith, e)
      | inr (x, e) ↦ elim (Option-cases x.detail) [
        | inr (d, detail) ↦ absurd (honest w x d e detail (ground (arith, e, detail, s)))
        | inl plain ↦ elim (Option-cases (env.look (run_handler env call tool w).0).1) [
          | inl open_context ↦ absurd (ground (arith, e, plain, open_context, s))
          | inr (c, closed) ↦ absurd (ground (arith, e, plain, closed, s))
        ]
      ]
    ]

-- In read-only mode a tool call succeeds only by a tool that reads or starts a subagent, after its handler has
-- run, and its result says that nothing was changed, provided that the tool rejects arguments as rejections and
-- its errors do not claim success.
pub execute_read_only :
    {W : Type 0} (env : Env W) (call : ToolCall) (w : W)
    → env.scope.mode ≡ mode_read_only
    → ((tool : Tool W) → env.tools call.name ≡ some tool → RejectsCleanly tool)
    → ((tool : Tool W) → env.tools call.name ≡ some tool → FailsHonestly env call tool)
    → (execute env call w).result.status ≡ succeeded
    → IsHarmless call.name
      × ((execute env call w).handler_started ≡ true)
      × ((execute env call w).result.effect ≡ effect_none)
execute_read_only env call w mode clean honest s =
    elim (Bool-cases (execute env call w).handler_started) [
      | inr idle ↦ elim (execute-IsRefusal env call w clean idle).stopped [
        | inl r ↦ absurd (ground (arith, r, s))
        | inr c ↦ absurd (ground (arith, c, s))
      ]
      | inl started ↦
          let (tool, end, a, runs) = (execute-IsAdmitted env call w).0 started in
          let harmless = allows_tool-IsHarmless env.scope call.name mode a.permitted in
          let status : (finish env call (run_handler env call tool end).0
                (run_handler env call tool end).1).1.status
              ≡ succeeded =
            ground (arith, runs.finished, s) in
          let effect = finish-succeeded env call tool end (honest tool a.registered) status in
          let same : (finish env call (run_handler env call tool end).0
                (run_handler env call tool end).1).1.effect
              ≡ (execute env call w).result.effect =
            ground (arith, runs.finished) in
          (harmless, started, sym same ∙ effect ∙ success_effect-IsHarmless call.name harmless)
    ]
