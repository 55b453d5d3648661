-- ===== src/Tools/Admitted.antt =====
-- When registryImpl.Execute of internal/tools/registry.go starts a handler.
use go_agent_claw.Prelude.{◌≡◌, subst, inl, inr, true, false, arith, ok, err, Result-cases}
use go_agent_claw.Session.{ToolCall}
use go_agent_claw.Tools.{ToolResult}
use go_agent_claw.Tools.Registry.{Env, Tool, Stage, admit, execute, Execution, run_handler, finish}
use go_agent_claw.Tools.Steps.{Admission, admit-Admission, Admission-admit}

-- The handler ran in the world `start`, and its result is the call's.
pub record Runs {W : Type 0} (env : Env W) (call : ToolCall) (tool : Tool W) (start : W)
    (e : Execution W) : Type 0 where
  pub started : e.handler_started ≡ true
  pub finished :
      finish env call (run_handler env call tool start).0 (run_handler env call tool start).1
      ≡ (e.world, e.result)

pub admit-refused :
    {W : Type 0} (env : Env W) (call : ToolCall) (w : W) {reached : Stage} {refusal : ToolResult}
    → (admit env call w).1 ≡ err (reached, refusal)
    → ((execute env call w).handler_started ≡ false) × ((execute env call w).result ≡ refusal)
unfolding execute
admit-refused env call w h = (ground (arith, h), ground (arith, h))

pub admit-accepted :
    {W : Type 0} (env : Env W) (call : ToolCall) (w : W) {tool : Tool W}
    → (admit env call w).1 ≡ ok tool
    → Runs env call tool (admit env call w).0 (execute env call w)
unfolding execute
admit-accepted env call w h = record { started = ground (arith, h); finished = ground (arith, h) }

-- The handler of a tool call starts exactly when the context is open, the tool is registered and allowed by the
-- mode, its arguments are not refused, every middleware lets the call pass, the call's record was written where
-- one is wanted, and the context is still open then; it runs in the world that these steps leave, and what it
-- returns is turned into the result.
pub execute-IsAdmitted :
    {W : Type 0} (env : Env W) (call : ToolCall) (w : W)
    → ((execute env call w).handler_started ≡ true
        → (tool : Tool W) × (end : W) × Admission env call w tool end
          × Runs env call tool end (execute env call w))
      × ((tool : Tool W) (end : W)
          → Admission env call w tool end
          → Runs env call tool end (execute env call w))
execute-IsAdmitted env call w = (
  λ started. elim (Result-cases (admit env call w).1) [
    | inl ((reached, refusal), h) ↦ absurd (ground (arith, (admit-refused env call w h).0, started))
    | inr (tool, h) ↦ (
      tool,
      (admit env call w).0,
      admit-Admission env call w (ground (arith, h)),
      admit-accepted env call w h,
    )
  ],
  λ tool end a.
      let h = Admission-admit env call w a in
      let accepted : (admit env call w).1 ≡ ok tool = ground (arith, h) in
      let same : (admit env call w).0 ≡ end = ground (arith, h) in
      subst (λ start. Runs env call tool start (execute env call w)) same
        (admit-accepted env call w accepted),
)
