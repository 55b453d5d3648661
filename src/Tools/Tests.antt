-- ===== src/Tools/Tests.antt =====
-- Tool calls at concrete inputs: a world that counts the calls of the tools and is cancelled at ten.
use go_agent_claw.Prelude.{
  ℕ, ◌+◌, ◌≡◌, refl, subst, arith, true, false, Option, none, some, List, [], ◌∷◌, String, leb,
  if◌then◌else◌,
}
use go_agent_claw.Effects.{effect_none, effect_confirmed}
use go_agent_claw.Session.{ToolCall}
use go_agent_claw.Tools.{
  ToolError, ExecutionError, ContextError, canceled, rejected, cancelled, succeeded,
  cancelled_before_execution,
}
use go_agent_claw.Tools.Scope.{
  Mode, mode_read_only, mode_workspace, mode_empty, allows_tool, scope_from_context, is_read_only,
}
use go_agent_claw.Tools.Registry.{
  Tool, Env, Verdict, permission, execute, run_handler, admit, check_context, find_tool,
  require_tool, check_arguments, run_middlewares, pass_middleware, run_hook, finish, success_effect,
  Execution,
}
use go_agent_claw.Tools.Admitted.{Runs, execute-IsAdmitted}
use go_agent_claw.Tools.Steps.{Admission}
use go_agent_claw.Tools.Outcome.{IsHarmless, FailsHonestly, execute-IsRefusal, execute_read_only}
use go_agent_claw.Tools.Refusal.{IsRefusal, RejectsCleanly}

abbrev bad_arguments : ToolError
bad_arguments = record {
  text = [];
  detail = some (record {
    status = rejected;
    effect = effect_none;
    kind = "参数错误";
    code = "";
    retryable = none;
    exit_code = none;
  });
  timed_out = false;
}

abbrev validate_some : ℕ → List ℕ → Option ToolError
validate_some w [] = some bad_arguments
validate_some w (c ∷ cs) = none

abbrev counter : Tool ℕ
counter = record {
  validate = some validate_some;
  execute_discovery = none;
  execute_read_source = none;
  execute_read = none;
  execute_exit = none;
  execute_plain = λ w args. (w + 1, (args, none));
}

abbrev look_at : ℕ → ℕ × Option ContextError
look_at w = (w, if leb 10 w then some canceled else none)

abbrev allow : ℕ → ToolCall → ℕ × Verdict
allow w call = (w, record { allowed = true; reason = [] })

abbrev env_in : Mode → Env ℕ
env_in m = record {
  look = look_at;
  tools = λ name. some counter;
  middlewares = allow ∷ [];
  hook = some (λ w. (w + 1, none));
  scope = record { mode = m; disable_subagent = false };
}

abbrev call_of : String → ToolCall
call_of name = record { id = "c1"; name = name; arguments = b'x' ∷ [] }

abbrev reading : Execution ℕ
reading = execute (env_in mode_read_only) (call_of "read_file") 0

abbrev writing : Execution ℕ
writing = execute (env_in mode_empty) (call_of "write_file") 0

abbrev trusted_writing : Execution ℕ
trusted_writing = execute (env_in mode_workspace) (call_of "write_file") 0

abbrev late : Execution ℕ
late = execute (env_in mode_workspace) (call_of "write_file") 9

-- In the last of them the hook ran, and then the context was cancelled.
calls_end :
    (reading.handler_started ≡ true)
    × (reading.result.status ≡ succeeded)
    × (writing.handler_started ≡ false)
    × (writing.stage ≡ permission)
    × (trusted_writing.handler_started ≡ true)
    × (trusted_writing.result.effect ≡ effect_confirmed)
    × (late.world ≡ 10)
    × (late.result.status ≡ cancelled)
unfolding execute admit check_context find_tool require_tool allows_tool scope_from_context
    is_read_only check_arguments run_middlewares pass_middleware run_hook run_handler finish
    success_effect cancelled_before_execution
calls_end = (refl, refl, refl, refl, refl, refl, refl, refl)

execute-IsAdmitted_example :
    (tool : Tool ℕ) × (end : ℕ) × Admission
      (env_in mode_workspace)
      (call_of "write_file")
      0
      tool
      end
    × Runs (env_in mode_workspace) (call_of "write_file") tool end trusted_writing
execute-IsAdmitted_example =
    (execute-IsAdmitted (env_in mode_workspace) (call_of "write_file") 0).0 calls_end.4

counter_rejects : RejectsCleanly counter
counter_rejects validate w [] e is refuses =
    let same : validate_some ≡ validate = ground (arith, is) in
    let bad : bad_arguments ≡ e = ground (arith, same, refuses) in
    subst
      (λ b.
        (d : ExecutionError) × (b.detail ≡ some d)
        × (d.status ≡ rejected)
        × (d.effect ≡ effect_none))
      bad (_, refl, refl, refl)
counter_rejects validate w (c ∷ cs) e is refuses =
    let same : validate_some ≡ validate = ground (arith, is) in
    absurd (ground (arith, same, refuses))

clean_counter : (tool : Tool ℕ) → some counter ≡ some tool → RejectsCleanly tool
clean_counter tool same =
    let is : counter ≡ tool = ground (arith, same) in subst RejectsCleanly is counter_rejects

counter_never_fails : FailsHonestly (env_in mode_read_only) (call_of "read_file") counter
unfolding run_handler
counter_never_fails w e d fails detail = absurd (ground (arith, fails))

honest_counter :
    (tool : Tool ℕ)
    → some counter ≡ some tool
    → FailsHonestly (env_in mode_read_only) (call_of "read_file") tool
honest_counter tool same =
    let is : counter ≡ tool = ground (arith, same) in
    subst (FailsHonestly (env_in mode_read_only) (call_of "read_file")) is counter_never_fails

execute-IsRefusal_example : IsRefusal (call_of "write_file") writing.result
execute-IsRefusal_example =
    execute-IsRefusal (env_in mode_empty) (call_of "write_file") 0 clean_counter calls_end.2

execute_read_only_example :
    IsHarmless "read_file"
    × (reading.handler_started ≡ true)
    × (reading.result.effect ≡ effect_none)
execute_read_only_example =
    execute_read_only (env_in mode_read_only) (call_of "read_file") 0 refl clean_counter
      honest_counter calls_end.1
