-- ===== src/Budget/Denials.antt =====
-- When internal/engine/run_state.go grants a reservation, and what a failed save leaves.
use go_agent_claw.Prelude.{◌<◌, ◌≡◌, ◌↔◌, false, none, arith, ok}
use go_agent_claw.Budget.{
  Budget, Usage, RunState, Kind, turn, model, tool, Moment, subtask_of, reserve,
}

-- What a call of the main task needs. A model call also needs a tool call left.
abbrev pub HasRoom : Kind → Budget → Usage → Type 0
HasRoom turn b u = u.turns < b.max_turns
HasRoom model b u = (u.tool_calls < b.max_tool_calls) × (u.model_calls < b.max_model_calls)
HasRoom tool b u = u.tool_calls < b.max_tool_calls

-- With a live context, a log that works and no storage error before, a call of the main task is granted
-- exactly when the task has room for it.
pub reserve-HasRoom :
    (m : Moment) (kind : Kind) (r : RunState)
    → m.cancelled_before ≡ false
    → m.cancelled_inside ≡ false
    → m.persist_fails ≡ false
    → r.fatal_storage ≡ false
    → subtask_of m.agent r.state.delegation ≡ none
    → ((reserve m kind r).1 ≡ ok tt) ↔ HasRoom kind r.state.limits r.state.usage
unfolding reserve
reserve-HasRoom m turn r a b c d e = (ground arith, ground arith)
reserve-HasRoom m model r a b c d e = (ground arith, ground arith)
reserve-HasRoom m tool r a b c d e = (ground arith, ground arith)
