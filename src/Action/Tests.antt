-- ===== src/Action/Tests.antt =====
-- One write at a concrete input: the tool writes a file, whose bytes are counted in the outside.
use go_agent_claw.Prelude.{ℕ, ◌+◌, ◌≡◌, refl, true, false, none, some, [], length, codes}
use go_agent_claw.Budget.{
  Moment, reserve, record_event, reserve_locked, charge_usage, check_sub_budget, charge_sub_budget,
  subtask_of, find_subtask,
}
use go_agent_claw.Session.{ToolCall}
use go_agent_claw.Tools.{new_tool_result}
use go_agent_claw.Tools.Scope.{mode_workspace, allows_tool, scope_from_context, is_read_only}
use go_agent_claw.Tools.Registry.{
  Tool, execute, admit, check_context, find_tool, require_tool, check_arguments, run_middlewares,
  run_hook, run_handler, finish, success_effect,
}
use go_agent_claw.Action.{
  ActionEnv, World, not_stored, record_action, start, start_hook, registry_env, is_mutation,
}
use go_agent_claw.Action.Execute.{
  execute_action, find_result, previous_result, is_uncertain, resolve, settle_action, record_result,
  conclude, run_call, fresh_attempt,
}
use go_agent_claw.Action.Started.{StartsSaved, execute-StartsSaved}

abbrev Place : Type 0
Place = World ℕ ℕ

abbrev write_tool : Tool Place
write_tool = record {
  validate = none;
  execute_discovery = none;
  execute_read_source = none;
  execute_read = none;
  execute_exit = none;
  execute_plain = λ w args. (record w { outside = w.outside + length args }, (codes "ok", none));
}

abbrev calm : Moment
calm = record {
  agent = "main";
  cancelled_before = false;
  cancelled_inside = false;
  now = 1;
  persist_fails = false;
}

abbrev env : ActionEnv ℕ ℕ
env = record {
  look = λ w. (w, none);
  tools = λ name. some write_tool;
  middlewares = [];
  scope = record { mode = mode_workspace; disable_subagent = true };
  at_reserve = calm;
  at_start = calm;
  at_result = calm;
  action_id = "a1";
  key = "k1";
  preview = λ w c. some (record { path = "f"; before = "v0"; after = "v1" });
  file_version = λ w path. none;
  describe = λ e. [];
  duplicate_read = λ w c. none;
  annotate = λ w r. (w, r, none);
  store_output = λ w r. not_stored;
  remember = λ a c r memory. memory + 1;
}

abbrev call : ToolCall
call = record { id = "c1"; name = "write_file"; arguments = codes "abc" }

abbrev begin : Place
begin = record {
  run = record {
    budget = record {
      state = record {
        limits = record { max_turns = 3; max_model_calls = 3; max_tool_calls = 9; timeout = 100 };
        usage = record { turns = 0; model_calls = 0; tool_calls = 0; elapsed = 0 };
        policy = "off";
        delegation = none;
      };
      fatal_storage = false;
      run_id = "run";
    };
    actions = record {
      effects = record { effect_ledger = none; pending = []; completed = [] };
      completed = [];
      verified = true;
      last_action = none;
    };
    resume_receipts = [];
    memory = 0;
    journal = [];
  };
  attempt = fresh_attempt env call "s1" false;
  outside = 0;
}

-- The log has the start and the end of the write, and the file has its bytes.
write_is_done :
    ((execute_action env call "s1" false begin).error ≡ none)
    × ((execute_action env call "s1" false begin).world.outside ≡ 3)
    × (length (execute_action env call "s1" false begin).world.run.journal ≡ 2)
    × ((execute (registry_env env call) call begin).handler_started ≡ true)
unfolding execute_action reserve record_event reserve_locked charge_usage check_sub_budget
    charge_sub_budget subtask_of find_subtask is_mutation previous_result find_result run_call
    execute admit check_context find_tool require_tool allows_tool scope_from_context is_read_only
    check_arguments run_middlewares run_hook start_hook record_action start run_handler finish
    success_effect new_tool_result conclude is_uncertain resolve record_result settle_action
write_is_done = (refl, refl, refl, refl)

execute-StartsSaved_example : StartsSaved env call begin
unfolding is_mutation
execute-StartsSaved_example = execute-StartsSaved env call begin refl write_is_done.3
