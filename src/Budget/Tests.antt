-- ===== src/Budget/Tests.antt =====
-- A task of three turns, three model calls and nine tool calls, with one subtask.
use go_agent_claw.Prelude.{
  ◌≡◌, ◌+◌, ◌≤◌, ◌↔◌, refl, true, false, some, List, [], ◌∷◌, String, arith, ok, err,
}
use go_agent_claw.Budget.{
  paths_intersect, admissible, RunState, Moment, Call, reserves, admits, model, tool, overlapping,
  new_subtask, subtask_of, reserve, step, run,
}
use go_agent_claw.Budget.Invariant.{IsWithin, entries}
use go_agent_claw.Budget.Admitted.{listed, admissions, run-IsWithin}
use go_agent_claw.Budget.Apart.{AreApart, run-AreApart}
use go_agent_claw.Budget.Denials.{HasRoom, reserve-HasRoom}

abbrev calm : String → Moment
calm agent = record {
  agent = agent;
  cancelled_before = false;
  cancelled_inside = false;
  now = 5;
  persist_fails = false;
}

abbrev start : RunState
start = record {
  state = record {
    limits = record { max_turns = 3; max_model_calls = 3; max_tool_calls = 9; timeout = 100 };
    usage = record { turns = 0; model_calls = 1; tool_calls = 1; elapsed = 0 };
    policy = "auto";
    delegation = some (record {
      version = 1;
      history_complete = true;
      subtasks =
          (
            "child",
            record (new_subtask "child" "root" "run" ("docs" ∷ [])) {
              model_calls = 1;
              tool_calls = 1;
            },
          )
          ∷ [];
    });
  };
  fatal_storage = false;
  run_id = "run";
}

abbrev calls : List (Moment × Call)
calls =
    (calm "child", reserves tool)
    ∷ (calm "root", admits "second" ("src/a" ∷ []))
    ∷ (record (calm "root") { persist_fails = true }, reserves model)
    ∷ []

overlap_refused : (step start (calm "root", admits "second" ("docs/a.md" ∷ []))).1 ≡ err overlapping
unfolding step admissible paths_intersect
overlap_refused = refl

start-IsWithin : IsWithin start.state
start-IsWithin = omega arith

run-IsWithin_example :
    IsWithin (run start calls).state × (listed start.state + admissions start calls ≤ 2)
run-IsWithin_example = run-IsWithin start calls start-IsWithin

run-AreApart_example : AreApart (entries (run start calls).state.delegation)
run-AreApart_example = run-AreApart start calls refl (λ j s inside. absurd inside, tt)

reserve-HasRoom_example :
    ((reserve (calm "root") model start).1 ≡ ok tt)
    ↔ HasRoom model start.state.limits start.state.usage
unfolding subtask_of
reserve-HasRoom_example = reserve-HasRoom (calm "root") model start refl refl refl refl refl

-- A model call whose event is lost.
abbrev lost : Moment × Call
lost = (record (calm "root") { persist_fails = true }, reserves model)
