-- ===== src/Turn/Tests.antt =====
-- Turns at concrete inputs: two reads at once, a write that fails, and a read that is then not executed.
use go_agent_claw.Prelude.{
  ℕ, ◌≡◌, refl, ◌≤◌, ◌<◌, arith, Bool, true, false, none, some, List, [], ◌∷◌, String, length, take,
  map, ◌==◌, if◌then◌else◌,
}
use go_agent_claw.Session.{ToolCall, Session, user, has_id, append_messages}
use go_agent_claw.Tools.{ToolStatus, succeeded, failed, rejected, ToolResult}
use go_agent_claw.Tools.Scope.{is_read_only}
use go_agent_claw.Turn.{
  Outcome, empty_result, Surroundings, Reply, execute_batch, run_groups, companions, read_run,
  fill_all, turn, has_good_ids, observations, note_failures, note_failure, failures_of, forget,
  batch_failed,
}
use go_agent_claw.Turn.Batch.{Runs, execute_batch-Runs}
use go_agent_claw.Turn.Failures.{events_of, streak, note_failures_lem}

abbrev call : String → String → ToolCall
call id name = record { id = id; name = name; arguments = [] }

abbrev calls : List ToolCall
calls = call "a" "read_file" ∷ call "b" "list_dir" ∷ call "c" "bash" ∷ call "d" "read_file" ∷ []

abbrev result_of : ToolStatus → Bool → ToolResult
result_of status is_error = record empty_result { status = status; is_error = is_error }

-- The third call has an error.
abbrev outcome : ℕ → Outcome String
outcome i =
    if i == 2
    then record { result = result_of failed true; error = some "storage" }
    else record { result = result_of succeeded false; error = none }

abbrev statuses : List ToolResult → List ToolStatus
statuses rs = map (λ r. r.status) rs

batch_stops :
    (statuses (execute_batch outcome calls).0 ≡ succeeded ∷ succeeded ∷ failed ∷ rejected ∷ [])
    × ((execute_batch outcome calls).1 ≡ some "storage")
unfolding execute_batch run_groups companions read_run fill_all is_read_only
batch_stops = (refl, refl)

execute_batch-Runs_example :
    Runs outcome 0 calls (execute_batch outcome calls).0 (execute_batch outcome calls).1
execute_batch-Runs_example = execute_batch-Runs outcome calls

abbrev around : Surroundings String
around = record {
  outcome = outcome;
  content = λ c r. c.name;
  action_key = λ c. c.name;
  tracked = λ c r. false;
  boundary_error = none;
  readonly_stop = none;
}

abbrev reply : Reply
reply = record { text = ""; tool_calls = calls; response_items = [] }

abbrev session : Session
session = record {
  id = "s";
  work_dir = "/w";
  prompt_tokens = 0;
  completion_tokens = 0;
  unknown_usage_calls = 0;
  history =
      record {
        role = user;
        content = "go";
        tool_calls = [];
        response_items = [];
        tool_call_id = "";
      }
      ∷ [];
}

turn_answers :
    (length (turn around reply session []).session.history ≡ 6)
    × ((turn around reply session []).error ≡ some (batch_failed "storage"))
unfolding turn execute_batch run_groups companions read_run fill_all is_read_only has_good_ids
    has_id observations note_failures note_failure failures_of forget append_messages
turn_answers = (refl, refl)

abbrev thrice : List ToolCall
thrice = call "a" "bash" ∷ call "b" "bash" ∷ call "c" "bash" ∷ []

abbrev failures_in_row : List ToolResult
failures_in_row = result_of failed true ∷ result_of failed true ∷ result_of failed true ∷ []

third_stops :
    (note_failures around.action_key around.tracked thrice failures_in_row ([], none)).1
    ≡ some "bash"
unfolding note_failures note_failure failures_of forget
third_stops = refl

none_failed : (k : String) → failures_of k [] < 3
unfolding failures_of
none_failed k = omega arith

note_failures_lem_example :
    (n : ℕ) × (3
      ≤ streak "bash"
          (failures_of "bash" [])
          (take n (events_of around.action_key thrice failures_in_row)))
note_failures_lem_example =
    (note_failures_lem around.action_key around.tracked thrice failures_in_row [] (λ c r. refl)
        none_failed).1
      "bash" third_stops
