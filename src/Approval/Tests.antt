-- ===== src/Approval/Tests.antt =====
-- A write that waits in the chat "g1": a stranger's answer is ignored, then the approver "bob" allows it.
use go_agent_claw.Prelude.{ℕ, ◌≡◌, refl, ◌⊎◌, Bool, true, false, none, some, [], ◌∷◌, String}
use go_agent_claw.Session.{ToolCall}
use go_agent_claw.Tools.Scope.{is_read_only}
use go_agent_claw.Approval.{
  Request, Manager, Answer, answers, opens, Waiting, Look, Binding, Attempt, changed, cancelled,
  find_entry, delete_entry, contains, is_accepted, open_request, close_request, resolve, step, run,
  receive, wait, make_target, same_target, guard,
}
use go_agent_claw.Approval.Approved.{IsNew, IsApproved, guard-IsApproved}

abbrev answer : String → Bool → ℕ → Answer
answer who allow now = record {
  chat_id = "g1";
  approver = who;
  id = "r1";
  allow = allow;
  now = now;
}

abbrev other : Request
other = record {
  target = record {
    chat_id = "g1";
    actor_id = "amy";
    action_id = "a2";
    tool = "bash";
    path = "/w";
    before = "v";
    after = "";
    digest = "d2";
  };
  approvers = "bob" ∷ [];
  expires = 9;
}

abbrev waiting : Waiting
waiting = record {
  id = "r1";
  expiry = 5;
  cancelled_before = false;
  notify_fails = false;
  meanwhile = answers (answer "eve" true 1) ∷ opens "r2" other ∷ answers (answer "bob" true 2) ∷ [];
  done_first = false;
  cancelled_after = false;
}

abbrev look : String → Look
look version = record {
  preview = some ("f", version, "v1");
  version = none;
  digest = λ t. some "d1";
}

abbrev binding : Binding
binding = record { work_dir = "/w"; mode = "workspace"; approvers = "bob" ∷ [] }

abbrev attempt : Attempt
attempt = record {
  work_dir = "/w";
  mode = "workspace";
  cancelled = false;
  action_id = "a1";
  first = look "v0";
  second = look "v0";
  waiting = waiting;
}

abbrev call : ToolCall
call = record { id = "c1"; name = "write_file"; arguments = [] }

abbrev empty : Manager
empty = record { pending = []; decisions = [] }

-- A file that changes after the request, and an answer that comes too late, stop the call.
guard_decides :
    ((guard "g1" "amy" binding attempt call empty).1 ≡ none)
    × ((guard "g1" "amy" binding (record attempt { second = look "v2" }) call empty).1
        ≡ some changed)
    × ((guard "g1" "amy" binding
          (record attempt { waiting = record waiting { expiry = 2 } })
          call
          empty).1
        ≡ some cancelled)
unfolding guard wait open_request close_request run step resolve find_entry delete_entry contains
    is_accepted receive make_target same_target is_read_only
guard_decides = (refl, refl, refl)

waiting-IsNew : IsNew waiting empty
unfolding find_entry
waiting-IsNew = record { undecided = refl; foreign = (tt, (refl, (tt, tt))) }

guard-IsApproved_example :
    (attempt.work_dir ≡ binding.work_dir)
    × (attempt.mode ≡ binding.mode)
    × ((is_read_only call.name ≡ true)
        ⊎ (call.name ≡ "spawn_subagent")
        ⊎ IsApproved "g1" "amy" binding attempt call)
guard-IsApproved_example =
    guard-IsApproved "g1" "amy" binding attempt call empty waiting-IsNew guard_decides.0
