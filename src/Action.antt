-- ===== src/Action.antt =====
-- internal/engine/execution.go: one action of the agent. `Execute.execute_action` is AgentEngine.execute: it reserves a tool
-- call in the budget (Budget), runs the call through the registry (Tools) with the hook that records a write
-- before it starts, and records its receipt (Effects). `journal` holds the states that the event log has saved,
-- the newest first. What a run remembers of reads and discoveries, and its notes, is a state `M` of its own. The
-- names and versions of a write (PreviewWrite, FileVersion), the refusal of a repeated read, what is noted on a
-- result of a read, and the storage of a long output are parameters.
pub mod Execute
pub mod Started
pub mod Recalled
pub mod Known
pub mod Settled
mod Tests
use go_agent_claw.Prelude.{
  ℕ, Bool, true, false, not, ◌&&◌, ◌||◌, Option, none, some, List, [], ◌∷◌, String, if◌then◌else◌,
  str_eq, Result, ok, err,
}
use go_agent_claw.Budget.{RunState, Moment, Denial, storage, tool, reserve, record_event}
use go_agent_claw.Budget.{cancelled as cancelled_denial}
use go_agent_claw.Effects.{
  EffectStatus, effect_none, effect_confirmed, effect_unknown, EffectState, PendingAction,
  FileState, EffectReceipt, set_effect, effect_receipt, is_confirmed,
}
use go_agent_claw.Effects.Reconcile.{delete_pending}
use go_agent_claw.Session.{ToolCall}
use go_agent_claw.Tools.{
  ToolStatus, status_empty, succeeded, rejected, failed, cancelled, ToolResult, ContextError,
  is_success,
}
use go_agent_claw.Tools.Scope.{ExecutionScope}
use go_agent_claw.Tools.Registry.{Tool, Verdict, Env, execute}
use go_agent_claw.Turn.{empty_result}

pub record ActionRecord : Type 0 where
  pub id : String
  pub tool : String
  pub step_id : String
  pub digest : String
  pub result : ToolResult

-- The effects, the results of Completed, whether Verification is set, and LastAction of a taskState.
pub record ActionState : Type 0 where
  pub effects : EffectState
  pub completed : List (String × ToolResult)
  pub verified : Bool
  pub last_action : Option ActionRecord

pub record Run (M : Type 0) : Type 0 where
  pub budget : RunState
  pub actions : ActionState
  pub resume_receipts : List (String × ToolResult)
  pub memory : M
  pub journal : List ActionState

-- The variables that execute shares with its hook.
pub record Attempt : Type 0 where
  pub pending : PendingAction
  pub started : Bool
  pub start_error : Option Denial

-- What the tools and the hook work on.
pub record World (M O : Type 0) : Type 0 where
  pub run : Run M
  pub attempt : Attempt
  pub outside : O

-- runState.record on the state of the actions.
unfoldable pub record_action :
    {M : Type 0}
    → Moment
    → (ActionState → Result Denial ActionState)
    → Run M
    → Run M × Result Denial (Unit {0})
unfolding record_event
record_action m apply run = elim (apply run.actions) [
  | err e ↦ (run, err e)
  | ok actions ↦
      let (budget, saved) = record_event m (λ s. ok s) run.budget in
      (
        record run {
          budget = budget;
          actions = actions;
          journal = if m.persist_fails then run.journal else actions ∷ run.journal;
        },
        saved,
      )
]

pub record Preview : Type 0 where
  pub path : String
  pub before : String
  pub after : String

pub data Storing : Type 0 where
  not_stored storing_failed : Storing
  stored : List ℕ → Storing

-- The surroundings of one action.
pub record ActionEnv (M O : Type 0) : Type 0 where
  pub look : World M O → World M O × Option ContextError
  pub tools : String → Option (Tool (World M O))
  pub middlewares : List (World M O → ToolCall → World M O × Verdict)
  pub scope : ExecutionScope
  pub at_reserve : Moment
  pub at_start : Moment
  pub at_result : Moment
  pub action_id : String
  pub key : String
  pub preview : World M O → ToolCall → Option Preview
  pub file_version : World M O → String → Option String
  pub describe : Denial → List ℕ
  pub duplicate_read : World M O → ToolCall → Option ToolResult
  pub annotate : World M O → ToolResult → World M O × ToolResult × Option Denial
  pub store_output : World M O → ToolResult → Storing
  pub remember : Attempt → ToolCall → ToolResult → M → M

unfoldable pub is_mutation : String → Bool
is_mutation name = str_eq name "write_file" || str_eq name "edit_file" || str_eq name "bash"

abbrev pub previewed : Option Preview → PendingAction → PendingAction
previewed none p = p
previewed (some v) p = record p {
  before = some (record { path = v.path; version = v.before });
  expected = some (record { path = v.path; version = v.after });
}

abbrev pub started_receipt : String → String → EffectReceipt
started_receipt id name = record {
  action_id = id;
  tool = name;
  status = "";
  effect = effect_unknown;
  file = none;
}

unfoldable pub put_pending :
    String → PendingAction → List (String × PendingAction) → List (String × PendingAction)
put_pending id p [] = (id, p) ∷ []
put_pending id p ((k, a) ∷ pending) =
    let later = put_pending id p pending in
    if str_eq k id then (id, p) ∷ pending else (k, a) ∷ later

-- What action_started records.
unfoldable pub start :
    Bool → String → String → PendingAction → ActionState → Result Denial ActionState
unfolding set_effect put_pending
start interrupted id name p s =
    if interrupted
    then err cancelled_denial
    else ok (record s {
      effects =
          set_effect (started_receipt id name)
            (record s.effects { pending = put_pending id p s.effects.pending });
      verified = false;
    })

abbrev pub is_error : {A : Type 0} → Result Denial A → Option Denial
is_error (ok a) = none
is_error (err e) = some e

abbrev pub is_none : {A : Type 0} → Option A → Bool
is_none none = true
is_none (some a) = false

module _ {M O : Type 0} (env : ActionEnv M O) (call : ToolCall) where
  -- The hook of a write.
  unfoldable pub start_hook : World M O → World M O × Option (List ℕ)
  unfolding record_action start
  start_hook w =
      let p =
        if str_eq call.name "bash"
        then w.attempt.pending
        else previewed (env.preview w call) w.attempt.pending in
      let (run, saved) =
        record_action env.at_start (start env.at_start.cancelled_inside env.action_id call.name p)
          w.run in
      (
        record w {
          run = run;
          attempt = record {
            pending = p;
            started = is_none (is_error saved);
            start_error = is_error saved;
          };
        },
        elim (is_error saved) [ none ↦ none | some e ↦ some (env.describe e) ],
      )

  abbrev pub registry_env : Env (World M O)
  registry_env = record {
    look = env.look;
    tools = env.tools;
    middlewares = env.middlewares;
    hook = if is_mutation call.name then some start_hook else none;
    scope = env.scope;
  }
