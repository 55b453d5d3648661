-- ===== src/Action/Started.antt =====
-- What the event log holds when a write of AgentEngine.execute (internal/engine/execution.go) starts.
use go_agent_claw.Prelude.{
  ◌≡◌, ◌≢◌, ◌⊎◌, refl, ap, ◌∙◌, subst, inl, inr, true, false, none, some, List, [], ◌∷◌, String,
  arith, Bool-cases, Option-cases, if◌then◌else◌, str_eq, eq_iff,
}
use go_agent_claw.Budget.{record_event}
use go_agent_claw.Effects.{PendingAction, set_effect}
use go_agent_claw.Effects.Ledger.{find_effect, effects_of, set_effect-IsRecorded}
use go_agent_claw.Effects.Report.{find_pending}
use go_agent_claw.Session.{ToolCall}
use go_agent_claw.Tools.Registry.{Tool, execute}
use go_agent_claw.Tools.Admitted.{Runs, execute-IsAdmitted}
use go_agent_claw.Tools.Steps.{IsRecorded, Admission}
use go_agent_claw.Action.{
  ActionState, ActionEnv, World, record_action, start, start_hook, registry_env, is_mutation,
  put_pending, started_receipt, previewed, Preview,
}

find_pending-put_pending :
    (id : String) (p : PendingAction) (pending : List (String × PendingAction))
    → find_pending id (put_pending id p pending) ≡ some p
unfolding find_pending put_pending
find_pending-put_pending id p [] = ground (arith, eq_iff id id)
find_pending-put_pending id p ((k, a) ∷ pending) =
    ground (arith, eq_iff k id, eq_iff id id, find_pending-put_pending id p pending)

-- The newest saved state says that the action of this attempt is pending, and that its effect is not known.
pub record IsSaved {M O : Type 0} (env : ActionEnv M O) (name : String) (w : World M O)
    : Type 0 where
  pub state : ActionState
  pub earlier : List ActionState
  pub newest : w.run.journal ≡ state ∷ earlier
  pub pending : find_pending env.action_id state.effects.pending ≡ some w.attempt.pending
  pub unknown :
      find_effect env.action_id (effects_of state.effects)
      ≡ some (started_receipt env.action_id name)
  pub unverified : state.verified ≡ false
  pub started : w.attempt.started ≡ true

module _ {M O : Type 0} (env : ActionEnv M O) (call : ToolCall) where
  start_hook-IsSaved :
      (w : World M O) {w' : World M O}
      → start_hook env call w ≡ (w', none)
      → IsSaved env call.name w'
  unfolding start_hook record_action record_event start
  start_hook-IsSaved w {w'} h = elim (Bool-cases env.at_start.cancelled_inside) [
    | inl e ↦ absurd (ground (arith, e, h))
    | inr e ↦ elim (Bool-cases env.at_start.persist_fails) [
      | inl f ↦ absurd (ground (arith, e, f, h))
      | inr f ↦
          let p =
            if str_eq call.name "bash"
            then w.attempt.pending
            else previewed (env.preview w call) w.attempt.pending in
          let before = record w.run.actions.effects {
            pending = put_pending env.action_id p w.run.actions.effects.pending;
          } in
          let effects = set_effect (started_receipt env.action_id call.name) before in
          let recorded = set_effect-IsRecorded (started_receipt env.action_id call.name) before in
          let same : p ≡ w'.attempt.pending = ground (arith, e, f, h) in
          record {
            state = record w.run.actions { effects = effects; verified = false };
            earlier = w.run.journal;
            newest = ground (arith, e, f, h);
            pending =
                find_pending-put_pending env.action_id p w.run.actions.effects.pending
                ∙ ap some same;
            unknown = recorded.own;
            unverified = refl;
            started = ground (arith, e, f, h);
          }
    ]
  ]

-- The pending action is that of the attempt, with the versions that a preview in the world `checked` finds, unless
-- the call is a command or there is no preview.
pub record IsFound {M O : Type 0} (env : ActionEnv M O) (call : ToolCall) (checked : World M O)
    (found : PendingAction) : Type 0 where
  pub same_id : found.id ≡ checked.attempt.pending.id
  pub same_key : found.action_key ≡ checked.attempt.pending.action_key
  pub same_tool : found.tool ≡ checked.attempt.pending.tool
  pub without :
      (call.name ≡ "bash") ⊎ (env.preview checked call ≡ none) → found ≡ checked.attempt.pending
  pub previewed_before :
      (v : Preview)
      → call.name ≢ "bash"
      → env.preview checked call ≡ some v
      → found.before ≡ some (record { path = v.path; version = v.before })
  pub previewed_after :
      (v : Preview)
      → call.name ≢ "bash"
      → env.preview checked call ≡ some v
      → found.expected ≡ some (record { path = v.path; version = v.after })

module _ {M O : Type 0} (env : ActionEnv M O) (call : ToolCall) where
  previewed-IsFound :
      (w : World M O)
      → IsFound env call w (
          if str_eq call.name "bash"
          then w.attempt.pending
          else previewed (env.preview w call) w.attempt.pending)
  previewed-IsFound w = record {
    same_id =
        ground (arith, Bool-cases (str_eq call.name "bash"), Option-cases (env.preview w call));
    same_key =
        ground (arith, Bool-cases (str_eq call.name "bash"), Option-cases (env.preview w call));
    same_tool =
        ground (arith, Bool-cases (str_eq call.name "bash"), Option-cases (env.preview w call));
    without = λ h. ground (arith, h, eq_iff call.name "bash");
    previewed_before = λ v other h. ground (arith, other, h, eq_iff call.name "bash");
    previewed_after = λ v other h. ground (arith, other, h, eq_iff call.name "bash");
  }

  start_hook-IsFound :
      (w : World M O) {w' : World M O}
      → start_hook env call w ≡ (w', none)
      → IsFound env call w w'.attempt.pending
  unfolding start_hook
  start_hook-IsFound w {w'} h = subst (IsFound env call w) (ground (arith, h)) (previewed-IsFound w)

-- A handler that runs behind a saved state: the call was admitted, the state was saved in the world `recorded` of its
-- admission, from what was found in the world `checked` in which the hook started, and the handler runs in `end`.
pub record StartsSaved {M O : Type 0} (env : ActionEnv M O) (call : ToolCall) (w : World M O)
    : Type 0 where
  pub tool : Tool (World M O)
  pub end : World M O
  pub admission : Admission (registry_env env call) call w tool end
  pub found : IsFound env call admission.checked admission.recorded.attempt.pending
  pub saved : IsSaved env call.name admission.recorded
  pub looked : env.look admission.recorded ≡ (end, none)
  pub runs : Runs (registry_env env call) call tool end (execute (registry_env env call) call w)

-- When the handler of a write, an edit or a command starts, the event log already holds a state in which the
-- action is pending, with the versions before and after that its preview found when the call had passed every check
-- (a command and a call without a preview have none to find), its effect is listed as unknown, and no verification
-- counts any more; the handler runs in that world, but for what others do while the context is read.
pub execute-StartsSaved :
    {M O : Type 0} (env : ActionEnv M O) (call : ToolCall) (w : World M O)
    → is_mutation call.name ≡ true
    → (execute (registry_env env call) call w).handler_started ≡ true
    → StartsSaved env call w
execute-StartsSaved env call w writes started =
    let (tool, end, a, runs) = (execute-IsAdmitted (registry_env env call) call w).0 started in
    let hook : (if is_mutation call.name then some (start_hook env call) else none)
        ≡ some (start_hook env call) =
      ground (arith, writes) in
    let written = subst (λ h. IsRecorded h a.checked a.recorded) hook a.written in
    record {
      tool = tool;
      end = end;
      admission = a;
      found = start_hook-IsFound env call a.checked written;
      saved = start_hook-IsSaved env call a.checked written;
      looked = a.open_after;
      runs = runs;
    }
