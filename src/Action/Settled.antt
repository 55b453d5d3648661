-- ===== src/Action/Settled.antt =====
-- What AgentEngine.execute (internal/engine/execution.go) has recorded when it returns.
use go_agent_claw.Prelude.{◌≡◌, ◌⊎◌, Bool, true, false, none, some, List, ◌∷◌, String}
use go_agent_claw.Budget.{reserve, tool}
use go_agent_claw.Effects.{effect_receipt}
use go_agent_claw.Effects.Ledger.{find_effect, effects_of}
use go_agent_claw.Effects.Report.{find_pending}
use go_agent_claw.Session.{ToolCall}
use go_agent_claw.Tools.{ToolResult}
use go_agent_claw.Action.{ActionState, ActionEnv, World, is_mutation}
use go_agent_claw.Action.Known.{IsKnown}
use go_agent_claw.Action.Recalled.{IsRecalled}
use go_agent_claw.Action.Execute.{Acted, status_text}

-- The saved state has no pending entry of the action, and the action's receipt where it was started; what the
-- action did is known.
pub record IsSettled {M O : Type 0} (mutation verifier : Bool) (r : ToolResult) (w : World M O)
    : Type 0 where
  pub earlier : List ActionState
  pub newest : w.run.journal ≡ w.run.actions ∷ earlier
  pub gone : find_pending w.attempt.pending.id w.run.actions.effects.pending ≡ none
  pub receipt :
      (w.attempt.started ≡ false)
      ⊎ (find_effect w.attempt.pending.id (effects_of w.run.actions.effects)
          ≡ some (effect_receipt w.attempt.pending (status_text r.status) r.effect))
  pub known : IsKnown mutation verifier r

module _ {M O : Type 0} (env : ActionEnv M O) (call : ToolCall) (step_id : String)
    (verifier : Bool) where
  -- The result that is returned without an error is settled in a state that the log has saved.
  abbrev pub Ends : Acted M O → Type 0
  Ends a =
      (recorded : World M O) × (env.look recorded ≡ (a.world, none))
      × IsSettled (is_mutation call.name) verifier a.result recorded

-- The result of an earlier action with the same request stands in place of a new one: the call is a write and no
-- verifier's, and the run has the result when the call is charged and the events of others are seen.
pub record Reuses {M O : Type 0} (env : ActionEnv M O) (call : ToolCall) (step_id : String)
    (verifier : Bool) (w : World M O) (a : Acted M O) : Type 0 where
  pub writes : is_mutation call.name ≡ true
  pub acting : verifier ≡ false
  pub seen :
      env.look
        (record w { run = record w.run { budget = (reserve env.at_reserve tool w.run.budget).0 } })
      ≡ (a.world, none)
  pub earlier : ToolResult
  pub found : IsRecalled env.key step_id a.world.run earlier
  pub renamed : a.result ≡ record earlier { tool_call_id = call.id }
