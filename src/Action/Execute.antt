-- ===== src/Action/Execute.antt =====
-- AgentEngine.execute of internal/engine/execution.go, from the reservation to the recorded result.
use go_agent_claw.Prelude.{
  Bool, true, false, not, ◌&&◌, ◌||◌, Option, none, some, List, [], ◌∷◌, String, if◌then◌else◌,
  str_eq, ok,
}
use go_agent_claw.Budget.{Denial, storage, tool, reserve}
use go_agent_claw.Effects.{
  EffectStatus, effect_none, effect_confirmed, effect_unknown, PendingAction, set_effect,
  effect_receipt, is_confirmed,
}
use go_agent_claw.Effects.Reconcile.{delete_pending}
use go_agent_claw.Session.{ToolCall}
use go_agent_claw.Tools.{
  ToolStatus, status_empty, succeeded, rejected, failed, cancelled, ToolResult, ContextError,
  is_success,
}
use go_agent_claw.Tools.Registry.{execute}
use go_agent_claw.Turn.{empty_result}
use go_agent_claw.Action.{
  ActionState, Run, Attempt, World, record_action, ActionEnv, is_mutation, is_error, is_none,
  registry_env, not_stored, storing_failed, stored,
}

unfoldable pub find_result : String → List (String × ToolResult) → Option ToolResult
find_result k [] = none
find_result k ((j, r) ∷ results) = if str_eq j k then some r else find_result k results

unfoldable pub put_result :
    String → ToolResult → List (String × ToolResult) → List (String × ToolResult)
put_result k r [] = (k, r) ∷ []
put_result k r ((j, old) ∷ results) =
    let later = put_result k r results in if str_eq j k then (k, r) ∷ results else (j, old) ∷ later

-- The result of an earlier run of the same write.
unfoldable pub previous_result : {M : Type 0} → String → String → Run M → Option ToolResult
unfolding find_result
previous_result key step_id run = elim (find_result key run.resume_receipts) [
  | some r ↦ some r
  | none ↦ if str_eq step_id "" then none else find_result key run.actions.completed
]

abbrev pub is_unknown : EffectStatus → Bool
is_unknown effect_unknown = true
is_unknown _ = false

abbrev pub is_failure : ToolStatus → Bool
is_failure failed = true
is_failure _ = false

abbrev pub status_text : ToolStatus → String
status_text status_empty = ""
status_text succeeded = "SUCCEEDED"
status_text rejected = "REJECTED"
status_text failed = "FAILED"
status_text cancelled = "CANCELLED"

-- Whether what a call did is not known.
unfoldable pub is_uncertain : Bool → Bool → ToolResult → Bool
is_uncertain mutation verifier r =
    mutation
    && is_unknown r.effect
    && not (is_success r.status)
    && not (verifier && not (is_none r.exit_code) && is_failure r.status)

-- The version of the file settles what is not known. Both states of a file are always set together.
unfoldable pub resolve :
    (String → Option String) → PendingAction → Bool → ToolResult → ToolResult × Bool
resolve version p false r = (r, false)
resolve version p true r = elim p.before [
  | none ↦ (r, true)
  | some before ↦ elim (version before.path) [
    | none ↦ (r, true)
    | some v ↦ elim p.expected [
      | none ↦ (r, true)
      | some expected ↦
          if str_eq v expected.version
          then (record r { effect = effect_confirmed }, false)
          else if str_eq v before.version
          then (record r { effect = effect_none }, false)
          else (r, true)
    ]
  ]
]

-- What action_result records of the actions.
unfoldable pub settle_action :
    Attempt → Bool → Bool → Bool → String → String → String → ToolResult → ActionState → ActionState
unfolding set_effect effect_receipt delete_pending put_result
settle_action a mutation verifier uncertain name key step_id r s =
    let receipt = effect_receipt a.pending (status_text r.status) r.effect in
    let effects = if a.started then set_effect receipt s.effects else s.effects in
    let completes = mutation && not verifier && (is_success r.status || is_confirmed r.effect) in
    record {
      effects = record effects {
        pending =
            if uncertain then effects.pending else delete_pending a.pending.id effects.pending;
        completed = if completes then key ∷ effects.completed else effects.completed;
      };
      completed = if completes then put_result key r s.completed else s.completed;
      verified = s.verified;
      last_action =
          some (record {
            id = a.pending.id;
            tool = name;
            step_id = step_id;
            digest = key;
            result = r;
          });
    }

pub data ActionError : Type 0 where
  denied : Denial → ActionError
  interrupted : ContextError → ActionError
  unsaved_output unsettled : ActionError

pub record Acted (M O : Type 0) : Type 0 where
  pub world : World M O
  pub result : ToolResult
  pub error : Option ActionError

abbrev pub acted : {M O : Type 0} → World M O → ToolResult → Option ActionError → Acted M O
acted w r e = record { world = w; result = r; error = e }

module _ {M O : Type 0} (env : ActionEnv M O) (call : ToolCall) (step_id : String)
    (verifier : Bool) where
  -- The event action_result, and what follows it.
  unfoldable pub record_result : World M O → ToolResult → Bool → Acted M O
  unfolding record_action settle_action
  record_result w r uncertain =
      let settled =
        settle_action w.attempt (is_mutation call.name) verifier uncertain call.name env.key step_id
          r in
      let memory = env.remember w.attempt call r w.run.memory in
      let (run, saved) =
        record_action env.at_result (λ s. ok (settled s)) (record w.run { memory = memory }) in
      let (last, seen) = env.look (record w { run = run }) in
      elim (is_error saved) [
        | some d ↦ acted (record w { run = run }) r (some (denied d))
        | none ↦ elim seen [
          | some e ↦ acted last r (some (interrupted e))
          | none ↦ acted last r (if uncertain then some unsettled else none)
        ]
      ]

  -- A long output that cannot be stored leaves its receipt, and stops the run.
  unfoldable pub leave_unsaved : World M O → ToolResult → Acted M O
  unfolding set_effect effect_receipt
  leave_unsaved w r =
      let receipt = effect_receipt w.attempt.pending (status_text r.status) r.effect in
      let effects = w.run.actions.effects in
      acted
        (record w {
          run = record w.run {
            budget = record w.run.budget { fatal_storage = true };
            actions = record w.run.actions {
              effects = if w.attempt.started then set_effect receipt effects else effects;
            };
          };
        })
        r (some unsaved_output)

  -- What follows the call.
  unfoldable pub conclude : World M O → ToolResult → Acted M O
  unfolding is_uncertain resolve record_result leave_unsaved
  conclude w r =
      let (w', noted, failure) = env.annotate w r in
      elim failure [
        | some d ↦ acted w' noted (some (denied d))
        | none ↦
            if w'.run.budget.fatal_storage
            then acted w' noted (some (denied storage))
            else elim w'.attempt.start_error [
              | some d ↦ acted w' noted (some (denied d))
              | none ↦
                  let uncertain = is_uncertain (is_mutation call.name) verifier noted in
                  let (judged, open_end) =
                    resolve (env.file_version w') w'.attempt.pending uncertain noted in
                  elim (env.store_output w' judged) [
                    | not_stored ↦ record_result w' judged open_end
                    | stored output ↦ record_result w' (record judged { output = output }) open_end
                    | storing_failed ↦ leave_unsaved w' judged
                  ]
            ]
      ]

  abbrev pub fresh_attempt : Attempt
  fresh_attempt = record {
    pending = record {
      id = env.action_id;
      action_key = env.key;
      tool = call.name;
      before = none;
      expected = none;
    };
    started = false;
    start_error = none;
  }

  -- The call itself, unless it repeats a read.
  unfoldable pub run_call : World M O → World M O × ToolResult
  unfolding execute
  run_call w = elim (env.duplicate_read w call) [
    | some refusal ↦ (w, refusal)
    | none ↦ let e = execute (registry_env env call) call w in (e.world, e.result)
  ]

  unfoldable pub execute_action : World M O → Acted M O
  unfolding reserve is_mutation previous_result run_call conclude
  execute_action w =
      let (budget, admitted) = reserve env.at_reserve tool w.run.budget in
      let reserved = record w { run = record w.run { budget = budget } } in
      let (looked, seen) = env.look reserved in
      let (called, result) = run_call (record looked { attempt = fresh_attempt }) in
      elim (is_error admitted) [
        | some d ↦ acted reserved empty_result (some (denied d))
        | none ↦ elim seen [
          | some e ↦ acted looked empty_result (some (interrupted e))
          | none ↦
              elim (if is_mutation call.name && not verifier
                then previous_result env.key step_id looked.run
                else none) [
                  | some r ↦ acted looked (record r { tool_call_id = call.id }) none
                  | none ↦ conclude called result
                ]
        ]
      ]
