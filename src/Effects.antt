-- ===== src/Effects.antt =====
-- internal/engine/delivery.go: the ledger of the effects of actions, and the delivery that a run reports.
-- `Pending` is an association list in the order of its keys, in which deliveryFromState lists them. Of the
-- states of files only path and version are kept, and of a pending call its tool's name.
pub mod Ledger
pub mod Report
pub mod Reconcile
pub mod Settlement
mod Tests
use go_agent_claw.Prelude.{
  ℕ, Bool, true, false, not, ◌&&◌, ◌||◌, Option, none, some, List, [], ◌∷◌, ◌++◌, String,
  if◌then◌else◌, str_eq,
}

pub data EffectStatus : Type 0 where
  effect_none effect_confirmed effect_unknown : EffectStatus

pub record FileEffect : Type 0 where
  pub path : String
  pub before_version : String
  pub after_version : String

-- The status is "" where the source leaves it out.
pub record EffectReceipt : Type 0 where
  pub action_id : String
  pub tool : String
  pub status : String
  pub effect : EffectStatus
  pub file : Option FileEffect

pub record Delivery : Type 0 where
  pub history_complete : Bool
  pub effects : List EffectReceipt

pub record FileState : Type 0 where
  pub path : String
  pub version : String

-- `action_key` is the actionKey of its step and call.
pub record PendingAction : Type 0 where
  pub id : String
  pub action_key : String
  pub tool : String
  pub before : Option FileState
  pub expected : Option FileState

-- The effect ledger, the pending actions and the keys of Completed of a taskState.
pub record EffectState : Type 0 where
  pub effect_ledger : Option Delivery
  pub pending : List (String × PendingAction)
  pub completed : List String

unfoldable pub put_effect : EffectReceipt → List EffectReceipt → List EffectReceipt
put_effect receipt [] = receipt ∷ []
put_effect receipt (e ∷ effects) =
    let later = put_effect receipt effects in
    if str_eq e.action_id receipt.action_id then receipt ∷ effects else e ∷ later

abbrev pub ledger_of : Option Delivery → Delivery
ledger_of none = record { history_complete = false; effects = [] }
ledger_of (some d) = d

unfoldable pub set_effect : EffectReceipt → EffectState → EffectState
unfolding put_effect
set_effect receipt s = record s {
  effect_ledger = some (record (ledger_of s.effect_ledger) {
    effects = put_effect receipt (ledger_of s.effect_ledger).effects;
  });
}

unfoldable pub is_seen : String → List EffectReceipt → Bool
is_seen id [] = false
is_seen id (e ∷ effects) = str_eq e.action_id id || is_seen id effects

abbrev pub unknown_effect : String → String → EffectReceipt
unknown_effect id tool = record {
  action_id = id;
  tool = tool;
  status = "";
  effect = effect_unknown;
  file = none;
}

-- The pending actions that have no receipt.
unfoldable pub unseen_pending :
    List EffectReceipt → List (String × PendingAction) → List EffectReceipt
unfolding is_seen
unseen_pending seen [] = []
unseen_pending seen ((id, action) ∷ pending) =
    let later = unseen_pending seen pending in
    if is_seen id seen then later else unknown_effect id action.tool ∷ later

unfoldable pub delivery_from_state : EffectState → Delivery
unfolding unseen_pending
delivery_from_state s =
    let ledger = ledger_of s.effect_ledger in
    record {
      history_complete = ledger.history_complete;
      effects = ledger.effects ++ unseen_pending ledger.effects s.pending;
    }

abbrev pub file_effect : PendingAction → Option FileEffect
file_effect p = elim p.before [
  | none ↦ none
  | some before ↦ elim p.expected [
    | none ↦ none
    | some expected ↦
        if str_eq p.tool "write_file" || str_eq p.tool "edit_file"
        then some (record {
          path = before.path;
          before_version = before.version;
          after_version = expected.version;
        })
        else none
  ]
]

abbrev pub is_confirmed : EffectStatus → Bool
is_confirmed effect_confirmed = true
is_confirmed _ = false

unfoldable pub effect_receipt : PendingAction → String → EffectStatus → EffectReceipt
effect_receipt p status effect = record {
  action_id = p.id;
  tool = p.tool;
  status = status;
  effect = effect;
  file = if is_confirmed effect then file_effect p else none;
}
