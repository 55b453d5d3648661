-- ===== src/Effects/Reconcile.antt =====
-- reconcile of internal/engine/persistence.go: after a crash, each pending action is settled by the version
-- that its file has now. `version_of` is tools.FileVersion, `none` if the file cannot be read; `saves` says
-- whether the event of an action is saved. Progress notes are left out.
use go_agent_claw.Prelude.{
  Bool, ◌||◌, Option, none, some, List, [], ◌∷◌, String, if◌then◌else◌, str_eq, Result, ok, err,
}
use go_agent_claw.Effects.{
  EffectReceipt, EffectState, PendingAction, effect_confirmed, effect_none, set_effect,
  effect_receipt,
}

-- How the pass ends: `unknown_action`, `unreadable` and `changed` are the messages for a person.
pub data Outcome : Type 0 where
  reconciled storage_failed : Outcome
  unknown_action unreadable changed : String → Outcome

unfoldable pub delete_pending :
    String → List (String × PendingAction) → List (String × PendingAction)
delete_pending id [] = []
delete_pending id ((k, a) ∷ pending) =
    let later = delete_pending id pending in if str_eq k id then later else (k, a) ∷ later

abbrev pub untouched : String → PendingAction → EffectReceipt
untouched id p = record {
  action_id = id;
  tool = p.tool;
  status = "";
  effect = effect_none;
  file = none;
}

-- The function that `record` applies, for a file that has the expected version or the one from before.
unfoldable pub settle : String → PendingAction → Bool → EffectState → EffectState
unfolding delete_pending effect_receipt
settle id p is_expected s =
    if is_expected
    then set_effect (effect_receipt p "SUCCEEDED" effect_confirmed)
        (record s { pending = delete_pending id s.pending; completed = p.action_key ∷ s.completed })
    else set_effect (untouched id p) (record s { pending = delete_pending id s.pending })

-- What the version of the file says: whether it is the expected one, or why a person must look.
unfoldable pub judge : (String → Option String) → String → PendingAction → Result Outcome Bool
judge version_of id p = elim p.before [
  | none ↦ err (unknown_action id)
  | some before ↦ elim p.expected [
    | none ↦ err (unknown_action id)
    | some expected ↦ elim (version_of before.path) [
      | none ↦ err (unreadable id)
      | some version ↦
          if str_eq version expected.version || str_eq version before.version
          then ok (str_eq version expected.version)
          else err (changed id)
    ]
  ]
]

unfoldable pub reconcile :
    (String → Option String)
    → (String → Bool)
    → List (String × PendingAction)
    → EffectState
    → EffectState × Outcome
unfolding judge settle
reconcile version_of saves [] s = (s, reconciled)
reconcile version_of saves ((id, p) ∷ todo) s = elim (judge version_of id p) [
  | err x ↦ (s, x)
  | ok is_expected ↦
      if saves id
      then reconcile version_of saves todo (settle id p is_expected s)
      else (settle id p is_expected s, storage_failed)
]
