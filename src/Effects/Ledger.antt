-- ===== src/Effects/Ledger.antt =====
-- setEffect of internal/engine/delivery.go: one receipt for each action.
use go_agent_claw.Prelude.{
  ◌≡◌, refl, inl, inr, false, Option, none, some, List, [], ◌∷◌, ◌++◌, String, arith, Bool-cases,
  if◌then◌else◌, str_eq, eq_iff,
}
use go_agent_claw.Effects.{EffectReceipt, EffectState, put_effect, set_effect, ledger_of, is_seen}

-- The first receipt of an action.
unfoldable pub find_effect : String → List EffectReceipt → Option EffectReceipt
find_effect id [] = none
find_effect id (e ∷ effects) = if str_eq e.action_id id then some e else find_effect id effects

abbrev pub action_ids : List EffectReceipt → List String
action_ids [] = []
action_ids (e ∷ effects) = e.action_id ∷ action_ids effects

find_effect-put_effect :
    (id : String) (r : EffectReceipt) (es : List EffectReceipt)
    → find_effect id (put_effect r es)
      ≡ (if str_eq r.action_id id then some r else find_effect id es)
unfolding find_effect put_effect
find_effect-put_effect id r [] = refl
find_effect-put_effect id r (e ∷ es) = elim (Bool-cases (str_eq e.action_id r.action_id)) [
  | inl t ↦
      let same : e.action_id ≡ r.action_id = ground (arith, t, eq_iff e.action_id r.action_id) in
      ground (arith, t, same, find_effect)
  | inr f ↦ elim (Bool-cases (str_eq e.action_id id)) [
    | inl t ↦
        ground (
          arith,
          f,
          t,
          eq_iff e.action_id id,
          eq_iff r.action_id id,
          eq_iff e.action_id r.action_id,
        )
    | inr g ↦ ground (arith, f, g, find_effect-put_effect id r es)
  ]
]

action_ids-put_effect :
    (r : EffectReceipt) (es : List EffectReceipt)
    → action_ids (put_effect r es)
      ≡ (if is_seen r.action_id es then action_ids es else action_ids es ++ r.action_id ∷ [])
unfolding put_effect is_seen
action_ids-put_effect r [] = refl
action_ids-put_effect r (e ∷ es) = elim (Bool-cases (str_eq e.action_id r.action_id)) [
  | inl t ↦ ground (arith, t, eq_iff e.action_id r.action_id)
  | inr f ↦ elim (Bool-cases (is_seen r.action_id es)) [
    | inl seen ↦ ground (arith, f, seen, action_ids-put_effect r es)
    | inr new ↦ ground (arith, f, new, action_ids-put_effect r es)
  ]
]

abbrev pub effects_of : EffectState → List EffectReceipt
effects_of s = (ledger_of s.effect_ledger).effects

-- What setEffect did to the ledger: the action has the new receipt and every other action the one it had;
-- the order of the actions stays, with a new action at the end; the mark of a complete history stays, and
-- a ledger that was missing has none.
pub record IsRecorded (r : EffectReceipt) (s after : EffectState) : Type 0 where
  pub own : find_effect r.action_id (effects_of after) ≡ some r
  pub others :
      (id : String)
      → str_eq r.action_id id ≡ false
      → find_effect id (effects_of after) ≡ find_effect id (effects_of s)
  pub order : action_ids (effects_of after) ≡ (
      if is_seen r.action_id (effects_of s)
      then action_ids (effects_of s)
      else action_ids (effects_of s) ++ r.action_id ∷ [])
  pub history :
      (ledger_of after.effect_ledger).history_complete
      ≡ (ledger_of s.effect_ledger).history_complete
  pub pending : after.pending ≡ s.pending

-- On every ledger, and also where it is missing, setEffect gives the action the new receipt and leaves each
-- other action's; the order of the actions stays, with a new action at the end; whether the history is
-- complete stays as it was, and a missing ledger counts as incomplete.
pub set_effect-IsRecorded : (r : EffectReceipt) (s : EffectState) → IsRecorded r s (set_effect r s)
unfolding set_effect
set_effect-IsRecorded r s = record {
  own =
      ground (
        arith,
        find_effect-put_effect r.action_id r (effects_of s),
        eq_iff r.action_id r.action_id,
      );
  others = λ id h. ground (arith, find_effect-put_effect id r (effects_of s), h);
  order = action_ids-put_effect r (effects_of s);
  history = refl;
  pending = refl;
}
