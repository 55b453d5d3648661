-- ===== src/Effects/Report.antt =====
-- deliveryFromState of internal/engine/delivery.go: what the delivery says of each action.
use go_agent_claw.Prelude.{
  ◌≡◌, ◌≢◌, refl, sym, ap, ◌∙◌, inl, inr, true, false, Option, none, some, List, [], ◌∷◌, ◌++◌, map,
  String, arith, Bool-cases, if◌then◌else◌, str_eq, eq_iff, In, IsFilter, filters_none, keeps_one,
  skips_one,
}
use go_agent_claw.Effects.{
  EffectReceipt, EffectState, PendingAction, Delivery, effect_unknown, ledger_of, is_seen,
  unseen_pending, delivery_from_state,
}
use go_agent_claw.Effects.Ledger.{effects_of}

-- The pending action with this id.
unfoldable pub find_pending : String → List (String × PendingAction) → Option PendingAction
find_pending id [] = none
find_pending id ((k, a) ∷ pending) = if str_eq k id then some a else find_pending id pending

-- The action has no receipt among these.
abbrev pub IsUnreported : List EffectReceipt → String × PendingAction → Type 0
IsUnreported effects (id, action) = (e : EffectReceipt) → In e effects → e.action_id ≢ id

-- What is reported of a pending action without a receipt.
abbrev pub unknown_of : String × PendingAction → EffectReceipt
unknown_of (id, action) = record {
  action_id = id;
  tool = action.tool;
  status = "";
  effect = effect_unknown;
  file = none;
}

is_seen-found :
    (id : String) (effects : List EffectReceipt)
    → is_seen id effects ≡ true
    → (e : EffectReceipt) × In e effects × (e.action_id ≡ id)
unfolding is_seen
is_seen-found id [] h = absurd (ground (arith, h))
is_seen-found id (x ∷ effects) h = elim (Bool-cases (str_eq x.action_id id)) [
  | inl t ↦ (x, inl refl, ground (arith, t, eq_iff x.action_id id))
  | inr f ↦
      let (e, inside, same) = is_seen-found id effects (ground (arith, f, h)) in
      (e, inr inside, same)
]

is_seen-none :
    (id : String) (effects : List EffectReceipt)
    → is_seen id effects ≡ false
    → (e : EffectReceipt) → In e effects
    → e.action_id ≢ id
unfolding is_seen
is_seen-none id [] h e inside same = absurd inside
is_seen-none id (x ∷ effects) h e (inl here) same =
    let own : x.action_id ≡ id = ap (λ r. r.action_id) (sym here) ∙ same in
    absurd (ground (arith, h, own, eq_iff x.action_id id))
is_seen-none id (x ∷ effects) h e (inr inside) same =
    is_seen-none id effects (ground (arith, h)) e inside same

unseen_pending_lem :
    (effects : List EffectReceipt) (pending : List (String × PendingAction))
    → (rest : List (String × PendingAction)) × IsFilter (IsUnreported effects) pending rest
      × (unseen_pending effects pending ≡ map unknown_of rest)
unfolding unseen_pending
unseen_pending_lem effects [] = ([], filters_none, refl)
unseen_pending_lem effects ((id, action) ∷ pending) =
    let (rest, filtered, same) = unseen_pending_lem effects pending in
    elim (Bool-cases (is_seen id effects)) [
      | inl t ↦
          let (e, inside, own) = is_seen-found id effects t in
          (
            rest,
            skips_one (λ unreported. unreported e inside own) filtered,
            ground (arith, t, same),
          )
      | inr f ↦ (
        (id, action) ∷ rest,
        keeps_one (is_seen-none id effects f) filtered,
        ground (arith, f, same),
      )
    ]

-- The delivery is the ledger as it is, followed by the pending actions that have no receipt in it, in their order,
-- each with an unknown effect of its tool, and it reports the ledger's history.
pub record IsReport (s : EffectState) (d : Delivery) : Type 0 where
  pub rest : List (String × PendingAction)
  pub filtered : IsFilter (IsUnreported (effects_of s)) s.pending rest
  pub listed : d.effects ≡ effects_of s ++ map unknown_of rest
  pub history : d.history_complete ≡ (ledger_of s.effect_ledger).history_complete

-- The delivery reports the receipts of the ledger, unchanged and in their order; behind them, for exactly the
-- pending actions that have no receipt, an unknown effect of their tool; and nothing else. Its history is
-- complete exactly if the ledger's is.
pub delivery_from_state-IsReport : (s : EffectState) → IsReport s (delivery_from_state s)
unfolding delivery_from_state
delivery_from_state-IsReport s =
    let (rest, filtered, same) = unseen_pending_lem (effects_of s) s.pending in
    record {
      rest = rest;
      filtered = filtered;
      listed = ap (λ r. effects_of s ++ r) same;
      history = refl;
    }
