-- ===== src/Effects/Tests.antt =====
-- A ledger with one write, and one command that is still pending.
use go_agent_claw.Prelude.{
  ◌≡◌, refl, Bool, true, Option, none, some, [], ◌∷◌, String, if◌then◌else◌, str_eq,
}
use go_agent_claw.Effects.{
  EffectReceipt, EffectState, PendingAction, effect_confirmed, set_effect, delivery_from_state,
  unknown_effect, unseen_pending, is_seen, put_effect, effect_receipt,
}
use go_agent_claw.Effects.Ledger.{IsRecorded, set_effect-IsRecorded}
use go_agent_claw.Effects.Reconcile.{reconcile, judge, settle, delete_pending, reconciled}
use go_agent_claw.Effects.Settlement.{AreDistinct, Treated, reconcile-Treated}
use go_agent_claw.Effects.Report.{find_pending, IsReport, delivery_from_state-IsReport}

abbrev write : PendingAction
write = record {
  id = "w1";
  action_key = "k1";
  tool = "write_file";
  before = some (record { path = "a.go"; version = "v1" });
  expected = some (record { path = "a.go"; version = "v2" });
}

abbrev command : PendingAction
command = record { id = "c1"; action_key = "k2"; tool = "bash"; before = none; expected = none }

abbrev start : EffectState
start = record {
  effect_ledger =
      some (record { history_complete = true; effects = unknown_effect "w1" "write_file" ∷ [] });
  pending = ("c1", command) ∷ ("w1", write) ∷ [];
  completed = [];
}

abbrev written : EffectReceipt
written = record {
  action_id = "w1";
  tool = "write_file";
  status = "SUCCEEDED";
  effect = effect_confirmed;
  file = some (record { path = "a.go"; before_version = "v1"; after_version = "v2" });
}

receipt_of_write : effect_receipt write "SUCCEEDED" effect_confirmed ≡ written
unfolding effect_receipt
receipt_of_write = refl

delivery_after_write :
    delivery_from_state (set_effect written start)
    ≡ record { history_complete = true; effects = written ∷ unknown_effect "c1" "bash" ∷ [] }
unfolding delivery_from_state set_effect put_effect unseen_pending is_seen
delivery_after_write = refl

set_effect-IsRecorded_example : IsRecorded written start (set_effect written start)
set_effect-IsRecorded_example = set_effect-IsRecorded written start

delivery_from_state-IsReport_example : IsReport start (delivery_from_state start)
delivery_from_state-IsReport_example = delivery_from_state-IsReport start

-- The process ended after the file was written and before this was saved.
abbrev versions : String → Option String
versions path = if str_eq path "a.go" then some "v2" else none

abbrev log_works : String → Bool
log_works id = true

abbrev crashed : EffectState
crashed = record {
  effect_ledger = some (record { history_complete = true; effects = [] });
  pending = ("w1", write) ∷ [];
  completed = [];
}

write_reconciled : reconcile versions log_works crashed.pending crashed ≡ (
  record {
    effect_ledger = some (record { history_complete = true; effects = written ∷ [] });
    pending = [];
    completed = "k1" ∷ [];
  },
  reconciled,
)
unfolding reconcile judge settle delete_pending effect_receipt set_effect put_effect
write_reconciled = refl

crashed-AreDistinct : AreDistinct crashed.pending
unfolding find_pending
crashed-AreDistinct = (refl, tt)

write_pending : find_pending "w1" crashed.pending ≡ some write
unfolding find_pending
write_pending = refl

reconcile-Treated_example :
    Treated versions "w1" write crashed (reconcile versions log_works crashed.pending crashed)
reconcile-Treated_example =
    reconcile-Treated versions log_works crashed.pending crashed "w1" write (refl, tt)
      crashed-AreDistinct write_pending
