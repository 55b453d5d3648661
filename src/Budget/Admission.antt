-- ===== src/Budget/Admission.antt =====
-- The ledger of subtasks of internal/engine/delegation.go over any sequence of reservations, admissions
-- and ends of subtasks.
use go_agent_claw.Prelude.{
  ℕ, ◌≡◌, refl, subst, Bool, false, Option, none, some, List, [], ◌∷◌, String, arith, length, ok,
}
use go_agent_claw.Budget.{
  Subtask, Delegation, TaskState, RunState, Moment, Call, admissible, admit_locked, admit_ledger,
  finish_locked, set_status, run,
}
use go_agent_claw.Budget.Invariant.{
  model_total, tool_total, AreLimited, IsWithin, reserve_locked-IsWithin,
}
use go_agent_claw.Budget.Trace.{with_elapsed, run-keeps}

with_elapsed-IsWithin : (s : TaskState) (n : ℕ) → IsWithin s → IsWithin (with_elapsed s n)
with_elapsed-IsWithin s n w = record {
  turns_in = w.turns_in;
  models_in = w.models_in;
  tools_in = w.tools_in;
  few = w.few;
  limited = w.limited;
  models_shared = w.models_shared;
  tools_shared = w.tools_shared;
}

admit_ledger-IsWithin :
    (m : Moment) (run_id child : String) (paths : List String) (s : TaskState)
    (d : Option Delegation) {after : TaskState}
    → s.delegation ≡ d
    → IsWithin s
    → admit_ledger m run_id child paths s d ≡ ok after
    → IsWithin after
unfolding admit_ledger admissible
admit_ledger-IsWithin m run_id child paths s none e v h = cc
admit_ledger-IsWithin m run_id child paths s (some d) e v h = ground arith

set_status_lem :
    (k status : String) (m : List (String × Subtask))
    → (length (set_status k status m) ≡ length m)
      × (model_total (set_status k status m) ≡ model_total m)
      × (tool_total (set_status k status m) ≡ tool_total m)
unfolding set_status
set_status_lem k status [] = omega arith
set_status_lem k status ((j, s) ∷ m) = ground (arith, set_status_lem k status m)

AreLimited-set_status :
    (k status : String) (m : List (String × Subtask))
    → AreLimited m
    → AreLimited (set_status k status m)
unfolding set_status
AreLimited-set_status k status [] l = tt
AreLimited-set_status k status ((j, s) ∷ m) l = ground (arith, AreLimited-set_status k status m l.2)

pub admit_locked-parts :
    (m : Moment) (run_id : String) (fatal : Bool) (child : String) (paths : List String)
    (s : TaskState) {after : TaskState}
    → admit_locked m run_id fatal child paths s ≡ ok after
    → (fatal ≡ false) × (admit_ledger m run_id child paths s s.delegation ≡ ok after)
unfolding admit_locked
admit_locked-parts m run_id fatal child paths s h = ground arith

finish-IsWithin :
    (child status : String) (s : TaskState) (d : Option Delegation) {after : TaskState}
    → s.delegation ≡ d
    → IsWithin s
    → finish_locked child status s ≡ ok after
    → IsWithin after
unfolding finish_locked
finish-IsWithin child status s none e v h = subst IsWithin (ground arith) v
finish-IsWithin child status s (some d) e v h =
    ground
      (arith, set_status_lem child status d.subtasks, AreLimited-set_status child status d.subtasks)

-- Every call keeps the task within its limits.
pub run-keeps_IsWithin :
    (r : RunState) (calls : List (Moment × Call)) → IsWithin r.state → IsWithin (run r calls).state
run-keeps_IsWithin r calls v =
    run-keeps IsWithin (λ s n w. with_elapsed-IsWithin s n w)
      (λ m kind fatal s after w h. reserve_locked-IsWithin m kind fatal s w h)
      (λ m run_id fatal child paths s after w h.
        admit_ledger-IsWithin m run_id child paths s s.delegation refl w
          (admit_locked-parts m run_id fatal child paths s h).1)
      (λ child status s after w h. finish-IsWithin child status s s.delegation refl w h) calls r v
