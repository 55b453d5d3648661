-- ===== src/Budget/Admitted.antt =====
-- How often admitSubtask (internal/engine/delegation.go) admits a subtask in a run.
use go_agent_claw.Prelude.{
  ℕ, ◌+◌, ◌≤◌, ◌≡◌, refl, sym, subst, inl, inr, Bool, Option, none, some, List, [], ◌∷◌, String,
  arith, Bool-cases, Option-cases, length, Result, ok, err, Result-cases,
}
use go_agent_claw.Budget.{
  Subtask, Delegation, TaskState, RunState, Denial, Kind, Moment, Call, reserves, admits, finishes,
  record_event, subtask_of, charge_entry, charge_sub_budget, reserve_locked, reserve, admissible,
  admit_ledger, admit_locked, set_status, finish_locked, finish_subtask, step, run,
}
use go_agent_claw.Budget.Invariant.{IsWithin, entries, reserve_locked-parts}
use go_agent_claw.Budget.Admission.{admit_locked-parts, run-keeps_IsWithin}

-- How many subtasks stand in the ledger.
abbrev pub listed : TaskState → ℕ
listed s = length (entries s.delegation)

abbrev weight : Call → ℕ
weight (admits child paths) = 1
weight (reserves kind) = 0
weight (finishes child status) = 0

abbrev counted : ℕ → Result Denial (Unit {0}) → ℕ
counted n (ok _) = n
counted n (err e) = 0

-- How many of the calls admitted a subtask.
abbrev pub admissions : RunState → List (Moment × Call) → ℕ
admissions r [] = 0
admissions r (c ∷ cs) = counted (weight c.1) (step r c).1 + admissions (step r c).0 cs

length-charge_entry :
    (kind : Kind) (k : String) (m : List (String × Subtask))
    → length (charge_entry kind k m) ≡ length m
unfolding charge_entry
length-charge_entry kind k [] = refl
length-charge_entry kind k ((j, s) ∷ m) = ground (arith, length-charge_entry kind k m)

length-set_status :
    (k status : String) (m : List (String × Subtask)) → length (set_status k status m) ≡ length m
unfolding set_status
length-set_status k status [] = refl
length-set_status k status ((j, s) ∷ m) = ground (arith, length-set_status k status m)

charge-listed :
    (kind : Kind) (k : String) (d : Option Delegation)
    → length (entries (charge_sub_budget k kind d)) ≡ length (entries d)
unfolding charge_sub_budget
charge-listed kind k none = refl
charge-listed kind k (some d) = length-charge_entry kind k d.subtasks

reserve-listed :
    (m : Moment) (kind : Kind) (fatal : Bool) (s after : TaskState)
    → reserve_locked m kind fatal s ≡ ok after
    → listed s + 0 ≤ listed after
reserve-listed m kind fatal s after h =
    let (u, _, _, _, _, same) = reserve_locked-parts m kind fatal s h in
    subst (λ t. listed s + 0 ≤ listed t) (sym same)
      (omega (arith, charge-listed kind m.agent s.delegation))

admit-listed :
    (m : Moment) (run_id child : String) (paths : List String) (s : TaskState)
    (d : Option Delegation) (after : TaskState)
    → s.delegation ≡ d
    → admit_ledger m run_id child paths s d ≡ ok after
    → listed s + 1 ≤ listed after
unfolding admit_ledger admissible
admit-listed m run_id child paths s none after e h = cc
admit-listed m run_id child paths s (some d) after e h = ground arith

finish-listed :
    (child status : String) (s : TaskState) (d : Option Delegation) (after : TaskState)
    → s.delegation ≡ d
    → finish_locked child status s ≡ ok after
    → listed s + 0 ≤ listed after
unfolding finish_locked
finish-listed child status s none after e h = ground arith
finish-listed child status s (some d) after e h =
    ground (arith, length-set_status child status d.subtasks)

record_event-listed :
    (n : ℕ) (m : Moment) (apply : TaskState → Result Denial TaskState) (r : RunState)
    → ((after : TaskState) → apply r.state ≡ ok after → listed r.state + n ≤ listed after)
    → listed r.state + counted n (record_event m apply r).1
      ≤ listed (record_event m apply r).0.state
unfolding record_event
record_event-listed n m apply r grows = elim (Result-cases (apply r.state)) [
  | inl (x, e) ↦ rw (e, record_event) (omega arith)
  | inr (s, e) ↦
      let more = grows s e in
      elim (Bool-cases m.persist_fails) [
        | inl t ↦ rw (e, record_event) (rw (t, record_event) (omega (arith, more)))
        | inr f ↦ rw (e, record_event) (rw (f, record_event) more)
      ]
]

step-listed :
    (r : RunState) (m : Moment) (c : Call)
    → listed r.state + counted (weight c) (step r (m, c)).1 ≤ listed (step r (m, c)).0.state
unfolding step
step-listed r m (reserves kind) = elim (Bool-cases m.cancelled_before) [
  | inl t ↦ rw (t, reserve) (omega arith)
  | inr f ↦
      rw (f, reserve)
        (record_event-listed 0 m (reserve_locked m kind r.fatal_storage) r
          (reserve-listed m kind r.fatal_storage r.state))
]
step-listed r m (admits child paths) =
    record_event-listed 1 m (admit_locked m r.run_id r.fatal_storage child paths) r (λ after h.
      admit-listed m r.run_id child paths r.state r.state.delegation after refl
        (admit_locked-parts m r.run_id r.fatal_storage child paths r.state h).1)
step-listed r m (finishes child status) =
    elim (Option-cases (subtask_of child r.state.delegation)) [
      | inl e ↦ rw (e, finish_subtask) (omega arith)
      | inr (s, e) ↦
          rw (e, finish_subtask)
            (record_event-listed 0 m (finish_locked child status) r
              (λ after. finish-listed child status r.state r.state.delegation after refl))
    ]

run-listed :
    (calls : List (Moment × Call)) (r : RunState)
    → listed r.state + admissions r calls ≤ listed (run r calls).state
unfolding run
run-listed [] r = omega arith
run-listed ((m, c) ∷ cs) r =
    let now = step-listed r m c in
    let later = run-listed cs (step r (m, c)).0 in omega (arith, now, later)

-- Over any sequence of reservations, admissions and ends of subtasks, with the context cancelled or the
-- log failing at any point, from a state where this holds: turns, model calls and tool calls stay within
-- the task's limits; the ledger has at most two subtasks, each within 4 model calls and 8 tool calls, whose calls
-- are among those that the task is charged for; and together with the subtasks that the ledger had at the start, at
-- most two are ever admitted, whether or not they have ended since.
pub run-IsWithin :
    (r : RunState) (calls : List (Moment × Call))
    → IsWithin r.state
    → IsWithin (run r calls).state × (listed r.state + admissions r calls ≤ 2)
run-IsWithin r calls v =
    let within = run-keeps_IsWithin r calls v in
    let few = within.few in (within, omega (arith, run-listed calls r, few))
