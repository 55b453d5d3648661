-- ===== src/Budget/Separate.antt =====
-- The subtasks that the policy "auto" admits do not share paths (internal/engine/delegation.go).
use go_agent_claw.Prelude.{
  ◌≡◌, refl, sym, subst, inl, inr, false, Option, none, some, List, [], ◌∷◌, String, arith,
  Bool-cases, str_eq, eq_iff, ok,
}
use go_agent_claw.Budget.{
  Subtask, Delegation, TaskState, RunState, Kind, turn, model, tool, Moment, Call, find_subtask,
  charge_subtask, charge_entry, charge_sub_budget, set_status, finish_locked, overlaps_any,
  admissible, admit_ledger, run,
}
use go_agent_claw.Budget.Invariant.{entries, reserve_locked-parts}
use go_agent_claw.Budget.Admission.{admit_locked-parts}
use go_agent_claw.Budget.Trace.{run-keeps}

-- No two entries have one id or share a path.
abbrev pub AreSeparate : List (String × Subtask) → Type 0
AreSeparate [] = Unit {0}
AreSeparate ((k, s) ∷ m) =
    (find_subtask k m ≡ none) × (overlaps_any s.paths m ≡ false) × AreSeparate m

pub record IsSeparate (s : TaskState) : Type 0 where
  pub auto : s.policy ≡ "auto"
  pub separate : AreSeparate (entries s.delegation)

-- A charge changes neither ids nor paths.
overlaps_any-charge_entry :
    (kind : Kind) (k : String) (paths : List String) (m : List (String × Subtask))
    → overlaps_any paths (charge_entry kind k m) ≡ overlaps_any paths m
unfolding charge_entry overlaps_any charge_subtask
overlaps_any-charge_entry kind k paths [] = refl
overlaps_any-charge_entry turn k paths ((j, s) ∷ m) =
    ground (arith, overlaps_any-charge_entry turn k paths m)
overlaps_any-charge_entry model k paths ((j, s) ∷ m) =
    ground (arith, overlaps_any-charge_entry model k paths m)
overlaps_any-charge_entry tool k paths ((j, s) ∷ m) =
    ground (arith, overlaps_any-charge_entry tool k paths m)

find_subtask-charge_entry :
    (kind : Kind) (k j : String) (m : List (String × Subtask))
    → find_subtask j m ≡ none
    → find_subtask j (charge_entry kind k m) ≡ none
unfolding charge_entry find_subtask
find_subtask-charge_entry kind k j [] h = refl
find_subtask-charge_entry kind k j ((i, s) ∷ m) h =
    ground (arith, find_subtask-charge_entry kind k j m)

paths-charge_subtask : (kind : Kind) (s : Subtask) → (charge_subtask kind s).paths ≡ s.paths
unfolding charge_subtask
paths-charge_subtask turn s = refl
paths-charge_subtask model s = refl
paths-charge_subtask tool s = refl

AreSeparate-charge_entry :
    (kind : Kind) (k : String) (m : List (String × Subtask))
    → AreSeparate m
    → AreSeparate (charge_entry kind k m)
unfolding charge_entry
AreSeparate-charge_entry kind k [] v = tt
AreSeparate-charge_entry kind k ((j, s) ∷ m) v = elim (Bool-cases (str_eq j k)) [
  | inl t ↦ rw (t, charge_entry) (v.0, rw (paths-charge_subtask kind s) v.1, v.2)
  | inr f ↦
      rw (f, charge_entry)
        (
          find_subtask-charge_entry kind k j m v.0,
          rw (overlaps_any-charge_entry kind k s.paths m) v.1,
          AreSeparate-charge_entry kind k m v.2,
        )
]

charge-IsSeparate :
    (kind : Kind) (k : String) (d : Option Delegation)
    → AreSeparate (entries d)
    → AreSeparate (entries (charge_sub_budget k kind d))
unfolding charge_sub_budget
charge-IsSeparate kind k none v = tt
charge-IsSeparate kind k (some d) v = AreSeparate-charge_entry kind k d.subtasks v

overlaps_any-set_status :
    (k status : String) (paths : List String) (m : List (String × Subtask))
    → overlaps_any paths (set_status k status m) ≡ overlaps_any paths m
unfolding set_status overlaps_any
overlaps_any-set_status k status paths [] = refl
overlaps_any-set_status k status paths ((j, s) ∷ m) =
    ground (arith, overlaps_any-set_status k status paths m)

find_subtask-set_status :
    (k status j : String) (m : List (String × Subtask))
    → find_subtask j m ≡ none
    → find_subtask j (set_status k status m) ≡ none
unfolding set_status find_subtask
find_subtask-set_status k status j [] h = refl
find_subtask-set_status k status j ((i, s) ∷ m) h =
    ground (arith, find_subtask-set_status k status j m)

AreSeparate-set_status :
    (k status : String) (m : List (String × Subtask))
    → AreSeparate m
    → AreSeparate (set_status k status m)
unfolding set_status
AreSeparate-set_status k status [] v = tt
AreSeparate-set_status k status ((j, s) ∷ m) v = elim (Bool-cases (str_eq j k)) [
  | inl t ↦ rw (t, set_status) v
  | inr f ↦
      rw (f, set_status)
        (
          find_subtask-set_status k status j m v.0,
          rw (overlaps_any-set_status k status s.paths m) v.1,
          AreSeparate-set_status k status m v.2,
        )
]

admit_ledger-IsSeparate :
    (m : Moment) (run_id child : String) (paths : List String) (s : TaskState)
    (d : Option Delegation) {after : TaskState}
    → s.delegation ≡ d
    → IsSeparate s
    → admit_ledger m run_id child paths s d ≡ ok after
    → IsSeparate after
unfolding admit_ledger admissible
admit_ledger-IsSeparate m run_id child paths s none e v h = cc
admit_ledger-IsSeparate m run_id child paths s (some d) e v h =
    ground (arith, eq_iff s.policy "auto")

finish-IsSeparate :
    (child status : String) (s : TaskState) (d : Option Delegation) {after : TaskState}
    → s.delegation ≡ d
    → IsSeparate s
    → finish_locked child status s ≡ ok after
    → IsSeparate after
unfolding finish_locked
finish-IsSeparate child status s none e v h = subst IsSeparate (ground arith) v
finish-IsSeparate child status s (some d) e v h =
    ground (arith, AreSeparate-set_status child status d.subtasks)

-- Every call keeps the subtasks separate, as the tests of the code say it.
pub run-keeps_IsSeparate :
    (r : RunState) (calls : List (Moment × Call))
    → IsSeparate r.state
    → IsSeparate (run r calls).state
run-keeps_IsSeparate r calls v =
    run-keeps IsSeparate (λ s n w. record { auto = w.auto; separate = w.separate })
      (λ m kind fatal s after w h.
        let (u, _, _, _, _, same) = reserve_locked-parts m kind fatal s h in
        subst IsSeparate (sym same) (record {
          auto = w.auto;
          separate = charge-IsSeparate kind m.agent s.delegation w.separate;
        }))
      (λ m run_id fatal child paths s after w h.
        admit_ledger-IsSeparate m run_id child paths s s.delegation refl w
          (admit_locked-parts m run_id fatal child paths s h).1)
      (λ child status s after w h. finish-IsSeparate child status s s.delegation refl w h) calls r v
