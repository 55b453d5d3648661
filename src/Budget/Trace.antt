-- ===== src/Budget/Trace.antt =====
-- What the transactions of internal/engine/run_state.go keep, every call keeps, saved or not.
use go_agent_claw.Prelude.{
  ℕ, ◌≡◌, inl, inr, Bool, List, [], ◌∷◌, String, Bool-cases, Option-cases, Result, ok, Result-cases,
}
use go_agent_claw.Budget.{
  TaskState, RunState, Denial, Kind, Moment, Call, reserves, admits, finishes, record_event,
  subtask_of, reserve_locked, reserve, admit_locked, finish_locked, finish_subtask, step, run,
}

abbrev pub with_elapsed : TaskState → ℕ → TaskState
with_elapsed s n = record s { usage = record s.usage { elapsed = n } }

module _ (P : TaskState → Type 0) (timed : (s : TaskState) (n : ℕ) → P s → P (with_elapsed s n))
    (reserved : (m : Moment) (kind : Kind) (fatal : Bool) (s after : TaskState)
      → P s
      → reserve_locked m kind fatal s ≡ ok after
      → P after)
    (admitted : (m : Moment) (run_id : String) (fatal : Bool) (child : String) (paths : List String)
        (s after : TaskState)
      → P s
      → admit_locked m run_id fatal child paths s ≡ ok after
      → P after)
    (ended : (child status : String) (s after : TaskState)
      → P s
      → finish_locked child status s ≡ ok after
      → P after) where
  record_event-keeps :
      (m : Moment) (apply : TaskState → Result Denial TaskState) (r : RunState)
      → P r.state
      → ((after : TaskState) → apply r.state ≡ ok after → P after)
      → P (record_event m apply r).0.state
  unfolding record_event
  record_event-keeps m apply r v k = elim (Result-cases (apply r.state)) [
    | inl (x, e) ↦ rw (e, record_event) v
    | inr (s, e) ↦ elim (Bool-cases m.persist_fails) [
      | inl t ↦ rw (e, record_event) (rw (t, record_event) (timed s m.now (k s e)))
      | inr f ↦ rw (e, record_event) (rw (f, record_event) (timed s m.now (k s e)))
    ]
  ]

  step-keeps : (r : RunState) (c : Moment × Call) → P r.state → P (step r c).0.state
  unfolding step
  step-keeps r (m, reserves kind) v = elim (Bool-cases m.cancelled_before) [
    | inl t ↦ rw (t, reserve) v
    | inr f ↦
        rw (f, reserve)
          (record_event-keeps m (reserve_locked m kind r.fatal_storage) r v
            (λ s. reserved m kind r.fatal_storage r.state s v))
  ]
  step-keeps r (m, admits child paths) v =
      record_event-keeps m (admit_locked m r.run_id r.fatal_storage child paths) r v
        (λ s. admitted m r.run_id r.fatal_storage child paths r.state s v)
  step-keeps r (m, finishes child status) v =
      elim (Option-cases (subtask_of child r.state.delegation)) [
        | inl e ↦ rw (e, finish_subtask) v
        | inr (x, e) ↦
            rw (e, finish_subtask)
              (record_event-keeps m (finish_locked child status) r v
                (λ s. ended child status r.state s v))
      ]

  pub run-keeps : (calls : List (Moment × Call)) (r : RunState) → P r.state → P (run r calls).state
  unfolding run
  run-keeps [] r v = v
  run-keeps (c ∷ cs) r v = run-keeps cs (step r c).0 (step-keeps r c v)
