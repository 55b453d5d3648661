-- ===== src/Budget/Invariant.antt =====
-- The limits hold of every state that the admission of internal/engine/run_state.go leaves.
use go_agent_claw.Prelude.{
  ℕ, ◌+◌, ◌≤◌, ◌≡◌, sym, subst, inl, inr, Bool, false, Option, none, some, List, [], ◌∷◌, String,
  arith, Bool-cases, length, str_eq, ok, Result-cases,
}
use go_agent_claw.Budget.{
  Budget, Usage, Subtask, Delegation, TaskState, Kind, turn, model, tool, Moment,
  max_delegated_tasks, subtask_model_max, subtask_tool_max, find_subtask, subtask_of, check_subtask,
  check_sub_budget, charge_subtask, charge_entry, charge_sub_budget, charge_usage, reserve_locked,
}

abbrev pub model_total : List (String × Subtask) → ℕ
model_total [] = 0
model_total ((k, s) ∷ m) = s.model_calls + model_total m

abbrev pub tool_total : List (String × Subtask) → ℕ
tool_total [] = 0
tool_total ((k, s) ∷ m) = s.tool_calls + tool_total m

abbrev pub AreLimited : List (String × Subtask) → Type 0
AreLimited [] = Unit {0}
AreLimited ((k, s) ∷ m) =
    (s.model_calls ≤ subtask_model_max) × (s.tool_calls ≤ subtask_tool_max) × AreLimited m

abbrev pub entries : Option Delegation → List (String × Subtask)
entries none = []
entries (some d) = d.subtasks

-- The counters are within the limits of the task, those of each subtask within its own, and what the
-- subtasks used is part of what the task used.
pub record IsWithin (s : TaskState) : Type 0 where
  pub turns_in : s.usage.turns ≤ s.limits.max_turns
  pub models_in : s.usage.model_calls ≤ s.limits.max_model_calls
  pub tools_in : s.usage.tool_calls ≤ s.limits.max_tool_calls
  pub few : length (entries s.delegation) ≤ max_delegated_tasks
  pub limited : AreLimited (entries s.delegation)
  pub models_shared : model_total (entries s.delegation) ≤ s.usage.model_calls
  pub tools_shared : tool_total (entries s.delegation) ≤ s.usage.tool_calls

abbrev pub model_weight : Kind → ℕ
model_weight turn = 0
model_weight model = 1
model_weight tool = 0

abbrev pub tool_weight : Kind → ℕ
tool_weight turn = 0
tool_weight model = 0
tool_weight tool = 1

abbrev pub turn_weight : Kind → ℕ
turn_weight turn = 1
turn_weight model = 0
turn_weight tool = 0

-- What a charge does to the entries.
record IsCharged (kind : Kind) (m after : List (String × Subtask)) : Type 0 where
  same_length : length after ≡ length m
  models : model_total after ≤ model_total m + model_weight kind
  tools : tool_total after ≤ tool_total m + tool_weight kind

charge_entry-IsCharged :
    (kind : Kind) (k : String) (m : List (String × Subtask))
    → IsCharged kind m (charge_entry kind k m)
unfolding charge_entry
charge_entry-IsCharged kind k [] = omega arith
charge_entry-IsCharged turn k ((j, s) ∷ m) = ground (arith, charge_entry-IsCharged turn k m)
charge_entry-IsCharged model k ((j, s) ∷ m) = ground (arith, charge_entry-IsCharged model k m)
charge_entry-IsCharged tool k ((j, s) ∷ m) = ground (arith, charge_entry-IsCharged tool k m)

charge_sub_budget-IsCharged :
    (kind : Kind) (k : String) (d : Option Delegation)
    → IsCharged kind (entries d) (entries (charge_sub_budget k kind d))
unfolding charge_sub_budget
charge_sub_budget-IsCharged kind k none = omega arith
charge_sub_budget-IsCharged kind k (some d) = charge_entry-IsCharged kind k d.subtasks

-- The check of the subtask's own limits comes before the charge.
charge_subtask-in :
    (kind : Kind) (s : Subtask)
    → check_subtask kind s ≡ ok tt
    → s.model_calls ≤ subtask_model_max
    → s.tool_calls ≤ subtask_tool_max
    → ((charge_subtask kind s).model_calls ≤ subtask_model_max)
      × ((charge_subtask kind s).tool_calls ≤ subtask_tool_max)
unfolding check_subtask charge_subtask
charge_subtask-in turn s c a b = (a, b)
charge_subtask-in model s c a b = ground arith
charge_subtask-in tool s c a b = ground arith

AreLimited-charge_entry :
    (kind : Kind) (k : String) (m : List (String × Subtask))
    → ((s : Subtask) → find_subtask k m ≡ some s → check_subtask kind s ≡ ok tt)
    → AreLimited m
    → AreLimited (charge_entry kind k m)
unfolding charge_entry find_subtask
AreLimited-charge_entry kind k [] c l = tt
AreLimited-charge_entry kind k ((j, s) ∷ m) c l = elim (Bool-cases (str_eq j k)) [
  | inl t ↦
      let (a, b) = charge_subtask-in kind s (c s (ground (arith, t))) l.0 l.1 in
      rw (t, charge_entry) (a, b, l.2)
  | inr f ↦
      rw (f, charge_entry)
        (l.0, l.1, AreLimited-charge_entry kind k m (λ x e. c x (ground (arith, f, e))) l.2)
]

AreLimited-charge :
    (kind : Kind) (k : String) (d : Option Delegation)
    → ((s : Subtask) → subtask_of k d ≡ some s → check_subtask kind s ≡ ok tt)
    → AreLimited (entries d)
    → AreLimited (entries (charge_sub_budget k kind d))
unfolding charge_sub_budget subtask_of
AreLimited-charge kind k none c l = tt
AreLimited-charge kind k (some d) c l = AreLimited-charge_entry kind k d.subtasks c l

check_sub_budget-found :
    (kind : Kind) (k : String) (s : TaskState)
    → check_sub_budget k kind s ≡ ok tt
    → (x : Subtask) → subtask_of k s.delegation ≡ some x
    → check_subtask kind x ≡ ok tt
unfolding check_sub_budget
check_sub_budget-found kind k s c x e = ground (arith, e)

-- A charge to the shared counters: by one, and only below the limit.
record IsCounted (kind : Kind) (b : Budget) (u after : Usage) : Type 0 where
  turns : after.turns ≡ u.turns + turn_weight kind
  models : after.model_calls ≡ u.model_calls + model_weight kind
  tools : after.tool_calls ≡ u.tool_calls + tool_weight kind
  turns_in : u.turns ≤ b.max_turns → after.turns ≤ b.max_turns
  models_in : u.model_calls ≤ b.max_model_calls → after.model_calls ≤ b.max_model_calls
  tools_in : u.tool_calls ≤ b.max_tool_calls → after.tool_calls ≤ b.max_tool_calls

charge_usage-IsCounted :
    (kind : Kind) (b : Budget) (u : Usage) {after : Usage}
    → charge_usage kind b u ≡ ok after
    → IsCounted kind b u after
unfolding charge_usage
charge_usage-IsCounted turn b u h = ground arith
charge_usage-IsCounted model b u h = ground arith
charge_usage-IsCounted tool b u h = ground arith

-- The parts of a reservation that is granted.
pub reserve_locked-parts :
    (m : Moment) (kind : Kind) (fatal : Bool) (s : TaskState) {after : TaskState}
    → reserve_locked m kind fatal s ≡ ok after
    → (u : Usage) × (fatal ≡ false)
      × (m.cancelled_inside ≡ false)
      × (check_sub_budget m.agent kind s ≡ ok tt)
      × (charge_usage kind s.limits s.usage ≡ ok u)
      × (after ≡ record s { usage = u; delegation = charge_sub_budget m.agent kind s.delegation })
unfolding reserve_locked
reserve_locked-parts m kind fatal s h = elim (Result-cases (charge_usage kind s.limits s.usage)) [
  | inl (x, e) ↦ absurd (ground (arith, e))
  | inr (u, e) ↦ (u, ground (arith, e), ground (arith, e), ground (arith, e), e, ground (arith, e))
]

pub reserve_locked-IsWithin :
    (m : Moment) (kind : Kind) (fatal : Bool) (s : TaskState) {after : TaskState}
    → IsWithin s
    → reserve_locked m kind fatal s ≡ ok after
    → IsWithin after
reserve_locked-IsWithin m kind fatal s v h =
    let (u, _, _, c, e, same) = reserve_locked-parts m kind fatal s h in
    let n = charge_usage-IsCounted kind s.limits s.usage e in
    let d = charge_sub_budget-IsCharged kind m.agent s.delegation in
    subst IsWithin (sym same) (record {
      turns_in = n.turns_in v.turns_in;
      models_in = n.models_in v.models_in;
      tools_in = n.tools_in v.tools_in;
      few = omega (arith, d.same_length, v.few);
      limited =
          AreLimited-charge kind m.agent s.delegation (check_sub_budget-found kind m.agent s c)
            v.limited;
      models_shared = omega (arith, d.models, v.models_shared, n.models);
      tools_shared = omega (arith, d.tools, v.tools_shared, n.tools);
    })
