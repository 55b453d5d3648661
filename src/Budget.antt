-- ===== src/Budget.antt =====
-- internal/engine/run_state.go and internal/engine/delegation.go: the admission of turns, model calls
-- and tool calls against the limits of the task and of a subtask. `record_event` is runState.record,
-- `reserve` runState.reserve, `admit_locked` the transaction of admitSubtask. Counters are numbers that
-- never fall; budgets are those that Budget.valid lets through, so they are not negative.
pub mod Invariant
pub mod Trace
pub mod Admission
pub mod Admitted
pub mod Separate
pub mod Prefix
pub mod Apart
pub mod Denials
mod Tests
use go_agent_claw.Prelude.{
  ℕ, suc, ◌+◌, Bool, true, false, not, ◌&&◌, ◌||◌, Option, none, some, List, [], ◌∷◌, ◌++◌, String,
  codes, leb, ltb, ◌==◌, if◌then◌else◌, length, str_eq, Result, ok, err, ◌>>=◌, ◌>>◌,
}

pub record Budget : Type 0 where
  pub max_turns : ℕ
  pub max_model_calls : ℕ
  pub max_tool_calls : ℕ
  pub timeout : ℕ

-- Budget.defaults, with the timeout in nanoseconds.
unfoldable pub defaults : Budget → Budget
defaults b = record {
  max_turns = if b.max_turns == 0 then 30 else b.max_turns;
  max_model_calls = if b.max_model_calls == 0 then 60 else b.max_model_calls;
  max_tool_calls = if b.max_tool_calls == 0 then 120 else b.max_tool_calls;
  timeout = if b.timeout == 0 then 600_000_000_000 else b.timeout;
}

pub record Usage : Type 0 where
  pub turns : ℕ
  pub model_calls : ℕ
  pub tool_calls : ℕ
  pub elapsed : ℕ

pub record Subtask : Type 0 where
  pub agent_id : String
  pub parent_id : String
  pub origin_run_id : String
  pub paths : List String
  pub model_calls : ℕ
  pub tool_calls : ℕ
  pub status : String

pub record Delegation : Type 0 where
  pub version : ℕ
  pub history_complete : Bool
  pub subtasks : List (String × Subtask)

-- The fields of taskState that admission reads and writes. `policy` is Spec.Delegation.
pub record TaskState : Type 0 where
  pub limits : Budget
  pub usage : Usage
  pub policy : String
  pub delegation : Option Delegation

pub record RunState : Type 0 where
  pub state : TaskState
  pub fatal_storage : Bool
  pub run_id : String

pub data Kind : Type 0 where
  turn model tool : Kind

pub data Denial : Type 0 where
  cancelled storage turn_limit model_limit tool_limit : Denial
  subtask_model_limit subtask_tool_limit : Denial
  unknown_history too_many policy_off duplicate_id overlapping : Denial

-- What the surroundings of one call do: the context at its two checks, the clock, and the log.
pub record Moment : Type 0 where
  pub agent : String
  pub cancelled_before : Bool
  pub cancelled_inside : Bool
  pub now : ℕ
  pub persist_fails : Bool

abbrev pub max_delegated_tasks : ℕ
max_delegated_tasks = 2

abbrev pub subtask_model_max : ℕ
subtask_model_max = 4

abbrev pub subtask_tool_max : ℕ
subtask_tool_max = 8

-- The event is saved with the new state; if that fails the new state stays in memory, and the run is
-- marked.
unfoldable pub record_event :
    Moment → (TaskState → Result Denial TaskState) → RunState → RunState × Result Denial (Unit {0})
record_event m apply r = elim (apply r.state) [
  | err e ↦ (r, err e)
  | ok s ↦
      let next = record r { state = record s { usage = record s.usage { elapsed = m.now } } } in
      if m.persist_fails then (record next { fatal_storage = true }, err storage) else (next, ok tt)
]

unfoldable pub find_subtask : String → List (String × Subtask) → Option Subtask
find_subtask k [] = none
find_subtask k ((j, s) ∷ m) = if str_eq j k then some s else find_subtask k m

unfoldable pub subtask_of : String → Option Delegation → Option Subtask
unfolding find_subtask
subtask_of agent none = none
subtask_of agent (some d) = find_subtask agent d.subtasks

abbrev pub denied_if : Bool → Denial → Result Denial (Unit {0})
denied_if true e = err e
denied_if false e = ok tt

unfoldable pub check_subtask : Kind → Subtask → Result Denial (Unit {0})
check_subtask turn s = ok tt
check_subtask model s =
    if leb subtask_tool_max s.tool_calls
    then err subtask_tool_limit
    else denied_if (leb subtask_model_max s.model_calls) subtask_model_limit
check_subtask tool s = denied_if (leb subtask_tool_max s.tool_calls) subtask_tool_limit

unfoldable pub check_sub_budget : String → Kind → TaskState → Result Denial (Unit {0})
unfolding check_subtask subtask_of
check_sub_budget agent kind s = elim (subtask_of agent s.delegation) [
  | none ↦ ok tt
  | some sub ↦ check_subtask kind sub
]

unfoldable pub charge_subtask : Kind → Subtask → Subtask
charge_subtask turn s = s
charge_subtask model s = record s { model_calls = s.model_calls + 1 }
charge_subtask tool s = record s { tool_calls = s.tool_calls + 1 }

unfoldable pub charge_entry : Kind → String → List (String × Subtask) → List (String × Subtask)
unfolding charge_subtask
charge_entry kind k [] = []
charge_entry kind k ((j, s) ∷ m) =
    if str_eq j k then (j, charge_subtask kind s) ∷ m else (j, s) ∷ charge_entry kind k m

unfoldable pub charge_sub_budget : String → Kind → Option Delegation → Option Delegation
unfolding charge_entry
charge_sub_budget agent kind none = none
charge_sub_budget agent kind (some d) =
    some (record d { subtasks = charge_entry kind agent d.subtasks })

-- The switch of reserve.
unfoldable pub charge_usage : Kind → Budget → Usage → Result Denial Usage
charge_usage turn b u =
    if leb b.max_turns u.turns then err turn_limit else ok (record u { turns = u.turns + 1 })
charge_usage model b u =
    if leb b.max_tool_calls u.tool_calls
    then err tool_limit
    else if leb b.max_model_calls u.model_calls
    then err model_limit
    else ok (record u { model_calls = u.model_calls + 1 })
charge_usage tool b u =
    if leb b.max_tool_calls u.tool_calls
    then err tool_limit
    else ok (record u { tool_calls = u.tool_calls + 1 })

unfoldable pub reserve_locked : Moment → Kind → Bool → TaskState → Result Denial TaskState
unfolding check_sub_budget charge_sub_budget charge_usage
reserve_locked m kind fatal s = do
  denied_if fatal storage
  denied_if m.cancelled_inside cancelled
  check_sub_budget m.agent kind s
  usage ← charge_usage kind s.limits s.usage
  ok (record s { usage = usage; delegation = charge_sub_budget m.agent kind s.delegation })

unfoldable pub reserve : Moment → Kind → RunState → RunState × Result Denial (Unit {0})
unfolding record_event reserve_locked
reserve m kind r =
    if m.cancelled_before
    then (r, err cancelled)
    else record_event m (reserve_locked m kind r.fatal_storage) r

-- strings.HasPrefix
unfoldable pub has_prefix : List ℕ → List ℕ → Bool
has_prefix text [] = true
has_prefix [] (c ∷ cs) = false
has_prefix (t ∷ ts) (c ∷ cs) = t == c && has_prefix ts cs

-- One path is the root, or the other, or lies in the other.
unfoldable pub is_related : String → String → Bool
unfolding has_prefix
is_related left right =
    str_eq left "."
    || str_eq right "."
    || str_eq left right
    || has_prefix (codes left) (codes right ++ b'/' ∷ [])
    || has_prefix (codes right) (codes left ++ b'/' ∷ [])

unfoldable pub any_related : String → List String → Bool
unfolding is_related
any_related left [] = false
any_related left (right ∷ rest) = is_related left right || any_related left rest

unfoldable pub paths_intersect : List String → List String → Bool
unfolding any_related
paths_intersect [] b = false
paths_intersect (left ∷ a) b = any_related left b || paths_intersect a b

unfoldable pub overlaps_any : List String → List (String × Subtask) → Bool
overlaps_any paths [] = false
overlaps_any paths ((k, s) ∷ m) = paths_intersect paths s.paths || overlaps_any paths m

abbrev is_known : Option Subtask → Bool
is_known none = false
is_known (some _) = true

-- The tests of the transaction, on the ledger.
unfoldable pub admissible : String → String → List String → Delegation → Result Denial (Unit {0})
unfolding find_subtask overlaps_any
admissible policy child paths d = do
  denied_if (not (d.version == 1) || not d.history_complete) unknown_history
  denied_if (leb max_delegated_tasks (length d.subtasks)) too_many
  denied_if (str_eq policy "off") policy_off
  denied_if (is_known (find_subtask child d.subtasks)) duplicate_id
  denied_if (str_eq policy "auto" && overlaps_any paths d.subtasks) overlapping

abbrev pub new_subtask : String → String → String → List String → Subtask
new_subtask child parent run paths = record {
  agent_id = child;
  parent_id = parent;
  origin_run_id = run;
  paths = paths;
  model_calls = 0;
  tool_calls = 0;
  status = "admitted";
}

unfoldable pub admit_ledger :
    Moment → String → String → List String → TaskState → Option Delegation → Result Denial TaskState
admit_ledger m run child paths s none = err unknown_history
admit_ledger m run child paths s (some d) = do
  admissible s.policy child paths d
  ok (record s {
    delegation =
        some (record d { subtasks = (child, new_subtask child m.agent run paths) ∷ d.subtasks });
  })

-- The transaction of admitSubtask.
unfoldable pub admit_locked :
    Moment → String → Bool → String → List String → TaskState → Result Denial TaskState
unfolding admit_ledger
admit_locked m run fatal child paths s = do
  denied_if fatal storage
  denied_if m.cancelled_inside cancelled
  admit_ledger m run child paths s s.delegation

set_status : String → String → List (String × Subtask) → List (String × Subtask)
set_status k status [] = []
set_status k status ((j, s) ∷ m) =
    if str_eq j k then (j, record s { status = status }) ∷ m else (j, s) ∷ set_status k status m

unfoldable pub finish_locked : String → String → TaskState → Result Denial TaskState
unfolding set_status
finish_locked child status s = elim s.delegation [
  | none ↦ ok s
  | some d ↦
      ok (record s {
        delegation = some (record d { subtasks = set_status child status d.subtasks });
      })
]

unfoldable pub finish_subtask :
    Moment → String → String → RunState → RunState × Result Denial (Unit {0})
unfolding finish_locked record_event subtask_of
finish_subtask m child status r = elim (subtask_of child r.state.delegation) [
  | none ↦ (r, ok tt)
  | some _ ↦ record_event m (finish_locked child status) r
]

pub data Call : Type 0 where
  reserves : Kind → Call
  admits : String → List String → Call
  finishes : String → String → Call

unfoldable pub step : RunState → Moment × Call → RunState × Result Denial (Unit {0})
unfolding reserve finish_subtask admit_locked record_event
step r (m, reserves kind) = reserve m kind r
step r (m, admits child paths) =
    record_event m (admit_locked m r.run_id r.fatal_storage child paths) r
step r (m, finishes child status) = finish_subtask m child status r

unfoldable pub run : RunState → List (Moment × Call) → RunState
unfolding step
run r [] = r
run r (c ∷ cs) = run (step r c).0 cs
