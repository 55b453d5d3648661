-- ===== src/Plan.antt =====
-- internal/engine/plan.go: the steps of a task's plan. `check_plan` is checkPlan with its depth-first
-- search for cycles, `ready_step` is readyStep. A Go map is an association list whose newest entry
-- counts; the marks 0, 1 and 2 of the search are `unseen`, `visiting` and `visited`.
pub mod Index
pub mod Search
pub mod Fuel
pub mod Ready
pub mod Reset
pub mod Loop
pub mod Patch
mod Tests
use go_agent_claw.Prelude.{
  ℕ, zero, suc, ◌+◌, Bool, true, false, not, ◌&&◌, ◌||◌, Option, none, some, List, [], ◌∷◌, ◌++◌,
  map, ◌>>◌, String, leb, ltb, ◌==◌, if◌then◌else◌, codes, is_blank, length, Result, ok, err, ◌>>=◌,
  str_eq,
}

pub record PlanStep : Type 0 where
  pub id : String
  pub goal : String
  pub depends_on : List String
  pub done : Bool

pub data PlanError : Type 0 where
  bad_size bad_format out_of_fuel : PlanError
  bad_step duplicate cycle unknown : String → PlanError

module _ {V : Type 0} where
  unfoldable pub lookup : String → List (String × V) → Option V
  lookup k [] = none
  lookup k ((j, v) ∷ m) = if str_eq j k then some v else lookup k m

is_id_char : ℕ → Bool
is_id_char c =
    (leb b'a' c && leb c b'z')
    || (leb b'A' c && leb c b'Z')
    || (leb b'0' c && leb c b'9')
    || c == b'_'
    || c == b'-'

all_id_chars : List ℕ → Bool
unfolding is_id_char
all_id_chars [] = true
all_id_chars (c ∷ cs) = is_id_char c && all_id_chars cs

-- ^[a-zA-Z0-9_-]{1,32}$
unfoldable pub matches_step_id : List ℕ → Bool
unfolding all_id_chars
matches_step_id cs = leb 1 (length cs) && leb (length cs) 32 && all_id_chars cs

abbrev pub Steps : Type 0
Steps = List (String × PlanStep)

unfoldable pub is_well_formed : PlanStep → Bool
unfolding matches_step_id is_blank
is_well_formed s = matches_step_id (codes s.id) && not (is_blank (codes s.goal))

-- The first loop of checkPlan.
unfoldable pub index : List PlanStep → Steps → Result PlanError Steps
index [] by_id = ok by_id
index (s ∷ ss) by_id =
    let rest = index ss ((s.id, s) ∷ by_id) in
    if is_well_formed s
    then elim (lookup s.id by_id) [ some _ ↦ err (duplicate s.id) | none ↦ rest ]
    else err (bad_step s.id)

pub data Mark : Type 0 where
  unseen visiting visited : Mark

abbrev pub Seen : Type 0
Seen = List (String × Mark)

unfoldable pub mark_of : String → Seen → Mark
mark_of k [] = unseen
mark_of k ((j, m) ∷ seen) = if str_eq j k then m else mark_of k seen

unfoldable pub visit_each :
    (String → Seen → Result PlanError Seen) → List String → Seen → Result PlanError Seen
visit_each visit [] seen = ok seen
visit_each visit (d ∷ ds) seen = visit d seen >>= visit_each visit ds

unfoldable pub visit : ℕ → Steps → String → Seen → Result PlanError Seen
visit zero by_id id seen = err out_of_fuel
visit (suc fuel) by_id id seen = elim (mark_of id seen) [
  | visiting ↦ err (cycle id)
  | visited ↦ ok seen
  | unseen ↦ elim (lookup id by_id) [
    | none ↦ err (unknown id)
    | some step ↦ visit_each (visit fuel by_id) step.depends_on ((id, visiting) ∷ seen) >>= λ after.
        ok ((id, visited) ∷ after)
  ]
]

abbrev pub ids : List PlanStep → List String
ids [] = []
ids (s ∷ ss) = s.id ∷ ids ss

-- A nested call marks a step that was not marked, so one call more than there are steps suffices.
unfoldable pub check_plan : List PlanStep → Result PlanError (Unit {0})
unfolding index visit
check_plan steps =
    if length steps == 0 || ltb 20 (length steps)
    then err bad_size
    else index steps [] >>= λ by_id.
        visit_each (visit (length steps + 1) by_id) (ids steps) [] >>= λ _. ok tt

abbrev pub Flags : Type 0
Flags = List (String × Bool)

unfoldable pub done_map : List PlanStep → Flags → Flags
done_map [] m = m
done_map (s ∷ ss) m = done_map ss ((s.id, s.done) ∷ m)

-- A missing key reads as false.
unfoldable pub is_done : String → Flags → Bool
is_done k [] = false
is_done k ((j, d) ∷ m) = if str_eq j k then d else is_done k m

unfoldable pub all_done : List String → Flags → Bool
unfolding is_done
all_done [] m = true
all_done (d ∷ ds) m = is_done d m && all_done ds m

unfoldable pub find_ready : Flags → ℕ → List PlanStep → Option ℕ
unfolding all_done
find_ready m i [] = none
find_ready m i (s ∷ ss) =
    let later = find_ready m (i + 1) ss in
    if s.done then later else if all_done s.depends_on m then some i else later

-- `none` is the result -1.
unfoldable pub ready_step : List PlanStep → Option ℕ
unfolding done_map find_ready
ready_step steps = find_ready (done_map steps []) 0 steps

-- The steps that proposePlan keeps.
unfoldable pub frozen : List PlanStep → List PlanStep
frozen [] = []
frozen (s ∷ ss) = if s.done then s ∷ frozen ss else frozen ss

abbrev pub reset : PlanStep → PlanStep
reset s = record s { done = false }

-- proposePlan behind the model's reply; `none` is a reply that is no JSON list of steps.
unfoldable pub propose_plan :
    List PlanStep → Option (List PlanStep) → Result PlanError (List PlanStep)
unfolding frozen check_plan
propose_plan current none = err bad_format
propose_plan current (some steps) = do
  check_plan (frozen current ++ map reset steps)
  ok (frozen current ++ map reset steps)
