-- ===== src/Plan/Fuel.antt =====
-- The search of checkPlan in internal/engine/plan.go ends: a nested call marks an id that was not
-- marked, so the calls are never deeper than there are steps.
use go_agent_claw.Prelude.{
  ℕ, zero, suc, ◌+◌, ◌≤◌, ◌<◌, ◌≡◌, sym, subst, ◌∙◌, ◌≢◌, inl, inr, some, List, [], ◌∷◌, String,
  arith, Option-cases, length, Result, ok, err, >>=-eq-ok, Result-cases, eq_iff,
}
use go_agent_claw.Plan.{
  PlanStep, PlanError, out_of_fuel, Steps, Mark, unseen, visiting, visited, Seen, lookup, mark_of,
  index, visit_each, visit, ids, check_plan,
}
use go_agent_claw.Plan.Search.{visit_enter, Mark-cases}
use go_agent_claw.Plan.Index.{index-cons}

abbrev is_unseen : Mark → ℕ
is_unseen unseen = 1
is_unseen visiting = 0
is_unseen visited = 0

-- How many entries of the map are not marked.
unmarked : Steps → Seen → ℕ
unmarked [] seen = 0
unmarked ((k, s) ∷ m) seen = is_unseen (mark_of k seen) + unmarked m seen

unmarked-le-length : (m : Steps) (seen : Seen) → unmarked m seen ≤ length m
unfolding unmarked
unmarked-le-length [] seen = omega arith
unmarked-le-length ((k, s) ∷ m) seen = ground (arith, unmarked-le-length m seen)

-- A mark never counts up, and the first mark of an id of the map counts down.
unmarked-push :
    (m : Steps) (id : String) (x : Mark) (seen : Seen)
    → x ≢ unseen
    → unmarked m ((id, x) ∷ seen) ≤ unmarked m seen
unfolding unmarked mark_of
unmarked-push [] id x seen h = omega arith
unmarked-push ((k, s) ∷ m) id x seen h = ground (arith, unmarked-push m id x seen h)

unmarked-push_new :
    (m : Steps) (id : String) (seen : Seen) {step : PlanStep}
    → lookup id m ≡ some step
    → mark_of id seen ≡ unseen
    → unmarked m ((id, visiting) ∷ seen) < unmarked m seen
unfolding unmarked mark_of lookup
unmarked-push_new [] id seen l u = absurd (ground arith)
unmarked-push_new ((k, s) ∷ m) id seen {step} l u = ground (
  arith,
  eq_iff k id,
  eq_iff id k,
  unmarked-push m id visiting seen,
  unmarked-push_new m id seen {step = step},
)

abbrev Shrinks : Steps → (String → Seen → Result PlanError Seen) → Type 0
Shrinks m f =
    (k : String) (seen : Seen) (after : Seen)
    → f k seen ≡ ok after
    → unmarked m after ≤ unmarked m seen

visit_each-Shrinks :
    (m : Steps) (f : String → Seen → Result PlanError Seen)
    → Shrinks m f
    → (ks : List String) (seen after : Seen) → visit_each f ks seen ≡ ok after
    → unmarked m after ≤ unmarked m seen
unfolding visit_each
visit_each-Shrinks m f v [] seen after h =
    let same : seen ≡ after = ground arith in
    subst (λ (x : Seen). unmarked m x ≤ unmarked m seen) same (omega arith)
visit_each-Shrinks m f v (k ∷ ks) seen after h =
    let (mid, first, rest) = >>=-eq-ok (f k seen) (visit_each f ks) h in
    omega (arith, v k seen mid first, visit_each-Shrinks m f v ks mid after rest)

visit-Shrinks : (fuel : ℕ) (m : Steps) → Shrinks m (visit fuel m)
unfolding visit
visit-Shrinks zero m id seen after h = cc
visit-Shrinks (suc fuel) m id seen after h = elim (Mark-cases (mark_of id seen)) [
  | inr (inl e) ↦ absurd (ground (arith, e))
  | inr (inr e) ↦
      let same : seen ≡ after = ground (arith, e) in
      subst (λ (x : Seen). unmarked m x ≤ unmarked m seen) same (omega arith)
  | inl e ↦ elim (Option-cases (lookup id m)) [
    | inl l ↦ absurd (ground (arith, e, l))
    | inr (step, l) ↦
        let (mid, deep, out) =
          >>=-eq-ok (visit_each (visit fuel m) step.depends_on ((id, visiting) ∷ seen))
            (λ x. ok ((id, visited) ∷ x)) (sym (visit_enter fuel m id seen step e l) ∙ h) in
        let same : (id, visited) ∷ mid ≡ after = cc in
        subst (λ (x : Seen). unmarked m x ≤ unmarked m seen) same
          (omega (
            arith,
            unmarked-push m id visited mid (λ x. cc),
            unmarked-push_new m id seen l e,
            visit_each-Shrinks m (visit fuel m) (visit-Shrinks fuel m) step.depends_on
                ((id, visiting) ∷ seen) mid deep,
          ))
  ]
]

-- With more fuel than unmarked entries a call does not run out of it.
abbrev Suffices : Steps → ℕ → (String → Seen → Result PlanError Seen) → Type 0
Suffices m fuel f = (k : String) (seen : Seen) → unmarked m seen < fuel → f k seen ≢ err out_of_fuel

visit_each-Suffices :
    (m : Steps) (fuel : ℕ) (f : String → Seen → Result PlanError Seen)
    → Shrinks m f
    → Suffices m fuel f
    → (ks : List String) (seen : Seen) → unmarked m seen < fuel
    → visit_each f ks seen ≢ err out_of_fuel
unfolding visit_each
visit_each-Suffices m fuel f v w [] seen b = ground arith
visit_each-Suffices m fuel f v w (k ∷ ks) seen b = elim (Result-cases (f k seen)) [
  | inl (x, e) ↦ ground (arith, e, w k seen b)
  | inr (mid, e) ↦
      ground (arith, e, visit_each-Suffices m fuel f v w ks mid (omega (arith, v k seen mid e)))
]

visit-Suffices : (fuel : ℕ) (m : Steps) → Suffices m fuel (visit fuel m)
unfolding visit
visit-Suffices zero m id seen b = elim b [ ]
visit-Suffices (suc fuel) m id seen b = elim (Mark-cases (mark_of id seen)) [
  | inr (inl e) ↦ ground (arith, e)
  | inr (inr e) ↦ ground (arith, e)
  | inl e ↦ elim (Option-cases (lookup id m)) [
    | inl l ↦ ground (arith, e, l)
    | inr (step, l) ↦ ground (
      arith,
      visit_enter fuel m id seen step e l,
      visit_each-Suffices m fuel (visit fuel m) (visit-Shrinks fuel m) (visit-Suffices fuel m)
          step.depends_on ((id, visiting) ∷ seen) (omega (arith, unmarked-push_new m id seen l e)),
    )
  ]
]

length-index :
    (ss : List PlanStep) (m : Steps) {r : Steps}
    → index ss m ≡ ok r
    → length r ≡ length ss + length m
unfolding index
length-index [] m {r} h =
    let same : m ≡ r = ground arith in
    subst (λ (x : Steps). length x ≡ 0 + length m) same (omega arith)
length-index (s ∷ ss) m h = omega (arith, length-index ss ((s.id, s) ∷ m) (index-cons s ss m h).2)

index-ne-out_of_fuel : (ss : List PlanStep) (m : Steps) → index ss m ≢ err out_of_fuel
unfolding index
index-ne-out_of_fuel [] m = ground arith
index-ne-out_of_fuel (s ∷ ss) m = ground (arith, index-ne-out_of_fuel ss ((s.id, s) ∷ m))

-- checkPlan always ends: the fuel that bounds the depth of its search is enough for every plan.
pub check_plan-ne-out_of_fuel : (steps : List PlanStep) → check_plan steps ≢ err out_of_fuel
unfolding check_plan
check_plan-ne-out_of_fuel steps = elim (Result-cases (index steps [])) [
  | inl (x, e) ↦ ground (arith, e, index-ne-out_of_fuel steps [])
  | inr (m, e) ↦ ground (
    arith,
    e,
    visit_each-Suffices m (length steps + 1) (visit (length steps + 1) m) (visit-Shrinks _ m)
        (visit-Suffices _ m) (ids steps) []
        (omega (arith, unmarked-le-length m [], length-index steps [] e)),
  )
]
