-- ===== src/Plan/Search.antt =====
-- The depth-first search of checkPlan in internal/engine/plan.go: where it succeeds, the ids in the
-- order in which it finished them put each step behind all that it depends on.
use go_agent_claw.Prelude.{
  ℕ, zero, suc, ◌≡◌, refl, sym, subst, ◌∙◌, ◌⊎◌, inl, inr, some, List, [], ◌∷◌, String, arith,
  Bool-cases, Option-cases, All, In, Result, ok, ◌>>=◌, >>=-eq-ok, str_eq, eq_iff,
}
use go_agent_claw.Plan.{
  PlanStep, PlanError, Steps, Mark, unseen, visiting, visited, Seen, lookup, mark_of, visit_each,
  visit,
}

-- The finished ids, the last first.
abbrev pub finished : Seen → List String
finished [] = []
finished ((k, visited) ∷ seen) = k ∷ finished seen
finished ((k, visiting) ∷ seen) = finished seen
finished ((k, unseen) ∷ seen) = finished seen

-- Each id has a step in the map, and the ids that it depends on come behind it.
abbrev pub IsOrdered : Steps → List String → Type 0
IsOrdered m [] = Unit {0}
IsOrdered m (k ∷ older) =
    ((s : PlanStep) × (lookup k m ≡ some s) × All (λ d. In d older) s.depends_on)
    × IsOrdered m older

pub In-finished : (k : String) (seen : Seen) → mark_of k seen ≡ visited → In k (finished seen)
unfolding mark_of
In-finished k [] h = absurd (ground arith)
In-finished k ((j, visited) ∷ seen) h = elim (Bool-cases (str_eq j k)) [
  | inl t ↦ inl (sym ((eq_iff j k).0 t))
  | inr f ↦ inr (In-finished k seen (ground (arith, f)))
]
In-finished k ((j, visiting) ∷ seen) h = In-finished k seen (ground arith)
In-finished k ((j, unseen) ∷ seen) h = In-finished k seen (ground arith)

-- What a call that succeeds leaves behind.
pub record Visits (m : Steps) (seen after : Seen) : Type 0 where
  pub ordered : IsOrdered m (finished seen) → IsOrdered m (finished after)
  pub lasting : (k : String) → mark_of k seen ≡ visited → mark_of k after ≡ visited

Visits-refl : (m : Steps) (seen : Seen) → Visits m seen seen
Visits-refl m seen = record { ordered = λ o. o; lasting = λ k h. h }

Visits-trans : (m : Steps) {a b c : Seen} → Visits m a b → Visits m b c → Visits m a c
Visits-trans m v w = record {
  ordered = λ o. w.ordered (v.ordered o);
  lasting = λ k h. w.lasting k (v.lasting k h);
}

abbrev IsVisitor : Steps → (String → Seen → Result PlanError Seen) → Type 0
IsVisitor m f =
    (k : String) (seen : Seen) (after : Seen)
    → f k seen ≡ ok after
    → Visits m seen after × (mark_of k after ≡ visited)

visit_each-Visits :
    (m : Steps) (f : String → Seen → Result PlanError Seen)
    → IsVisitor m f
    → (ks : List String) (seen after : Seen) → visit_each f ks seen ≡ ok after
    → Visits m seen after × All (λ k. mark_of k after ≡ visited) ks
unfolding visit_each
visit_each-Visits m f v [] seen after h =
    (subst (λ (x : Seen). Visits m seen x) (ground arith) (Visits-refl m seen), tt)
visit_each-Visits m f v (k ∷ ks) seen after h =
    let (mid, first, rest) = >>=-eq-ok (f k seen) (visit_each f ks) h in
    let (one, marked) = v k seen mid first in
    let (more, all) = visit_each-Visits m f v ks mid after rest in
    (Visits-trans m one more, (more.lasting k marked, all))

All-map :
    {P Q : String → Type 0} (ks : List String) → ((k : String) → P k → Q k) → All P ks → All Q ks
All-map [] f a = tt
All-map (k ∷ ks) f a = (f k a.0, All-map ks f a.1)

-- The entry that a call pushes first hides no finished id.
mark_of-push :
    (id k : String) (seen : Seen)
    → mark_of id seen ≡ unseen
    → mark_of k seen ≡ visited
    → mark_of k ((id, visiting) ∷ seen) ≡ visited
unfolding mark_of
mark_of-push id k seen u h = elim (Bool-cases (str_eq id k)) [
  | inl t ↦ absurd (ground (arith, eq_iff id k))
  | inr f ↦ ground (arith, f)
]

mark_of-finish :
    (id k : String) (seen : Seen)
    → mark_of k seen ≡ visited
    → mark_of k ((id, visited) ∷ seen) ≡ visited
unfolding mark_of
mark_of-finish id k seen h = ground arith

mark_of_self : (id : String) (seen : Seen) → mark_of id ((id, visited) ∷ seen) ≡ visited
unfolding mark_of
mark_of_self id seen = ground (arith, eq_iff id id)

-- A call on an id that is not marked, and its step.
visit_new :
    (m : Steps) (f : String → Seen → Result PlanError Seen)
    → IsVisitor m f
    → (id : String) (step : PlanStep) (seen after : Seen) → mark_of id seen ≡ unseen
    → lookup id m ≡ some step
    → visit_each f step.depends_on ((id, visiting) ∷ seen) ≡ ok after
    → Visits m seen ((id, visited) ∷ after)
visit_new m f v id step seen after u l h =
    let (deep, all) = visit_each-Visits m f v step.depends_on ((id, visiting) ∷ seen) after h in
    record {
      ordered =
          λ o. ((step, l, All-map step.depends_on (λ k. In-finished k after) all), deep.ordered o);
      lasting = λ k p. mark_of-finish id k after (deep.lasting k (mark_of-push id k seen u p));
    }

pub Mark-cases : (m : Mark) → (m ≡ unseen) ⊎ ((m ≡ visiting) ⊎ (m ≡ visited))
Mark-cases unseen = inl refl
Mark-cases visiting = inr (inl refl)
Mark-cases visited = inr (inr refl)

pub visit_enter :
    (fuel : ℕ) (m : Steps) (id : String) (seen : Seen) (step : PlanStep)
    → mark_of id seen ≡ unseen
    → lookup id m ≡ some step
    → visit (suc fuel) m id seen ≡ (
        visit_each (visit fuel m) step.depends_on ((id, visiting) ∷ seen) >>= λ after.
        ok ((id, visited) ∷ after))
unfolding visit
visit_enter fuel m id seen step e l = ground (arith, e, l)

pub visit-Visits : (fuel : ℕ) (m : Steps) → IsVisitor m (visit fuel m)
unfolding visit
visit-Visits zero m id seen after h = cc
visit-Visits (suc fuel) m id seen after h = elim (Mark-cases (mark_of id seen)) [
  | inr (inl e) ↦ absurd (ground (arith, e))
  | inr (inr e) ↦
      let same : seen ≡ after = ground (arith, e) in
      subst (λ (x : Seen). Visits m seen x × (mark_of id x ≡ visited)) same (Visits-refl m seen, e)
  | inl e ↦ elim (Option-cases (lookup id m)) [
    | inl l ↦ absurd (ground (arith, e, l))
    | inr (step, l) ↦
        let (mid, deep, out) =
          >>=-eq-ok (visit_each (visit fuel m) step.depends_on ((id, visiting) ∷ seen))
            (λ x. ok ((id, visited) ∷ x)) (sym (visit_enter fuel m id seen step e l) ∙ h) in
        let same : (id, visited) ∷ mid ≡ after = cc in
        subst (λ (x : Seen). Visits m seen x × (mark_of id x ≡ visited)) same
          (
            visit_new m (visit fuel m) (visit-Visits fuel m) id step seen mid e l deep,
            mark_of_self id mid,
          )
  ]
]

-- All steps visited from the start: every id of the list is finished, in an order that respects the
-- dependencies.
pub visit_each-IsOrdered :
    (fuel : ℕ) (m : Steps) (ks : List String) {after : Seen}
    → visit_each (visit fuel m) ks [] ≡ ok after
    → IsOrdered m (finished after) × All (λ k. In k (finished after)) ks
visit_each-IsOrdered fuel m ks {after} h =
    let (v, all) = visit_each-Visits m (visit fuel m) (visit-Visits fuel m) ks [] after h in
    (v.ordered tt, All-map ks (λ k. In-finished k after) all)
