-- ===== src/Plan/Reset.antt =====
-- What checkPlan of internal/engine/plan.go finds does not depend on which steps are done.
use go_agent_claw.Prelude.{
  inl, inr, ◌≡◌, refl, sym, ap, subst, ◌∙◌, Option, none, some, List, [], ◌∷◌, String, map, arith,
  Option-cases, All, In, Result, ok, err, Result-cases,
}
use go_agent_claw.Plan.{PlanStep, PlanError, Steps, lookup, is_well_formed, index, reset, ids}
use go_agent_claw.Plan.Search.{IsOrdered}
use go_agent_claw.Plan.Ready.{Accepted}

abbrev reset_map : Steps → Steps
reset_map [] = []
reset_map ((k, s) ∷ m) = (k, reset s) ∷ reset_map m

abbrev reset_option : Option PlanStep → Option PlanStep
reset_option none = none
reset_option (some s) = some (reset s)

abbrev reset_result : Result PlanError Steps → Result PlanError Steps
reset_result (ok m) = ok (reset_map m)
reset_result (err e) = err e

lookup-reset : (k : String) (m : Steps) → lookup k (reset_map m) ≡ reset_option (lookup k m)
unfolding lookup
lookup-reset k [] = refl
lookup-reset k ((j, s) ∷ m) = ground (arith, lookup-reset k m)

is_well_formed-reset : (s : PlanStep) → is_well_formed (reset s) ≡ is_well_formed s
unfolding is_well_formed
is_well_formed-reset s = refl

index-reset :
    (ss : List PlanStep) (m : Steps)
    → index (map reset ss) (reset_map m) ≡ reset_result (index ss m)
unfolding index
index-reset [] m = refl
index-reset (s ∷ ss) m =
    ground (arith, is_well_formed-reset s, lookup-reset s.id m, index-reset ss ((s.id, s) ∷ m))

IsOrdered-reset :
    (m n : Steps) (order : List String)
    → reset_map m ≡ reset_map n
    → IsOrdered m order
    → IsOrdered n order
IsOrdered-reset m n [] e o = tt
IsOrdered-reset m n (k ∷ older) e o =
    let (s, l, deps) = o.0 in
    let same : reset_option (lookup k n) ≡ some (reset s) =
      sym (lookup-reset k n) ∙ ap (lookup k) (sym e) ∙ lookup-reset k m ∙ ap reset_option l in
    elim (Option-cases (lookup k n)) [
      | inl l' ↦ absurd (ground (arith, same, l'))
      | inr (t, l') ↦
          let dep : s.depends_on ≡ t.depends_on = ground (arith, same, l') in
          (
            (t, l', subst (λ (ds : List String). All (λ d. In d older) ds) dep deps),
            IsOrdered-reset m n older e o.1,
          )
    ]

ids-reset : (ss : List PlanStep) → ids (map reset ss) ≡ ids ss
ids-reset [] = refl
ids-reset (s ∷ ss) = ap (◌∷◌ s.id) (ids-reset ss)

pub Accepted-reset :
    (ss ts : List PlanStep) → map reset ss ≡ map reset ts → Accepted ss → Accepted ts
Accepted-reset ss ts e a =
    let same : reset_result (index ts []) ≡ ok (reset_map a.by_id) =
      sym (index-reset ts [])
      ∙ ap (λ (x : List PlanStep). index x []) (sym e)
      ∙ index-reset ss []
      ∙ ap reset_result a.indexed in
    elim (Result-cases (index ts [])) [
      | inl (x, f) ↦ absurd (ground (arith, same, f))
      | inr (m, f) ↦ record {
        by_id = m;
        order = a.order;
        indexed = f;
        ordered = IsOrdered-reset a.by_id m a.order (ground (arith, same, f)) a.ordered;
        covered =
            subst (λ (ks : List String). All (λ k. In k a.order) ks)
              (sym (ids-reset ss) ∙ ap ids e ∙ ids-reset ts) a.covered;
      }
    ]
