-- ===== src/Plan/Patch.antt =====
-- What proposePlan of internal/engine/plan.go keeps of the plan that it replaces.
use go_agent_claw.Prelude.{
  ◌≡◌, refl, subst, inl, inr, true, false, Option, none, some, List, [], ◌∷◌, ◌++◌, map, arith, All,
  Bool-cases, ok, >>=-eq-ok, IsFilter, filters_none, keeps_one, skips_one,
}
use go_agent_claw.Plan.{PlanStep, check_plan, frozen, reset, propose_plan}
use go_agent_claw.Plan.Loop.{propose_plan-checked}

abbrev pub IsDone : PlanStep → Type 0
IsDone s = s.done ≡ true

frozen-IsFilter : (ss : List PlanStep) → IsFilter IsDone ss (frozen ss)
unfolding frozen
frozen-IsFilter [] = filters_none
frozen-IsFilter (s ∷ ss) = elim (Bool-cases s.done) [
  | inl e ↦
      let same : s ∷ frozen ss ≡ frozen (s ∷ ss) = ground (arith, e) in
      subst (IsFilter IsDone (s ∷ ss)) same (keeps_one e (frozen-IsFilter ss))
  | inr e ↦ rw e (skips_one (λ q. absurd (ground (arith, e, q))) (frozen-IsFilter ss))
]

reset-undone : (ss : List PlanStep) → All (λ s. s.done ≡ false) (map reset ss)
reset-undone [] = tt
reset-undone (s ∷ ss) = (refl, reset-undone ss)

-- The finished steps of the old plan, in their order and as they were, stand at the start of the new one,
-- and behind them are steps that are all still to do. The new plan is one that checkPlan accepts.
pub record IsPatch (steps next : List PlanStep) : Type 0 where
  pub finished : List PlanStep
  pub added : List PlanStep
  pub kept : IsFilter IsDone steps finished
  pub joined : next ≡ finished ++ added
  pub open_steps : All (λ s. s.done ≡ false) added
  pub accepted : check_plan next ≡ ok tt

-- A new plan has exactly the finished steps of the old one, in their order, and behind them only steps still to
-- do: the model's reply can neither drop a finished step, nor change one, nor declare a step done. And the new
-- plan is one that checkPlan accepts.
pub propose_plan-IsPatch :
    (steps : List PlanStep) (decoded : Option (List PlanStep)) {next : List PlanStep}
    → propose_plan steps decoded ≡ ok next
    → IsPatch steps next
unfolding propose_plan
propose_plan-IsPatch steps none h = cc
propose_plan-IsPatch steps (some ts) {next} h =
    let (_, _, e) =
      >>=-eq-ok (check_plan (frozen steps ++ map reset ts)) (λ _. ok (frozen steps ++ map reset ts))
        h in
    record {
      finished = frozen steps;
      added = map reset ts;
      kept = frozen-IsFilter steps;
      joined = cc;
      open_steps = reset-undone ts;
      accepted = propose_plan-checked steps (some ts) h;
    }
