-- ===== src/Plan/Tests.antt =====
-- Plans of three and four steps.
use go_agent_claw.Prelude.{
  ◌≡◌, refl, ℕ, true, false, some, List, [], ◌∷◌, String, In, All, get_elem?, ok, err,
}
use go_agent_claw.Plan.{
  PlanStep, cycle, check_plan, ready_step, propose_plan, is_well_formed, lookup, visit_each,
  mark_of,
}
use go_agent_claw.Plan.Ready.{IsMet, ready_step_lem}
use go_agent_claw.Plan.Patch.{IsPatch, propose_plan-IsPatch}
use go_agent_claw.Plan.Loop.{
  Answers, delivered, stops, blocked, IsReal, undone, run_plan, max_rounds, run_plan_total,
}

abbrev step_of : String → List String → PlanStep
step_of id deps = record { id = id; goal = "do it"; depends_on = deps; done = false }

abbrev done_step : PlanStep
done_step = record { id = "a"; goal = "do it"; depends_on = []; done = true }

abbrev fork : List PlanStep
fork = step_of "c" ("b" ∷ "a" ∷ []) ∷ step_of "b" ("a" ∷ []) ∷ done_step ∷ []

fork_checks : check_plan fork ≡ ok tt
unfolding check_plan is_well_formed lookup visit_each mark_of
fork_checks = refl

circle_fails : check_plan (step_of "a" ("b" ∷ []) ∷ step_of "b" ("a" ∷ []) ∷ []) ≡ err (cycle "a")
unfolding check_plan is_well_formed lookup visit_each mark_of
circle_fails = refl

fork_ready : ready_step fork ≡ some 1
unfolding ready_step
fork_ready = refl

-- The first step that is run blocks, and the plan is patched once.
abbrev env : Answers
env = record {
  converse = λ round _. elim round [ ℕ.zero ↦ stops blocked | _ ↦ delivered ];
  has_pending = λ _. false;
  replan = λ _. some (some (step_of "d" ("a" ∷ []) ∷ []));
  saves = λ _. true;
}

patched_run :
    run_plan env max_rounds 0 (fork, false)
    ≡ ok (done_step ∷ record (step_of "d" ("a" ∷ [])) { done = true } ∷ [])
unfolding run_plan propose_plan is_well_formed lookup visit_each mark_of
patched_run = refl

ready_step_lem_example :
    ((i : ℕ)
      → ready_step fork ≡ some i
      → (s : PlanStep) × (get_elem? fork i ≡ some s)
        × (s.done ≡ false)
        × All (IsMet fork) s.depends_on)
    × ((s : PlanStep) → In s fork → s.done ≡ false → (i : ℕ) × (ready_step fork ≡ some i))
ready_step_lem_example = ready_step_lem fork fork_checks

run_plan_total_example :
    IsReal (run_plan env max_rounds 0 (fork, false))
    × ((final : List PlanStep)
        → run_plan env max_rounds 0 (fork, false) ≡ ok final
        → undone final ≡ 0)
run_plan_total_example = run_plan_total env fork fork_checks

propose_plan-IsPatch_example : IsPatch fork (done_step ∷ step_of "d" ("a" ∷ []) ∷ [])
unfolding propose_plan is_well_formed lookup visit_each mark_of
propose_plan-IsPatch_example = propose_plan-IsPatch fork (some (step_of "d" ("a" ∷ []) ∷ [])) refl
