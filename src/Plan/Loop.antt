-- ===== src/Plan/Loop.antt =====
-- The loop of runTask in internal/engine/loop.go over the steps of a plan. What the conversation of a
-- step, the planning request and the task log answer in each round are parameters.
use go_agent_claw.Prelude.{
  ℕ, zero, suc, ◌+◌, ◌≤◌, ◌<◌, ◌≡◌, refl, sym, ap, subst, ◌≢◌, inl, inr, Bool, true, false, ◌||◌,
  Option, none, some, List, [], ◌∷◌, ◌++◌, map, arith, Bool-cases, Option-cases, if◌then◌else◌,
  length, get_elem?, In, Result, ok, err, ◌>>=◌, >>=-eq-ok, Result-cases,
}
use go_agent_claw.Plan.{PlanStep, PlanError, check_plan, ready_step, frozen, reset, propose_plan}
use go_agent_claw.Plan.Ready.{Accepted, check_plan-Accepted, ready_step_sound, ready_step_stops}
use go_agent_claw.Plan.Reset.{Accepted-reset}

-- Why the conversation of a step stopped: a readonlyRepeatStop, errBlocked, or anything else.
pub data Stop : Type 0 where
  readonly_repeat blocked other : Stop

pub data LoopError : Type 0 where
  stopped : Stop → LoopError
  generate_failed storage_failed index_outside out_of_fuel : LoopError
  bad_plan : PlanError → LoopError

pub data Reply : Type 0 where
  delivered : Reply
  stops : Stop → Reply

pub record Answers : Type 0 where
  pub converse : ℕ → PlanStep → Reply
  pub has_pending : ℕ → Bool
  pub replan : ℕ → Option (Option (List PlanStep))
  pub saves : ℕ → Bool

unfoldable pub mark_done : ℕ → List PlanStep → List PlanStep
mark_done i [] = []
mark_done zero (s ∷ ss) = record s { done = true } ∷ ss
mark_done (suc i) (s ∷ ss) = s ∷ mark_done i ss

abbrev pub Progress : Type 0
Progress = List PlanStep × Bool

abbrev pub or_bad_plan : {A : Type 0} → Result PlanError A → Result LoopError A
or_bad_plan (ok a) = ok a
or_bad_plan (err e) = err (bad_plan e)

-- One patch of the plan is allowed in a run.
unfoldable pub patch : Answers → ℕ → List PlanStep → Result LoopError Progress
patch env round steps = elim (env.replan round) [
  | none ↦ err generate_failed
  | some decoded ↦ do
    steps' ← or_bad_plan (propose_plan steps decoded)
    if env.saves round then ok (steps', true) else err storage_failed
]

unfoldable pub after_reply : Answers → ℕ → ℕ → Reply → Progress → Result LoopError Progress
unfolding mark_done patch
after_reply env round i delivered (steps, patched) =
    if env.saves round then ok (mark_done i steps, patched) else err storage_failed
after_reply env round i (stops blocked) (steps, patched) =
    if env.has_pending round || patched then err (stopped blocked) else patch env round steps
after_reply env round i (stops readonly_repeat) (steps, patched) = err (stopped readonly_repeat)
after_reply env round i (stops other) (steps, patched) = err (stopped other)

unfoldable pub run_step : Answers → ℕ → ℕ → Progress → Result LoopError Progress
unfolding after_reply
run_step env round i (steps, patched) = elim (get_elem? steps i) [
  | none ↦ err index_outside
  | some step ↦ after_reply env round i (env.converse round step) (steps, patched)
]

-- The plan when the loop ends without an error.
unfoldable pub run_plan : Answers → ℕ → ℕ → Progress → Result LoopError (List PlanStep)
unfolding run_step ready_step
run_plan env zero round (steps, patched) = err out_of_fuel
run_plan env (suc fuel) round (steps, patched) = elim (ready_step steps) [
  | none ↦ ok steps
  | some i ↦ run_step env round i (steps, patched) >>= run_plan env fuel (suc round)
]

abbrev pub undone : List PlanStep → ℕ
undone [] = 0
undone (s ∷ ss) = (if s.done then 0 else 1) + undone ss

undone-le-length : (ss : List PlanStep) → undone ss ≤ length ss
undone-le-length [] = omega arith
undone-le-length (s ∷ ss) = ground (arith, undone-le-length ss)

undone-mark_done :
    (i : ℕ) (ss : List PlanStep) {s : PlanStep}
    → get_elem? ss i ≡ some s
    → s.done ≡ false
    → suc (undone (mark_done i ss)) ≡ undone ss
unfolding mark_done
undone-mark_done i [] at d = absurd (ground arith)
undone-mark_done zero (x ∷ ss) {s} at d = ground arith
undone-mark_done (suc i) (x ∷ ss) at d = omega (arith, undone-mark_done i ss at d)

mark_done-reset : (i : ℕ) (ss : List PlanStep) → map reset ss ≡ map reset (mark_done i ss)
unfolding mark_done
mark_done-reset i [] = refl
mark_done-reset zero (x ∷ ss) = refl
mark_done-reset (suc i) (x ∷ ss) = ap (◌∷◌ (reset x)) (mark_done-reset i ss)

check_plan-length : (ss : List PlanStep) → check_plan ss ≡ ok tt → length ss ≤ 20
unfolding check_plan
check_plan-length ss h = ground arith

pub propose_plan-checked :
    (ss : List PlanStep) (decoded : Option (List PlanStep)) {ts : List PlanStep}
    → propose_plan ss decoded ≡ ok ts
    → check_plan ts ≡ ok tt
unfolding propose_plan
propose_plan-checked ss none h = cc
propose_plan-checked ss (some steps) {ts} h =
    let (t, c, e) =
      >>=-eq-ok (check_plan (frozen ss ++ map reset steps)) (λ _. ok (frozen ss ++ map reset steps))
        h in
    let same : frozen ss ++ map reset steps ≡ ts = cc in
    subst (λ (x : List PlanStep). check_plan x ≡ ok tt) same c

-- The steps still to do, and a whole new plan while the patch is not used.
abbrev pub rounds_left : Progress → ℕ
rounds_left (steps, patched) = undone steps + (if patched then 0 else 21)

record Advances (before after : Progress) : Type 0 where
  accepted : Accepted after.0
  fewer : rounds_left after < rounds_left before

patch-Advances :
    (env : Answers) (round : ℕ) (steps : List PlanStep) {after : Progress}
    → patch env round steps ≡ ok after
    → Advances (steps, false) after
unfolding patch
patch-Advances env round steps {after} h = elim (Option-cases (env.replan round)) [
  | inl e ↦ absurd (ground (arith, e))
  | inr (decoded, e) ↦ elim (Result-cases (propose_plan steps decoded)) [
    | inl (x, f) ↦ absurd (ground (arith, e, f))
    | inr (ts, f) ↦
        let same : (ts, true) ≡ after = ground (arith, e, f) in
        subst (Advances (steps, false)) same (record {
          accepted = check_plan-Accepted ts (propose_plan-checked steps decoded f);
          fewer = omega (
            arith,
            undone-le-length ts,
            check_plan-length ts (propose_plan-checked steps decoded f),
          );
        })
  ]
]

delivered-Advances :
    (i : ℕ) (steps : List PlanStep) (patched : Bool) {s : PlanStep}
    → Accepted steps
    → get_elem? steps i ≡ some s
    → s.done ≡ false
    → Advances (steps, patched) (mark_done i steps, patched)
delivered-Advances i steps patched a at d = record {
  accepted = Accepted-reset steps (mark_done i steps) (mark_done-reset i steps) a;
  fewer = omega (arith, undone-mark_done i steps at d);
}

after_reply-Advances :
    (env : Answers) (round i : ℕ) (reply : Reply) (steps : List PlanStep) (patched : Bool)
    {s : PlanStep} {after : Progress}
    → Accepted steps
    → get_elem? steps i ≡ some s
    → s.done ≡ false
    → after_reply env round i reply (steps, patched) ≡ ok after
    → Advances (steps, patched) after
unfolding after_reply
after_reply-Advances env round i delivered steps patched {after} a at d h =
    let same : (mark_done i steps, patched) ≡ after = ground arith in
    subst (Advances (steps, patched)) same (delivered-Advances i steps patched a at d)
after_reply-Advances env round i (stops readonly_repeat) steps patched a at d h = cc
after_reply-Advances env round i (stops other) steps patched a at d h = cc
after_reply-Advances env round i (stops blocked) steps true a at d h = absurd (ground arith)
after_reply-Advances env round i (stops blocked) steps false a at d h =
    patch-Advances env round steps (ground arith)

-- No round of the loop reports one of the two errors that the model adds.
abbrev pub IsReal : {A : Type 0} → Result LoopError A → Type 0
IsReal r = (r ≢ err out_of_fuel) × (r ≢ err index_outside)

patch-IsReal : (env : Answers) (round : ℕ) (steps : List PlanStep) → IsReal (patch env round steps)
unfolding patch
patch-IsReal env round steps = elim (Option-cases (env.replan round)) [
  | inl e ↦ (ground (arith, e), ground (arith, e))
  | inr (decoded, e) ↦ elim (Result-cases (propose_plan steps decoded)) [
    | inl (x, f) ↦ (ground (arith, e, f), ground (arith, e, f))
    | inr (ts, f) ↦ (ground (arith, e, f), ground (arith, e, f))
  ]
]

after_reply-IsReal :
    (env : Answers) (round i : ℕ) (reply : Reply) (before : Progress)
    → IsReal (after_reply env round i reply before)
unfolding after_reply
after_reply-IsReal env round i delivered (steps, patched) = (ground arith, ground arith)
after_reply-IsReal env round i (stops blocked) (steps, patched) =
    (ground (arith, patch-IsReal env round steps), ground (arith, patch-IsReal env round steps))
after_reply-IsReal env round i (stops readonly_repeat) (steps, patched) = (λ e. cc, λ e. cc)
after_reply-IsReal env round i (stops other) (steps, patched) = (λ e. cc, λ e. cc)

run_step_lem :
    (env : Answers) (round i : ℕ) (steps : List PlanStep) (patched : Bool)
    → Accepted steps
    → ready_step steps ≡ some i
    → IsReal (run_step env round i (steps, patched))
      × ((after : Progress)
          → run_step env round i (steps, patched) ≡ ok after
          → Advances (steps, patched) after)
unfolding run_step
run_step_lem env round i steps patched a r =
    let (s, at, d, _) = ready_step_sound steps i a r in
    let same : run_step env round i (steps, patched)
        ≡ after_reply env round i (env.converse round s) (steps, patched) =
      ground (arith, at) in
    subst
      (λ (x : Result LoopError Progress).
        IsReal x × ((after : Progress) → x ≡ ok after → Advances (steps, patched) after))
      (sym same)
      (
        after_reply-IsReal env round i (env.converse round s) (steps, patched),
        λ after. after_reply-Advances env round i (env.converse round s) steps patched a at d,
      )

all_undone :
    (steps : List PlanStep) → ((s : PlanStep) → In s steps → s.done ≡ false → ⊥) → undone steps ≡ 0
all_undone [] h = refl
all_undone (s ∷ ss) h = elim (Bool-cases s.done) [
  | inl t ↦ ground (arith, t, all_undone ss (λ x i. h x (inr i)))
  | inr f ↦ absurd (h s (inl refl) f)
]

-- The loop over an accepted plan ends within the rounds that are left.
run_plan_ends :
    (env : Answers) (fuel round : ℕ) (steps : List PlanStep) (patched : Bool)
    → Accepted steps
    → rounds_left (steps, patched) < fuel
    → IsReal (run_plan env fuel round (steps, patched))
      × ((final : List PlanStep)
          → run_plan env fuel round (steps, patched) ≡ ok final
          → undone final ≡ 0)
unfolding run_plan
run_plan_ends env zero round steps patched a b = elim b [ ]
run_plan_ends env (suc fuel) round steps patched a b = elim (Option-cases (ready_step steps)) [
  | inl e ↦
      let all : undone steps ≡ 0 =
        all_undone steps (λ s i d. let (j, f) = ready_step_stops steps s a i d in cc) in
      (
        (ground (arith, e), ground (arith, e)),
        λ final h.
            let same : steps ≡ final = ground (arith, e) in
            subst (λ (x : List PlanStep). undone x ≡ 0) same all,
      )
  | inr (i, e) ↦
      let (real, next) = run_step_lem env round i steps patched a e in
      elim (Result-cases (run_step env round i (steps, patched))) [
        | inl (x, f) ↦ (
          (ground (arith, e, f, real), ground (arith, e, f, real)),
          λ final h. absurd (ground (arith, e, f)),
        )
        | inr (after, f) ↦
            let more = next after f in
            let ih =
              run_plan_ends env fuel (suc round) after.0 after.1 more.accepted
                (omega (arith, more.fewer)) in
            (
              (ground (arith, e, f, ih.0), ground (arith, e, f, ih.0)),
              λ final h. ih.1 final (ground (arith, e, f)),
            )
      ]
]

-- A plan has at most 20 steps, and one patch makes at most 20 new ones.
abbrev pub max_rounds : ℕ
max_rounds = 42

-- The loop of runTask over any plan that checkPlan accepts ends within 42 rounds, whatever the model
-- answers: it comes to an error of the environment, never to a missing step, or it returns a plan whose
-- steps are all done.
pub run_plan_total :
    (env : Answers) (steps : List PlanStep)
    → check_plan steps ≡ ok tt
    → IsReal (run_plan env max_rounds 0 (steps, false))
      × ((final : List PlanStep)
          → run_plan env max_rounds 0 (steps, false) ≡ ok final
          → undone final ≡ 0)
run_plan_total env steps h =
    run_plan_ends env max_rounds 0 steps false (check_plan-Accepted steps h)
      (omega (arith, undone-le-length steps, check_plan-length steps h))
