-- ===== src/Tools/Steps.antt =====
-- The steps of registryImpl.Execute (internal/tools/registry.go) before the handler starts.
use go_agent_claw.Prelude.{
  ℕ, ◌≡◌, refl, sym, ◌∙◌, subst, inl, inr, true, Option, none, some, List, [], ◌∷◌, arith,
  Bool-cases, Option-cases, ok, err,
}
use go_agent_claw.Session.{ToolCall}
use go_agent_claw.Tools.{ToolError}
use go_agent_claw.Tools.Scope.{scope_from_context, allows_tool}
use go_agent_claw.Tools.Registry.{
  Env, Tool, Step, Verdict, Stage, middleware, persist_hook, at_context, check_context, find_tool,
  require_tool, check_arguments, pass_middleware, run_middlewares, run_hook, admit, ◌>=>◌,
}

-- Each middleware lets the call pass, and the context is still open after it.
pub data Passes {W : Type 0} (env : Env W) (call : ToolCall)
    : List (W → ToolCall → W × Verdict) → W → W → Type 0 where
  passes_nil : {w : W} → Passes env call [] w w
  passes_cons :
      {mw : W → ToolCall → W × Verdict} {mws : List (W → ToolCall → W × Verdict)} {w w₁ w₂ w₃ : W}
      {verdict : Verdict}
      → mw w call ≡ (w₁, verdict)
      → env.look w₁ ≡ (w₂, none)
      → verdict.allowed ≡ true
      → Passes env call mws w₂ w₃
      → Passes env call (mw ∷ mws) w w₃

-- The call's arguments are not refused, where the tool checks them.
abbrev pub HasValidArguments : {W : Type 0} → Tool W → W → ToolCall → Type 0
HasValidArguments {W} tool w call =
    (validate : W → List ℕ → Option ToolError)
    → tool.validate ≡ some validate
    → validate w call.arguments ≡ none

-- The record of the call, where one is wanted, was written.
abbrev pub IsRecorded : {W : Type 0} → Option (W → W × Option (List ℕ)) → W → W → Type 0
IsRecorded none w w' = w ≡ w'
IsRecorded (some hook) w w' = hook w ≡ (w', none)

-- Every condition under which a handler may start, with the world in which it does.
pub record Admission {W : Type 0} (env : Env W) (call : ToolCall) (w : W) (tool : Tool W) (end : W)
    : Type 0 where
  pub first : W
  pub checked : W
  pub recorded : W
  pub open_before : env.look w ≡ (first, none)
  pub registered : env.tools call.name ≡ some tool
  pub permitted : allows_tool (scope_from_context env.scope) call.name ≡ true
  pub valid : HasValidArguments tool first call
  pub passed : Passes env call env.middlewares first checked
  pub written : IsRecorded env.hook checked recorded
  pub open_after : env.look recorded ≡ (end, none)

>=>-eq-ok :
    {W A B : Type 0} (step : Step W A) (next : W → A → Step W B) {end : W} {b : B}
    → step >=> next ≡ (end, ok b)
    → (middle : W) × (a : A) × (step ≡ (middle, ok a)) × (next middle a ≡ (end, ok b))
>=>-eq-ok (w, ok a) next h = (w, a, refl, h)
>=>-eq-ok (w, err e) next h = absurd (ground arith)

module _ {W : Type 0} (env : Env W) (call : ToolCall) where
  check_context-eq-ok :
      (stage : Stage) (w : W) {w' : W} {done : Unit {0}}
      → check_context env call stage w ≡ (w', ok done)
      → env.look w ≡ (w', none)
  unfolding check_context
  check_context-eq-ok stage w h = elim (Option-cases (env.look w).1) [
    | inl e ↦ ground (arith, e)
    | inr (x, e) ↦ absurd (ground (arith, e))
  ]

  check_context_open :
      (stage : Stage) (w : W) {w' : W}
      → env.look w ≡ (w', none)
      → check_context env call stage w ≡ (w', ok tt)
  unfolding check_context
  check_context_open stage w h = ground arith

  pass_middleware-eq-ok :
      (mw : W → ToolCall → W × Verdict) (w : W) {w' : W} {done : Unit {0}}
      → pass_middleware env call mw w ≡ (w', ok done)
      → (middle : W) × (verdict : Verdict) × (mw w call ≡ (middle, verdict))
        × (env.look middle ≡ (w', none))
        × (verdict.allowed ≡ true)
  unfolding pass_middleware
  pass_middleware-eq-ok mw w {w'} h =
      let (seen, done, context, last) =
        >=>-eq-ok (check_context env call middleware (mw w call).0) _ h in
      elim (Bool-cases (mw w call).1.allowed) [
        | inl a ↦
            let same : seen ≡ w' = ground (arith, a, last) in
            (
              _,
              _,
              refl,
              subst (λ end. env.look (mw w call).0 ≡ (end, none)) same
                  (check_context-eq-ok middleware _ context),
              a,
            )
        | inr a ↦ absurd (ground (arith, a, last))
      ]

  run_middlewares-Passes :
      (mws : List (W → ToolCall → W × Verdict)) (w : W) {w' : W} {done : Unit {0}}
      → run_middlewares env call mws w ≡ (w', ok done)
      → Passes env call mws w w'
  unfolding run_middlewares
  run_middlewares-Passes [] w h =
      let same : w ≡ _ = ground arith in subst (Passes env call [] w) same passes_nil
  run_middlewares-Passes (mw ∷ mws) w h =
      let (middle, done, one, others) = >=>-eq-ok (pass_middleware env call mw w) _ h in
      let (seen, verdict, asked, context, allowed) = pass_middleware-eq-ok mw w one in
      passes_cons asked context allowed (run_middlewares-Passes mws middle others)

  Passes-run_middlewares :
      {mws : List (W → ToolCall → W × Verdict)} {w w' : W}
      → Passes env call mws w w'
      → run_middlewares env call mws w ≡ (w', ok tt)
  unfolding run_middlewares pass_middleware
  Passes-run_middlewares passes_nil = refl
  Passes-run_middlewares
        (passes_cons {mw} {mws} {w} {w₁} {w₂} {w₃} {verdict} asked context allowed later) =
      ground (
        arith,
        asked,
        check_context_open middleware w₁ context,
        allowed,
        Passes-run_middlewares later,
      )

  pub find_tool-eq-ok :
      (w : W) {w' : W} {tool : Tool W}
      → find_tool env call w ≡ (w', ok tool)
      → (w ≡ w') × (env.tools call.name ≡ some tool)
  unfolding find_tool
  find_tool-eq-ok w h = elim (Option-cases (env.tools call.name)) [
    | inl e ↦ absurd (ground (arith, e))
    | inr (t, e) ↦ (ground (arith, e), ground (arith, e))
  ]

  require_tool-eq-ok :
      (w : W) {w' : W} {done : Unit {0}}
      → require_tool env call w ≡ (w', ok done)
      → (w ≡ w') × (allows_tool (scope_from_context env.scope) call.name ≡ true)
  unfolding require_tool
  require_tool-eq-ok w h =
      elim (Bool-cases (allows_tool (scope_from_context env.scope) call.name)) [
        | inl e ↦ (ground (arith, e), e)
        | inr e ↦ absurd (ground (arith, e))
      ]

  check_arguments-eq-ok :
      (tool : Tool W) (w : W) {w' : W} {done : Unit {0}}
      → check_arguments env call tool w ≡ (w', ok done)
      → (w ≡ w') × HasValidArguments tool w call
  unfolding check_arguments
  check_arguments-eq-ok tool w h = elim (Option-cases tool.validate) [
    | inl e ↦ (ground (arith, e), λ validate some_is. absurd (ground (arith, e, some_is)))
    | inr (validate, e) ↦ elim (Option-cases (validate w call.arguments)) [
      | inl valid ↦ (ground (arith, e, valid), λ v same. ground (arith, e, same, valid))
      | inr (x, invalid) ↦ absurd (ground (arith, e, invalid))
    ]
  ]

  check_arguments_valid :
      (tool : Tool W) (w : W)
      → HasValidArguments tool w call
      → check_arguments env call tool w ≡ (w, ok tt)
  unfolding check_arguments
  check_arguments_valid tool w valid = elim (Option-cases tool.validate) [
    | inl e ↦ ground (arith, e)
    | inr (validate, e) ↦ ground (arith, e, valid validate e)
  ]

  run_hook-eq-ok :
      (w : W) {w' : W} {done : Unit {0}}
      → run_hook env call w ≡ (w', ok done)
      → IsRecorded env.hook w w'
  unfolding run_hook
  run_hook-eq-ok w {w'} h = elim (Option-cases env.hook) [
    | inl e ↦ rw e (ground (arith, e))
    | inr (hook, e) ↦ elim (Option-cases (hook w).1) [
      | inl written ↦ rw e (ground (arith, e, written))
      | inr (x, failed) ↦ absurd (ground (arith, e, failed))
    ]
  ]

  run_hook_recorded :
      (w : W) {w' : W} → IsRecorded env.hook w w' → run_hook env call w ≡ (w', ok tt)
  unfolding run_hook
  run_hook_recorded w {w'} h = elim (Option-cases env.hook) [
    | inl e ↦ let same : w ≡ w' = subst (λ k. IsRecorded k w w') e h in ground (arith, e, same)
    | inr (hook, e) ↦
        let same : hook w ≡ (w', none) = subst (λ k. IsRecorded k w w') e h in
        ground (arith, e, same)
  ]

  pub admit-Admission :
      (w : W) {end : W} {tool : Tool W}
      → admit env call w ≡ (end, ok tool)
      → Admission env call w tool end
  unfolding admit
  admit-Admission w {end} {tool} h =
      let (w₁, d₁, s₁, h₁) = >=>-eq-ok (check_context env call at_context w) _ h in
      let (w₂, found, s₂, h₂) = >=>-eq-ok (find_tool env call w₁) _ h₁ in
      let (w₃, d₃, s₃, h₃) = >=>-eq-ok (require_tool env call w₂) _ h₂ in
      let (w₄, d₄, s₄, h₄) = >=>-eq-ok (check_arguments env call found w₃) _ h₃ in
      let (w₅, d₅, s₅, h₅) = >=>-eq-ok (run_middlewares env call env.middlewares w₄) _ h₄ in
      let (w₆, d₆, s₆, h₆) = >=>-eq-ok (run_hook env call w₅) _ h₅ in
      let (w₇, d₇, s₇, h₇) = >=>-eq-ok (check_context env call persist_hook w₆) _ h₆ in
      let (e₂, registered) = find_tool-eq-ok w₁ s₂ in
      let (e₃, permitted) = require_tool-eq-ok w₂ s₃ in
      let (e₄, valid) = check_arguments-eq-ok found w₃ s₄ in
      let same_tool : found ≡ tool = ground (arith, h₇) in
      let same_end : w₇ ≡ end = ground (arith, h₇) in
      subst (λ t. Admission env call w t end) same_tool
        (record {
          first = w₁;
          checked = w₅;
          recorded = w₆;
          open_before = check_context-eq-ok at_context w s₁;
          registered = registered;
          permitted = permitted;
          valid = subst (λ u. HasValidArguments found u call) (sym (e₂ ∙ e₃)) valid;
          passed =
              subst (λ u. Passes env call env.middlewares u w₅) (sym (e₂ ∙ e₃ ∙ e₄))
                (run_middlewares-Passes env.middlewares w₄ s₅);
          written = run_hook-eq-ok w₅ s₆;
          open_after =
              subst (λ u. env.look w₆ ≡ (u, none)) same_end
                (check_context-eq-ok persist_hook w₆ s₇);
        })

  pub Admission-admit :
      (w : W) {end : W} {tool : Tool W}
      → Admission env call w tool end
      → admit env call w ≡ (end, ok tool)
  unfolding admit require_tool find_tool
  Admission-admit w {end} {tool} a = ground (
    arith,
    check_context_open at_context w a.open_before,
    a.registered,
    a.permitted,
    check_arguments_valid tool a.first a.valid,
    Passes-run_middlewares a.passed,
    run_hook_recorded a.checked a.written,
    check_context_open persist_hook a.recorded a.open_after,
  )
