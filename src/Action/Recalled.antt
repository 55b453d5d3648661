-- ===== src/Action/Recalled.antt =====
-- The earlier result that AgentEngine.execute (internal/engine/execution.go) returns again.
use go_agent_claw.Prelude.{
  ◌≡◌, ◌≢◌, sym, ap, ◌⊎◌, inl, inr, none, some, List, [], ◌∷◌, String, arith, Bool-cases,
  Option-cases, In, str_eq, eq_iff,
}
use go_agent_claw.Tools.{ToolResult}
use go_agent_claw.Action.{Run}
use go_agent_claw.Action.Execute.{find_result, previous_result}

-- The result stands under the key among those that the run resumes with, or, for a step of a plan and where there
-- is none, among those of the actions that are completed.
abbrev pub IsRecalled : {M : Type 0} → String → String → Run M → ToolResult → Type 0
IsRecalled key step_id run r =
    In (key, r) run.resume_receipts
    ⊎ ((step_id ≢ "")
        × ((other : ToolResult) → ¬ In (key, other) run.resume_receipts)
        × In (key, r) run.actions.completed)

find_result-In :
    (k : String) (results : List (String × ToolResult)) {r : ToolResult}
    → find_result k results ≡ some r
    → In (k, r) results
unfolding find_result
find_result-In k [] h = absurd (ground (arith, h))
find_result-In k ((j, old) ∷ results) {r} h = elim (Bool-cases (str_eq j k)) [
  | inl e ↦
      let key : k ≡ j = sym ((eq_iff j k).0 e) in
      let value : r ≡ old = ground (arith, e, h) in inl cc
  | inr e ↦ inr (find_result-In k results (ground (arith, e, h)))
]

find_result-none :
    (k : String) (results : List (String × ToolResult)) (r : ToolResult)
    → find_result k results ≡ none
    → ¬ In (k, r) results
unfolding find_result
find_result-none k [] r h inside = inside
find_result-none k ((j, old) ∷ results) r h (inl same) =
    let key : k ≡ j = ap (λ e. e.0) same in absurd (ground (arith, h, key, eq_iff j k))
find_result-none k ((j, old) ∷ results) r h (inr inside) =
    find_result-none k results r (ground (arith, h)) inside

pub previous_result-IsRecalled :
    {M : Type 0} (key step_id : String) (run : Run M) {r : ToolResult}
    → previous_result key step_id run ≡ some r
    → IsRecalled key step_id run r
unfolding previous_result
previous_result-IsRecalled key step_id run {r} h =
    elim (Option-cases (find_result key run.resume_receipts)) [
      | inr (x, e) ↦
          let found : find_result key run.resume_receipts ≡ some r = ground (arith, e, h) in
          inl (find_result-In key run.resume_receipts found)
      | inl e ↦ elim (Bool-cases (str_eq step_id "")) [
        | inl s ↦ absurd (ground (arith, e, s, h))
        | inr s ↦ inr (
          λ q. absurd (ground (arith, s, q, eq_iff step_id "")),
          λ other. find_result-none key run.resume_receipts other e,
          find_result-In key run.actions.completed (ground (arith, e, s, h)),
        )
      ]
    ]
