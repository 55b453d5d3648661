-- ===== src/Action/Known.antt =====
-- When AgentEngine.execute (internal/engine/execution.go) takes the effect of a call for known.
use go_agent_claw.Prelude.{
  ◌≡◌, ◌≢◌, refl, ◌⊎◌, inl, inr, Bool, true, false, none, arith, Bool-cases,
}
use go_agent_claw.Effects.{EffectStatus, effect_unknown}
use go_agent_claw.Tools.{ToolResult, ToolStatus, succeeded, failed, is_success}
use go_agent_claw.Action.{is_none}
use go_agent_claw.Action.Execute.{is_unknown, is_failure, is_uncertain}

-- What the call did is known: it is no write, its effect is known, it succeeded, or it is a verifier's command that
-- failed with an exit code.
abbrev pub IsKnown : Bool → Bool → ToolResult → Type 0
IsKnown mutation verifier r =
    (mutation ≡ false)
    ⊎ (r.effect ≢ effect_unknown)
    ⊎ (r.status ≡ succeeded)
    ⊎ ((verifier ≡ true) × (r.exit_code ≢ none) × (r.status ≡ failed))

is_unknown-effect : (e : EffectStatus) → is_unknown e ≡ false → e ≢ effect_unknown
is_unknown-effect e h same = absurd (ground (arith, h, same))

is_success-status : (s : ToolStatus) → is_success s ≡ true → s ≡ succeeded
is_success-status s h = ground (arith, h)

is_failure-status : (s : ToolStatus) → is_failure s ≡ true → s ≡ failed
is_failure-status s h = ground (arith, h)

pub is_uncertain-IsKnown :
    (mutation verifier : Bool) (r : ToolResult)
    → is_uncertain mutation verifier r ≡ false
    → IsKnown mutation verifier r
unfolding is_uncertain
is_uncertain-IsKnown false verifier r h = inl refl
is_uncertain-IsKnown true verifier r h = elim (Bool-cases (is_unknown r.effect)) [
  | inr e ↦ inr (inl (is_unknown-effect r.effect e))
  | inl e ↦ elim (Bool-cases (is_success r.status)) [
    | inl s ↦ inr (inr (inl (is_success-status r.status s)))
    | inr s ↦
        let exits : is_none r.exit_code ≡ false = ground (arith, h, e, s) in
        inr (
          inr (
            inr (
              ground (arith, h, e, s),
              λ q. absurd (ground (arith, exits, q)),
              is_failure-status r.status (ground (arith, h, e, s)),
            )))
  ]
]
