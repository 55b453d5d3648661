-- ===== src/Session/Window.antt =====
-- The window of GetWorkingMemory in internal/context/session.go.
use go_agent_claw.Prelude.{
  ℕ, zero, suc, ◌≤◌, ◌≡◌, refl, ◌⊎◌, inl, inr, true, false, some, List, [], ◌∷◌, arith, Bool-cases,
  Option-cases, drop, get_elem?, eq_iff,
}
use go_agent_claw.Session.{
  Message, Session, user, is_plain_user, is_tool_result, is_plain_at, backtrack, skip_orphans,
}
use go_agent_claw.Session.Shape.{Fits}

-- The first message is one that the user wrote.
abbrev pub Opens : List Message → Type 0
Opens [] = ⊥
Opens (m ∷ ms) = (m.role ≡ user) × (m.tool_call_id ≡ "")

pub plain-Opens : (m : Message) → is_plain_user m ≡ true → (m.role ≡ user) × (m.tool_call_id ≡ "")
unfolding is_plain_user
plain-Opens m h = ground (arith, eq_iff m.tool_call_id "")

-- Stepping back ends at the start of the history or at a message of the user.
pub backtrack_lem :
    (h : List Message) (i : ℕ)
    → (backtrack h i ≤ i) × ((backtrack h i ≡ 0) ⊎ (is_plain_at h (backtrack h i) ≡ true))
unfolding backtrack
backtrack_lem h zero = (omega arith, inl refl)
backtrack_lem h (suc i) = elim (Bool-cases (is_plain_at h (suc i))) [
  | inl e ↦ ground (arith, e)
  | inr e ↦ ground (arith, e, backtrack_lem h i)
]

pub drop-get_elem :
    (h : List Message) (i : ℕ) {m : Message}
    → get_elem? h i ≡ some m
    → (rest : List Message) × (drop i h ≡ m ∷ rest)
drop-get_elem [] i e = absurd (ground arith)
drop-get_elem (x ∷ h) zero e = (h, ground arith)
drop-get_elem (x ∷ h) (suc i) e = drop-get_elem h i e

-- What is left starts with no tool result.
pub skip_orphans-head :
    (h : List Message) {m : Message} {rest : List Message}
    → skip_orphans h ≡ m ∷ rest
    → is_tool_result m ≡ false
unfolding skip_orphans
skip_orphans-head [] e = absurd (ground arith)
skip_orphans-head (x ∷ h) {m} {rest} e = elim (Bool-cases (is_tool_result x)) [
  | inl t ↦ let same : skip_orphans h ≡ m ∷ rest = ground (arith, t) in skip_orphans-head h same
  | inr f ↦ ground (arith, f)
]

-- A message list that can be sent: the user opens it and every tool result has its call.
abbrev pub IsSendable : List Message → Type 0
IsSendable msgs = Opens msgs × Fits [] msgs

pub is_plain_at_lem :
    (h : List Message) (i : ℕ)
    → is_plain_at h i ≡ true
    → (m : Message) × (get_elem? h i ≡ some m) × (is_plain_user m ≡ true)
unfolding is_plain_at
is_plain_at_lem h i e = elim (Option-cases (get_elem? h i)) [
  | inl none_here ↦ absurd (ground (arith, none_here))
  | inr (m, here) ↦ (m, here, ground (arith, here))
]
