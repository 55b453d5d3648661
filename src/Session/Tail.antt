-- ===== src/Session/Tail.antt =====
-- What GetWorkingMemory in internal/context/session.go keeps of the history.
use go_agent_claw.Prelude.{
  ℕ, zero, suc, ◌+◌, ◌-◌, ◌<◌, ◌≤◌, ◌≡◌, ◌≢◌, refl, sym, subst, ◌∙◌, ◌⊎◌, inl, inr, true, false,
  ◌||◌, List, [], ◌∷◌, arith, All, Bool-cases, dec_le, leb, leb→le, ◌==◌, length, drop, take,
  drop-drop, eq_iff,
}
use go_agent_claw.Session.{
  Message, Session, user, is_plain_user, is_tool_result, is_plain_at, max_backtrack, backtrack,
  skip_orphans, notice, with_notice, window, working_memory,
}
use go_agent_claw.Session.Window.{
  Opens, plain-Opens, backtrack_lem, is_plain_at_lem, drop-get_elem, skip_orphans-head,
}

-- A message with a tool's result.
abbrev pub IsResult : Message → Type 0
IsResult m = (m.role ≡ user) × (m.tool_call_id ≢ "")

is_tool_result-IsResult : (m : Message) → is_tool_result m ≡ true → IsResult m
unfolding is_tool_result
is_tool_result-IsResult m h = ground (arith, eq_iff m.tool_call_id "")

pub Opens-plain : (m : Message) (ms : List Message) → is_plain_user m ≡ false → ¬ Opens (m ∷ ms)
unfolding is_plain_user
Opens-plain m ms e q = absurd (ground (arith, e, q.0, q.1, eq_iff m.tool_call_id ""))

unanswering : (m : Message) → is_tool_result m ≡ false → ¬ IsResult m
unfolding is_tool_result
unanswering m h q = absurd (ground (arith, h, q.0, q.1, eq_iff m.tool_call_id ""))

with_notice_lem :
    (msgs : List Message)
    → (Opens msgs × (with_notice msgs ≡ msgs))
      ⊎ ((¬ Opens msgs) × (with_notice msgs ≡ notice ∷ msgs))
unfolding with_notice
with_notice_lem [] = inr (λ q. q, refl)
with_notice_lem (m ∷ ms) = elim (Bool-cases (is_plain_user m)) [
  | inl e ↦ inl (plain-Opens m e, ground (arith, e))
  | inr e ↦ inr (Opens-plain m ms e, ground (arith, e))
]

is_plain_at-Opens_at : (h : List Message) (i : ℕ) → is_plain_at h i ≡ true → Opens (drop i h)
is_plain_at-Opens_at h i plain =
    let (m, here, user_here) = is_plain_at_lem h i plain in
    let (rest, d) = drop-get_elem h i here in subst Opens (sym d) (plain-Opens m user_here)

is_plain_at-Opens : (h : List Message) (i : ℕ) → is_plain_at h i ≡ false → ¬ Opens (drop i h)
unfolding is_plain_at
is_plain_at-Opens [] zero e q = q
is_plain_at-Opens [] (suc i) e q = q
is_plain_at-Opens (m ∷ h) zero e q = Opens-plain m h (ground (arith, e)) q
is_plain_at-Opens (m ∷ h) (suc i) e q = is_plain_at-Opens h i (ground (arith, e)) q

-- Every message from `n` on up to `start` is one that the user did not write.
backtrack-nearest : (h : List Message) (i j : ℕ) → backtrack h i < j → j ≤ i → ¬ Opens (drop j h)
unfolding backtrack
backtrack-nearest h zero j less within = absurd (omega (arith, less, within))
backtrack-nearest h (suc i) j less within = elim (Bool-cases (is_plain_at h (suc i))) [
  | inl e ↦ absurd (ground (arith, e, less, within))
  | inr e ↦ elim (dec_le j i) [
    | no other ↦
        let same : suc i ≡ j = omega (arith, within, other) in
        subst (λ k. ¬ Opens (drop k h)) same (is_plain_at-Opens h (suc i) e)
    | yes here ↦ backtrack-nearest h i j (ground (arith, e, less)) here
  ]
]

skip_orphans-skipped :
    (h : List Message) → (n : ℕ) × (skip_orphans h ≡ drop n h) × All IsResult (take n h)
unfolding skip_orphans
skip_orphans-skipped [] = (0, refl, tt)
skip_orphans-skipped (m ∷ h) = elim (Bool-cases (is_tool_result m)) [
  | inl e ↦
      let (n, same, skipped) = skip_orphans-skipped h in
      (suc n, ground (arith, e, same), (is_tool_result-IsResult m e, skipped))
  | inr e ↦ (0, ground (arith, e), tt)
]

-- What is sent of `h` with a limit.
pub data IsWindow (h : List Message) (limit : ℕ) (out : List Message) : Type 0 where
  everything : (limit ≡ 0) ⊎ (length h ≤ limit) → out ≡ h → IsWindow h limit out
  from_user :
      (n : ℕ)
      → 0 < limit
      → n ≤ length h - limit
      → length h - limit ≤ n + 3
      → (n ≡ 0) ⊎ Opens (drop n h)
      → ((j : ℕ) → n < j → j ≤ length h - limit → ¬ Opens (drop j h))
      → out ≡ drop n h
      → IsWindow h limit out
  last_ones :
      (n : ℕ)
      → 0 < limit
      → 3 < length h - limit
      → ((j : ℕ) → j ≤ length h - limit → length h - limit ≤ j + 3 → ¬ Opens (drop j h))
      → All IsResult (take n (drop (length h - limit) h))
      → ((m : Message) (rest : List Message)
          → drop (length h - limit + n) h ≡ m ∷ rest
          → ¬ IsResult m)
      → (Opens (drop (length h - limit + n) h) × (out ≡ drop (length h - limit + n) h))
        ⊎ ((¬ Opens (drop (length h - limit + n) h))
            × (out ≡ notice ∷ drop (length h - limit + n) h))
      → IsWindow h limit out

window-IsWindow :
    (s : List Message) (limit : ℕ)
    → 0 < limit
    → limit < length s
    → IsWindow s limit (window s (length s - limit))
unfolding window
window-IsWindow h limit positive long =
    let start = length h - limit in
    let back = backtrack_lem h start in
    elim (Bool-cases (leb (start - backtrack h start) max_backtrack)) [
      | inl e ↦
          let near = leb→le (start - backtrack h start) max_backtrack e in
          rw e (
            from_user (backtrack h start) positive back.0 (omega arith)
              (elim back.1 [
                | inl first ↦ inl first
                | inr plain ↦ inr (is_plain_at-Opens_at h (backtrack h start) plain)
              ])
              (backtrack-nearest h start) refl)
      | inr e ↦
          let (n, same, skipped) = skip_orphans-skipped (drop start h) in
          let at_tail : skip_orphans (drop start h) ≡ drop (start + n) h =
            same ∙ drop-drop n start h in
          rw e (
            last_ones n positive (ground (arith, e))
              (λ j below near. backtrack-nearest h start j (ground (arith, e, near)) below) skipped
              (λ m rest d. unanswering m (skip_orphans-head (drop start h) (at_tail ∙ d)))
              (subst
                (λ t.
                  (Opens t × (with_notice (skip_orphans (drop start h)) ≡ t))
                  ⊎ ((¬ Opens t) × (with_notice (skip_orphans (drop start h)) ≡ notice ∷ t)))
                at_tail (with_notice_lem (skip_orphans (drop start h)))))
    ]

-- For every session and limit, what is sent is the whole history if the limit is 0 or the history is no longer;
-- otherwise it starts with the message that the history less the limit ends in front of, or, where a message that
-- the user wrote or the start of the history is at most three messages before it, with the nearest such; where
-- there is none, the tool results at the head of the last messages are left out, and only them, and the notice
-- that earlier messages were cut stands in front unless the user wrote what is then the first. Nothing behind the
-- first message is left out.
pub working_memory-IsWindow :
    (s : Session) (limit : ℕ) → IsWindow s.history limit (working_memory s limit)
unfolding working_memory
working_memory-IsWindow s limit = elim (Bool-cases (leb (length s.history) limit || limit == 0)) [
  | inl e ↦ rw e (everything (ground (arith, e)) refl)
  | inr e ↦ rw e (window-IsWindow s.history limit (ground (arith, e)) (ground (arith, e)))
]
