-- ===== src/Approval/Approved.antt =====
-- What lets a call pass the guard of internal/feishu/approval.go.
use go_agent_claw.Prelude.{
  ◌≤◌, ◌≡◌, sym, ap, ◌∙◌, subst, inl, inr, ◌⊎◌, true, ◌&&◌, ◌||◌, Option, none, some, List, String,
  arith, Bool-cases, Option-cases, if◌then◌else◌, length, ltb, str_eq, eq_iff,
}
use go_agent_claw.Session.{ToolCall}
use go_agent_claw.Tools.Scope.{is_read_only}
use go_agent_claw.Approval.{
  Target, Request, Manager, Waiting, Binding, Attempt, find_entry, open_request, receive, wait,
  make_target, same_target, guard, has_none, Refusal, cancelled, too_long, no_approver, no_target,
  changed,
}
use go_agent_claw.Approval.Decided.{AllForeign, Decided, run-IsTracked}

-- The name of the request is new: no request, no decision and no event of others has it.
pub record IsNew (w : Waiting) (m : Manager) : Type 0 where
  pub undecided : find_entry w.id m.decisions ≡ none
  pub foreign : AllForeign w.id w.meanwhile

wait-Decided :
    (w : Waiting) (target : Target) (approvers : List String) (m : Manager)
    → IsNew w m
    → (wait w target approvers m).1 ≡ none
    → Decided w.meanwhile
        (record { target = target; approvers = approvers; expires = w.expiry })
        w.id
        true
unfolding wait receive open_request find_entry
wait-Decided w target approvers m new h =
    let r : Request = record { target = target; approvers = approvers; expires = w.expiry } in
    let opened = open_request w.id r m in
    let entry : find_entry w.id opened.pending ≡ some r = ground (arith, eq_iff w.id w.id) in
    elim (run-IsTracked w.id r w.meanwhile opened new.foreign entry new.undecided) [
      | inl (still, silent) ↦ absurd (ground (arith, silent, h))
      | inr (closed, (allow, sent, decided)) ↦ elim (Bool-cases allow) [
        | inr e ↦ absurd (ground (arith, sent, e, h))
        | inl e ↦ subst (λ b. Decided w.meanwhile r w.id b) e decided
      ]
    ]

same_target-eq : (a b : Target) → same_target a b ≡ true → a ≡ b
unfolding same_target
same_target-eq a b h =
    let chat_id : a.chat_id ≡ b.chat_id = ground (arith, h, eq_iff a.chat_id b.chat_id) in
    let actor_id : a.actor_id ≡ b.actor_id = ground (arith, h, eq_iff a.actor_id b.actor_id) in
    let action_id : a.action_id ≡ b.action_id = ground (arith, h, eq_iff a.action_id b.action_id) in
    let tool : a.tool ≡ b.tool = ground (arith, h, eq_iff a.tool b.tool) in
    let path : a.path ≡ b.path = ground (arith, h, eq_iff a.path b.path) in
    let before : a.before ≡ b.before = ground (arith, h, eq_iff a.before b.before) in
    let after : a.after ≡ b.after = ground (arith, h, eq_iff a.after b.after) in
    let digest : a.digest ≡ b.digest = ground (arith, h, eq_iff a.digest b.digest) in cc

-- The call was decided by an approver of the binding, and it was still about the same target afterwards.
pub record IsApproved (chat actor : String) (binding : Binding) (a : Attempt) (call : ToolCall)
    : Type 0 where
  pub target : Target
  pub before : make_target a.first chat actor binding.work_dir a.action_id call ≡ some target
  pub after : make_target a.second chat actor binding.work_dir a.action_id call ≡ some target
  pub readable : length call.arguments ≤ 8000
  pub decided :
      Decided a.waiting.meanwhile
        (record { target = target; approvers = binding.approvers; expires = a.waiting.expiry })
        a.waiting.id
        true

-- The guard of a call that needs an approval.
abbrev asks_approval : String → String → Binding → Attempt → ToolCall → Manager → Option Refusal
asks_approval chat actor binding a call m =
    if a.cancelled
    then some cancelled
    else if ltb 8000 (length call.arguments)
    then some too_long
    else if str_eq a.action_id "" || has_none binding.approvers
    then some no_approver
    else elim (make_target a.first chat actor binding.work_dir a.action_id call) [
      | none ↦ some no_target
      | some target ↦ elim (wait a.waiting target binding.approvers m).1 [
        | some r ↦ some r
        | none ↦ elim (make_target a.second chat actor binding.work_dir a.action_id call) [
          | none ↦ some changed
          | some current ↦ if same_target target current then none else some changed
        ]
      ]
    ]

guarded-IsApproved :
    (chat actor : String) (binding : Binding) (a : Attempt) (call : ToolCall) (m : Manager)
    → IsNew a.waiting m
    → asks_approval chat actor binding a call m ≡ none
    → IsApproved chat actor binding a call
guarded-IsApproved chat actor binding a call m new h =
    elim (Option-cases (make_target a.first chat actor binding.work_dir a.action_id call)) [
      | inl e ↦ absurd (ground (arith, e, h))
      | inr (target, e) ↦ elim (Option-cases (wait a.waiting target binding.approvers m).1) [
        | inr (r, f) ↦ absurd (ground (arith, e, f, h))
        | inl f ↦
            elim (Option-cases
              (make_target a.second chat actor binding.work_dir a.action_id call)) [
                | inl g ↦ absurd (ground (arith, e, f, g, h))
                | inr (current, g) ↦
                    let equal : same_target target current ≡ true = ground (arith, e, f, g, h) in
                    let same = same_target-eq target current equal in
                    record {
                      target = target;
                      before = e;
                      after = g ∙ ap some (sym same);
                      readable = ground (arith, h);
                      decided = wait-Decided a.waiting target binding.approvers m new f;
                    }
              ]
      ]
    ]

-- A call that the guard of a chat lets pass has the chat's directory and mode, and it reads or starts a subagent, or
-- it was approved: while the call waited, one of the chat's approvers allowed this very request, before it expired,
-- and the action's target, with the versions and the digest of its arguments, is the same as in the request,
-- provided that the request's name is new.
pub guard-IsApproved :
    (chat actor : String) (binding : Binding) (a : Attempt) (call : ToolCall) (m : Manager)
    → IsNew a.waiting m
    → (guard chat actor binding a call m).1 ≡ none
    → (a.work_dir ≡ binding.work_dir)
      × (a.mode ≡ binding.mode)
      × ((is_read_only call.name ≡ true)
          ⊎ (call.name ≡ "spawn_subagent")
          ⊎ IsApproved chat actor binding a call)
unfolding guard
guard-IsApproved chat actor binding a call m new h =
    elim (Bool-cases (str_eq a.work_dir binding.work_dir && str_eq a.mode binding.mode)) [
      | inr e ↦ absurd (ground (arith, e, h))
      | inl e ↦ (
        ground (arith, e, eq_iff a.work_dir binding.work_dir),
        ground (arith, e, eq_iff a.mode binding.mode),
        elim (Bool-cases (is_read_only call.name)) [
          | inl f ↦ inl f
          | inr f ↦ elim (Bool-cases (str_eq call.name "spawn_subagent")) [
            | inl g ↦ inr (inl (ground (arith, g, eq_iff call.name "spawn_subagent")))
            | inr g ↦ inr (
                inr
                  (guarded-IsApproved chat actor binding a call m new (ground (arith, e, f, g, h))))
          ]
        ],
      )
    ]
