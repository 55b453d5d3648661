-- ===== src/Approval.antt =====
-- internal/feishu/approval.go: the approval of an action by a member of a chat. `guard` is approvalManager.guard, which
-- Tools runs as a middleware, `wait` approvalManager.wait, `resolve` approvalManager.resolve. The channel of a request
-- holds one decision: `decisions` lists those that were sent. While one call waits, others go on: they are a list of
-- `Event`s in the order in which they hold the lock. The names, versions and digests of an action are read twice, as
-- two `Look`s; the time, the names of requests and the context are parameters.
pub mod Decided
pub mod Approved
mod Tests
use go_agent_claw.Prelude.{
  ℕ, Bool, true, false, not, ◌&&◌, ◌||◌, Option, none, some, List, [], ◌∷◌, String, ltb, length,
  if◌then◌else◌, str_eq,
}
use go_agent_claw.Session.{ToolCall}
use go_agent_claw.Tools.Scope.{is_read_only}

pub record Target : Type 0 where
  pub chat_id : String
  pub actor_id : String
  pub action_id : String
  pub tool : String
  pub path : String
  pub before : String
  pub after : String
  pub digest : String

pub record Request : Type 0 where
  pub target : Target
  pub approvers : List String
  pub expires : ℕ

pub record Manager : Type 0 where
  pub pending : List (String × Request)
  pub decisions : List (String × Bool)

unfoldable pub find_entry : {A : Type 0} → String → List (String × A) → Option A
find_entry k [] = none
find_entry k ((j, a) ∷ m) = if str_eq j k then some a else find_entry k m

unfoldable pub delete_entry : {A : Type 0} → String → List (String × A) → List (String × A)
delete_entry k [] = []
delete_entry k ((j, a) ∷ m) =
    let later = delete_entry k m in if str_eq j k then later else (j, a) ∷ later

unfoldable pub contains : String → List String → Bool
contains k [] = false
contains k (j ∷ names) = str_eq j k || contains k names

-- The names of requests are new, so that each is put in front.
unfoldable pub open_request : String → Request → Manager → Manager
open_request id request m = record m { pending = (id, request) ∷ m.pending }

unfoldable pub close_request : String → Manager → Manager
unfolding delete_entry
close_request id m = record m { pending = delete_entry id m.pending }

pub record Answer : Type 0 where
  pub chat_id : String
  pub approver : String
  pub id : String
  pub allow : Bool
  pub now : ℕ

unfoldable pub is_accepted : Answer → Request → Bool
unfolding contains
is_accepted a r =
    str_eq r.target.chat_id a.chat_id && contains a.approver r.approvers && ltb a.now r.expires

unfoldable pub resolve : Answer → Manager → Manager × Bool
unfolding find_entry delete_entry is_accepted
resolve a m = elim (find_entry a.id m.pending) [
  | none ↦ (m, false)
  | some r ↦
      if is_accepted a r
      then (
        record { pending = delete_entry a.id m.pending; decisions = (a.id, a.allow) ∷ m.decisions },
        true,
      )
      else (m, false)
]

pub data Event : Type 0 where
  opens : String → Request → Event
  closes : String → Event
  answers : Answer → Event

unfoldable pub step : Manager → Event → Manager
unfolding open_request close_request resolve
step m (opens id r) = open_request id r m
step m (closes id) = close_request id m
step m (answers a) = (resolve a m).0

unfoldable pub run : List Event → Manager → Manager
unfolding step
run [] m = m
run (e ∷ events) m = run events (step m e)

-- What happens while a call waits.
pub record Waiting : Type 0 where
  pub id : String
  pub expiry : ℕ
  pub cancelled_before : Bool
  pub notify_fails : Bool
  pub meanwhile : List Event
  pub done_first : Bool
  pub cancelled_after : Bool

pub data Refusal : Type 0 where
  wrong_scope cancelled too_long no_approver no_target notification_failed refused changed : Refusal

-- Nothing is received if the context ends first, and it ends in five minutes at the latest.
unfoldable pub receive : Waiting → Manager → Option Refusal
unfolding find_entry
receive w m = if w.done_first then some cancelled else elim (find_entry w.id m.decisions) [
  | none ↦ some cancelled
  | some allowed ↦
      if w.cancelled_after then some cancelled else if allowed then none else some refused
]

unfoldable pub wait : Waiting → Target → List String → Manager → Manager × Option Refusal
unfolding open_request close_request run receive
wait w target approvers m =
    let opened =
      open_request w.id (record { target = target; approvers = approvers; expires = w.expiry }) m in
    let later = run w.meanwhile opened in
    if w.cancelled_before
    then (m, some cancelled)
    else if w.notify_fails
    then (close_request w.id opened, some notification_failed)
    else (close_request w.id later, receive w later)

-- What an action is about, as PreviewWrite, WorkspaceVersion and the digest tell it at some time.
pub record Look : Type 0 where
  pub preview : Option (String × String × String)
  pub version : Option String
  pub digest : Target → Option String

abbrev pub with_digest : Look → Target → Option Target
with_digest l t = elim (l.digest t) [ none ↦ none | some d ↦ some (record t { digest = d }) ]

unfoldable pub make_target : Look → String → String → String → String → ToolCall → Option Target
make_target l chat actor work_dir action call =
    let base : Target = record {
      chat_id = chat;
      actor_id = actor;
      action_id = action;
      tool = call.name;
      path = "";
      before = "";
      after = "";
      digest = "";
    } in
    if str_eq call.name "write_file" || str_eq call.name "edit_file"
    then elim l.preview [
      | none ↦ none
      | some p ↦ with_digest l (record base { path = p.0; before = p.1; after = p.2 })
    ]
    else if str_eq call.name "bash"
    then elim l.version [
      | none ↦ none
      | some v ↦ with_digest l (record base { path = work_dir; before = v; after = "由执行结果确认" })
    ]
    else none

unfoldable pub same_target : Target → Target → Bool
same_target a b =
    str_eq a.chat_id b.chat_id
    && str_eq a.actor_id b.actor_id
    && str_eq a.action_id b.action_id
    && str_eq a.tool b.tool
    && str_eq a.path b.path
    && str_eq a.before b.before
    && str_eq a.after b.after
    && str_eq a.digest b.digest

pub record Binding : Type 0 where
  pub work_dir : String
  pub mode : String
  pub approvers : List String

-- The call's surroundings: its scope, its context and action, and what is seen before and after the approval.
pub record Attempt : Type 0 where
  pub work_dir : String
  pub mode : String
  pub cancelled : Bool
  pub action_id : String
  pub first : Look
  pub second : Look
  pub waiting : Waiting

abbrev pub has_none : List String → Bool
has_none [] = true
has_none (n ∷ names) = false

unfoldable pub guard :
    String → String → Binding → Attempt → ToolCall → Manager → Manager × Option Refusal
unfolding wait make_target same_target
guard chat actor binding a call m =
    if not (str_eq a.work_dir binding.work_dir && str_eq a.mode binding.mode)
    then (m, some wrong_scope)
    else if is_read_only call.name || str_eq call.name "spawn_subagent"
    then (m, none)
    else if a.cancelled
    then (m, some cancelled)
    else if ltb 8000 (length call.arguments)
    then (m, some too_long)
    else if str_eq a.action_id "" || has_none binding.approvers
    then (m, some no_approver)
    else elim (make_target a.first chat actor binding.work_dir a.action_id call) [
      | none ↦ (m, some no_target)
      | some target ↦
          let (later, refusal) = wait a.waiting target binding.approvers m in
          elim refusal [
            | some r ↦ (later, some r)
            | none ↦ elim (make_target a.second chat actor binding.work_dir a.action_id call) [
              | none ↦ (later, some changed)
              | some current ↦ (later, if same_target target current then none else some changed)
            ]
          ]
    ]
