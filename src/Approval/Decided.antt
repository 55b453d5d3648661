-- ===== src/Approval/Decided.antt =====
-- The requests of internal/feishu/approval.go: a decision in a request's channel was sent by one of its approvers.
use go_agent_claw.Prelude.{
  ◌<◌, ◌≡◌, refl, ap, ◌∙◌, inl, inr, ◌⊎◌, Bool, true, false, none, some, List, [], ◌∷◌, String,
  arith, Bool-cases, Option-cases, In, str_eq, eq_iff,
}
use go_agent_claw.Approval.{
  Request, Manager, Answer, Event, opens, closes, answers, find_entry, delete_entry, contains,
  open_request, close_request, is_accepted, resolve, step, run,
}

find_entry-delete_entry :
    {A : Type 0} (k j : String) (m : List (String × A))
    → str_eq j k ≡ false
    → find_entry k (delete_entry j m) ≡ find_entry k m
unfolding find_entry delete_entry
find_entry-delete_entry k j [] h = refl
find_entry-delete_entry k j ((i, a) ∷ m) h = elim (Bool-cases (str_eq i j)) [
  | inl e ↦
      let same : i ≡ j = ground (arith, e, eq_iff i j) in
      let rest = find_entry-delete_entry k j m h in ground (arith, e, same, h, rest)
  | inr e ↦ let rest = find_entry-delete_entry k j m h in ground (arith, e, rest)
]

find_entry-deleted :
    {A : Type 0} (k : String) (m : List (String × A)) → find_entry k (delete_entry k m) ≡ none
unfolding find_entry delete_entry
find_entry-deleted k [] = refl
find_entry-deleted k ((i, a) ∷ m) =
    let rest = find_entry-deleted k m in ground (arith, rest, eq_iff i k)

-- No event opens or closes this request: its name is that of another call.
abbrev pub IsForeign : String → Event → Type 0
IsForeign id (opens k r) = str_eq k id ≡ false
IsForeign id (closes k) = str_eq k id ≡ false
IsForeign id (answers a) = Unit {0}

abbrev pub AllForeign : String → List Event → Type 0
AllForeign id [] = Unit {0}
AllForeign id (e ∷ events) = IsForeign id e × AllForeign id events

-- An approver of the request decided it, in its chat and before it expired.
pub record IsDecision (r : Request) (id : String) (allow : Bool) (a : Answer) : Type 0 where
  pub of : a.id ≡ id
  pub decides : a.allow ≡ allow
  pub in_chat : a.chat_id ≡ r.target.chat_id
  pub by_approver : contains a.approver r.approvers ≡ true
  pub in_time : a.now < r.expires

abbrev pub Decided : List Event → Request → String → Bool → Type 0
Decided events r id allow = (a : Answer) × In (answers a) events × IsDecision r id allow a

-- The request is open and undecided, or decided in `events`.
abbrev pub IsTracked : List Event → Request → String → Manager → Type 0
IsTracked events r id m =
    ((find_entry id m.pending ≡ some r) × (find_entry id m.decisions ≡ none))
    ⊎ ((find_entry id m.pending ≡ none)
        × ((allow : Bool) × (find_entry id m.decisions ≡ some allow) × Decided events r id allow))

resolve_other :
    (id : String) (a : Answer) (m : Manager)
    → str_eq a.id id ≡ false
    → (find_entry id (resolve a m).0.pending ≡ find_entry id m.pending)
      × (find_entry id (resolve a m).0.decisions ≡ find_entry id m.decisions)
unfolding resolve find_entry
resolve_other id a m h = elim (Option-cases (find_entry a.id m.pending)) [
  | inl e ↦ (ground (arith, e), ground (arith, e))
  | inr (r, e) ↦
      let deleted = find_entry-delete_entry id a.id m.pending h in
      elim (Bool-cases (is_accepted a r)) [
        | inl f ↦ (ground (arith, e, f, deleted), ground (arith, e, f, h))
        | inr f ↦ (ground (arith, e, f), ground (arith, e, f))
      ]
]

-- An event of another request changes nothing of this one.
step_foreign :
    (id : String) (e : Event) (m : Manager)
    → IsForeign id e
    → ((a : Answer) → e ≡ answers a → str_eq a.id id ≡ false)
    → (find_entry id (step m e).pending ≡ find_entry id m.pending)
      × (find_entry id (step m e).decisions ≡ find_entry id m.decisions)
unfolding step open_request close_request find_entry
step_foreign id (opens k r) m foreign other = (ground (arith, foreign), refl)
step_foreign id (closes k) m foreign other = (find_entry-delete_entry id k m.pending foreign, refl)
step_foreign id (answers a) m foreign other = resolve_other id a m (other a refl)

Decided-later :
    (e : Event) (events : List Event) (r : Request) (id : String) (allow : Bool)
    → Decided events r id allow
    → Decided (e ∷ events) r id allow
Decided-later e events r id allow (a, here, is) = (a, inr here, is)

IsTracked-later :
    (e : Event) (events : List Event) (r : Request) (id : String) (m : Manager)
    → IsTracked events r id m
    → IsTracked (e ∷ events) r id m
IsTracked-later e events r id m (inl open_here) = inl open_here
IsTracked-later e events r id m (inr (closed, (allow, sent, decided))) =
    inr (closed, (allow, sent, Decided-later e events r id allow decided))

resolve_closed :
    (id : String) (a : Answer) (m : Manager)
    → str_eq a.id id ≡ true
    → find_entry id m.pending ≡ none
    → (resolve a m).0 ≡ m
unfolding resolve
resolve_closed id a m h closed =
    let same : a.id ≡ id = ground (arith, h, eq_iff a.id id) in
    let none_here : find_entry a.id m.pending ≡ none =
      ap (λ k. find_entry k m.pending) same ∙ closed in
    ground (arith, none_here)

run_decided :
    (id : String) (events : List Event) (m : Manager) {allow : Bool}
    → AllForeign id events
    → find_entry id m.pending ≡ none
    → find_entry id m.decisions ≡ some allow
    → (find_entry id (run events m).pending ≡ none)
      × (find_entry id (run events m).decisions ≡ some allow)
unfolding run step
run_decided id [] m foreign closed decided = (closed, decided)
run_decided id (opens k r ∷ events) m (f, foreign) closed decided =
    let (p, d) = step_foreign id (opens k r) m f (λ a e. absurd (ground (arith, e))) in
    run_decided id events (step m (opens k r)) foreign (p ∙ closed) (d ∙ decided)
run_decided id (closes k ∷ events) m (f, foreign) closed decided =
    let (p, d) = step_foreign id (closes k) m f (λ a e. absurd (ground (arith, e))) in
    run_decided id events (step m (closes k)) foreign (p ∙ closed) (d ∙ decided)
run_decided id (answers a ∷ events) m (f, foreign) closed decided =
    elim (Bool-cases (str_eq a.id id)) [
      | inl e ↦
          let same = resolve_closed id a m e closed in
          run_decided id events (step m (answers a)) foreign
            (ap (λ n. find_entry id n.pending) same ∙ closed)
            (ap (λ n. find_entry id n.decisions) same ∙ decided)
      | inr e ↦
          let (p, d) = resolve_other id a m e in
          run_decided id events (step m (answers a)) foreign (p ∙ closed) (d ∙ decided)
    ]

-- An answer to this request, while it is open, leaves it open, or decides it.
resolve_own :
    (id : String) (a : Answer) (m : Manager) (r : Request)
    → str_eq a.id id ≡ true
    → find_entry id m.pending ≡ some r
    → ((resolve a m).0 ≡ m)
      ⊎ (IsDecision r id a.allow a
          × (find_entry id (resolve a m).0.pending ≡ none)
          × (find_entry id (resolve a m).0.decisions ≡ some a.allow))
unfolding resolve is_accepted find_entry
resolve_own id a m r h entry =
    let same : a.id ≡ id = ground (arith, h, eq_iff a.id id) in
    let here : find_entry a.id m.pending ≡ some r = ap (λ k. find_entry k m.pending) same ∙ entry in
    let gone = find_entry-deleted a.id m.pending in
    elim (Bool-cases (is_accepted a r)) [
      | inr e ↦ inl (ground (arith, here, e))
      | inl e ↦ inr (
        record {
          of = same;
          decides = refl;
          in_chat = ground (arith, e, eq_iff r.target.chat_id a.chat_id);
          by_approver = ground (arith, e);
          in_time = ground (arith, e);
        },
        ground (arith, here, e, gone, same),
        ground (arith, here, e, h),
      )
    ]

pub run-IsTracked :
    (id : String) (r : Request) (events : List Event) (m : Manager)
    → AllForeign id events
    → find_entry id m.pending ≡ some r
    → find_entry id m.decisions ≡ none
    → IsTracked events r id (run events m)
unfolding run step
run-IsTracked id r [] m foreign entry undecided = inl (entry, undecided)
run-IsTracked id r (opens k q ∷ events) m (f, foreign) entry undecided =
    let (p, d) = step_foreign id (opens k q) m f (λ a e. absurd (ground (arith, e))) in
    let later =
      run-IsTracked id r events (step m (opens k q)) foreign (p ∙ entry) (d ∙ undecided) in
    IsTracked-later (opens k q) events r id _ later
run-IsTracked id r (closes k ∷ events) m (f, foreign) entry undecided =
    let (p, d) = step_foreign id (closes k) m f (λ a e. absurd (ground (arith, e))) in
    let later = run-IsTracked id r events (step m (closes k)) foreign (p ∙ entry) (d ∙ undecided) in
    IsTracked-later (closes k) events r id _ later
run-IsTracked id r (answers a ∷ events) m (f, foreign) entry undecided =
    elim (Bool-cases (str_eq a.id id)) [
      | inr e ↦
          let (p, d) = resolve_other id a m e in
          let later =
            run-IsTracked id r events (step m (answers a)) foreign (p ∙ entry) (d ∙ undecided) in
          IsTracked-later (answers a) events r id _ later
      | inl e ↦ elim (resolve_own id a m r e entry) [
        | inl same ↦
            let later =
              run-IsTracked id r events (step m (answers a)) foreign
                (ap (λ n. find_entry id n.pending) same ∙ entry)
                (ap (λ n. find_entry id n.decisions) same ∙ undecided) in
            IsTracked-later (answers a) events r id _ later
        | inr (decision, closed, decided) ↦
            let (p, d) = run_decided id events (step m (answers a)) foreign closed decided in
            inr (p, (a.allow, d, (a, inl refl, decision)))
      ]
    ]
