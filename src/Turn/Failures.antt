-- ===== src/Turn/Failures.antt =====
-- The counting of failures in AgentEngine.converse (internal/engine/loop.go) against the requests' outcomes in a row.
use go_agent_claw.Prelude.{
  ℕ, zero, suc, ◌+◌, ◌≤◌, ◌<◌, ◌≡◌, refl, sym, ap, ◌∙◌, subst, inl, inr, Bool, true, false, Option,
  none, some, List, [], ◌∷◌, String, arith, Bool-cases, Option-cases, take, if◌then◌else◌, str_eq,
  eq_iff,
}
use go_agent_claw.Session.{ToolCall}
use go_agent_claw.Tools.{ToolResult}
use go_agent_claw.Turn.{Failures, failures_of, forget, note_failure, note_failures}

-- The requests in the order in which their results are counted, and whether each failed.
abbrev pub events_of : (ToolCall → String) → List ToolCall → List ToolResult → List (String × Bool)
events_of action_key [] results = []
events_of action_key (c ∷ calls) [] = []
events_of action_key (c ∷ calls) (r ∷ results) =
    (action_key c, r.is_error) ∷ events_of action_key calls results

abbrev pub next_streak : String → ℕ → String × Bool → ℕ
next_streak k n (j, failed) = if str_eq j k then (if failed then n + 1 else 0) else n

-- How often the request `k` has failed since its last success, if it had failed `n` times before the events.
abbrev pub streak : String → ℕ → List (String × Bool) → ℕ
streak k n [] = n
streak k n (e ∷ events) = streak k (next_streak k n e) events

failures_of-forget :
    (k j : String) (m : Failures)
    → failures_of k (forget j m) ≡ (if str_eq j k then 0 else failures_of k m)
unfolding failures_of forget
failures_of-forget k j [] = elim (Bool-cases (str_eq j k)) [ inl e ↦ rw e refl | inr e ↦ rw e refl ]
failures_of-forget k j ((i, n) ∷ m) =
    ground (arith, failures_of-forget k j m, eq_iff i j, eq_iff j k, eq_iff i k)

failures_of-note_failure :
    (k : String) (tracked : Bool) (key : String) (is_error : Bool) (m : Failures)
    (stopped : Option String)
    → failures_of k (note_failure tracked key is_error (m, stopped)).0
      ≡ next_streak k (failures_of k m) (key, is_error)
unfolding note_failure failures_of
failures_of-note_failure k tracked key false m stopped = failures_of-forget k key m
failures_of-note_failure k tracked key true m stopped =
    ground (arith, failures_of-forget k key m, eq_iff key k)

-- The request whose failure is counted stops the turn when it is the third in a row.
note_failure-stops :
    (tracked : Bool) (key : String) (is_error : Bool) (m : Failures)
    → ((tracked ≡ false)
        → (note_failure tracked key is_error (m, none)).1 ≡ none
        → failures_of key m < 3
        → next_streak key (failures_of key m) (key, is_error) < 3)
      × ((k : String)
          → (note_failure tracked key is_error (m, none)).1 ≡ some k
          → (k ≡ key) × (3 ≤ next_streak key (failures_of key m) (key, is_error)))
unfolding note_failure failures_of
note_failure-stops tracked key false m =
    (λ free going few. ground (arith, few), λ k stop. absurd (ground (arith, stop)))
note_failure-stops tracked key true m = (
  λ free going few. ground (arith, free, going, eq_iff key key),
  λ k stop. (ground (arith, stop), ground (arith, stop, eq_iff key key)),
)

note_failure-stopped :
    (tracked : Bool) (key : String) (is_error : Bool) (m : Failures) (k : String)
    → (note_failure tracked key is_error (m, some k)).1 ≡ some k
unfolding note_failure
note_failure-stopped tracked key false m k = refl
note_failure-stopped tracked key true m k = ground arith

-- The next failures are few, too, where the turn goes on.
note_failure-few :
    (tracked : Bool) (key : String) (is_error : Bool) (m : Failures)
    → tracked ≡ false
    → (note_failure tracked key is_error (m, none)).1 ≡ none
    → ((k : String) → failures_of k m < 3)
    → (k : String) → failures_of k (note_failure tracked key is_error (m, none)).0 < 3
note_failure-few tracked key is_error m free going few k =
    let counted = failures_of-note_failure k tracked key is_error m none in
    let last = (note_failure-stops tracked key is_error m).0 free going (few key) in
    elim (Bool-cases (str_eq key k)) [
      | inl e ↦
          let same : key ≡ k = ground (arith, e, eq_iff key k) in
          subst (λ n. n < 3) (sym counted)
            (subst (λ j. next_streak j (failures_of j m) (key, is_error) < 3) same last)
      | inr e ↦
          let unchanged : next_streak k (failures_of k m) (key, is_error) ≡ failures_of k m =
            ground (arith, e) in
          omega (arith, counted, unchanged, few k)
    ]

module _ (action_key : ToolCall → String) (tracked : ToolCall → ToolResult → Bool) where
  note_failures-stopped :
      (calls : List ToolCall) (results : List ToolResult) (m : Failures) (k : String)
      → (note_failures action_key tracked calls results (m, some k)).1 ≡ some k
  unfolding note_failures
  note_failures-stopped [] results m k = refl
  note_failures-stopped (c ∷ calls) [] m k = refl
  note_failures-stopped (c ∷ calls) (r ∷ results) m k =
      let next = (note_failure (tracked c r) (action_key c) r.is_error (m, some k)).0 in
      ap (λ s. (note_failures action_key tracked calls results (next, s)).1)
        (note_failure-stopped (tracked c r) (action_key c) r.is_error m k)
      ∙ note_failures-stopped calls results next k

  note_failures_going :
      (calls : List ToolCall) (results : List ToolResult) (m : Failures)
      → ((c : ToolCall) (r : ToolResult) → tracked c r ≡ false)
      → ((k : String) → failures_of k m < 3)
      → (note_failures action_key tracked calls results (m, none)).1 ≡ none
      → (k : String) (n : ℕ)
      → streak k (failures_of k m) (take n (events_of action_key calls results)) < 3
  unfolding note_failures
  note_failures_going [] results m free few going k zero = few k
  note_failures_going [] results m free few going k (suc n) = few k
  note_failures_going (c ∷ calls) [] m free few going k zero = few k
  note_failures_going (c ∷ calls) [] m free few going k (suc n) = few k
  note_failures_going (c ∷ calls) (r ∷ results) m free few going k zero = few k
  note_failures_going (c ∷ calls) (r ∷ results) m free few going k (suc n) =
      let step = note_failure (tracked c r) (action_key c) r.is_error (m, none) in
      elim (Option-cases step.1) [
        | inr (x, e) ↦
            let end = note_failures-stopped calls results step.0 x in
            absurd (ground (arith, e, end, going))
        | inl e ↦
            let next =
              note_failure-few (tracked c r) (action_key c) r.is_error m (free c r) e few in
            let later : (note_failures action_key tracked calls results (step.0, none)).1 ≡ none =
              ground (arith, e, going) in
            let rest = note_failures_going calls results step.0 free next later k n in
            let counted =
              failures_of-note_failure k (tracked c r) (action_key c) r.is_error m none in
            subst (λ i. streak k i (take n (events_of action_key calls results)) < 3) counted rest
      ]

  note_failures_stop :
      (calls : List ToolCall) (results : List ToolResult) (m : Failures) (k : String)
      → (note_failures action_key tracked calls results (m, none)).1 ≡ some k
      → (n : ℕ) × (3 ≤ streak k (failures_of k m) (take n (events_of action_key calls results)))
  unfolding note_failures
  note_failures_stop [] results m k stop = absurd (ground (arith, stop))
  note_failures_stop (c ∷ calls) [] m k stop = absurd (ground (arith, stop))
  note_failures_stop (c ∷ calls) (r ∷ results) m k stop =
      let step = note_failure (tracked c r) (action_key c) r.is_error (m, none) in
      elim (Option-cases step.1) [
        | inr (x, e) ↦
            let end = note_failures-stopped calls results step.0 x in
            let same : x ≡ k = ground (arith, e, end, stop) in
            let (this, third) =
              (note_failure-stops (tracked c r) (action_key c) r.is_error m).1 x e in
            let key : action_key c ≡ k = sym this ∙ same in
            (
              1,
              subst (λ j. 3 ≤ next_streak j (failures_of j m) (action_key c, r.is_error)) key third,
            )
        | inl e ↦
            let later : (note_failures action_key tracked calls results (step.0, none)).1 ≡ some k =
              ground (arith, e, stop) in
            let (n, rest) = note_failures_stop calls results step.0 k later in
            let counted =
              failures_of-note_failure k (tracked c r) (action_key c) r.is_error m none in
            (
              suc n,
              subst (λ i. 3 ≤ streak k i (take n (events_of action_key calls results))) counted
                  rest,
            )
      ]

  failures_of-note_failures :
      (calls : List ToolCall) (results : List ToolResult) (m : Failures) (stopped : Option String)
      (k : String)
      → failures_of k (note_failures action_key tracked calls results (m, stopped)).0
        ≡ streak k (failures_of k m) (events_of action_key calls results)
  unfolding note_failures
  failures_of-note_failures [] results m stopped k = refl
  failures_of-note_failures (c ∷ calls) [] m stopped k = refl
  failures_of-note_failures (c ∷ calls) (r ∷ results) m stopped k =
      let step = note_failure (tracked c r) (action_key c) r.is_error (m, stopped) in
      failures_of-note_failures calls results step.0 step.1 k
      ∙ ap (λ i. streak k i (events_of action_key calls results))
          (failures_of-note_failure k (tracked c r) (action_key c) r.is_error m stopped)

-- While no failure is tracked elsewhere, the counts kept from turn to turn are each request's failures since its
-- last success; and where no request had failed three times in a row before the results of a turn, the turn is
-- stopped for a request only if that one has now done so, and it is not stopped only if none has at any point.
pub note_failures_lem :
    (action_key : ToolCall → String) (tracked : ToolCall → ToolResult → Bool)
    (calls : List ToolCall) (results : List ToolResult) (m : Failures)
    → ((c : ToolCall) (r : ToolResult) → tracked c r ≡ false)
    → ((k : String) → failures_of k m < 3)
    → ((k : String)
        → failures_of k (note_failures action_key tracked calls results (m, none)).0
          ≡ streak k (failures_of k m) (events_of action_key calls results))
      × ((k : String)
          → (note_failures action_key tracked calls results (m, none)).1 ≡ some k
          → (n : ℕ) × (3
              ≤ streak k (failures_of k m) (take n (events_of action_key calls results))))
      × ((note_failures action_key tracked calls results (m, none)).1 ≡ none
          → (k : String) (n : ℕ)
          → streak k (failures_of k m) (take n (events_of action_key calls results)) < 3)
note_failures_lem action_key tracked calls results m free few = (
  failures_of-note_failures action_key tracked calls results m none,
  note_failures_stop action_key tracked calls results m,
  note_failures_going action_key tracked calls results m free few,
)
