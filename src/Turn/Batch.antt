-- ===== src/Turn/Batch.antt =====
-- executeBatch of internal/engine/loop.go against groups that run one after the other.
use go_agent_claw.Prelude.{
  ℕ, zero, suc, ◌+◌, ◌≤◌, ◌≡◌, refl, sym, ap, ◌∙◌, subst, ◌⊎◌, inl, inr, true, ◌&&◌, Option, none,
  some, List, [], ◌∷◌, ◌++◌, arith, Bool-cases, Option-cases, length, length-drop, length-take,
  take, drop, take-append-drop, All, str_eq, eq_iff, map,
}
use go_agent_claw.Session.{ToolCall}
use go_agent_claw.Tools.{ToolResult}
use go_agent_claw.Tools.Scope.{is_read_only}
use go_agent_claw.Turn.{
  Outcome, run_groups, companions, read_run, is_named, fill, fill_all, execute_batch, first_of,
  unexecuted,
}

-- Calls that may run at once: one call, up to four that read, or two that start subagents.
abbrev pub IsGroup : List ToolCall → Type 0
IsGroup calls =
    (length calls ≡ 1)
    ⊎ (All (λ c. is_read_only c.name ≡ true) calls × (length calls ≤ 4))
    ⊎ (All (λ c. c.name ≡ "spawn_subagent") calls × (length calls ≡ 2))

module _ {E : Type 0} (outcome : ℕ → Outcome E) where
  abbrev pub results_of : ℕ → List ToolCall → List ToolResult
  results_of i [] = []
  results_of i (c ∷ calls) = fill c (outcome i).result ∷ results_of (i + 1) calls

  abbrev pub first_error : ℕ → List ToolCall → Option E
  first_error i [] = none
  first_error i (c ∷ calls) = first_of (outcome i).error (first_error (i + 1) calls)

-- From place `i` on, the calls run in groups: each group runs whole, the next only if no call of it had an
-- error, and the calls behind an error are answered as not executed.
pub data Runs {E : Type 0} (outcome : ℕ → Outcome E)
    : ℕ → List ToolCall → List ToolResult → Option E → Type 0 where
  runs_done : {i : ℕ} → Runs outcome i [] [] none
  runs_group :
      {i : ℕ} (group rest : List ToolCall) {results : List ToolResult} {error : Option E}
      → IsGroup group
      → first_error outcome i group ≡ none
      → Runs outcome (i + length group) rest results error
      → Runs outcome i (group ++ rest) (results_of outcome i group ++ results) error
  runs_failed :
      {i : ℕ} (group rest : List ToolCall) {e : E}
      → IsGroup group
      → first_error outcome i group ≡ some e
      → Runs outcome i
          (group ++ rest)
          (results_of outcome i group ++ map (λ c. unexecuted c.id) rest)
          (some e)

first_of_assoc :
    {E : Type 0} (a b c : Option E) → first_of (first_of a b) c ≡ first_of a (first_of b c)
first_of_assoc none b c = refl
first_of_assoc (some e) b c = refl

first_of-none : {E : Type 0} (a : Option E) → first_of a none ≡ a
first_of-none none = refl
first_of-none (some e) = refl

pair-eq : {A B : Type 0} {a c : A} {b d : B} → a ≡ c → b ≡ d → ◌≡◌ {A = A × B} (a, b) (c, d)
pair-eq p q = cc

read_run_lem :
    (room : ℕ) (calls : List ToolCall)
    → All (λ c. is_read_only c.name ≡ true) (take (read_run room calls) calls)
      × (read_run room calls ≤ room)
      × (read_run room calls ≤ length calls)
unfolding read_run
read_run_lem zero calls = (tt, omega arith, omega arith)
read_run_lem (suc room) [] = (tt, omega arith, omega arith)
read_run_lem (suc room) (c ∷ calls) =
    let (reads, few, inside) = read_run_lem room calls in
    elim (Bool-cases (is_read_only c.name)) [
      | inl e ↦ rw e ((e, reads), omega (arith, few), omega (arith, inside))
      | inr e ↦ rw e (tt, omega arith, omega arith)
    ]

take_none : (c : ToolCall) (calls : List ToolCall) → length (c ∷ take 0 calls) ≡ 1
take_none c [] = refl
take_none c (d ∷ calls) = refl

spawning_pair :
    (c : ToolCall) (calls : List ToolCall)
    → (str_eq c.name "spawn_subagent" && is_named c.name calls) ≡ true
    → IsGroup (c ∷ take 1 calls) × (1 ≤ length calls)
spawning_pair c [] spawns = absurd (ground (arith, spawns))
spawning_pair c (d ∷ calls) spawns =
    let first : c.name ≡ "spawn_subagent" =
      ground (arith, spawns, eq_iff c.name "spawn_subagent") in
    let second : d.name ≡ "spawn_subagent" = ground (arith, spawns, first, eq_iff d.name c.name) in
    (inr (inr ((first, (second, tt)), refl)), omega arith)

companions_lem :
    (c : ToolCall) (calls : List ToolCall)
    → IsGroup (c ∷ take (companions c calls) calls) × (companions c calls ≤ length calls)
unfolding companions
companions_lem c calls = elim (Bool-cases (is_read_only c.name)) [
  | inl e ↦
      let (reads, few, inside) = read_run_lem 3 calls in
      let size = length-take (read_run 3 calls) calls in
      let same : read_run 3 calls ≡ companions c calls = ground (arith, e) in
      subst (λ n. IsGroup (c ∷ take n calls) × (n ≤ length calls)) same
        (inr (inl ((e, reads), omega (arith, size, few))), inside)
  | inr e ↦ elim (Bool-cases (str_eq c.name "spawn_subagent" && is_named c.name calls)) [
    | inl spawns ↦
        let same : 1 ≡ companions c calls = ground (arith, e, spawns) in
        subst (λ n. IsGroup (c ∷ take n calls) × (n ≤ length calls)) same
          (spawning_pair c calls spawns)
    | inr alone ↦
        let same : 0 ≡ companions c calls = ground (arith, e, alone) in
        subst (λ n. IsGroup (c ∷ take n calls) × (n ≤ length calls)) same
          (inl (take_none c calls), omega arith)
  ]
]

module _ {E : Type 0} (outcome : ℕ → Outcome E) where
  -- Behind an error nothing runs.
  run_groups_stopped :
      (i : ℕ) (e : E) (calls : List ToolCall)
      → (fill_all calls (run_groups outcome i zero (some e) calls).0
          ≡ map (λ c. unexecuted c.id) calls)
        × ((run_groups outcome i zero (some e) calls).1 ≡ some e)
  unfolding run_groups fill_all
  run_groups_stopped i e [] = (refl, refl)
  run_groups_stopped i e (c ∷ calls) =
      let (answers, error) = run_groups_stopped (i + 1) e calls in
      (ap (λ rs. unexecuted c.id ∷ rs) answers, error)

  -- Within a group the calls run to its end.
  run_groups_inside :
      (i : ℕ) (failure : Option E) (group rest : List ToolCall)
      → (fill_all (group ++ rest) (run_groups outcome i (length group) failure (group ++ rest)).0
          ≡ results_of outcome i group
            ++ fill_all rest
                (run_groups outcome
                  (i + length group)
                  zero
                  (first_of failure (first_error outcome i group))
                  rest).0)
        × ((run_groups outcome i (length group) failure (group ++ rest)).1
            ≡ (run_groups outcome
                (i + length group)
                zero
                (first_of failure (first_error outcome i group))
                rest).1)
  unfolding run_groups fill_all
  run_groups_inside i failure [] rest =
      let here : i ≡ i + 0 = omega arith in
      let same : failure ≡ first_of failure none = sym (first_of-none failure) in
      (
        ap (λ k. fill_all rest (run_groups outcome k.0 zero k.1 rest).0) (pair-eq here same),
        ap (λ k. (run_groups outcome k.0 zero k.1 rest).1) (pair-eq here same),
      )
  run_groups_inside i failure (c ∷ group) rest =
      let (answers, error) =
        run_groups_inside (i + 1) (first_of failure (outcome i).error) group rest in
      let here : i + 1 + length group ≡ i + suc (length group) = omega arith in
      let same = first_of_assoc failure (outcome i).error (first_error outcome (i + 1) group) in
      (
        ap (λ rs. fill c (outcome i).result ∷ rs)
            (answers
              ∙ ap
                  (λ k.
                    results_of outcome (i + 1) group
                    ++ fill_all rest (run_groups outcome k.0 zero k.1 rest).0)
                  (pair-eq here same)),
        error ∙ ap (λ k. (run_groups outcome k.0 zero k.1 rest).1) (pair-eq here same),
      )

  Runs-cast :
      {i : ℕ} {calls : List ToolCall} {results results' : List ToolResult} {error error' : Option E}
      → results ≡ results'
      → error ≡ error'
      → Runs outcome i calls results error
      → Runs outcome i calls results' error'
  Runs-cast {i} {calls} same same_error runs =
      subst (λ k. Runs outcome i calls k.0 k.1) (pair-eq same same_error) runs

  -- One group, and what runs behind it.
  run_groups-group :
      (i : ℕ) (c : ToolCall) (group rest : List ToolCall)
      → IsGroup (c ∷ group)
      → Runs outcome
          (i + suc (length group))
          rest
          (fill_all rest (run_groups outcome (i + suc (length group)) zero none rest).0)
          (run_groups outcome (i + suc (length group)) zero none rest).1
      → Runs outcome i
          (c ∷ (group ++ rest))
          (fill c (outcome i).result
            ∷ fill_all
                (group ++ rest)
                (run_groups outcome (i + 1) (length group) (outcome i).error (group ++ rest)).0)
          (run_groups outcome (i + 1) (length group) (outcome i).error (group ++ rest)).1
  run_groups-group i c group rest together later =
      let (answers, error) = run_groups_inside (i + 1) (outcome i).error group rest in
      let next : i + 1 + length group ≡ i + suc (length group) = omega arith in
      elim (Option-cases (first_error outcome i (c ∷ group))) [
        | inl none_of ↦
            let same = pair-eq next none_of in
            Runs-cast
              (ap (λ rs. fill c (outcome i).result ∷ rs)
                (sym (
                  answers
                  ∙ ap
                      (λ k.
                        results_of outcome (i + 1) group
                        ++ fill_all rest (run_groups outcome k.0 zero k.1 rest).0)
                      same)))
              (sym (error ∙ ap (λ k. (run_groups outcome k.0 zero k.1 rest).1) same))
              (runs_group (c ∷ group) rest together none_of later)
        | inr (e, one_of) ↦
            let (unrun, stopped) = run_groups_stopped (i + 1 + length group) e rest in
            Runs-cast
              (ap (λ rs. fill c (outcome i).result ∷ rs)
                (sym (
                  answers
                  ∙ ap
                      (λ k.
                        results_of outcome (i + 1) group
                        ++ fill_all rest (run_groups outcome (i + 1 + length group) zero k rest).0)
                      one_of
                  ∙ ap (λ rs. results_of outcome (i + 1) group ++ rs) unrun)))
              (sym (
                error
                ∙ ap (λ k. (run_groups outcome (i + 1 + length group) zero k rest).1) one_of
                ∙ stopped))
              (runs_failed (c ∷ group) rest together one_of)
      ]

  -- The runs of calls that are no more than the fuel.
  run_groups-Runs :
      (fuel i : ℕ) (calls : List ToolCall)
      → length calls ≤ fuel
      → Runs outcome i calls
          (fill_all calls (run_groups outcome i zero none calls).0)
          (run_groups outcome i zero none calls).1
  unfolding run_groups fill_all
  run_groups-Runs fuel i [] n = runs_done
  run_groups-Runs zero i (c ∷ calls) n = absurd (omega (arith, n))
  run_groups-Runs (suc fuel) i (c ∷ calls) n =
      let k = companions c calls in
      let (together, inside) = companions_lem c calls in
      let whole = take-append-drop k calls in
      let size = length-take k calls in
      let left = length-drop k calls in
      let count : length (take k calls) ≡ k = omega (arith, size, inside) in
      let later =
        run_groups-Runs fuel (i + suc (length (take k calls))) (drop k calls)
          (omega (arith, left, n)) in
      let group = run_groups-group i c (take k calls) (drop k calls) together later in
      subst
        (λ q.
          Runs outcome i (c ∷ q.0)
            (fill c (outcome i).result
              ∷ fill_all q.0 (run_groups outcome (i + 1) q.1 (outcome i).error q.0).0)
            (run_groups outcome (i + 1) q.1 (outcome i).error q.0).1)
        (pair-eq whole count) group

-- The calls of a reply run in groups, one after the other: a call that writes runs alone, at most four calls that
-- read or two that start subagents run at once, no group starts after one in which a call had an error, the error
-- returned is that group's first, and each call has its own result, or, if it was not executed, a result that
-- says so.
pub execute_batch-Runs :
    {E : Type 0} (outcome : ℕ → Outcome E) (calls : List ToolCall)
    → Runs outcome 0 calls (execute_batch outcome calls).0 (execute_batch outcome calls).1
unfolding execute_batch
execute_batch-Runs outcome calls = run_groups-Runs outcome (length calls) 0 calls (omega arith)
