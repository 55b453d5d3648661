-- ===== src/Session/Groups.antt =====
-- messageGroups of internal/context/compactor.go against the shape that it accepts.
use go_agent_claw.Prelude.{
  ℕ, zero, suc, ◌+◌, ◌<◌, ◌≤◌, ◌≡◌, refl, sym, subst, ◌≢◌, inl, inr, ◌&&◌, List, [], ◌∷◌, String,
  arith, Bool-cases, &&-eq-true, length, str_eq, eq_iff, ok, err, Result-cases,
}
use go_agent_claw.Session.{
  Message, ToolCall, is_user, has_id, delete_id, open_calls, take_results, calls_of, group_from,
  message_groups, out_of_fuel, Group,
}
use go_agent_claw.Session.Shape.{Fits}

-- The results taken from `msgs` leave a part of them, and are counted.
take_results-count :
    (ps : List String) (n : ℕ) (msgs : List Message) {found : ℕ × List Message}
    → take_results ps n msgs ≡ ok found
    → (found.0 + length found.1 ≡ n + length msgs) × (n ≤ found.0)
unfolding take_results
take_results-count [] n msgs h = ground arith
take_results-count (p ∷ ps) n [] h = absurd (ground arith)
take_results-count (p ∷ ps) n (m ∷ ms) {found} h =
    ground
      (arith, take_results-count (delete_id m.tool_call_id (p ∷ ps)) (n + 1) ms {found = found})

take_results-Fits :
    (ps : List String) (n : ℕ) (msgs : List Message) {found : ℕ × List Message}
    → take_results ps n msgs ≡ ok found
    → Fits [] found.1
    → Fits ps msgs
unfolding take_results
take_results-Fits [] n msgs {found} h f =
    let same : found.1 ≡ msgs = ground arith in subst (Fits []) same f
take_results-Fits (p ∷ ps) n [] h f = absurd (ground arith)
take_results-Fits (p ∷ ps) n (m ∷ ms) {found} h f =
    elim (Bool-cases (is_user m.role && has_id m.tool_call_id (p ∷ ps))) [
      | inr e ↦ absurd (ground (arith, e))
      | inl e ↦ (
        (&&-eq-true _ _ e).0,
        (&&-eq-true _ _ e).1,
        take_results-Fits (delete_id m.tool_call_id (p ∷ ps)) (n + 1) ms {found = found}
            (ground (arith, e)) f,
      )
    ]

Fits-take_results :
    (ps : List String) (n : ℕ) (msgs : List Message)
    → Fits ps msgs
    → (found : ℕ × List Message) × (take_results ps n msgs ≡ ok found)
      × Fits [] found.1
      × (length found.1 ≤ length msgs)
unfolding take_results
Fits-take_results [] n msgs f = ((n, msgs), refl, f, omega arith)
Fits-take_results (p ∷ ps) n [] f = absurd f
Fits-take_results (p ∷ ps) n (m ∷ ms) f =
    let (found, h, fits, shorter) =
      Fits-take_results (delete_id m.tool_call_id (p ∷ ps)) (n + 1) ms f.2 in
    (found, ground (arith, h, f.0, f.1), fits, omega (arith, shorter))

-- The groups follow one another from `i` to `j`, and none is empty.
abbrev pub Covers : ℕ → List Group → ℕ → Type 0
Covers i [] j = i ≡ j
Covers i (g ∷ gs) j = (g.start ≡ i) × (i < g.end) × Covers g.end gs j

pub group_from-step :
    (fuel i : ℕ) (m : Message) (ms : List Message) {groups : List Group}
    → group_from (suc fuel) i (m ∷ ms) ≡ ok groups
    → (opened : List String) × (found : ℕ × List Message) × (later : List Group) × (m.tool_call_id
        ≡ "")
      × (open_calls (calls_of m) [] ≡ ok opened)
      × (take_results opened (i + 1) ms ≡ ok found)
      × (group_from fuel found.0 found.1 ≡ ok later)
      × (groups ≡ record { start = i; end = found.0 } ∷ later)
unfolding group_from
group_from-step fuel i m ms h = elim (Bool-cases (str_eq m.tool_call_id "")) [
  | inr e ↦ absurd (ground (arith, e))
  | inl e ↦ elim (Result-cases (open_calls (calls_of m) [])) [
    | inl (x, o) ↦ absurd (ground (arith, e, o))
    | inr (opened, o) ↦ elim (Result-cases (take_results opened (i + 1) ms)) [
      | inl (x, t) ↦ absurd (ground (arith, e, o, t))
      | inr (found, t) ↦ elim (Result-cases (group_from fuel found.0 found.1)) [
        | inl (x, g) ↦ absurd (ground (arith, e, o, t, g))
        | inr (later, g) ↦ (
          opened,
          found,
          later,
          (eq_iff m.tool_call_id "").0 e,
          o,
          t,
          g,
          ground (arith, e, o, t, g),
        )
      ]
    ]
  ]
]

group_from-Fits :
    (fuel i : ℕ) (msgs : List Message) {groups : List Group}
    → group_from fuel i msgs ≡ ok groups
    → Fits [] msgs × Covers i groups (i + length msgs)
unfolding group_from
group_from-Fits zero i msgs h = cc
group_from-Fits (suc fuel) i [] {groups} h =
    let same : [] ≡ groups = ground arith in
    (tt, subst (λ (gs : List Group). Covers i gs (i + 0)) same (omega arith))
group_from-Fits (suc fuel) i (m ∷ ms) h =
    let (opened, found, later, e, o, t, g, same) = group_from-step fuel i m ms h in
    let (fits, covers) = group_from-Fits fuel found.0 found.1 g in
    let (count, more) = take_results-count opened (i + 1) ms t in
    let whole : found.0 + length found.1 ≡ i + length (m ∷ ms) = omega arith in
    (
      (e, (opened, o, take_results-Fits opened (i + 1) ms t fits)),
      subst (λ (gs : List Group). Covers i gs (i + length (m ∷ ms))) (sym same)
          (refl, omega (arith, more), subst (Covers found.0 later) whole covers),
    )

Fits-group_from :
    (fuel i : ℕ) (msgs : List Message)
    → Fits [] msgs
    → length msgs < fuel
    → (groups : List Group) × (group_from fuel i msgs ≡ ok groups)
unfolding group_from
Fits-group_from zero i msgs f b = elim b [ ]
Fits-group_from (suc fuel) i [] f b = ([], refl)
Fits-group_from (suc fuel) i (m ∷ ms) f b =
    let (opened, o, rest) = f.1 in
    let (found, t, fits, shorter) = Fits-take_results opened (i + 1) ms rest in
    let (later, g) = Fits-group_from fuel found.0 found.1 fits (omega (arith, shorter)) in
    (
      record { start = i; end = found.0 } ∷ later,
      ground (arith, eq_iff m.tool_call_id "", o, t, g, f.0),
    )

open_calls-ne-out_of_fuel :
    (cs : List ToolCall) (ps : List String) → open_calls cs ps ≢ err out_of_fuel
unfolding open_calls
open_calls-ne-out_of_fuel [] ps = ground arith
open_calls-ne-out_of_fuel (c ∷ cs) ps = ground (arith, open_calls-ne-out_of_fuel cs (c.id ∷ ps))

take_results-ne-out_of_fuel :
    (ps : List String) (n : ℕ) (msgs : List Message) → take_results ps n msgs ≢ err out_of_fuel
unfolding take_results
take_results-ne-out_of_fuel [] n msgs = ground arith
take_results-ne-out_of_fuel (p ∷ ps) n [] = ground arith
take_results-ne-out_of_fuel (p ∷ ps) n (m ∷ ms) =
    ground (arith, take_results-ne-out_of_fuel (delete_id m.tool_call_id (p ∷ ps)) (n + 1) ms)

group_from-ne-out_of_fuel :
    (fuel i : ℕ) (msgs : List Message)
    → length msgs < fuel
    → group_from fuel i msgs ≢ err out_of_fuel
unfolding group_from
group_from-ne-out_of_fuel zero i msgs b = elim b [ ]
group_from-ne-out_of_fuel (suc fuel) i [] b = ground arith
group_from-ne-out_of_fuel (suc fuel) i (m ∷ ms) b =
    elim (Result-cases (open_calls (calls_of m) [])) [
      | inl (x, o) ↦ ground (arith, o, open_calls-ne-out_of_fuel (calls_of m) [])
      | inr (opened, o) ↦ elim (Result-cases (take_results opened (i + 1) ms)) [
        | inl (x, t) ↦ ground (arith, o, t, take_results-ne-out_of_fuel opened (i + 1) ms)
        | inr (found, t) ↦ ground (
          arith,
          o,
          t,
          group_from-ne-out_of_fuel fuel found.0 found.1
              (omega (arith, take_results-count opened (i + 1) ms t)),
        )
      ]
    ]

-- messageGroups ends on every history, and accepts exactly those in which each batch of tool calls has
-- distinct ids that are not empty and is followed at once by one result for each call, and in which no
-- other result stands; the groups that it returns split the history from end to end.
pub message_groups-Fits :
    (msgs : List Message)
    → (message_groups msgs ≢ err out_of_fuel)
      × ((groups : List Group)
          → message_groups msgs ≡ ok groups
          → Fits [] msgs × Covers 0 groups (length msgs))
      × (Fits [] msgs → (groups : List Group) × (message_groups msgs ≡ ok groups))
unfolding message_groups
message_groups-Fits msgs = (
  group_from-ne-out_of_fuel (length msgs + 1) 0 msgs (omega arith),
  λ groups h.
      let (fits, covers) = group_from-Fits (length msgs + 1) 0 msgs h in
      let whole : 0 + length msgs ≡ length msgs = omega arith in
      (fits, subst (Covers 0 groups) whole covers),
  λ f. Fits-group_from (length msgs + 1) 0 msgs f (omega arith),
)
