-- ===== src/Session/Compacted.antt =====
-- What CompactWithin of internal/context/compactor.go sends is a list in which every tool result has its call.
use go_agent_claw.Prelude.{
  ℕ, zero, suc, ◌+◌, ◌-◌, ◌≤◌, ◌<◌, ◌≡◌, refl, sym, ap, ◌∙◌, subst, inl, inr, ◌⊎◌, Bool, true,
  false, not, ◌&&◌, ◌||◌, List, [], ◌∷◌, ◌++◌, String, map, arith, Bool-cases, All, length, take,
  drop, drop-drop, leb, leb→le, ltb, Result, ok, Result-cases, append_assoc,
}
use go_agent_claw.Session.{
  Message, is_user, is_plain_user, has_id, delete_id, open_calls, take_results, calls_of, Group,
  group_from, message_groups,
}
use go_agent_claw.Session.Shape.{Fits, Fits-append}
use go_agent_claw.Session.Groups.{group_from-step, message_groups-Fits}
use go_agent_claw.Session.Compactor.{
  Compactor, is_system, mask_one, mask_from, mask, with_prefix, slice, starts_system, starts_plain,
  any_plain, concat, or_smaller, shrink, compact_within, CompactError,
}

mask_from-Fits :
    {E : Type 0} (c : Compactor E) (protect i : ℕ) (ids : List String) (msgs : List Message)
    → Fits ids msgs
    → Fits ids (mask_from c protect i msgs)
unfolding mask_from mask_one
mask_from-Fits c protect i [] [] f = tt
mask_from-Fits c protect i (p ∷ ps) [] f = f
mask_from-Fits c protect i [] (m ∷ msgs) (plain, (opened, opens, f)) =
    (plain, (opened, opens, mask_from-Fits c protect (i + 1) opened msgs f))
mask_from-Fits c protect i (p ∷ ps) (m ∷ msgs) (by_user, open_id, f) =
    (by_user, open_id, mask_from-Fits c protect (i + 1) (delete_id m.tool_call_id (p ∷ ps)) msgs f)

take-mask_from :
    {E : Type 0} (c : Compactor E) (protect i n : ℕ) (msgs : List Message)
    → take n (mask_from c protect i msgs) ≡ mask_from c protect i (take n msgs)
unfolding mask_from
take-mask_from c protect i zero [] = refl
take-mask_from c protect i (suc n) [] = refl
take-mask_from c protect i zero (m ∷ msgs) = refl
take-mask_from c protect i (suc n) (m ∷ msgs) =
    ap (λ ms. mask_one c (ltb i protect) m ∷ ms) (take-mask_from c protect (i + 1) n msgs)

drop-mask_from :
    {E : Type 0} (c : Compactor E) (protect i n : ℕ) (msgs : List Message)
    → drop n (mask_from c protect i msgs) ≡ mask_from c protect (i + n) (drop n msgs)
unfolding mask_from
drop-mask_from c protect i zero [] = refl
drop-mask_from c protect i (suc n) [] = refl
drop-mask_from c protect i zero (m ∷ msgs) =
    let same : i ≡ i + 0 = omega arith in ap (λ k. mask_from c protect k (m ∷ msgs)) same
drop-mask_from c protect i (suc n) (m ∷ msgs) =
    let same : i + 1 + n ≡ i + suc n = omega arith in
    drop-mask_from c protect (i + 1) n msgs ∙ ap (λ k. mask_from c protect k (drop n msgs)) same

-- The results of a batch end where the next group starts, and fit alone.
take_results-slice :
    (ids : List String) (i : ℕ) (msgs : List Message) {found : ℕ × List Message}
    → take_results ids i msgs ≡ ok found
    → (n : ℕ) × (found.0 ≡ i + n) × (found.1 ≡ drop n msgs) × Fits ids (take n msgs)
unfolding take_results
take_results-slice [] i [] {found} h = (0, ground (arith, h), ground (arith, h), tt)
take_results-slice [] i (m ∷ msgs) {found} h = (0, ground (arith, h), ground (arith, h), tt)
take_results-slice (p ∷ ps) i [] h = absurd (ground (arith, h))
take_results-slice (p ∷ ps) i (m ∷ msgs) {found} h =
    elim (Bool-cases (is_user m.role && has_id m.tool_call_id (p ∷ ps))) [
      | inr e ↦ absurd (ground (arith, e, h))
      | inl e ↦
          let (n, place, rest, f) =
            take_results-slice (delete_id m.tool_call_id (p ∷ ps)) (i + 1) msgs {found = found}
              (ground (arith, e, h)) in
          (suc n, omega (arith, place), rest, (ground (arith, e), ground (arith, e), f))
    ]

-- Each group of a history fits alone.
group_from-All :
    (fuel i : ℕ) (all msgs : List Message) {groups : List Group}
    → drop i all ≡ msgs
    → group_from fuel i msgs ≡ ok groups
    → All (λ g. Fits [] (slice all g)) groups
unfolding group_from
group_from-All zero i all msgs place h = absurd (ground (arith, h))
group_from-All (suc fuel) i all [] {groups} place h =
    let same : [] ≡ groups = ground (arith, h) in subst (All (λ g. Fits [] (slice all g))) same tt
group_from-All (suc fuel) i all (m ∷ msgs) {groups} place h =
    let (opened, found, later, plain, opens, taken, others, same) =
      group_from-step fuel i m msgs h in
    let (n, end, rest, fits) = take_results-slice opened (i + 1) msgs taken in
    let alone : Fits [] (take (suc n) (m ∷ msgs)) = (plain, (opened, opens, fits)) in
    let size : suc n ≡ found.0 - i = omega (arith, end) in
    let here : Fits [] (take (found.0 - i) (drop i all)) =
      subst (λ k. Fits [] (take k (drop i all))) size
        (subst (λ ms. Fits [] (take (suc n) ms)) (sym place) alone) in
    let moved = drop-drop (suc n) i all in
    let next : i + suc n ≡ found.0 = omega (arith, end) in
    let behind : drop found.0 all ≡ found.1 =
      ap (λ k. drop k all) (sym next) ∙ sym moved ∙ ap (λ ms. drop (suc n) ms) place ∙ sym rest in
    let remaining = group_from-All fuel found.0 all found.1 behind others in
    let both : All (λ g. Fits [] (slice all g)) (record { start = i; end = found.0 } ∷ later) =
      (here, remaining) in
    subst (All (λ g. Fits [] (slice all g))) (sym same) both

abbrev AllFit : List (List Message) → Type 0
AllFit slices = All (λ s. Fits [] s) slices

masked-AllFit :
    {E : Type 0} (c : Compactor E) (protect : ℕ) (msgs : List Message) (groups : List Group)
    → All (λ g. Fits [] (slice msgs g)) groups
    → AllFit (map (slice (mask_from c protect 0 msgs)) groups)
masked-AllFit c protect msgs [] fits = tt
masked-AllFit c protect msgs (g ∷ groups) (f, fits) =
    let dropped = drop-mask_from c protect 0 g.start msgs in
    let taken = take-mask_from c protect (0 + g.start) (g.end - g.start) (drop g.start msgs) in
    (
      subst (Fits []) (sym (ap (λ ms. take (g.end - g.start) ms) dropped ∙ taken))
          (mask_from-Fits c protect (0 + g.start) [] (slice msgs g) f),
      masked-AllFit c protect msgs groups fits,
    )

concat-Fits : (slices : List (List Message)) → AllFit slices → Fits [] (concat slices)
unfolding concat
concat-Fits [] fits = tt
concat-Fits (s ∷ slices) (f, fits) = Fits-append [] s (concat slices) f (concat-Fits slices fits)

system-calls : (m : Message) → is_system m.role ≡ true → calls_of m ≡ []
system-calls m h = ground (arith, h)

with_prefix-Fits : (msgs : List Message) → Fits [] msgs → Fits [] (with_prefix msgs)
unfolding with_prefix open_calls
with_prefix-Fits [] f = tt
with_prefix-Fits (m ∷ msgs) (plain, (opened, opens, f)) = elim (Bool-cases (is_system m.role)) [
  | inr e ↦ elim (Bool-cases (is_plain_user m)) [
    | inl u ↦ rw (e, u) (plain, (opened, opens, f))
    | inr u ↦ rw (e, u) (refl, ([], refl, (plain, (opened, opens, f))))
  ]
  | inl e ↦
      let none_open : [] ≡ opened = ground (arith, opens, system-calls m e) in
      let rest = with_prefix-Fits msgs (subst (λ ids. Fits ids msgs) (sym none_open) f) in
      rw e (plain, (opened, opens, subst (λ ids. Fits ids (with_prefix msgs)) none_open rest))
]

-- The request has a size, which is above the limit.
abbrev pub IsTooLarge : {E : Type 0} → Compactor E → List Message → Type 0
IsTooLarge c msgs = (n : ℕ) × (c.context_size msgs ≡ ok n) × (c.max_chars < n)

or_smaller-eq-ok :
    {E : Type 0} (c : Compactor E) (candidate : List Message)
    (next : Result (CompactError E) (List Message)) {out : List Message}
    → or_smaller c candidate next ≡ ok out
    → ((candidate ≡ out) × ((n : ℕ) × (c.context_size out ≡ ok n) × (n ≤ c.max_chars)))
      ⊎ (IsTooLarge c candidate × (next ≡ ok out))
or_smaller-eq-ok c candidate next {out} h = elim (Result-cases (c.context_size candidate)) [
  | inl (e, f) ↦ absurd (ground (arith, f, h))
  | inr (n, f) ↦ elim (Bool-cases (leb n c.max_chars)) [
    | inl small ↦
        let same : candidate ≡ out = ground (arith, f, small, h) in
        inl (same, (n, subst (λ ms. c.context_size ms ≡ ok n) same f, leb→le n c.max_chars small))
    | inr large ↦ inr ((n, f, ground (arith, large)), ground (arith, f, large, h))
  ]
]

-- A group that has to stay: system messages, and the last group of a plain user message.
abbrev pub must_stay : List Message → List (List Message) → Bool
must_stay s later = starts_system s || (starts_plain s && not (any_plain later))

-- Of the groups, `chosen` are left, in order, among them all that have to stay.
pub data Keeps : List (List Message) → List (List Message) → Type 0 where
  keeps_nil : Keeps [] []
  keeps_group :
      (s : List Message) {slices chosen : List (List Message)}
      → Keeps slices chosen
      → Keeps (s ∷ slices) (s ∷ chosen)
  keeps_not :
      (s : List Message) {slices chosen : List (List Message)}
      → must_stay s slices ≡ false
      → Keeps slices chosen
      → Keeps (s ∷ slices) chosen

Keeps-all : (slices : List (List Message)) → Keeps slices slices
Keeps-all [] = keeps_nil
Keeps-all (s ∷ slices) = keeps_group s (Keeps-all slices)

Keeps-AllFit :
    {slices chosen : List (List Message)} → Keeps slices chosen → AllFit slices → AllFit chosen
Keeps-AllFit keeps_nil fits = tt
Keeps-AllFit (keeps_group s keeps) (f, fits) = (f, Keeps-AllFit keeps fits)
Keeps-AllFit (keeps_not s goes keeps) (f, fits) = Keeps-AllFit keeps fits

abbrev IsSmall : {E : Type 0} → Compactor E → List Message → Type 0
IsSmall c out = (n : ℕ) × (c.context_size out ≡ ok n) × (n ≤ c.max_chars)

shrink-Keeps :
    {E : Type 0} (c : Compactor E) (kept : List Message) (slices : List (List Message))
    {out : List Message}
    → shrink c kept slices ≡ ok out
    → (chosen : List (List Message)) × Keeps slices chosen
      × (with_prefix (kept ++ concat chosen) ≡ out)
      × IsSmall c out
unfolding shrink concat
shrink-Keeps c kept [] h = absurd (ground (arith, h))
shrink-Keeps c kept (s ∷ slices) {out} h = elim (Bool-cases (must_stay s slices)) [
  | inl e ↦
      let (chosen, keeps, same, small) =
        shrink-Keeps c (kept ++ s) slices {out = out} (ground (arith, e, h)) in
      let joined = append_assoc kept s (concat chosen) in
      (s ∷ chosen, keeps_group s keeps, ap with_prefix (sym joined) ∙ same, small)
  | inr e ↦
      let tried : or_smaller c (with_prefix (kept ++ concat slices)) (shrink c kept slices)
          ≡ ok out =
        ground (arith, e, h) in
      elim (or_smaller-eq-ok c (with_prefix (kept ++ concat slices)) (shrink c kept slices) tried) [
        | inl (same, small) ↦ (slices, keeps_not s e (Keeps-all slices), same, small)
        | inr (_, next) ↦
            let (chosen, keeps, same, small) = shrink-Keeps c kept slices {out = out} next in
            (chosen, keeps_not s e keeps, same, small)
      ]
]

-- The history as it is, or with long texts folded, or some of its groups with long texts folded, behind the
-- notice where no plain user message opens it.
abbrev pub IsChosen : {E : Type 0} → Compactor E → List Message → List Group → List Message → Type 0
IsChosen c msgs groups out =
    (with_prefix msgs ≡ out)
    ⊎ (IsTooLarge c (with_prefix msgs) × (with_prefix (mask c msgs) ≡ out))
    ⊎ ((chosen : List (List Message)) × IsTooLarge c (with_prefix msgs)
        × IsTooLarge c (with_prefix (mask c msgs))
        × Keeps (map (slice (mask c msgs)) groups) chosen
        × (with_prefix (concat chosen) ≡ out))

pub compact_within_parts :
    {E : Type 0} (c : Compactor E) (msgs out : List Message)
    → compact_within c msgs ≡ ok out
    → (groups : List Group) × (message_groups msgs ≡ ok groups)
      × IsChosen c msgs groups out
      × Fits [] out
      × ((n : ℕ) × (c.context_size out ≡ ok n) × (n ≤ c.max_chars))
unfolding compact_within message_groups mask
compact_within_parts c msgs out h = elim (Result-cases (message_groups msgs)) [
  | inl (e, f) ↦ absurd (ground (arith, f, h))
  | inr (groups, f) ↦
      let whole = ((message_groups-Fits msgs).1 groups f).0 in
      let protect = length msgs - c.retain_last_msgs in
      let masked = mask_from-Fits c protect 0 [] msgs whole in
      let each =
        masked-AllFit c protect msgs groups (group_from-All (length msgs + 1) 0 msgs msgs refl f) in
      let slices = map (slice (mask c msgs)) groups in
      let rest = shrink c [] slices in
      let second = or_smaller c (with_prefix (mask c msgs)) rest in
      let tried : or_smaller c (with_prefix msgs) second ≡ ok out = ground (arith, f, h) in
      elim (or_smaller-eq-ok c (with_prefix msgs) second tried) [
        | inl (same, small) ↦
            (groups, f, inl same, subst (Fits []) same (with_prefix-Fits msgs whole), small)
        | inr (large, later) ↦ elim (or_smaller-eq-ok c (with_prefix (mask c msgs)) rest later) [
          | inl (same, small) ↦ (
            groups,
            f,
            inr (inl (large, same)),
            subst (Fits []) same (with_prefix-Fits (mask c msgs) masked),
            small,
          )
          | inr (still_large, last) ↦
              let (chosen, keeps, same, small) = shrink-Keeps c [] slices last in
              (
                groups,
                f,
                inr (inr (chosen, large, still_large, keeps, same)),
                subst (Fits []) same (
                    with_prefix-Fits (concat chosen)
                      (concat-Fits chosen (Keeps-AllFit keeps each))),
                small,
              )
        ]
      ]
]
