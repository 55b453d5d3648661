-- ===== src/Edit/Unique.antt =====
-- replaceUnique of internal/tools/edit_file.go: the place that it finds is the only one.
use go_agent_claw.Prelude.{
  ℕ, zero, suc, ◌+◌, ◌<◌, ◌≤◌, ◌≡◌, ◌≢◌, refl, sym, ap, ◌∙◌, subst, inl, inr, ◌⊎◌, true, false,
  none, some, [], ◌∷◌, ◌++◌, arith, Bool-cases, Option-cases, length, is_empty, take, drop,
  drop-drop, length-take, take-append-drop,
}
use go_agent_claw.Budget.{has_prefix}
use go_agent_claw.Budget.Prefix.{has_prefix-append, has_prefix-drop}
use go_agent_claw.Edit.{Text, index, replace_unique, edited, no_match}

-- Where index finds nothing, the text stands nowhere; where it finds a place, that is the first one.
pub index-none :
    (wanted text : Text) (n : ℕ)
    → index wanted text ≡ none
    → has_prefix (drop n text) wanted ≡ false
unfolding index
index-none wanted [] zero h = ground (arith, h)
index-none wanted [] (suc n) h = ground (arith, h)
index-none wanted (c ∷ cs) zero h = ground (arith, h)
index-none wanted (c ∷ cs) (suc n) h = elim (Option-cases (index wanted cs)) [
  | inl e ↦ index-none wanted cs n e
  | inr (i, e) ↦ absurd (ground (arith, e, h))
]

-- The text `wanted` stands nowhere in `text`.
abbrev pub IsAbsent : Text → Text → Type 0
IsAbsent wanted text = (before after : Text) → text ≢ before ++ (wanted ++ after)

drop-before : (before text : Text) → drop (length before) (before ++ text) ≡ text
drop-before [] text = refl
drop-before (c ∷ cs) text = drop-before cs text

index-IsAbsent : (wanted text : Text) → index wanted text ≡ none → IsAbsent wanted text
index-IsAbsent wanted text h before after same =
    let here = has_prefix-append wanted after in
    let none_here = index-none wanted text (length before) h in
    let there = drop-before before (wanted ++ after) in
    absurd (ground (arith, here, none_here, ap (drop (length before)) same, there))

pub replace_unique-IsAbsent :
    (content wanted new : Text)
    → replace_unique content wanted new ≡ no_match
    → IsAbsent wanted content
unfolding replace_unique
replace_unique-IsAbsent content wanted new h = elim (Bool-cases (is_empty wanted)) [
  | inl e ↦ absurd (ground (arith, e, h))
  | inr e ↦ elim (Option-cases (index wanted content)) [
    | inl f ↦ index-IsAbsent wanted content f
    | inr (i, f) ↦
        absurd (ground (arith, e, f, h, Option-cases (index wanted (drop (i + 1) content))))
  ]
]

shifted :
    (wanted : Text) (c : ℕ) (cs : Text) (j : ℕ)
    → has_prefix (c ∷ cs) wanted ≡ false
    → ((n : ℕ) → n < j → has_prefix (drop n cs) wanted ≡ false)
    → (n : ℕ) → n < suc j
    → has_prefix (drop n (c ∷ cs)) wanted ≡ false
shifted wanted c cs j here before zero less = here
shifted wanted c cs j here before (suc n) less = before n (omega (arith, less))

index-some :
    (wanted text : Text) (i : ℕ)
    → index wanted text ≡ some i
    → (has_prefix (drop i text) wanted ≡ true)
      × ((n : ℕ) → n < i → has_prefix (drop n text) wanted ≡ false)
unfolding index
index-some wanted [] zero h = (ground (arith, h), λ n less. absurd (omega (arith, less)))
index-some wanted [] (suc i) h = absurd (ground (arith, h))
index-some wanted (c ∷ cs) i h = elim (Bool-cases (has_prefix (c ∷ cs) wanted)) [
  | inl here ↦
      let first : 0 ≡ i = ground (arith, here, h) in
      (
        subst (λ k. has_prefix (drop k (c ∷ cs)) wanted ≡ true) first here,
        λ n less. absurd (omega (arith, first, less)),
      )
  | inr elsewhere ↦ elim (Option-cases (index wanted cs)) [
    | inl e ↦ absurd (ground (arith, elsewhere, e, h))
    | inr (j, e) ↦
        let (there, before) = index-some wanted cs j e in
        let same : suc j ≡ i = ground (arith, elsewhere, e, h) in
        (
          subst (λ k. has_prefix (drop k (c ∷ cs)) wanted ≡ true) same there,
          λ n less. shifted wanted c cs j elsewhere before n (omega (arith, less, same)),
        )
  ]
]

-- The text `wanted` stands in `text` behind `before`, and nowhere else.
pub record IsOnly (wanted text before after : Text) : Type 0 where
  pub here : text ≡ before ++ (wanted ++ after)
  pub alone : (n : ℕ) → has_prefix (drop n text) wanted ≡ true → n ≡ length before

order : (n i : ℕ) → (n < i) ⊎ (n ≡ i) ⊎ ((m : ℕ) × (n ≡ i + 1 + m))
order zero zero = inr (inl refl)
order zero (suc i) = inl (omega arith)
order (suc n) zero = inr (inr (n, omega arith))
order (suc n) (suc i) = elim (order n i) [
  | inl less ↦ inl (omega (arith, less))
  | inr (inl same) ↦ inr (inl (ap suc same))
  | inr (inr (m, more)) ↦ inr (inr (m, omega (arith, more)))
]

index-le : (wanted text : Text) (i : ℕ) → index wanted text ≡ some i → i ≤ length text
unfolding index
index-le wanted [] i h = elim (Bool-cases (has_prefix [] wanted)) [
  | inl e ↦ ground (arith, e, h)
  | inr e ↦ absurd (ground (arith, e, h))
]
index-le wanted (c ∷ cs) i h = elim (Bool-cases (has_prefix (c ∷ cs) wanted)) [
  | inl e ↦ ground (arith, e, h)
  | inr e ↦ elim (Option-cases (index wanted cs)) [
    | inl f ↦ absurd (ground (arith, e, f, h))
    | inr (j, f) ↦
        let inside = index-le wanted cs j f in
        let same : suc j ≡ i = ground (arith, e, f, h) in omega (arith, inside, same)
  ]
]

pub index-IsOnly :
    (wanted text : Text) (i : ℕ)
    → index wanted text ≡ some i
    → index wanted (drop (i + 1) text) ≡ none
    → IsOnly wanted text (take i text) (drop (i + length wanted) text)
index-IsOnly wanted text i found last =
    let inside = index-le wanted text i found in
    let (there, before) = index-some wanted text i found in
    let split_here = take-append-drop i text in
    let starts = has_prefix-drop (drop i text) wanted there in
    let behind = drop-drop (length wanted) i text in
    record {
      here = sym split_here ∙ ap (λ t. take i text ++ t) (starts ∙ ap (λ t. wanted ++ t) behind);
      alone = λ n h. elim (order n i) [
        | inl less ↦ absurd (ground (arith, before n less, h))
        | inr (inl same) ↦ let size = length-take i text in omega (arith, same, size, inside)
        | inr (inr (m, more)) ↦
            let later = index-none wanted (drop (i + 1) text) m last in
            let place = drop-drop m (i + 1) text in absurd (ground (arith, later, place, more, h))
      ];
    }

pub replace_unique-IsOnly :
    (content wanted new out : Text)
    → replace_unique content wanted new ≡ edited out
    → (before : Text) × (after : Text) × IsOnly wanted content before after
      × (out ≡ before ++ (new ++ after))
unfolding replace_unique
replace_unique-IsOnly content wanted new out h = elim (Bool-cases (is_empty wanted)) [
  | inl e ↦ absurd (ground (arith, e, h))
  | inr e ↦ elim (Option-cases (index wanted content)) [
    | inl f ↦ absurd (ground (arith, e, f, h))
    | inr (i, f) ↦ elim (Option-cases (index wanted (drop (i + 1) content))) [
      | inr (j, g) ↦ absurd (ground (arith, e, f, g, h))
      | inl g ↦
          let same : take i content ++ (new ++ drop (i + length wanted) content) ≡ out =
            ground (arith, e, f, g, h) in
          (
            take i content,
            drop (i + length wanted) content,
            index-IsOnly wanted content i f g,
            sym same,
          )
    ]
  ]
]
