-- ===== src/Edit/Levels.antt =====
-- fuzzyReplace of internal/tools/edit_file.go: what a successful replacement has changed.
use go_agent_claw.Prelude.{
  ◌≡◌, refl, [], ◌∷◌, inl, inr, ◌⊎◌, ◌++◌, arith, Bool-cases, is_empty, if◌then◌else◌,
}
use go_agent_claw.Edit.{
  Text, Edit, no_match, ambiguous, empty_text, not_found, edited, normalize, trim_space,
  replace_unique, line_by_line_replace, fuzzy_replace, or_next,
}
use go_agent_claw.Edit.Unique.{IsOnly, IsAbsent, replace_unique-IsOnly, replace_unique-IsAbsent}
use go_agent_claw.Edit.Lines.{IsLineEdit, line_by_line_replace-IsLineEdit}

-- The only place of `sought` in `text` is replaced, and everything around it stays.
pub record IsTextEdit (text sought new out : Text) : Type 0 where
  pub before : Text
  pub after : Text
  pub only : IsOnly sought text before after
  pub replaced : out ≡ before ++ (new ++ after)

replace_unique-IsTextEdit :
    (content wanted new out : Text)
    → replace_unique content wanted new ≡ edited out
    → IsTextEdit content wanted new out
replace_unique-IsTextEdit content wanted new out h =
    let (before, after, only, replaced) = replace_unique-IsOnly content wanted new out h in
    record { before = before; after = after; only = only; replaced = replaced }

-- The levels: the text as it is, with the line ends made equal, without the space around it, or line by line;
-- a level is reached where those before it find the text nowhere.
pub data IsEdit (content wanted new out : Text) : Type 0 where
  exactly : IsTextEdit content wanted new out → IsEdit content wanted new out
  by_line_ends :
      IsAbsent wanted content
      → IsTextEdit (normalize content) (normalize wanted) new out
      → IsEdit content wanted new out
  by_trimming :
      IsAbsent wanted content
      → IsAbsent (normalize wanted) (normalize content)
      → IsTextEdit (normalize content) (trim_space (normalize wanted)) new out
      → IsEdit content wanted new out
  by_lines :
      IsAbsent wanted content
      → IsAbsent (normalize wanted) (normalize content)
      → (trim_space (normalize wanted) ≡ [])
        ⊎ IsAbsent (trim_space (normalize wanted)) (normalize content)
      → IsLineEdit (normalize content) (normalize wanted) new out
      → IsEdit content wanted new out

or_next-cases :
    (e next : Edit) (out : Text)
    → or_next e next ≡ edited out
    → (e ≡ edited out) ⊎ ((e ≡ no_match) × (next ≡ edited out))
or_next-cases no_match next out h = inr (refl, h)
or_next-cases ambiguous next out h = inl h
or_next-cases empty_text next out h = inl h
or_next-cases not_found next out h = inl h
or_next-cases (edited text) next out h = inl h

trimmed_missing :
    (text sought new : Text)
    → (if is_empty sought then no_match else replace_unique text sought new) ≡ no_match
    → (sought ≡ []) ⊎ IsAbsent sought text
trimmed_missing text [] new h = inl refl
trimmed_missing text (c ∷ cs) new h = inr (replace_unique-IsAbsent text (c ∷ cs) new h)

trimmed_lem :
    (text sought new out : Text)
    → (if is_empty sought then no_match else replace_unique text sought new) ≡ edited out
    → replace_unique text sought new ≡ edited out
trimmed_lem text sought new out h = elim (Bool-cases (is_empty sought)) [
  | inl e ↦ absurd (ground (arith, e, h))
  | inr e ↦ ground (arith, e, h)
]

-- A replacement that succeeds has replaced one place, which is the only one that its level matches, and has kept
-- everything before and behind it, but for the line ends where the text as it is stood nowhere: the sought text
-- itself, or, where this stood nowhere, with equal line ends, or, where this stood nowhere either, without the
-- space around it, or, where this is empty or stood nowhere, a block of lines that differ from it only in the
-- space around each line.
pub fuzzy_replace-IsEdit :
    (content wanted new out : Text)
    → fuzzy_replace content wanted new ≡ edited out
    → IsEdit content wanted new out
unfolding fuzzy_replace
fuzzy_replace-IsEdit content wanted new out h =
    let plain = normalize content in
    let plain_wanted = normalize wanted in
    let trimmed = trim_space plain_wanted in
    let lines = line_by_line_replace plain plain_wanted new in
    let third = if is_empty trimmed then no_match else replace_unique plain trimmed new in
    elim (or_next-cases (replace_unique content wanted new)
      (or_next (replace_unique plain plain_wanted new) (or_next third lines)) out h) [
        | inl one ↦ exactly (replace_unique-IsTextEdit content wanted new out one)
        | inr (no_one, after_one) ↦
            let exact_missing = replace_unique-IsAbsent content wanted new no_one in
            elim (or_next-cases (replace_unique plain plain_wanted new) (or_next third lines) out
              after_one) [
                | inl two ↦
                    by_line_ends exact_missing
                      (replace_unique-IsTextEdit plain plain_wanted new out two)
                | inr (no_two, after_two) ↦
                    let plain_missing = replace_unique-IsAbsent plain plain_wanted new no_two in
                    elim (or_next-cases third lines out after_two) [
                      | inl three ↦ by_trimming exact_missing plain_missing (
                          replace_unique-IsTextEdit plain trimmed new out
                            (trimmed_lem plain trimmed new out three))
                      | inr (no_three, four) ↦
                          by_lines exact_missing plain_missing
                            (trimmed_missing plain trimmed new no_three)
                            (line_by_line_replace-IsLineEdit plain plain_wanted new out four)
                    ]
              ]
      ]
