-- ===== src/Edit.antt =====
-- internal/tools/edit_file.go: the replacement of a text in a file. `fuzzy_replace` is fuzzyReplace, `replace_unique`
-- replaceUnique, `line_by_line_replace` lineByLineReplace. Texts are lists of code points, of files that are valid
-- UTF-8.
pub mod Unique
pub mod Lines
pub mod Levels
mod Tests
use go_agent_claw.Prelude.{
  ℕ, zero, suc, ◌+◌, Bool, true, false, ◌&&◌, ◌||◌, Option, none, some, List, [], ◌∷◌, ◌++◌, map,
  ltb, ◌==◌, if◌then◌else◌, length, is_empty, take, drop, is_space, is_blank,
}
use go_agent_claw.Budget.{has_prefix}

abbrev pub Text : Type 0
Text = List ℕ

pub data Edit : Type 0 where
  no_match ambiguous empty_text not_found : Edit
  edited : Text → Edit

-- strings.Index, or none for its -1.
unfoldable pub index : Text → Text → Option ℕ
unfolding has_prefix
index wanted [] = if has_prefix [] wanted then some 0 else none
index wanted (c ∷ cs) =
    let later = index wanted cs in
    if has_prefix (c ∷ cs) wanted
    then some 0
    else elim later [ none ↦ none | some i ↦ some (suc i) ]

unfoldable pub replace_unique : Text → Text → Text → Edit
unfolding index
replace_unique content wanted new =
    if is_empty wanted then empty_text else elim (index wanted content) [
      | none ↦ no_match
      | some i ↦ elim (index wanted (drop (i + 1) content)) [
        | some _ ↦ ambiguous
        | none ↦ edited (take i content ++ (new ++ drop (i + length wanted) content))
      ]
    ]

abbrev pub starts_line : Text → Bool
starts_line [] = false
starts_line (c ∷ cs) = c == 10

-- strings.ReplaceAll of "\r\n" by "\n"
unfoldable pub normalize : Text → Text
normalize [] = []
normalize (c ∷ cs) = let rest = normalize cs in if c == 13 && starts_line cs then rest else c ∷ rest

unfoldable pub trim_left : Text → Text
unfolding is_space
trim_left [] = []
trim_left (c ∷ cs) = let rest = trim_left cs in if is_space c then rest else c ∷ cs

unfoldable pub trim_right : Text → Text
unfolding is_blank
trim_right [] = []
trim_right (c ∷ cs) = let rest = trim_right cs in if is_blank (c ∷ cs) then [] else c ∷ rest

-- strings.TrimSpace
unfoldable pub trim_space : Text → Text
unfolding trim_left trim_right
trim_space text = trim_right (trim_left text)

abbrev pub push : ℕ → List Text → List Text
push c [] = (c ∷ []) ∷ []
push c (line ∷ lines) = (c ∷ line) ∷ lines

-- strings.Split by "\n"
unfoldable pub split : Text → List Text
split [] = [] ∷ []
split (c ∷ cs) = let lines = split cs in if c == 10 then [] ∷ lines else push c lines

-- strings.Join by "\n"
unfoldable pub join : List Text → Text
join [] = []
join (line ∷ []) = line
join (line ∷ next ∷ lines) = line ++ (10 ∷ join (next ∷ lines))

unfoldable pub text_eq : Text → Text → Bool
text_eq [] [] = true
text_eq [] (d ∷ ds) = false
text_eq (c ∷ cs) [] = false
text_eq (c ∷ cs) (d ∷ ds) = c == d && text_eq cs ds

-- The inner loop: the lines from some place on match the trimmed ones.
unfoldable pub matches : List Text → List Text → Bool
unfolding text_eq trim_space
matches [] lines = true
matches (w ∷ wanted) [] = false
matches (w ∷ wanted) (line ∷ lines) = text_eq (trim_space line) w && matches wanted lines

-- The outer loop: how many places from `i` on match, and the last of them. Where fewer lines are left than are
-- wanted, none match.
unfoldable pub count_matches : List Text → ℕ → List Text → ℕ × ℕ
unfolding matches
count_matches wanted i [] = (0, 0)
count_matches wanted i (line ∷ lines) =
    let (count, start) = count_matches wanted (i + 1) lines in
    if matches wanted (line ∷ lines)
    then (count + 1, if count == 0 then i else start)
    else (count, start)

abbrev pub wanted_lines : Text → List Text
wanted_lines wanted = map trim_space (split (trim_space wanted))

unfoldable pub line_by_line_replace : Text → Text → Text → Edit
unfolding split join trim_space count_matches
line_by_line_replace content wanted new =
    let lines = split content in
    let block = wanted_lines wanted in
    let (count, start) = count_matches block 0 lines in
    if ltb (length lines) (length block) || count == 0
    then not_found
    else if ltb 1 count
    then ambiguous
    else edited (join (take start lines ++ (new ∷ drop (start + length block) lines)))

-- One level of the replacement, and what follows where it finds nothing.
abbrev pub or_next : Edit → Edit → Edit
or_next no_match next = next
or_next e next = e

unfoldable pub fuzzy_replace : Text → Text → Text → Edit
unfolding replace_unique normalize trim_space line_by_line_replace
fuzzy_replace content wanted new =
    let plain = normalize content in
    let plain_wanted = normalize wanted in
    let trimmed = trim_space plain_wanted in
    or_next (replace_unique content wanted new) (
      or_next (replace_unique plain plain_wanted new) (
        or_next (if is_empty trimmed then no_match else replace_unique plain trimmed new)
          (line_by_line_replace plain plain_wanted new)))
