-- ===== src/Edit/Tests.antt =====
-- Replacements at concrete inputs, one for each level, and two that are refused.
use go_agent_claw.Prelude.{◌≡◌, refl, codes, is_space, is_blank}
use go_agent_claw.Budget.{has_prefix}
use go_agent_claw.Edit.{
  Text, ambiguous, not_found, edited, index, replace_unique, normalize, trim_left, trim_right,
  trim_space, split, join, text_eq, matches, count_matches, line_by_line_replace, fuzzy_replace,
}
use go_agent_claw.Edit.Levels.{IsEdit, fuzzy_replace-IsEdit}

abbrev content : Text
content = codes "a {\r\n  b\r\n}\n"

edits_succeed :
    (fuzzy_replace content (codes "b") (codes "x") ≡ edited (codes "a {\r\n  x\r\n}\n"))
    × (fuzzy_replace content (codes "{\n  b") (codes "x") ≡ edited (codes "a x\n}\n"))
    × (fuzzy_replace content (codes "  {\n  b\n") (codes "x") ≡ edited (codes "a x\n}\n"))
    × (fuzzy_replace content (codes "a {\nb") (codes "x") ≡ edited (codes "x\n}\n"))
    × (fuzzy_replace content (codes "\n") (codes "x") ≡ ambiguous)
    × (fuzzy_replace content (codes "c") (codes "x") ≡ not_found)
unfolding fuzzy_replace replace_unique index has_prefix normalize trim_space trim_left trim_right
    is_space is_blank split join text_eq matches count_matches line_by_line_replace
edits_succeed = (refl, refl, refl, refl, refl, refl)

fuzzy_replace-IsEdit_example : IsEdit content (codes "a {\nb") (codes "x") (codes "x\n}\n")
fuzzy_replace-IsEdit_example =
    fuzzy_replace-IsEdit content (codes "a {\nb") (codes "x") (codes "x\n}\n") edits_succeed.3
