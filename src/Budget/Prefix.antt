-- ===== src/Budget/Prefix.antt =====
-- strings.HasPrefix, as internal/engine/delegation.go and internal/tools/edit_file.go rely on it.
use go_agent_claw.Prelude.{ℕ, ◌≡◌, refl, true, List, [], ◌∷◌, ◌++◌, arith, length, drop}
use go_agent_claw.Budget.{has_prefix}

pub has_prefix-append : (wanted after : List ℕ) → has_prefix (wanted ++ after) wanted ≡ true
unfolding has_prefix
has_prefix-append [] after = refl
has_prefix-append (c ∷ cs) after = ground (arith, has_prefix-append cs after)

pub has_prefix-drop :
    (text wanted : List ℕ)
    → has_prefix text wanted ≡ true
    → text ≡ wanted ++ drop (length wanted) text
unfolding has_prefix
has_prefix-drop text [] h = refl
has_prefix-drop [] (w ∷ wanted) h = absurd (ground (arith, h))
has_prefix-drop (c ∷ cs) (w ∷ wanted) h =
    let rest = has_prefix-drop cs wanted (ground (arith, h)) in
    let same : c ≡ w = ground (arith, h) in cc
