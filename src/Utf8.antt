-- ===== src/Utf8.antt =====
-- unicode/utf8 as the readers of internal/taskstore/store.go and internal/tools use it: how many bytes the
-- first character of a slice takes. A byte that starts no whole character counts as one of its own.
pub mod Boundary
use go_agent_claw.Prelude.{
  ℕ, zero, suc, ◌+◌, ◌-◌, Bool, true, false, ◌&&◌, ◌||◌, List, [], ◌∷◌, leb, ltb, ◌==◌,
  if◌then◌else◌,
}

abbrev pub Bytes : Type 0
Bytes = List ℕ

abbrev pub is_between : ℕ → ℕ → ℕ → Bool
is_between low high b = leb low b && leb b high

-- The length that the first byte announces; 1 for a byte that cannot start a longer character.
unfoldable pub width : ℕ → ℕ
width b =
    if is_between 0xC2 0xDF b
    then 2
    else if is_between 0xE0 0xEF b
    then 3
    else if is_between 0xF0 0xF4 b
    then 4
    else 1

-- The range of the second byte.
unfoldable pub second_low : ℕ → ℕ
second_low b = if b == 0xE0 then 0xA0 else if b == 0xF0 then 0x90 else 0x80

unfoldable pub second_high : ℕ → ℕ
second_high b = if b == 0xED then 0x9F else if b == 0xF4 then 0x8F else 0xBF

-- `n` bytes follow, the first in the given range, the others in that of all continuation bytes.
unfoldable pub has_tail : ℕ → ℕ → ℕ → Bytes → Bool
has_tail low high zero bs = true
has_tail low high (suc n) [] = false
has_tail low high (suc n) (b ∷ bs) = is_between low high b && has_tail 0x80 0xBF n bs

-- The size that DecodeRune returns.
unfoldable pub rune_size : Bytes → ℕ
unfolding width second_low second_high has_tail
rune_size [] = 0
rune_size (b ∷ bs) = if has_tail (second_low b) (second_high b) (width b - 1) bs then width b else 1

-- RuneStart
unfoldable pub is_rune_start : ℕ → Bool
is_rune_start b = ltb b 0x80 || leb 0xC0 b
