-- ===== src/Artifacts/Paging.antt =====
-- One page of readArtifactPage in internal/taskstore/store.go.
use go_agent_claw.Prelude.{
  ℕ, zero, suc, ◌+◌, ◌-◌, ◌≤◌, ◌<◌, ◌≡◌, refl, sym, ap, ◌∙◌, ◌⊎◌, inl, inr, false, ◌&&◌, none,
  arith, Bool-cases, ltb, leb, length, length-drop, length-take, take, take-take, drop, drop-drop,
  drop-take, subst,
}
use go_agent_claw.Utf8.{Bytes, rune_size}
use go_agent_claw.Utf8.Boundary.{Boundary, after, rune_size-le, rune_size-pos, rune_size-take}
use go_agent_claw.Artifacts.{ArtifactPage, find_straddling, take_runes, page_of}

-- A window shows the sizes of the characters that start four bytes or more before its end.
pub window_size :
    (file : Bytes) (start count k : ℕ)
    → (4 ≤ count - k) ⊎ (length file ≤ start + count)
    → rune_size (drop k (take count (drop start file))) ≡ rune_size (drop (start + k) file)
window_size file start count k h =
    let cut =
      drop-take k count (drop start file) ∙ ap (take (count - k)) (drop-drop k start file) in
    let enough : (4 ≤ count - k) ⊎ (length (drop (start + k) file) ≤ count - k) =
      ground (arith, h, length-drop (start + k) file) in
    ap rune_size cut ∙ rune_size-take (count - k) (drop (start + k) file) enough

pub find_straddling-none :
    (rounds i prefix : ℕ) (bytes : Bytes)
    → ((k : ℕ) → i ≤ k → k < i + rounds → k + rune_size (drop k bytes) ≤ prefix)
    → find_straddling rounds i prefix bytes ≡ none
unfolding find_straddling
find_straddling-none zero i prefix bytes h = refl
find_straddling-none (suc rounds) i prefix bytes h =
    let here = h i (omega arith) (omega arith) in
    let later =
      find_straddling-none rounds (i + 1) prefix bytes (λ k l u. h k (omega arith) (omega arith)) in
    ground (arith, here, later)

pub take_runes_bounds :
    (rounds limit consumed : ℕ) (bytes : Bytes)
    → consumed ≤ limit
    → consumed ≤ length bytes
    → (consumed ≤ take_runes rounds limit consumed bytes)
      × (take_runes rounds limit consumed bytes ≤ limit)
      × (take_runes rounds limit consumed bytes ≤ length bytes)
unfolding take_runes
take_runes_bounds zero limit consumed bytes l b = omega arith
take_runes_bounds (suc rounds) limit consumed bytes l b =
    let size = rune_size-le (drop consumed bytes) in
    ground (
      arith,
      size,
      length-drop consumed bytes,
      take_runes_bounds rounds limit (consumed + rune_size (drop consumed bytes)) bytes,
    )

-- With room for any character a round takes one.
pub take_runes-pos :
    (rounds limit : ℕ) (bytes : Bytes)
    → 0 < length bytes
    → 4 ≤ limit
    → 0 < take_runes (suc rounds) limit 0 bytes
unfolding take_runes
take_runes-pos rounds limit bytes b l =
    let size = rune_size-pos bytes b in
    let inside = rune_size-le bytes in
    ground
      (arith, size, inside, take_runes_bounds rounds limit (0 + rune_size (drop 0 bytes)) bytes)

-- A round ends the loop, or takes the next character.
take_runes-step :
    (rounds limit consumed : ℕ) (bytes : Bytes)
    → (take_runes (suc rounds) limit consumed bytes ≡ consumed)
      ⊎ ((take_runes (suc rounds) limit consumed bytes
            ≡ take_runes rounds limit (consumed + rune_size (drop consumed bytes)) bytes)
          × (consumed < length bytes)
          × (consumed < limit))
unfolding take_runes
take_runes-step rounds limit consumed bytes =
    elim (Bool-cases (ltb consumed (length bytes) && ltb consumed limit)) [
      | inr f ↦ inl (ground (arith, f))
      | inl t ↦ elim (Bool-cases (ltb (limit - consumed) (rune_size (drop consumed bytes)))) [
        | inl big ↦ inl (ground (arith, t, big))
        | inr fits ↦ inr (ground (arith, t, fits), ground (arith, t), ground (arith, t))
      ]
    ]

-- Where the window is four bytes longer than the page, or reaches the end, its characters are the file's.
pub take_runes-Boundary :
    (file : Bytes) (offset limit count rounds consumed : ℕ)
    → (limit + 4 ≤ count) ⊎ (length file ≤ offset + count)
    → Boundary file (offset + consumed)
    → Boundary file (offset + take_runes rounds limit consumed (take count (drop offset file)))
unfolding take_runes
take_runes-Boundary file offset limit count zero consumed wide b = b
take_runes-Boundary file offset limit count (suc rounds) consumed wide b =
    let bytes = take count (drop offset file) in
    elim (take_runes-step rounds limit consumed bytes) [
      | inl stops ↦ subst (λ n. Boundary file (offset + n)) (sym stops) b
      | inr (goes_on, inside, below) ↦
          let size = window_size file offset count consumed (ground (arith, wide, below)) in
          let within : offset + consumed < length file =
            omega (arith, inside, length-take count (drop offset file), length-drop offset file) in
          let next : Boundary file (offset + (consumed + rune_size (drop consumed bytes))) =
            after b within (omega (arith, size)) in
          subst (λ n. Boundary file (offset + n)) (sym goes_on)
            (take_runes-Boundary file offset limit count rounds
              (consumed + rune_size (drop consumed bytes)) wide next)
    ]

-- A page's content is the file's from its offset on, no longer than the limit; the next offset follows it,
-- and only a page that reaches the end of the file is marked as the last, or empty.
pub record IsPage (file : Bytes) (offset limit : ℕ) (p : ArtifactPage) : Type 0 where
  pub content : p.content ≡ take (length p.content) (drop offset file)
  pub bounded : length p.content ≤ limit
  pub next : p.next_offset ≡ offset + length p.content
  pub last : p.eof ≡ leb (length file) p.next_offset
  pub whole : p.total ≡ length file
  pub advances : p.eof ≡ false → 0 < length p.content

pub take_prefix :
    (n m : ℕ) (xs : Bytes)
    → n ≤ length (take m xs)
    → (take n (take m xs) ≡ take n xs) × (length (take n (take m xs)) ≡ n)
take_prefix n m xs h =
    let inside : n ≤ m = omega (arith, h, length-take m xs) in
    (take-take n m xs inside, omega (arith, h, length-take n (take m xs)))

pub page_of-IsPage :
    (file : Bytes) (offset limit n : ℕ)
    → n ≤ limit
    → offset + n ≤ length file
    → (offset + n < length file → 0 < n)
    → IsPage file offset limit (page_of offset (length file) (take n (drop offset file)))
page_of-IsPage file offset limit n l b moves =
    let size : length (take n (drop offset file)) ≡ n =
      omega (arith, b, length-take n (drop offset file), length-drop offset file) in
    record {
      content = ap (λ k. take k (drop offset file)) (sym size);
      bounded = omega (arith, size);
      next = refl;
      last = refl;
      whole = refl;
      advances = λ h. ground (arith, h, size, moves);
    }
