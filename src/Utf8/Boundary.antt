-- ===== src/Utf8/Boundary.antt =====
-- The offsets of a file at which a character starts when it is read from its beginning.
use go_agent_claw.Prelude.{
  ℕ, zero, suc, ◌+◌, ◌-◌, ◌≤◌, ◌<◌, ◌≡◌, refl, sym, ap, ◌∙◌, ◌⊎◌, inl, inr, true, ◌&&◌, [], ◌∷◌,
  arith, Bool-cases, ltb, length, length-drop, take, drop, drop-drop,
}
use go_agent_claw.Utf8.{Bytes, is_between, width, second_low, second_high, has_tail, rune_size}

pub data Boundary (file : Bytes) : ℕ → Type 0 where
  start : Boundary file 0
  after :
      {n m : ℕ}
      → Boundary file n
      → n < length file
      → m ≡ n + rune_size (drop n file)
      → Boundary file m

pub width_bounds : (b : ℕ) → (1 ≤ width b) × (width b ≤ 4)
unfolding width
width_bounds b = ground arith

has_tail-length : (low high n : ℕ) (bs : Bytes) → has_tail low high n bs ≡ true → n ≤ length bs
unfolding has_tail
has_tail-length low high zero bs h = omega arith
has_tail-length low high (suc n) [] h = cc
has_tail-length low high (suc n) (b ∷ bs) h = ground (arith, has_tail-length 0x80 0xBF n bs)

pub rune_size-le : (bs : Bytes) → rune_size bs ≤ length bs
unfolding rune_size
rune_size-le [] = omega arith
rune_size-le (b ∷ bs) =
    ground (arith, width_bounds b, has_tail-length (second_low b) (second_high b) (width b - 1) bs)

pub rune_size-pos : (bs : Bytes) → 0 < length bs → (0 < rune_size bs) × (rune_size bs ≤ 4)
unfolding rune_size
rune_size-pos [] h = absurd (omega arith)
rune_size-pos (b ∷ bs) h = ground (arith, width_bounds b)

has_tail-take :
    (low high n k : ℕ) (bs : Bytes)
    → n ≤ k ⊎ length bs ≤ k
    → has_tail low high n (take k bs) ≡ has_tail low high n bs
unfolding has_tail
has_tail-take low high zero k bs h = refl
has_tail-take low high (suc n) zero [] h = refl
has_tail-take low high (suc n) zero (b ∷ bs) h = absurd (ground arith)
has_tail-take low high (suc n) (suc k) [] h = refl
has_tail-take low high (suc n) (suc k) (b ∷ bs) h =
    ap (λ r. is_between low high b && r) (has_tail-take 0x80 0xBF n k bs (ground arith))

-- Four bytes, or all there are, decide the size.
pub rune_size-take :
    (k : ℕ) (bs : Bytes) → 4 ≤ k ⊎ length bs ≤ k → rune_size (take k bs) ≡ rune_size bs
unfolding rune_size
rune_size-take zero [] h = refl
rune_size-take zero (b ∷ bs) h = absurd (ground arith)
rune_size-take (suc k) [] h = refl
rune_size-take (suc k) (b ∷ bs) h =
    let same =
      has_tail-take (second_low b) (second_high b) (width b - 1) k bs
        (ground (arith, width_bounds b)) in
    rw same refl

second_bounds : (b : ℕ) → (0x80 ≤ second_low b) × (second_high b ≤ 0xBF)
unfolding second_low second_high
second_bounds b = ground arith

width-continuation : (b : ℕ) → 0x80 ≤ b → b ≤ 0xBF → width b ≡ 1
unfolding width
width-continuation b l h = ground arith

rune_size-continuation : (b : ℕ) (bs : Bytes) → 0x80 ≤ b → b ≤ 0xBF → rune_size (b ∷ bs) ≡ 1
unfolding rune_size
rune_size-continuation b bs l h = ground (arith, width-continuation b l h)

inside_tail :
    (low high n j : ℕ) (bs : Bytes)
    → 0x80 ≤ low
    → high ≤ 0xBF
    → has_tail low high n bs ≡ true
    → j < n
    → rune_size (drop j bs) ≡ 1
unfolding has_tail
inside_tail low high zero j bs l u h lt = absurd (omega arith)
inside_tail low high (suc n) j [] l u h lt = cc
inside_tail low high (suc n) zero (b ∷ bs) l u h lt =
    rune_size-continuation b bs (ground arith) (ground arith)
inside_tail low high (suc n) (suc j) (b ∷ bs) l u h lt =
    inside_tail 0x80 0xBF n j bs (omega arith) (omega arith) (ground arith) (omega arith)

-- The bytes inside a character start none.
pub inside_rune : (bs : Bytes) (j : ℕ) → 0 < j → j < rune_size bs → rune_size (drop j bs) ≡ 1
unfolding rune_size
inside_rune [] j p h = absurd (omega arith)
inside_rune (b ∷ bs) zero p h = absurd (omega arith)
inside_rune (b ∷ bs) (suc j) p h =
    elim (Bool-cases (has_tail (second_low b) (second_high b) (width b - 1) bs)) [
      | inl t ↦
          let bounds = second_bounds b in
          inside_tail (second_low b) (second_high b) (width b - 1) j bs bounds.0 bounds.1 t
            (ground (arith, t, h))
      | inr f ↦ absurd (ground (arith, f, h))
    ]

pub Boundary-le : {file : Bytes} {n : ℕ} → Boundary file n → n ≤ length file
Boundary-le start = omega arith
Boundary-le {file} (after {n} b lt e) =
    omega (arith, e, rune_size-le (drop n file), length-drop n file)

-- What is decoded before a boundary ends before it, wherever the decoding starts.
pub before_boundary :
    {file : Bytes} {n : ℕ} (i : ℕ) → Boundary file n → i < n → i + rune_size (drop i file) ≤ n
before_boundary i start lt = absurd (omega arith)
before_boundary {file} i (after {n} b lt_file e) lt = elim (Bool-cases (ltb i n)) [
  | inl t ↦ omega (arith, before_boundary i b (ground (arith, t)), e)
  | inr f ↦ elim (Bool-cases (ltb n i)) [
    | inl t ↦
        let lower : n < i = ground (arith, t) in
        let there : n + (i - n) ≡ i = omega arith in
        let one = inside_rune (drop n file) (i - n) (omega arith) (omega (arith, e)) in
        let here : rune_size (drop i file) ≡ 1 =
          ap (λ k. rune_size (drop k file)) (sym there)
          ∙ ap rune_size (sym (drop-drop (i - n) n file))
          ∙ one in
        omega (arith, here)
    | inr g ↦
        let same : i ≡ n = ground (arith, f, g) in
        let here : rune_size (drop i file) ≡ rune_size (drop n file) =
          ap (λ k. rune_size (drop k file)) same in
        omega (arith, here, same, e)
  ]
]
