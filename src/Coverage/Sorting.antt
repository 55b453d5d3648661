-- ===== src/Coverage/Sorting.antt =====
-- The bytes that a list of ranges covers, and sort.Slice in internal/engine/reading_coverage.go.
use go_agent_claw.Prelude.{
  ℕ, ◌≤◌, ◌≡◌, refl, inl, inr, Bool, false, ◌&&◌, ◌||◌, List, [], ◌∷◌, ◌++◌, arith, Bool-cases, ltb,
  leb, All,
}
use go_agent_claw.Coverage.{ByteInterval, insert_range, sort_ranges}

abbrev pub has_byte : ℕ → ByteInterval → Bool
has_byte b r = leb r.start b && ltb b r.end

-- Some range has the byte.
abbrev pub covers : List ByteInterval → ℕ → Bool
covers [] b = false
covers (r ∷ rs) b = has_byte b r || covers rs b

abbrev pub Ascend : ℕ → List ByteInterval → Type 0
Ascend low [] = Unit {0}
Ascend low (r ∷ rs) = (low ≤ r.start) × Ascend r.start rs

-- Offsets of a file of this size.
abbrev pub IsInside : ℕ → ByteInterval → Type 0
IsInside total r = (r.start ≤ r.end) × (r.end ≤ total)

pub covers-append :
    (xs ys : List ByteInterval) (b : ℕ) → covers (xs ++ ys) b ≡ (covers xs b || covers ys b)
covers-append [] ys b = refl
covers-append (x ∷ xs) ys b = ground (arith, covers-append xs ys b)

covers-insert_range :
    (r : ByteInterval) (rs : List ByteInterval) (b : ℕ)
    → covers (insert_range r rs) b ≡ (has_byte b r || covers rs b)
unfolding insert_range
covers-insert_range r [] b = refl
covers-insert_range r (x ∷ rs) b = elim (Bool-cases (ltb x.start r.start)) [
  | inl e ↦ rw (e, covers-insert_range r rs b) (ground arith)
  | inr e ↦ rw e refl
]

pub covers-sort_ranges : (rs : List ByteInterval) (b : ℕ) → covers (sort_ranges rs) b ≡ covers rs b
unfolding sort_ranges
covers-sort_ranges [] b = refl
covers-sort_ranges (r ∷ rs) b =
    rw (covers-insert_range r (sort_ranges rs) b, covers-sort_ranges rs b) refl

pub Ascend-lower :
    (rs : List ByteInterval) {low low' : ℕ} → low' ≤ low → Ascend low rs → Ascend low' rs
Ascend-lower [] h a = tt
Ascend-lower (r ∷ rs) h a = (omega (arith, a.0), a.1)

Ascend-insert_range :
    (r : ByteInterval) (rs : List ByteInterval) {low : ℕ}
    → low ≤ r.start
    → Ascend low rs
    → Ascend low (insert_range r rs)
unfolding insert_range
Ascend-insert_range r [] h a = (h, tt)
Ascend-insert_range r (x ∷ rs) h a = elim (Bool-cases (ltb x.start r.start)) [
  | inl e ↦ rw e (a.0, Ascend-insert_range r rs (ground (arith, e)) a.1)
  | inr e ↦ rw e (h, (ground (arith, e), a.1))
]

pub Ascend-sort_ranges : (rs : List ByteInterval) → Ascend 0 (sort_ranges rs)
unfolding sort_ranges
Ascend-sort_ranges [] = tt
Ascend-sort_ranges (r ∷ rs) =
    Ascend-insert_range r (sort_ranges rs) (omega arith) (Ascend-sort_ranges rs)

All-insert_range :
    (total : ℕ) (r : ByteInterval) (rs : List ByteInterval)
    → IsInside total r
    → All (IsInside total) rs
    → All (IsInside total) (insert_range r rs)
unfolding insert_range
All-insert_range total r [] h a = (h, tt)
All-insert_range total r (x ∷ rs) h a = elim (Bool-cases (ltb x.start r.start)) [
  | inl e ↦ rw e (a.0, All-insert_range total r rs h a.1)
  | inr e ↦ rw e (h, a)
]

pub All-sort_ranges :
    (total : ℕ) (rs : List ByteInterval)
    → All (IsInside total) rs
    → All (IsInside total) (sort_ranges rs)
unfolding sort_ranges
All-sort_ranges total [] a = tt
All-sort_ranges total (r ∷ rs) a =
    All-insert_range total r (sort_ranges rs) a.0 (All-sort_ranges total rs a.1)
