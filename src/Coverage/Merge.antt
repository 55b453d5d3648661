-- ===== src/Coverage/Merge.antt =====
-- The merged ranges of mergeReadCoverage in internal/engine/read_catalog.go.
use go_agent_claw.Prelude.{
  ℕ, ◌≤◌, ◌<◌, ◌≡◌, refl, inl, inr, ◌∙◌, ◌&&◌, ◌||◌, List, [], ◌∷◌, arith, Bool-cases, leb, ltb,
  max,
}
use go_agent_claw.Coverage.{ByteInterval, merge_into, merge_ranges, merged_coverage, sort_ranges}
use go_agent_claw.Coverage.Sorting.{
  has_byte, covers, covers-sort_ranges, Ascend, Ascend-lower, Ascend-sort_ranges,
}

-- The first range starts behind the offset.
abbrev pub Follows : ℕ → List ByteInterval → Type 0
Follows e [] = Unit {0}
Follows e (r ∷ rs) = e < r.start

-- Between two ranges there is a gap.
abbrev pub AreApart : List ByteInterval → Type 0
AreApart [] = Unit {0}
AreApart (r ∷ rs) = Follows r.end rs × AreApart rs

covers-merge_into :
    (last : ByteInterval) (rs : List ByteInterval) (b : ℕ)
    → Ascend last.start rs
    → covers (merge_into last rs) b ≡ (has_byte b last || covers rs b)
unfolding merge_into
covers-merge_into last [] b a = refl
covers-merge_into last (next ∷ rs) b a = elim (Bool-cases (leb next.start last.end)) [
  | inl e ↦
      let ih =
        covers-merge_into (record last { end = max last.end next.end }) rs b
          (Ascend-lower rs a.0 a.1) in
      rw e (ih ∙ joined (ground (arith, e)))
  | inr e ↦ rw (e, covers-merge_into next rs b a.1) refl
]
  where
    joined :
        next.start ≤ last.end
        → ((leb last.start b && ltb b (max last.end next.end)) || covers rs b)
          ≡ (has_byte b last || (has_byte b next || covers rs b))
    joined touch = ground (arith, a.0, touch)

merge_into-Follows :
    (last : ByteInterval) (rs : List ByteInterval) (e : ℕ)
    → e < last.start
    → Follows e (merge_into last rs)
unfolding merge_into
merge_into-Follows last [] e h = h
merge_into-Follows last (next ∷ rs) e h = elim (Bool-cases (leb next.start last.end)) [
  | inl t ↦ rw t (merge_into-Follows (record last { end = max last.end next.end }) rs e h)
  | inr t ↦ rw t h
]

merge_into-AreApart : (last : ByteInterval) (rs : List ByteInterval) → AreApart (merge_into last rs)
unfolding merge_into
merge_into-AreApart last [] = (tt, tt)
merge_into-AreApart last (next ∷ rs) = elim (Bool-cases (leb next.start last.end)) [
  | inl t ↦ rw t (merge_into-AreApart (record last { end = max last.end next.end }) rs)
  | inr t ↦
      rw t (merge_into-Follows next rs last.end (ground (arith, t)), merge_into-AreApart next rs)
]

covers-merge_ranges :
    (rs : List ByteInterval) (b : ℕ) → Ascend 0 rs → covers (merge_ranges rs) b ≡ covers rs b
unfolding merge_ranges
covers-merge_ranges [] b a = refl
covers-merge_ranges (r ∷ rs) b a = covers-merge_into r rs b a.1

merge_ranges-AreApart : (rs : List ByteInterval) → AreApart (merge_ranges rs)
unfolding merge_ranges
merge_ranges-AreApart [] = tt
merge_ranges-AreApart (r ∷ rs) = merge_into-AreApart r rs

-- The merged ranges of a file cover exactly the bytes that its reads covered, in whatever order these came
-- and however they overlap; and between each merged range and the next lies at least one byte.
pub merged_coverage_lem :
    (ranges : List ByteInterval)
    → ((b : ℕ) → covers (merged_coverage ranges) b ≡ covers ranges b)
      × AreApart (merged_coverage ranges)
unfolding merged_coverage
merged_coverage_lem ranges = (
  λ b.
      covers-merge_ranges (sort_ranges ranges) b (Ascend-sort_ranges ranges)
      ∙ covers-sort_ranges ranges b,
  merge_ranges-AreApart (sort_ranges ranges),
)
