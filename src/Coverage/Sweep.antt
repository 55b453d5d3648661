-- ===== src/Coverage/Sweep.antt =====
-- The sweep over the sorted ranges of one file in internal/engine/reading_coverage.go.
use std.Path.{fun_ext}
use go_agent_claw.Prelude.{
  ℕ, ◌+◌, ◌-◌, ◌≤◌, ◌<◌, ◌≡◌, refl, subst, ◌↔◌, inl, inr, Bool, true, false, not, ◌&&◌, ◌||◌, List,
  [], ◌∷◌, ◌++◌, map, String, arith, Bool-cases, ltb, leb, lt→ltb, All, is_empty, min, max,
}
use go_agent_claw.Coverage.{
  ByteInterval, ReadReceipt, Identity, Sweeping, interval, note_gap, advance, sweep, at_start,
  sweep_file, sort_ranges, counted, last_total, range_of, file_coverage, FileReadingCoverage,
}
use go_agent_claw.Coverage.Sorting.{
  has_byte, covers, covers-append, covers-sort_ranges, Ascend, Ascend-sort_ranges, IsInside,
  All-sort_ranges,
}

-- The number of bytes of disjoint ranges.
abbrev pub size : List ByteInterval → ℕ
size [] = 0
size (r ∷ rs) = (r.end - r.start) + size rs

size-append : (xs ys : List ByteInterval) → size (xs ++ ys) ≡ size xs + size ys
size-append [] ys = omega arith
size-append (x ∷ xs) ys = omega (arith, size-append xs ys)

-- A range that is not empty.
abbrev IsGap : ByteInterval → Type 0
IsGap r = r.start < r.end

All-append_one :
    (rs : List ByteInterval) (r : ByteInterval) → All IsGap rs → IsGap r → All IsGap (rs ++ r ∷ [])
All-append_one [] r a h = (h, tt)
All-append_one (x ∷ rs) r a h = (a.0, All-append_one rs r a.1 h)

-- Up to the cursor, the gaps are what the ranges so far (`seen`) do not cover; they lie before `low`,
-- where the last range started.
record Swept (total : ℕ) (seen : ℕ → Bool) (low : ℕ) (s : Sweeping) : Type 0 where
  bounded : s.cursor ≤ total
  exact : (b : ℕ) → b < s.cursor → covers s.missing b ≡ not (seen b)
  ahead : (b : ℕ) → s.cursor ≤ b → (covers s.missing b ≡ false) × (seen b ≡ false)
  early : (b : ℕ) → low ≤ b → covers s.missing b ≡ false
  counted : s.read_bytes + size s.missing ≡ s.cursor
  solid : All IsGap s.missing

-- A range behind the cursor leaves a gap.
over-gap :
    (total : ℕ) (seen : ℕ → Bool) (low : ℕ) (s : Sweeping) (r : ByteInterval)
    → Swept total seen low s
    → IsInside total r
    → low ≤ r.start
    → s.cursor < r.start
    → Swept total
        (λ b. seen b || has_byte b r)
        r.start
        (record {
          cursor = r.end;
          read_bytes = s.read_bytes + (r.end - max s.cursor r.start);
          missing = s.missing ++ interval s.cursor r.start ∷ [];
        })
over-gap total seen low s r v inside after behind = record {
  bounded = inside.1;
  exact = λ b h. elim (Bool-cases (ltb b s.cursor)) [
    | inl t ↦ ground (
      arith,
      covers-append s.missing (interval s.cursor r.start ∷ []) b,
      v.exact b (ground (arith, t)),
      t,
    )
    | inr f ↦ ground (
      arith,
      covers-append s.missing (interval s.cursor r.start ∷ []) b,
      v.ahead b (ground (arith, f)),
      f,
    )
  ];
  ahead = λ b h. ground (
    arith,
    covers-append s.missing (interval s.cursor r.start ∷ []) b,
    v.ahead b (omega (arith, inside.0)),
    inside.0,
  );
  early = λ b h.
      ground (
        arith,
        covers-append s.missing (interval s.cursor r.start ∷ []) b,
        v.early b (omega arith),
      );
  counted =
      let split = size-append s.missing (interval s.cursor r.start ∷ []) in
      omega (arith, split, v.counted, inside.0);
  solid = All-append_one s.missing (interval s.cursor r.start) v.solid behind;
}

-- A range that reaches over the cursor.
over-more :
    (total : ℕ) (seen : ℕ → Bool) (low : ℕ) (s : Sweeping) (r : ByteInterval)
    → Swept total seen low s
    → IsInside total r
    → low ≤ r.start
    → r.start ≤ s.cursor
    → s.cursor < r.end
    → Swept total
        (λ b. seen b || has_byte b r)
        r.start
        (record {
          cursor = r.end;
          read_bytes = s.read_bytes + (r.end - max s.cursor r.start);
          missing = s.missing;
        })
over-more total seen low s r v inside after below more = record {
  bounded = inside.1;
  exact = λ b h. elim (Bool-cases (ltb b s.cursor)) [
    | inl t ↦ exact_below b (ground (arith, t))
    | inr f ↦ ground (arith, v.ahead b (ground (arith, f)), f)
  ];
  ahead = λ b h. ground (arith, v.ahead b (omega arith));
  early = λ b h. v.early b (omega arith);
  counted = omega (arith, v.counted);
  solid = v.solid;
}
  where
    exact_below : (b : ℕ) → b < s.cursor → covers s.missing b ≡ not (seen b || has_byte b r)
    exact_below b h = elim (Bool-cases (leb r.start b)) [
      | inl t ↦ ground (arith, v.exact b h, v.early b (ground (arith, t)))
      | inr f ↦ ground (arith, v.exact b h, f)
    ]

-- A range that ends before the cursor.
over-none :
    (total : ℕ) (seen : ℕ → Bool) (low : ℕ) (s : Sweeping) (r : ByteInterval)
    → Swept total seen low s
    → IsInside total r
    → low ≤ r.start
    → r.end ≤ s.cursor
    → Swept total (λ b. seen b || has_byte b r) r.start s
over-none total seen low s r v inside after below = record {
  bounded = v.bounded;
  exact = λ b h. elim (Bool-cases (leb r.start b)) [
    | inl t ↦ ground (arith, v.exact b h, v.early b (ground (arith, t)))
    | inr f ↦ ground (arith, v.exact b h, f)
  ];
  ahead = λ b h. ground (arith, v.ahead b h);
  early = λ b h. v.early b (omega arith);
  counted = v.counted;
  solid = v.solid;
}

-- One round of the sweep.
Swept-over :
    (total : ℕ) (seen : ℕ → Bool) (low : ℕ) (s : Sweeping) (r : ByteInterval)
    → Swept total seen low s
    → IsInside total r
    → low ≤ r.start
    → Swept total
        (λ b. seen b || has_byte b r)
        r.start
        (advance r.start (min total r.end) (note_gap r.start s))
unfolding note_gap advance
Swept-over total seen low s r v inside after =
    let same : min total r.end ≡ r.end = omega (arith, inside.1) in
    rw same (elim (Bool-cases (ltb s.cursor r.start)) [
      | inl gap ↦ rw gap (
          rw (lt→ltb s.cursor r.end (ground (arith, gap, inside.0)))
            (over-gap total seen low s r v inside after (ground (arith, gap))))
      | inr no_gap ↦ elim (Bool-cases (ltb s.cursor r.end)) [
        | inl more ↦
            rw (no_gap, more)
              (over-more total seen low s r v inside after (ground (arith, no_gap))
                (ground (arith, more)))
        | inr done ↦
            rw (no_gap, done) (over-none total seen low s r v inside after (ground (arith, done)))
      ]
    ])

-- The sweep over all ranges.
sweep-Swept :
    (total : ℕ) (rs : List ByteInterval) (seen : ℕ → Bool) (low : ℕ) (s : Sweeping)
    → Swept total seen low s
    → All (IsInside total) rs
    → Ascend low rs
    → (last : ℕ) × Swept total (λ b. seen b || covers rs b) last (sweep total rs s)
unfolding sweep
sweep-Swept total [] seen low s v inside sorted =
    let same : seen ≡ (λ b. seen b || false) = fun_ext (λ b. ground (arith, Bool-cases (seen b))) in
    (low, subst (λ f. Swept total f low s) same v)
sweep-Swept total (r ∷ rs) seen low s v inside sorted =
    let next = Swept-over total seen low s r v inside.0 sorted.0 in
    let (last, rest) =
      sweep-Swept total rs (λ b. seen b || has_byte b r) r.start _ next inside.1 sorted.1 in
    let same : (λ b. (seen b || has_byte b r) || covers rs b)
        ≡ (λ b. seen b || (has_byte b r || covers rs b)) =
      fun_ext (λ b. ground (arith, Bool-cases (seen b))) in
    (
      last,
      subst
          (λ f.
            Swept total f last
              (sweep total rs (advance r.start (min total r.end) (note_gap r.start s))))
          same rest,
    )

at_start-Swept : (total : ℕ) → Swept total (λ b. false) 0 at_start
at_start-Swept total = record {
  bounded = omega arith;
  exact = λ b h. absurd (omega arith);
  ahead = λ b h. (refl, refl);
  early = λ b h. refl;
  counted = omega arith;
  solid = tt;
}

-- Each byte of the file is in a gap or in a range, not in both, and the bytes add up.
record Splits (total : ℕ) (ranges : List ByteInterval) (s : Sweeping) : Type 0 where
  within : (b : ℕ) → b < total → covers s.missing b ≡ not (covers ranges b)
  outside : (b : ℕ) → total ≤ b → covers s.missing b ≡ false
  sum : s.read_bytes + size s.missing ≡ total
  gaps : All IsGap s.missing

note_gap-Splits :
    (total : ℕ) (seen : ℕ → Bool) (low : ℕ) (s : Sweeping) (ranges : List ByteInterval)
    → Swept total seen low s
    → ((b : ℕ) → seen b ≡ covers ranges b)
    → Splits total ranges (note_gap total s)
unfolding note_gap
note_gap-Splits total seen low s ranges v same = elim (Bool-cases (ltb s.cursor total)) [
  | inl more ↦ rw more (record {
    within = λ b h. elim (Bool-cases (ltb b s.cursor)) [
      | inl t ↦ ground (
        arith,
        covers-append s.missing (interval s.cursor total ∷ []) b,
        v.exact b (ground (arith, t)),
        same b,
        t,
      )
      | inr f ↦ ground (
        arith,
        covers-append s.missing (interval s.cursor total ∷ []) b,
        v.ahead b (ground (arith, f)),
        same b,
        f,
      )
    ];
    outside = λ b h. ground (
      arith,
      covers-append s.missing (interval s.cursor total ∷ []) b,
      v.ahead b (omega (arith, v.bounded)),
    );
    sum =
        let split = size-append s.missing (interval s.cursor total ∷ []) in
        omega (arith, split, v.counted, v.bounded);
    gaps = All-append_one s.missing (interval s.cursor total) v.solid (ground (arith, more));
  })
  | inr done ↦
      let whole : s.cursor ≡ total = ground (arith, done, v.bounded) in
      rw done (record {
        within = λ b h. ground (arith, v.exact b (omega (arith, whole)), same b);
        outside = λ b h. ground (arith, v.ahead b (omega (arith, whole)));
        sum = omega (arith, v.counted, whole);
        gaps = v.solid;
      })
]

sweep_file-Splits :
    (total : ℕ) (ranges : List ByteInterval)
    → All (IsInside total) ranges
    → Splits total ranges (sweep_file total ranges)
unfolding sweep_file
sweep_file-Splits total ranges inside =
    let (last, v) =
      sweep-Swept total (sort_ranges ranges) (λ b. false) 0 at_start (at_start-Swept total)
        (All-sort_ranges total ranges inside) (Ascend-sort_ranges ranges) in
    note_gap-Splits total _ last (sweep total (sort_ranges ranges) at_start) ranges v
      (λ b. covers-sort_ranges ranges b)

no-gaps : (rs : List ByteInterval) → All IsGap rs → ((b : ℕ) → covers rs b ≡ false) → rs ≡ []
no-gaps [] a h = refl
no-gaps (r ∷ rs) a h = absurd (ground (arith, h r.start, a.0))

-- The reads that count for this file, told by the bytes they cover.
abbrev pub was_read : Identity → String → String → List ReadReceipt → ℕ → Bool
was_read who path version reads b = covers (map range_of (counted who path version reads)) b

is_empty-eq : (rs : List ByteInterval) → is_empty rs ≡ true → rs ≡ []
is_empty-eq [] h = refl
is_empty-eq (r ∷ rs) h = cc

complete_iff :
    (none_found : Bool) (total : ℕ) (ranges : List ByteInterval) (s : Sweeping)
    → Splits total ranges s
    → ((not none_found && is_empty s.missing) ≡ true)
      ↔ ((none_found ≡ false) × ((b : ℕ) → b < total → covers ranges b ≡ true))
complete_iff none_found total ranges s v = (
  λ h.
      let none : s.missing ≡ [] = is_empty-eq s.missing (ground (arith, h)) in
      (ground (arith, h), λ b inside. ground (arith, v.within b inside, none)),
  λ h.
      let clear : (b : ℕ) → covers s.missing b ≡ false = λ b. elim (Bool-cases (ltb b total)) [
        | inl t ↦ ground (arith, v.within b (ground (arith, t)), h.1 b (ground (arith, t)))
        | inr f ↦ v.outside b (ground (arith, f))
      ] in
      ground (arith, no-gaps s.missing v.gaps clear, h.0),
)

-- The file's bytes are split as the reads that count for it (`found`) have covered them.
pub record IsSplit (found : List ReadReceipt) (file : FileReadingCoverage) : Type 0 where
  pub within :
      (b : ℕ) → b < file.total_bytes → covers file.missing b ≡ not (covers (map range_of found) b)
  pub outside : (b : ℕ) → file.total_bytes ≤ b → covers file.missing b ≡ false
  pub sum : file.read_bytes + size file.missing ≡ file.total_bytes
  pub whole : (file.complete ≡ true) ↔ (
      (is_empty found ≡ false)
      × ((b : ℕ) → b < file.total_bytes → covers (map range_of found) b ≡ true))

-- The coverage of one file, when the reads that count for it lie within the file: a byte of the file is
-- reported missing exactly if none of these reads covers it, no byte behind the end is, the bytes counted
-- as read and the missing ones add up to the file, and it is reported complete exactly if there is a read
-- that counts and every byte is covered.
pub file_coverage-IsSplit :
    (who : Identity) (path : String) (listed : ℕ) (version : String) (reads : List ReadReceipt)
    → All
        (IsInside (last_total listed (counted who path version reads)))
        (map range_of (counted who path version reads))
    → IsSplit (counted who path version reads) (file_coverage who path listed version reads)
unfolding file_coverage
file_coverage-IsSplit who path listed version reads inside =
    let found = counted who path version reads in
    let total = last_total listed found in
    let v = sweep_file-Splits total (map range_of found) inside in
    record {
      within = v.within;
      outside = v.outside;
      sum = v.sum;
      whole =
          complete_iff (is_empty found) total (map range_of found)
            (sweep_file total (map range_of found)) v;
    }
