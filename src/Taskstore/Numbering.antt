-- ===== src/Taskstore/Numbering.antt =====
-- The numbering of the events that readEvents of internal/taskstore/store.go returns.
use go_agent_claw.Prelude.{
  ok, ℕ, ◌+◌, ◌-◌, ◌≤◌, ◌<◌, ◌≡◌, sym, subst, ap, inl, inr, true, false, some, List, [], ◌∷◌, ◌++◌,
  arith, Bool-cases, Option-cases, length, length-append, codes, is_blank,
}
use go_agent_claw.Taskstore.{
  Bytes, Event, Codec, eof, format_version, Scanned, is_valid_event, accept_line, read_events,
}
use go_agent_claw.Taskstore.Scan.{Committed, nothing, more, Committed-offset, read_events-Layout}

-- The events of a log are numbered from `start` on, and each is of this format and has content.
abbrev pub IsNumbered : ℕ → List Event → Type 0
IsNumbered start [] = Unit {0}
IsNumbered start (e ∷ es) =
    (e.version ≡ format_version)
    × (e.sequence ≡ start)
    × (is_blank (codes e.kind) ≡ false)
    × (0 < length e.payload)
    × IsNumbered (start + 1) es

pub IsNumbered-snoc :
    (start : ℕ) (es : List Event) (e : Event)
    → IsNumbered start es
    → is_valid_event e (start + length es - 1) ≡ true
    → 0 < start
    → IsNumbered start (es ++ e ∷ [])
unfolding is_valid_event
IsNumbered-snoc start [] e n v p = ground arith
IsNumbered-snoc start (x ∷ es) e n v p = (
  n.0,
  n.1,
  n.2,
  n.3,
  IsNumbered-snoc (start + 1) es e n.4
      (subst (λ k. is_valid_event e k ≡ true)
        (let same : start + length (x ∷ es) - 1 ≡ start + 1 + length es - 1 = omega arith in same)
        v)
      (omega arith),
)

-- What one accepted line contributes.
pub accept_line-valid :
    (c : Codec) (line : Bytes) (s : Scanned) {t : Scanned}
    → accept_line c line s ≡ ok t
    → (e : Event) × (c.unmarshal line ≡ some e)
      × (is_valid_event e (length s.0) ≡ true)
      × (t ≡ (s.0 ++ e ∷ [], s.1 + length line))
unfolding accept_line
accept_line-valid c line s h = elim (Option-cases (c.unmarshal line)) [
  | inl u ↦ absurd (ground (arith, u))
  | inr (e, u) ↦ elim (Bool-cases (is_valid_event e (length s.0))) [
    | inl v ↦ (e, u, v, ground (arith, u, v))
    | inr v ↦ absurd (ground (arith, u, v))
  ]
]

Committed-IsNumbered :
    {c : Codec} {bytes : Bytes} {s t : Scanned}
    → Committed c bytes s t
    → IsNumbered 1 s.0
    → IsNumbered 1 t.0
Committed-IsNumbered nothing n = n
Committed-IsNumbered {c} {s} (more {line} e r a k) n =
    let (x, u, v, w) = accept_line-valid c line s a in
    Committed-IsNumbered k (
      subst (λ (t : Scanned). IsNumbered 1 t.0) (sym w)
        (IsNumbered-snoc 1 s.0 x n (subst (λ i. is_valid_event x i ≡ true) (shift (length s.0)) v)
          (omega arith)))
  where
    shift : (i : ℕ) → i ≡ 1 + i - 1
    shift i = omega arith

-- Whatever bytes the log holds, the events that its scan returns are numbered 1, 2, 3, … without a gap,
-- carry this format's version, a kind that is not blank and a payload that is not empty; and the offset
-- that it returns is within the file.
pub read_events-IsNumbered :
    (c : Codec) (file : Bytes) {t : Scanned}
    → read_events c file eof ≡ ok t
    → IsNumbered 1 t.0 × (t.1 ≤ length file)
read_events-IsNumbered c file {t} h =
    let l = (read_events-Layout c file t).0 h in
    (
      Committed-IsNumbered l.complete tt,
      omega
          (arith, Committed-offset l.complete, ap length l.parts, length-append l.committed l.tail),
    )
