-- ===== src/Taskstore/Scan.antt =====
-- What the scan of the log finds, for readEvents of internal/taskstore/store.go: the committed lines of
-- a file, and the tail behind them that holds no newline.
use go_agent_claw.Prelude.{
  Result-cases, ok, err, ℕ, zero, suc, ◌+◌, ◌<◌, ◌≡◌, refl, sym, subst, ◌↔◌, ap, ◌∙◌, ◌≢◌, inl, inr,
  none, some, [], ◌∷◌, ◌++◌, arith, append-nil, append_assoc, Option-cases, length, length-append,
}
use go_agent_claw.Taskstore.{
  Bytes, newline, Codec, Ending, eof, fault, out_of_fuel, Scanned, read_bytes, accept_line,
  read_loop, read_events,
}

-- A text with no newline in it.
abbrev pub IsOneLine : Bytes → Type 0
IsOneLine text = read_bytes text ≡ none

-- The line that is read and the bytes behind it make up the input.
pub read_bytes-append :
    (bytes : Bytes) {line rest : Bytes}
    → read_bytes bytes ≡ some (line, rest)
    → (bytes ≡ line ++ rest) × (0 < length line)
unfolding read_bytes
read_bytes-append [] h = cc
read_bytes-append (b ∷ bs) h = elim (Option-cases (read_bytes bs)) [
  | inl e ↦ ground (arith, e)
  | inr (p, e) ↦ ground (arith, e, read_bytes-append bs {line = p.0} {rest = p.1})
]

-- A line that is read is read again before other bytes.
pub read_bytes_again :
    (bytes : Bytes) {line rest : Bytes} (other : Bytes)
    → read_bytes bytes ≡ some (line, rest)
    → read_bytes (line ++ other) ≡ some (line, other)
unfolding read_bytes
read_bytes_again [] other h = cc
read_bytes_again (b ∷ bs) other h = elim (Option-cases (read_bytes bs)) [
  | inl e ↦ ground (arith, e)
  | inr (p, e) ↦ ground (arith, e, read_bytes_again bs {line = p.0} {rest = p.1} other)
]

pub read_bytes_line :
    (text rest : Bytes)
    → IsOneLine text
    → read_bytes (text ++ newline ∷ rest) ≡ some (text ++ newline ∷ [], rest)
unfolding read_bytes
read_bytes_line [] rest h = refl
read_bytes_line (b ∷ text) rest h = elim (Option-cases (read_bytes text)) [
  | inl e ↦ ground (arith, e, read_bytes_line text rest)
  | inr (p, e) ↦ ground (arith, e)
]

-- The lines of `bytes` are complete, and take the scan from `s` to `t`.
pub data Committed (c : Codec) : Bytes → Scanned → Scanned → Type 0 where
  nothing : {s : Scanned} → Committed c [] s s
  more :
      {line rest bytes : Bytes} {s t u : Scanned}
      → bytes ≡ line ++ rest
      → read_bytes line ≡ some (line, [])
      → accept_line c line s ≡ ok t
      → Committed c rest t u
      → Committed c bytes s u

-- Each accepted line moves the offset by its length.
pub accept_line-offset :
    (c : Codec) (line : Bytes) (s : Scanned) {t : Scanned}
    → accept_line c line s ≡ ok t
    → t.1 ≡ s.1 + length line
unfolding accept_line
accept_line-offset c line s h = ground arith

pub Committed-offset :
    {c : Codec} {bytes : Bytes} {s t : Scanned} → Committed c bytes s t → t.1 ≡ s.1 + length bytes
Committed-offset {s} nothing = omega arith
Committed-offset {c} {bytes} {s} (more {line} {rest} e r a k) =
    rw e (omega (arith, length-append line rest, accept_line-offset c line s a, Committed-offset k))

pub Committed-snoc :
    {c : Codec} {bytes line : Bytes} {s t u : Scanned}
    → Committed c bytes s t
    → read_bytes line ≡ some (line, [])
    → accept_line c line t ≡ ok u
    → Committed c (bytes ++ line) s u
Committed-snoc {line} nothing r a = more {rest = []} (sym (append-nil line)) r a nothing
Committed-snoc {line} (more {line = first} {rest} e q b k) r a =
    more (ap (λ (xs : Bytes). xs ++ line) e ∙ append_assoc first rest line) q b
      (Committed-snoc k r a)

-- A file is its committed lines and a tail with no newline.
pub record Layout (c : Codec) (file : Bytes) (s t : Scanned) : Type 0 where
  pub committed : Bytes
  pub tail : Bytes
  pub parts : file ≡ committed ++ tail
  pub complete : Committed c committed s t
  pub torn : IsOneLine tail

Layout-line :
    (c : Codec) (bytes line rest : Bytes) (s : Scanned) {t u : Scanned}
    → read_bytes bytes ≡ some (line, rest)
    → accept_line c line s ≡ ok u
    → Layout c rest u t
    → Layout c bytes s t
Layout-line c bytes line rest s r a l = record {
  committed = line ++ l.committed;
  tail = l.tail;
  parts =
      (read_bytes-append bytes r).0
      ∙ ap (λ (xs : Bytes). line ++ xs) l.parts
      ∙ sym (append_assoc line l.committed l.tail);
  complete =
      more refl
        (subst (λ (xs : Bytes). read_bytes xs ≡ some (line, [])) (append-nil line)
          (read_bytes_again bytes [] r))
        a l.complete;
  torn = l.torn;
}

-- A scan that succeeds has read all complete lines and nothing else.
pub read_loop-Layout :
    (c : Codec) (fuel : ℕ) (bytes : Bytes) (s : Scanned) {t : Scanned}
    → read_loop c fuel bytes eof s ≡ ok t
    → Layout c bytes s t
unfolding read_loop
read_loop-Layout c zero bytes s h = cc
read_loop-Layout c (suc fuel) bytes s {t} h = elim (Option-cases (read_bytes bytes)) [
  | inl e ↦ record {
    committed = [];
    tail = bytes;
    parts = refl;
    complete = subst (λ (x : Scanned). Committed c [] s x) (ground (arith, e)) nothing;
    torn = e;
  }
  | inr (p, e) ↦ elim (Result-cases (accept_line c p.0 s)) [
    | inl (x, a) ↦ absurd (ground (arith, e, a))
    | inr (u, a) ↦
        Layout-line c bytes p.0 p.1 s e a (read_loop-Layout c fuel p.1 u (ground (arith, e, a)))
  ]
]

-- Conversely, complete lines that are accepted one by one are found, whatever torn line follows.
pub read_loop-Committed :
    (c : Codec) (fuel : ℕ) {bytes : Bytes} (tail : Bytes) {s t : Scanned}
    → Committed c bytes s t
    → IsOneLine tail
    → length (bytes ++ tail) < fuel
    → read_loop c fuel (bytes ++ tail) eof s ≡ ok t
unfolding read_loop
read_loop-Committed c zero tail k torn h = elim h [ ]
read_loop-Committed c (suc fuel) tail nothing torn h = ground arith
read_loop-Committed c (suc fuel) {bytes} tail {s} {t} (more {line} {rest} {t = u} e r a k) torn h =
    subst (λ (xs : Bytes). read_loop c (suc fuel) xs eof s ≡ ok t) (sym whole)
      (ground (arith, again, a, read_loop-Committed c fuel tail k torn shorter))
  where
    whole : bytes ++ tail ≡ line ++ (rest ++ tail)
    whole = ap (λ (xs : Bytes). xs ++ tail) e ∙ append_assoc line rest tail

    again : read_bytes (line ++ (rest ++ tail)) ≡ some (line, rest ++ tail)
    again = read_bytes_again line (rest ++ tail) r

    shorter : length (rest ++ tail) < fuel
    shorter =
        omega
          (arith, ap length whole, length-append line (rest ++ tail), (read_bytes-append line r).1)

-- Both together: the scan of a file succeeds exactly on the files of this layout.
pub read_events-Layout :
    (c : Codec) (file : Bytes) (t : Scanned)
    → (read_events c file eof ≡ ok t) ↔ Layout c file ([], 0) t
unfolding read_events
read_events-Layout c file t = (
  read_loop-Layout c (length file + 1) file ([], 0),
  λ l.
      subst (λ (xs : Bytes). read_loop c (length xs + 1) xs eof ([], 0) ≡ ok t) (sym l.parts)
        (read_loop-Committed c _ l.tail l.complete l.torn (omega arith)),
)

accept_line-ne-out_of_fuel :
    (c : Codec) (line : Bytes) (s : Scanned) → accept_line c line s ≢ err out_of_fuel
unfolding accept_line
accept_line-ne-out_of_fuel c line s = ground arith

-- The fuel never runs out.
read_loop-ne-out_of_fuel :
    (c : Codec) (fuel : ℕ) (bytes : Bytes) (ending : Ending) (s : Scanned)
    → length bytes < fuel
    → read_loop c fuel bytes ending s ≢ err out_of_fuel
unfolding read_loop
read_loop-ne-out_of_fuel c zero bytes ending s h = elim h [ ]
read_loop-ne-out_of_fuel c (suc fuel) bytes ending s h = elim (Option-cases (read_bytes bytes)) [
  | inl e ↦ ground (arith, e)
  | inr (p, e) ↦ elim (Result-cases (accept_line c p.0 s)) [
    | inl (x, a) ↦ ground (arith, e, a, accept_line-ne-out_of_fuel c p.0 s)
    | inr (u, a) ↦ ground (
      arith,
      e,
      a,
      read_loop-ne-out_of_fuel c fuel p.1 ending u (
          omega (
            arith,
            (read_bytes-append bytes e).1,
            ap length (read_bytes-append bytes e).0,
            length-append p.0 p.1,
          )),
    )
  ]
]

read_loop_fault :
    (c : Codec) (fuel : ℕ) (bytes : Bytes) (s t : Scanned) → read_loop c fuel bytes fault s ≢ ok t
unfolding read_loop
read_loop_fault c zero bytes s t = ground arith
read_loop_fault c (suc fuel) bytes s t = elim (Option-cases (read_bytes bytes)) [
  | inl e ↦ ground (arith, e)
  | inr (p, e) ↦ elim (Result-cases (accept_line c p.0 s)) [
    | inl (x, a) ↦ ground (arith, e, a)
    | inr (u, a) ↦ ground (arith, e, a, read_loop_fault c fuel p.1 u t)
  ]
]

-- The scan of the log ends on every file within its fuel, and a device that fails while the log is
-- read never lets it succeed.
pub read_events_ends :
    (c : Codec) (file : Bytes) (ending : Ending)
    → (read_events c file ending ≢ err out_of_fuel)
      × ((t : Scanned) → read_events c file fault ≢ ok t)
unfolding read_events
read_events_ends c file ending = (
  read_loop-ne-out_of_fuel c _ file ending ([], 0) (omega arith),
  λ t. read_loop_fault c _ file ([], 0) t,
)
