-- ===== src/Taskstore/Recovery.antt =====
-- What Task.Append of internal/taskstore/store.go leaves in the log, with and without failing system
-- calls, and what a task that is opened again finds there.
use go_agent_claw.Prelude.{
  Result, ok, err, ℕ, zero, suc, ◌+◌, ◌^◌, ◌≤◌, ◌<◌, ◌≡◌, refl, sym, subst, ap, ◌∙◌, ◌⊎◌, inl, inr,
  true, false, none, some, List, [], ◌∷◌, ◌++◌, String, arith, append-nil, Bool-cases, Option-cases,
  dec_le, ltb, length, length-append, take, drop, take-drop_parts, length-take, take_all, drop_all,
  codes, is_blank,
}
use native.Mathlib.Nat.{zero-add}
use go_agent_claw.Taskstore.{
  Bytes, newline, empty_kind, marshal_event, stat_failed, tail_unreadable, truncate_failed,
  write_failed, Event, Codec, Error, eof, read_bytes, is_valid_event, accept_line, read_events,
  Task, World, Faults, no_faults, fail_for_good, next_event, write_at, commit, clear_tail,
  append_locked, append_event,
}
use go_agent_claw.Taskstore.Scan.{
  IsOneLine, Committed, Committed-snoc, Committed-offset, read_events-Layout, read_bytes_line,
}

-- encoding/json writes an event on one line, and reads that line back as the same event.
abbrev pub RoundTrips : Codec → Event → Type 0
RoundTrips c e =
    (text : Bytes)
    → c.marshal e ≡ some text
    → IsOneLine text × (c.unmarshal (text ++ newline ∷ []) ≡ some e)

-- The task in memory agrees with its log: `es` are the events committed so far.
pub record Synced (c : Codec) (w : World) (es : List Event) : Type 0 where
  pub opened : w.task.open_log ≡ true
  pub readable : read_events c w.file eof ≡ ok (es, w.task.offset)
  pub counted : w.task.sequence ≡ length es

IsOneLine-take : (k : ℕ) (text : Bytes) → IsOneLine text → IsOneLine (take k text)
unfolding read_bytes
IsOneLine-take zero text h = refl
IsOneLine-take (suc k) [] h = refl
IsOneLine-take (suc k) (b ∷ text) h = elim (Option-cases (read_bytes text)) [
  | inl e ↦ ground (arith, e, IsOneLine-take k text e)
  | inr (p, e) ↦ ground (arith, e)
]

take_line : (k : ℕ) (text : Bytes) → k ≤ length text → take k (text ++ newline ∷ []) ≡ take k text
take_line zero text h = refl
take_line (suc k) [] h = absurd (omega arith)
take_line (suc k) (b ∷ text) h = ap (◌∷◌ b) (take_line k text (omega arith))

-- A log of `es` with the whole of the new line behind it, and one with a part of it.
module _ (c : Codec) (committed : Bytes) (es : List Event) (e : Event) (text : Bytes)
    (old : Committed c committed ([], 0) (es, length committed)) (one_line : IsOneLine text)
    (back : c.unmarshal (text ++ newline ∷ []) ≡ some e)
    (valid : is_valid_event e (length es) ≡ true) where
  accepted :
      accept_line c (text ++ newline ∷ []) (es, length committed)
      ≡ ok (es ++ e ∷ [], length committed + length (text ++ newline ∷ []))
  unfolding accept_line
  accepted = ground (arith, back, valid)

  whole_line :
      read_events c (committed ++ (text ++ newline ∷ [])) eof
      ≡ ok (es ++ e ∷ [], length committed + length (text ++ newline ∷ []))
  whole_line = (read_events-Layout c _ _).1 (record {
    committed = committed ++ (text ++ newline ∷ []);
    tail = [];
    parts = sym (append-nil _);
    complete = Committed-snoc old (read_bytes_line text [] one_line) accepted;
    torn = unfold read_bytes in refl;
  })

  part_line :
      (k : ℕ)
      → k ≤ length text
      → read_events c (committed ++ take k (text ++ newline ∷ [])) eof ≡ ok (es, length committed)
  part_line k h = (read_events-Layout c _ _).1 (record {
    committed = committed;
    tail = take k (text ++ newline ∷ []);
    parts = refl;
    complete = old;
    torn = subst IsOneLine (sym (take_line k text h)) (IsOneLine-take k text one_line);
  })

write_at_end :
    (file bytes : Bytes) (n : ℕ) → n ≡ length file → write_at file n bytes ≡ file ++ bytes
unfolding write_at
write_at_end file bytes n h = rw (
  take_all n file (omega arith),
  drop_all (n + length bytes) file (omega arith),
  append-nil bytes,
)

-- The offset that a scan returns cuts the file into its committed lines and its torn tail.
pub Committed-part :
    (c : Codec) (file : Bytes) (es : List Event) (n : ℕ)
    → read_events c file eof ≡ ok (es, n)
    → Committed c (take n file) ([], 0) (es, n)
      × (length (take n file) ≡ n)
      × (read_bytes (drop n file) ≡ none)
Committed-part c file es n h =
    let l = (read_events-Layout c file (es, n)).0 h in
    let at : n ≡ length l.committed = Committed-offset l.complete ∙ zero-add _ in
    let (cut, rest) = take-drop_parts n l.committed l.tail l.parts at in
    (rw cut l.complete, rw cut (sym at), rw rest l.torn)

-- Either the call reports an error and the log still holds `es`, or the log holds the event too.
abbrev pub IsAtomic : Codec → List Event → Event → World × Result Error Event → Type 0
IsAtomic c es e (w, r) =
    (offset : ℕ) × ((((x : Error) × (r ≡ err x)) × (read_events c w.file eof ≡ ok (es, offset)))
      ⊎ (read_events c w.file eof ≡ ok (es ++ e ∷ [], offset)))

-- The same cut after a write of `k` bytes of the line.
module _ (c : Codec) (es : List Event) (e : Event) (text : Bytes) (one_line : IsOneLine text)
    (back : c.unmarshal (text ++ newline ∷ []) ≡ some e)
    (valid : is_valid_event e (length es) ≡ true) where
  abbrev line : Bytes
  line = text ++ newline ∷ []

  commit-IsAtomic :
      (f : Faults) (w : World)
      → Committed c w.file ([], 0) (es, length w.file)
      → w.task.offset ≡ length w.file
      → IsAtomic c es e (commit f w e line)
  unfolding commit
  commit-IsAtomic f w old at = elim (Option-cases f.written) [
    | inl n ↦ (
      length w.file + length line,
      ground (arith, n, whole, write_at_end w.file line w.task.offset at),
    )
    | inr (k, n) ↦ elim (dec_le k (length text)) [
      | yes h ↦ (
        length w.file,
        inl (
          (write_failed, ground (arith, n)),
          ground (
            arith,
            n,
            part_line c w.file es e text old one_line back valid k h,
            write_at_end w.file (take k line) w.task.offset at,
          ),
        ),
      )
      | no h ↦ (
        length w.file + length line,
        ground (
          arith,
          n,
          whole,
          take_all k line (omega (arith, length-append text (newline ∷ []))),
          write_at_end w.file (take k line) w.task.offset at,
        ),
      )
    ]
  ]
    where
      whole : read_events c (w.file ++ line) eof ≡ ok (es ++ e ∷ [], length w.file + length line)
      whole = whole_line c w.file es e text old one_line back valid

  unchanged :
      (f : Faults) (w : World) (x : Error) (offset : ℕ)
      → read_events c w.file eof ≡ ok (es, offset)
      → IsAtomic c es e (w, err x)
  unchanged f w x offset h = (offset, inl ((x, refl), h))

  clear_tail-IsAtomic :
      (f : Faults) (w : World)
      → read_events c w.file eof ≡ ok (es, w.task.offset)
      → w.task.offset ≤ length w.file
      → IsAtomic c es e (clear_tail f w e line)
  unfolding clear_tail
  clear_tail-IsAtomic f w h le = elim (Bool-cases (ltb w.task.offset (length w.file))) [
    | inl t ↦
        rw (t, clear_tail)
          (rw (r.2, clear_tail)
            (elim (Bool-cases f.tail_fails) [
              | inl a ↦ rw (a, clear_tail) (unchanged f w tail_unreadable w.task.offset h)
              | inr a ↦
                  rw (a, clear_tail)
                    (elim (Bool-cases f.truncate_fails) [
                      | inl b ↦
                          rw (b, clear_tail)
                            (unchanged f (fail_for_good w truncate_failed).0 truncate_failed
                              w.task.offset h)
                      | inr b ↦
                          rw (b, clear_tail)
                            (commit-IsAtomic f (record w { file = take w.task.offset w.file }) cut
                              (sym r.1))
                    ])
            ]))
    | inr t ↦ rw (t, clear_tail) (commit-IsAtomic f w (full t) (ground arith))
  ]
    where
      r :
          Committed c (take w.task.offset w.file) ([], 0) (es, w.task.offset)
          × (length (take w.task.offset w.file) ≡ w.task.offset)
          × (read_bytes (drop w.task.offset w.file) ≡ none)
      r = Committed-part c w.file es w.task.offset h

      cut : Committed c (take w.task.offset w.file) ([], 0) (es, length (take w.task.offset w.file))
      cut = rw r.1 r.0

      full :
          ltb w.task.offset (length w.file) ≡ false → Committed c w.file ([], 0) (es, length w.file)
      full t =
          let same : w.task.offset ≡ length w.file = ground arith in
          subst (λ (xs : Bytes). Committed c xs ([], 0) (es, length w.file))
            (take_all (length w.file) w.file (omega arith))
            (subst (λ n. Committed c (take n w.file) ([], 0) (es, n)) same r.0)

next_event-valid :
    (t : Task) (kind : String) (payload : Bytes) (n : ℕ)
    → is_blank (codes kind) ≡ false
    → 0 < length payload
    → t.sequence ≡ n
    → t.sequence + 1 < 2 ^ 64
    → is_valid_event (next_event t kind payload) n ≡ true
unfolding is_valid_event
next_event-valid t kind payload n b p s h = ground arith

module _ (c : Codec) (w : World) (kind : String) (payload : Bytes) (es : List Event)
    (synced : Synced c w es) (content : 0 < length payload) (room : w.task.sequence + 1 < 2 ^ 64)
    (trips : RoundTrips c (next_event w.task kind payload)) where
  append_locked-IsAtomic :
      (f : Faults)
      → is_blank (codes kind) ≡ false
      → IsAtomic c es (next_event w.task kind payload) (append_locked c f w kind payload)
  unfolding append_locked
  append_locked-IsAtomic f shown = elim (Option-cases w.task.write_error) [
    | inr (x, k) ↦ kept x (ground (arith, k, synced.opened))
    | inl k ↦ elim (Option-cases (c.marshal event)) [
      | inl m ↦ kept marshal_event (ground (arith, k, m, synced.opened))
      | inr (text, m) ↦ elim (Bool-cases f.stat_fails) [
        | inl b ↦ kept stat_failed (ground (arith, k, m, b, synced.opened))
        | inr b ↦
            subst (IsAtomic c es event) {x = clear_tail f w event (text ++ newline ∷ [])}
              {y = append_locked c f w kind payload}
              (ground (arith, k, m, b, within, synced.opened))
              (clear_tail-IsAtomic c es event text (trips text m).0 (trips text m).1 valid f w
                synced.readable bound)
      ]
    ]
  ]
    where
      event : Event
      event = next_event w.task kind payload

      kept :
          (x : Error)
          → ◌≡◌ {A = World × Result Error Event} (w, err x) (append_locked c f w kind payload)
          → IsAtomic c es event (append_locked c f w kind payload)
      kept x h = subst (IsAtomic c es event) h (w.task.offset, inl ((x, refl), synced.readable))

      valid : is_valid_event event (length es) ≡ true
      valid = next_event-valid w.task kind payload (length es) shown content synced.counted room

      bound : w.task.offset ≤ length w.file
      bound = omega (
        arith,
        (Committed-part c w.file es w.task.offset synced.readable).1,
        length-take w.task.offset w.file,
      )

      within : ltb (length w.file) w.task.offset ≡ false
      within = ground (arith, bound)

  -- Whatever system call of Append fails, and at whatever byte the write stops, the log afterwards
  -- reads either as the events before the call, and the call reports an error, or as these with the
  -- new event at the end. It is never corrupt. (The task agrees with its log, which may end in a torn
  -- line; the payload is not empty, the sequence number does not wrap, and JSON round-trips the event.)
  pub append_event-IsAtomic :
      (f : Faults)
      → IsAtomic c es (next_event w.task kind payload) (append_event c f w kind (some payload))
  unfolding append_event
  append_event-IsAtomic f = elim (Bool-cases (is_blank (codes kind))) [
    | inl b ↦ rw (b, append_event) (kept empty_kind)
    | inr b ↦ rw (b, append_event) (append_locked-IsAtomic f b)
  ]
    where
      kept : (x : Error) → IsAtomic c es (next_event w.task kind payload) (w, err x)
      kept x = (w.task.offset, inl ((x, refl), synced.readable))

-- With the system calls working, Append is a commit: it returns the next event, and the task agrees
-- with a log that ends in it, also where a crash had left a torn line behind.
pub append_event_commits :
    (c : Codec) (w : World) (kind : String) (payload text : Bytes) (es : List Event)
    → Synced c w es
    → 0 < length payload
    → w.task.sequence + 1 < 2 ^ 64
    → RoundTrips c (next_event w.task kind payload)
    → is_blank (codes kind) ≡ false
    → w.task.write_error ≡ none
    → c.marshal (next_event w.task kind payload) ≡ some text
    → (v : World) × (append_event c no_faults w kind (some payload)
        ≡ (v, ok (next_event w.task kind payload)))
      × Synced c v (es ++ next_event w.task kind payload ∷ [])
      × (v.task.write_error ≡ none)
unfolding append_event
append_event_commits c w kind payload text es s p room trips b k m = (
  v,
  ground (arith, s, b, k, m, q.1, q.2, within, written, take_all w.task.offset w.file),
  record {
    opened = s.opened;
    readable =
        whole_line c (take w.task.offset w.file) es event text (rw q.1 q.0) (trips text m).0
          (trips text m).1 (next_event-valid w.task kind payload (length es) b p s.counted room)
        ∙ ap (λ n. ok (es ++ event ∷ [], n + length line)) q.1;
    counted = omega (arith, s.counted, length-append es (event ∷ []));
  },
  k,
)
  where
    event : Event
    event = next_event w.task kind payload

    line : Bytes
    line = text ++ newline ∷ []

    q :
        Committed c (take w.task.offset w.file) ([], 0) (es, w.task.offset)
        × (length (take w.task.offset w.file) ≡ w.task.offset)
        × (read_bytes (drop w.task.offset w.file) ≡ none)
    q = Committed-part c w.file es w.task.offset s.readable

    v : World
    v = record {
      task = record w.task { offset = w.task.offset + length line; sequence = event.sequence };
      file = take w.task.offset w.file ++ line;
    }

    within : w.task.offset ≤ length w.file
    within = omega (arith, q.1, length-take w.task.offset w.file)

    written : write_at (take w.task.offset w.file) w.task.offset line ≡ v.file
    written = write_at_end (take w.task.offset w.file) line w.task.offset (sym q.1)
