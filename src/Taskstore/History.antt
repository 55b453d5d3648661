-- ===== src/Taskstore/History.antt =====
-- A task over many calls of Append of internal/taskstore/store.go, in a process that opens the task
-- again after each call that failed.
use go_agent_claw.Prelude.{
  Result-cases, ok, err, ℕ, ◌+◌, ◌^◌, ◌≤◌, ◌<◌, ◌≡◌, subst, ◌∙◌, inl, inr, some, List, [], ◌∷◌,
  ◌++◌, String, arith, append-nil, append_assoc, Option-cases, length, length-append, All,
}
use go_agent_claw.Taskstore.{
  Bytes, Event, Codec, eof, read_events, Task, World, Faults, next_event, append_event, open_task,
}
use go_agent_claw.Taskstore.Recovery.{
  Synced, RoundTrips, append_event-IsAtomic, append_event_commits,
}
use go_agent_claw.Taskstore.Reopen.{ok_without_faults}

pub record Request : Type 0 where
  pub faults : Faults
  pub kind : String
  pub payload : Bytes

-- The process ends, and the next one opens the task.
restart : Codec → World → World
restart c w = elim (open_task c w.file eof) [ ok u ↦ u | err e ↦ w ]

-- The state after a call, and the event if the call reported it as saved.
pub attempt : Codec → World → Request → World × List Event
unfolding restart
attempt c w q = elim (append_event c q.faults w q.kind (some q.payload)).1 [
  | ok e ↦ ((append_event c q.faults w q.kind (some q.payload)).0, e ∷ [])
  | err x ↦ (restart c (append_event c q.faults w q.kind (some q.payload)).0, [])
]

pub run : Codec → World → List Request → World × List Event
run c w [] = (w, [])
run c w (q ∷ qs) =
    let (v, saved) = attempt c w q in let (u, later) = run c v qs in (u, saved ++ later)

-- The saved events stand in the log in order, perhaps among others.
pub data AreKept : List Event → List Event → Type 0 where
  nil : AreKept [] []
  keep :
      (e : Event) {saved logged : List Event}
      → AreKept saved logged
      → AreKept (e ∷ saved) (e ∷ logged)
  extra :
      (e : Event) {saved logged : List Event} → AreKept saved logged → AreKept saved (e ∷ logged)

AreKept-append : {a b c d : List Event} → AreKept a b → AreKept c d → AreKept (a ++ c) (b ++ d)
AreKept-append nil k = k
AreKept-append (keep e j) k = keep e (AreKept-append j k)
AreKept-append (extra e j) k = extra e (AreKept-append j k)

-- What a request hands to JSON comes back.
abbrev pub IsSound : Codec → Request → Type 0
IsSound c q = (0 < length q.payload) × ((t : Task) → RoundTrips c (next_event t q.kind q.payload))

-- A world whose log grew by `added`, at most `n` events, with all of `saved` among them.
pub record Grown (c : Codec) (es saved : List Event) (n : ℕ) (w : World) : Type 0 where
  pub added : List Event
  pub synced : Synced c w (es ++ added)
  pub kept : AreKept saved added
  pub bounded : length added ≤ n

restart-Synced :
    (c : Codec) (w : World) {es : List Event} {offset : ℕ}
    → read_events c w.file eof ≡ ok (es, offset)
    → Synced c (restart c w) es
unfolding restart open_task
restart-Synced c w h = record {
  opened = ground (arith, h);
  readable = ground (arith, h);
  counted = ground (arith, h);
}

attempt-Grown :
    (c : Codec) (w : World) (q : Request) (es : List Event)
    → Synced c w es
    → IsSound c q
    → length es + 1 < 2 ^ 64
    → Grown c es (attempt c w q).1 1 (attempt c w q).0
unfolding attempt
attempt-Grown c w q es s i room =
    elim (Result-cases (append_event c q.faults w q.kind (some q.payload)).1) [
      | inl (x, r) ↦
          rw (r, attempt)
            (let (_, parts) =
                append_event-IsAtomic c w q.kind q.payload es s i.0 (omega (arith, s.counted))
                  (i.1 w.task) q.faults in
              elim parts [
                | inl (_, h) ↦ record {
                  added = [];
                  synced = rw append-nil (restart-Synced c _ h);
                  kept = nil;
                  bounded = omega arith;
                }
                | inr h ↦ record {
                  added = next_event w.task q.kind q.payload ∷ [];
                  synced = restart-Synced c _ h;
                  kept = extra _ nil;
                  bounded = omega arith;
                }
              ])
      | inr (e, r) ↦ rw (r, attempt) (worked e r)
    ]
  where
    worked :
        (e : Event)
        → (append_event c q.faults w q.kind (some q.payload)).1 ≡ ok e
        → Grown c es (e ∷ []) 1 (append_event c q.faults w q.kind (some q.payload)).0
    worked e r =
        let (same, shown, fresh, coded) = ok_without_faults c q.faults w q.kind q.payload r in
        elim (Option-cases (c.marshal (next_event w.task q.kind q.payload))) [
          | inl m ↦ absurd (coded m)
          | inr (text, m) ↦
              let (v, done, synced, _) =
                append_event_commits c w q.kind q.payload text es s i.0 (omega (arith, s.counted))
                  (i.1 w.task) shown fresh m in
              let whole : append_event c q.faults w q.kind (some q.payload)
                  ≡ (v, ok (next_event w.task q.kind q.payload)) =
                same ∙ done in
              let mine : next_event w.task q.kind q.payload ≡ e = cc in
              record {
                added = e ∷ [];
                synced =
                    subst
                      (λ (x : Event).
                        Synced c (append_event c q.faults w q.kind (some q.payload)).0
                          (es ++ x ∷ []))
                      mine (rw whole synced);
                kept = keep e nil;
                bounded = omega arith;
              }
        ]

-- Over any sequence of calls, with any system calls failing in each and the task opened again after
-- each failure, the task agrees with its log at the end; the log holds the events from before, then
-- every event that a call reported as saved, in order, with at most one event per call. (JSON
-- round-trips what is handed to it, payloads are not empty, and the numbers do not wrap.)
pub run-Grown :
    (c : Codec) (qs : List Request) (w : World) (es : List Event)
    → Synced c w es
    → All (IsSound c) qs
    → length es + length qs < 2 ^ 64
    → Grown c es (run c w qs).1 (length qs) (run c w qs).0
unfolding run
run-Grown c [] w es s i room = record {
  added = [];
  synced = rw append-nil s;
  kept = nil;
  bounded = omega arith;
}
run-Grown c (q ∷ qs) w es s i room =
    let first = attempt-Grown c w q es s i.0 (omega arith) in
    let rest =
      run-Grown c qs (attempt c w q).0 (es ++ first.added) first.synced i.1
        (omega (arith, length-append es first.added, first.bounded)) in
    record {
      added = first.added ++ rest.added;
      synced = subst (Synced c _) (append_assoc es first.added rest.added) rest.synced;
      kept = AreKept-append first.kept rest.kept;
      bounded = omega (arith, length-append first.added rest.added, first.bounded, rest.bounded);
    }
