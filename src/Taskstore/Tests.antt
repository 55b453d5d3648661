-- ===== src/Taskstore/Tests.antt =====
-- The log of one task at concrete bytes: an event is written as one byte, 100 plus its number.
use go_agent_claw.Prelude.{
  ok, err, subst, ◌++◌, ◌+◌, ◌-◌, ◌≤◌, ◌≡◌, refl, ◌≢◌, true, Option, none, some, List, [], ◌∷◌,
  arith, is_blank, length,
}
use go_agent_claw.Taskstore.{
  Bytes, newline, Event, Codec, eof, fault, out_of_fuel, invalid_event, read_bytes, read_events,
  Scanned, Task, World, Faults, no_faults, next_event, append_event, events,
}
use go_agent_claw.Taskstore.Numbering.{IsNumbered, read_events-IsNumbered}
use go_agent_claw.Taskstore.Scan.{IsOneLine, read_events_ends}
use go_agent_claw.Taskstore.Recovery.{
  Synced, RoundTrips, IsAtomic, append_event-IsAtomic, append_event_commits,
}
use go_agent_claw.Taskstore.Reopen.{append_after_failure, writing}
use go_agent_claw.Taskstore.History.{Request, Grown, run, run-Grown}

abbrev unmarshal_byte : Bytes → Option Event
unmarshal_byte [] = none
unmarshal_byte (b ∷ _) =
    some (record { version = 1; sequence = b - 100; kind = "model"; payload = 123 ∷ 125 ∷ [] })

abbrev byte_codec : Codec
byte_codec = record { marshal = λ e. some ((100 + e.sequence) ∷ []); unmarshal = unmarshal_byte }

abbrev first_event : Event
first_event = record { version = 1; sequence = 1; kind = "model"; payload = 123 ∷ 125 ∷ [] }

-- One event, and a line that a crash cut short.
abbrev crashed : World
crashed = record {
  task = record { open_log = true; sequence = 1; offset = 2; write_error = none };
  file = 101 ∷ newline ∷ 55 ∷ 56 ∷ [];
}

abbrev torn_write : Faults
torn_write = record no_faults { written = some 1 }

crashed-Synced : Synced byte_codec crashed (first_event ∷ [])
unfolding read_events is_blank
crashed-Synced = record { opened = refl; readable = refl; counted = refl }

gap_in_numbers : read_events byte_codec (101 ∷ newline ∷ 103 ∷ newline ∷ []) eof ≡ err invalid_event
unfolding read_events is_blank
gap_in_numbers = refl

events_of_crashed : events byte_codec crashed eof ≡ ok (first_event ∷ [])
unfolding events is_blank
events_of_crashed = refl

abbrev body : Bytes
body = 123 ∷ 125 ∷ []

trips : (t : Task) → RoundTrips byte_codec (next_event t "model" body)
unfolding read_bytes
trips t text m =
    let e : (100 + (next_event t "model" body).sequence) ∷ [] ≡ text = cc in
    subst
      (λ (x : Bytes).
        IsOneLine x × (byte_codec.unmarshal (x ++ newline ∷ []) ≡ some (next_event t "model" body)))
      e (ground arith, ground arith)

read_events-IsNumbered_example : IsNumbered 1 (first_event ∷ []) × (2 ≤ length crashed.file)
read_events-IsNumbered_example =
    read_events-IsNumbered byte_codec crashed.file crashed-Synced.readable

read_events_ends_example :
    (read_events byte_codec crashed.file fault ≢ err out_of_fuel)
    × ((t : Scanned) → read_events byte_codec crashed.file fault ≢ ok t)
read_events_ends_example = read_events_ends byte_codec crashed.file fault

append_event-IsAtomic_example :
    IsAtomic byte_codec
      (first_event ∷ [])
      (next_event crashed.task "model" body)
      (append_event byte_codec torn_write crashed "model" (some body))
append_event-IsAtomic_example =
    append_event-IsAtomic byte_codec crashed "model" body (first_event ∷ []) crashed-Synced
      (omega arith) (omega arith) (trips crashed.task) torn_write

append_event_commits_example :
    (v : World) × (append_event byte_codec no_faults crashed "model" (some body)
      ≡ (v, ok (next_event crashed.task "model" body)))
    × Synced byte_codec v (first_event ∷ next_event crashed.task "model" body ∷ [])
    × (v.task.write_error ≡ none)
unfolding is_blank
append_event_commits_example =
    append_event_commits byte_codec crashed "model" body (102 ∷ []) (first_event ∷ [])
      crashed-Synced (omega arith) (omega arith) (trips crashed.task) refl refl refl

append_after_failure_example :
    let v = (append_event byte_codec torn_write crashed "model" (some body)).0 in
    ((append_event byte_codec no_faults v "plan" (some body)).0 ≡ v)
    × ((e : Event) → (append_event byte_codec no_faults v "plan" (some body)).1 ≢ ok e)
append_after_failure_example =
    append_after_failure byte_codec torn_write no_faults crashed "model" "plan" (some body)
      (some body) writing (unfold append_event is_blank in refl)

abbrev requests : List Request
requests =
    record { faults = torn_write; kind = "model"; payload = body }
    ∷ record { faults = no_faults; kind = "model"; payload = body }
    ∷ []

run-Grown_example :
    Grown byte_codec
      (first_event ∷ [])
      (run byte_codec crashed requests).1
      2
      (run byte_codec crashed requests).0
run-Grown_example =
    run-Grown byte_codec requests crashed (first_event ∷ []) crashed-Synced
      ((omega arith, trips), ((omega arith, trips), tt)) (omega arith)
