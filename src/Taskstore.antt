-- ===== src/Taskstore.antt =====
-- internal/taskstore/store.go: the event log of one task. `append_event` is Task.Append, `read_events`
-- the scan of the log, `events` Task.Events. A file is the list of its bytes; the system calls that
-- can fail are faults handed to each call; JSON is a parameter.
pub mod Scan
pub mod Numbering
pub mod Recovery
pub mod Reopen
pub mod History
mod Tests
use go_agent_claw.Prelude.{
  Result, ok, err, ℕ, zero, suc, ◌+◌, ◌%◌, ◌^◌, ◌≡◌, Bool, true, false, not, ◌&&◌, ◌||◌, Option,
  none, some, List, [], ◌∷◌, ◌++◌, String, ltb, ◌==◌, if◌then◌else◌, codes, is_blank, length, take,
  drop,
}

abbrev pub Bytes : Type 0
Bytes = List ℕ

abbrev pub newline : ℕ
newline = 10

abbrev pub format_version : ℕ
format_version = 1

abbrev pub u64 : ℕ → ℕ
u64 n = n % 2 ^ 64

pub record Event : Type 0 where
  pub version : ℕ
  pub sequence : ℕ
  pub kind : String
  pub payload : Bytes

-- encoding/json on events: Marshal and Unmarshal.
pub record Codec : Type 0 where
  pub marshal : Event → Option Bytes
  pub unmarshal : Bytes → Option Event

pub data Error : Type 0 where
  closed empty_kind marshal_payload marshal_event stat_failed truncated : Error
  tail_unreadable unknown_record truncate_failed write_failed sync_failed : Error
  read_failed undecodable invalid_event changed_outside out_of_fuel : Error

-- What bufio.Reader.ReadBytes meets after the bytes that it can read.
pub data Ending : Type 0 where
  eof fault : Ending

abbrev pub push_byte : ℕ → Option (Bytes × Bytes) → Option (Bytes × Bytes)
push_byte b none = none
push_byte b (some (line, rest)) = some (b ∷ line, rest)

-- The first line with its newline, and the bytes behind it; `none` if no newline is left.
unfoldable pub read_bytes : Bytes → Option (Bytes × Bytes)
read_bytes [] = none
read_bytes (b ∷ bs) = elim (b == newline) [
  | true ↦ some (newline ∷ [], bs)
  | false ↦ push_byte b (read_bytes bs)
]

unfoldable pub is_valid_event : Event → ℕ → Bool
is_valid_event e position =
    e.version == format_version
    && e.sequence == position + 1
    && not (is_blank (codes e.kind))
    && ltb 0 (length e.payload)

abbrev pub Scanned : Type 0
Scanned = List Event × ℕ

-- The body of the loop of readEvents on one complete line.
unfoldable pub accept_line : Codec → Bytes → Scanned → Result Error Scanned
unfolding is_valid_event
accept_line c line (events, offset) = elim (c.unmarshal line) [
  | none ↦ err undecodable
  | some event ↦
      if is_valid_event event (length events)
      then ok (events ++ event ∷ [], offset + length line)
      else err invalid_event
]

abbrev pub at_end : Ending → Scanned → Result Error Scanned
at_end eof s = ok s
at_end fault s = err read_failed

-- Every round reads at least one byte, so more fuel than bytes suffices.
unfoldable pub read_loop : Codec → ℕ → Bytes → Ending → Scanned → Result Error Scanned
unfolding read_bytes accept_line
read_loop c zero bytes ending s = err out_of_fuel
read_loop c (suc fuel) bytes ending s = elim (read_bytes bytes) [
  | none ↦ at_end ending s
  | some (line, rest) ↦ elim (accept_line c line s) [
    | err e ↦ err e
    | ok s' ↦ read_loop c fuel rest ending s'
  ]
]

unfoldable pub read_events : Codec → Bytes → Ending → Result Error Scanned
unfolding read_loop
read_events c file ending = read_loop c (length file + 1) file ending ([], 0)

pub record Task : Type 0 where
  pub open_log : Bool
  pub sequence : ℕ
  pub offset : ℕ
  pub write_error : Option Error

-- The task in memory and its log on disk.
pub record World : Type 0 where
  pub task : Task
  pub file : Bytes

-- What the system calls of one Append do. `written` is the number of bytes that reach the file
-- before WriteAt fails, `none` if it succeeds.
pub record Faults : Type 0 where
  pub stat_fails : Bool
  pub tail_fails : Bool
  pub truncate_fails : Bool
  pub written : Option ℕ
  pub sync_fails : Bool

abbrev pub no_faults : Faults
no_faults = record {
  stat_fails = false;
  tail_fails = false;
  truncate_fails = false;
  written = none;
  sync_fails = false;
}

-- os.File.WriteAt at an offset that is not behind the end of the file.
unfoldable pub write_at : Bytes → ℕ → Bytes → Bytes
write_at file offset bytes = take offset file ++ (bytes ++ drop (offset + length bytes) file)

abbrev pub fail_for_good : World → Error → World × Result Error Event
fail_for_good w e = (record w { task = record w.task { write_error = some e } }, err e)

-- From WriteAt to the end of Append.
unfoldable pub commit : Faults → World → Event → Bytes → World × Result Error Event
unfolding write_at
commit f w event line = elim f.written [
  | some k ↦
      fail_for_good (record w { file = write_at w.file w.task.offset (take k line) }) write_failed
  | none ↦
      let done = record w { file = write_at w.file w.task.offset line } in
      if f.sync_fails then fail_for_good done sync_failed else (
        record done {
          task = record done.task {
            offset = done.task.offset + length line;
            sequence = event.sequence;
          };
        },
        ok event,
      )
]

-- A tail that a crash left behind is cut off first; a complete line there is not ours.
unfoldable pub clear_tail : Faults → World → Event → Bytes → World × Result Error Event
unfolding commit read_bytes
clear_tail f w event line =
    if ltb w.task.offset (length w.file)
    then elim (read_bytes (drop w.task.offset w.file)) [
      | some _ ↦ (w, err (if f.tail_fails then tail_unreadable else unknown_record))
      | none ↦
          if f.tail_fails
          then (w, err tail_unreadable)
          else if f.truncate_fails
          then fail_for_good w truncate_failed
          else commit f (record w { file = take w.task.offset w.file }) event line
    ]
    else commit f w event line

abbrev pub next_event : Task → String → Bytes → Event
next_event t kind payload = record {
  version = format_version;
  sequence = u64 (t.sequence + 1);
  kind = kind;
  payload = payload;
}

-- The checks under the store's lock.
unfoldable pub append_locked : Codec → Faults → World → String → Bytes → World × Result Error Event
unfolding clear_tail
append_locked c f w kind payload =
    if not w.task.open_log then (w, err closed) else elim w.task.write_error [
      | some e ↦ (w, err e)
      | none ↦ elim (c.marshal (next_event w.task kind payload)) [
        | none ↦ (w, err marshal_event)
        | some text ↦
            if f.stat_fails
            then (w, err stat_failed)
            else if ltb (length w.file) w.task.offset
            then (w, err truncated)
            else clear_tail f w (next_event w.task kind payload) (text ++ newline ∷ [])
      ]
    ]

-- `payload` is what json.Marshal makes of the caller's value.
unfoldable pub append_event :
    Codec → Faults → World → String → Option Bytes → World × Result Error Event
unfolding append_locked
append_event c f w kind payload =
    if is_blank (codes kind) then (w, err empty_kind) else elim payload [
      | none ↦ (w, err marshal_payload)
      | some bytes ↦ append_locked c f w kind bytes
    ]

-- Task.Events
unfoldable pub events : Codec → World → Ending → Result Error (List Event)
unfolding read_events
events c w ending = if not w.task.open_log then err closed else elim (read_events c w.file ending) [
  | err e ↦ err e
  | ok (found, offset) ↦
      if offset == w.task.offset && length found == w.task.sequence
      then ok found
      else err changed_outside
]

-- The initialisation of a task in openTask: an empty log, or the log that is found.
unfoldable pub create_task : World
create_task = record {
  task = record { open_log = true; sequence = 0; offset = 0; write_error = none };
  file = [];
}

unfoldable pub open_task : Codec → Bytes → Ending → Result Error World
unfolding read_events
open_task c file ending = elim (read_events c file ending) [
  | err e ↦ err e
  | ok (found, offset) ↦ ok (record {
    task = record { open_log = true; sequence = length found; offset = offset; write_error = none };
    file = file;
  })
]
