-- ===== src/Artifacts/Publish.antt =====
-- writeAtomic, SaveArtifact, SaveSnapshot and LoadSnapshot of internal/taskstore/store.go. JSON on
-- checkpoints and the random name of the temporary file are parameters.
use go_agent_claw.Prelude.{
  ℕ, Bool, true, false, not, ◌&&◌, ◌||◌, Option, none, some, [], ◌∷◌, String, leb, ltb, ◌==◌,
  if◌then◌else◌, str_eq, length, take, Result, ok, err,
}
use go_agent_claw.Utf8.{Bytes}
use go_agent_claw.Taskstore.{Task, format_version}
use go_agent_claw.Artifacts.{Directory, find_file, is_valid_id}

unfoldable pub put_file : String → Bytes → Directory → Directory
put_file name bytes [] = (name, bytes) ∷ []
put_file name bytes ((n, old) ∷ dir) =
    let later = put_file name bytes dir in
    if str_eq n name then (name, bytes) ∷ dir else (n, old) ∷ later

unfoldable pub remove_file : String → Directory → Directory
remove_file name [] = []
remove_file name ((n, old) ∷ dir) =
    let later = remove_file name dir in if str_eq n name then later else (n, old) ∷ later

pub data SaveError : Type 0 where
  bad_name task_closed task_failed marshal_failed open_failed create_failed content_failed :
      SaveError
  publish_failed already_exists directory_sync_failed : SaveError
  no_snapshot unreadable_snapshot undecodable_snapshot invalid_snapshot : SaveError

-- What the system calls of one writeAtomic do. `written` is the number of bytes that reach the temporary
-- file before its write, its sync or its close fails.
pub record SaveFaults : Type 0 where
  pub directory_fails : Bool
  pub create_fails : Bool
  pub written : Option ℕ
  pub link_fails : Bool
  pub remove_fails : Bool
  pub sync_fails : Bool

-- The deferred removal of the temporary file, whose error is dropped.
abbrev pub clean_up : SaveFaults → String → Directory → Directory
clean_up f temp dir = if f.remove_fails then dir else remove_file temp dir

abbrev pub synced : SaveFaults → Result SaveError (Unit {0})
synced f = if f.sync_fails then err directory_sync_failed else ok tt

-- Rename or Link, and what follows.
unfoldable pub publish :
    SaveFaults
    → String
    → String
    → Bytes
    → Bool
    → Directory
    → Directory × Result SaveError (Unit {0})
unfolding find_file put_file remove_file
publish f temp name content replace dir =
    if f.link_fails
    then (clean_up f temp dir, err publish_failed)
    else if replace
    then (clean_up f temp (put_file name content (remove_file temp dir)), synced f)
    else elim (find_file name dir) [
      | some _ ↦ (clean_up f temp dir, err already_exists)
      | none ↦ (clean_up f temp (put_file name content dir), synced f)
    ]

abbrev pub is_taken : Option Bytes → Bool
is_taken none = false
is_taken (some _) = true

unfoldable pub write_atomic :
    SaveFaults
    → String
    → String
    → Bytes
    → Bool
    → Directory
    → Directory × Result SaveError (Unit {0})
unfolding publish
write_atomic f temp name content replace dir =
    if f.create_fails || is_taken (find_file temp dir)
    then (dir, err create_failed)
    else elim f.written [
      | some n ↦ (clean_up f temp (put_file temp (take n content) dir), err content_failed)
      | none ↦ publish f temp name content replace (put_file temp content dir)
    ]

-- SaveArtifact; `directory_fails` is the opening of the directory of the materials.
unfoldable pub save_artifact :
    SaveFaults
    → Bool
    → String
    → String
    → Bytes
    → Directory
    → Directory × Result SaveError (Unit {0})
unfolding write_atomic
save_artifact f open_log temp id content dir =
    if not (is_valid_id id)
    then (dir, err bad_name)
    else if not open_log
    then (dir, err task_closed)
    else if f.directory_fails
    then (dir, err open_failed)
    else write_atomic f temp id content false dir

pub record Snapshot : Type 0 where
  pub version : ℕ
  pub sequence : ℕ
  pub state : Bytes

pub record SnapshotCodec : Type 0 where
  pub marshal : Snapshot → Option Bytes
  pub unmarshal : Bytes → Option Snapshot

abbrev pub snapshot_file : String
snapshot_file = "snapshot.json"

abbrev pub snapshot_of : Task → Bytes → Snapshot
snapshot_of t state = record { version = format_version; sequence = t.sequence; state = state }

-- SaveSnapshot; `state` is what json.Marshal makes of the caller's value.
unfoldable pub save_snapshot :
    SnapshotCodec
    → SaveFaults
    → String
    → Task
    → Option Bytes
    → Directory
    → Directory × Result SaveError (Unit {0})
unfolding write_atomic
save_snapshot c f temp t none dir = (dir, err marshal_failed)
save_snapshot c f temp t (some state) dir =
    if not t.open_log then (dir, err task_closed) else elim t.write_error [
      | some _ ↦ (dir, err task_failed)
      | none ↦ elim (c.marshal (snapshot_of t state)) [
        | none ↦ (dir, err marshal_failed)
        | some bytes ↦ write_atomic f temp snapshot_file bytes true dir
      ]
    ]

unfoldable pub is_valid_snapshot : Task → Snapshot → Bool
is_valid_snapshot t s =
    s.version == format_version && leb s.sequence t.sequence && ltb 0 (length s.state)

-- LoadSnapshot; `fails` says whether the file can be opened and read.
unfoldable pub load_snapshot : SnapshotCodec → Bool → Task → Directory → Result SaveError Snapshot
unfolding is_valid_snapshot find_file
load_snapshot c fails t dir =
    if not t.open_log then err task_closed else elim (find_file snapshot_file dir) [
      | none ↦ err no_snapshot
      | some bytes ↦ if fails then err unreadable_snapshot else elim (c.unmarshal bytes) [
        | none ↦ err undecodable_snapshot
        | some s ↦ if is_valid_snapshot t s then ok s else err invalid_snapshot
      ]
    ]
