-- ===== src/Artifacts/Saved.antt =====
-- Materials and checkpoints of internal/taskstore/store.go over several calls.
use go_agent_claw.Prelude.{
  ℕ, ◌≤◌, ◌<◌, ◌≡◌, ◌≢◌, refl, sym, ap, ◌∙◌, ◌⊎◌, inl, inr, Bool, true, false, some, List, [], ◌∷◌,
  String, arith, Bool-cases, Option-cases, str_eq, eq_iff, length, ok, All,
}
use go_agent_claw.Utf8.{Bytes}
use go_agent_claw.Taskstore.{Task}
use go_agent_claw.Artifacts.{Directory, find_file, is_valid_id}
use go_agent_claw.Artifacts.Publish.{
  SaveFaults, write_atomic, save_artifact, Snapshot, SnapshotCodec, snapshot_file, snapshot_of,
  save_snapshot, load_snapshot,
}
use go_agent_claw.Artifacts.Atomic.{write_atomic-IsAtomicWrite}
use go_agent_claw.Artifacts.Whole.{Reads, pages-Reads}

-- One call of SaveArtifact, with the name of its temporary file.
pub record Save : Type 0 where
  pub faults : SaveFaults
  pub open_log : Bool
  pub temp : String
  pub id : String
  pub content : Bytes

pub save_all : List Save → Directory → Directory
save_all [] dir = dir
save_all (s ∷ saves) dir =
    save_all saves (save_artifact s.faults s.open_log s.temp s.id s.content dir).0

-- The name of a temporary file starts with a dot, so it is no id.
abbrev pub IsTempName : String → Type 0
IsTempName temp = is_valid_id temp ≡ false

abbrev HasTempName : Save → Type 0
HasTempName s = IsTempName s.temp

save_artifact-kept :
    (s : Save) (id : String) (dir : Directory) (old : Bytes)
    → HasTempName s
    → is_valid_id id ≡ true
    → find_file id dir ≡ some old
    → find_file id (save_artifact s.faults s.open_log s.temp s.id s.content dir).0 ≡ some old
unfolding save_artifact
save_artifact-kept s id dir old t v h = elim (Bool-cases (is_valid_id s.id)) [
  | inr bad ↦ ground (arith, bad, h)
  | inl named ↦
      let other : s.temp ≢ s.id =
        λ q. let e : is_valid_id s.temp ≡ true = cc in ground (arith, e, t) in
      let apart : s.temp ≢ id =
        λ q. let e : is_valid_id s.temp ≡ true = cc in ground (arith, e, t) in
      let w = write_atomic-IsAtomicWrite s.faults s.temp s.id s.content false dir other in
      let written : find_file id (write_atomic s.faults s.temp s.id s.content false dir).0
          ≡ some old =
        elim (Bool-cases (str_eq s.id id)) [
          | inl e ↦
              let same : s.id ≡ id = ground (arith, e, eq_iff s.id id) in
              let was : find_file s.id dir ≡ some old = ap (λ k. find_file k dir) same ∙ h in
              ap (λ k. find_file k (write_atomic s.faults s.temp s.id s.content false dir).0)
                (sym same)
              ∙ (w.kept refl old was).0
          | inr e ↦ w.others id apart (λ q. ground (arith, e, eq_iff s.id id, q)) ∙ h
        ] in
      ground (arith, named, h, written)
]

save_all-kept :
    (saves : List Save) (id : String) (dir : Directory) (old : Bytes)
    → All HasTempName saves
    → is_valid_id id ≡ true
    → find_file id dir ≡ some old
    → find_file id (save_all saves dir) ≡ some old
unfolding save_all
save_all-kept [] id dir old t v h = h
save_all-kept (s ∷ saves) id dir old t v h =
    save_all-kept saves id (save_artifact s.faults s.open_log s.temp s.id s.content dir).0 old t.1 v
      (save_artifact-kept s id dir old t.0 v h)

-- A material that was saved without an error can be read page by page in full, also after any later saves,
-- under its own id or others, whatever fails in them: it is never changed.
pub save_artifact-Reads :
    (s : Save) (later : List Save) (dir : Directory) (limit : ℕ)
    → HasTempName s
    → All HasTempName later
    → 4 ≤ limit
    → (save_artifact s.faults s.open_log s.temp s.id s.content dir).1 ≡ ok tt
    → Reads
        (save_all later (save_artifact s.faults s.open_log s.temp s.id s.content dir).0)
        s.id
        limit
        0
        s.content
unfolding save_artifact
save_artifact-Reads s later dir limit t ts room saved = elim (Bool-cases (is_valid_id s.id)) [
  | inr bad ↦ absurd (ground (arith, bad, saved))
  | inl named ↦
      let other : s.temp ≢ s.id =
        λ q. let e : is_valid_id s.temp ≡ true = cc in ground (arith, e, t) in
      let w = write_atomic-IsAtomicWrite s.faults s.temp s.id s.content false dir other in
      let there : find_file s.id (save_artifact s.faults s.open_log s.temp s.id s.content dir).0
          ≡ some s.content =
        ground (arith, named, saved, w.whole) in
      pages-Reads (save_all later (save_artifact s.faults s.open_log s.temp s.id s.content dir).0)
        s.id limit s.content named (save_all-kept later s.id _ s.content ts named there) room
]

-- JSON reads a checkpoint back as it was written.
abbrev pub RoundTripsSnapshot : SnapshotCodec → Snapshot → Type 0
RoundTripsSnapshot c s = (bytes : Bytes) → c.marshal s ≡ some bytes → c.unmarshal bytes ≡ some s

-- Whatever fails while a checkpoint is saved, and at whatever byte its write stops, the task (opened again at
-- the same event or a later one) loads what it would have loaded before, or the new checkpoint; and the
-- new one if the call reported no error. (The state is not empty, and JSON reads the checkpoint back.)
pub save_snapshot-reloads :
    (c : SnapshotCodec) (f : SaveFaults) (temp : String) (t u : Task) (state : Bytes)
    (dir : Directory)
    → temp ≢ snapshot_file
    → RoundTripsSnapshot c (snapshot_of t state)
    → 0 < length state
    → u.open_log ≡ true
    → t.sequence ≤ u.sequence
    → (((save_snapshot c f temp t (some state) dir).1 ≢ ok tt)
        × (load_snapshot c false u (save_snapshot c f temp t (some state) dir).0
            ≡ load_snapshot c false u dir))
      ⊎ (load_snapshot c false u (save_snapshot c f temp t (some state) dir).0
          ≡ ok (snapshot_of t state))
unfolding save_snapshot load_snapshot
save_snapshot-reloads c f temp t u state dir other trips some_state is_open later =
    elim (Bool-cases t.open_log) [
      | inr closed ↦ inl (ground (arith, closed), ground (arith, closed))
      | inl writable ↦ elim (Option-cases t.write_error) [
        | inr (x, e) ↦ inl (ground (arith, writable, e), ground (arith, writable, e))
        | inl e ↦ elim (Option-cases (c.marshal (snapshot_of t state))) [
          | inl g ↦ inl (ground (arith, writable, e, g), ground (arith, writable, e, g))
          | inr (bytes, g) ↦
              let w = write_atomic-IsAtomicWrite f temp snapshot_file bytes true dir other in
              let called : save_snapshot c f temp t (some state) dir
                  ≡ write_atomic f temp snapshot_file bytes true dir =
                ground (arith, writable, e, g) in
              let back = trips bytes g in
              elim w.whole [
                | inl (same, fails) ↦
                    inl (ground (arith, called, fails), ground (arith, called, same))
                | inr there ↦ inr (ground (arith, called, there, back, is_open, later, some_state))
              ]
        ]
      ]
    ]
