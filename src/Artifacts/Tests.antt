-- ===== src/Artifacts/Tests.antt =====
-- A material of eight bytes with a character of three, read in pages, and a checkpoint.
use go_agent_claw.Prelude.{
  ℕ, ◌≡◌, ◌≢◌, ◌⊎◌, refl, true, false, none, some, [], ◌∷◌, String, arith, eq_iff, ok, err,
}
use go_agent_claw.Utf8.{Bytes, rune_size, width, second_low, second_high, has_tail}
use go_agent_claw.Taskstore.{Task}
use go_agent_claw.Artifacts.{
  Directory, find_file, is_valid_id, all_hex, read_page, cut_text, find_straddling, take_runes,
  inside_rune, limit_too_small,
}
use go_agent_claw.Artifacts.Paging.{IsPage}
use go_agent_claw.Artifacts.Whole.{Reads, read_page-IsPage, pages-Reads}
use go_agent_claw.Artifacts.Publish.{
  SaveFaults, put_file, remove_file, publish, write_atomic, save_artifact, SnapshotCodec,
  snapshot_of, save_snapshot, load_snapshot, content_failed, already_exists,
}
use go_agent_claw.Artifacts.Atomic.{IsAtomicWrite, write_atomic-IsAtomicWrite}
use go_agent_claw.Artifacts.Saved.{Save, save_all, save_artifact-Reads, save_snapshot-reloads}

-- "ab", U+4E2D, "cde"
abbrev material : Bytes
material = b'a' ∷ b'b' ∷ 0xE4 ∷ 0xB8 ∷ 0xAD ∷ b'c' ∷ b'd' ∷ b'e' ∷ []

abbrev material_id : String
material_id = "0123456789abcdef0123456789abcdef"

abbrev temp_name : String
temp_name = ".tmp-1"

abbrev stored : Directory
stored = (material_id, material) ∷ []

first_page :
    read_page true 0 4 material
    ≡ ok
        (record { content = b'a' ∷ b'b' ∷ []; offset = 0; next_offset = 2; total = 8; eof = false })
unfolding read_page cut_text find_straddling take_runes rune_size width second_low second_high
    has_tail
first_page = refl

inside_page : read_page true 3 4 material ≡ err (inside_rune 2)
unfolding read_page cut_text find_straddling take_runes rune_size width second_low second_high
    has_tail
inside_page = refl

narrow_page : read_page true 2 2 material ≡ err (limit_too_small 3)
unfolding read_page cut_text find_straddling take_runes rune_size width second_low second_high
    has_tail
narrow_page = refl

material_named : is_valid_id material_id ≡ true
unfolding is_valid_id all_hex
material_named = refl

temp_IsTempName : is_valid_id temp_name ≡ false
unfolding is_valid_id all_hex
temp_IsTempName = refl

material_found : find_file material_id stored ≡ some material
unfolding find_file
material_found = refl

read_page-IsPage_example :
    IsPage material 0 4
      (record { content = b'a' ∷ b'b' ∷ []; offset = 0; next_offset = 2; total = 8; eof = false })
read_page-IsPage_example = read_page-IsPage true 0 4 material (omega arith) first_page

pages-Reads_example : Reads stored material_id 4 0 material
pages-Reads_example =
    pages-Reads stored material_id 4 material material_named material_found (omega arith)

abbrev working_disk : SaveFaults
working_disk = record {
  directory_fails = false;
  create_fails = false;
  written = none;
  link_fails = false;
  remove_fails = false;
  sync_fails = false;
}

abbrev full_disk : SaveFaults
full_disk = record working_disk { written = some 3 }

torn_write :
    write_atomic full_disk temp_name material_id material false [] ≡ ([], err content_failed)
unfolding write_atomic find_file put_file remove_file
torn_write = refl

second_write :
    write_atomic working_disk temp_name material_id (1 ∷ []) false stored
    ≡ (stored, err already_exists)
unfolding write_atomic publish find_file put_file remove_file
second_write = refl

temp_apart : temp_name ≢ material_id
temp_apart q = ground (arith, eq_iff temp_name material_id, q)

write_atomic-IsAtomicWrite_example :
    IsAtomicWrite temp_name material_id
      (1 ∷ [])
      false
      stored
      (write_atomic working_disk temp_name material_id (1 ∷ []) false stored)
write_atomic-IsAtomicWrite_example =
    write_atomic-IsAtomicWrite working_disk temp_name material_id (1 ∷ []) false stored temp_apart

abbrev save_of : SaveFaults → Bytes → Save
save_of faults content = record {
  faults = faults;
  open_log = true;
  temp = temp_name;
  id = material_id;
  content = content;
}

material_saved : (save_artifact working_disk true temp_name material_id material []).1 ≡ ok tt
unfolding save_artifact write_atomic publish find_file put_file remove_file is_valid_id all_hex
material_saved = refl

save_artifact-Reads_example :
    Reads
      (save_all
        (save_of working_disk (1 ∷ []) ∷ [])
        (save_artifact working_disk true temp_name material_id material []).0)
      material_id
      4
      0
      material
save_artifact-Reads_example =
    save_artifact-Reads (save_of working_disk material) (save_of working_disk (1 ∷ []) ∷ []) [] 4
      temp_IsTempName (temp_IsTempName, tt) (omega arith) material_saved

abbrev codec : SnapshotCodec
codec = record {
  marshal = λ s. some (s.sequence ∷ s.state);
  unmarshal = λ bytes. elim bytes [
    | [] ↦ none
    | n ∷ state ↦ some (record { version = 1; sequence = n; state = state })
  ];
}

abbrev task_at : ℕ → Task
task_at n = record { open_log = true; sequence = n; offset = n; write_error = none }

codec-RoundTrips :
    (bytes : Bytes)
    → codec.marshal (snapshot_of (task_at 2) (7 ∷ [])) ≡ some bytes
    → codec.unmarshal bytes ≡ some (snapshot_of (task_at 2) (7 ∷ []))
codec-RoundTrips bytes h = ground arith

snapshot_apart : temp_name ≢ "snapshot.json"
snapshot_apart q = ground (arith, eq_iff temp_name "snapshot.json", q)

save_snapshot-reloads_example :
    (((save_snapshot codec full_disk temp_name (task_at 2) (some (7 ∷ [])) []).1 ≢ ok tt)
      × (load_snapshot codec false
            (task_at 3)
            (save_snapshot codec full_disk temp_name (task_at 2) (some (7 ∷ [])) []).0
          ≡ load_snapshot codec false (task_at 3) []))
    ⊎ (load_snapshot codec false
          (task_at 3)
          (save_snapshot codec full_disk temp_name (task_at 2) (some (7 ∷ [])) []).0
        ≡ ok (snapshot_of (task_at 2) (7 ∷ [])))
save_snapshot-reloads_example =
    save_snapshot-reloads codec full_disk temp_name (task_at 2) (task_at 3) (7 ∷ []) []
      snapshot_apart codec-RoundTrips (omega arith) refl (omega arith)
