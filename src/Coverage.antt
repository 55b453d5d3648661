-- ===== src/Coverage.antt =====
-- internal/engine/reading_coverage.go and mergeReadCoverage of internal/engine/read_catalog.go: which
-- bytes of a file the reads of a run have covered. Offsets are numbers: the receipts of the reading tools
-- have starts and ends within the file, so no offset and no difference below is negative. The version
-- that the file has now is the argument `version`, "" if it cannot be read.
pub mod Sorting
pub mod Sweep
pub mod Merge
pub mod Files
mod Tests
use go_agent_claw.Prelude.{
  ℕ, zero, suc, ◌+◌, ◌-◌, Bool, true, false, not, ◌&&◌, ◌||◌, List, [], ◌∷◌, ◌++◌, map, String, leb,
  ltb, ◌==◌, if◌then◌else◌, str_eq, length, is_empty, min, max,
}

pub record ByteInterval : Type 0 where
  pub start : ℕ
  pub end : ℕ

pub record ReadReceipt : Type 0 where
  pub path : String
  pub agent_id : String
  pub version : String
  pub total_bytes : ℕ
  pub byte_start : ℕ
  pub byte_end : ℕ

pub record FileReadingCoverage : Type 0 where
  pub unknown : Bool
  pub path : String
  pub version : String
  pub total_bytes : ℕ
  pub read_bytes : ℕ
  pub complete : Bool
  pub missing : List ByteInterval

pub record Identity : Type 0 where
  pub agent_id : String
  pub parent_agent_id : String

unfoldable pub insert_range : ByteInterval → List ByteInterval → List ByteInterval
insert_range r [] = r ∷ []
insert_range r (x ∷ xs) = if ltb x.start r.start then x ∷ insert_range r xs else r ∷ x ∷ xs

-- sort.Slice by the start.
unfoldable pub sort_ranges : List ByteInterval → List ByteInterval
unfolding insert_range
sort_ranges [] = []
sort_ranges (r ∷ rs) = insert_range r (sort_ranges rs)

-- The variables of the loop over the sorted ranges.
pub record Sweeping : Type 0 where
  pub cursor : ℕ
  pub read_bytes : ℕ
  pub missing : List ByteInterval

abbrev pub interval : ℕ → ℕ → ByteInterval
interval start end = record { start = start; end = end }

unfoldable pub note_gap : ℕ → Sweeping → Sweeping
note_gap start s =
    if ltb s.cursor start
    then record s { missing = s.missing ++ interval s.cursor start ∷ [] }
    else s

unfoldable pub advance : ℕ → ℕ → Sweeping → Sweeping
advance start end s =
    if ltb s.cursor end
    then record s { read_bytes = s.read_bytes + (end - max s.cursor start); cursor = end }
    else s

unfoldable pub sweep : ℕ → List ByteInterval → Sweeping → Sweeping
unfolding note_gap advance
sweep total [] s = s
sweep total (r ∷ rs) s = sweep total rs (advance r.start (min total r.end) (note_gap r.start s))

abbrev pub at_start : Sweeping
at_start = record { cursor = 0; read_bytes = 0; missing = [] }

-- The gap behind the last range is noted as one before the end of the file.
unfoldable pub sweep_file : ℕ → List ByteInterval → Sweeping
unfolding sweep note_gap sort_ranges
sweep_file total ranges = note_gap total (sweep total (sort_ranges ranges) at_start)

unfoldable pub counts : Identity → String → String → ReadReceipt → Bool
counts who path version read =
    str_eq read.path path
    && (str_eq who.parent_agent_id "" || str_eq read.agent_id who.agent_id)
    && (not (str_eq version "") && str_eq read.version version)

unfoldable pub counted : Identity → String → String → List ReadReceipt → List ReadReceipt
unfolding counts
counted who path version [] = []
counted who path version (read ∷ reads) =
    let later = counted who path version reads in
    if counts who path version read then read ∷ later else later

unfoldable pub last_total : ℕ → List ReadReceipt → ℕ
last_total total [] = total
last_total total (read ∷ reads) = last_total read.total_bytes reads

abbrev pub range_of : ReadReceipt → ByteInterval
range_of read = interval read.byte_start read.byte_end

-- The body of the loop over the files; `size` is the size in the list of files.
unfoldable pub file_coverage :
    Identity → String → ℕ → String → List ReadReceipt → FileReadingCoverage
unfolding counted last_total sweep_file
file_coverage who path size version reads =
    let found = counted who path version reads in
    let total = last_total size found in
    let swept = sweep_file total (map range_of found) in
    record {
      unknown = false;
      path = path;
      version = if is_empty found then "" else version;
      total_bytes = total;
      read_bytes = swept.read_bytes;
      complete = not (is_empty found) && is_empty swept.missing;
      missing = swept.missing;
    }

unfoldable pub complete_files : List FileReadingCoverage → ℕ
complete_files [] = 0
complete_files (f ∷ fs) = if f.complete then 1 + complete_files fs else complete_files fs

pub data Status : Type 0 where
  is_unknown is_partial is_complete : Status

unfoldable pub status_of : Bool → Bool → List FileReadingCoverage → Status
unfolding complete_files
status_of discovery_incomplete recorded_only files =
    if discovery_incomplete || recorded_only
    then is_unknown
    else if complete_files files == length files
    then is_complete
    else is_partial

-- The second loop of mergeReadCoverage: a range that starts within the last merged one, or where that
-- ends, extends it. The line numbers are left out.
unfoldable pub merge_into : ByteInterval → List ByteInterval → List ByteInterval
merge_into last [] = last ∷ []
merge_into last (next ∷ rs) =
    let extended = merge_into (record last { end = max last.end next.end }) rs in
    let separate = last ∷ merge_into next rs in
    if leb next.start last.end then extended else separate

unfoldable pub merge_ranges : List ByteInterval → List ByteInterval
unfolding merge_into
merge_ranges [] = []
merge_ranges (r ∷ rs) = merge_into r rs

unfoldable pub merged_coverage : List ByteInterval → List ByteInterval
unfolding merge_ranges sort_ranges
merged_coverage ranges = merge_ranges (sort_ranges ranges)
