-- ===== src/Artifacts.antt =====
-- The materials and checkpoints of internal/taskstore/store.go: `read_artifact_page` is readArtifactPage,
-- `write_atomic` writeAtomic. A directory is an association list of its files; the system calls that can
-- fail are faults handed to each call. Offsets and limits are not negative: a negative one is refused
-- before anything else is read.
pub mod Paging
pub mod Whole
pub mod Publish
pub mod Atomic
pub mod Saved
mod Tests
use go_agent_claw.Prelude.{
  ℕ, zero, suc, ◌+◌, ◌-◌, Bool, true, false, not, ◌&&◌, ◌||◌, Option, none, some, List, [], ◌∷◌,
  ◌++◌, String, leb, ltb, ◌==◌, if◌then◌else◌, str_eq, length, take, drop, min, codes, Result, ok,
  err, ◌>>=◌, ◌>>◌,
}
use go_agent_claw.Utf8.{Bytes, is_between, rune_size}

abbrev pub Directory : Type 0
Directory = List (String × Bytes)

unfoldable pub find_file : String → Directory → Option Bytes
find_file name [] = none
find_file name ((n, bytes) ∷ dir) = if str_eq n name then some bytes else find_file name dir

pub data ArtifactError : Type 0 where
  bad_id bad_range closed no_artifact stat_failed read_failed exists : ArtifactError
  inside_rune limit_too_small : ℕ → ArtifactError

unfoldable pub all_hex : List ℕ → Bool
all_hex [] = true
all_hex (c ∷ cs) = (is_between b'0' b'9' c || is_between b'a' b'f' c) && all_hex cs

-- validID
unfoldable pub is_valid_id : String → Bool
unfolding all_hex
is_valid_id id = length (codes id) == 32 && all_hex (codes id)

pub record ArtifactPage : Type 0 where
  pub content : Bytes
  pub offset : ℕ
  pub next_offset : ℕ
  pub total : ℕ
  pub eof : Bool

abbrev pub utf_max : ℕ
utf_max = 4

-- io.ReadAll of a section of the file.
abbrev pub read_section : ℕ → ℕ → Bytes → Bytes
read_section start count file = take count (drop start file)

-- The first loop: `rounds` offsets before the page are left, `i` is the next. A character that reaches over
-- the page's start is found at the offset that is returned.
unfoldable pub find_straddling : ℕ → ℕ → ℕ → Bytes → Option ℕ
find_straddling zero i prefix bytes = none
find_straddling (suc rounds) i prefix bytes =
    let later = find_straddling rounds (i + 1) prefix bytes in
    if ltb prefix (i + rune_size (drop i bytes)) then some i else later

-- The second loop: the whole characters that fit. Each round takes a byte at least, so as many rounds as
-- there are bytes suffice.
unfoldable pub take_runes : ℕ → ℕ → ℕ → Bytes → ℕ
take_runes zero limit consumed bytes = consumed
take_runes (suc rounds) limit consumed bytes =
    let next = take_runes rounds limit (consumed + rune_size (drop consumed bytes)) bytes in
    if ltb consumed (length bytes) && ltb consumed limit
    then if ltb (limit - consumed) (rune_size (drop consumed bytes)) then consumed else next
    else consumed

abbrev pub page_of : ℕ → ℕ → Bytes → ArtifactPage
page_of offset total content = record {
  content = content;
  offset = offset;
  next_offset = offset + length content;
  total = total;
  eof = leb total (offset + length content);
}

-- From the bytes of the page with its margins to the page.
unfoldable pub cut_text : ℕ → ℕ → ℕ → ℕ → Bytes → Result ArtifactError ArtifactPage
unfolding find_straddling take_runes
cut_text offset start limit total bytes =
    elim (find_straddling (offset - start) 0 (offset - start) bytes) [
      | some i ↦ err (inside_rune (start + i))
      | none ↦
          let rest = drop (offset - start) bytes in
          let consumed = take_runes (length rest) limit 0 rest in
          if consumed == 0 && ltb 0 (length rest)
          then err (limit_too_small (rune_size rest))
          else ok (page_of offset total (take consumed rest))
    ]

-- From the file's size on.
unfoldable pub read_page : Bool → ℕ → ℕ → Bytes → Result ArtifactError ArtifactPage
unfolding cut_text
read_page text_page offset limit file =
    let total = length file in
    let count = min limit (total - offset) in
    let end = offset + count in
    if leb total offset
    then ok
        (record { content = []; offset = offset; next_offset = offset; total = total; eof = true })
    else if text_page
    then cut_text offset (offset - (utf_max - 1)) limit total (
        read_section (offset - (utf_max - 1))
          (end + min (total - end) utf_max - (offset - (utf_max - 1))) file)
    else ok (page_of offset total (read_section offset count file))

-- What the system calls of one reading do.
pub record ReadFaults : Type 0 where
  pub open_fails : Bool
  pub stat_fails : Bool
  pub read_fails : Bool

abbrev pub refuse_if : Bool → ArtifactError → Result ArtifactError (Unit {0})
refuse_if true e = err e
refuse_if false e = ok tt

abbrev pub open_file : Bool → Option Bytes → Result ArtifactError Bytes
open_file true found = err no_artifact
open_file false none = err no_artifact
open_file false (some bytes) = ok bytes

-- A file whose offset is at its end or behind it is not read.
unfoldable pub read_artifact_page :
    ReadFaults → Bool → Directory → String → Bool → ℕ → ℕ → Result ArtifactError ArtifactPage
unfolding read_page
read_artifact_page f open_log dir id text_page offset limit = do
  refuse_if (not (is_valid_id id)) bad_id
  refuse_if (limit == 0) bad_range
  refuse_if (not open_log) closed
  file ← open_file f.open_fails (find_file id dir)
  refuse_if f.stat_fails stat_failed
  refuse_if (f.read_fails && ltb offset (length file)) read_failed
  read_page text_page offset limit file
