-- ===== src/Coverage/Tests.antt =====
-- A file of 100 bytes that two agents read in parts.
use go_agent_claw.Prelude.{ℕ, ◌≡◌, refl, true, false, List, [], ◌∷◌, String, arith, map, All}
use go_agent_claw.Coverage.{
  ReadReceipt, Identity, FileReadingCoverage, interval, file_coverage, counted, counts, last_total,
  sweep_file, sweep, note_gap, advance, sort_ranges, insert_range, merged_coverage, merge_ranges,
  merge_into, range_of,
}
use go_agent_claw.Coverage.Sorting.{covers, IsInside}
use go_agent_claw.Coverage.Sweep.{IsSplit, file_coverage-IsSplit}
use go_agent_claw.Coverage.Merge.{AreApart, merged_coverage_lem}

abbrev read : String → ℕ → ℕ → ReadReceipt
read agent start end = record {
  path = "a.go";
  agent_id = agent;
  version = "v1";
  total_bytes = 100;
  byte_start = start;
  byte_end = end;
}

abbrev main_agent : Identity
main_agent = record { agent_id = "main"; parent_agent_id = "" }

abbrev child : Identity
child = record { agent_id = "sub"; parent_agent_id = "main" }

abbrev reads : List ReadReceipt
reads = read "main" 40 60 ∷ read "sub" 0 30 ∷ read "main" 50 90 ∷ []

seen_by_main : file_coverage main_agent "a.go" 0 "v1" reads ≡ record {
  unknown = false;
  path = "a.go";
  version = "v1";
  total_bytes = 100;
  read_bytes = 80;
  complete = false;
  missing = interval 30 40 ∷ interval 90 100 ∷ [];
}
unfolding file_coverage counted counts last_total sweep_file sweep note_gap advance sort_ranges
    insert_range
seen_by_main = refl

-- A subagent does not see what others read.
seen_by_child : (file_coverage child "a.go" 0 "v1" reads).missing ≡ interval 30 100 ∷ []
unfolding file_coverage counted counts last_total sweep_file sweep note_gap advance sort_ranges
    insert_range
seen_by_child = refl

merged_reads : merged_coverage (map range_of reads) ≡ interval 0 30 ∷ interval 40 90 ∷ []
unfolding merged_coverage merge_ranges merge_into sort_ranges insert_range
merged_reads = refl

reads-AreInside :
    All
      (IsInside (last_total 0 (counted main_agent "a.go" "v1" reads)))
      (map range_of (counted main_agent "a.go" "v1" reads))
unfolding counted counts last_total
reads-AreInside =
    ((omega arith, omega arith), ((omega arith, omega arith), ((omega arith, omega arith), tt)))

file_coverage-IsSplit_example :
    IsSplit (counted main_agent "a.go" "v1" reads) (file_coverage main_agent "a.go" 0 "v1" reads)
file_coverage-IsSplit_example = file_coverage-IsSplit main_agent "a.go" 0 "v1" reads reads-AreInside

merged_coverage_lem_example :
    ((b : ℕ) → covers (merged_coverage (map range_of reads)) b ≡ covers (map range_of reads) b)
    × AreApart (merged_coverage (map range_of reads))
merged_coverage_lem_example = merged_coverage_lem (map range_of reads)

abbrev whole_file : FileReadingCoverage
whole_file = record {
  unknown = false;
  path = "b.go";
  version = "v2";
  total_bytes = 4;
  read_bytes = 4;
  complete = true;
  missing = [];
}
