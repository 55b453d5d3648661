-- ===== src/Catalog/Tests.antt =====
-- A catalog in which a file is read, changed and read again.
use go_agent_claw.Prelude.{◌≡◌, refl, false, List, [], ◌∷◌, String, arith, IsFilter}
use go_agent_claw.Coverage.{ReadReceipt}
use go_agent_claw.Catalog.{
  ReadCatalog, CatalogCall, remembers, invalidates, reports_back, apply, apply_all, remember_read,
  drop_invalidation, invalidate_reads, remove_read_version, keep_reads, list_removed, keep_reports,
  any_matches, matches, is_gone, add_invalidation, is_listed, remember_subreport,
}
use go_agent_claw.Catalog.Dropped.{IsRemoved, StaysFor, remove_read_version_lem}
use go_agent_claw.Catalog.Invariant.{IsConsistent, apply_all-IsConsistent}

abbrev read : String → String → ReadReceipt
read path version = record {
  path = path;
  agent_id = "main";
  version = version;
  total_bytes = 9;
  byte_start = 0;
  byte_end = 9;
}

abbrev no_reads : ReadCatalog
no_reads = record { receipts = []; reports = []; invalidated = [] }

abbrev same_path : String → String
same_path path = path

abbrev calls : List CatalogCall
calls =
    remembers (read "a" "1")
    ∷ reports_back (record { has_handoff = false; reads = read "a" "1" ∷ [] })
    ∷ remembers (read "b" "7")
    ∷ invalidates "a" false
    ∷ remembers (read "a" "2")
    ∷ []

after_calls : apply_all same_path calls no_reads ≡ record {
  receipts = read "b" "7" ∷ read "a" "2" ∷ [];
  reports = [];
  invalidated = record { path = "a"; version = "1" } ∷ [];
}
unfolding apply_all apply remember_read drop_invalidation invalidate_reads remove_read_version
    keep_reads list_removed keep_reports any_matches matches is_gone add_invalidation is_listed
    remember_subreport
after_calls = refl

apply_all-IsConsistent_example : IsConsistent (apply_all same_path calls no_reads)
apply_all-IsConsistent_example =
    apply_all-IsConsistent same_path calls no_reads (record { fresh = tt; bounded = omega arith })

abbrev two_reads : ReadCatalog
two_reads = record {
  receipts = read "a" "1" ∷ read "b" "7" ∷ [];
  reports = record { has_handoff = false; reads = read "a" "1" ∷ [] } ∷ [];
  invalidated = [];
}

remove_read_version_lem_example :
    IsFilter
      (λ r. ¬ IsRemoved "a" "" r)
      two_reads.receipts
      (remove_read_version "a" "" two_reads).receipts
    × IsFilter (StaysFor "a" "") two_reads.reports (remove_read_version "a" "" two_reads).reports
remove_read_version_lem_example = remove_read_version_lem "a" "" two_reads
