-- ===== src/Catalog.antt =====
-- internal/engine/read_catalog.go: the reads that a run can still rely on, and the files whose earlier
-- reads no longer hold. Every operation holds the lock of the run. Of a subagent's report only its reads
-- and whether it is a handoff are kept; filepath.Clean is the parameter `clean`.
pub mod Removal
pub mod Invariant
pub mod Dropped
mod Tests
use go_agent_claw.Prelude.{
  ℕ, ◌+◌, ◌-◌, Bool, true, false, not, ◌&&◌, ◌||◌, List, [], ◌∷◌, ◌++◌, String, ltb, if◌then◌else◌,
  str_eq, length, drop,
}
use go_agent_claw.Coverage.{ReadReceipt}

pub record Invalidation : Type 0 where
  pub path : String
  pub version : String

pub record Report : Type 0 where
  pub has_handoff : Bool
  pub reads : List ReadReceipt

pub record ReadCatalog : Type 0 where
  pub receipts : List ReadReceipt
  pub reports : List Report
  pub invalidated : List Invalidation

abbrev pub read_context_entries : ℕ
read_context_entries = 128

abbrev pub is_for : String → String → Invalidation → Bool
is_for path version item = str_eq item.path path && str_eq item.version version

unfoldable pub is_listed : String → String → List Invalidation → Bool
is_listed path version [] = false
is_listed path version (item ∷ items) = is_for path version item || is_listed path version items

abbrev pub newest : List Invalidation → List Invalidation
newest items =
    if ltb read_context_entries (length items)
    then drop (length items - read_context_entries) items
    else items

-- addReadInvalidationLocked
unfoldable pub add_invalidation : String → String → List Invalidation → List Invalidation
unfolding is_listed
add_invalidation path version items =
    if is_listed path version items
    then items
    else newest (items ++ record { path = path; version = version } ∷ [])

unfoldable pub drop_invalidation : String → String → List Invalidation → List Invalidation
drop_invalidation path version [] = []
drop_invalidation path version (item ∷ items) =
    let later = drop_invalidation path version items in
    if is_for path version item then later else item ∷ later

-- rememberReadLocked for a call that succeeded with a read.
unfoldable pub remember_read : ReadReceipt → ReadCatalog → ReadCatalog
unfolding drop_invalidation
remember_read read c = record c {
  receipts = c.receipts ++ read ∷ [];
  invalidated = drop_invalidation read.path read.version c.invalidated;
}

unfoldable pub is_gone : String → String → String → String → Bool
is_gone path version path' version' =
    str_eq path' path && (str_eq version "" || str_eq version' version)

unfoldable pub matches : String → String → ReadReceipt → Bool
unfolding is_gone
matches path version read = is_gone path version read.path read.version

unfoldable pub keep_reads : String → String → List ReadReceipt → List ReadReceipt
unfolding matches
keep_reads path version [] = []
keep_reads path version (read ∷ reads) =
    let later = keep_reads path version reads in
    if matches path version read then later else read ∷ later

unfoldable pub list_removed :
    String → String → List ReadReceipt → List Invalidation → List Invalidation
unfolding matches add_invalidation
list_removed path version [] items = items
list_removed path version (read ∷ reads) items =
    list_removed path version reads
      (if matches path version read then add_invalidation read.path read.version items else items)

unfoldable pub any_matches : String → String → List ReadReceipt → Bool
unfolding matches
any_matches path version [] = false
any_matches path version (read ∷ reads) =
    matches path version read || any_matches path version reads

unfoldable pub keep_reports : String → String → List Report → List Report
unfolding any_matches
keep_reports path version [] = []
keep_reports path version (report ∷ reports) =
    let later = keep_reports path version reports in
    if not report.has_handoff && any_matches path version report.reads
    then later
    else report ∷ later

-- removeReadVersionLocked
unfoldable pub remove_read_version : String → String → ReadCatalog → ReadCatalog
unfolding keep_reads list_removed keep_reports
remove_read_version path version c = record {
  receipts = keep_reads path version c.receipts;
  reports = keep_reports path version c.reports;
  invalidated = list_removed path version c.receipts c.invalidated;
}

unfoldable pub list_all : List ReadReceipt → List Invalidation → List Invalidation
unfolding add_invalidation
list_all [] items = items
list_all (read ∷ reads) items = list_all reads (add_invalidation read.path read.version items)

-- invalidateReadsLocked
unfoldable pub invalidate_reads : (String → String) → String → Bool → ReadCatalog → ReadCatalog
unfolding list_all remove_read_version
invalidate_reads clean path true c = record {
  receipts = [];
  reports = [];
  invalidated = list_all c.receipts c.invalidated;
}
invalidate_reads clean path false c = remove_read_version (clean path) "" c

-- rememberSubreport
unfoldable pub remember_subreport : Report → ReadCatalog → ReadCatalog
remember_subreport report c = record c { reports = c.reports ++ report ∷ [] }

pub data CatalogCall : Type 0 where
  remembers : ReadReceipt → CatalogCall
  invalidates : String → Bool → CatalogCall
  removes : String → String → CatalogCall
  reports_back : Report → CatalogCall

unfoldable pub apply : (String → String) → CatalogCall → ReadCatalog → ReadCatalog
unfolding remember_read invalidate_reads remove_read_version remember_subreport
apply clean (remembers read) c = remember_read read c
apply clean (invalidates path clear_all) c = invalidate_reads clean path clear_all c
apply clean (removes path version) c = remove_read_version path version c
apply clean (reports_back report) c = remember_subreport report c

unfoldable pub apply_all : (String → String) → List CatalogCall → ReadCatalog → ReadCatalog
unfolding apply
apply_all clean [] c = c
apply_all clean (call ∷ calls) c = apply_all clean calls (apply clean call c)
