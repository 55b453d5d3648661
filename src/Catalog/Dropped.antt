-- ===== src/Catalog/Dropped.antt =====
-- What removeReadVersionLocked of internal/engine/read_catalog.go drops from the catalog.
use go_agent_claw.Prelude.{
  ◌≡◌, refl, subst, sym, inl, inr, ◌⊎◌, true, false, List, [], ◌∷◌, String, arith, Bool-cases, In,
  eq_iff, IsFilter, filters_none, keeps_one, skips_one,
}
use go_agent_claw.Coverage.{ReadReceipt}
use go_agent_claw.Catalog.{
  Report, ReadCatalog, is_gone, matches, keep_reads, any_matches, keep_reports, remove_read_version,
}

-- The read is one of the file, in this version or, where "" is given, in any.
abbrev pub IsRemoved : String → String → ReadReceipt → Type 0
IsRemoved path version read = (read.path ≡ path) × ((version ≡ "") ⊎ (read.version ≡ version))

-- The report is a handoff, or rests on no removed read.
abbrev pub StaysFor : String → String → Report → Type 0
StaysFor path version report =
    (report.has_handoff ≡ true)
    ⊎ ((read : ReadReceipt) → In read report.reads → ¬ IsRemoved path version read)

matches-IsRemoved :
    (path version : String) (read : ReadReceipt)
    → matches path version read ≡ true
    → IsRemoved path version read
unfolding matches is_gone
matches-IsRemoved path version read h =
    ground (arith, h, eq_iff read.path path, eq_iff version "", eq_iff read.version version)

IsRemoved-matches :
    (path version : String) (read : ReadReceipt)
    → matches path version read ≡ false
    → ¬ IsRemoved path version read
unfolding matches is_gone
IsRemoved-matches path version read h q = absurd (
    ground
      (arith, h, q.0, q.1, eq_iff read.path path, eq_iff version "", eq_iff read.version version))

keep_reads-IsFilter :
    (path version : String) (reads : List ReadReceipt)
    → IsFilter (λ r. ¬ IsRemoved path version r) reads (keep_reads path version reads)
unfolding keep_reads
keep_reads-IsFilter path version [] = filters_none
keep_reads-IsFilter path version (read ∷ reads) = elim (Bool-cases (matches path version read)) [
  | inl e ↦ rw e (
      skips_one (λ q. q (matches-IsRemoved path version read e))
        (keep_reads-IsFilter path version reads))
  | inr e ↦
      rw e
        (keeps_one (IsRemoved-matches path version read e) (keep_reads-IsFilter path version reads))
]

any_matches-none :
    (path version : String) (reads : List ReadReceipt)
    → any_matches path version reads ≡ false
    → (read : ReadReceipt) → In read reads
    → ¬ IsRemoved path version read
unfolding any_matches
any_matches-none path version [] h read inside = absurd inside
any_matches-none path version (x ∷ reads) h read (inl same) =
    subst (λ r. ¬ IsRemoved path version r) (sym same)
      (IsRemoved-matches path version x (ground (arith, h)))
any_matches-none path version (x ∷ reads) h read (inr inside) =
    any_matches-none path version reads (ground (arith, h)) read inside

any_matches-some :
    (path version : String) (reads : List ReadReceipt)
    → any_matches path version reads ≡ true
    → (read : ReadReceipt) × In read reads × IsRemoved path version read
unfolding any_matches
any_matches-some path version [] h = absurd (ground (arith, h))
any_matches-some path version (x ∷ reads) h = elim (Bool-cases (matches path version x)) [
  | inl e ↦ (x, inl refl, matches-IsRemoved path version x e)
  | inr e ↦
      let (read, inside, gone) = any_matches-some path version reads (ground (arith, h, e)) in
      (read, inr inside, gone)
]

keep_reports-IsFilter :
    (path version : String) (reports : List Report)
    → IsFilter (StaysFor path version) reports (keep_reports path version reports)
unfolding keep_reports
keep_reports-IsFilter path version [] = filters_none
keep_reports-IsFilter path version (report ∷ reports) = elim (Bool-cases report.has_handoff) [
  | inl t ↦
      let same : report ∷ keep_reports path version reports
          ≡ keep_reports path version (report ∷ reports) =
        ground (arith, t) in
      subst (IsFilter (StaysFor path version) (report ∷ reports)) same
        (keeps_one (inl t) (keep_reports-IsFilter path version reports))
  | inr t ↦ elim (Bool-cases (any_matches path version report.reads)) [
    | inl e ↦
        let (read, inside, gone) = any_matches-some path version report.reads e in
        let same : keep_reports path version reports
            ≡ keep_reports path version (report ∷ reports) =
          ground (arith, t, e) in
        subst (IsFilter (StaysFor path version) (report ∷ reports)) same (
          skips_one
            (λ stays. elim stays [
              | inl handoff ↦ absurd (ground (arith, t, handoff))
              | inr clear ↦ clear read inside gone
            ])
            (keep_reports-IsFilter path version reports))
    | inr e ↦
        let same : report ∷ keep_reports path version reports
            ≡ keep_reports path version (report ∷ reports) =
          ground (arith, t, e) in
        subst (IsFilter (StaysFor path version) (report ∷ reports)) same (
          keeps_one (inr (any_matches-none path version report.reads e))
            (keep_reports-IsFilter path version reports))
  ]
]

-- After the reads of a file in a version (in any version, for "") are removed, the catalog holds exactly its other
-- reads, in their order, and exactly the reports that are a handoff or rest on none of the removed reads.
pub remove_read_version_lem :
    (path version : String) (c : ReadCatalog)
    → IsFilter
        (λ r. ¬ IsRemoved path version r)
        c.receipts
        (remove_read_version path version c).receipts
      × IsFilter (StaysFor path version) c.reports (remove_read_version path version c).reports
unfolding remove_read_version
remove_read_version_lem path version c =
    (keep_reads-IsFilter path version c.receipts, keep_reports-IsFilter path version c.reports)
