-- ===== src/Catalog/Invariant.antt =====
-- The catalog of reads in internal/engine/read_catalog.go over any sequence of its operations.
use go_agent_claw.Prelude.{
  ◌≤◌, ◌≡◌, refl, inl, inr, true, false, List, [], ◌∷◌, ◌++◌, String, arith, Bool-cases, All,
  length,
}
use go_agent_claw.Coverage.{ReadReceipt}
use go_agent_claw.Catalog.{
  Invalidation, ReadCatalog, CatalogCall, remembers, invalidates, removes, reports_back, is_listed,
  matches, keep_reads, remove_read_version, remember_read, invalidate_reads, remember_subreport,
  drop_invalidation, list_removed, read_context_entries, apply, apply_all,
}
use go_agent_claw.Catalog.Removal.{
  is_listed-list_removed, list_removed-length, list_all-length, drop_invalidation-length,
  is_listed-drop_invalidation,
}

abbrev pub IsFresh : List Invalidation → ReadReceipt → Type 0
IsFresh items read = is_listed read.path read.version items ≡ false

-- No read that the catalog holds is listed as invalid, and the list is bounded.
pub record IsConsistent (c : ReadCatalog) : Type 0 where
  pub fresh : All (IsFresh c.invalidated) c.receipts
  pub bounded : length c.invalidated ≤ read_context_entries

All-map :
    (P Q : ReadReceipt → Type 0) (xs : List ReadReceipt)
    → ((x : ReadReceipt) → P x → Q x)
    → All P xs
    → All Q xs
All-map P Q [] f a = tt
All-map P Q (x ∷ xs) f a = (f x a.0, All-map P Q xs f a.1)

All-append_one :
    (P : ReadReceipt → Type 0) (xs : List ReadReceipt) (x : ReadReceipt)
    → All P xs
    → P x
    → All P (xs ++ x ∷ [])
All-append_one P [] x a h = (h, tt)
All-append_one P (y ∷ xs) x a h = (a.0, All-append_one P xs x a.1 h)

keep_reads-All :
    (P : ReadReceipt → Type 0) (path version : String) (reads : List ReadReceipt)
    → All P reads
    → All (λ r. P r × (matches path version r ≡ false)) (keep_reads path version reads)
unfolding keep_reads
keep_reads-All P path version [] a = tt
keep_reads-All P path version (read ∷ reads) a = elim (Bool-cases (matches path version read)) [
  | inl e ↦ rw e (keep_reads-All P path version reads a.1)
  | inr e ↦ rw e ((a.0, e), keep_reads-All P path version reads a.1)
]

remember_read-IsConsistent :
    (read : ReadReceipt) (c : ReadCatalog) → IsConsistent c → IsConsistent (remember_read read c)
unfolding remember_read
remember_read-IsConsistent read c v = record {
  fresh =
      All-append_one (IsFresh left) c.receipts read
        (All-map (IsFresh c.invalidated) (IsFresh left) c.receipts still v.fresh) now;
  bounded = omega (arith, drop_invalidation-length read.path read.version c.invalidated, v.bounded);
}
  where
    left : List Invalidation
    left = drop_invalidation read.path read.version c.invalidated

    still : (r : ReadReceipt) → IsFresh c.invalidated r → IsFresh left r
    still r h = elim (Bool-cases (is_listed r.path r.version left)) [
      | inl t ↦ absurd (
          ground (
            arith,
            h,
            is_listed-drop_invalidation r.path r.version read.path read.version c.invalidated t,
          ))
      | inr f ↦ f
    ]

    now : IsFresh left read
    now = elim (Bool-cases (is_listed read.path read.version left)) [
      | inl t ↦ absurd (
          (is_listed-drop_invalidation read.path read.version read.path read.version c.invalidated
              t).1
            (refl, refl))
      | inr f ↦ f
    ]

remove_read_version-IsConsistent :
    (path version : String) (c : ReadCatalog)
    → IsConsistent c
    → IsConsistent (remove_read_version path version c)
unfolding remove_read_version matches
remove_read_version-IsConsistent path version c v = record {
  fresh =
      All-map (λ r. IsFresh c.invalidated r × (matches path version r ≡ false)) (IsFresh after)
        (keep_reads path version c.receipts) still
        (keep_reads-All (IsFresh c.invalidated) path version c.receipts v.fresh);
  bounded = list_removed-length path version c.receipts c.invalidated v.bounded;
}
  where
    after : List Invalidation
    after = list_removed path version c.receipts c.invalidated

    still :
        (r : ReadReceipt)
        → IsFresh c.invalidated r × (matches path version r ≡ false)
        → IsFresh after r
    still r h = elim (Bool-cases (is_listed r.path r.version after)) [
      | inl t ↦ absurd (
          ground (
            arith,
            h.0,
            h.1,
            is_listed-list_removed r.path r.version path version c.receipts c.invalidated t,
          ))
      | inr f ↦ f
    ]

apply-IsConsistent :
    (clean : String → String) (call : CatalogCall) (c : ReadCatalog)
    → IsConsistent c
    → IsConsistent (apply clean call c)
unfolding apply invalidate_reads remember_subreport
apply-IsConsistent clean (remembers read) c v = remember_read-IsConsistent read c v
apply-IsConsistent clean (invalidates path true) c v = record {
  fresh = tt;
  bounded = list_all-length c.receipts c.invalidated v.bounded;
}
apply-IsConsistent clean (invalidates path false) c v =
    remove_read_version-IsConsistent (clean path) "" c v
apply-IsConsistent clean (removes path version) c v =
    remove_read_version-IsConsistent path version c v
apply-IsConsistent clean (reports_back report) c v = record { fresh = v.fresh; bounded = v.bounded }

-- Over any sequence of reads, invalidations, removals and reports of subagents, from a catalog where this
-- holds: no read that the catalog offers for reuse is listed as invalid, and the list of invalid ones has
-- at most 128 entries.
pub apply_all-IsConsistent :
    (clean : String → String) (calls : List CatalogCall) (c : ReadCatalog)
    → IsConsistent c
    → IsConsistent (apply_all clean calls c)
unfolding apply_all
apply_all-IsConsistent clean [] c v = v
apply_all-IsConsistent clean (call ∷ calls) c v =
    apply_all-IsConsistent clean calls (apply clean call c) (apply-IsConsistent clean call c v)
