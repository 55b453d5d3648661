-- ===== src/Artifacts/Atomic.antt =====
-- What writeAtomic of internal/taskstore/store.go leaves in the directory, whatever fails.
use go_agent_claw.Prelude.{
  ◌≡◌, ◌≢◌, refl, sym, subst, ◌∙◌, ◌⊎◌, inl, inr, Bool, false, ◌||◌, none, some, [], ◌∷◌, String,
  arith, Bool-cases, Option-cases, if◌then◌else◌, str_eq, eq_iff, take, Result, ok, err,
}
use go_agent_claw.Utf8.{Bytes}
use go_agent_claw.Artifacts.{Directory, find_file}
use go_agent_claw.Artifacts.Publish.{
  put_file, remove_file, SaveError, publish_failed, already_exists, create_failed, content_failed,
  is_taken, SaveFaults, clean_up, synced, publish, write_atomic,
}

find_file-put_file :
    (k n : String) (bytes : Bytes) (dir : Directory)
    → find_file k (put_file n bytes dir) ≡ (if str_eq n k then some bytes else find_file k dir)
unfolding find_file put_file
find_file-put_file k n bytes [] = refl
find_file-put_file k n bytes ((m, old) ∷ dir) =
    ground (arith, eq_iff m n, eq_iff m k, eq_iff n k, find_file-put_file k n bytes dir)

find_file-remove_file :
    (k n : String) (dir : Directory)
    → find_file k (remove_file n dir) ≡ (if str_eq n k then none else find_file k dir)
unfolding find_file remove_file
find_file-remove_file k n [] = ground (arith, Bool-cases (str_eq n k))
find_file-remove_file k n ((m, old) ∷ dir) =
    ground (arith, eq_iff m n, eq_iff m k, eq_iff n k, find_file-remove_file k n dir)

find_file-clean_up :
    (f : SaveFaults) (k temp : String) (dir : Directory)
    → temp ≢ k
    → find_file k (clean_up f temp dir) ≡ find_file k dir
find_file-clean_up f k temp dir other =
    ground (arith, eq_iff temp k, find_file-remove_file k temp dir, Bool-cases f.remove_fails)

-- The file is as before and the call failed, or it has the whole content; it is as before where it must not
-- be replaced and was there; no other file but the temporary one is touched.
pub record IsAtomicWrite (temp name : String) (content : Bytes) (replace : Bool) (dir : Directory)
    (r : Directory × Result SaveError (Unit {0})) : Type 0 where
  pub whole :
      ((find_file name r.0 ≡ find_file name dir) × (r.1 ≢ ok tt))
      ⊎ (find_file name r.0 ≡ some content)
  pub kept :
      replace ≡ false
      → (old : Bytes) → find_file name dir ≡ some old
      → (find_file name r.0 ≡ some old) × (r.1 ≢ ok tt)
  pub others : (k : String) → temp ≢ k → name ≢ k → find_file k r.0 ≡ find_file k dir

-- A write that failed before it was published.
failed-IsAtomicWrite :
    (temp name : String) (content : Bytes) (replace : Bool) (dir after : Directory) (x : SaveError)
    → temp ≢ name
    → ((k : String) → temp ≢ k → find_file k after ≡ find_file k dir)
    → IsAtomicWrite temp name content replace dir (after, err x)
failed-IsAtomicWrite temp name content replace dir after x other same = record {
  whole = inl (same name other, ground arith);
  kept = λ e old h. (same name other ∙ h, ground arith);
  others = λ k h g. same k h;
}

published-IsAtomicWrite :
    (temp name : String) (content : Bytes) (replace : Bool) (dir after : Directory)
    (r : Result SaveError (Unit {0}))
    → (replace ≡ false → find_file name dir ≡ none)
    → ((k : String)
        → temp ≢ k
        → find_file k after ≡ (if str_eq name k then some content else find_file k dir))
    → temp ≢ name
    → IsAtomicWrite temp name content replace dir (after, r)
published-IsAtomicWrite temp name content replace dir after r new same other = record {
  whole = inr (ground (arith, same name other, eq_iff name name));
  kept = λ e old h. absurd (ground (arith, new e, h));
  others = λ k h g. ground (arith, same k h, eq_iff name k, g);
}

find_file-staged :
    (k temp : String) (content : Bytes) (dir : Directory)
    → temp ≢ k
    → find_file k (put_file temp content dir) ≡ find_file k dir
find_file-staged k temp content dir h =
    ground (arith, find_file-put_file k temp content dir, eq_iff temp k, h)

-- The temporary file is written; what publishing leaves.
publish-IsAtomicWrite :
    (f : SaveFaults) (temp name : String) (content : Bytes) (replace : Bool) (dir : Directory)
    → temp ≢ name
    → IsAtomicWrite temp name content replace dir
        (publish f temp name content replace (put_file temp content dir))
unfolding publish
publish-IsAtomicWrite f temp name content replace dir other =
    let staged = put_file temp content dir in
    let left : (k : String) → temp ≢ k → find_file k (clean_up f temp staged) ≡ find_file k dir =
      λ k h. find_file-clean_up f k temp staged h ∙ find_file-staged k temp content dir h in
    elim (Bool-cases f.link_fails) [
      | inl t ↦
          let e : (clean_up f temp staged, err publish_failed)
              ≡ publish f temp name content replace staged =
            ground (arith, t) in
          subst (IsAtomicWrite temp name content replace dir) e (
            failed-IsAtomicWrite temp name content replace dir (clean_up f temp staged)
              publish_failed other left)
      | inr no_fault ↦ elim (Bool-cases replace) [
        | inl t ↦
            let target = put_file name content (remove_file temp staged) in
            let e : (clean_up f temp target, synced f)
                ≡ publish f temp name content replace staged =
              ground (arith, no_fault, t) in
            subst (IsAtomicWrite temp name content replace dir) e (
              published-IsAtomicWrite temp name content replace dir (clean_up f temp target)
                (synced f) (λ q. absurd (ground (arith, q, t)))
                (λ k h. ground (
                  arith,
                  find_file-clean_up f k temp target h,
                  find_file-put_file k name content (remove_file temp staged),
                  find_file-remove_file k temp staged,
                  eq_iff temp k,
                  find_file-staged k temp content dir h,
                  h,
                ))
                other)
        | inr keep ↦ elim (Option-cases (find_file name staged)) [
          | inr (old, there) ↦
              let e : (clean_up f temp staged, err already_exists)
                  ≡ publish f temp name content replace staged =
                ground (arith, no_fault, keep, there) in
              subst (IsAtomicWrite temp name content replace dir) e (
                failed-IsAtomicWrite temp name content replace dir (clean_up f temp staged)
                  already_exists other left)
          | inl free ↦
              let target = put_file name content staged in
              let e : (clean_up f temp target, synced f)
                  ≡ publish f temp name content replace staged =
                ground (arith, no_fault, keep, free) in
              subst (IsAtomicWrite temp name content replace dir) e (
                published-IsAtomicWrite temp name content replace dir (clean_up f temp target)
                  (synced f) (λ q. sym (find_file-staged name temp content dir other) ∙ free)
                  (λ k h. ground (
                    arith,
                    find_file-clean_up f k temp target h,
                    find_file-put_file k name content staged,
                    find_file-staged k temp content dir h,
                  ))
                  other)
        ]
      ]
    ]

-- Whichever system call of writeAtomic fails, and at whatever byte the write stops: the named file is as it
-- was and the call failed, or the file has the whole new content. Without `replace` a file that was there
-- stays and the call fails. No other file but the temporary one changes.
pub write_atomic-IsAtomicWrite :
    (f : SaveFaults) (temp name : String) (content : Bytes) (replace : Bool) (dir : Directory)
    → temp ≢ name
    → IsAtomicWrite temp name content replace dir (write_atomic f temp name content replace dir)
unfolding write_atomic
write_atomic-IsAtomicWrite f temp name content replace dir other =
    elim (Bool-cases (f.create_fails || is_taken (find_file temp dir))) [
      | inl t ↦
          rw t (
            failed-IsAtomicWrite temp name content replace dir dir create_failed other
              (λ k h. refl))
      | inr ok_so_far ↦ elim (Option-cases f.written) [
        | inr (n, cut) ↦
            let staged = put_file temp (take n content) dir in
            rw (ok_so_far, cut)
              (failed-IsAtomicWrite temp name content replace dir (clean_up f temp staged)
                content_failed other
                (λ k h.
                  find_file-clean_up f k temp staged h
                  ∙ find_file-staged k temp (take n content) dir h))
        | inl whole ↦
            rw (ok_so_far, whole) (publish-IsAtomicWrite f temp name content replace dir other)
      ]
    ]
