-- ===== src/Catalog/Removal.antt =====
-- What removing the reads of a file leaves, in internal/engine/read_catalog.go.
use go_agent_claw.Prelude.{
  ℕ, ◌-◌, ◌≤◌, ◌≡◌, refl, ◌⊎◌, inl, inr, true, ◌||◌, List, [], ◌∷◌, ◌++◌, String, arith, Bool-cases,
  ltb, length, zero, suc, drop, length-drop, eq_iff,
}
use go_agent_claw.Coverage.{ReadReceipt}
use go_agent_claw.Catalog.{
  Invalidation, is_for, is_listed, newest, add_invalidation, drop_invalidation, is_gone, matches,
  list_removed, list_all, read_context_entries,
}

is_listed-append :
    (p v : String) (xs ys : List Invalidation)
    → is_listed p v (xs ++ ys) ≡ (is_listed p v xs || is_listed p v ys)
unfolding is_listed
is_listed-append p v [] ys = refl
is_listed-append p v (x ∷ xs) ys = ground (arith, is_listed-append p v xs ys)

is_listed-drop :
    (p v : String) (n : ℕ) (xs : List Invalidation)
    → is_listed p v (drop n xs) ≡ true
    → is_listed p v xs ≡ true
unfolding is_listed
is_listed-drop p v zero xs h = h
is_listed-drop p v (suc n) [] h = cc
is_listed-drop p v (suc n) (x ∷ xs) h = ground (arith, is_listed-drop p v n xs h)

is_listed-newest :
    (p v : String) (xs : List Invalidation)
    → is_listed p v (newest xs) ≡ true
    → is_listed p v xs ≡ true
is_listed-newest p v xs h = elim (Bool-cases (ltb read_context_entries (length xs))) [
  | inl e ↦ is_listed-drop p v (length xs - read_context_entries) xs (rw e at h)
  | inr e ↦ rw e at h
]

pub is_listed-add_invalidation :
    (p v p' v' : String) (items : List Invalidation)
    → is_listed p v (add_invalidation p' v' items) ≡ true
    → (is_listed p v items ≡ true) ⊎ ((p' ≡ p) × (v' ≡ v))
unfolding add_invalidation
is_listed-add_invalidation p v p' v' items h = elim (Bool-cases (is_listed p' v' items)) [
  | inl e ↦ inl (rw e at h)
  | inr e ↦
      let longer =
        is_listed-newest p v (items ++ record { path = p'; version = v' } ∷ []) (rw e at h) in
      ground (
        arith,
        longer,
        is_listed-append p v items (record { path = p'; version = v' } ∷ []),
        eq_iff p' p,
        eq_iff v' v,
        is_listed,
      )
]

newest-length : (xs : List Invalidation) → length (newest xs) ≤ read_context_entries
newest-length xs = elim (Bool-cases (ltb read_context_entries (length xs))) [
  | inl e ↦
      let size = length-drop (length xs - read_context_entries) xs in rw (e, size) (omega arith)
  | inr e ↦ rw e (ground (arith, e))
]

pub add_invalidation-length :
    (p v : String) (items : List Invalidation)
    → length items ≤ read_context_entries
    → length (add_invalidation p v items) ≤ read_context_entries
unfolding add_invalidation
add_invalidation-length p v items h = elim (Bool-cases (is_listed p v items)) [
  | inl e ↦ rw e h
  | inr e ↦ rw e (newest-length (items ++ record { path = p; version = v } ∷ []))
]

-- What is listed after a removal was listed, or is gone.
pub is_listed-list_removed :
    (p v path version : String) (reads : List ReadReceipt) (items : List Invalidation)
    → is_listed p v (list_removed path version reads items) ≡ true
    → (is_listed p v items ≡ true) ⊎ (is_gone path version p v ≡ true)
unfolding list_removed matches
is_listed-list_removed p v path version [] items h = inl h
is_listed-list_removed p v path version (read ∷ reads) items h =
    elim (Bool-cases (matches path version read)) [
      | inl e ↦
          let later =
            is_listed-list_removed p v path version reads
              (add_invalidation read.path read.version items) (rw (e, list_removed) at h) in
          elim later [
            | inr gone ↦ inr gone
            | inl listed ↦
                elim (is_listed-add_invalidation p v read.path read.version items listed) [
                  | inl before ↦ inl before
                  | inr same ↦ inr (ground (arith, same, e, is_gone))
                ]
          ]
      | inr e ↦ is_listed-list_removed p v path version reads items (rw (e, list_removed) at h)
    ]

pub list_removed-length :
    (path version : String) (reads : List ReadReceipt) (items : List Invalidation)
    → length items ≤ read_context_entries
    → length (list_removed path version reads items) ≤ read_context_entries
unfolding list_removed
list_removed-length path version [] items h = h
list_removed-length path version (read ∷ reads) items h =
    elim (Bool-cases (matches path version read)) [
      | inl e ↦ rw e (
          list_removed-length path version reads _
            (add_invalidation-length read.path read.version items h))
      | inr e ↦ rw e (list_removed-length path version reads items h)
    ]

pub list_all-length :
    (reads : List ReadReceipt) (items : List Invalidation)
    → length items ≤ read_context_entries
    → length (list_all reads items) ≤ read_context_entries
unfolding list_all
list_all-length [] items h = h
list_all-length (read ∷ reads) items h =
    list_all-length reads _ (add_invalidation-length read.path read.version items h)

pub drop_invalidation-length :
    (p v : String) (items : List Invalidation) → length (drop_invalidation p v items) ≤ length items
unfolding drop_invalidation
drop_invalidation-length p v [] = omega arith
drop_invalidation-length p v (x ∷ items) = ground (arith, drop_invalidation-length p v items)

-- A pair that is dropped is not listed, and no other pair becomes listed.
pub is_listed-drop_invalidation :
    (p v p' v' : String) (items : List Invalidation)
    → is_listed p v (drop_invalidation p' v' items) ≡ true
    → (is_listed p v items ≡ true) × (((p ≡ p') × (v ≡ v')) → ⊥)
unfolding drop_invalidation is_listed
is_listed-drop_invalidation p v p' v' [] h = cc
is_listed-drop_invalidation p v p' v' (x ∷ items) h = elim (Bool-cases (is_for p' v' x)) [
  | inl e ↦
      let (before, other) =
        is_listed-drop_invalidation p v p' v' items (rw (e, drop_invalidation) at h) in
      (ground (arith, before), other)
  | inr e ↦ elim (Bool-cases (is_for p v x)) [
    | inl here ↦ (ground (arith, here), λ same. ground (arith, same, here, e))
    | inr f ↦
        let later : is_listed p v (drop_invalidation p' v' items) ≡ true =
          ground (arith, e, f, h) in
        let (before, other) = is_listed-drop_invalidation p v p' v' items later in
        (ground (arith, before), other)
  ]
]
