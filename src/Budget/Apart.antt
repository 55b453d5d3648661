-- ===== src/Budget/Apart.antt =====
-- What it means that the subtasks of internal/engine/delegation.go share no path, without the tests of the code.
use go_agent_claw.Prelude.{
  ℕ, ◌≡◌, ◌≢◌, refl, sym, ap, subst, ◌∙◌, ◌⊎◌, inl, inr, true, false, none, List, [], ◌∷◌, ◌++◌,
  String, arith, Bool-cases, codes, eq_iff, length, drop, In, append_assoc,
}
use go_agent_claw.Budget.{
  Subtask, RunState, Moment, Call, find_subtask, has_prefix, is_related, any_related,
  paths_intersect, overlaps_any, run,
}
use go_agent_claw.Budget.Invariant.{entries}
use go_agent_claw.Budget.Prefix.{has_prefix-append, has_prefix-drop}
use go_agent_claw.Budget.Separate.{AreSeparate, run-keeps_IsSeparate}

-- The path `p` continues `q` behind a slash.
abbrev pub LiesIn : String → String → Type 0
LiesIn p q = (rest : List ℕ) × (codes p ≡ codes q ++ b'/' ∷ rest)

-- Neither path is the root, they differ, and neither lies in the other.
pub record IsApart (p q : String) : Type 0 where
  pub left_proper : p ≢ "."
  pub right_proper : q ≢ "."
  pub distinct : p ≢ q
  pub outside : ¬ LiesIn p q
  pub around : ¬ LiesIn q p

LiesIn-has_prefix : (p q : String) → LiesIn p q → has_prefix (codes p) (codes q ++ b'/' ∷ []) ≡ true
LiesIn-has_prefix p q (rest, same) =
    let longer : codes p ≡ (codes q ++ b'/' ∷ []) ++ rest =
      same ∙ sym (append_assoc (codes q) (b'/' ∷ []) rest) in
    subst (λ t. has_prefix t (codes q ++ b'/' ∷ []) ≡ true) (sym longer)
      (has_prefix-append (codes q ++ b'/' ∷ []) rest)

has_prefix-LiesIn : (p q : String) → has_prefix (codes p) (codes q ++ b'/' ∷ []) ≡ true → LiesIn p q
has_prefix-LiesIn p q h = (
  drop (length (codes q ++ b'/' ∷ [])) (codes p),
  has_prefix-drop (codes p) (codes q ++ b'/' ∷ []) h ∙ append_assoc (codes q) (b'/' ∷ []) _,
)

is_related-IsApart : (p q : String) → is_related p q ≡ false → IsApart p q
unfolding is_related
is_related-IsApart p q h = record {
  left_proper = λ e. absurd (ground (arith, h, e, eq_iff p "."));
  right_proper = λ e. absurd (ground (arith, h, e, eq_iff q "."));
  distinct = λ e. absurd (ground (arith, h, e, eq_iff p q));
  outside = λ e. absurd (ground (arith, h, LiesIn-has_prefix p q e));
  around = λ e. absurd (ground (arith, h, LiesIn-has_prefix q p e));
}

IsApart-is_related : (p q : String) → IsApart p q → is_related p q ≡ false
unfolding is_related
IsApart-is_related p q a = elim (Bool-cases (is_related p q)) [
  | inr f ↦ f
  | inl t ↦
      let why : (p ≡ ".")
          ⊎ (q ≡ ".")
          ⊎ (p ≡ q)
          ⊎ (has_prefix (codes p) (codes q ++ b'/' ∷ []) ≡ true)
          ⊎ (has_prefix (codes q) (codes p ++ b'/' ∷ []) ≡ true) =
        ground (arith, t, eq_iff p ".", eq_iff q ".", eq_iff p q) in
      elim why [
        | inl e ↦ absurd (a.left_proper e)
        | inr (inl e) ↦ absurd (a.right_proper e)
        | inr (inr (inl e)) ↦ absurd (a.distinct e)
        | inr (inr (inr (inl e))) ↦ absurd (a.outside (has_prefix-LiesIn p q e))
        | inr (inr (inr (inr e))) ↦ absurd (a.around (has_prefix-LiesIn q p e))
      ]
]

-- Every path of one list is apart from every path of the other.
abbrev pub ArePathsApart : List String → List String → Type 0
ArePathsApart ps qs = (p q : String) → In p ps → In q qs → IsApart p q

any_related-IsApart :
    (p : String) (qs : List String)
    → any_related p qs ≡ false
    → (q : String) → In q qs
    → IsApart p q
unfolding any_related
any_related-IsApart p [] h q inside = absurd inside
any_related-IsApart p (x ∷ qs) h q (inl same) =
    subst (IsApart p) (sym same) (is_related-IsApart p x (ground (arith, h)))
any_related-IsApart p (x ∷ qs) h q (inr inside) =
    any_related-IsApart p qs (ground (arith, h)) q inside

IsApart-any_related :
    (p : String) (qs : List String)
    → ((q : String) → In q qs → IsApart p q)
    → any_related p qs ≡ false
unfolding any_related
IsApart-any_related p [] a = refl
IsApart-any_related p (x ∷ qs) a =
    let here = IsApart-is_related p x (a x (inl refl)) in
    let later = IsApart-any_related p qs (λ q inside. a q (inr inside)) in
    ground (arith, here, later)

paths_intersect-ArePathsApart :
    (ps qs : List String) → paths_intersect ps qs ≡ false → ArePathsApart ps qs
unfolding paths_intersect
paths_intersect-ArePathsApart [] qs h p q inside other = absurd inside
paths_intersect-ArePathsApart (x ∷ ps) qs h p q (inl same) other =
    subst (λ r. IsApart r q) (sym same) (any_related-IsApart x qs (ground (arith, h)) q other)
paths_intersect-ArePathsApart (x ∷ ps) qs h p q (inr inside) other =
    paths_intersect-ArePathsApart ps qs (ground (arith, h)) p q inside other

ArePathsApart-paths_intersect :
    (ps qs : List String) → ArePathsApart ps qs → paths_intersect ps qs ≡ false
unfolding paths_intersect
ArePathsApart-paths_intersect [] qs a = refl
ArePathsApart-paths_intersect (x ∷ ps) qs a =
    let here = IsApart-any_related x qs (λ q other. a x q (inl refl) other) in
    let later =
      ArePathsApart-paths_intersect ps qs (λ p q inside other. a p q (inr inside) other) in
    ground (arith, here, later)

-- A subtask has another identity than each of the others, and its paths are apart from theirs.
abbrev pub StandsApart : String → List String → List (String × Subtask) → Type 0
StandsApart k paths m =
    (j : String) (s : Subtask) → In (j, s) m → (j ≢ k) × ArePathsApart paths s.paths

overlaps_any-StandsApart :
    (k : String) (paths : List String) (m : List (String × Subtask))
    → find_subtask k m ≡ none
    → overlaps_any paths m ≡ false
    → StandsApart k paths m
unfolding find_subtask overlaps_any
overlaps_any-StandsApart k paths [] f h j s inside = absurd inside
overlaps_any-StandsApart k paths ((i, x) ∷ m) f h j s (inl same) =
    let own : j ≡ i = ap (λ e. e.0) same in
    let its : x.paths ≡ s.paths = ap (λ e. e.1.paths) (sym same) in
    (
      λ q. absurd (ground (arith, f, own, q, eq_iff i k)),
      subst (ArePathsApart paths) its
          (paths_intersect-ArePathsApart paths x.paths (ground (arith, h))),
    )
overlaps_any-StandsApart k paths ((i, x) ∷ m) f h j s (inr inside) =
    overlaps_any-StandsApart k paths m (ground (arith, f)) (ground (arith, h)) j s inside

StandsApart-overlaps_any :
    (k : String) (paths : List String) (m : List (String × Subtask))
    → StandsApart k paths m
    → (find_subtask k m ≡ none) × (overlaps_any paths m ≡ false)
unfolding find_subtask overlaps_any
StandsApart-overlaps_any k paths [] a = (refl, refl)
StandsApart-overlaps_any k paths ((i, x) ∷ m) a =
    let (other, paths_apart) = a i x (inl refl) in
    let here = ArePathsApart-paths_intersect paths x.paths paths_apart in
    let later = StandsApart-overlaps_any k paths m (λ j s inside. a j s (inr inside)) in
    (ground (arith, other, later, eq_iff i k), ground (arith, here, later))

abbrev pub AreApart : List (String × Subtask) → Type 0
AreApart [] = Unit {0}
AreApart ((k, s) ∷ m) = StandsApart k s.paths m × AreApart m

AreSeparate-AreApart : (m : List (String × Subtask)) → AreSeparate m → AreApart m
AreSeparate-AreApart [] v = tt
AreSeparate-AreApart ((k, s) ∷ m) v =
    (overlaps_any-StandsApart k s.paths m v.0 v.1, AreSeparate-AreApart m v.2)

AreApart-AreSeparate : (m : List (String × Subtask)) → AreApart m → AreSeparate m
AreApart-AreSeparate [] a = tt
AreApart-AreSeparate ((k, s) ∷ m) a =
    let (missing, free) = StandsApart-overlaps_any k s.paths m a.0 in
    (missing, free, AreApart-AreSeparate m a.1)

-- Under the policy "auto", over any sequence of reservations, admissions and ends of subtasks, from a ledger
-- where this holds: no two subtasks of the ledger have the same identity, and no path of one is the root, is a path
-- of another, or continues one behind a slash.
pub run-AreApart :
    (r : RunState) (calls : List (Moment × Call))
    → r.state.policy ≡ "auto"
    → AreApart (entries r.state.delegation)
    → AreApart (entries (run r calls).state.delegation)
run-AreApart r calls auto a =
    let kept =
      run-keeps_IsSeparate r calls
        (record { auto = auto; separate = AreApart-AreSeparate (entries r.state.delegation) a }) in
    AreSeparate-AreApart (entries (run r calls).state.delegation) kept.separate
