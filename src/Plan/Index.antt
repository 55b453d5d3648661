-- ===== src/Plan/Index.antt =====
-- What the first loop of checkPlan in internal/engine/plan.go builds: the map from ids to steps.
use go_agent_claw.Prelude.{
  ◌≡◌, refl, sym, subst, ap, ◌⊎◌, inl, inr, true, none, some, List, [], ◌∷◌, String, arith,
  Bool-cases, In, ok, str_eq, eq_iff,
}
use go_agent_claw.Plan.{PlanStep, Steps, Flags, lookup, is_well_formed, index, done_map, is_done}

-- Every entry stands under its own id.
abbrev pub IsKeyed : Steps → Type 0
IsKeyed [] = Unit {0}
IsKeyed ((k, s) ∷ m) = (k ≡ s.id) × IsKeyed m

pub lookup-id : (k : String) (m : Steps) {s : PlanStep} → IsKeyed m → lookup k m ≡ some s → s.id ≡ k
unfolding lookup
lookup-id k [] w h = cc
lookup-id k ((j, s) ∷ m) {s = x} w h = ground (arith, eq_iff j k, lookup-id k m {s = x} w.1)

-- One round of the loop that goes on.
pub index-cons :
    (s : PlanStep) (ss : List PlanStep) (m : Steps) {r : Steps}
    → index (s ∷ ss) m ≡ ok r
    → (is_well_formed s ≡ true) × (lookup s.id m ≡ none) × (index ss ((s.id, s) ∷ m) ≡ ok r)
unfolding index
index-cons s ss m h = ground arith

pub index-IsKeyed :
    (ss : List PlanStep) (m : Steps) {r : Steps} → index ss m ≡ ok r → IsKeyed m → IsKeyed r
unfolding index
index-IsKeyed [] m h k = subst IsKeyed (ground arith) k
index-IsKeyed (s ∷ ss) m h k = index-IsKeyed ss ((s.id, s) ∷ m) (index-cons s ss m h).2 (refl, k)

-- An entry stays as long as the loop succeeds: a second one under its id would be an error.
pub index-lookup_old :
    (ss : List PlanStep) (m : Steps) {r : Steps} (k : String) {s : PlanStep}
    → index ss m ≡ ok r
    → lookup k m ≡ some s
    → lookup k r ≡ some s
unfolding index lookup
index-lookup_old [] m k h l = ground arith
index-lookup_old (x ∷ ss) m {r} k {s} h l =
    let (_, fresh, rest) = index-cons x ss m h in
    index-lookup_old ss ((x.id, x) ∷ m) k rest (ground (arith, eq_iff x.id k))

-- Each step of the plan is found under its id.
pub index-lookup :
    (ss : List PlanStep) (m : Steps) {r : Steps} {s : PlanStep}
    → index ss m ≡ ok r
    → In s ss
    → lookup s.id r ≡ some s
unfolding lookup
index-lookup [] m h i = absurd i
index-lookup (x ∷ ss) m {r} {s} h (inl e) =
    subst (λ (y : PlanStep). lookup y.id r ≡ some y) (sym e)
      (index-lookup_old ss ((x.id, x) ∷ m) x.id (index-cons x ss m h).2
        (ground (arith, eq_iff x.id x.id)))
index-lookup (x ∷ ss) m h (inr i) = index-lookup ss ((x.id, x) ∷ m) (index-cons x ss m h).2 i

-- And nothing else is: what is found is a step of the plan.
lookup-In :
    (ss : List PlanStep) (m : Steps) {r : Steps} (k : String) {s : PlanStep}
    → index ss m ≡ ok r
    → lookup k r ≡ some s
    → (lookup k m ≡ some s) ⊎ In s ss
unfolding index lookup
lookup-In [] m k h l = inl (ground arith)
lookup-In (x ∷ ss) m {r} k {s} h l =
    elim (lookup-In ss ((x.id, x) ∷ m) k (index-cons x ss m h).2 l) [
      | inr i ↦ inr (inr i)
      | inl e ↦ elim (Bool-cases (str_eq x.id k)) [
        | inl t ↦ inr (inl (ground (arith, e, t)))
        | inr f ↦ inl (ground (arith, e, f))
      ]
    ]

pub lookup-In_plan :
    (ss : List PlanStep) {r : Steps} (k : String) {s : PlanStep}
    → index ss [] ≡ ok r
    → lookup k r ≡ some s
    → In s ss
unfolding lookup
lookup-In_plan ss k h l = elim (lookup-In ss [] k h l) [
  | inl e ↦ absurd (ground (arith, e))
  | inr i ↦ i
]

abbrev pub flags : Steps → Flags
flags [] = []
flags ((k, s) ∷ m) = (k, s.done) ∷ flags m

-- The map of finished steps in readyStep has the entries of this one.
pub done_map-flags :
    (ss : List PlanStep) (m : Steps) {r : Steps}
    → index ss m ≡ ok r
    → done_map ss (flags m) ≡ flags r
unfolding done_map index
done_map-flags [] m h = ap flags (ground arith)
done_map-flags (s ∷ ss) m h = done_map-flags ss ((s.id, s) ∷ m) (index-cons s ss m h).2

pub is_done-flags :
    (k : String) (m : Steps) {s : PlanStep} → lookup k m ≡ some s → is_done k (flags m) ≡ s.done
unfolding is_done lookup
is_done-flags k [] h = cc
is_done-flags k ((j, x) ∷ m) {s} h = ground (arith, is_done-flags k m {s = s})
