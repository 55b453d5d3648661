-- ===== src/Plan/Ready.antt =====
-- readyStep of internal/engine/plan.go on plans that checkPlan accepts.
use go_agent_claw.Prelude.{
  ℕ, suc, ◌+◌, ◌≡◌, refl, sym, ap, subst, ◌∙◌, ◌⊎◌, inl, inr, true, false, some, List, [], ◌∷◌,
  String, arith, Bool-cases, &&-eq-true, str_eq, All, In, get_elem?, length, ok, ◌>>=◌, >>=-eq-ok,
}
use go_agent_claw.Plan.{
  PlanStep, Steps, Flags, lookup, index, visit, visit_each, check_plan, ids, done_map, is_done,
  all_done, find_ready, ready_step,
}
use go_agent_claw.Plan.Index.{
  flags, index-IsKeyed, lookup-id, index-lookup, lookup-In_plan, done_map-flags, is_done-flags,
}
use go_agent_claw.Plan.Search.{IsOrdered, finished, visit_each-IsOrdered}

-- A plan that checkPlan accepts, seen from outside: its map, and an order of its ids.
pub record Accepted (steps : List PlanStep) : Type 0 where
  pub by_id : Steps
  pub order : List String
  pub indexed : index steps [] ≡ ok by_id
  pub ordered : IsOrdered by_id order
  pub covered : All (λ k. In k order) (ids steps)

-- An accepted plan has distinct ids and an order of them in which each step comes behind all that it
-- depends on: its dependencies are known and have no cycle.
pub check_plan-Accepted : (steps : List PlanStep) → check_plan steps ≡ ok tt → Accepted steps
unfolding check_plan
check_plan-Accepted steps h =
    let (m, e, rest) =
      >>=-eq-ok (index steps [])
        (λ m. visit_each (visit (length steps + 1) m) (ids steps) [] >>= λ _. ok tt)
        (ground arith) in
    let (after, v, _) =
      >>=-eq-ok (visit_each (visit (length steps + 1) m) (ids steps) []) (λ _. ok tt) rest in
    let (o, all) = visit_each-IsOrdered (length steps + 1) m (ids steps) v in
    record { by_id = m; order = finished after; indexed = e; ordered = o; covered = all }

In-ids : (steps : List PlanStep) (s : PlanStep) → In s steps → In s.id (ids steps)
In-ids [] s i = i
In-ids (x ∷ steps) s (inl e) = inl (ap (λ (y : PlanStep). y.id) e)
In-ids (x ∷ steps) s (inr i) = inr (In-ids steps s i)

All-In : (P : String → Type 0) (ks : List String) (k : String) → All P ks → In k ks → P k
All-In P [] k a i = absurd i
All-In P (x ∷ ks) k a (inl e) = subst P (sym e) a.0
All-In P (x ∷ ks) k a (inr i) = All-In P ks k a.1 i

All-All-In :
    (P : String → Type 0) (ds ks : List String) → All (λ d. In d ks) ds → All P ks → All P ds
All-All-In P [] ks i a = tt
All-All-In P (d ∷ ds) ks i a = (All-In P ks d a i.0, All-All-In P ds ks i.1 a)

-- Either an order is finished, or it has a step that is not, with all its dependencies finished.
oldest_open :
    (m : Steps) (order : List String)
    → IsOrdered m order
    → All (λ k. is_done k (flags m) ≡ true) order
      ⊎ ((s : PlanStep) × (k : String) × (lookup k m ≡ some s)
          × (s.done ≡ false)
          × All (λ d. is_done d (flags m) ≡ true) s.depends_on)
oldest_open m [] o = inl tt
oldest_open m (k ∷ older) o = elim (oldest_open m older o.1) [
  | inr found ↦ inr found
  | inl all ↦
      let (s, l, deps) = o.0 in
      elim (Bool-cases s.done) [
        | inl t ↦ inl (is_done-flags k m l ∙ t, all)
        | inr f ↦
            inr
              (s, k, l, f, All-All-In (λ d. is_done d (flags m) ≡ true) s.depends_on older deps all)
      ]
]

all_done-All :
    (ds : List String) (m : Flags) → All (λ d. is_done d m ≡ true) ds → all_done ds m ≡ true
unfolding all_done
all_done-All [] m a = refl
all_done-All (d ∷ ds) m a = ground (arith, a.0, all_done-All ds m a.1)

-- The scan stops at the latest at a step that is ready.
find_ready_stops :
    (m : Flags) (i : ℕ) (steps : List PlanStep) (s : PlanStep)
    → In s steps
    → s.done ≡ false
    → all_done s.depends_on m ≡ true
    → (j : ℕ) × (find_ready m i steps ≡ some j)
unfolding find_ready
find_ready_stops m i [] s k d a = absurd k
find_ready_stops m i (x ∷ steps) s (inl e) d a = (i, ground arith)
find_ready_stops m i (x ∷ steps) s (inr k) d a =
    let (j, later) = find_ready_stops m (i + 1) steps s k d a in
    elim (Bool-cases x.done) [
      | inl t ↦ (j, ground (arith, t, later))
      | inr f ↦ elim (Bool-cases (all_done x.depends_on m)) [
        | inl r ↦ (i, ground (arith, f, r))
        | inr w ↦ (j, ground (arith, f, w, later))
      ]
    ]

pub ready_step_stops :
    (steps : List PlanStep) (s : PlanStep)
    → Accepted steps
    → In s steps
    → s.done ≡ false
    → (i : ℕ) × (ready_step steps ≡ some i)
unfolding ready_step
ready_step_stops steps s a i d = elim (oldest_open a.by_id a.order a.ordered) [
  | inl all ↦
      let is : is_done s.id (flags a.by_id) ≡ s.done =
        is_done-flags s.id a.by_id (index-lookup steps [] a.indexed i) in
      let was : is_done s.id (flags a.by_id) ≡ true =
        All-In (λ k. is_done k (flags a.by_id) ≡ true) a.order s.id all
          (All-In (λ k. In k a.order) (ids steps) s.id a.covered (In-ids steps s i)) in
      absurd (cc)
  | inr (x, k, l, fresh, deps) ↦
      find_ready_stops (done_map steps []) 0 steps x (lookup-In_plan steps k a.indexed l) fresh
        (rw (done_map-flags steps [] a.indexed) (all_done-All x.depends_on (flags a.by_id) deps))
]

abbrev ReadyAt : Flags → ℕ → List PlanStep → ℕ → Type 0
ReadyAt m i steps j =
    (k : ℕ) × (s : PlanStep) × (j ≡ i + k)
    × (get_elem? steps k ≡ some s)
    × (s.done ≡ false)
    × (all_done s.depends_on m ≡ true)

ReadyAt-cons :
    (m : Flags) (i : ℕ) (x : PlanStep) (steps : List PlanStep) (j : ℕ)
    → ReadyAt m (i + 1) steps j
    → ReadyAt m i (x ∷ steps) j
ReadyAt-cons m i x steps j (k, s, e, at, d, a) = (suc k, s, omega arith, at, d, a)

find_ready_sound :
    (m : Flags) (i : ℕ) (steps : List PlanStep) (j : ℕ)
    → find_ready m i steps ≡ some j
    → ReadyAt m i steps j
unfolding find_ready
find_ready_sound m i [] j h = absurd (ground arith)
find_ready_sound m i (x ∷ steps) j h = elim (Bool-cases x.done) [
  | inl t ↦ ReadyAt-cons m i x steps j (find_ready_sound m (i + 1) steps j (ground (arith, t)))
  | inr f ↦ elim (Bool-cases (all_done x.depends_on m)) [
    | inl r ↦ (0, x, ground (arith, f, r), refl, f, r)
    | inr w ↦ ReadyAt-cons m i x steps j (find_ready_sound m (i + 1) steps j (ground (arith, f, w)))
  ]
]

is_done-lookup :
    (k : String) (m : Steps)
    → is_done k (flags m) ≡ true
    → (s : PlanStep) × (lookup k m ≡ some s) × (s.done ≡ true)
unfolding is_done lookup
is_done-lookup k [] h = absurd (ground arith)
is_done-lookup k ((j, x) ∷ m) h = elim (Bool-cases (str_eq j k)) [
  | inl t ↦ (x, ground (arith, t), ground (arith, t))
  | inr f ↦ let (s, l, d) = is_done-lookup k m (ground (arith, f)) in (s, ground (arith, f, l), d)
]

-- A dependency that is met: the plan has a step of this id, and it is done.
abbrev pub IsMet : List PlanStep → String → Type 0
IsMet steps d = (t : PlanStep) × In t steps × (t.id ≡ d) × (t.done ≡ true)

all_done-IsMet :
    (steps : List PlanStep) (a : Accepted steps) (ds : List String)
    → all_done ds (flags a.by_id) ≡ true
    → All (IsMet steps) ds
unfolding all_done
all_done-IsMet steps a [] h = tt
all_done-IsMet steps a (d ∷ ds) h =
    let (t, l, done) = is_done-lookup d a.by_id (&&-eq-true _ _ h).0 in
    (
      (
        t,
        lookup-In_plan steps d a.indexed l,
        lookup-id d a.by_id (index-IsKeyed steps [] a.indexed tt) l,
        done,
      ),
      all_done-IsMet steps a ds (&&-eq-true _ _ h).1,
    )

pub ready_step_sound :
    (steps : List PlanStep) (i : ℕ)
    → Accepted steps
    → ready_step steps ≡ some i
    → (s : PlanStep) × (get_elem? steps i ≡ some s)
      × (s.done ≡ false)
      × All (IsMet steps) s.depends_on
unfolding ready_step
ready_step_sound steps i a h =
    let (k, s, e, at, d, all) = find_ready_sound (done_map steps []) 0 steps i h in
    let same : i ≡ k = omega arith in
    (
      s,
      subst (λ n. get_elem? steps n ≡ some s) (sym same) at,
      d,
      all_done-IsMet steps a s.depends_on (
          subst (λ (m : Flags). all_done s.depends_on m ≡ true) (done_map-flags steps [] a.indexed)
            all),
    )

-- readyStep on a plan that checkPlan accepts: the step it picks is not done, and each id that it
-- depends on is the id of a step of the plan that is done; and while any step is not done it picks one,
-- so an accepted plan never deadlocks.
pub ready_step_lem :
    (steps : List PlanStep)
    → check_plan steps ≡ ok tt
    → ((i : ℕ)
        → ready_step steps ≡ some i
        → (s : PlanStep) × (get_elem? steps i ≡ some s)
          × (s.done ≡ false)
          × All (IsMet steps) s.depends_on)
      × ((s : PlanStep) → In s steps → s.done ≡ false → (i : ℕ) × (ready_step steps ≡ some i))
ready_step_lem steps h = (
  λ i. ready_step_sound steps i (check_plan-Accepted steps h),
  λ s. ready_step_stops steps s (check_plan-Accepted steps h),
)
