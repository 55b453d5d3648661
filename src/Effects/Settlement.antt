-- ===== src/Effects/Settlement.antt =====
-- What reconcile of internal/engine/persistence.go leaves of each pending action.
use go_agent_claw.Prelude.{
  Option-cases, ◌≡◌, refl, sym, subst, ◌∙◌, ◌⊎◌, ◌≢◌, inl, inr, Bool, true, false, Option, none,
  some, List, [], ◌∷◌, String, arith, Bool-cases, if◌then◌else◌, str_eq, eq_iff, All, ok, err,
  Result-cases,
}
use go_agent_claw.Effects.{
  FileState, EffectReceipt, EffectState, PendingAction, effect_confirmed, set_effect,
  effect_receipt,
}
use go_agent_claw.Effects.Ledger.{find_effect, effects_of, set_effect-IsRecorded}
use go_agent_claw.Effects.Report.{find_pending}
use go_agent_claw.Effects.Reconcile.{
  Outcome, reconciled, storage_failed, delete_pending, untouched, settle, judge, reconcile,
}

find_pending-delete_pending :
    (id k : String) (pending : List (String × PendingAction))
    → find_pending id (delete_pending k pending)
      ≡ (if str_eq k id then none else find_pending id pending)
unfolding find_pending delete_pending
find_pending-delete_pending id k [] = ground (arith, Bool-cases (str_eq k id))
find_pending-delete_pending id k ((j, a) ∷ pending) = elim (Bool-cases (str_eq j k)) [
  | inl t ↦
      ground
        (arith, t, eq_iff j k, eq_iff j id, eq_iff k id, find_pending-delete_pending id k pending)
  | inr f ↦ elim (Bool-cases (str_eq j id)) [
    | inl t ↦ ground (arith, f, t, eq_iff j k, eq_iff j id, eq_iff k id)
    | inr g ↦ ground (arith, f, g, find_pending-delete_pending id k pending)
  ]
]

-- The receipt that the version found for an action calls for.
abbrev pub receipt_for : String → PendingAction → Bool → EffectReceipt
receipt_for id p is_expected =
    if is_expected then effect_receipt p "SUCCEEDED" effect_confirmed else untouched id p

-- One settled action: it is no longer pending and has its receipt; nothing else moves.
record IsSettled (id : String) (p : PendingAction) (b : Bool) (s after : EffectState) : Type 0 where
  effect : find_effect id (effects_of after) ≡ some (receipt_for id p b)
  left : find_pending id after.pending ≡ none
  other_effects :
      (k : String) → id ≢ k → find_effect k (effects_of after) ≡ find_effect k (effects_of s)
  other_pending : (k : String) → id ≢ k → find_pending k after.pending ≡ find_pending k s.pending

settle-IsSettled :
    (id : String) (p : PendingAction) (b : Bool) (s : EffectState)
    → p.id ≡ id
    → IsSettled id p b s (settle id p b s)
unfolding settle effect_receipt set_effect
settle-IsSettled id p true s same =
    let s' : EffectState = record s {
      pending = delete_pending id s.pending;
      completed = p.action_key ∷ s.completed;
    } in
    let r = effect_receipt p "SUCCEEDED" effect_confirmed in
    let v = set_effect-IsRecorded r s' in
    record {
      effect = subst (λ k. find_effect k (effects_of (set_effect r s')) ≡ some r) same v.own;
      left = ground (arith, find_pending-delete_pending id id s.pending, eq_iff id id);
      other_effects = λ k h. v.others k (ground (arith, same, eq_iff p.id k, h));
      other_pending =
          λ k h. ground (arith, find_pending-delete_pending k id s.pending, eq_iff id k, h);
    }
settle-IsSettled id p false s same =
    let s' : EffectState = record s { pending = delete_pending id s.pending } in
    let v = set_effect-IsRecorded (untouched id p) s' in
    record {
      effect = v.own;
      left = ground (arith, find_pending-delete_pending id id s.pending, eq_iff id id);
      other_effects = λ k h. v.others k (ground (arith, eq_iff id k, h));
      other_pending =
          λ k h. ground (arith, find_pending-delete_pending k id s.pending, eq_iff id k, h);
    }

judge-ne-reconciled :
    (version_of : String → Option String) (id : String) (p : PendingAction) {x : Outcome}
    → judge version_of id p ≡ err x
    → x ≢ reconciled
unfolding judge
judge-ne-reconciled version_of id p h = ground arith

-- What is not listed is not touched.
reconcile-unlisted :
    (version_of : String → Option String) (saves : String → Bool)
    (todo : List (String × PendingAction)) (s : EffectState) (k : String)
    → All (λ e. e.1.id ≡ e.0) todo
    → find_pending k todo ≡ none
    → (find_effect k (effects_of (reconcile version_of saves todo s).0)
        ≡ find_effect k (effects_of s))
      × (find_pending k (reconcile version_of saves todo s).0.pending ≡ find_pending k s.pending)
unfolding reconcile find_pending
reconcile-unlisted version_of saves [] s k keyed h = (refl, refl)
reconcile-unlisted version_of saves ((id, p) ∷ todo) s k keyed h =
    elim (Result-cases (judge version_of id p)) [
      | inl (x, e) ↦ (ground (arith, e), ground (arith, e))
      | inr (b, e) ↦
          let one = settle-IsSettled id p b s keyed.0 in
          let differ : id ≢ k = λ q. ground (arith, h, eq_iff id k, q) in
          let rest : find_pending k todo ≡ none = ground (arith, h, eq_iff id k, differ) in
          let later = reconcile-unlisted version_of saves todo (settle id p b s) k keyed.1 rest in
          (
            ground (arith, e, one.other_effects k differ, later.0),
            ground (arith, e, one.other_pending k differ, later.1),
          )
    ]

-- No action stands twice in the list.
abbrev pub AreDistinct : List (String × PendingAction) → Type 0
AreDistinct [] = Unit {0}
AreDistinct ((id, p) ∷ todo) = (find_pending id todo ≡ none) × AreDistinct todo

-- The file of the action has this version now: the expected one if `b`, else the one from before.
pub record IsObserved (version_of : String → Option String) (p : PendingAction) (b : Bool)
    : Type 0 where
  pub before : FileState
  pub expected : FileState
  pub version : String
  pub had : p.before ≡ some before
  pub wanted : p.expected ≡ some expected
  pub found : version_of before.path ≡ some version
  pub written : b ≡ true → version ≡ expected.version
  pub unwritten : b ≡ false → (version ≡ before.version) × (version ≢ expected.version)

judge-IsObserved :
    (version_of : String → Option String) (id : String) (p : PendingAction) {b : Bool}
    → judge version_of id p ≡ ok b
    → IsObserved version_of p b
unfolding judge
judge-IsObserved version_of id p h = elim (Option-cases p.before) [
  | inl e ↦ absurd (ground (arith, e, h))
  | inr (before, e) ↦ elim (Option-cases p.expected) [
    | inl f ↦ absurd (ground (arith, e, f, h))
    | inr (expected, f) ↦ elim (Option-cases (version_of before.path)) [
      | inl g ↦ absurd (ground (arith, e, f, g, h))
      | inr (version, g) ↦ record {
        before = before;
        expected = expected;
        version = version;
        had = e;
        wanted = f;
        found = g;
        written = λ t. ground (arith, e, f, g, h, t, eq_iff version expected.version);
        unwritten = λ t. (
          ground (arith, e, f, g, h, t, eq_iff version before.version),
          λ same. ground (arith, e, f, g, h, t, eq_iff version expected.version, same),
        );
      }
    ]
  ]
]

-- The receipt is the one that the version found calls for.
pub record WasSettled (version_of : String → Option String) (id : String) (p : PendingAction)
    (after : EffectState) : Type 0 where
  pub is_expected : Bool
  pub judged : IsObserved version_of p is_expected
  pub effect : find_effect id (effects_of after) ≡ some (receipt_for id p is_expected)
  pub left : find_pending id after.pending ≡ none

-- The action is as it was before.
pub record WasKept (id : String) (s after : EffectState) : Type 0 where
  pub effect : find_effect id (effects_of after) ≡ find_effect id (effects_of s)
  pub still : find_pending id after.pending ≡ find_pending id s.pending

-- Of one pending action, when the pass has ended.
abbrev pub Treated :
    (String → Option String) → String → PendingAction → EffectState → EffectState × Outcome → Type 0
Treated version_of k a s r = WasSettled version_of k a r.0 ⊎ ((r.1 ≢ reconciled) × WasKept k s r.0)

settled-Treated :
    (version_of : String → Option String) (id : String) (p : PendingAction) (b : Bool)
    (s : EffectState) (r : EffectState × Outcome) (k : String) (a : PendingAction)
    → p.id ≡ id
    → judge version_of id p ≡ ok b
    → WasKept id (settle id p b s) r.0
    → id ≡ k
    → p ≡ a
    → Treated version_of k a s r
settled-Treated version_of id p b s r k a keyed judged kept same_id same_action =
    let one = settle-IsSettled id p b s keyed in
    let here : WasSettled version_of id p r.0 = record {
      is_expected = b;
      judged = judge-IsObserved version_of id p judged;
      effect = kept.effect ∙ one.effect;
      left = kept.still ∙ one.left;
    } in
    inl (
      subst (λ q. WasSettled version_of k q r.0) same_action
        (subst (λ i. WasSettled version_of i p r.0) same_id here))

other-Treated :
    (version_of : String → Option String) (id : String) (p : PendingAction) (b : Bool)
    (s : EffectState) (r : EffectState × Outcome) (k : String) (a : PendingAction)
    → p.id ≡ id
    → id ≢ k
    → Treated version_of k a (settle id p b s) r
    → Treated version_of k a s r
other-Treated version_of id p b s r k a keyed differ (inl settled) = inl settled
other-Treated version_of id p b s r k a keyed differ (inr (fails, kept)) =
    let one = settle-IsSettled id p b s keyed in
    inr (
      fails,
      record {
        effect = kept.effect ∙ one.other_effects k differ;
        still = kept.still ∙ one.other_pending k differ;
      },
    )

-- On a list of distinct actions, each with its own id, whatever the files and the log do: every action is
-- either settled and no longer pending, with a receipt that says it was written if its file has the
-- expected version now, and that it had no effect if the file has the version from before; or the pass
-- did not end well, and the action's receipt and its place among the pending ones are as before.
pub reconcile-Treated :
    (version_of : String → Option String) (saves : String → Bool)
    (todo : List (String × PendingAction)) (s : EffectState) (k : String) (a : PendingAction)
    → All (λ e. e.1.id ≡ e.0) todo
    → AreDistinct todo
    → find_pending k todo ≡ some a
    → Treated version_of k a s (reconcile version_of saves todo s)
unfolding reconcile find_pending
reconcile-Treated version_of saves [] s k a keyed distinct h = cc
reconcile-Treated version_of saves ((id, p) ∷ todo) s k a keyed distinct h =
    elim (Result-cases (judge version_of id p)) [
      | inl (x, e) ↦
          let ends : reconcile version_of saves ((id, p) ∷ todo) s ≡ (s, x) = ground (arith, e) in
          subst (Treated version_of k a s) (sym ends)
            (inr (judge-ne-reconciled version_of id p e, record { effect = refl; still = refl }))
      | inr (b, e) ↦ elim (Bool-cases (saves id)) [
        | inl t ↦
            let later = reconcile version_of saves todo (settle id p b s) in
            let goes_on : reconcile version_of saves ((id, p) ∷ todo) s ≡ later =
              ground (arith, e, t) in
            subst (Treated version_of k a s) (sym goes_on) (elim (Bool-cases (str_eq id k)) [
              | inl here ↦
                  let kept =
                    reconcile-unlisted version_of saves todo (settle id p b s) id keyed.1
                      distinct.0 in
                  settled-Treated version_of id p b s later k a keyed.0 e
                    (record { effect = kept.0; still = kept.1 }) (ground (arith, here, eq_iff id k))
                    (ground (arith, here, h))
              | inr f ↦
                  other-Treated version_of id p b s later k a keyed.0
                    (ground (arith, f, eq_iff id k))
                    (reconcile-Treated version_of saves todo (settle id p b s) k a keyed.1
                      distinct.1 (ground (arith, f, h)))
            ])
        | inr t ↦
            let stops : reconcile version_of saves ((id, p) ∷ todo) s
                ≡ (settle id p b s, storage_failed) =
              ground (arith, e, t) in
            subst (Treated version_of k a s) (sym stops) (elim (Bool-cases (str_eq id k)) [
              | inl here ↦
                  settled-Treated version_of id p b s (settle id p b s, storage_failed) k a keyed.0
                    e (record { effect = refl; still = refl }) (ground (arith, here, eq_iff id k))
                    (ground (arith, here, h))
              | inr f ↦
                  other-Treated version_of id p b s (settle id p b s, storage_failed) k a keyed.0
                    (ground (arith, f, eq_iff id k))
                    (inr ((λ q. ground (arith, q)), record { effect = refl; still = refl }))
            ])
      ]
    ]
