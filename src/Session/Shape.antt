-- ===== src/Session/Shape.antt =====
-- The shape of a history that messageGroups of internal/context/compactor.go accepts, told without its
-- loops: a state of open calls runs over the messages.
use go_agent_claw.Prelude.{
  ℕ, zero, suc, ◌≡◌, refl, subst, ◌≢◌, inl, inr, true, false, ◌||◌, List, [], ◌∷◌, ◌++◌, String,
  arith, Bool-cases, drop, str_eq, eq_iff, ok,
}
use go_agent_claw.Session.{Message, ToolCall, is_user, has_id, delete_id, open_calls, calls_of}

-- With `pending` calls open, the messages answer them, open others, and leave none open.
abbrev pub Fits : List String → List Message → Type 0
Fits [] [] = Unit {0}
Fits (p ∷ ps) [] = ⊥
Fits [] (m ∷ ms) =
    (m.tool_call_id ≡ "")
    × ((opened : List String) × (open_calls (calls_of m) [] ≡ ok opened) × Fits opened ms)
Fits (p ∷ ps) (m ∷ ms) =
    (is_user m.role ≡ true)
    × (has_id m.tool_call_id (p ∷ ps) ≡ true)
    × Fits (delete_id m.tool_call_id (p ∷ ps)) ms

pub Fits-append :
    (ps : List String) (xs ys : List Message) → Fits ps xs → Fits [] ys → Fits ps (xs ++ ys)
Fits-append [] [] ys f g = g
Fits-append (p ∷ ps) [] ys f g = absurd f
Fits-append [] (x ∷ xs) ys (plain, (opened, opens, f)) g =
    (plain, (opened, opens, Fits-append opened xs ys f g))
Fits-append (p ∷ ps) (x ∷ xs) ys (by_user, open_id, f) g =
    (by_user, open_id, Fits-append (delete_id x.tool_call_id (p ∷ ps)) xs ys f g)

-- No open call has an empty id.
abbrev pub AreNamed : List String → Type 0
AreNamed [] = Unit {0}
AreNamed (p ∷ ps) = (p ≢ "") × AreNamed ps

open_calls-AreNamed :
    (cs : List ToolCall) (pending : List String) {opened : List String}
    → open_calls cs pending ≡ ok opened
    → AreNamed pending
    → AreNamed opened
unfolding open_calls
open_calls-AreNamed [] pending h v = let same : pending ≡ _ = ground arith in subst AreNamed same v
open_calls-AreNamed (c ∷ cs) pending h v =
    elim (Bool-cases (str_eq c.id "" || has_id c.id pending)) [
      | inl t ↦ absurd (ground (arith, t))
      | inr f ↦
          open_calls-AreNamed cs (c.id ∷ pending) (ground (arith, f))
            ((λ e. ground (arith, eq_iff c.id "", f, e)), v)
    ]

delete_id-AreNamed : (k : String) (ps : List String) → AreNamed ps → AreNamed (delete_id k ps)
unfolding delete_id
delete_id-AreNamed k [] v = tt
delete_id-AreNamed k (p ∷ ps) v = elim (Bool-cases (str_eq p k)) [
  | inl t ↦ rw (t, delete_id) v.1
  | inr f ↦ rw (f, delete_id) (v.0, delete_id-AreNamed k ps v.1)
]

has_id-empty : (ps : List String) → AreNamed ps → has_id "" ps ≡ false
unfolding has_id
has_id-empty [] v = refl
has_id-empty (p ∷ ps) v = ground (arith, eq_iff p "", v.0, has_id-empty ps v.1)

-- A message that answers no call can only stand where no call is open: what starts there fits alone.
pub Fits-boundary :
    (ps : List String) (n : ℕ) (msgs : List Message) {m : Message} {rest : List Message}
    → AreNamed ps
    → Fits ps msgs
    → drop n msgs ≡ m ∷ rest
    → m.tool_call_id ≡ ""
    → Fits [] (m ∷ rest)
Fits-boundary [] zero [] v f d e = absurd (ground arith)
Fits-boundary (p ∷ ps) zero [] v f d e = absurd f
Fits-boundary [] zero (x ∷ ms) v f d e = subst (Fits []) d f
Fits-boundary (p ∷ ps) zero (x ∷ ms) v f d e = absurd (ground (arith, has_id-empty (p ∷ ps) v))
Fits-boundary [] (suc n) [] v f d e = absurd (ground arith)
Fits-boundary (p ∷ ps) (suc n) [] v f d e = absurd f
Fits-boundary [] (suc n) (x ∷ ms) v f d e =
    let (opened, o, rest_fits) = f.1 in
    Fits-boundary opened n ms (open_calls-AreNamed (calls_of x) [] o tt) rest_fits d e
Fits-boundary (p ∷ ps) (suc n) (x ∷ ms) v f d e =
    Fits-boundary (delete_id x.tool_call_id (p ∷ ps)) n ms
      (delete_id-AreNamed x.tool_call_id (p ∷ ps) v) f.2 d e
