-- ===== src/Session/Paired.antt =====
-- The histories that messageGroups of internal/context/compactor.go accepts, without its tests.
use go_agent_claw.Prelude.{
  ◌≡◌, ◌≢◌, refl, sym, ap, subst, ◌⊎◌, inl, inr, true, ◌||◌, List, [], ◌∷◌, String, arith,
  Bool-cases, In, length, str_eq, eq_iff, ok, err,
}
use go_agent_claw.Session.{
  Message, ToolCall, Role, user, is_user, has_id, delete_id, open_calls, calls_of, Group,
  message_groups, out_of_fuel,
}
use go_agent_claw.Session.Shape.{Fits}
use go_agent_claw.Session.Groups.{Covers, message_groups-Fits}

-- No id of the batch is empty, or one of `earlier` or of those before it in the batch.
abbrev pub AreOwn : List ToolCall → List String → Type 0
AreOwn [] earlier = Unit {0}
AreOwn (c ∷ calls) earlier = (c.id ≢ "") × (¬ In c.id earlier) × AreOwn calls (c.id ∷ earlier)

-- The ids of the batch, the last one first, before `earlier`.
abbrev pub ids_onto : List ToolCall → List String → List String
ids_onto [] earlier = earlier
ids_onto (c ∷ calls) earlier = ids_onto calls (c.id ∷ earlier)

-- `rest` is `ids` without its first `k`.
abbrev pub IsWithout : String → List String → List String → Type 0
IsWithout k [] rest = ⊥
IsWithout k (j ∷ ids) rest =
    ((j ≡ k) × (rest ≡ ids))
    ⊎ ((j ≢ k) × ((others : List String) × (rest ≡ j ∷ others) × IsWithout k ids others))

-- The messages first have one result of the user's side for each id in `ids`, in any order; every other message
-- has no call's id, and where it has calls, their ids are their own and their results follow at once.
abbrev pub IsPaired : List String → List Message → Type 0
IsPaired [] [] = Unit {0}
IsPaired (k ∷ ids) [] = ⊥
IsPaired [] (m ∷ msgs) =
    (m.tool_call_id ≡ "") × AreOwn (calls_of m) [] × IsPaired (ids_onto (calls_of m) []) msgs
IsPaired (k ∷ ids) (m ∷ msgs) =
    (m.role ≡ user)
    × ((rest : List String) × IsWithout m.tool_call_id (k ∷ ids) rest × IsPaired rest msgs)

has_id-In : (k : String) (ids : List String) → has_id k ids ≡ true → In k ids
unfolding has_id
has_id-In k [] h = absurd (ground (arith, h))
has_id-In k (j ∷ ids) h = elim (Bool-cases (str_eq j k)) [
  | inl e ↦ inl (sym ((eq_iff j k).0 e))
  | inr e ↦ inr (has_id-In k ids (ground (arith, e, h)))
]

In-has_id : (k : String) (ids : List String) → In k ids → has_id k ids ≡ true
unfolding has_id
In-has_id k [] h = absurd h
In-has_id k (j ∷ ids) (inl same) = ground (arith, same, eq_iff j k)
In-has_id k (j ∷ ids) (inr inside) = ground (arith, In-has_id k ids inside)

open_calls-AreOwn :
    (calls : List ToolCall) (earlier : List String) {opened : List String}
    → open_calls calls earlier ≡ ok opened
    → AreOwn calls earlier × (opened ≡ ids_onto calls earlier)
unfolding open_calls
open_calls-AreOwn [] earlier h = (tt, ground (arith, h))
open_calls-AreOwn (c ∷ calls) earlier {opened} h =
    elim (Bool-cases (str_eq c.id "" || has_id c.id earlier)) [
      | inl e ↦ absurd (ground (arith, e, h))
      | inr e ↦
          let (own, same) =
            open_calls-AreOwn calls (c.id ∷ earlier) {opened = opened} (ground (arith, e, h)) in
          (
            (
              λ q. absurd (ground (arith, e, q, eq_iff c.id "")),
              λ q. absurd (ground (arith, e, In-has_id c.id earlier q)),
              own,
            ),
            same,
          )
    ]

AreOwn-open_calls :
    (calls : List ToolCall) (earlier : List String)
    → AreOwn calls earlier
    → open_calls calls earlier ≡ ok (ids_onto calls earlier)
unfolding open_calls
AreOwn-open_calls [] earlier own = refl
AreOwn-open_calls (c ∷ calls) earlier (named, new, own) =
    let later = AreOwn-open_calls calls (c.id ∷ earlier) own in
    elim (Bool-cases (has_id c.id earlier)) [
      | inl e ↦ absurd (new (has_id-In c.id earlier e))
      | inr e ↦ ground (arith, e, named, later, eq_iff c.id "")
    ]

delete_id-IsWithout :
    (k : String) (ids : List String) → has_id k ids ≡ true → IsWithout k ids (delete_id k ids)
unfolding has_id delete_id
delete_id-IsWithout k [] h = absurd (ground (arith, h))
delete_id-IsWithout k (j ∷ ids) h = elim (Bool-cases (str_eq j k)) [
  | inl e ↦ inl ((eq_iff j k).0 e, ground (arith, e))
  | inr e ↦ inr (
    λ q. absurd (ground (arith, e, q, eq_iff j k)),
    (delete_id k ids, ground (arith, e), delete_id-IsWithout k ids (ground (arith, e, h))),
  )
]

IsWithout-delete_id :
    (k : String) (ids rest : List String)
    → IsWithout k ids rest
    → (has_id k ids ≡ true) × (rest ≡ delete_id k ids)
unfolding has_id delete_id
IsWithout-delete_id k [] rest w = absurd w
IsWithout-delete_id k (j ∷ ids) rest (inl (same, left)) =
    (ground (arith, same, eq_iff j k), ground (arith, same, left, eq_iff j k))
IsWithout-delete_id k (j ∷ ids) rest (inr (other, (others, left, w))) =
    let (used, same) = IsWithout-delete_id k ids others w in
    (ground (arith, used), ground (arith, other, left, same, eq_iff j k))

is_user-user : (r : Role) → is_user r ≡ true → r ≡ user
is_user-user r h = ground (arith, h)

Fits-IsPaired : (ids : List String) (msgs : List Message) → Fits ids msgs → IsPaired ids msgs
Fits-IsPaired [] [] f = tt
Fits-IsPaired (k ∷ ids) [] f = f
Fits-IsPaired [] (m ∷ msgs) (plain, (opened, opens, f)) =
    let (own, same) = open_calls-AreOwn (calls_of m) [] opens in
    (plain, own, Fits-IsPaired (ids_onto (calls_of m) []) msgs (subst (λ o. Fits o msgs) same f))
Fits-IsPaired (k ∷ ids) (m ∷ msgs) (by_user, open_id, f) = (
  is_user-user m.role by_user,
  (
    delete_id m.tool_call_id (k ∷ ids),
    delete_id-IsWithout m.tool_call_id (k ∷ ids) open_id,
    Fits-IsPaired (delete_id m.tool_call_id (k ∷ ids)) msgs f,
  ),
)

IsPaired-Fits : (ids : List String) (msgs : List Message) → IsPaired ids msgs → Fits ids msgs
IsPaired-Fits [] [] v = tt
IsPaired-Fits (k ∷ ids) [] v = v
IsPaired-Fits [] (m ∷ msgs) (plain, own, v) = (
  plain,
  (
    ids_onto (calls_of m) [],
    AreOwn-open_calls (calls_of m) [] own,
    IsPaired-Fits (ids_onto (calls_of m) []) msgs v,
  ),
)
IsPaired-Fits (k ∷ ids) (m ∷ msgs) (by_user, (rest, without, v)) =
    let (used, same) = IsWithout-delete_id m.tool_call_id (k ∷ ids) rest without in
    (ap is_user by_user, used, subst (λ r. Fits r msgs) same (IsPaired-Fits rest msgs v))

-- messageGroups ends on every history, and accepts exactly those in which each batch of tool calls has
-- distinct ids that are not empty and is followed at once by one result for each call, and in which no
-- other result stands; the groups that it returns split the history from end to end.
pub message_groups-IsPaired :
    (msgs : List Message)
    → (message_groups msgs ≢ err out_of_fuel)
      × ((groups : List Group)
          → message_groups msgs ≡ ok groups
          → IsPaired [] msgs × Covers 0 groups (length msgs))
      × (IsPaired [] msgs → (groups : List Group) × (message_groups msgs ≡ ok groups))
message_groups-IsPaired msgs =
    let (ends, accepts, accepted) = message_groups-Fits msgs in
    (
      ends,
      λ groups h. let (fits, covers) = accepts groups h in (Fits-IsPaired [] msgs fits, covers),
      λ v. accepted (IsPaired-Fits [] msgs v),
    )
