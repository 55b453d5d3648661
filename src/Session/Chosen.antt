-- ===== src/Session/Chosen.antt =====
-- What CompactWithin of internal/context/compactor.go sends, without its tests.
use go_agent_claw.Prelude.{
  ℕ, ◌-◌, ◌≤◌, ◌≡◌, refl, ap, subst, ◌⊎◌, inl, inr, true, false, List, [], ◌∷◌, ◌++◌, map, arith,
  Bool-cases, In, length, take, drop, eq_iff, ok,
}
use go_agent_claw.Session.{Message, system, is_plain_user, Group, message_groups}
use go_agent_claw.Session.Shape.{Fits}
use go_agent_claw.Session.Window.{Opens}
use go_agent_claw.Session.Content.{IsOpened, AreFolded, with_prefix-IsOpened, mask_from-AreFolded}
use go_agent_claw.Session.Compacted.{
  IsTooLarge, must_stay, Keeps, keeps_nil, keeps_group, keeps_not, IsChosen, compact_within_parts,
}
use go_agent_claw.Session.Compactor.{
  Compactor, is_system, starts_system, starts_plain, any_plain, mask, with_prefix, concat,
  compact_within,
}

abbrev pub StartsSystem : List Message → Type 0
StartsSystem [] = ⊥
StartsSystem (m ∷ msgs) = m.role ≡ system

-- A group of a system message, or the last that a message of the user opens.
abbrev pub MustStay : List Message → List (List Message) → Type 0
MustStay s later = StartsSystem s ⊎ (Opens s × ((t : List Message) → In t later → ¬ Opens t))

-- Of the groups, `chosen` are left, in their order, among them all that have to stay.
pub data IsKept : List (List Message) → List (List Message) → Type 0 where
  kept_nil : IsKept [] []
  kept_group :
      (s : List Message) {slices chosen : List (List Message)}
      → IsKept slices chosen
      → IsKept (s ∷ slices) (s ∷ chosen)
  kept_not :
      (s : List Message) {slices chosen : List (List Message)}
      → ¬ MustStay s slices
      → IsKept slices chosen
      → IsKept (s ∷ slices) chosen

abbrev pub flatten : List (List Message) → List Message
flatten [] = []
flatten (s ∷ slices) = s ++ flatten slices

concat-flatten : (slices : List (List Message)) → concat slices ≡ flatten slices
unfolding concat
concat-flatten [] = refl
concat-flatten (s ∷ slices) = ap (λ ms. s ++ ms) (concat-flatten slices)

starts_system-StartsSystem : (s : List Message) → StartsSystem s → starts_system s ≡ true
starts_system-StartsSystem [] h = absurd h
starts_system-StartsSystem (m ∷ msgs) h = ap is_system h

Opens-starts_plain : (s : List Message) → Opens s → starts_plain s ≡ true
unfolding is_plain_user
Opens-starts_plain [] h = absurd h
Opens-starts_plain (m ∷ msgs) (by_user, plain) =
    ground (arith, by_user, plain, eq_iff m.tool_call_id "")

starts_plain-Opens : (s : List Message) → starts_plain s ≡ true → Opens s
unfolding is_plain_user
starts_plain-Opens [] h = absurd (ground (arith, h))
starts_plain-Opens (m ∷ msgs) h = ground (arith, h, eq_iff m.tool_call_id "")

any_plain-Opens :
    (slices : List (List Message))
    → any_plain slices ≡ true
    → (t : List Message) × In t slices × Opens t
unfolding any_plain
any_plain-Opens [] h = absurd (ground (arith, h))
any_plain-Opens (s ∷ slices) h = elim (Bool-cases (starts_plain s)) [
  | inl e ↦ (s, inl refl, starts_plain-Opens s e)
  | inr e ↦
      let (t, inside, opens) = any_plain-Opens slices (ground (arith, e, h)) in
      (t, inr inside, opens)
]

must_stay-MustStay :
    (s : List Message) (later : List (List Message))
    → must_stay s later ≡ false
    → ¬ MustStay s later
must_stay-MustStay s later h (inl of_system) =
    absurd (ground (arith, h, starts_system-StartsSystem s of_system))
must_stay-MustStay s later h (inr (opens, last)) =
    let plain = Opens-starts_plain s opens in
    let more : any_plain later ≡ true = ground (arith, h, plain) in
    let (t, inside, again) = any_plain-Opens later more in last t inside again

Keeps-IsKept : {slices chosen : List (List Message)} → Keeps slices chosen → IsKept slices chosen
Keeps-IsKept keeps_nil = kept_nil
Keeps-IsKept (keeps_group s keeps) = kept_group s (Keeps-IsKept keeps)
Keeps-IsKept (keeps_not s {slices} goes keeps) =
    kept_not s (must_stay-MustStay s slices goes) (Keeps-IsKept keeps)

-- What is sent: the history; or, where this is too large, the history with long texts folded; or, where this is too
-- large as well, some of its groups with long texts folded.
pub data IsCompact {E : Type 0} (c : Compactor E) (msgs : List Message) (groups : List Group)
    (out : List Message) : Type 0 where
  whole : IsOpened msgs out → IsCompact c msgs groups out
  folded_whole :
      (sent folded : List Message)
      → IsOpened msgs sent
      → IsTooLarge c sent
      → AreFolded c (length msgs - c.retain_last_msgs) 0 msgs folded
      → IsOpened folded out
      → IsCompact c msgs groups out
  folded_groups :
      (sent folded sent_folded : List Message) (chosen : List (List Message))
      → IsOpened msgs sent
      → IsTooLarge c sent
      → AreFolded c (length msgs - c.retain_last_msgs) 0 msgs folded
      → IsOpened folded sent_folded
      → IsTooLarge c sent_folded
      → IsKept (map (λ g. take (g.end - g.start) (drop g.start folded)) groups) chosen
      → IsOpened (flatten chosen) out
      → IsCompact c msgs groups out

IsChosen-IsCompact :
    {E : Type 0} (c : Compactor E) (msgs : List Message) (groups : List Group) (out : List Message)
    → IsChosen c msgs groups out
    → IsCompact c msgs groups out
unfolding mask
IsChosen-IsCompact c msgs groups out (inl same) =
    whole (subst (IsOpened msgs) same (with_prefix-IsOpened msgs))
IsChosen-IsCompact c msgs groups out (inr (inl (large, same))) =
    folded_whole (with_prefix msgs) (mask c msgs) (with_prefix-IsOpened msgs) large
      (mask_from-AreFolded c (length msgs - c.retain_last_msgs) 0 msgs)
      (subst (IsOpened (mask c msgs)) same (with_prefix-IsOpened (mask c msgs)))
IsChosen-IsCompact c msgs groups out (inr (inr (chosen, large, still_large, keeps, same))) =
    folded_groups (with_prefix msgs) (mask c msgs) (with_prefix (mask c msgs)) chosen
      (with_prefix-IsOpened msgs) large
      (mask_from-AreFolded c (length msgs - c.retain_last_msgs) 0 msgs)
      (with_prefix-IsOpened (mask c msgs)) still_large (Keeps-IsKept keeps)
      (subst (λ ms. IsOpened ms out) (concat-flatten chosen)
        (subst (IsOpened (concat chosen)) same (with_prefix-IsOpened (concat chosen))))

-- A history that CompactWithin accepts is sent whole; or, where it is too large so, with long answers of the model
-- and long results of tools folded, those among the last messages that are to be retained only where they are
-- results of more than 1000 bytes, and never the messages of the system or of the user; or, where this is too
-- large as well, so folded and without some of its groups, but with all system messages and the last message of the
-- user. A notice stands behind the system messages at the start unless the user opens the rest. Every tool result
-- that is sent has its call and every call its result, and the request's size is within the limit.
pub compact_within-IsSendable :
    {E : Type 0} (c : Compactor E) (msgs out : List Message)
    → compact_within c msgs ≡ ok out
    → (groups : List Group) × (message_groups msgs ≡ ok groups)
      × IsCompact c msgs groups out
      × Fits [] out
      × ((n : ℕ) × (c.context_size out ≡ ok n) × (n ≤ c.max_chars))
compact_within-IsSendable c msgs out h =
    let (groups, grouped, chosen, fits, small) = compact_within_parts c msgs out h in
    (groups, grouped, IsChosen-IsCompact c msgs groups out chosen, fits, small)
