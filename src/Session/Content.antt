-- ===== src/Session/Content.antt =====
-- What mask and the notice of CompactWithin (internal/context/compactor.go) do to the messages.
use go_agent_claw.Prelude.{
  ℕ, ◌+◌, ◌≤◌, ◌<◌, ◌≡◌, ◌⊎◌, refl, ap, subst, inl, inr, true, List, [], ◌∷◌, ◌++◌, arith, All,
  Bool-cases, ◌&&◌, ltb, eq_iff,
}
use go_agent_claw.Session.{
  Message, ToolCall, is_assistant, system, user, assistant, is_plain_user, is_tool_result, notice,
}
use go_agent_claw.Session.Window.{Opens, plain-Opens}
use go_agent_claw.Session.Tail.{IsResult, Opens-plain}
use go_agent_claw.Session.Compactor.{
  Compactor, is_system, has_no_calls, mask_one, mask_from, with_prefix,
}

-- The list `out` is `msgs`, with the notice between the system messages at the start and the rest where the rest is
-- not empty and the user does not open it.
pub data IsOpened (msgs out : List Message) : Type 0 where
  only_system : All (λ m. m.role ≡ system) msgs → out ≡ msgs → IsOpened msgs out
  by_user :
      (systems rest : List Message)
      → msgs ≡ systems ++ rest
      → All (λ m. m.role ≡ system) systems
      → Opens rest
      → out ≡ msgs
      → IsOpened msgs out
  by_notice :
      (systems : List Message) (first : Message) (rest : List Message)
      → msgs ≡ systems ++ first ∷ rest
      → All (λ m. m.role ≡ system) systems
      → (first.role ≡ system → ⊥)
      → ¬ Opens (first ∷ rest)
      → out ≡ systems ++ notice ∷ first ∷ rest
      → IsOpened msgs out

is_system-role : (m : Message) → is_system m.role ≡ true → m.role ≡ system
is_system-role m h = ground (arith, h)

behind_system :
    (m : Message) (msgs out : List Message)
    → m.role ≡ system
    → IsOpened msgs out
    → IsOpened (m ∷ msgs) (m ∷ out)
behind_system m msgs out h (only_system systems same) =
    only_system (h, systems) (ap (λ ms. m ∷ ms) same)
behind_system m msgs out h (by_user systems rest split all_system opens same) =
    by_user (m ∷ systems) rest (ap (λ ms. m ∷ ms) split) (h, all_system) opens
      (ap (λ ms. m ∷ ms) same)
behind_system m msgs out h (by_notice systems first rest split all_system other closed same) =
    by_notice (m ∷ systems) first rest (ap (λ ms. m ∷ ms) split) (h, all_system) other closed
      (ap (λ ms. m ∷ ms) same)

pub with_prefix-IsOpened : (msgs : List Message) → IsOpened msgs (with_prefix msgs)
unfolding with_prefix
with_prefix-IsOpened [] = only_system tt refl
with_prefix-IsOpened (m ∷ msgs) = elim (Bool-cases (is_system m.role)) [
  | inl e ↦
      let same : m ∷ with_prefix msgs ≡ with_prefix (m ∷ msgs) = ground (arith, e) in
      subst (IsOpened (m ∷ msgs)) same
        (behind_system m msgs (with_prefix msgs) (is_system-role m e) (with_prefix-IsOpened msgs))
  | inr e ↦ elim (Bool-cases (is_plain_user m)) [
    | inl u ↦ by_user [] (m ∷ msgs) refl tt (plain-Opens m u) (ground (arith, e, u))
    | inr u ↦
        by_notice [] m msgs refl tt (λ q. absurd (ground (arith, e, q))) (Opens-plain m msgs u)
          (ground (arith, e, u))
  ]
]

-- What stands for message `i` after folding, where those from `protect` on are protected.
pub record IsFolded {E : Type 0} (c : Compactor E) (protect i : ℕ) (m o : Message) : Type 0 where
  pub same_role : o.role ≡ m.role
  pub same_id : o.tool_call_id ≡ m.tool_call_id
  pub same_calls : o.tool_calls ≡ m.tool_calls
  pub of_system : m.role ≡ system → o ≡ m
  pub of_user : m.role ≡ user → m.tool_call_id ≡ "" → o ≡ m
  pub short : c.size m.content ≤ 200 → o ≡ m
  pub said : m.role ≡ assistant → protect ≤ i → o ≡ m
  pub said_early :
      m.role ≡ assistant → i < protect → 200 < c.size m.content → o.content ≡ c.folded_text
  pub said_items :
      (o.response_items ≡ m.response_items)
      ⊎ ((m.role ≡ assistant)
          × (i < protect)
          × (200 < c.size m.content)
          × (m.tool_calls ≡ [])
          × (o.response_items ≡ []))
  pub found : IsResult m → protect ≤ i → c.size m.content ≤ 1000 → o ≡ m
  pub found_long :
      IsResult m
      → protect ≤ i
      → 1000 < c.size m.content
      → o ≡ record m { content = c.shortened m.content }
  pub found_early :
      IsResult m
      → i < protect
      → 200 < c.size m.content
      → o ≡ record m { content = c.folded_result m.content }

abbrev pub AreFolded : {E : Type 0} → Compactor E → ℕ → ℕ → List Message → List Message → Type 0
AreFolded c protect i [] [] = Unit {0}
AreFolded c protect i [] (o ∷ out) = ⊥
AreFolded c protect i (m ∷ msgs) [] = ⊥
AreFolded c protect i (m ∷ msgs) (o ∷ out) =
    IsFolded c protect i m o × AreFolded c protect (i + 1) msgs out

is_assistant-role : (m : Message) → is_assistant m.role ≡ true → m.role ≡ assistant
is_assistant-role m h = ground (arith, h)

has_no_calls-nil : (calls : List ToolCall) → has_no_calls calls ≡ true → calls ≡ []
has_no_calls-nil [] h = refl
has_no_calls-nil (c ∷ calls) h = absurd (ground (arith, h))

mask_one-IsFolded :
    {E : Type 0} (c : Compactor E) (protect i : ℕ) (m : Message)
    → IsFolded c protect i m (mask_one c (ltb i protect) m)
unfolding mask_one is_tool_result
mask_one-IsFolded c protect i m = record {
  same_role = refl;
  same_id = refl;
  same_calls = refl;
  of_system = λ s. ground (arith, s);
  of_user = λ u e. ground (arith, u, e, eq_iff m.tool_call_id "");
  short = λ s. ground (arith, s);
  said = λ a p. ground (arith, a, p);
  said_early = λ a p s. ground (arith, a, p, s);
  said_items =
      elim (Bool-cases (is_assistant m.role && ltb i protect && ltb 200 (c.size m.content))) [
        | inr e ↦ inl (ground (arith, e))
        | inl e ↦ elim (Bool-cases (has_no_calls m.tool_calls)) [
          | inr f ↦ inl (ground (arith, e, f))
          | inl f ↦ inr (
            is_assistant-role m (ground (arith, e)),
            ground (arith, e),
            ground (arith, e),
            has_no_calls-nil m.tool_calls f,
            ground (arith, e, f),
          )
        ]
      ];
  found = λ r p s. ground (arith, r.0, r.1, p, s, eq_iff m.tool_call_id "");
  found_long = λ r p s. ground (arith, r.0, r.1, p, s, eq_iff m.tool_call_id "");
  found_early = λ r p s. ground (arith, r.0, r.1, p, s, eq_iff m.tool_call_id "");
}

pub mask_from-AreFolded :
    {E : Type 0} (c : Compactor E) (protect i : ℕ) (msgs : List Message)
    → AreFolded c protect i msgs (mask_from c protect i msgs)
unfolding mask_from
mask_from-AreFolded c protect i [] = tt
mask_from-AreFolded c protect i (m ∷ msgs) =
    (mask_one-IsFolded c protect i m, mask_from-AreFolded c protect (i + 1) msgs)
