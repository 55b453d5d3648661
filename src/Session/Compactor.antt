-- ===== src/Session/Compactor.antt =====
-- CompactWithin and mask of internal/context/compactor.go. The size of a request (contextSize), the bytes of a text,
-- its shortening to a head and a tail, and the words that stand for folded texts are parameters.
use go_agent_claw.Prelude.{
  ℕ, ◌+◌, ◌-◌, Bool, true, false, not, ◌&&◌, ◌||◌, List, [], ◌∷◌, ◌++◌, String, map, leb, ltb,
  if◌then◌else◌, length, take, drop, Result, ok, err,
}
use go_agent_claw.Session.{
  Role, system, Message, ToolCall, is_assistant, is_plain_user, is_tool_result, notice, Group,
  GroupError, message_groups,
}

pub record Compactor (E : Type 0) : Type 0 where
  pub max_chars : ℕ
  pub retain_last_msgs : ℕ
  pub context_size : List Message → Result E ℕ
  pub size : String → ℕ
  pub folded_result : String → String
  pub shortened : String → String
  pub folded_text : String

abbrev pub is_system : Role → Bool
is_system system = true
is_system _ = false

abbrev pub has_no_calls : List ToolCall → Bool
has_no_calls [] = true
has_no_calls (c ∷ calls) = false

-- One round of the loop of mask; `early` says that the message stands before the protected ones.
unfoldable pub mask_one : {E : Type 0} → Compactor E → Bool → Message → Message
unfolding is_tool_result
mask_one c early m =
    let folds = is_assistant m.role && early && ltb 200 (c.size m.content) in
    record m {
      content =
          if is_tool_result m
          then if early && ltb 200 (c.size m.content)
            then c.folded_result m.content
            else if ltb 1000 (c.size m.content)
            then c.shortened m.content
            else m.content
          else if folds
          then c.folded_text
          else m.content;
      response_items = if folds && has_no_calls m.tool_calls then [] else m.response_items;
    }

unfoldable pub mask_from : {E : Type 0} → Compactor E → ℕ → ℕ → List Message → List Message
unfolding mask_one
mask_from c protect i [] = []
mask_from c protect i (m ∷ msgs) = mask_one c (ltb i protect) m ∷ mask_from c protect (i + 1) msgs

-- A protected part longer than the history protects all of it.
unfoldable pub mask : {E : Type 0} → Compactor E → List Message → List Message
unfolding mask_from
mask c msgs = mask_from c (length msgs - c.retain_last_msgs) 0 msgs

unfoldable pub with_prefix : List Message → List Message
unfolding is_plain_user
with_prefix [] = []
with_prefix (m ∷ msgs) =
    let later = with_prefix msgs in
    if is_system m.role then m ∷ later else if is_plain_user m then m ∷ msgs else notice ∷ m ∷ msgs

abbrev pub slice : List Message → Group → List Message
slice msgs g = take (g.end - g.start) (drop g.start msgs)

abbrev pub starts_system : List Message → Bool
starts_system [] = false
starts_system (m ∷ msgs) = is_system m.role

abbrev pub starts_plain : List Message → Bool
starts_plain [] = false
starts_plain (m ∷ msgs) = is_plain_user m

unfoldable pub any_plain : List (List Message) → Bool
unfolding is_plain_user
any_plain [] = false
any_plain (s ∷ slices) = starts_plain s || any_plain slices

unfoldable pub concat : List (List Message) → List Message
concat [] = []
concat (s ∷ slices) = s ++ concat slices

pub data CompactError (E : Type 0) : Type 0 where
  bad_history : GroupError → CompactError E
  unsized : E → CompactError E
  too_large : CompactError E

-- The candidate, if it is small enough.
abbrev pub or_smaller :
    {E : Type 0}
    → Compactor E
    → List Message
    → Result (CompactError E) (List Message)
    → Result (CompactError E) (List Message)
or_smaller c candidate next = elim (c.context_size candidate) [
  | err e ↦ err (unsized e)
  | ok n ↦ if leb n c.max_chars then ok candidate else next
]

-- The loop that removes groups from the front: `kept` is what stays of those before. System messages and the
-- last group of a plain user message stay.
unfoldable pub shrink :
    {E : Type 0}
    → Compactor E
    → List Message
    → List (List Message)
    → Result (CompactError E) (List Message)
unfolding any_plain with_prefix concat
shrink c kept [] = err too_large
shrink c kept (s ∷ slices) =
    let stays = shrink c (kept ++ s) slices in
    let goes = shrink c kept slices in
    if starts_system s || (starts_plain s && not (any_plain slices))
    then stays
    else or_smaller c (with_prefix (kept ++ concat slices)) goes

unfoldable pub compact_within :
    {E : Type 0} → Compactor E → List Message → Result (CompactError E) (List Message)
unfolding message_groups mask with_prefix shrink
compact_within c msgs = elim (message_groups msgs) [
  | err e ↦ err (bad_history e)
  | ok groups ↦
      or_smaller c (with_prefix msgs)
        (or_smaller c (with_prefix (mask c msgs)) (shrink c [] (map (slice (mask c msgs)) groups)))
]
