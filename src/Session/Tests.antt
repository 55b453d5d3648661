-- ===== src/Session/Tests.antt =====
-- A session of eight messages with two batches of calls, and its windows.
use go_agent_claw.Prelude.{ℕ, ◌≤◌, ◌≡◌, ◌≢◌, refl, List, [], ◌∷◌, String, length, drop, ok, err}
use go_agent_claw.Session.{
  Message, Session, Role, ToolCall, user, assistant, notice, working_memory, window, backtrack,
  skip_orphans, with_notice, is_plain_at, Group, out_of_fuel, is_plain_user, is_tool_result,
  message_groups, group_from, open_calls, take_results, has_id, delete_id,
}
use go_agent_claw.Session.Groups.{Covers}
use go_agent_claw.Session.Shape.{Fits}
use go_agent_claw.Session.Compactor.{
  Compactor, mask_one, mask_from, mask, with_prefix, any_plain, concat, shrink, compact_within,
}
use go_agent_claw.Session.Chosen.{IsCompact, compact_within-IsSendable}
use go_agent_claw.Session.Paired.{IsPaired, message_groups-IsPaired}
use go_agent_claw.Session.Tail.{IsWindow, working_memory-IsWindow}

abbrev call : String → ToolCall
call k = record { id = k; name = "read_file"; arguments = [] }

abbrev says : Role → List ToolCall → String → Message
says who calls answers = record {
  role = who;
  content = "text";
  tool_calls = calls;
  response_items = [];
  tool_call_id = answers;
}

abbrev talk : List Message
talk =
    says user [] ""
    ∷ says assistant (call "a" ∷ call "b" ∷ []) ""
    ∷ says user [] "b"
    ∷ says user [] "a"
    ∷ says assistant (call "c" ∷ []) ""
    ∷ says user [] "c"
    ∷ says assistant [] ""
    ∷ []

abbrev chat : Session
chat = record {
  id = "s1";
  work_dir = "/work";
  prompt_tokens = 0;
  completion_tokens = 0;
  unknown_usage_calls = 0;
  history = talk;
}

-- Two results lost their call: they are dropped and the notice opens the window.
cut_talk : working_memory chat 2 ≡ notice ∷ drop 6 talk
unfolding working_memory window backtrack skip_orphans with_notice is_plain_at is_plain_user
    is_tool_result
cut_talk = refl

-- A window that starts in the first batch steps back to the user's message.
near_talk : working_memory chat 5 ≡ talk
unfolding working_memory window backtrack skip_orphans with_notice is_plain_at is_plain_user
    is_tool_result
near_talk = refl

abbrev two : ℕ
two = 2

working_memory-IsWindow_example : IsWindow talk 2 (working_memory chat 2)
working_memory-IsWindow_example = working_memory-IsWindow chat 2

talk_groups :
    message_groups talk
    ≡ ok (
        record { start = 0; end = 1 }
        ∷ record { start = 1; end = 4 }
        ∷ record { start = 4; end = 6 }
        ∷ record { start = 6; end = 7 }
        ∷ [])
unfolding message_groups group_from open_calls take_results has_id delete_id
talk_groups = refl

message_groups-IsPaired_example :
    (message_groups talk ≢ err out_of_fuel)
    × ((groups : List Group)
        → message_groups talk ≡ ok groups
        → IsPaired [] talk × Covers 0 groups (length talk))
    × (IsPaired [] talk → (groups : List Group) × (message_groups talk ≡ ok groups))
message_groups-IsPaired_example = message_groups-IsPaired talk

-- Sizes are numbers of messages here.
abbrev compactor : Compactor String
compactor = record {
  max_chars = 4;
  retain_last_msgs = 2;
  context_size = λ msgs. ok (length msgs);
  size = λ text. 300;
  folded_result = λ text. "folded";
  shortened = λ text. "short";
  folded_text = "folded";
}

abbrev compacted_talk : List Message
compacted_talk =
    says user [] ""
    ∷ record (says assistant (call "c" ∷ []) "") { content = "folded" }
    ∷ says user [] "c"
    ∷ says assistant [] ""
    ∷ []

-- The oldest batch of calls is left out, with its results.
compacts : compact_within compactor talk ≡ ok compacted_talk
unfolding compact_within message_groups group_from open_calls take_results has_id delete_id mask
    mask_from mask_one with_prefix any_plain concat shrink is_plain_user is_tool_result
compacts = refl

compact_within-IsSendable_example :
    (groups : List Group) × (message_groups talk ≡ ok groups)
    × IsCompact compactor talk groups compacted_talk
    × Fits [] compacted_talk
    × ((n : ℕ) × (compactor.context_size compacted_talk ≡ ok n) × (n ≤ 4))
compact_within-IsSendable_example = compact_within-IsSendable compactor talk compacted_talk compacts
