-- ===== src/Turn/Answers.antt =====
-- The history that a turn of AgentEngine.converse (internal/engine/loop.go) leaves in the session.
use go_agent_claw.Prelude.{
  ℕ, zero, suc, ◌+◌, ◌≡◌, refl, ap, false, Option, none, some, List, [], ◌∷◌, String, arith, length,
  All, str_eq,
}
use go_agent_claw.Session.{ToolCall, Session}
use go_agent_claw.Tools.{ToolResult}
use go_agent_claw.Turn.{Outcome, run_groups, companions, fill_all, execute_batch}

-- The ids that open_calls leaves open.
abbrev push : List ToolCall → List String → List String
push [] ids = ids
push (c ∷ calls) ids = push calls (c.id ∷ ids)

abbrev AreDistinct : List ToolCall → Type 0
AreDistinct [] = Unit {0}
AreDistinct (c ∷ calls) = All (λ d. str_eq c.id d.id ≡ false) calls × AreDistinct calls

length-run_groups :
    {E : Type 0} (outcome : ℕ → Outcome E) (i left : ℕ) (failure : Option E) (calls : List ToolCall)
    → length (run_groups outcome i left failure calls).0 ≡ length calls
unfolding run_groups
length-run_groups outcome i left failure [] = refl
length-run_groups outcome i zero (some e) (c ∷ calls) =
    ap suc (length-run_groups outcome (i + 1) zero (some e) calls)
length-run_groups outcome i zero none (c ∷ calls) =
    ap suc (length-run_groups outcome (i + 1) (companions c calls) (outcome i).error calls)
length-run_groups outcome i (suc left) failure (c ∷ calls) =
    ap suc (length-run_groups outcome (i + 1) left _ calls)

length-fill_all :
    (calls : List ToolCall) (results : List ToolResult)
    → length results ≡ length calls
    → length (fill_all calls results) ≡ length calls
unfolding fill_all
length-fill_all [] results n = refl
length-fill_all (c ∷ calls) [] n = absurd (omega (arith, n))
length-fill_all (c ∷ calls) (r ∷ results) n =
    ap suc (length-fill_all calls results (omega (arith, n)))

pub length-execute_batch :
    {E : Type 0} (outcome : ℕ → Outcome E) (calls : List ToolCall)
    → length (execute_batch outcome calls).0 ≡ length calls
unfolding execute_batch
length-execute_batch outcome calls =
    length-fill_all calls (run_groups outcome 0 zero none calls).0
      (length-run_groups outcome 0 zero none calls)
