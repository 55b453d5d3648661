-- ===== src/Tools/Scope.antt =====
-- internal/tools/scope.go: which tools the mode of a run allows. A mode that none of the constants names is
-- `mode_other`, the empty one is that of ScopeFromContext.
use go_agent_claw.Prelude.{Bool, true, false, not, ◌||◌, String, if◌then◌else◌, str_eq}

pub data Mode : Type 0 where
  mode_empty mode_read_only mode_workspace mode_trusted mode_other : Mode

pub record ExecutionScope : Type 0 where
  pub mode : Mode
  pub disable_subagent : Bool

unfoldable pub scope_from_context : ExecutionScope → ExecutionScope
scope_from_context s = record s {
  mode = elim s.mode [
    | mode_empty ↦ mode_read_only
    | mode_read_only ↦ mode_read_only
    | mode_workspace ↦ mode_workspace
    | mode_trusted ↦ mode_trusted
    | mode_other ↦ mode_other
  ];
}

unfoldable pub is_read_only : String → Bool
is_read_only name =
    str_eq name "read_file"
    || str_eq name "read_lines"
    || str_eq name "list_dir"
    || str_eq name "search_text"
    || str_eq name "read_evidence"
    || str_eq name "read_report"
    || str_eq name "find_files"

abbrev pub is_known : Mode → Bool
is_known mode_read_only = true
is_known mode_workspace = true
is_known mode_trusted = true
is_known _ = false

abbrev pub writes_files : Mode → Bool
writes_files mode_workspace = true
writes_files mode_trusted = true
writes_files _ = false

abbrev pub is_trusted : Mode → Bool
is_trusted mode_trusted = true
is_trusted _ = false

unfoldable pub allows_tool : ExecutionScope → String → Bool
allows_tool s name =
    if not (is_known s.mode)
    then false
    else if is_read_only name
    then true
    else if str_eq name "spawn_subagent"
    then not s.disable_subagent
    else if str_eq name "write_file" || str_eq name "edit_file"
    then writes_files s.mode
    else is_trusted s.mode
