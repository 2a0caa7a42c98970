-- ===== src/Protocol/Contract.antt =====
-- internal/protocol/contract.go: the planning option, and the texts sent to the agent.
-- `trim` is strings.TrimSpace.
use grok_mcp.Prelude.{
  String, Bool, true, false, ◌||◌, Option, none, some, ◌==◌, ◌!=◌, String_eq, if◌then◌else◌, concat,
}
use grok_mcp.Protocol.TaskState.{task_state_open, task_state_close}

abbrev pub status_block : String
status_block = concat task_state_open (
    concat
      "\n{\"state\":\"working|needs_input|completed|blocked\",\"summary\":\"...\",\"next\":\"...\"}\n"
      (concat task_state_close "\n"))

abbrev pub line_unless_empty : String → String → String
line_unless_empty label value = if value != "" then concat label (concat value "\n") else ""

abbrev pub continue_prompt : String
continue_prompt =
    concat
      "Continue the same job in this session. Reconcile existing work before acting; do not repeat completed side effects. Return the outcome and optionally append "
      (concat task_state_open (concat " … " (concat task_state_close ".")))

module _ (trim : String → String) where
  -- `none`: the option is neither empty, skip nor required.
  unfoldable pub resolve_planning : String → Bool → Option Bool
  resolve_planning raw replan =
      if replan
      then some true
      else if trim raw == "" || trim raw == "skip"
      then some false
      else if trim raw == "required"
      then some true
      else none

  abbrev pub task_tail : String → String
  task_tail user_prompt = concat "User task:\n" (concat (trim user_prompt) "\n")

  pub task_contract : String → String → String → String
  task_contract cwd title user_prompt =
      concat "You are Grok executing a supervised job for Codex.\n" (
        concat "Stay in this persistent session. Do not create a replacement session.\n" (
          concat (line_unless_empty "Working directory: " cwd) (
            concat (line_unless_empty "Job title: " title) (
              concat
                "\nProtocol:\n1. Start in plan mode. Investigate the repo, write plan.md in this session directory, then call exit_plan_mode.\n2. Wait for Codex approval before implementing. After approval, implement, test, and fix in this same session.\n3. Return the actual outcome and verification evidence. You may append this status block:\n"
                (concat status_block (
                  concat
                    "4. state=working means continue automatically; needs_input pauses for Codex; completed is final for this job; blocked is a concrete blocker.\n5. plan_ready is a native ACP approval event, never a text state. Missing status blocks are reviewed from your final answer; do not emit format-only repair turns. Do not stream process logs to Codex. Keep summaries short.\n\n"
                    (task_tail user_prompt)))))))

  pub execute_contract : String → String → String → String
  execute_contract cwd title user_prompt =
      concat "You are Grok executing a supervised job for Codex.\n" (
        concat "Stay in this persistent session. Do not create a replacement session.\n" (
          concat "Do not enter plan mode. Implement the task directly in this session.\n" (
            concat (line_unless_empty "Working directory: " cwd) (
              concat (line_unless_empty "Job title: " title) (
                concat
                  "\nProtocol:\n1. Do the requested work now. Do not write a plan or call exit_plan_mode.\n2. Return the actual outcome and verification evidence. You may append this status block:\n"
                  (concat status_block (
                    concat
                      "3. state=working means continue automatically; needs_input pauses for Codex; completed is final for this job; blocked is a concrete blocker.\n4. Do not stream process logs to Codex. Keep summaries short.\n\n"
                      (task_tail user_prompt))))))))
