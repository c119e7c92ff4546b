-- ===== src/Agent/Execute.antt =====
-- crates/studio-server/src/agent_loop.rs: `project_tree` as a tool, and `execute_tool`.
pub mod Effects
use cobrust_studio.Base.{
  ℕ, min, Bool, true, false, Option, none, some, List, [], ◌∷◌, map, Text, codes, eq_text, length,
  leb, Result, ok, err, if◌then◌else◌, arith,
}
use cobrust_studio.Json.{Value, null, bool, string, array, object, end, field, get, as_u64, of_list}
use cobrust_studio.Host.{FilePath}
use cobrust_studio.Agent.Directive.{then_some, Outcome, returns, panics}
use cobrust_studio.Agent.Policy.{ToolCall, ToolExecutionError, tool_error, admit}
use cobrust_studio.Agent.System.{
  System, Answer, value, failed, panicked, World, Tool, ◌>>=◌, ◌>>◌, give, refuse, lift, ask,
}
use cobrust_studio.Agent.Tools.{
  max_tree_entries, or_default, fs_read, fs_list, git_status, git_diff, fs_write, fs_delete,
  shell_exec,
}
use cobrust_studio.Agent.Tree.{tree, tree-some}

-- `ToolExecution`, without the time that it took
pub record ToolExecution : Type 0 where
  pub tool : Text
  pub output : Value
  pub error : Option ToolExecutionError

module _ (sys : System) (project_root : FilePath) where
  -- the entries of the walk from the root; its fuel is enough
  tree_entries : ℕ → FilePath → sys.W → Result Text (List Text)
  tree_entries max_depth root w =
      (tree-some sys w root max_depth 10002 ((root, 0) ∷ []) [] (omega arith)).0

  -- `project_tree`
  project_tree : Value → Tool sys Value
  unfolding tree_entries
  project_tree input = do
    root ← ask (sys.canonicalize project_root)
    out ← ask (
        tree_entries (min (or_default (then_some (get (codes "max_depth") input) as_u64) 3) 8) root)
    give (
        object (
          field (codes "entries") (array (of_list (map string out)))
            (field (codes "truncated") (bool (leb max_tree_entries (length out))) end)))

  -- an arm of the match on a name, and the arms behind it
  arm : Bool → Tool sys Value → Tool sys Value → Tool sys Value
  arm true this others = this
  arm false this others = others

  -- the match of `execute_tool_inner` on the name
  run_tool : Text → Value → Tool sys Value
  run_tool tool input = arm (eq_text tool (codes "fs.read")) (fs_read sys project_root input) (
      arm (eq_text tool (codes "fs.list")) (fs_list sys project_root input) (
        arm (eq_text tool (codes "git.status")) (git_status sys project_root) (
          arm (eq_text tool (codes "git.diff")) (git_diff sys project_root input) (
            arm (eq_text tool (codes "project_tree")) (project_tree input) (
              arm (eq_text tool (codes "fs.write")) (fs_write sys project_root input) (
                arm (eq_text tool (codes "fs.delete")) (fs_delete sys project_root input) (
                  arm (eq_text tool (codes "shell.exec")) (shell_exec sys project_root input)
                    (refuse "unknown_tool" "unknown tool"))))))))

  -- `execute_tool_inner`
  execute_tool_inner : Bool → List Text → ToolCall → Tool sys Value
  unfolding run_tool
  execute_tool_inner write_enabled allowed call = do
    lift (admit write_enabled allowed call.tool)
    run_tool call.tool call.input

  execution : Text → Answer Value → Outcome ToolExecution
  execution tool (value v) = returns (record { tool = tool; output = v; error = none })
  execution tool (failed e) = returns (record { tool = tool; output = null; error = some e })
  execution tool panicked = panics

  -- `execute_tool`
  pub execute_tool : Bool → List Text → ToolCall → World sys → Outcome ToolExecution × World sys
  unfolding execution
  execute_tool write_enabled allowed call s =
      let (r, s') = execute_tool_inner write_enabled allowed call s in (execution call.tool r, s')
