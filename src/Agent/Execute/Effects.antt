-- ===== src/Agent/Execute/Effects.antt =====
-- What a call of `execute_tool` in crates/studio-server/src/agent_loop.rs does to the outside.
use mathlib.Core.List.{append-nil}
use cobrust_studio.Base.{
  Bool, true, false, not, ◌&&◌, List, [], ◌++◌, ◌≡◌, refl, sym, ap, ◌∙◌, arith, Text, codes,
  eq_text, eq_text_iff, All, contains_text,
}
use cobrust_studio.Json.{Value}
use cobrust_studio.Host.{FilePath}
use cobrust_studio.Agent.Policy.{ToolCall, is_write_tool, admit_sound}
use cobrust_studio.Agent.System.{System, Effect, Tool, World}
use cobrust_studio.Agent.Tools.Effects.{
  IsAllowed, Fits, quiet, value_ok, fs_read-Fits, fs_list-Fits, git_status-Fits, git_diff-Fits,
  fs_write-Fits, fs_delete-Fits, shell_exec-Fits,
}
use cobrust_studio.Agent.Execute.{project_tree, arm, run_tool, execute_tool_inner, execute_tool}

module _ (sys : System) (root : FilePath) (w : Bool) (s : World sys) where
  project_tree-Fits : (input : Value) → Fits sys root w s (project_tree sys root input) s
  unfolding project_tree
  project_tree-Fits input =
      quiet sys root w s _ _ s refl
        λ top _. quiet sys root w s _ _ s refl λ out _. ([], sym (append-nil s.effects), tt)

  arm-Fits :
      (b : Bool) (t u : Tool sys Value)
      → (b ≡ true → Fits sys root w s t s)
      → (b ≡ false → Fits sys root w s u s)
      → Fits sys root w s (arm sys root b t u) s
  unfolding arm
  arm-Fits true t u h k = h refl
  arm-Fits false t u h k = k refl

  -- A tool that writes, behind the guards.
  enabled :
      (tool name : Text)
      → is_write_tool name ≡ true
      → (is_write_tool tool && not w) ≡ false
      → eq_text tool name ≡ true
      → w ≡ true
  enabled tool name writes guarded same =
      let e : is_write_tool tool ≡ true =
        ap is_write_tool ((eq_text_iff tool name).0 same) ∙ writes in
      ground arith

  run_tool-Fits :
      (tool : Text) (input : Value)
      → (is_write_tool tool && not w) ≡ false
      → Fits sys root w s (run_tool sys root tool input) s
  unfolding run_tool is_write_tool contains_text eq_text codes
  run_tool-Fits tool input guarded =
      arm-Fits _ _ _ (λ _. fs_read-Fits sys root w s input)
        λ _.
          arm-Fits _ _ _ (λ _. fs_list-Fits sys root w s input)
            λ _.
              arm-Fits _ _ _ (λ _. git_status-Fits sys root w s)
                λ _.
                  arm-Fits _ _ _ (λ _. git_diff-Fits sys root w s input)
                    λ _.
                      arm-Fits _ _ _ (λ _. project_tree-Fits input)
                        λ _.
                          arm-Fits _ _ _
                            (λ e.
                              fs_write-Fits sys root w s
                                (enabled tool (codes "fs.write") refl guarded e) input)
                            λ _.
                              arm-Fits _ _ _
                                (λ e.
                                  fs_delete-Fits sys root w s
                                    (enabled tool (codes "fs.delete") refl guarded e) input)
                                λ _.
                                  arm-Fits _ _ _
                                    (λ e.
                                      shell_exec-Fits sys root w s
                                        (enabled tool (codes "shell.exec") refl guarded e) input)
                                    λ _. ([], sym (append-nil s.effects), tt)

  -- Whatever the set of a turn, and whether the call succeeds, fails or panics: it runs git and nothing
  -- else, unless write tools are enabled. With them, each path that it writes to is one name in a
  -- directory that is inside the project root with its links followed, whatever stands under that name,
  -- and each path that it removes is inside the root with all its links followed, as the links stand
  -- when the call begins.
  pub execute_tool-IsAllowed :
      (allowed : List Text) (call : ToolCall)
      → (es : List Effect) × ((execute_tool sys root w allowed call s).1.effects ≡ s.effects ++ es)
        × All (IsAllowed sys root w s.outside) es
  unfolding execute_tool execute_tool_inner
  execute_tool-IsAllowed allowed call = quiet sys root w s _ _ s refl λ u admitted.
      run_tool-Fits call.tool call.input (admit_sound w allowed call.tool (value_ok _ admitted)).1
