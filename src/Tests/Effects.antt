-- ===== src/Tests/Effects.antt =====
-- Calls of the tools of crates/studio-server/src/agent_loop.rs on a small file system.
use cobrust_studio.Base.{
  ℕ, ◌≡◌, ◌++◌, arith, true, false, none, some, List, [], ◌∷◌, Text, codes, Result, ok, All,
}
use cobrust_studio.Json.{null, string, object, field, end}
use cobrust_studio.Agent.Policy.{ToolCall}
use cobrust_studio.Agent.System.{System, World, Effect, dir}
use cobrust_studio.Agent.Tree.{tree, tree-some}
use cobrust_studio.Agent.Tools.Effects.{IsAllowed}
use cobrust_studio.Agent.Execute.{execute_tool}
use cobrust_studio.Agent.Execute.Effects.{execute_tool-IsAllowed}
use cobrust_studio.Tests.Tools.{links, project}

-- every directory has one directory in it, `a`; every program succeeds
abbrev pub system : System
system = record {
  W = ℕ;
  canonicalize = λ p w. links.canonicalize p;
  metadata = λ p w. ok (record { is_file = false; is_dir = true; size = 0 });
  read = λ p w. ok none;
  read_dir = λ p w. ok ((codes "a", dir) ∷ []);
  write = λ p c w. (ok tt, w);
  remove_file = λ p w. (ok tt, w);
  output = λ program args cwd limit w.
      (ok (record { exit_code = null; success = true; stdout = []; stderr = [] }), w);
}

abbrev pub world : World system
world = record { outside = 0; effects = [] }

abbrev call : ToolCall
call = record {
  tool = codes "fs.write";
  input = object (
      field (codes "path") (string (codes "l/f"))
        (field (codes "content") (string (codes "x")) end));
}

execute_tool-IsAllowed_example :
    (es : List Effect) × ((execute_tool system project true
        (codes "fs.write" ∷ [])
        call
        world).1.effects
      ≡ [] ++ es)
    × All (IsAllowed system project true 0) es
execute_tool-IsAllowed_example =
    execute_tool-IsAllowed system project true world (codes "fs.write" ∷ []) call

tree-some_example :
    (r : Result Text (List Text)) × (tree system 0 project 3 10002 ((project, 0) ∷ []) [] ≡ some r)
tree-some_example = tree-some system 0 project 3 10002 ((project, 0) ∷ []) [] (omega arith)
