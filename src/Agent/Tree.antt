-- ===== src/Agent/Tree.antt =====
-- crates/studio-server/src/agent_loop.rs: `project_tree`, a walk of the directories with a stack. The
-- limit on its entries makes it end, also on a file system whose links go round.
use mathlib.Core.List.{reverse}
use mathlib.Core.Path.{subst}
use cobrust_studio.Base.{
  ℕ, zero, suc, ◌+◌, ◌-◌, ◌≤◌, ◌<◌, Bool, ◌&&◌, Option, none, some, List, [], ◌∷◌, ◌++◌, ◌≡◌, refl,
  arith, map, Text, lt_text, length, length-append, leb, ltb, Result, ok, err, ok_injective,
  if◌then◌else◌, Bool-cases, Result-cases, inl, inr,
}
use cobrust_studio.Host.{FilePath}
use cobrust_studio.Router.Policy.{sort_by}
use cobrust_studio.Agent.System.{FileKind, System}
use cobrust_studio.Agent.Tools.{max_tree_entries, join, strip_path, should_skip_tree_entry}

abbrev Stack : Type 0
Stack = List (FilePath × ℕ)

entry_text : FilePath → Option FilePath → Bool → Text
entry_text p none slash = b'/' ∷ join p ++ (if slash then b'/' ∷ [] else [])
entry_text p (some rel) slash = join rel ++ (if slash then b'/' ∷ [] else [])

-- the names that the tree shows of a directory, in order
kept_names : List (Text × FileKind) → List Text
kept_names [] = []
kept_names (e ∷ es) = if should_skip_tree_entry e.0 then kept_names es else e.0 ∷ kept_names es

sorted_children : FilePath → List (Text × FileKind) → List FilePath
unfolding kept_names
sorted_children d entries =
    map (λ name. d ++ name ∷ []) (sort_by (λ a b. lt_text b a) (kept_names entries))

module _ (sys : System) (w : sys.W) (root : FilePath) (max_depth : ℕ) where
  -- the loop over the children of a directory, from the last
  add_children : ℕ → List FilePath → Stack → List Text → Result Text (Stack × List Text)
  unfolding entry_text
  add_children depth [] stack out = ok (stack, out)
  add_children depth (p ∷ ps) stack out =
      if leb max_tree_entries (length out) then ok (stack, out) else elim (sys.metadata p w) [
        | err m ↦ err m
        | ok meta ↦
            add_children depth ps
              (if meta.is_dir && ltb depth max_depth then (p, depth + 1) ∷ stack else stack)
              (out ++ entry_text p (strip_path root p) meta.is_dir ∷ [])
      ]

  -- the loop over the stack, with fuel
  unfoldable pub tree : ℕ → Stack → List Text → Option (Result Text (List Text))
  unfolding add_children sorted_children
  tree zero stack out = none
  tree (suc fuel) [] out = some (ok out)
  tree (suc fuel) ((d, depth) ∷ stack) out =
      if leb max_tree_entries (length out) then some (ok out) else elim (sys.read_dir d w) [
        | err m ↦ some (err m)
        | ok entries ↦ elim (add_children depth (reverse (sorted_children d entries)) stack out) [
          | err m ↦ some (err m)
          | ok (stack', out') ↦ tree fuel stack' out'
        ]
      ]

  -- The directories on the stack and the entries that are left to fill.
  abbrev room : Stack → List Text → ℕ
  room stack out = length stack + (max_tree_entries - length out)

  pushed-room :
      (stack stack' : Stack) (out out' : List Text)
      → length stack' ≤ length stack + 1
      → length out' ≡ length out + 1
      → length out < max_tree_entries
      → room stack' out' ≤ room stack out
  pushed-room stack stack' out out' h k l = omega arith

  add_children-room :
      (depth : ℕ) (ps : List FilePath) (stack : Stack) (out : List Text) (next : Stack × List Text)
      → add_children depth ps stack out ≡ ok next
      → room next.0 next.1 ≤ room stack out
  unfolding add_children
  add_children-room depth [] stack out next h =
      subst (λ (x : Stack × List Text). room x.0 x.1 ≤ room stack out) (ok_injective h)
        (omega arith)
  add_children-room depth (p ∷ ps) stack out next h =
      elim (Bool-cases (leb max_tree_entries (length out))) [
        | inl full ↦
            subst (λ (x : Stack × List Text). room x.0 x.1 ≤ room stack out)
              (ok_injective (rw (full, add_children) at h)) (omega arith)
        | inr open_ ↦ elim (Result-cases (sys.metadata p w)) [
          | inr (m, e) ↦ absurd (cc (rw (open_, e, add_children) at h))
          | inl (meta, e) ↦
              let out' = out ++ entry_text p (strip_path root p) meta.is_dir ∷ [] in
              let stack' =
                if meta.is_dir && ltb depth max_depth then (p, depth + 1) ∷ stack else stack in
              let fits =
                pushed-room stack stack' out out' (ground arith)
                  (ground
                    (arith, length-append out (entry_text p (strip_path root p) meta.is_dir ∷ [])))
                  (ground arith) in
              let later =
                add_children-room depth ps stack' out' next (rw (open_, e, add_children) at h) in
              omega (arith, fits, later)
        ]
      ]

  -- The walk ends: one round for each directory on the stack and each entry that is left to fill.
  pub tree-some :
      (fuel : ℕ) (stack : Stack) (out : List Text)
      → length stack + (max_tree_entries - length out) < fuel
      → (r : Result Text (List Text)) × (tree fuel stack out ≡ some r)
  unfolding tree
  tree-some zero stack out h = absurd (omega arith)
  tree-some (suc fuel) [] out h = (ok out, refl)
  tree-some (suc fuel) ((d, depth) ∷ stack) out h =
      elim (Bool-cases (leb max_tree_entries (length out))) [
        | inl full ↦ (ok out, rw (full, tree))
        | inr open_ ↦ elim (Result-cases (sys.read_dir d w)) [
          | inr (m, e) ↦ (err m, rw (open_, e, tree))
          | inl (entries, e) ↦
              elim (Result-cases
                (add_children depth (reverse (sorted_children d entries)) stack out)) [
                  | inr (m, f) ↦ (err m, rw (open_, e, f, tree))
                  | inl (next, f) ↦
                      let less = add_children-room depth _ stack out next f in
                      let (r, done) = tree-some fuel next.0 next.1 (omega arith) in
                      (r, rw (open_, e, f, tree) done)
                ]
        ]
      ]
