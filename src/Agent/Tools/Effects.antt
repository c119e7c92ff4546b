-- ===== src/Agent/Tools/Effects.antt =====
-- What the tools of crates/studio-server/src/agent_loop.rs do to the outside.
use mathlib.Core.List.{append_assoc, append-nil}
use cobrust_studio.Base.{
  Bool, true, Option, none, some, List, [], ◌∷◌, ◌++◌, ◌≡◌, ◌⊎◌, inl, inr, refl, sym, ap, ◌∙◌, Text,
  codes, All, All-append, Result, ok, err,
}
use cobrust_studio.Json.{Value}
use cobrust_studio.Host.{FilePath}
use cobrust_studio.Agent.Policy.{ToolExecutionError}
use cobrust_studio.Agent.Paths.Inside.{
  IsInside, resolve_existing-IsInside, resolve_write_path-IsInside,
}
use cobrust_studio.Agent.Tools.{
  at, fs_read, fs_list, git_status, git_diff, fs_write, fs_delete, shell_exec, existing, writable,
  run_command, git_tracks_path, shell_directory, run_shell,
}
use cobrust_studio.Agent.System.{
  tool_result, System, Effect, wrote, removed, ran, Answer, value, failed, panicked, World, Tool,
  go_on, ◌>>=◌,
}

module _ {sys : System} where
  -- A tool whose effects all have a property, when it runs where `Q` holds; then `R` holds behind it.
  abbrev pub Emits : {A : Type 0} → (Effect → Type 0) → Tool sys A → World sys → Type 0
  Emits P m s = (es : List Effect) × ((m s).1.effects ≡ s.effects ++ es) × All P es

  Emits-none :
      {A : Type 0} (P : Effect → Type 0) (m : Tool sys A) (s : World sys)
      → (m s).1.effects ≡ s.effects
      → Emits P m s
  Emits-none P m s h = ([], h ∙ sym (append-nil s.effects), tt)

  Emits-go_on :
      {A B : Type 0} (P : Effect → Type 0) (r : Answer A) (f : A → Tool sys B) (s : World sys)
      → ((a : A) → r ≡ value a → Emits P (f a) s)
      → Emits P (go_on r f) s
  Emits-go_on P (value a) f s h = h a refl
  Emits-go_on P (failed e) f s h = ([], sym (append-nil s.effects), tt)
  Emits-go_on P panicked f s h = ([], sym (append-nil s.effects), tt)

  Emits-bind :
      {A B : Type 0} (P : Effect → Type 0) (m : Tool sys A) (f : A → Tool sys B) (s : World sys)
      → Emits P m s
      → ((a : A) → (m s).0 ≡ value a → Emits P (f a) (m s).1)
      → Emits P (m >>= f) s
  unfolding ◌>>=◌
  Emits-bind P m f s (es, h, k) next =
      let (fs, i, l) = Emits-go_on P (m s).0 f (m s).1 next in
      (es ++ fs, i ∙ ap (λ x. x ++ fs) h ∙ append_assoc s.effects es fs, All-append P es fs k l)

pub value_ok :
    {A : Type 0} (r : Result ToolExecutionError A) {a : A} → tool_result r ≡ value a → r ≡ ok a
value_ok (ok b) h = cc
value_ok (err e) h = absurd (cc h)

module _ (sys : System) (root : FilePath) (write_enabled : Bool) where
  -- A path that is one name in a directory, and the directory is what a path leads to when its links
  -- are followed, inside the project root. A link under the name itself is not looked at.
  abbrev pub IsNameInside : sys.W → FilePath → Type 0
  IsNameInside w p =
      (parent : FilePath) × (name : Text) × (p ≡ parent ++ name ∷ [])
      × ((q : FilePath) × ((at sys root w).canonicalize q ≡ ok parent))
      × IsInside (at sys root w) root parent

  -- A path that is what a path leads to when its links are followed, inside the project root.
  abbrev pub IsFollowedInside : sys.W → FilePath → Type 0
  IsFollowedInside w p =
      ((q : FilePath) × ((at sys root w).canonicalize q ≡ ok p)) × IsInside (at sys root w) root p

  -- What a tool may do: run git; and, when write tools are enabled, run any program, write to one name
  -- in a directory inside the project root, and remove a path inside it with its links followed; all
  -- this as the links stand when the call begins.
  abbrev pub IsAllowed : sys.W → Effect → Type 0
  IsAllowed w (wrote p c) = (write_enabled ≡ true) × IsNameInside w p
  IsAllowed w (removed p) = (write_enabled ≡ true) × IsFollowedInside w p
  IsAllowed w (ran program args cwd) = (program ≡ codes "git") ⊎ (write_enabled ≡ true)

  existing-IsFollowedInside :
      (path : Text) (s : World sys) (p : FilePath)
      → (existing sys root path s).0 ≡ value p
      → IsFollowedInside s.outside p
  unfolding existing
  existing-IsFollowedInside path s p h =
      resolve_existing-IsInside (at sys root s.outside) root path p (value_ok _ h)

  writable-IsNameInside :
      (path : Text) (s : World sys) (p : FilePath)
      → (writable sys root path s).0 ≡ value p
      → IsNameInside s.outside p
  unfolding writable
  writable-IsNameInside path s p h =
      (resolve_write_path-IsInside (at sys root s.outside) root path p (value_ok _ h)).0

  module _ (s : World sys) where
    abbrev pub Fits : {A : Type 0} → Tool sys A → World sys → Type 0
    Fits = Emits (IsAllowed s.outside)

    pub quiet :
        {A B : Type 0} (m : Tool sys A) (f : A → Tool sys B) (t : World sys)
        → (m t).1.effects ≡ t.effects
        → ((a : A) → (m t).0 ≡ value a → Fits (f a) (m t).1)
        → Fits (m >>= f) t
    quiet m f t h next = Emits-bind (IsAllowed s.outside) m f t (Emits-none _ m t h) next

    pub fs_read-Fits : (input : Value) → Fits (fs_read sys root input) s
    unfolding fs_read
    fs_read-Fits input = quiet _ _ s refl λ path _. quiet _ _ s refl λ resolved _.
        quiet _ _ s refl λ meta _. quiet _ _ s refl λ _ _. quiet _ _ s refl λ _ _.
          quiet _ _ s refl
            λ bytes _. quiet _ _ s refl λ content _. ([], sym (append-nil s.effects), tt)

    pub fs_list-Fits : (input : Value) → Fits (fs_list sys root input) s
    unfolding fs_list
    fs_list-Fits input =
        quiet _ _ s refl
          λ resolved _. quiet _ _ s refl λ entries _. ([], sym (append-nil s.effects), tt)

    pub git_status-Fits : Fits (git_status sys root) s
    unfolding git_status run_command
    git_status-Fits = (_ ∷ [], refl, (inl refl, tt))

    pub git_diff-Fits : (input : Value) → Fits (git_diff sys root input) s
    unfolding git_diff run_command
    git_diff-Fits input = quiet _ _ s refl λ rels _. (_ ∷ [], refl, (inl refl, tt))

    pub fs_write-Fits : write_enabled ≡ true → (input : Value) → Fits (fs_write sys root input) s
    unfolding fs_write
    fs_write-Fits enabled input = quiet _ _ s refl λ path _. quiet _ _ s refl λ content _.
        quiet _ _ s refl λ _ _. quiet _ _ s refl λ resolved found.
          Emits-bind _ _ _ s
            (
              wrote resolved content ∷ [],
              refl,
              ((enabled, writable-IsNameInside path s resolved found), tt),
            )
            λ _ _. ([], sym (append-nil _), tt)

    git_tracks_path-Fits : (path : FilePath) → Fits (git_tracks_path sys root path) s
    unfolding git_tracks_path
    git_tracks_path-Fits path =
        quiet _ _ s refl λ top _. quiet _ _ s refl λ rel _. (_ ∷ [], refl, (inl refl, tt))

    pub fs_delete-Fits : write_enabled ≡ true → (input : Value) → Fits (fs_delete sys root input) s
    unfolding fs_delete
    fs_delete-Fits enabled input = quiet _ _ s refl λ path _. quiet _ _ s refl λ resolved found.
        quiet _ _ s refl λ meta _. quiet _ _ s refl λ _ _.
          Emits-bind _ _ _ s (git_tracks_path-Fits resolved) λ tracked _. quiet _ _ _ refl λ _ _.
            Emits-bind _ _ _ _
              (
                removed resolved ∷ [],
                refl,
                ((enabled, existing-IsFollowedInside path s resolved found), tt),
              )
              λ _ _. ([], sym (append-nil _), tt)

    shell_directory-Fits : (cwd : Option Text) → Fits (shell_directory sys root cwd) s
    unfolding shell_directory
    shell_directory-Fits none = ([], sym (append-nil s.effects), tt)
    shell_directory-Fits (some cwd) = quiet _ _ s refl λ resolved _.
        quiet _ _ s refl λ meta _. quiet _ _ s refl λ _ _. ([], sym (append-nil s.effects), tt)

    pub shell_exec-Fits :
        write_enabled ≡ true → (input : Value) → Fits (shell_exec sys root input) s
    unfolding shell_exec run_shell
    shell_exec-Fits enabled input = quiet _ _ s refl λ cmd _. quiet _ _ s refl λ _ _.
        quiet _ _ s refl λ _ _.
          Emits-bind _ _ _ s (shell_directory-Fits _) λ cwd _. (_ ∷ [], refl, (inr enabled, tt))
