-- ===== src/Agent/Paths/Inside.antt =====
-- The file tools of crates/studio-server/src/agent_loop.rs and the project root.
use cobrust_studio.Base.{
  Bool, true, false, not, List, [], ◌∷◌, ◌++◌, ◌≡◌, inl, inr, refl, sym, ap, ◌∙◌, arith, Text,
  codes, is_empty, eq_text, eq_text_iff, ok, Bool-cases, Result-cases, ok_or, ◌>>◌, refuse_if, All,
  >>=-eq-ok, >>-eq-ok, ok_injective,
}
use mathlib.Core.Path.{subst}
use cobrust_studio.Host.{FilePath}
use cobrust_studio.Agent.Paths.{
  Component, segments, later_component, cons_some, later_components, first_component, components_of,
  components, relative, is_inside, check_components, checked_relative_path, names, starts_with,
  split_last, Links, resolve_existing, resolve_write_path, canonical,
}

-- a piece that does not go up
abbrev pub IsPiece : Text → Type 0
IsPiece s = eq_text s (codes "..") ≡ false

check_components-ok :
    (cs : List Component) → check_components cs ≡ ok tt → All (λ c. is_inside c ≡ true) cs
unfolding check_components
check_components-ok [] h = tt
check_components-ok (c ∷ cs) h = elim (Bool-cases (is_inside c)) [
  | inl inside ↦ (inside, check_components-ok cs (rw inside at h))
  | inr out ↦ absurd (cc (rw out at h))
]

later-IsPiece :
    (s : Text) (cs : List Component)
    → All (λ c. is_inside c ≡ true) (cons_some (later_component s) cs)
    → IsPiece s × All (λ c. is_inside c ≡ true) cs
unfolding later_component cons_some is_inside eq_text codes
later-IsPiece s cs h = elim (Bool-cases (eq_text s (codes ".."))) [
  | inl up ↦ absurd (
      cc (
        (subst (λ x. All (λ c. is_inside c ≡ true) (cons_some (later_component x) cs))
          ((eq_text_iff s (codes "..")).0 up) h).0))
  | inr not_up ↦ ground arith
]

later_components-IsPiece :
    (ss : List Text) → All (λ c. is_inside c ≡ true) (later_components ss) → All IsPiece ss
unfolding later_components
later_components-IsPiece [] h = tt
later_components-IsPiece (s ∷ ss) h =
    let (piece, rest) = later-IsPiece s (later_components ss) h in
    (piece, later_components-IsPiece ss rest)

first-IsPiece :
    (s : Text) (cs : List Component)
    → All (λ c. is_inside c ≡ true) (cons_some (first_component s) cs)
    → IsPiece s × All (λ c. is_inside c ≡ true) cs
unfolding first_component cons_some eq_text codes
first-IsPiece s cs h = elim (Bool-cases (eq_text s (codes "."))) [
  | inl dot ↦ (subst IsPiece (sym ((eq_text_iff s (codes ".")).0 dot)) refl, (rw dot at h).1)
  | inr no_dot ↦ later-IsPiece s cs (rw no_dot at h)
]

components-IsPiece :
    (ss : List Text) → All (λ c. is_inside c ≡ true) (components_of ss) → All IsPiece ss
unfolding components_of is_inside cons_some
components-IsPiece [] h = tt
components-IsPiece (s ∷ []) h = ((first-IsPiece s [] h).0, tt)
components-IsPiece (s ∷ t ∷ ss) h = elim (Bool-cases (is_empty s)) [
  | inl none_left ↦ absurd (cc ((rw none_left at h).0))
  | inr some_left ↦
      let (piece, rest) = first-IsPiece s (later_components (t ∷ ss)) (rw some_left at h) in
      (piece, later_components-IsPiece (t ∷ ss) rest)
]

-- A path that `checked_relative_path` accepts has no piece `..` between its slashes.
pub checked_relative_path-IsPiece :
    (input rel : Text) → checked_relative_path input ≡ ok rel → All IsPiece (segments rel)
unfolding checked_relative_path components
checked_relative_path-IsPiece input rel h =
    let (checked, same) =
      >>-eq-ok (check_components (components (relative input))) (ok (relative input)) h in
    components-IsPiece (segments rel) (
      subst (λ x. All (λ c. is_inside c ≡ true) (components x)) (ok_injective same)
        (check_components-ok (components (relative input)) checked))

starts_with-append :
    (p root q : FilePath) → starts_with p root ≡ true → starts_with (p ++ q) root ≡ true
unfolding starts_with
starts_with-append p [] q h = refl
starts_with-append [] (r ∷ root) q h = absurd (cc h)
starts_with-append (c ∷ p) (r ∷ root) q h = let same = starts_with-append p root q in ground arith

-- the root with its links followed, and a path below it
abbrev pub IsInside : Links → FilePath → FilePath → Type 0
IsInside links project_root p =
    (root : FilePath) × (links.canonicalize project_root ≡ ok root) × (starts_with p root ≡ true)

canonical-ok :
    (links : Links) (p q : FilePath) → canonical links p ≡ ok q → links.canonicalize p ≡ ok q
unfolding canonical
canonical-ok links p q h = elim (Result-cases (links.canonicalize p)) [
  | inl (a, e) ↦ ground arith
  | inr (a, e) ↦ absurd (cc (rw e at h))
]

refused :
    {E A : Type 0} (b : Bool) (e : E) (a c : A)
    → (refuse_if (not b) e >> ok a) ≡ ok c
    → (b ≡ true) × (a ≡ c)
refused true e a c h = (refl, ok_injective h)
refused false e a c h = absurd (cc h)

-- A path that `resolve_existing` returns is what a path of the file system leads to when its links are
-- followed, and it is inside the project root with its links followed.
pub resolve_existing-IsInside :
    (links : Links) (project_root : FilePath) (input : Text) (p : FilePath)
    → resolve_existing links project_root input ≡ ok p
    → ((q : FilePath) × (links.canonicalize q ≡ ok p)) × IsInside links project_root p
unfolding resolve_existing
resolve_existing-IsInside links project_root input p h =
    let (root, hr, h1) = >>=-eq-ok (canonical links project_root) _ h in
    let (rel, hc, h2) = >>=-eq-ok (checked_relative_path input) _ h1 in
    let (resolved, hq, h3) = >>=-eq-ok (canonical links (root ++ names (components rel))) _ h2 in
    let (inside, same) = refused (starts_with resolved root) _ resolved p h3 in
    (
      (root ++ names (components rel), canonical-ok links _ p (hq ∙ ap ok same)),
      (
        root,
        canonical-ok links project_root root hr,
        subst (λ x. starts_with x root ≡ true) same inside,
      ),
    )

-- A path that `resolve_write_path` returns is one name in a directory; the directory has its links
-- followed and is inside the project root with its links followed, and so is the path, by its names.
pub resolve_write_path-IsInside :
    (links : Links) (project_root : FilePath) (input : Text) (p : FilePath)
    → resolve_write_path links project_root input ≡ ok p
    → ((parent : FilePath) × (name : Text) × (p ≡ parent ++ name ∷ [])
        × ((q : FilePath) × (links.canonicalize q ≡ ok parent))
        × IsInside links project_root parent)
      × IsInside links project_root p
unfolding resolve_write_path
resolve_write_path-IsInside links project_root input p h =
    let (root, hr, h1) = >>=-eq-ok (canonical links project_root) _ h in
    let (rel, hc, h2) = >>=-eq-ok (checked_relative_path input) _ h1 in
    let (place, hs, h3) = >>=-eq-ok (ok_or (split_last (root ++ names (components rel))) _) _ h2 in
    let (parent, hp, h4) = >>=-eq-ok (canonical links place.0) _ h3 in
    let (inside, same) = refused (starts_with parent root) _ (parent ++ place.1 ∷ []) p h4 in
    let followed = canonical-ok links project_root root hr in
    (
      (
        parent,
        place.1,
        sym same,
        (place.0, canonical-ok links place.0 parent hp),
        (root, followed, inside),
      ),
      (
        root,
        followed,
        subst (λ x. starts_with x root ≡ true) same
            (starts_with-append parent root (place.1 ∷ []) inside),
      ),
    )
