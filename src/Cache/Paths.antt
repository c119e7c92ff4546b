-- ===== src/Cache/Paths.antt =====
-- The paths of crates/studio-router/src/cache.rs: the temporary file of a put is no cache entry.
use cobrust_studio.Base.{
  false, Option, none, some, [], ◌∷◌, ◌++◌, ◌≡◌, ◌≢◌, refl, sym, ap, ◌∙◌, arith, Text, codes,
  contains_char,
}
use cobrust_studio.Host.{FilePath}
use cobrust_studio.Cache.{path_for, rsplit_dot, stem_or, with_extension, tmp_path}

-- A dot with no dot behind it is the last one.
rsplit_dot-none : (s : Text) → contains_char b'.' s ≡ false → rsplit_dot s ≡ none
unfolding rsplit_dot contains_char
rsplit_dot-none [] h = refl
rsplit_dot-none (c ∷ s) h = ground (arith, rsplit_dot-none s)

rsplit_dot-append :
    (s t : Text) → contains_char b'.' t ≡ false → rsplit_dot (s ++ b'.' ∷ t) ≡ some (s, t)
unfolding rsplit_dot
rsplit_dot-append [] t h = rw (rsplit_dot-none t h)
rsplit_dot-append (c ∷ s) t h = rw (rsplit_dot-append s t h)

-- Two names with different extensions are different.
extension_ne :
    (s t x y : Text)
    → contains_char b'.' x ≡ false
    → contains_char b'.' y ≡ false
    → x ≢ y
    → s ++ b'.' ∷ x ≢ t ++ b'.' ∷ y
extension_ne s t x y hx hy ne e =
    let parts : ◌≡◌ {A = Option (Text × Text)} (some (s, x)) (some (t, y)) =
      sym (rsplit_dot-append s x hx) ∙ ap rsplit_dot e ∙ rsplit_dot-append t y hy in
    ne (cc)

with_extension-append :
    (ext : Text) (root : FilePath) (a b name : Text)
    → with_extension ext (root ++ (a ∷ b ∷ name ∷ []))
      ≡ root ++ (a ∷ b ∷ (stem_or name (rsplit_dot name) ++ b'.' ∷ ext) ∷ [])
unfolding with_extension
with_extension-append ext [] a b name = refl
with_extension-append ext (r ∷ []) a b name = refl
with_extension-append ext (r ∷ s ∷ root) a b name =
    ap (◌∷◌ r) (with_extension-append ext (s ∷ root) a b name)

last_eq :
    (root : FilePath) (a b x c d y : Text)
    → root ++ (a ∷ b ∷ x ∷ []) ≡ root ++ (c ∷ d ∷ y ∷ [])
    → x ≡ y
last_eq [] a b x c d y e = cc
last_eq (r ∷ root) a b x c d y e = last_eq root a b x c d y (cc)

-- No key, whatever its text, has its entry at the temporary path of a put.
pub tmp_path-ne-path_for :
    (root : FilePath) (key other : Text) → tmp_path (path_for root key) ≢ path_for root other
unfolding tmp_path path_for codes contains_char
tmp_path-ne-path_for root key other e =
    extension_ne _ other (codes "tmp") (codes "json") refl refl (λ p. cc)
      (last_eq root _ _ _ _ _ _ (sym (with_extension-append (codes "tmp") root _ _ _) ∙ e))
