-- ===== src/Store/Slug/Shape.antt =====
-- What `slugify` in crates/studio-store/src/adr.rs makes of any title.
use cobrust_studio.Base.{
  ℕ, ◌==◌, ◌≡◌, refl, arith, Bool, true, false, not, ◌&&◌, ◌||◌, [], ◌∷◌, ◌++◌, Text, codes,
  is_empty, if◌then◌else◌, Bool-cases, inl, inr, ◌∙◌, both, neither,
}
use cobrust_studio.Store.Slug.{
  is_ascii_alphanumeric, slug_char, slug_chars, flat_map_lower, keep_dashes, pop_dashes,
  or_untitled, slugify,
}

-- letters and digits of ASCII, and dashes
unfoldable pub all_slug : Text → Bool
unfolding is_ascii_alphanumeric
all_slug [] = true
all_slug (c ∷ s) = (is_ascii_alphanumeric c || c == b'-') && all_slug s

unfoldable pub starts_dash : Text → Bool
starts_dash [] = false
starts_dash (c ∷ s) = c == b'-'

unfoldable pub ends_dash : Text → Bool
ends_dash [] = false
ends_dash (c ∷ []) = c == b'-'
ends_dash (c ∷ d ∷ s) = ends_dash (d ∷ s)

-- two dashes with nothing between them
unfoldable pub double_dash : Text → Bool
unfolding starts_dash
double_dash [] = false
double_dash (c ∷ s) = (c == b'-' && starts_dash s) || double_dash s

abbrev IsSlug : Text → Type 0
IsSlug s = (all_slug s ≡ true) × (starts_dash s ≡ false) × (double_dash s ≡ false)

all_slug-snoc :
    (s : Text) (c : ℕ)
    → all_slug (s ++ c ∷ []) ≡ (all_slug s && (is_ascii_alphanumeric c || c == b'-'))
unfolding all_slug is_ascii_alphanumeric
all_slug-snoc [] c = ground arith
all_slug-snoc (d ∷ s) c = rw (all_slug-snoc s c) (ground arith)

double_dash-snoc :
    (s : Text) (c : ℕ) → double_dash (s ++ c ∷ []) ≡ (double_dash s || (ends_dash s && c == b'-'))
unfolding double_dash starts_dash ends_dash
double_dash-snoc [] c = ground arith
double_dash-snoc (d ∷ []) c = ground arith
double_dash-snoc (d ∷ e ∷ s) c = rw (double_dash-snoc (e ∷ s) c) (ground arith)

ends_dash-snoc : (s : Text) (c : ℕ) → ends_dash (s ++ c ∷ []) ≡ (c == b'-')
unfolding ends_dash
ends_dash-snoc [] c = refl
ends_dash-snoc (d ∷ []) c = refl
ends_dash-snoc (d ∷ e ∷ s) c = ends_dash-snoc (e ∷ s) c

starts_dash-snoc :
    (s : Text) (c : ℕ)
    → starts_dash (s ++ c ∷ []) ≡ (if is_empty s then c == b'-' else starts_dash s)
unfolding starts_dash
starts_dash-snoc [] c = refl
starts_dash-snoc (d ∷ s) c = refl

-- what the loop keeps: the text so far is a slug, and the flag says whether it ends in a dash
abbrev Kept : Text × Bool → Type 0
Kept (s, prev_dash) = IsSlug s × (ends_dash s ≡ prev_dash)

alphanumeric-dash : (c : ℕ) → is_ascii_alphanumeric c ≡ true → (c == b'-') ≡ false
unfolding is_ascii_alphanumeric
alphanumeric-dash c h = ground (arith, h)

front-kept :
    (s : Text) (d p q : Bool)
    → starts_dash s ≡ false
    → d ≡ q
    → (q && (p || is_empty s)) ≡ false
    → (if is_empty s then d else starts_dash s) ≡ false
front-kept [] d true true h e f = absurd (cc f)
front-kept [] d false true h e f = absurd (cc f)
front-kept [] d p false h e f = e
front-kept (c ∷ s) d p q h e f = h

apart-kept :
    (x l d p q i : Bool)
    → x ≡ false
    → l ≡ p
    → d ≡ q
    → (q && (p || i)) ≡ false
    → (x || (l && d)) ≡ false
apart-kept x l d p q i hx hl hd h = ground (arith, hx, hl, hd, h)

pushed-Kept :
    (c : ℕ) (s : Text) (p q : Bool)
    → Kept (s, p)
    → (is_ascii_alphanumeric c || c == b'-') ≡ true
    → (c == b'-') ≡ q
    → (q && (p || is_empty s)) ≡ false
    → Kept (s ++ c ∷ [], q)
unfolding starts_dash ends_dash
pushed-Kept c s p q ((good, front, apart), last) fits dash free = (
  (
    all_slug-snoc s c ∙ rw (good, fits) refl,
    starts_dash-snoc s c ∙ front-kept s _ p q front dash free,
    double_dash-snoc s c ∙ apart-kept _ _ _ p q _ apart last dash free,
  ),
  ends_dash-snoc s c ∙ dash,
)

slug_char-Kept : (c : ℕ) (s : Text) (p : Bool) → Kept (s, p) → Kept (slug_char c (s, p))
unfolding slug_char
slug_char-Kept c s p h = elim (Bool-cases (is_ascii_alphanumeric c)) [
  | inl e ↦ rw e (pushed-Kept c s p false h (rw e refl) (alphanumeric-dash c e) refl)
  | inr e ↦ elim (Bool-cases (not p && not (is_empty s))) [
    | inl f ↦ rw (e) (rw f (pushed-Kept b'-' s p true h refl refl (ground arith)))
    | inr f ↦ rw (e) (rw f h)
  ]
]

slug_chars-Kept : (cs s : Text) (p : Bool) → Kept (s, p) → Kept (slug_chars cs (s, p))
unfolding slug_chars
slug_chars-Kept [] s p h = h
slug_chars-Kept (c ∷ cs) s p h =
    slug_chars-Kept cs (slug_char c (s, p)).0 (slug_char c (s, p)).1 (slug_char-Kept c s p h)

starts_dash-keep_dashes :
    (c : ℕ) (s : Text) → (c == b'-') ≡ false → starts_dash (keep_dashes c s) ≡ false
unfolding keep_dashes starts_dash
starts_dash-keep_dashes c [] h = rw (h) h
starts_dash-keep_dashes c (x ∷ s) h = h

apart-cons : (a x y : Bool) → (a && x) ≡ false → (x ≡ false → y ≡ false) → (a && y) ≡ false
apart-cons true x y h k = k h
apart-cons false x y h k = refl

starts_dash-pop_dashes : (s : Text) → starts_dash s ≡ false → starts_dash (pop_dashes s) ≡ false
unfolding pop_dashes keep_dashes starts_dash
starts_dash-pop_dashes [] h = refl
starts_dash-pop_dashes (c ∷ s) h = starts_dash-keep_dashes c (pop_dashes s) h

keep_dashes-IsSlug :
    (c : ℕ) (s : Text)
    → all_slug (c ∷ s) ≡ true
    → ends_dash s ≡ false
    → double_dash (c ∷ s) ≡ false
    → (all_slug (keep_dashes c s) ≡ true)
      × (ends_dash (keep_dashes c s) ≡ false)
      × (double_dash (keep_dashes c s) ≡ false)
unfolding keep_dashes all_slug ends_dash double_dash starts_dash
keep_dashes-IsSlug c (x ∷ s) h e d = (h, e, d)
keep_dashes-IsSlug c [] h e d = elim (Bool-cases (c == b'-')) [
  | inl f ↦ rw f (refl, refl, refl)
  | inr f ↦ rw f (h, f, d)
]

nothing-IsSlug : (all_slug [] ≡ true) × (ends_dash [] ≡ false) × (double_dash [] ≡ false)
unfolding all_slug ends_dash double_dash
nothing-IsSlug = (refl, refl, refl)

pop_dashes-IsSlug :
    (s : Text)
    → all_slug s ≡ true
    → double_dash s ≡ false
    → (all_slug (pop_dashes s) ≡ true)
      × (ends_dash (pop_dashes s) ≡ false)
      × (double_dash (pop_dashes s) ≡ false)
unfolding pop_dashes all_slug double_dash
pop_dashes-IsSlug [] h d = nothing-IsSlug
pop_dashes-IsSlug (c ∷ s) h d =
    let (fits, rest) = both (is_ascii_alphanumeric c || c == b'-') (all_slug s) h in
    let (first, later) = neither (c == b'-' && starts_dash s) (double_dash s) d in
    let (h', e', d') = pop_dashes-IsSlug s rest later in
    let apart =
      apart-cons (c == b'-') (starts_dash s) (starts_dash (pop_dashes s)) first
        (starts_dash-pop_dashes s) in
    keep_dashes-IsSlug c (pop_dashes s) (rw (fits, h') refl) e' (rw (apart, d') refl)

or_untitled-shape :
    (s : Text)
    → all_slug s ≡ true
    → starts_dash s ≡ false
    → ends_dash s ≡ false
    → double_dash s ≡ false
    → (is_empty (or_untitled s) ≡ false)
      × (all_slug (or_untitled s) ≡ true)
      × (starts_dash (or_untitled s) ≡ false)
      × (ends_dash (or_untitled s) ≡ false)
      × (double_dash (or_untitled s) ≡ false)
unfolding or_untitled all_slug is_ascii_alphanumeric starts_dash ends_dash double_dash codes
or_untitled-shape [] h f e d = (refl, refl, refl, refl, refl)
or_untitled-shape (c ∷ s) h f e d = (refl, h, f, e, d)

-- Whatever the title is, and whatever the lower case of its characters, its slug is not empty, has
-- letters and digits of ASCII and dashes alone, has no dash in front and none at its end, and no two
-- dashes in a row: the name of a file in one directory.
pub slugify-shape :
    (lower : ℕ → Text) (title : Text)
    → (is_empty (slugify lower title) ≡ false)
      × (all_slug (slugify lower title) ≡ true)
      × (starts_dash (slugify lower title) ≡ false)
      × (ends_dash (slugify lower title) ≡ false)
      × (double_dash (slugify lower title) ≡ false)
unfolding slugify all_slug starts_dash ends_dash double_dash
slugify-shape lower title =
    let kept = slug_chars-Kept (flat_map_lower lower title) [] false ((refl, refl, refl), refl) in
    let ((h, f, d), _) = kept in
    let (h', e', d') =
      pop_dashes-IsSlug (slug_chars (flat_map_lower lower title) ([], false)).0 h d in
    let out = (slug_chars (flat_map_lower lower title) ([], false)).0 in
    or_untitled-shape (pop_dashes out) h' (starts_dash-pop_dashes out f) e' d'
