-- ===== src/Models/Ids.antt =====
-- What `parse_model_ids`, in crates/studio-server/src/routes/models.rs, lists.
use mathlib.Core.Path.{subst}
use cobrust_studio.Base.{
  ◌≤◌, ◌<◌, ◌≡◌, refl, sym, ap, ◌∙◌, arith, leb, Bool, true, false, ◌||◌, not, ◌&&◌, inl, inr, List,
  [], ◌∷◌, ◌++◌, Option, none, some, Text, trim, is_empty, eq_text, eq_text_iff, eq_text_refl,
  contains_text, contains_text-append, contains_text-set_insert, set_insert, length, length-append,
  ok, All, All-append, All-map, any, Bool-cases, or_true, both, neither, ok_injective, >>=-eq-ok,
  map_err, map_err-ok,
}
use cobrust_studio.Store.Session.{Bytes}
use cobrust_studio.Models.{max_models, collect, some_ids, Lister, parse_model_ids}

-- no text twice
abbrev pub AreDistinct : List Text → Type 0
AreDistinct [] = Unit
AreDistinct (t ∷ ts) = (contains_text t ts ≡ false) × AreDistinct ts

AreDistinct-snoc :
    (ts : List Text) (t : Text)
    → AreDistinct ts
    → contains_text t ts ≡ false
    → AreDistinct (ts ++ t ∷ [])
unfolding contains_text
AreDistinct-snoc [] t h k = (refl, tt)
AreDistinct-snoc (u ∷ ts) t (h, hs) k =
    let (apart, k') = neither (eq_text u t) (contains_text t ts) k in
    (
      contains_text-append u ts (t ∷ [])
          ∙ ground (arith, h, apart, eq_text_iff u t, eq_text_iff t u),
      AreDistinct-snoc ts t hs k',
    )

-- the id of an entry, if it is listed at all
abbrev pub names : Text → Option Text → Bool
names id none = false
names id (some raw) = eq_text (trim raw) id && not (is_empty (trim raw))

-- the seen ids are those that are listed
abbrev SeenAre : List Text → List Text → Type 0
SeenAre seen ids = (t : Text) → contains_text t seen ≡ contains_text t ids

SeenAre-snoc :
    (seen ids : List Text) (id : Text)
    → SeenAre seen ids
    → SeenAre (set_insert id seen) (ids ++ id ∷ [])
unfolding contains_text
SeenAre-snoc seen ids id same t =
    contains_text-set_insert t id seen
    ∙ ap (λ b. eq_text id t || b) (same t)
    ∙ ground arith
    ∙ sym (contains_text-append t ids (id ∷ []))

-- What the loop keeps: at most as many ids as may be listed, all different.
abbrev IsKept : List Text → Type 0
IsKept ids = (length ids ≤ max_models) × AreDistinct ids

collect-IsKept :
    (data_ : List (Option Text)) (seen ids : List Text)
    → SeenAre seen ids
    → length ids < max_models
    → AreDistinct ids
    → IsKept (collect data_ seen ids)
unfolding collect
collect-IsKept [] seen ids same short distinct = (omega (arith, short), distinct)
collect-IsKept (none ∷ data_) seen ids same short distinct =
    collect-IsKept data_ seen ids same short distinct
collect-IsKept (some raw ∷ data_) seen ids same short distinct =
    elim (Bool-cases (is_empty (trim raw) || contains_text (trim raw) seen)) [
      | inl skip ↦ rw skip (collect-IsKept data_ seen ids same short distinct)
      | inr keep ↦
          let (_, fresh) = neither (is_empty (trim raw)) (contains_text (trim raw) seen) keep in
          let distinct' =
            AreDistinct-snoc ids (trim raw) distinct (sym (same (trim raw)) ∙ fresh) in
          elim (Bool-cases (leb max_models (length (ids ++ trim raw ∷ [])))) [
            | inl full ↦
                rw (keep, full) (omega (arith, short, length-append ids (trim raw ∷ [])), distinct')
            | inr more ↦
                rw (keep, more)
                  (collect-IsKept data_ (set_insert (trim raw) seen) (ids ++ trim raw ∷ [])
                    (SeenAre-snoc seen ids (trim raw) same) (ground (arith, more)) distinct')
          ]
    ]

collect-All :
    (Q : Text → Type 0) (data_ : List (Option Text)) (seen ids : List Text)
    → All (λ o. (id : Text) → names id o ≡ true → Q id) data_
    → All Q ids
    → All Q (collect data_ seen ids)
unfolding collect
collect-All Q [] seen ids h all = all
collect-All Q (none ∷ data_) seen ids (_, h) all = collect-All Q data_ seen ids h all
collect-All Q (some raw ∷ data_) seen ids (q, h) all =
    elim (Bool-cases (is_empty (trim raw) || contains_text (trim raw) seen)) [
      | inl skip ↦ rw skip (collect-All Q data_ seen ids h all)
      | inr keep ↦
          let (filled, _) = neither (is_empty (trim raw)) (contains_text (trim raw) seen) keep in
          let all' =
            All-append Q ids (trim raw ∷ []) all
              (q (trim raw) (rw (eq_text_refl (trim raw), filled) refl), tt) in
          elim (Bool-cases (leb max_models (length (ids ++ trim raw ∷ [])))) [
            | inl full ↦ rw (keep, full) all'
            | inr more ↦ rw (keep, more) (collect-All Q data_ _ _ h all')
          ]
    ]

collect-contains_text :
    (data_ : List (Option Text)) (seen ids : List Text) (t : Text)
    → contains_text t ids ≡ true
    → contains_text t (collect data_ seen ids) ≡ true
unfolding collect
collect-contains_text [] seen ids t h = h
collect-contains_text (none ∷ data_) seen ids t h = collect-contains_text data_ seen ids t h
collect-contains_text (some raw ∷ data_) seen ids t h =
    let still : contains_text t (ids ++ trim raw ∷ []) ≡ true =
      contains_text-append t ids (trim raw ∷ []) ∙ rw h refl in
    elim (Bool-cases (is_empty (trim raw) || contains_text (trim raw) seen)) [
      | inl skip ↦ rw skip (collect-contains_text data_ seen ids t h)
      | inr keep ↦ elim (Bool-cases (leb max_models (length (ids ++ trim raw ∷ [])))) [
        | inl full ↦ rw (keep, full) still
        | inr more ↦ rw (keep, more) (collect-contains_text data_ _ _ t still)
      ]
    ]

-- An entry is listed, unless it is blank.
abbrev pub IsCovered : List Text → Option Text → Type 0
IsCovered out o = (id : Text) → names id o ≡ true → contains_text id out ≡ true

named :
    (id raw : Text) → names id (some raw) ≡ true → (trim raw ≡ id) × (is_empty (trim raw) ≡ false)
named id raw h =
    let (same, filled) = both (eq_text (trim raw) id) (not (is_empty (trim raw))) h in
    ((eq_text_iff (trim raw) id).0 same, ground (arith, filled))

module _ (raw : Text) (data_ : List (Option Text)) (seen ids : List Text) where
  collect-skip :
      (is_empty (trim raw) || contains_text (trim raw) seen) ≡ true
      → collect (some raw ∷ data_) seen ids ≡ collect data_ seen ids
  unfolding collect
  collect-skip h = rw h refl

  collect-full :
      (is_empty (trim raw) || contains_text (trim raw) seen) ≡ false
      → leb max_models (length (ids ++ trim raw ∷ [])) ≡ true
      → collect (some raw ∷ data_) seen ids ≡ ids ++ trim raw ∷ []
  unfolding collect
  collect-full h k = rw (h, k) refl

  collect-more :
      (is_empty (trim raw) || contains_text (trim raw) seen) ≡ false
      → leb max_models (length (ids ++ trim raw ∷ [])) ≡ false
      → collect (some raw ∷ data_) seen ids
        ≡ collect data_ (set_insert (trim raw) seen) (ids ++ trim raw ∷ [])
  unfolding collect
  collect-more h k = rw (h, k) refl

  seen-IsCovered :
      SeenAre seen ids
      → (is_empty (trim raw) || contains_text (trim raw) seen) ≡ true
      → IsCovered (collect data_ seen ids) (some raw)
  seen-IsCovered same skip id h =
      let (is, filled) = named id raw h in
      let before : contains_text (trim raw) seen ≡ true = ground (arith, skip, filled) in
      subst (λ t. contains_text t (collect data_ seen ids) ≡ true) is
        (collect-contains_text data_ seen ids (trim raw) (sym (same (trim raw)) ∙ before))

  added-IsCovered :
      IsCovered (collect data_ (set_insert (trim raw) seen) (ids ++ trim raw ∷ [])) (some raw)
  unfolding contains_text
  added-IsCovered id h =
      let (is, filled) = named id raw h in
      let out = collect data_ (set_insert (trim raw) seen) (ids ++ trim raw ∷ []) in
      subst (λ t. contains_text t out ≡ true) is
        (collect-contains_text data_ _ _ (trim raw) (
          contains_text-append (trim raw) ids (trim raw ∷ [])
          ∙ rw (eq_text_refl (trim raw)) (ground arith)))

collect-IsCovered :
    (data_ : List (Option Text)) (seen ids : List Text)
    → SeenAre seen ids
    → length (collect data_ seen ids) < max_models
    → All (IsCovered (collect data_ seen ids)) data_
unfolding collect
collect-IsCovered [] seen ids same short = tt
collect-IsCovered (none ∷ data_) seen ids same short =
    ((λ id h. absurd (cc h)), collect-IsCovered data_ seen ids same short)
collect-IsCovered (some raw ∷ data_) seen ids same short =
    elim (Bool-cases (is_empty (trim raw) || contains_text (trim raw) seen)) [
      | inl skip ↦
          let e = collect-skip raw data_ seen ids skip in
          subst (λ out. All (IsCovered out) (some raw ∷ data_)) (sym e)
            (
              seen-IsCovered raw data_ seen ids same skip,
              collect-IsCovered data_ seen ids same
                  (subst (λ out. length out < max_models) e short),
            )
      | inr keep ↦ elim (Bool-cases (leb max_models (length (ids ++ trim raw ∷ [])))) [
        | inl full ↦
            let e = collect-full raw data_ seen ids keep full in
            let short' = subst (λ out. length out < max_models) e short in
            absurd (ground (arith, full, short'))
        | inr more ↦
            let e = collect-more raw data_ seen ids keep more in
            subst (λ out. All (IsCovered out) (some raw ∷ data_)) (sym e)
              (
                added-IsCovered raw data_ seen ids,
                collect-IsCovered data_ _ _ (SeenAre-snoc seen ids (trim raw) same)
                    (subst (λ out. length out < max_models) e short),
              )
      ]
    ]

-- What the list of a provider is: 1 to 512 ids, all different, each the trimmed text of an entry and not
-- empty; and where there are fewer than 512, every entry that is not blank is listed.
abbrev pub IsListing : List (Option Text) → List Text → Type 0
IsListing entries ids =
    (1 ≤ length ids)
    × (length ids ≤ max_models)
    × AreDistinct ids
    × All (λ id. any (names id) entries ≡ true) ids
    × (length ids < max_models → All (IsCovered ids) entries)

any-names :
    (entries : List (Option Text))
    → All (λ o. (id : Text) → names id o ≡ true → any (names id) entries ≡ true) entries
unfolding any
any-names [] = tt
any-names (o ∷ entries) = (
  (λ id h. rw h refl),
  All-map entries (any-names entries) λ p later id h. or_true (names id o) (later id h),
)

some_ids-ok :
    (out : List Text) {ids : List Text} → some_ids out ≡ ok ids → (out ≡ ids) × (1 ≤ length out)
unfolding some_ids
some_ids-ok [] h = absurd (cc h)
some_ids-ok (id ∷ out) h = (ok_injective h, omega arith)

-- A list of models that a route returns is a listing of the entries of the provider.
pub parse_model_ids-IsListing :
    (lister : Lister) (bytes : Bytes) {ids : List Text}
    → parse_model_ids lister bytes ≡ ok ids
    → (entries : List (Option Text)) × (lister.envelope bytes ≡ ok entries) × IsListing entries ids
unfolding parse_model_ids
parse_model_ids-IsListing lister bytes h =
    let (entries, read, rest) = >>=-eq-ok (map_err _ (lister.envelope bytes)) _ h in
    let (same, filled) = some_ids-ok (collect entries [] []) rest in
    let (few, distinct) = collect-IsKept entries [] [] (λ t. refl) (omega arith) tt in
    (
      entries,
      map_err-ok _ (lister.envelope bytes) read,
      subst (IsListing entries) same (
        filled,
        few,
        distinct,
        collect-All _ entries [] [] (any-names entries) tt,
        collect-IsCovered entries [] [] λ t. refl,
      ),
    )
