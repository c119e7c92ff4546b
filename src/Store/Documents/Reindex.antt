-- ===== src/Store/Documents/Reindex.antt =====
-- The index after a `reindex` of crates/studio-store/src/adr.rs or crates/studio-store/src/finding.rs.
use mathlib.Core.Bool.{or_assoc, or-false}
use mathlib.Core.Path.{subst}
use cobrust_studio.Base.{
  ℕ, ◌≡◌, refl, sym, ap, ◌∙◌, Bool, true, false, ◌||◌, List, [], ◌∷◌, ◌++◌, Option, none, some,
  Text, Result, ok, err, if◌then◌else◌, any, Bool-cases, ok_injective, map_err-ok, inl, inr,
}
use cobrust_studio.Host.{FilePath, IoError}
use cobrust_studio.Store.{StoreError, sqlite}
use cobrust_studio.Steps.{◌>>=◌, behind-ok}
use cobrust_studio.Store.Documents.{
  Kind, System, IsTable, is_document, mtime_or_zero, upsert_index, prune_index, index_parsed,
  index_text, index_path, index_entries, reindex_listing, reindex,
}

or_else {ℓ} : {A : Type ℓ} → Option A → Option A → Option A
or_else none o = o
or_else (some a) o = some a

is_some {ℓ} : {A : Type ℓ} → Option A → Bool
is_some none = false
is_some (some a) = true

-- The specification: what the index has for an id, by the files alone.
module _ (kind : Kind) where
  open kind use {Key, Doc, Row, eq_id, parse, id_of, row_of}

  row_if : Key → Doc → ℕ → Option Row
  row_if id doc t = if eq_id id (id_of doc) then some (row_of doc t) else none

  row_of_parsed : Key → Option ℕ → Result StoreError Doc → Option Row
  unfolding row_if mtime_or_zero
  row_of_parsed id t (err e) = none
  row_of_parsed id t (ok doc) = row_if id doc (mtime_or_zero t)

  row_of_text : Key → FilePath → Option ℕ → Result IoError Text → Option Row
  unfolding row_of_parsed
  row_of_text id path t (err e) = none
  row_of_text id path t (ok text) = row_of_parsed id t (parse path text)

  -- the row that a file gives to an id
  row_of_file :
      (FilePath → Result IoError Text) → (FilePath → Option ℕ) → Key → FilePath → Option Row
  unfolding row_of_text
  row_of_file texts times id path =
      if is_document path then row_of_text id path (times path) (texts path) else none

  -- the row of the last file in the directory that has the id
  unfoldable pub last_row :
      (FilePath → Result IoError Text)
      → (FilePath → Option ℕ)
      → Key
      → List (Result IoError FilePath)
      → Option Row
  unfolding row_of_file or_else
  last_row texts times id [] = none
  last_row texts times id (err e ∷ es) = last_row texts times id es
  last_row texts times id (ok path ∷ es) =
      or_else (last_row texts times id es) (row_of_file texts times id path)

or_else_assoc {ℓ} :
    {A : Type ℓ} (x y z : Option A) → or_else (or_else x y) z ≡ or_else x (or_else y z)
unfolding or_else
or_else_assoc none y z = refl
or_else_assoc (some a) y z = refl

is_some-or_else {ℓ} :
    {A : Type ℓ} (x y : Option A) → is_some (or_else x y) ≡ (is_some y || is_some x)
unfolding or_else is_some
is_some-or_else none y = sym (or-false (is_some y))
is_some-or_else (some a) none = refl
is_some-or_else (some a) (some b) = refl

-- the rows that are kept of those that were added
kept-or_else {ℓ} : {A : Type ℓ} (x old : Option A) → (if is_some x then or_else x old else none) ≡ x
unfolding or_else is_some
kept-or_else none old = refl
kept-or_else (some a) old = refl

any-snoc {ℓ} :
    {A : Type ℓ} (p : A → Bool) (xs : List A) (x : A) → any p (xs ++ x ∷ []) ≡ (any p xs || p x)
unfolding any
any-snoc p [] x = or-false (p x)
any-snoc p (y ∷ xs) x = ap (λ b. p y || b) (any-snoc p xs x) ∙ sym (or_assoc (p y) (any p xs) (p x))

module _ (kind : Kind) (system : System kind) (table : IsTable kind system) where
  -- What the loop has done, from one state to another: it has read no other texts, the table has the
  -- rows of the files, and the ids that it has seen are those of these files.
  abbrev Indexed :
      (kind.Key → Option kind.Row) → List kind.Key → system.W → List kind.Key → system.W → Type 0
  Indexed found seen w seen' w' =
      (system.reads w' ≡ system.reads w)
      × (system.mtime_ns w' ≡ system.mtime_ns w)
      × ((id : kind.Key)
          → (system.rows w' id ≡ or_else (found id) (system.rows w id))
            × (any (kind.eq_id id) seen' ≡ (any (kind.eq_id id) seen || is_some (found id))))

  Indexed-refl :
      (found : kind.Key → Option kind.Row) (seen : List kind.Key) (w : system.W)
      → ((id : kind.Key) → found id ≡ none)
      → Indexed found seen w seen w
  unfolding or_else is_some
  Indexed-refl found seen w h =
      (refl, refl, λ id. (rw (h id) refl, rw (h id) (sym (or-false (any (kind.eq_id id) seen)))))

  row_if-upsert :
      (doc : kind.Doc) (t : ℕ) (id : kind.Key) (old : Option kind.Row)
      → (if kind.eq_id id (kind.id_of doc) then some (kind.row_of doc t) else old)
        ≡ or_else (row_if kind id doc t) old
  unfolding row_if or_else
  row_if-upsert doc t id old = elim (Bool-cases (kind.eq_id id (kind.id_of doc))) [
    | inl e ↦ rw e refl
    | inr e ↦ rw e refl
  ]

  row_if-is_some :
      (doc : kind.Doc) (t : ℕ) (id : kind.Key)
      → kind.eq_id id (kind.id_of doc) ≡ is_some (row_if kind id doc t)
  unfolding row_if is_some
  row_if-is_some doc t id = elim (Bool-cases (kind.eq_id id (kind.id_of doc))) [
    | inl e ↦ rw e refl
    | inr e ↦ rw e refl
  ]

  upserted-Indexed :
      (path : FilePath) (seen : List kind.Key) (doc : kind.Doc) (w : system.W)
      → (upsert_index kind system path doc w).0 ≡ ok tt
      → Indexed
          (λ id. row_if kind id doc (mtime_or_zero (system.mtime_ns w path)))
          seen
          w
          (seen ++ kind.id_of doc ∷ [])
          (upsert_index kind system path doc w).1
  unfolding upsert_index
  upserted-Indexed path seen doc w h =
      let t = mtime_or_zero (system.mtime_ns w path) in
      let key = kind.id_of doc in
      let row = kind.row_of doc t in
      let written = map_err-ok sqlite _ h in
      (
        table.upsert_reads key row w,
        table.upsert_mtime_ns key row w,
        λ id. (
          table.upsert_rows key id row w written ∙ row_if-upsert doc t id (system.rows w id),
          any-snoc (kind.eq_id id) seen key
              ∙ ap (λ b. any (kind.eq_id id) seen || b) (row_if-is_some doc t id),
        ),
      )

  index_parsed-Indexed :
      (path : FilePath) (seen : List kind.Key) (r : Result StoreError kind.Doc) (w : system.W)
      (seen' : List kind.Key)
      → (index_parsed kind system path seen r w).0 ≡ ok seen'
      → Indexed
          (λ id. row_of_parsed kind id (system.mtime_ns w path) r)
          seen
          w
          seen'
          (index_parsed kind system path seen r w).1
  unfolding index_parsed row_of_parsed
  index_parsed-Indexed path seen (err e) w seen' h =
      subst (λ x. Indexed (λ id. none) seen w x w) (ok_injective h)
        (Indexed-refl (λ id. none) seen w (λ id. refl))
  index_parsed-Indexed path seen (ok doc) w seen' h =
      behind-ok
        (Indexed (λ id. row_of_parsed kind id (system.mtime_ns w path) (ok doc)) seen w seen')
        (upsert_index kind system path doc) _ w h
        (λ u first rest.
          subst
            (λ x.
              Indexed (λ id. row_if kind id doc (mtime_or_zero (system.mtime_ns w path))) seen w x
                (upsert_index kind system path doc w).1)
            (ok_injective rest) (upserted-Indexed path seen doc w first))

  index_text-Indexed :
      (path : FilePath) (seen : List kind.Key) (r : Result IoError Text) (w : system.W)
      (seen' : List kind.Key)
      → (index_text kind system path seen r w).0 ≡ ok seen'
      → Indexed
          (λ id. row_of_text kind id path (system.mtime_ns w path) r)
          seen
          w
          seen'
          (index_text kind system path seen r w).1
  unfolding index_text row_of_text
  index_text-Indexed path seen (err e) w seen' h = absurd (cc h)
  index_text-Indexed path seen (ok text) w seen' h =
      index_parsed-Indexed path seen (kind.parse path text) w seen' h

  index_path-Indexed :
      (path : FilePath) (seen : List kind.Key) (w : system.W) (seen' : List kind.Key)
      → (index_path kind system path seen w).0 ≡ ok seen'
      → Indexed
          (λ id. row_of_file kind (system.reads w) (system.mtime_ns w) id path)
          seen
          w
          seen'
          (index_path kind system path seen w).1
  unfolding index_path row_of_file
  index_path-Indexed path seen w seen' h = elim (Bool-cases (is_document path)) [
    | inl e ↦ rw e (index_text-Indexed path seen (system.reads w path) w seen' (rw e at h))
    | inr e ↦ rw e (
        subst (λ x. Indexed (λ id. none) seen w x w) (ok_injective (rw e at h))
          (Indexed-refl (λ id. none) seen w (λ id. refl)))
  ]

  Indexed-trans :
      (f g : kind.Key → Option kind.Row) (a : List kind.Key) (u : system.W) (b : List kind.Key)
      (v : system.W) (c : List kind.Key) (w : system.W)
      → Indexed f a u b v
      → Indexed g b v c w
      → Indexed (λ id. or_else (g id) (f id)) a u c w
  Indexed-trans f g a u b v c w (same, times, at) (same', times', at') = (
    same' ∙ same,
    times' ∙ times,
    λ id. (
      (at' id).0
          ∙ (ap (or_else (g id)) (at id).0 ∙ sym (or_else_assoc (g id) (f id) (system.rows u id))),
      (at' id).1
          ∙ (ap (λ x. x || is_some (g id)) (at id).1
              ∙ (or_assoc (any (kind.eq_id id) a) (is_some (f id)) (is_some (g id))
                  ∙ ap (λ x. any (kind.eq_id id) a || x) (sym (is_some-or_else (g id) (f id))))),
    ),
  )

  moved-Indexed :
      {texts texts' : FilePath → Result IoError Text} {times times' : FilePath → Option ℕ}
      (es : List (Result IoError FilePath)) (a : List kind.Key) (u : system.W) (b : List kind.Key)
      (v : system.W)
      → texts' ≡ texts
      → times' ≡ times
      → Indexed (λ id. last_row kind texts' times' id es) a u b v
      → Indexed (λ id. last_row kind texts times id es) a u b v
  moved-Indexed {texts' = texts'} {times = times} es a u b v same at h =
      subst (λ t. Indexed (λ id. last_row kind t times id es) a u b v) same
        (subst (λ t. Indexed (λ id. last_row kind texts' t id es) a u b v) at h)

  index_entries-Indexed :
      (dir : FilePath) (es : List (Result IoError FilePath)) (seen : List kind.Key) (w : system.W)
      (seen' : List kind.Key)
      → (index_entries kind system dir es seen w).0 ≡ ok seen'
      → Indexed
          (λ id. last_row kind (system.reads w) (system.mtime_ns w) id es)
          seen
          w
          seen'
          (index_entries kind system dir es seen w).1
  unfolding index_entries last_row
  index_entries-Indexed dir [] seen w seen' h =
      subst (λ x. Indexed (λ id. none) seen w x w) (ok_injective h)
        (Indexed-refl (λ id. none) seen w (λ id. refl))
  index_entries-Indexed dir (err e ∷ es) seen w seen' h = absurd (cc h)
  index_entries-Indexed dir (ok path ∷ es) seen w seen' h =
      behind-ok
        (Indexed (λ id. last_row kind (system.reads w) (system.mtime_ns w) id (ok path ∷ es)) seen w
          seen')
        (index_path kind system path seen) _ w h
        (λ seen1 first rest.
          let w1 = (index_path kind system path seen w).1 in
          let here = index_path-Indexed path seen w seen1 first in
          let later = index_entries-Indexed dir es seen1 w1 seen' rest in
          Indexed-trans _ (λ id. last_row kind (system.reads w) (system.mtime_ns w) id es) seen w
            seen1 w1 seen' _ here (moved-Indexed es seen1 w1 seen' _ here.0 here.1 later))

  prune_index-rows :
      (keep : List kind.Key) (w : system.W) (id : kind.Key)
      → (prune_index kind system keep w).0 ≡ ok tt
      → system.rows (prune_index kind system keep w).1 id
        ≡ (if any (kind.eq_id id) keep then system.rows w id else none)
  unfolding prune_index any
  prune_index-rows [] w id h = table.delete_all_rows id w (map_err-ok sqlite _ h)
  prune_index-rows (i ∷ is) w id h = table.delete_not_in_rows (i ∷ is) id w (map_err-ok sqlite _ h)

  indexed-rows :
      (dir : FilePath) (entries : List (Result IoError FilePath)) (w : system.W) (id : kind.Key)
      → ((index_entries kind system dir entries [] >>= prune_index kind system) w).0 ≡ ok tt
      → system.rows ((index_entries kind system dir entries [] >>= prune_index kind system) w).1 id
        ≡ last_row kind (system.reads w) (system.mtime_ns w) id entries
  unfolding any
  indexed-rows dir entries w id h =
      let found = last_row kind (system.reads w) (system.mtime_ns w) id entries in
      behind-ok (λ t. system.rows t id ≡ found) (index_entries kind system dir entries []) _ w h
        (λ keep first rest.
          let w1 = (index_entries kind system dir entries [] w).1 in
          let (_, _, at) = index_entries-Indexed dir entries [] w keep first in
          prune_index-rows keep w1 id rest
          ∙ (ap (λ b. if b then system.rows w1 id else none) (at id).1
              ∙ (ap (λ r. if is_some found then r else none) (at id).0
                  ∙ kept-or_else found (system.rows w id))))

  -- After a reindex of a directory that could be listed and that succeeded, the index has, for every
  -- id, the row of the last file in the directory that is a document with this id, and no row where
  -- there is none, whatever rows it had before.
  pub reindex-last_row :
      (dir : FilePath) (entries : List (Result IoError FilePath)) (w : system.W) (id : kind.Key)
      → system.listing w dir ≡ ok entries
      → (reindex kind system dir w).0 ≡ ok tt
      → system.rows (reindex kind system dir w).1 id
        ≡ last_row kind (system.reads w) (system.mtime_ns w) id entries
  unfolding reindex reindex_listing
  reindex-last_row dir entries w id listed h =
      rw listed (indexed-rows dir entries w id (rw listed at h))
