-- ===== src/Store/Documents/Created.antt =====
-- What `get` gives behind a `create`, in crates/studio-store/src/adr.rs and
-- crates/studio-store/src/finding.rs.
use mathlib.Core.Path.{subst}
use cobrust_studio.Base.{
  ℕ, ◌≡◌, refl, ap, ◌∙◌, true, Option, none, some, Text, Result, ok, map_err-ok, ok_injective,
}
use cobrust_studio.Host.{FilePath, IoError}
use cobrust_studio.Store.{sqlite}
use cobrust_studio.Steps.{behind-ok}
use cobrust_studio.Store.Documents.{
  Kind, System, IsTable, create_document, upsert_index, mtime_or_zero, get, get_path, get_text,
}

abbrev pub path_in : {A : Type 0} → (A → FilePath) → Option A → Option FilePath
path_in f none = none
path_in f (some a) = some (f a)

-- The row of a document has the path from which it was parsed, and an id is equal to itself.
pub record HasPath (kind : Kind) (path_of : kind.Row → FilePath) : Type 0 where
  pub parsed_path :
      (path : FilePath) (text : Text) (doc : kind.Doc) (t : ℕ)
      → kind.parse path text ≡ ok doc
      → path_of (kind.row_of doc t) ≡ path
  pub eq_id_refl : (key : kind.Key) → kind.eq_id key key ≡ true

-- A text that was written is read, and the path that is selected is that of the row.
pub record IsStored (kind : Kind) (system : System kind) (path_of : kind.Row → FilePath)
    : Type 0 where
  pub write_reads :
      (path : FilePath) (text : Text) (w : system.W)
      → (system.write path text w).0 ≡ ok tt
      → system.reads (system.write path text w).1 path ≡ ok text
  pub select_rows :
      (key : kind.Key) (w : system.W) {found : Option FilePath}
      → system.select_path key w ≡ ok found
      → found ≡ path_in path_of (system.rows w key)

-- The document is what is got by its id, where the select of its path succeeds.
abbrev pub Gets : (kind : Kind) (system : System kind) → kind.Doc → system.W → Type 0
Gets kind system doc w =
    (found : Option FilePath)
    → system.select_path (kind.id_of doc) w ≡ ok found
    → get kind system (kind.id_of doc) w ≡ ok (some doc)

module _ (kind : Kind) (system : System kind) (table : IsTable kind system)
    (path_of : kind.Row → FilePath) (has : HasPath kind path_of)
    (stored : IsStored kind system path_of) where
  get_text-parsed :
      (path : FilePath) (text : Text) (doc : kind.Doc)
      → kind.parse path text ≡ ok doc
      → get_text kind system path (ok text) ≡ ok (some doc)
  unfolding get_text
  get_text-parsed path text doc parsed = rw (get_text, parsed) refl

  get-reads :
      (path : FilePath) (text : Text) (doc : kind.Doc) (w : system.W)
      → system.select_path (kind.id_of doc) w ≡ ok (some path)
      → system.reads w path ≡ ok text
      → kind.parse path text ≡ ok doc
      → get kind system (kind.id_of doc) w ≡ ok (some doc)
  unfolding get get_path
  get-reads path text doc w selected reads parsed =
      ap (λ r. get_path kind system r w) selected
      ∙ ap (λ r. get_text kind system path r) reads
      ∙ get_text-parsed path text doc parsed

  upsert_index-Gets :
      (path : FilePath) (text : Text) (doc : kind.Doc) (w : system.W)
      → system.reads w path ≡ ok text
      → kind.parse path text ≡ ok doc
      → (upsert_index kind system path doc w).0 ≡ ok tt
      → Gets kind system doc (upsert_index kind system path doc w).1
  unfolding upsert_index
  upsert_index-Gets path text doc w reads parsed h found selected =
      let row = kind.row_of doc (mtime_or_zero (system.mtime_ns w path)) in
      let w' = (system.upsert (kind.id_of doc) row w).1 in
      let there : system.rows w' (kind.id_of doc) ≡ some row =
        table.upsert_rows (kind.id_of doc) (kind.id_of doc) row w (map_err-ok sqlite _ h)
        ∙ rw (has.eq_id_refl (kind.id_of doc)) refl in
      let at : found ≡ some path =
        stored.select_rows (kind.id_of doc) w' selected
        ∙ ap (path_in path_of) there
        ∙ ap some (has.parsed_path path text doc _ parsed) in
      get-reads path text doc w' (selected ∙ ap ok at)
        (ap (λ (f : FilePath → Result IoError Text). f path)
            (table.upsert_reads (kind.id_of doc) row w)
          ∙ reads)
        parsed

  -- A document that was created is got by its id, where the select of its path succeeds.
  pub create_document-Gets :
      (path : FilePath) (filename text : Text) (w : system.W) {doc : kind.Doc}
      → (create_document kind system path filename text w).0 ≡ ok doc
      → Gets kind system doc (create_document kind system path filename text w).1
  unfolding create_document
  create_document-Gets path filename text w {doc} h =
      behind-ok (Gets kind system doc) _ _ w h λ u h1 rest1.
        behind-ok (Gets kind system doc) _ _ w rest1 λ v h2 rest2.
          behind-ok (Gets kind system doc) _ _ _ rest2 λ parsed h3 rest3.
            behind-ok (Gets kind system doc) _ _ _ rest3 λ x h4 rest4.
              let same : parsed ≡ doc = ok_injective rest4 in
              subst
                (λ d.
                  Gets kind system d
                    (upsert_index kind system path parsed (system.write path text w).1).1)
                same
                (upsert_index-Gets path text parsed _
                  (stored.write_reads path text w (map_err-ok _ _ h2)) h3 h4)
