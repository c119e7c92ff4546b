-- ===== src/Store/View/Sync.antt =====
-- What `sync_from_jsonl` of crates/studio-store/src/ledger.rs makes of a file.
use mathlib.Core.List.{append_assoc, append-nil}
use mathlib.Core.Path.{subst}
use cobrust_studio.Base.{
  ℕ, ◌+◌, ◌≡◌, refl, sym, ap, ◌∙◌, arith, ◌==◌, Bool, true, false, not, ◌&&◌, List, [], ◌∷◌, ◌++◌,
  Text, trim, is_empty, length, Result, ok, err, map_err, map_err-ok, if◌then◌else◌, Bool-cases,
  inl, inr, ok_injective, length-append,
}
use cobrust_studio.Ledger.{LedgerEntry}
use cobrust_studio.Host.{FilePath}
use cobrust_studio.Store.{sqlite, ledger_parse}
use cobrust_studio.Store.Session.{Bytes}
use cobrust_studio.Store.Markdown.{lines}
use cobrust_studio.Steps.{lift, behind-ok}
use cobrust_studio.Store.View.{
  ViewHost, ViewRow, IsView, row_of, insert_row, append, clear, import_parsed, import_line,
  import_lines, import_bytes, import_read, sync_from_jsonl, ends_line_feed,
}

-- The specification: the rows of the entries on the lines of a text, in their order. A line that is
-- blank gives none.
module _ (host : ViewHost) where
  open host use {to_json, from_json}

  unfoldable pub row_of_json : LedgerEntry → Result Text Text → List ViewRow
  unfolding row_of
  row_of_json e (ok raw) = row_of host e raw ∷ []
  row_of_json e (err m) = []

  unfoldable pub row_of_parsed : Result Text LedgerEntry → List ViewRow
  unfolding row_of_json
  row_of_parsed (ok e) = row_of_json e (to_json e)
  row_of_parsed (err m) = []

  unfoldable pub rows_of_line : Text → List ViewRow
  unfolding row_of_parsed
  rows_of_line line = if is_empty (trim line) then [] else row_of_parsed (from_json line)

  unfoldable pub rows_of : List Text → List ViewRow
  unfolding rows_of_line
  rows_of [] = []
  rows_of (l ∷ ls) = rows_of_line l ++ rows_of ls

  unfoldable pub parses : Result Text LedgerEntry → Bool
  parses (ok e) = true
  parses (err m) = false

  -- every line is blank or parses, but for the last one where the text may end within a line
  unfoldable pub are_entries : Bool → List Text → Bool
  unfolding parses
  are_entries partial [] = true
  are_entries partial (l ∷ ls) =
      let later = are_entries partial ls in
      if is_empty (trim l)
      then later
      else if parses (from_json l)
      then later
      else partial && is_empty ls

-- Whether the bytes end within a line.
unfoldable pub is_partial : Bytes → Bool
unfolding ends_line_feed
is_partial bytes = not (is_empty bytes) && not (ends_line_feed bytes)

module _ (host : ViewHost) (view : IsView host) where
  abbrev Imported : List ViewRow → ℕ → host.Db → ℕ → host.Db → Type 0
  Imported found n db n' db' = (host.rows db' ≡ host.rows db ++ found) × (n' ≡ n + length found)

  Imported-nothing : (n : ℕ) (db : host.Db) → Imported [] n db n db
  Imported-nothing n db = (sym (append-nil (host.rows db)), omega arith)

  one_row : (e : LedgerEntry) (raw : Text) → length (row_of_json host e (ok raw)) ≡ 1
  unfolding row_of_json
  one_row e raw = refl

  insert_row-rows :
      (e : LedgerEntry) (raw : Text) (db : host.Db)
      → (insert_row host e raw db).0 ≡ ok tt
      → host.rows (insert_row host e raw db).1 ≡ host.rows db ++ row_of_json host e (ok raw)
  unfolding insert_row row_of_json
  insert_row-rows e raw db h = view.insert_rows (row_of host e raw) db (map_err-ok sqlite _ h)

  append-rows :
      (e : LedgerEntry) (db : host.Db)
      → (append host e db).0 ≡ ok tt
      → (length (row_of_json host e (host.to_json e)) ≡ 1)
        × (host.rows (append host e db).1 ≡ host.rows db ++ row_of_json host e (host.to_json e))
  unfolding append
  append-rows e db h =
      behind-ok
        (λ t.
          (length (row_of_json host e (host.to_json e)) ≡ 1)
          × (host.rows t ≡ host.rows db ++ row_of_json host e (host.to_json e)))
        (lift (map_err (ledger_parse host.db_path 0) (host.to_json e))) _ db h
        (λ raw first rest.
          let printed = map_err-ok _ _ first in
          (
            ap (λ r. length (row_of_json host e r)) printed ∙ one_row e raw,
            insert_row-rows e raw db rest
                ∙ ap (λ r. host.rows db ++ row_of_json host e r) (sym printed),
          ))

  import_parsed-Imported :
      (path : FilePath) (partial : Bool) (total i n : ℕ) (r : Result Text LedgerEntry)
      (db : host.Db) (n' : ℕ)
      → (import_parsed host path partial total i n r db).0 ≡ ok n'
      → Imported (row_of_parsed host r) n db n' (import_parsed host path partial total i n r db).1
        × ((if parses host r then true else partial && (i == total)) ≡ true)
  unfolding import_parsed row_of_parsed parses
  import_parsed-Imported path partial total i n (ok e) db n' h =
      behind-ok (λ t. Imported (row_of_parsed host (ok e)) n db n' t × (true ≡ true))
        (append host e) _ db h
        (λ u first rest.
          let (one, at) = append-rows e db first in
          ((at, omega (arith, one, ok_injective rest)), refl))
  import_parsed-Imported path partial total i n (err m) db n' h =
      elim (Bool-cases (partial && (i == total))) [
        | inl e ↦ rw e (
          subst (λ x. Imported [] n db x db) (ok_injective (rw e at h)) (Imported-nothing n db),
          refl,
        )
        | inr e ↦ absurd (cc (rw e at h))
      ]

  import_line-Imported :
      (path : FilePath) (partial : Bool) (total i n : ℕ) (l : Text) (db : host.Db) (n' : ℕ)
      → (import_line host path partial total i n l db).0 ≡ ok n'
      → Imported (rows_of_line host l) n db n' (import_line host path partial total i n l db).1
        × ((if is_empty (trim l)
              then true
              else if parses host (host.from_json l)
              then true
              else partial && (i == total))
            ≡ true)
  unfolding import_line rows_of_line
  import_line-Imported path partial total i n l db n' h = elim (Bool-cases (is_empty (trim l))) [
    | inl e ↦ rw e (
      subst (λ x. Imported [] n db x db) (ok_injective (rw e at h)) (Imported-nothing n db),
      refl,
    )
    | inr e ↦
        rw e (import_parsed-Imported path partial total i n (host.from_json l) db n' (rw e at h))
  ]

  Imported-trans :
      (f g : List ViewRow) (n : ℕ) (db : host.Db) (n1 : ℕ) (db1 : host.Db) (n2 : ℕ) (db2 : host.Db)
      → Imported f n db n1 db1
      → Imported g n1 db1 n2 db2
      → Imported (f ++ g) n db n2 db2
  Imported-trans f g n db n1 db1 n2 db2 (at, counted) (at', counted') = (
    at' ∙ (ap (λ x. x ++ g) at ∙ append_assoc (host.rows db) f g),
    omega (arith, counted, counted', length-append f g),
  )

  is_last : (i total : ℕ) (ls : List Text) → i + length ls ≡ total → (i == total) ≡ is_empty ls
  is_last i total [] h = ground (arith, h)
  is_last i total (l ∷ ls) h = ground (arith, h)

  are_entries-cons :
      (blank parsed partial last later : Bool)
      → (if blank then true else if parsed then true else partial && last) ≡ true
      → later ≡ true
      → (if blank then later else if parsed then later else partial && last) ≡ true
  are_entries-cons true parsed partial last later h k = k
  are_entries-cons false true partial last later h k = k
  are_entries-cons false false partial last later h k = h

  import_lines-Imported :
      (path : FilePath) (partial : Bool) (total i n : ℕ) (ls : List Text) (db : host.Db) (n' : ℕ)
      → i + length ls ≡ total + 1
      → (import_lines host path partial total i n ls db).0 ≡ ok n'
      → Imported (rows_of host ls) n db n' (import_lines host path partial total i n ls db).1
        × (are_entries host partial ls ≡ true)
  unfolding import_lines rows_of are_entries
  import_lines-Imported path partial total i n [] db n' counted h =
      (subst (λ x. Imported [] n db x db) (ok_injective h) (Imported-nothing n db), refl)
  import_lines-Imported path partial total i n (l ∷ ls) db n' counted h =
      behind-ok
        (λ t.
          Imported (rows_of host (l ∷ ls)) n db n' t × (are_entries host partial (l ∷ ls) ≡ true))
        (import_line host path partial total i n l) _ db h
        (λ n1 first rest.
          let db1 = (import_line host path partial total i n l db).1 in
          let (here, accepted) = import_line-Imported path partial total i n l db n1 first in
          let (later, entries) =
            import_lines-Imported path partial total (i + 1) n1 ls db1 n' (omega (arith, counted))
              rest in
          let last = is_last i total ls (omega (arith, counted)) in
          (
            Imported-trans (rows_of_line host l) (rows_of host ls) n db n1 db1 n' _ here later,
            are_entries-cons (is_empty (trim l)) (parses host (host.from_json l)) partial
                (is_empty ls) _
                (ap
                    (λ b.
                      if is_empty (trim l)
                      then true
                      else if parses host (host.from_json l)
                      then true
                      else partial && b)
                    (sym last)
                  ∙ accepted)
                entries,
          ))

  clear-rows : (db : host.Db) → (clear host db).0 ≡ ok tt → host.rows (clear host db).1 ≡ []
  unfolding clear
  clear-rows db h = view.delete_rows_rows db (map_err-ok sqlite _ h)

  import_bytes-rows :
      (path : FilePath) (bytes : Bytes) (db : host.Db) (n : ℕ)
      → (import_bytes host path bytes db).0 ≡ ok n
      → (host.rows (import_bytes host path bytes db).1 ≡ rows_of host (lines (host.lossy bytes)))
        × (n ≡ length (rows_of host (lines (host.lossy bytes))))
        × (are_entries host (is_partial bytes) (lines (host.lossy bytes)) ≡ true)
  unfolding import_bytes is_partial
  import_bytes-rows path bytes db n h =
      let ls = lines (host.lossy bytes) in
      behind-ok
        (λ t.
          (host.rows t ≡ rows_of host ls)
          × (n ≡ length (rows_of host ls))
          × (are_entries host (is_partial bytes) ls ≡ true))
        (clear host) _ db h
        (λ u first rest.
          let ((at, counted), entries) =
            import_lines-Imported path (is_partial bytes) (length ls) 1 0 ls (clear host db).1 n
              (omega arith) rest in
          (
            at ∙ ap (λ x. x ++ rows_of host ls) (clear-rows db first),
            omega (arith, counted),
            entries,
          ))

  -- A sync of a file that can be read, where it succeeds, leaves in the view the rows of the entries of
  -- the file, in their order, and nothing of what was there before; it returns their number; and every
  -- line of the file is blank or an entry, but for the last one if the file ends within it.
  pub sync_from_jsonl-rows :
      (path : FilePath) (bytes : Bytes) (db : host.Db) (n : ℕ)
      → host.read_bytes path ≡ ok bytes
      → (sync_from_jsonl host path db).0 ≡ ok n
      → (host.rows (sync_from_jsonl host path db).1 ≡ rows_of host (lines (host.lossy bytes)))
        × (n ≡ length (rows_of host (lines (host.lossy bytes))))
        × (are_entries host (is_partial bytes) (lines (host.lossy bytes)) ≡ true)
  unfolding sync_from_jsonl import_read
  sync_from_jsonl-rows path bytes db n readable h =
      rw readable (import_bytes-rows path bytes db n (rw readable at h))
