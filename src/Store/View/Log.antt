-- ===== src/Store/View/Log.antt =====
-- What the view of crates/studio-store/src/ledger.rs makes of the file that
-- crates/studio-router/src/ledger.rs writes.
pub mod Torn
use mathlib.Core.List.{append_assoc, append-nil}
use cobrust_studio.Base.{
  ℕ, ◌≡◌, refl, sym, ap, ◌∙◌, arith, Bool, true, false, List, [], ◌∷◌, ◌++◌, Text, trim, is_empty,
  length, ok, err, All, All-append, take, take-append, contains_char, contains_char-append,
  if◌then◌else◌,
}
use cobrust_studio.Ledger.{LedgerEntry}
use cobrust_studio.Ledger.Log.{LogFile, Written, whole, torn, write, append_line, append_lines}
use cobrust_studio.Host.{FilePath}
use cobrust_studio.Store.Session.{Bytes}
use cobrust_studio.Store.Markdown.{lines}
use cobrust_studio.Store.Markdown.Fences.{unlines, IsLine, lines-unlines}
use cobrust_studio.Steps.{lift, ◌>>=◌, >>=-ok}
use cobrust_studio.Store.View.{ViewHost, ViewRow, IsView, sync_from_jsonl, ends_line_feed}
use cobrust_studio.Store.View.Sync.{
  row_of_json, row_of_parsed, rows_of_line, rows_of, parses, are_entries, is_partial,
  sync_from_jsonl-rows,
}

-- the bytes of lines
abbrev pub log_bytes : (Text → Bytes) → List Text → Bytes
log_bytes utf8 [] = []
log_bytes utf8 (l ∷ ls) = (utf8 l ++ 10 ∷ []) ++ log_bytes utf8 ls

-- What serde_json does with a record: its JSON is one line that is not blank and is read back as the
-- record.
abbrev pub IsRecord : ViewHost → LedgerEntry → Type 0
IsRecord host e =
    (raw : Text)
    → host.to_json e ≡ ok raw
    → IsLine raw × (is_empty (trim raw) ≡ false) × (host.from_json raw ≡ ok e)

-- What the encoding of texts does: lines that are encoded are decoded to themselves.
abbrev pub IsEncoding : ViewHost → (Text → Bytes) → Type 0
IsEncoding host utf8 = (ls : List Text) → host.lossy (log_bytes utf8 ls) ≡ unlines ls

-- the rows of records, in their order
abbrev pub entry_rows : ViewHost → List LedgerEntry → List ViewRow
entry_rows host [] = []
entry_rows host (e ∷ es) = row_of_json host e (host.to_json e) ++ entry_rows host es

abbrev pub entries_of : List (LedgerEntry × Written) → List LedgerEntry
entries_of [] = []
entries_of ((e, w) ∷ more) = e ∷ entries_of more

length-entries_of :
    (attempts : List (LedgerEntry × Written)) → length (entries_of attempts) ≡ length attempts
length-entries_of [] = refl
length-entries_of ((e, w) ∷ more) = omega (arith, length-entries_of more)

module _ (host : ViewHost) (utf8 : Text → Bytes) where
  -- Texts that are the JSON of records.
  abbrev Prints : List LedgerEntry → List Text → Type 0
  Prints [] [] = Unit
  Prints [] (l ∷ ls) = ⊥
  Prints (e ∷ es) [] = ⊥
  Prints (e ∷ es) (l ∷ ls) = (host.to_json e ≡ ok l) × Prints es ls

  write-ok :
      (w : Written) (line : Bytes) (f : LogFile)
      → (write host.to_json utf8 w line f).0 ≡ ok tt
      → (write host.to_json utf8 w line f).1.content ≡ f.content ++ line
  unfolding write
  write-ok (whole flushed) line f h = refl
  write-ok (torn n why) line f h = absurd (cc h)

  append_line-ok :
      (w : Written) (e : LedgerEntry) (f : LogFile)
      → (append_line host.to_json utf8 w e f).0 ≡ ok tt
      → (raw : Text) × (host.to_json e ≡ ok raw)
        × ((append_line host.to_json utf8 w e f).1.content ≡ f.content ++ (utf8 raw ++ 10 ∷ []))
  unfolding append_line
  append_line-ok w e f h =
      let line = λ (raw : Text). utf8 raw ++ 10 ∷ [] in
      let (raw, first, rest, same) =
        >>=-ok (lift (host.to_json e)) (λ raw. write host.to_json utf8 w (line raw)) f h in
      (raw, first, ap (λ (x : LogFile). x.content) same ∙ write-ok w (line raw) f rest)

  append_lines-ok :
      (attempts : List (LedgerEntry × Written)) (f : LogFile)
      → (append_lines host.to_json utf8 attempts f).0 ≡ ok tt
      → (ls : List Text) × Prints (entries_of attempts) ls
        × ((append_lines host.to_json utf8 attempts f).1.content ≡ f.content ++ log_bytes utf8 ls)
  unfolding append_lines
  append_lines-ok [] f h = ([], tt, sym (append-nil f.content))
  append_lines-ok ((e, w) ∷ more) f h =
      let (u, first, rest, same) =
        >>=-ok (append_line host.to_json utf8 w e) (λ _. append_lines host.to_json utf8 more) f h in
      let (raw, printed, at) = append_line-ok w e f first in
      let (ls, prints, at') = append_lines-ok more (append_line host.to_json utf8 w e f).1 rest in
      (
        raw ∷ ls,
        (printed, prints),
        ap (λ (x : LogFile). x.content) same
            ∙ at'
            ∙ ap (λ c. c ++ log_bytes utf8 ls) at
            ∙ append_assoc f.content (utf8 raw ++ 10 ∷ []) (log_bytes utf8 ls),
      )

module _ (host : ViewHost) (utf8 : Text → Bytes) where
  Prints-IsLine :
      (es : List LedgerEntry) (ls : List Text)
      → All (IsRecord host) es
      → Prints host utf8 es ls
      → All IsLine ls
  Prints-IsLine [] [] r h = tt
  Prints-IsLine [] (l ∷ ls) r h = absurd h
  Prints-IsLine (e ∷ es) [] r h = tt
  Prints-IsLine (e ∷ es) (l ∷ ls) (r, rs) (h, k) =
      let (line, _, _) = r l h in (line, Prints-IsLine es ls rs k)

  rows_of-Prints :
      (es : List LedgerEntry) (ls : List Text)
      → All (IsRecord host) es
      → Prints host utf8 es ls
      → rows_of host ls ≡ entry_rows host es
  unfolding rows_of rows_of_line row_of_parsed
  rows_of-Prints [] [] r h = refl
  rows_of-Prints [] (l ∷ ls) r h = absurd h
  rows_of-Prints (e ∷ es) [] r h = absurd h
  rows_of-Prints (e ∷ es) (l ∷ ls) (r, rs) (h, k) =
      let (_, filled, read) = r l h in
      rw (filled, read)
        (ap (λ x. row_of_json host e (host.to_json e) ++ x) (rows_of-Prints es ls rs k))

  length-entry_rows :
      (es : List LedgerEntry) (ls : List Text)
      → Prints host utf8 es ls
      → length (entry_rows host es) ≡ length es
  unfolding row_of_json
  length-entry_rows [] ls h = refl
  length-entry_rows (e ∷ es) [] h = absurd h
  length-entry_rows (e ∷ es) (l ∷ ls) (h, k) = rw h (omega (arith, length-entry_rows es ls k))

  -- A sync of a file whose lines are the records that were appended to a new one, all with success,
  -- leaves their rows in the view, in their order, and returns their number, where it succeeds.
  pub sync_from_jsonl-append_lines :
      (view : IsView host) (path : FilePath) (attempts : List (LedgerEntry × Written)) (f : LogFile)
      (db : host.Db) (n : ℕ)
      → IsEncoding host utf8
      → All (IsRecord host) (entries_of attempts)
      → f.content ≡ []
      → (append_lines host.to_json utf8 attempts f).0 ≡ ok tt
      → host.read_bytes path ≡ ok (append_lines host.to_json utf8 attempts f).1.content
      → (sync_from_jsonl host path db).0 ≡ ok n
      → (host.rows (sync_from_jsonl host path db).1 ≡ entry_rows host (entries_of attempts))
        × (n ≡ length attempts)
  sync_from_jsonl-append_lines view path attempts f db n decoded records empty written readable
        synced =
      let (ls, prints, at) = append_lines-ok host utf8 attempts f written in
      let (rows, counted, _) = sync_from_jsonl-rows host view path _ db n readable synced in
      let found : rows_of host
            (lines (host.lossy (append_lines host.to_json utf8 attempts f).1.content))
          ≡ entry_rows host (entries_of attempts) =
        ap (λ c. rows_of host (lines (host.lossy c))) (at ∙ ap (λ c. c ++ log_bytes utf8 ls) empty)
        ∙ ap (λ t. rows_of host (lines t)) (decoded ls)
        ∙ ap (rows_of host) (lines-unlines ls (Prints-IsLine _ ls records prints))
        ∙ rows_of-Prints _ ls records prints in
      (
        rows ∙ found,
        counted ∙ ap length found ∙ length-entry_rows _ ls prints ∙ length-entries_of attempts,
      )
