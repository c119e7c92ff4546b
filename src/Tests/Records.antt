-- ===== src/Tests/Records.antt =====
-- Runs of crates/studio-store/src/adr.rs: slugs, documents, the index and its ids.
use cobrust_studio.Base.{
  ℕ, ◌^◌, ◌≡◌, ◌≤◌, ◌<◌, ◌==◌, refl, sym, arith, true, false, Option, none, some, List, [], ◌∷◌,
  ◌++◌, Text, codes, Result, ok, err, if◌then◌else◌, any, is_empty, All, eq_text, Bool-cases, inl,
  inr, ==_iff, ==_refl, contains_char, length, trim, trim_start, trim_end, is_whitespace,
}
use cobrust_studio.Host.{FilePath}
use cobrust_studio.Store.Slug.{slugify}
use cobrust_studio.Store.Slug.Shape.{all_slug, starts_dash, ends_dash, double_dash, slugify-shape}
use cobrust_studio.Store.Yaml.{number, string, u32_of, u32_only}
use cobrust_studio.Store.Markdown.{split_frontmatter, fence, lines}
use cobrust_studio.Store.Markdown.Fences.{unlines, split_frontmatter-unlines}
use cobrust_studio.Store.Documents.{System, IsTable, reindex, is_document, split_name, prune_index}
use cobrust_studio.Store.Documents.Reindex.{last_row, reindex-last_row}
use cobrust_studio.Store.Adr.{
  AdrYaml, AdrRow, adr_kind, parse_adr, allocate_next_id, deserialize_adr_id, deserialize_date,
}
use cobrust_studio.Store.Adr.Ids.{IsMax, allocate_next_id-fresh}
use cobrust_studio.Ledger.{LedgerEntry, ok_entry}
use cobrust_studio.Store.View.{ViewHost, ViewRow, IsView, sync_from_jsonl, clear, append}
use cobrust_studio.Store.View.Sync.{rows_of, are_entries, is_partial, sync_from_jsonl-rows}
use cobrust_studio.Steps.{◌>>=◌}

abbrev title : Text
title = codes "--Fix the (login) page!"

slugify_test : slugify (λ c. c ∷ []) title ≡ codes "Fix-the-login-page"
unfolding slugify codes
slugify_test = refl

slugify-shape_example :
    (is_empty (slugify (λ c. c ∷ []) title) ≡ false)
    × (all_slug (slugify (λ c. c ∷ []) title) ≡ true)
    × (starts_dash (slugify (λ c. c ∷ []) title) ≡ false)
    × (ends_dash (slugify (λ c. c ∷ []) title) ≡ false)
    × (double_dash (slugify (λ c. c ∷ []) title) ≡ false)
slugify-shape_example = slugify-shape (λ c. c ∷ []) title

abbrev pub path : FilePath
path = codes "0007-fix.md" ∷ []

abbrev pub fields : List Text
fields = codes "adr_id: 7" ∷ codes "title: Fix" ∷ []

abbrev pub paragraphs : List Text
paragraphs = [] ∷ codes "---" ∷ codes "why" ∷ []

fields_test : All (λ l. (contains_char 10 l ≡ false) × (contains_char 13 l ≡ false)) fields
unfolding contains_char codes
fields_test = ((refl, refl), ((refl, refl), tt))

paragraphs_test : All (λ l. (contains_char 10 l ≡ false) × (contains_char 13 l ≡ false)) paragraphs
unfolding contains_char codes
paragraphs_test = ((refl, refl), ((refl, refl), ((refl, refl), tt)))

fenced_test : All (λ l. eq_text l fence ≡ false) fields
unfolding eq_text codes
fenced_test = (refl, (refl, tt))

split_frontmatter-unlines_example :
    split_frontmatter path (unlines (fence ∷ fields ++ fence ∷ paragraphs))
    ≡ ok (unlines fields, unlines paragraphs)
split_frontmatter-unlines_example =
    split_frontmatter-unlines path fields paragraphs fields_test paragraphs_test fenced_test

abbrev pub yaml : AdrYaml
yaml = record {
  from_str = λ s. ok (record {
    adr_id = number (some 7);
    title = codes "Fix";
    status = codes "proposed";
    date = string (codes "2026-01-01");
    supersedes = [];
    superseded_by = [];
  });
  to_string = λ v. ok [];
  debug = λ v. [];
  parse_error = λ s. [];
  range_error = [];
}

-- a directory of one record, and a table
abbrev pub library : System (adr_kind yaml)
library = record {
  W = ℕ → Option AdrRow;
  reads = λ w p. ok (codes "---\nadr_id: 7\n---\nwhy\n");
  exists = λ w p. ok false;
  listing = λ w dir. ok (ok (dir ++ path) ∷ []);
  mtime_ns = λ w p. some 3;
  write = λ p t w. (ok tt, w);
  io_text = λ e. [];
  rows = λ w id. w id;
  select_path = λ id w. ok none;
  upsert = λ key row w. (ok tt, λ o. if o == key then some row else w o);
  delete_all = λ w. (ok tt, λ o. none);
  delete_not_in = λ keep w. (ok tt, λ o. if any (◌==◌ o) keep then w o else none);
}

pub library-IsTable : IsTable (adr_kind yaml) library
library-IsTable = record {
  upsert_rows = λ key other row w h. refl;
  upsert_reads = λ key row w. refl;
  upsert_mtime_ns = λ key row w. refl;
  delete_all_rows = λ other w h. refl;
  delete_not_in_rows = λ keep other w h. refl;
}

abbrev pub old_rows : ℕ → Option AdrRow
old_rows id =
    some (record { adr_id = id; title = []; status = []; date = []; path = []; mtime_ns = 0 })

reindex_test : (reindex (adr_kind yaml) library (codes "docs" ∷ []) old_rows).0 ≡ ok tt
unfolding reindex is_document split_name parse_adr split_frontmatter lines eq_text codes
    deserialize_adr_id deserialize_date u32_of u32_only prune_index ◌>>=◌
reindex_test = refl

reindex-last_row_example :
    library.rows (reindex (adr_kind yaml) library (codes "docs" ∷ []) old_rows).1 7
    ≡ last_row
        (adr_kind yaml)
        (library.reads old_rows)
        (library.mtime_ns old_rows)
        7
        (ok (codes "docs" ∷ path) ∷ [])
reindex-last_row_example =
    reindex-last_row (adr_kind yaml) library library-IsTable (codes "docs" ∷ [])
      (ok (codes "docs" ∷ path) ∷ []) old_rows 7 refl reindex_test

abbrev row_at : ℕ → AdrRow
row_at id = record { adr_id = id; title = []; status = []; date = []; path = []; mtime_ns = 0 }

-- a table of one row, whose id is the state
abbrev single : System (adr_kind yaml)
single = record {
  W = ℕ;
  reads = λ w p. ok [];
  exists = λ w p. ok false;
  listing = λ w dir. ok [];
  mtime_ns = λ w p. none;
  write = λ p t w. (ok tt, w);
  io_text = λ e. [];
  rows = λ w id. if id == w then some (row_at w) else none;
  select_path = λ id w. ok none;
  upsert = λ key row w. (ok tt, key);
  delete_all = λ w. (err [], w);
  delete_not_in = λ keep w. (ok tt, w);
}

abbrev max_of : ℕ → Result Text (Option ℕ)
max_of w = ok (some w)

row-is : (w id : ℕ) (row : AdrRow) → single.rows w id ≡ some row → id ≡ w
row-is w id row h = elim (Bool-cases (id == w)) [
  | inl e ↦ (==_iff id w).0 e
  | inr e ↦ absurd (cc (rw e at h))
]

max_of-is : (w m : ℕ) → max_of w ≡ ok (some m) → w ≡ m
max_of-is w m h = cc

single-IsMax : IsMax yaml single max_of
single-IsMax = record {
  max_none = λ w id h. absurd (cc h);
  max_some = λ w {m} h. (row_at w, rw (sym (max_of-is w m h), ==_refl w) refl);
  max_greatest = λ w id row {m} h at. omega (arith, max_of-is w m h, row-is w id row at);
}

allocate_test : allocate_next_id yaml single max_of 11 ≡ ok 12
unfolding allocate_next_id u32_of u32_only
allocate_test = refl

allocate_next_id-fresh_example :
    (7 ≤ 12) × (12 < 2 ^ 32) × ((id : ℕ) (row : AdrRow) → single.rows 11 id ≡ some row → id < 12)
allocate_next_id-fresh_example =
    allocate_next_id-fresh yaml single max_of single-IsMax 11 12
      (λ id row h. omega (arith, row-is 11 id row h)) allocate_test

-- a table of rows, and lines of one letter; `bad` does not parse
abbrev pub entry : LedgerEntry
entry =
    ok_entry (codes "t") none (codes "p") none (codes "m") (codes "k") false
      (record { prompt_tokens = 1; completion_tokens = 2 }) 3 1

abbrev pub view : ViewHost
view = record {
  Db = List ViewRow;
  rows = λ db. db;
  insert = λ row db. (ok tt, db ++ row ∷ []);
  delete_rows = λ db. (ok tt, []);
  select_recent = λ n db. ok [];
  count_rows = λ db. ok (length db);
  db_path = [];
  to_json = λ e. ok (codes "e");
  from_json = λ s. if eq_text s (codes "e") then ok entry else err (codes "bad");
  kind_json = λ k. none;
  outcome_json = λ o. none;
  read_bytes = λ p. ok (codes "e\n\ne\nba");
  lossy = λ b. b;
  io_text = λ e. [];
}

pub view-IsView : IsView view
view-IsView = record { insert_rows = λ row db h. refl; delete_rows_rows = λ db h. refl }

sync_test : (sync_from_jsonl view path []).0 ≡ ok 2
unfolding sync_from_jsonl clear append lines eq_text codes trim trim_start trim_end is_whitespace
    ◌>>=◌
sync_test = refl

sync_from_jsonl-rows_example :
    (view.rows (sync_from_jsonl view path []).1 ≡ rows_of view (lines (codes "e\n\ne\nba")))
    × (2 ≡ length (rows_of view (lines (codes "e\n\ne\nba"))))
    × (are_entries view (is_partial (codes "e\n\ne\nba")) (lines (codes "e\n\ne\nba")) ≡ true)
sync_from_jsonl-rows_example =
    sync_from_jsonl-rows view view-IsView path (codes "e\n\ne\nba") [] 2 refl sync_test
