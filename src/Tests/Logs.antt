-- ===== src/Tests/Logs.antt =====
-- Runs of crates/studio-router/src/ledger.rs and of the view of its file in
-- crates/studio-store/src/ledger.rs.
use mathlib.Core.List.{append_assoc}
use mathlib.Core.Path.{subst}
use cobrust_studio.Base.{
  ◌≡◌, refl, sym, ap, ◌∙◌, false, List, [], ◌∷◌, ◌++◌, none, Text, codes, ok, err, eq_text, trim,
  trim_start, trim_end, is_whitespace, is_empty, length, ok_injective, contains_char, if◌then◌else◌,
}
use cobrust_studio.Ledger.{LedgerEntry, ok_entry}
use cobrust_studio.Ledger.Log.{LogFile, Written, whole, append_line, append_lines, write}
use cobrust_studio.Steps.{◌>>=◌}
use cobrust_studio.Store.Markdown.{lines}
use cobrust_studio.Store.Markdown.Fences.{unlines, IsLine}
use cobrust_studio.Store.View.{ViewHost, ViewRow, IsView, append, clear, sync_from_jsonl}
use cobrust_studio.Store.View.Log.{log_bytes, IsRecord, entry_rows, sync_from_jsonl-append_lines}
use cobrust_studio.Store.View.Log.Torn.{second_append, sync_from_jsonl-torn}

abbrev entry : LedgerEntry
entry =
    ok_entry (codes "t") none (codes "p") none (codes "m") (codes "k") false
      (record { prompt_tokens = 1; completion_tokens = 2 }) 3 1

-- The JSON of every record is one letter.
abbrev view : Text → ViewHost
view content = record {
  Db = List ViewRow;
  rows = λ db. db;
  insert = λ row db. (ok tt, db ++ row ∷ []);
  delete_rows = λ db. (ok tt, []);
  select_recent = λ n db. ok [];
  count_rows = λ db. ok (length db);
  db_path = [];
  to_json = λ e. ok (codes "e");
  from_json = λ s. if eq_text s (codes "e") then ok entry else err (codes "bad");
  kind_json = λ k. none;
  outcome_json = λ o. none;
  read_bytes = λ p. ok content;
  lossy = λ b. b;
  io_text = λ e. [];
}

view-IsView : (content : Text) → IsView (view content)
view-IsView content = record { insert_rows = λ row db h. refl; delete_rows_rows = λ db h. refl }

is_text : (ls : List Text) → log_bytes (λ s. s) ls ≡ unlines ls
unfolding unlines
is_text [] = refl
is_text (l ∷ ls) =
    append_assoc l (10 ∷ []) (log_bytes (λ s. s) ls) ∙ ap (λ t. l ++ 10 ∷ t) (is_text ls)

entry-IsRecord : (content : Text) → IsRecord (view content) entry
unfolding eq_text codes trim trim_start trim_end is_whitespace contains_char
entry-IsRecord content raw h =
    subst (λ t. IsLine t × (is_empty (trim t) ≡ false) × ((view content).from_json t ≡ ok entry))
      (ok_injective h) ((refl, refl), refl, refl)

abbrev new_file : LogFile
new_file = record { content = []; mode = 0o600 }

abbrev two_appends : List (LedgerEntry × Written)
two_appends = (entry, whole (ok tt)) ∷ (entry, whole (ok tt)) ∷ []

append_lines_test :
    append_lines (view []).to_json (λ s. s) two_appends new_file
    ≡ (ok tt, record { content = codes "e\ne\n"; mode = 0o600 })
unfolding append_lines append_line write ◌>>=◌ codes
append_lines_test = refl

abbrev logged : ViewHost
logged = view (codes "e\ne\n")

sync_test : (sync_from_jsonl logged [] []).0 ≡ ok 2
unfolding sync_from_jsonl clear append lines eq_text codes trim trim_start trim_end is_whitespace
    ◌>>=◌
sync_test = refl

sync_from_jsonl-append_lines_example :
    (logged.rows (sync_from_jsonl logged [] []).1 ≡ entry_rows logged (entry ∷ entry ∷ []))
    × (2 ≡ length two_appends)
sync_from_jsonl-append_lines_example =
    sync_from_jsonl-append_lines logged (λ s. s) (view-IsView (codes "e\ne\n")) [] two_appends
      new_file [] 2 is_text (entry-IsRecord (codes "e\ne\n"), (entry-IsRecord (codes "e\ne\n"), tt))
      refl (ap (λ x. x.0) append_lines_test) (ap (λ x. ok x.1.content) (sym append_lines_test))
      sync_test

-- The first record was cut in front of its line feed.
abbrev spoilt : ViewHost
spoilt = view (codes "ee\n")

second_test : (second_append spoilt (λ s. s) 1 [] entry entry new_file).content ≡ codes "ee\n"
unfolding second_append append_line write ◌>>=◌ codes
second_test = refl

spoilt_filled : is_empty (trim (codes "e" ++ codes "e")) ≡ false
unfolding codes trim trim_start trim_end is_whitespace
spoilt_filled = refl

spoilt_bad : spoilt.from_json (codes "e" ++ codes "e") ≡ err (codes "bad")
unfolding codes eq_text
spoilt_bad = refl

sync_from_jsonl-torn_example :
    (lines (spoilt.lossy (second_append spoilt (λ s. s) 1 [] entry entry new_file).content)
      ≡ codes "ee" ∷ [])
    × (¬ ((sync_from_jsonl spoilt [] []).0 ≡ ok 1))
unfolding codes
sync_from_jsonl-torn_example =
    sync_from_jsonl-torn spoilt (λ s. s) (view-IsView (codes "ee\n")) [] new_file entry entry []
      (codes "e") [] (codes "e") (codes "bad") [] [] 1 is_text (λ s t. refl) refl tt refl refl
      (entry-IsRecord (codes "ee\n")) (entry-IsRecord (codes "ee\n")) spoilt_filled spoilt_bad
      (ap ok (sym second_test))
