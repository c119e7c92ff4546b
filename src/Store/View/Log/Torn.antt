-- ===== src/Store/View/Log/Torn.antt =====
-- What the view of crates/studio-store/src/ledger.rs makes of a file in which an append of
-- crates/studio-router/src/ledger.rs was cut short.
use mathlib.Core.List.{append_assoc, append-nil}
use cobrust_studio.Base.{
  ℕ, ◌≡◌, refl, sym, ap, ◌∙◌, arith, Bool, true, false, List, [], ◌∷◌, ◌++◌, Text, trim, is_empty,
  length, ok, err, All, All-append, take, take-append, contains_char, contains_char-append,
  if◌then◌else◌,
}
use cobrust_studio.Ledger.{LedgerEntry}
use cobrust_studio.Ledger.Log.{LogFile, whole, torn, write, append_line}
use cobrust_studio.Host.{FilePath}
use cobrust_studio.Store.Session.{Bytes}
use cobrust_studio.Store.Markdown.{lines}
use cobrust_studio.Store.Markdown.Fences.{IsLine, lines-unlines}
use cobrust_studio.Steps.{◌>>=◌}
use cobrust_studio.Store.View.{ViewHost, IsView, sync_from_jsonl, ends_line_feed}
use cobrust_studio.Store.View.Sync.{parses, are_entries, is_partial, sync_from_jsonl-rows}
use cobrust_studio.Store.View.Log.{log_bytes, IsRecord, IsEncoding}

if_same : (blank parsed : Bool) → (if blank then false else if parsed then false else false) ≡ false
if_same true parsed = refl
if_same false true = refl
if_same false false = refl

ends_line_feed-line : (bs cs : Bytes) → ends_line_feed (bs ++ (cs ++ 10 ∷ [])) ≡ true
unfolding ends_line_feed
ends_line_feed-line [] [] = refl
ends_line_feed-line [] (c ∷ []) = refl
ends_line_feed-line [] (c ∷ d ∷ cs) = ends_line_feed-line [] (d ∷ cs)
ends_line_feed-line (b ∷ []) [] = refl
ends_line_feed-line (b ∷ []) (c ∷ cs) = ends_line_feed-line [] (c ∷ cs)
ends_line_feed-line (b ∷ c ∷ bs) cs = ends_line_feed-line (c ∷ bs) cs

is_partial-line : (bs cs : Bytes) → is_partial (bs ++ (cs ++ 10 ∷ [])) ≡ false
unfolding is_partial
is_partial-line bs cs = rw (ends_line_feed-line bs cs) (ground arith)

no_char-joined :
    (c : ℕ) (piece rest raw : Text)
    → contains_char c (piece ++ rest) ≡ false
    → contains_char c raw ≡ false
    → contains_char c (piece ++ raw) ≡ false
no_char-joined c piece rest raw h k =
    ground (arith, h, k, contains_char-append c piece rest, contains_char-append c piece raw)

IsLine-joined :
    (piece rest raw : Text) → IsLine (piece ++ rest) → IsLine raw → IsLine (piece ++ raw)
IsLine-joined piece rest raw (h, k) (h', k') =
    (no_char-joined 10 piece rest raw h h', no_char-joined 13 piece rest raw k k')

module _ (host : ViewHost) (utf8 : Text → Bytes) where
  -- the file behind an append that is torn and one that is not
  unfoldable pub second_append : ℕ → Text → LedgerEntry → LedgerEntry → LogFile → LogFile
  unfolding append_line
  second_append n why e e' f =
      (append_line host.to_json utf8 (whole (ok tt)) e'
        (append_line host.to_json utf8 (torn n why) e f).1).1

  whole-content :
      (raw : Text) (e : LedgerEntry) (f : LogFile)
      → host.to_json e ≡ ok raw
      → (append_line host.to_json utf8 (whole (ok tt)) e f).1.content
        ≡ f.content ++ (utf8 raw ++ 10 ∷ [])
  unfolding append_line ◌>>=◌ write
  whole-content raw e f printed = rw printed refl

  torn-content :
      (n : ℕ) (why raw : Text) (e : LedgerEntry) (f : LogFile)
      → host.to_json e ≡ ok raw
      → (append_line host.to_json utf8 (torn n why) e f).1.content
        ≡ f.content ++ take n (utf8 raw ++ 10 ∷ [])
  unfolding append_line ◌>>=◌ write
  torn-content n why raw e f printed = rw printed refl

  second_append-content :
      (n : ℕ) (why lost raw : Text) (e e' : LedgerEntry) (f : LogFile)
      → host.to_json e ≡ ok lost
      → host.to_json e' ≡ ok raw
      → (second_append n why e e' f).content
        ≡ (f.content ++ take n (utf8 lost ++ 10 ∷ [])) ++ (utf8 raw ++ 10 ∷ [])
  unfolding second_append
  second_append-content n why lost raw e e' f printed printed' =
      whole-content raw e' (append_line host.to_json utf8 (torn n why) e f).1 printed'
      ∙ ap (λ c. c ++ (utf8 raw ++ 10 ∷ [])) (torn-content n why lost e f printed)

  log_bytes-snoc :
      (ls : List Text) (l : Text)
      → log_bytes utf8 (ls ++ l ∷ []) ≡ log_bytes utf8 ls ++ (utf8 l ++ 10 ∷ [])
  log_bytes-snoc [] l = append-nil (utf8 l ++ 10 ∷ [])
  log_bytes-snoc (k ∷ ls) l =
      ap (λ c. (utf8 k ++ 10 ∷ []) ++ c) (log_bytes-snoc ls l)
      ∙ sym (append_assoc (utf8 k ++ 10 ∷ []) (log_bytes utf8 ls) (utf8 l ++ 10 ∷ []))

  -- The bytes of a piece in front of the bytes of a record are the bytes of one line.
  log_bytes-joined :
      (ls : List Text) (piece rest raw : Text)
      → ((s t : Text) → utf8 (s ++ t) ≡ utf8 s ++ utf8 t)
      → (log_bytes utf8 ls ++ take (length (utf8 piece)) (utf8 (piece ++ rest) ++ 10 ∷ []))
          ++ (utf8 raw ++ 10 ∷ [])
        ≡ log_bytes utf8 (ls ++ (piece ++ raw) ∷ [])
  log_bytes-joined ls piece rest raw appends =
      let cut : take (length (utf8 piece)) (utf8 (piece ++ rest) ++ 10 ∷ []) ≡ utf8 piece =
        ap (λ c. take (length (utf8 piece)) (c ++ 10 ∷ [])) (appends piece rest)
        ∙ ap (take (length (utf8 piece))) (append_assoc (utf8 piece) (utf8 rest) (10 ∷ []))
        ∙ take-append (utf8 piece) (utf8 rest ++ 10 ∷ []) _ refl in
      ap (λ c. (log_bytes utf8 ls ++ c) ++ (utf8 raw ++ 10 ∷ [])) cut
      ∙ append_assoc (log_bytes utf8 ls) (utf8 piece) (utf8 raw ++ 10 ∷ [])
      ∙ ap (λ c. log_bytes utf8 ls ++ c)
          (sym (append_assoc (utf8 piece) (utf8 raw) (10 ∷ []))
            ∙ ap (λ c. c ++ 10 ∷ []) (sym (appends piece raw)))
      ∙ sym (log_bytes-snoc ls (piece ++ raw))

  are_entries-bad :
      (ls : List Text) (l m : Text)
      → is_empty (trim l) ≡ false
      → host.from_json l ≡ err m
      → are_entries host false (ls ++ l ∷ []) ≡ false
  unfolding are_entries parses
  are_entries-bad [] l m filled bad = rw (filled, bad) refl
  are_entries-bad (k ∷ ls) l m filled bad =
      rw (are_entries-bad ls l m filled bad)
        (if_same (is_empty (trim k)) (parses host (host.from_json k)))

  -- An append of a record to a file of whole lines is cut at the end of a character, so that a piece of
  -- its text is there, and the next append succeeds. The file then has the lines from before and, as one
  -- line, the piece with the text of the other record behind it. If that line is not blank and not JSON,
  -- no sync of the file succeeds.
  pub sync_from_jsonl-torn :
      (view : IsView host) (path : FilePath) (f : LogFile) (e e' : LedgerEntry)
      (why piece rest raw m : Text) (ls : List Text) (db : host.Db) (count : ℕ)
      → IsEncoding host utf8
      → ((s t : Text) → utf8 (s ++ t) ≡ utf8 s ++ utf8 t)
      → f.content ≡ log_bytes utf8 ls
      → All IsLine ls
      → host.to_json e ≡ ok (piece ++ rest)
      → host.to_json e' ≡ ok raw
      → IsRecord host e
      → IsRecord host e'
      → is_empty (trim (piece ++ raw)) ≡ false
      → host.from_json (piece ++ raw) ≡ err m
      → host.read_bytes path ≡ ok (second_append (length (utf8 piece)) why e e' f).content
      → (lines (host.lossy (second_append (length (utf8 piece)) why e e' f).content)
          ≡ ls ++ (piece ++ raw) ∷ [])
        × (¬ ((sync_from_jsonl host path db).0 ≡ ok count))
  sync_from_jsonl-torn view path f e e' why piece rest raw m ls db count decodes appends before each
        printed printed' is_record is_record' filled bad readable =
      let content = (second_append (length (utf8 piece)) why e e' f).content in
      let at =
        second_append-content (length (utf8 piece)) why (piece ++ rest) raw e e' f printed
          printed' in
      let read : lines (host.lossy content) ≡ ls ++ (piece ++ raw) ∷ [] =
        ap (λ c. lines (host.lossy c))
          (at
            ∙ ap
                (λ c.
                  (c ++ take (length (utf8 piece)) (utf8 (piece ++ rest) ++ 10 ∷ []))
                  ++ (utf8 raw ++ 10 ∷ []))
                before
            ∙ log_bytes-joined ls piece rest raw appends)
        ∙ ap lines (decodes (ls ++ (piece ++ raw) ∷ []))
        ∙ lines-unlines _ (
            All-append IsLine ls ((piece ++ raw) ∷ []) each (
              IsLine-joined piece rest raw (is_record (piece ++ rest) printed).0
                  (is_record' raw printed').0,
              tt,
            )) in
      (
        read,
        λ synced.
            let (_, _, entries) = sync_from_jsonl-rows host view path _ db count readable synced in
            let ended : is_partial content ≡ false =
              ap is_partial at ∙ is_partial-line _ (utf8 raw) in
            let refused : are_entries host (is_partial content) (lines (host.lossy content))
                ≡ false =
              ap (λ b. are_entries host b (lines (host.lossy content))) ended
              ∙ ap (are_entries host false) read
              ∙ are_entries-bad ls (piece ++ raw) m filled bad in
            absurd (cc (sym entries ∙ refused)),
      )
