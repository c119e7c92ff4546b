-- ===== src/Api.antt =====
-- The thin routes of crates/studio-server/src/routes: adr.rs, finding.rs, ledger.rs and events.rs, and the
-- bridge of crates/studio-server/src/lib.rs from the watchers to the events.
pub mod Created
use cobrust_studio.Base.{
  ℕ, ◌==◌, Bool, Option, none, some, List, [], ◌∷◌, ◌++◌, Text, String, codes, padded, trim,
  is_empty, min, Result, ok, err, map_err, refuse_if, unwrap_or, if◌then◌else◌,
}
use cobrust_studio.Host.{FilePath}
use cobrust_studio.Ledger.{LedgerEntry}
use cobrust_studio.Routes.{RouteError, bad_request, not_found, of_store, display}
use cobrust_studio.Steps.{Steps, ◌>>=◌, ◌>>◌, lift}
use cobrust_studio.Store.{StoreError}
use cobrust_studio.Store.Documents
use cobrust_studio.Store.Documents.{System, ChangeEvent, added, modified, removed}
use cobrust_studio.Store.Adr
use cobrust_studio.Store.Adr.{Adr, AdrDraft, AdrRow, AdrSummary, AdrYaml, adr_kind}
use cobrust_studio.Store.Finding
use cobrust_studio.Store.Finding.{
  Finding, FindingDraft, FindingRow, FindingSummary, FindingFrontmatter, finding_kind,
}
use cobrust_studio.Store.View
use cobrust_studio.Store.View.{ViewHost}

pub record AdrDraftBody : Type 0 where
  pub title : Text
  pub status : Option Text
  pub date : Option Text
  pub body : Text
  pub supersedes : List ℕ

pub record FindingDraftBody : Type 0 where
  pub finding_id : Text
  pub title : Text
  pub last_verified_commit : Option Text
  pub severity : Option Text
  pub status : Option Text
  pub dependencies : List Text
  pub related : List Text
  pub body : Text

-- `filter(|s| !s.trim().is_empty())`, and what is put where nothing is left
filled_or : Option Text → Text → Text
filled_or none other = other
filled_or (some s) other = if is_empty (trim s) then other else s

-- a day of the calendar in UTC
pub record Day : Type 0 where
  pub year : ℕ
  pub month : ℕ
  pub day : ℕ

-- `today_utc_string`
today_utc_string : Day → Text
today_utc_string d = padded 4 d.year ++ (45 ∷ padded 2 d.month ++ (45 ∷ padded 2 d.day))

-- `AdrDraftBody::into_draft` and `FindingDraftBody::into_draft`
unfoldable pub into_adr_draft : Day → AdrDraftBody → AdrDraft
unfolding filled_or today_utc_string
into_adr_draft today b = record {
  title = b.title;
  status = filled_or b.status (codes "proposed");
  date = filled_or b.date (today_utc_string today);
  body = b.body;
  supersedes = b.supersedes;
}

unfoldable pub into_finding_draft : FindingDraftBody → FindingDraft
unfolding filled_or
into_finding_draft b = record {
  finding_id = b.finding_id;
  last_verified_commit = filled_or b.last_verified_commit (codes "HEAD");
  severity = filled_or b.severity (codes "P3");
  status = filled_or b.status (codes "open");
  dependencies = b.dependencies;
  related = b.related;
  title = b.title;
  body = b.body;
}

-- the `?` on a step of the store in a handler
from_store : {W A : Type 0} → Steps W StoreError A → Steps W RouteError A
from_store m w = let (r, w') = m w in (map_err of_store r, w')

not_blank : String → Text → Result RouteError (Unit {0})
not_blank why s = refuse_if (is_empty (trim s)) (bad_request (codes why) "invalid_body")

body_of : {A : Type 0} → Result Text A → Result RouteError A
body_of payload = map_err (λ m. bad_request m "invalid_body") payload

-- `list_adrs` and `list_findings`, of the rows of the index
unfoldable pub list_adrs : Result Text (List AdrRow) → Result RouteError (List AdrSummary)
unfolding Adr.list
list_adrs rows = map_err of_store (Adr.list rows)

unfoldable pub list_findings :
    Result Text (List FindingRow) → Result RouteError (List FindingSummary)
unfolding Finding.list
list_findings rows = map_err of_store (Finding.list rows)

module _ (yaml : AdrYaml) (system : System (adr_kind yaml))
    (max_id : system.W → Result Text (Option ℕ)) where
  found_adr : ℕ → Option Adr → Result RouteError Adr
  found_adr id none =
      err (not_found (codes "adr " ++ (padded 4 id ++ codes " not found")) "adr_not_found")
  found_adr id (some adr) = ok adr

  got_adr : ℕ → Result StoreError (Option Adr) → Result RouteError Adr
  unfolding found_adr
  got_adr id (err e) = err (of_store e)
  got_adr id (ok found) = found_adr id found

  unfoldable pub get_adr : ℕ → system.W → Result RouteError Adr
  unfolding Documents.get got_adr
  get_adr id w = got_adr id (Documents.get (adr_kind yaml) system id w)

  -- `create_adr`, in the directory of the records and on a day
  unfoldable pub create_adr :
      (ℕ → Text) → FilePath → Day → Result Text AdrDraftBody → Steps system.W RouteError Adr
  unfolding body_of not_blank from_store into_adr_draft Adr.create
  create_adr lower dir today payload = do
    body ← lift (body_of payload)
    lift (not_blank "title must be non-empty" body.title)
    from_store (Adr.create yaml system max_id lower dir (into_adr_draft today body))

module _ (from_str : Text → Result Text FindingFrontmatter)
    (system : System (finding_kind from_str)) where
  unfoldable pub create_finding :
      FilePath → Result Text FindingDraftBody → Steps system.W RouteError Finding
  unfolding body_of not_blank from_store into_finding_draft Finding.create
  create_finding dir payload = do
    body ← lift (body_of payload)
    lift (not_blank "finding_id must be non-empty" body.finding_id)
    lift (not_blank "title must be non-empty" body.title)
    from_store (Finding.create from_str system dir (into_finding_draft body))

-- `LEDGER_DEFAULT_N` and `LEDGER_MAX_N`
abbrev pub ledger_default_n : ℕ
ledger_default_n = 20

abbrev pub ledger_max_n : ℕ
ledger_max_n = 1000

limit_of : Option ℕ → ℕ
limit_of none = ledger_default_n
limit_of (some n) = if n == 0 then 0 else min n ledger_max_n

-- `recent`, of the number that a request asks for
unfoldable pub recent_entries :
    (host : ViewHost) → Option ℕ → host.Db → Result RouteError (List LedgerEntry)
unfolding View.recent limit_of
recent_entries host n db = map_err of_store (View.recent host (limit_of n) db)

-- `EventEnvelope`, each with the text of its path
pub data EventEnvelope : Type 0 where
  adr_added adr_modified adr_removed : Text → EventEnvelope
  finding_added finding_modified finding_removed : Text → EventEnvelope

-- what the two tasks of `spawn_watcher_bridge` publish
unfoldable pub adr_envelope : ChangeEvent → EventEnvelope
unfolding display
adr_envelope (added p) = adr_added (display p)
adr_envelope (modified p) = adr_modified (display p)
adr_envelope (removed p) = adr_removed (display p)

unfoldable pub finding_envelope : ChangeEvent → EventEnvelope
unfolding display
finding_envelope (added p) = finding_added (display p)
finding_envelope (modified p) = finding_modified (display p)
finding_envelope (removed p) = finding_removed (display p)

unfoldable pub event_kind_tag : EventEnvelope → String
event_kind_tag (adr_added p) = "adr_added"
event_kind_tag (adr_modified p) = "adr_modified"
event_kind_tag (adr_removed p) = "adr_removed"
event_kind_tag (finding_added p) = "finding_added"
event_kind_tag (finding_modified p) = "finding_modified"
event_kind_tag (finding_removed p) = "finding_removed"

-- an event of the stream: its name and its data
unfoldable pub envelope_to_event : Result Text Text → EventEnvelope → String × Text
unfolding event_kind_tag
envelope_to_event (ok json) envelope = (event_kind_tag envelope, json)
envelope_to_event (err e) envelope = ("error", codes "{}")

-- the events of a subscriber; what it has missed is skipped
unfoldable pub events :
    (EventEnvelope → Result Text Text) → List (Result ℕ EventEnvelope) → List (String × Text)
unfolding envelope_to_event
events to_json [] = []
events to_json (ok envelope ∷ items) =
    envelope_to_event (to_json envelope) envelope ∷ events to_json items
events to_json (err lagged ∷ items) = events to_json items
