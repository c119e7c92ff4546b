-- ===== src/Store/Finding.antt =====
-- crates/studio-store/src/finding.rs: the findings and their index. Reading the derived fields of a
-- frontmatter is serde_yaml's, and a parameter, as the table `finding_index` is.
use cobrust_studio.Base.{
  ℕ, List, [], ◌∷◌, ◌++◌, Option, none, some, Text, codes, trim, trim_start, trim_end, strip_prefix,
  is_empty, eq_text, Result, ok, err, refuse_if, if◌then◌else◌,
}
use cobrust_studio.Host.{FilePath}
use cobrust_studio.Agent.Paths.{segments}
use cobrust_studio.Store.{StoreError, sqlite, frontmatter, invalid_input}
use cobrust_studio.Store.Yaml.{Value, coerce_str_list, format_str_list}
use cobrust_studio.Store.Markdown.{split_frontmatter, trim_line_feeds, lines}
use cobrust_studio.Store.Documents.{
  Kind, System, RawEvent, ChangeEvent, map_event, get, create_document, reindex,
}
use cobrust_studio.Steps.{Steps, ◌>>◌, lift}

pub record FindingSummary : Type 0 where
  pub finding_id : Text
  pub title : Text
  pub status : Text
  pub severity : Text
  pub date : Text
  pub path : FilePath

pub record Finding : Type 0 where
  pub summary : FindingSummary
  pub body : Text
  pub dependencies : List Text
  pub related : List Text

pub record FindingDraft : Type 0 where
  pub finding_id : Text
  pub last_verified_commit : Text
  pub severity : Text
  pub status : Text
  pub dependencies : List Text
  pub related : List Text
  pub title : Text
  pub body : Text

-- `FindingFrontmatter`; a field with a default may be missing
pub record FindingFrontmatter : Type 0 where
  pub finding_id : Text
  pub status : Option Text
  pub severity : Option Text
  pub last_verified_commit : Option Text
  pub dependencies : Option (List Value)
  pub related : Option (List Value)

-- a row of `finding_index`
pub record FindingRow : Type 0 where
  pub finding_id : Text
  pub title : Text
  pub status : Text
  pub severity : Text
  pub date : Text
  pub path : FilePath
  pub mtime_ns : ℕ

abbrev default_status : Text
default_status = codes "open"

abbrev default_severity : Text
default_severity = codes "P3"

or_default {ℓ} : {A : Type ℓ} → A → Option A → A
or_default d none = d
or_default d (some a) = a

title_in : Text → List Text → Text
title_in fallback [] = fallback
title_in fallback (raw ∷ ls) = elim (strip_prefix (codes "# ") (trim_start raw)) [
  | some rest ↦ trim rest
  | none ↦ title_in fallback ls
]

-- `extract_title`
unfoldable pub extract_title : Text → Text → Text
unfolding title_in
extract_title body fallback = title_in fallback (lines body)

module _ (from_str : Text → Result Text FindingFrontmatter) where
  finding_of : FilePath → Text → FindingFrontmatter → Finding
  unfolding or_default extract_title
  finding_of path body fm =
      let body_trimmed = trim_line_feeds body in
      record {
        summary = record {
          finding_id = fm.finding_id;
          title = extract_title body_trimmed fm.finding_id;
          status = or_default default_status fm.status;
          severity = or_default default_severity fm.severity;
          date = or_default [] fm.last_verified_commit;
          path = path;
        };
        body = body_trimmed;
        dependencies = coerce_str_list (or_default [] fm.dependencies);
        related = coerce_str_list (or_default [] fm.related);
      }

  with_fields : FilePath → Text → Result Text FindingFrontmatter → Result StoreError Finding
  unfolding finding_of
  with_fields path body (err m) = err (frontmatter path m)
  with_fields path body (ok fm) = ok (finding_of path body fm)

  parse_split : FilePath → Result StoreError (Text × Text) → Result StoreError Finding
  unfolding with_fields
  parse_split path (err e) = err e
  parse_split path (ok (fields, body)) = with_fields path body (from_str fields)

  -- `parse_finding`
  unfoldable pub parse_finding : FilePath → Text → Result StoreError Finding
  unfolding parse_split
  parse_finding path text = parse_split path (split_frontmatter path text)

  -- the findings as documents of the index, with the row of `upsert_index`
  abbrev pub finding_kind : Kind
  finding_kind = record {
    Key = Text;
    Doc = Finding;
    Row = FindingRow;
    eq_id = eq_text;
    parse = parse_finding;
    id_of = λ f. f.summary.finding_id;
    row_of = λ f t. record {
      finding_id = f.summary.finding_id;
      title = f.summary.title;
      status = f.summary.status;
      severity = f.summary.severity;
      date = f.summary.date;
      path = f.summary.path;
      mtime_ns = t;
    };
  }

or_blank : Text → Text → Text
or_blank d s = if is_empty (trim s) then d else s

-- the text of a new finding
finding_document : Text → FindingDraft → Text
unfolding or_blank
finding_document slug draft =
    codes "---\ndoc_kind: finding\nfinding_id: "
    ++ (slug
        ++ (codes "\nlast_verified_commit: "
            ++ (draft.last_verified_commit
                ++ (codes "\nseverity: "
                    ++ (or_blank default_severity draft.severity
                        ++ (codes "\nstatus: "
                            ++ (or_blank default_status draft.status
                                ++ (codes "\ndependencies: "
                                    ++ (format_str_list draft.dependencies
                                        ++ (codes "\nrelated: "
                                            ++ (format_str_list draft.related
                                                ++ (codes "\n---\n\n# "
                                                    ++ (draft.title
                                                        ++ (10 ∷ 10 ∷ trim_end draft.body
                                                            ++ 10 ∷ []))))))))))))))

named : List Text → List Text
named [] = []
named (s ∷ ss) =
    if is_empty s then named ss else if eq_text s (codes ".") then named ss else s ∷ named ss

joined : FilePath → List Text → FilePath
unfolding named
joined dir [] = dir
joined dir ([] ∷ []) = dir
joined dir ([] ∷ s ∷ ss) = named (s ∷ ss)
joined dir ((c ∷ s) ∷ ss) = dir ++ named ((c ∷ s) ∷ ss)

-- `Path::join`: a text may be several parts, and one from the root takes the place of the path
unfoldable pub join : FilePath → Text → FilePath
unfolding joined
join dir s = joined dir (segments s)

module _ (from_str : Text → Result Text FindingFrontmatter)
    (system : System (finding_kind from_str)) where
  -- `create`, in a directory
  unfoldable pub create : FilePath → FindingDraft → Steps system.W StoreError Finding
  unfolding finding_document join
  create dir draft = do
    lift (
        refuse_if (is_empty (trim draft.finding_id))
          (invalid_input (codes "finding_id must be non-empty")))
    lift (refuse_if (is_empty (trim draft.title)) (invalid_input (codes "title must be non-empty")))
    let slug = trim draft.finding_id
    let filename = slug ++ codes ".md"
    create_document (finding_kind from_str) system (join dir filename) filename
        (finding_document slug draft)

  -- `FindingHandle::reindex`
  unfoldable pub reindex_findings : FilePath → Steps system.W StoreError (Unit {0})
  reindex_findings = reindex (finding_kind from_str) system

  -- `FindingHandle::get`
  unfoldable pub get_finding : Text → system.W → Result StoreError (Option Finding)
  get_finding = get (finding_kind from_str) system

summaries_of : List FindingRow → List FindingSummary
summaries_of [] = []
summaries_of (row ∷ rows) =
    record {
      finding_id = row.finding_id;
      title = row.title;
      status = row.status;
      severity = row.severity;
      date = row.date;
      path = row.path;
    }
    ∷ summaries_of rows

-- `list`, of the rows that the statement gives, by their ids
unfoldable pub list : Result Text (List FindingRow) → Result StoreError (List FindingSummary)
unfolding summaries_of
list (ok rows) = ok (summaries_of rows)
list (err m) = err (sqlite m)

-- `map_event_to_finding`
unfoldable pub map_event_to_finding : RawEvent → Option ChangeEvent
map_event_to_finding = map_event
