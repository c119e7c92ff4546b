-- ===== src/Store/Adr.antt =====
-- crates/studio-store/src/adr.rs: the decision records, their ids, and their index. Reading the derived
-- fields of a frontmatter is serde_yaml's, and a parameter, as the table `adr_index` is.
pub mod Ids
pub mod Paths
use cobrust_studio.Base.{
  ℕ, ◌+◌, ◌^◌, ◌-◌, ◌≤◌, ◌<◌, ◌≡◌, ◌==◌, Bool, true, false, List, [], ◌∷◌, ◌++◌, Option, none, some,
  Text, codes, padded, trim, trim_end, is_empty, ltb, leb, Result, ok, err, map_err, refuse_if,
  if◌then◌else◌,
}
use cobrust_studio.Host.{FilePath}
use cobrust_studio.Store.{StoreError, sqlite, frontmatter, invalid_input}
use cobrust_studio.Store.Yaml.{
  Value, string, number, other, parse_u32, u32_of, coerce_id_list, format_id_list,
  yaml_escape_inline,
}
use cobrust_studio.Store.Markdown.{split_frontmatter, trim_line_feeds}
use cobrust_studio.Store.Slug.{slugify}
use cobrust_studio.Store.Documents.{Kind, System, DocStep, create_document}
use cobrust_studio.Steps.{Steps, ◌>>=◌, ◌>>◌, lift}

pub record AdrSummary : Type 0 where
  pub adr_id : ℕ
  pub title : Text
  pub status : Text
  pub date : Text
  pub path : FilePath

pub record Adr : Type 0 where
  pub summary : AdrSummary
  pub body : Text
  pub supersedes : List ℕ
  pub superseded_by : List ℕ

pub record AdrDraft : Type 0 where
  pub title : Text
  pub status : Text
  pub date : Text
  pub body : Text
  pub supersedes : List ℕ

-- `AdrFrontmatter`, before its id and its date are coerced
pub record AdrFrontmatter : Type 0 where
  pub adr_id : Value
  pub title : Text
  pub status : Text
  pub date : Value
  pub supersedes : List Value
  pub superseded_by : List Value

-- serde_yaml: the fields of a frontmatter, the texts of values, and of the errors
pub record AdrYaml : Type 0 where
  pub from_str : Text → Result Text AdrFrontmatter
  pub to_string : Value → Result Text Text
  pub debug : Value → Text
  pub parse_error : Text → Text
  pub range_error : Text

-- a row of `adr_index`
pub record AdrRow : Type 0 where
  pub adr_id : ℕ
  pub title : Text
  pub status : Text
  pub date : Text
  pub path : FilePath
  pub mtime_ns : ℕ

found_u32 : Text → Option ℕ → Result Text ℕ
found_u32 m (some n) = ok n
found_u32 m none = err m

module _ (yaml : AdrYaml) where
  number_id : Option ℕ → Result Text ℕ
  unfolding found_u32
  number_id none = err (codes "adr_id numeric must be a non-negative integer")
  number_id (some n) =
      found_u32 (codes "adr_id numeric must fit in u32: " ++ yaml.range_error) (u32_of (some n))

  -- `deserialize_adr_id`
  unfoldable pub deserialize_adr_id : Value → Result Text ℕ
  unfolding number_id found_u32
  deserialize_adr_id (string s) =
      found_u32 (codes "adr_id string must parse as u32: " ++ yaml.parse_error (trim s))
        (parse_u32 (trim s))
  deserialize_adr_id (number n) = number_id n
  deserialize_adr_id other =
      err (codes "adr_id must be string or integer, got " ++ yaml.debug other)

  trimmed : Result Text Text → Result Text Text
  trimmed (ok s) = ok (trim s)
  trimmed (err m) = err m

  -- `deserialize_date`
  unfoldable pub deserialize_date : Value → Result Text Text
  unfolding trimmed
  deserialize_date (string s) = ok s
  deserialize_date (number n) = trimmed (yaml.to_string (number n))
  deserialize_date other = trimmed (yaml.to_string other)

  adr_of : FilePath → Text → AdrFrontmatter → ℕ → Text → Adr
  adr_of path body fm adr_id date = record {
    summary = record {
      adr_id = adr_id;
      title = fm.title;
      status = fm.status;
      date = date;
      path = path;
    };
    body = trim_line_feeds body;
    supersedes = coerce_id_list fm.supersedes;
    superseded_by = coerce_id_list fm.superseded_by;
  }

  with_date : FilePath → Text → AdrFrontmatter → ℕ → Result Text Text → Result StoreError Adr
  unfolding adr_of
  with_date path body fm adr_id (err m) = err (frontmatter path m)
  with_date path body fm adr_id (ok date) = ok (adr_of path body fm adr_id date)

  with_id : FilePath → Text → AdrFrontmatter → Result Text ℕ → Result StoreError Adr
  unfolding with_date deserialize_date
  with_id path body fm (err m) = err (frontmatter path m)
  with_id path body fm (ok adr_id) = with_date path body fm adr_id (deserialize_date fm.date)

  with_fields : FilePath → Text → Result Text AdrFrontmatter → Result StoreError Adr
  unfolding with_id deserialize_adr_id
  with_fields path body (err m) = err (frontmatter path m)
  with_fields path body (ok fm) = with_id path body fm (deserialize_adr_id fm.adr_id)

  parse_split : FilePath → Result StoreError (Text × Text) → Result StoreError Adr
  unfolding with_fields
  parse_split path (err e) = err e
  parse_split path (ok (fields, body)) = with_fields path body (yaml.from_str fields)

  -- `parse_adr`
  unfoldable pub parse_adr : FilePath → Text → Result StoreError Adr
  unfolding parse_split
  parse_adr path text = parse_split path (split_frontmatter path text)

  -- the records as documents of the index, with the row of `upsert_index`
  abbrev pub adr_kind : Kind
  adr_kind = record {
    Key = ℕ;
    Doc = Adr;
    Row = AdrRow;
    eq_id = ◌==◌;
    parse = parse_adr;
    id_of = λ a. a.summary.adr_id;
    row_of = λ a t. record {
      adr_id = a.summary.adr_id;
      title = a.summary.title;
      status = a.summary.status;
      date = a.summary.date;
      path = a.summary.path;
      mtime_ns = t;
    };
  }

-- `MIN_NEW_ADR_ID`
abbrev pub min_new_adr_id : ℕ
min_new_adr_id = 7

or_zero : Option ℕ → ℕ
or_zero none = 0
or_zero (some n) = n

-- `saturating_add(1)` on a `u32`
next_u32 : ℕ → ℕ
next_u32 n = if ltb n (2 ^ 32 - 1) then n + 1 else 2 ^ 32 - 1

next_id : Option ℕ → ℕ
unfolding or_zero next_u32 u32_of
next_id none = 1
next_id (some n) = next_u32 (or_zero (u32_of (some n)))

max_u32 : ℕ → ℕ → ℕ
max_u32 a b = if leb a b then b else a

allocated : Result Text (Option ℕ) → Result StoreError ℕ
unfolding next_id max_u32
allocated (err m) = err (sqlite m)
allocated (ok m) = ok (max_u32 (next_id m) min_new_adr_id)

-- the text of a new record
adr_document : ℕ → AdrDraft → Text
adr_document adr_id draft =
    codes "---\nadr_id: \""
    ++ (padded 4 adr_id
        ++ (codes "\"\ntitle: "
            ++ (yaml_escape_inline draft.title
                ++ (codes "\nstatus: "
                    ++ (draft.status
                        ++ (codes "\ndate: "
                            ++ (draft.date
                                ++ (codes "\nsupersedes: "
                                    ++ (format_id_list draft.supersedes
                                        ++ (codes "\nsuperseded_by: []\n---\n\n"
                                            ++ (trim_end draft.body ++ 10 ∷ [])))))))))))

module _ (yaml : AdrYaml) (system : System (adr_kind yaml))
    (max_id : system.W → Result Text (Option ℕ)) where
  -- `allocate_next_id`
  unfoldable pub allocate_next_id : system.W → Result StoreError ℕ
  unfolding allocated
  allocate_next_id w = allocated (max_id w)

  -- `create`, in a directory
  unfoldable pub create : (ℕ → Text) → FilePath → AdrDraft → Steps system.W StoreError Adr
  unfolding allocate_next_id adr_document
  create lower dir draft = do
    lift (refuse_if (is_empty (trim draft.title)) (invalid_input (codes "title must be non-empty")))
    adr_id ← λ w. (allocate_next_id w, w)
    let filename = padded 4 adr_id ++ (b'-' ∷ slugify lower draft.title ++ codes ".md")
    create_document (adr_kind yaml) system (dir ++ filename ∷ []) filename
        (adr_document adr_id draft)

summary_of : AdrRow → AdrSummary
unfolding or_zero u32_of
summary_of row = record {
  adr_id = or_zero (u32_of (some row.adr_id));
  title = row.title;
  status = row.status;
  date = row.date;
  path = row.path;
}

summaries_of : List AdrRow → List AdrSummary
unfolding summary_of
summaries_of [] = []
summaries_of (row ∷ rows) = summary_of row ∷ summaries_of rows

-- `list`, of the rows that the statement gives, by their ids
unfoldable pub list : Result Text (List AdrRow) → Result StoreError (List AdrSummary)
unfolding summaries_of
list (ok rows) = ok (summaries_of rows)
list (err m) = err (sqlite m)
