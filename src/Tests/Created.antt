-- ===== src/Tests/Created.antt =====
-- A run of crates/studio-server/src/routes/adr.rs on files and a table that keep what they are given.
use cobrust_studio.Base.{
  ℕ, ◌==◌, ◌≡◌, refl, sym, false, none, some, [], ◌∷◌, Option, Text, Result, codes, ok, eq_text,
  any, trim, trim_start, trim_end, is_whitespace, padded, decimal, contains_char, strip_prefix,
  ok_injective, if◌then◌else◌,
}
use cobrust_studio.Host.{FilePath, eq_path, eq_path_iff}
use cobrust_studio.Store.Yaml.{u32_of, u32_only, format_id_list, yaml_escape_inline, coerce_id_list}
use cobrust_studio.Store.Markdown.{split_frontmatter, lines, trim_line_feeds}
use cobrust_studio.Store.Slug.{slugify}
use cobrust_studio.Store.Documents.{System, IsTable, create_document}
use cobrust_studio.Store.Documents.Created.{IsStored, path_in}
use cobrust_studio.Store.Adr.{
  Adr, AdrRow, adr_kind, parse_adr, deserialize_adr_id, deserialize_date, allocate_next_id,
}
use cobrust_studio.Store.Adr
use cobrust_studio.Routes.{RouteError}
use cobrust_studio.Api.{AdrDraftBody, create_adr, get_adr, into_adr_draft}
use cobrust_studio.Api.Created.{get_adr-create_adr}
use cobrust_studio.Steps.{◌>>=◌}
use cobrust_studio.Tests.Records.{yaml}

abbrev Shelf : Type 0
Shelf = (FilePath → Text) × (ℕ → Option AdrRow)

abbrev shelf : System (adr_kind yaml)
shelf = record {
  W = Shelf;
  reads = λ w p. ok (w.0 p);
  exists = λ w p. ok false;
  listing = λ w dir. ok [];
  mtime_ns = λ w p. some 3;
  write = λ p t w. (ok tt, ((λ q. if eq_path q p then t else w.0 q), w.1));
  io_text = λ e. [];
  rows = λ w id. w.1 id;
  select_path = λ id w. ok (path_in (λ (r : AdrRow). r.path) (w.1 id));
  upsert = λ key row w. (ok tt, (w.0, λ o. if o == key then some row else w.1 o));
  delete_all = λ w. (ok tt, (w.0, λ o. none));
  delete_not_in = λ keep w. (ok tt, (w.0, λ o. if any (◌==◌ o) keep then w.1 o else none));
}

shelf-IsTable : IsTable (adr_kind yaml) shelf
shelf-IsTable = record {
  upsert_rows = λ key other row w h. refl;
  upsert_reads = λ key row w. refl;
  upsert_mtime_ns = λ key row w. refl;
  delete_all_rows = λ other w h. refl;
  delete_not_in_rows = λ keep other w h. refl;
}

shelf-IsStored : IsStored (adr_kind yaml) shelf (λ row. row.path)
shelf-IsStored = record {
  write_reads = λ path text w h. rw ((eq_path_iff path path).1 refl) refl;
  select_rows = λ key w h. sym (ok_injective h);
}

abbrev empty_shelf : Shelf
empty_shelf = ((λ p. []), λ id. none)

abbrev body : AdrDraftBody
body = record {
  title = codes "Fix";
  status = none;
  date = none;
  body = codes "why";
  supersedes = [];
}

abbrev outcome : Result RouteError Adr × Shelf
outcome =
    create_adr yaml shelf (λ w. ok none) (λ c. c ∷ []) []
      (record { year = 2026; month = 1; day = 1 }) (ok body) empty_shelf

abbrev created : Adr
created = record {
  summary = record {
    adr_id = 7;
    title = codes "Fix";
    status = codes "proposed";
    date = codes "2026-01-01";
    path = codes "0007-Fix.md" ∷ [];
  };
  body = codes "why\n";
  supersedes = [];
  superseded_by = [];
}

created_test : outcome.0 ≡ ok created
unfolding create_adr into_adr_draft Adr.create allocate_next_id create_document slugify padded
    parse_adr deserialize_adr_id deserialize_date split_frontmatter lines trim_line_feeds
    format_id_list yaml_escape_inline u32_of u32_only eq_text codes trim trim_start trim_end
    is_whitespace ◌>>=◌ decimal contains_char strip_prefix coerce_id_list
created_test = refl

selected_test : shelf.select_path 7 outcome.1 ≡ ok (some (codes "0007-Fix.md" ∷ []))
unfolding create_adr into_adr_draft Adr.create allocate_next_id create_document slugify padded
    parse_adr deserialize_adr_id deserialize_date split_frontmatter lines trim_line_feeds
    format_id_list yaml_escape_inline u32_of u32_only eq_text codes trim trim_start trim_end
    is_whitespace ◌>>=◌ decimal contains_char strip_prefix coerce_id_list
selected_test = refl

get_adr-create_adr_example : get_adr yaml shelf (λ w. ok none) 7 outcome.1 ≡ ok created
get_adr-create_adr_example =
    get_adr-create_adr yaml shelf (λ w. ok none) shelf-IsTable shelf-IsStored (λ c. c ∷ []) []
      (record { year = 2026; month = 1; day = 1 }) (ok body) empty_shelf created_test selected_test
