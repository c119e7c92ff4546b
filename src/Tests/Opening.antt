-- ===== src/Tests/Opening.antt =====
-- A run of crates/studio-store/src/lib.rs.
use cobrust_studio.Base.{
  ◌≡◌, refl, [], ◌∷◌, ◌++◌, codes, ok, eq_text, trim, trim_start, trim_end, is_whitespace,
}
use cobrust_studio.Store.Yaml.{u32_of, u32_only}
use cobrust_studio.Store.Markdown.{split_frontmatter, lines}
use cobrust_studio.Store.Documents.{reindex, is_document, split_name, prune_index}
use cobrust_studio.Store.Adr.{adr_kind, parse_adr, deserialize_adr_id, deserialize_date}
use cobrust_studio.Store.View.{sync_from_jsonl, clear, append}
use cobrust_studio.Store.Root.{Parts, Project, inner_of, load, open_store}
use cobrust_studio.Store.Root.Synced.{Files, IsSynced, open_store-IsSynced}
use cobrust_studio.Steps.{◌>>=◌}
use cobrust_studio.Tests.Records.{yaml, library, library-IsTable, old_rows, path, view, view-IsView}

abbrev parts : Parts
parts = record {
  adr_kind = adr_kind yaml;
  adr_system = library;
  finding_kind = adr_kind yaml;
  finding_system = library;
  view = view;
  create_dir_all = λ p. ok tt;
  connect = λ p. ok tt;
  raw_sql = ok tt;
  io_text = λ e. [];
}

abbrev closed : Project parts
closed = record { adr = old_rows; finding = old_rows; db = [] }

abbrev files : Files parts (inner_of []) closed
files = record {
  adrs = ok ((inner_of []).adr_dir ++ path) ∷ [];
  findings = ok ((inner_of []).finding_dir ++ path) ∷ [];
  bytes = codes "e\n\ne\nba";
  adrs_listed = refl;
  findings_listed = refl;
  bytes_read = refl;
}

open_test : (open_store parts [] closed).0 ≡ ok (inner_of [])
unfolding open_store load inner_of reindex is_document split_name parse_adr split_frontmatter lines
    eq_text codes deserialize_adr_id deserialize_date u32_of u32_only prune_index sync_from_jsonl
    clear append trim trim_start trim_end is_whitespace ◌>>=◌
open_test = refl

open_store-IsSynced_example :
    IsSynced parts (inner_of []) closed files (open_store parts [] closed).1
open_store-IsSynced_example =
    open_store-IsSynced parts
      (record {
        adr_table = library-IsTable;
        finding_table = library-IsTable;
        view_table = view-IsView;
      })
      [] closed files open_test
