-- ===== src/Store/Adr/Paths.antt =====
-- The path of a record that `parse_adr` of crates/studio-store/src/adr.rs reads.
use cobrust_studio.Base.{ℕ, ◌≡◌, sym, ap, Text, Result, ok, err, ok_injective, ==_refl}
use cobrust_studio.Host.{FilePath}
use cobrust_studio.Store.{StoreError}
use cobrust_studio.Store.Markdown.{split_frontmatter}
use cobrust_studio.Store.Documents.Created.{HasPath}
use cobrust_studio.Store.Adr.{
  Adr, AdrFrontmatter, AdrYaml, adr_kind, adr_of, with_date, with_id, with_fields, parse_split,
  parse_adr, deserialize_adr_id, deserialize_date,
}

module _ (yaml : AdrYaml) (path : FilePath) where
  with_date-path :
      (body : Text) (fm : AdrFrontmatter) (id : ℕ) (date : Result Text Text) {adr : Adr}
      → with_date yaml path body fm id date ≡ ok adr
      → adr.summary.path ≡ path
  unfolding with_date adr_of
  with_date-path body fm id (err m) h = absurd (cc h)
  with_date-path body fm id (ok date) h = ap (λ (a : Adr). a.summary.path) (sym (ok_injective h))

  with_id-path :
      (body : Text) (fm : AdrFrontmatter) (id : Result Text ℕ) {adr : Adr}
      → with_id yaml path body fm id ≡ ok adr
      → adr.summary.path ≡ path
  unfolding with_id
  with_id-path body fm (err m) h = absurd (cc h)
  with_id-path body fm (ok id) h = with_date-path body fm id (deserialize_date yaml fm.date) h

  with_fields-path :
      (body : Text) (fm : Result Text AdrFrontmatter) {adr : Adr}
      → with_fields yaml path body fm ≡ ok adr
      → adr.summary.path ≡ path
  unfolding with_fields
  with_fields-path body (err m) h = absurd (cc h)
  with_fields-path body (ok fm) h = with_id-path body fm (deserialize_adr_id yaml fm.adr_id) h

  parse_split-path :
      (r : Result StoreError (Text × Text)) {adr : Adr}
      → parse_split yaml path r ≡ ok adr
      → adr.summary.path ≡ path
  unfolding parse_split
  parse_split-path (err e) h = absurd (cc h)
  parse_split-path (ok (fields, body)) h = with_fields-path body (yaml.from_str fields) h

  parse_adr-path :
      (text : Text) {adr : Adr} → parse_adr yaml path text ≡ ok adr → adr.summary.path ≡ path
  unfolding parse_adr
  parse_adr-path text h = parse_split-path (split_frontmatter path text) h

pub adr-HasPath : (yaml : AdrYaml) → HasPath (adr_kind yaml) (λ row. row.path)
adr-HasPath yaml = record {
  parsed_path = λ path text doc t h. parse_adr-path yaml path text h;
  eq_id_refl = λ key. ==_refl key;
}
