-- ===== src/Api/Created.antt =====
-- What `get_adr` answers behind `create_adr`, in crates/studio-server/src/routes/adr.rs.
use cobrust_studio.Base.{ℕ, ◌≡◌, refl, ap, ◌∙◌, Option, some, Text, Result, ok, map_err-ok}
use cobrust_studio.Host.{FilePath}
use cobrust_studio.Steps.{Steps, behind-ok}
use cobrust_studio.Routes.{of_store}
use cobrust_studio.Store.{StoreError}
use cobrust_studio.Store.Documents.{System, IsTable}
use cobrust_studio.Store.Documents.Created.{IsStored, Gets, create_document-Gets}
use cobrust_studio.Store.Adr.{Adr, AdrDraft, AdrYaml, adr_kind}
use cobrust_studio.Store.Adr
use cobrust_studio.Store.Adr.Paths.{adr-HasPath}
use cobrust_studio.Api.{
  AdrDraftBody, Day, from_store, into_adr_draft, create_adr, get_adr, got_adr, found_adr,
}

module _ (yaml : AdrYaml) (system : System (adr_kind yaml))
    (max_id : system.W → Result Text (Option ℕ)) (table : IsTable (adr_kind yaml) system)
    (stored : IsStored (adr_kind yaml) system (λ row. row.path)) where
  create-Gets :
      (lower : ℕ → Text) (dir : FilePath) (draft : AdrDraft) (w : system.W) {adr : Adr}
      → (Adr.create yaml system max_id lower dir draft w).0 ≡ ok adr
      → Gets (adr_kind yaml) system adr (Adr.create yaml system max_id lower dir draft w).1
  unfolding Adr.create
  create-Gets lower dir draft w {adr} h =
      let P = Gets (adr_kind yaml) system adr in
      behind-ok P _ _ w h λ u h1 rest1. behind-ok P _ _ w rest1 λ id h2 rest2.
        create_document-Gets (adr_kind yaml) system table (λ row. row.path) (adr-HasPath yaml)
          stored _ _ _ w rest2

  from_store-Gets :
      (m : Steps system.W StoreError Adr) (w : system.W) {adr : Adr}
      → ((m w).0 ≡ ok adr → Gets (adr_kind yaml) system adr (m w).1)
      → (from_store m w).0 ≡ ok adr
      → Gets (adr_kind yaml) system adr (from_store m w).1
  unfolding from_store
  from_store-Gets m w gets h = gets (map_err-ok of_store _ h)

  create_adr-Gets :
      (lower : ℕ → Text) (dir : FilePath) (today : Day) (payload : Result Text AdrDraftBody)
      (w : system.W) {adr : Adr}
      → (create_adr yaml system max_id lower dir today payload w).0 ≡ ok adr
      → Gets (adr_kind yaml) system adr (create_adr yaml system max_id lower dir today payload w).1
  unfolding create_adr
  create_adr-Gets lower dir today payload w {adr} h =
      let P = Gets (adr_kind yaml) system adr in
      behind-ok P _ _ w h λ body h1 rest1. behind-ok P _ _ w rest1 λ u h2 rest2.
        from_store-Gets (Adr.create yaml system max_id lower dir (into_adr_draft today body)) w
          (create-Gets lower dir (into_adr_draft today body) w) rest2

  got : (id : ℕ) (adr : Adr) → got_adr yaml system max_id id (ok (some adr)) ≡ ok adr
  unfolding got_adr found_adr
  got id adr = refl

  -- A record that was created is got by its id, where the select of its path succeeds, on files and a
  -- table that keep what they are given.
  pub get_adr-create_adr :
      (lower : ℕ → Text) (dir : FilePath) (today : Day) (payload : Result Text AdrDraftBody)
      (w : system.W) {adr : Adr} {found : Option FilePath}
      → (create_adr yaml system max_id lower dir today payload w).0 ≡ ok adr
      → system.select_path adr.summary.adr_id
          (create_adr yaml system max_id lower dir today payload w).1
        ≡ ok found
      → get_adr yaml system max_id adr.summary.adr_id
          (create_adr yaml system max_id lower dir today payload w).1
        ≡ ok adr
  unfolding get_adr
  get_adr-create_adr lower dir today payload w {adr} {found} h selected =
      ap (got_adr yaml system max_id adr.summary.adr_id)
        (create_adr-Gets lower dir today payload w h found selected)
      ∙ got adr.summary.adr_id adr
