-- ===== src/RouterInit/Available.antt =====
-- Which providers stand behind the router of crates/studio-server/src/router_init.rs.
use mathlib.Core.Path.{subst}
use cobrust_studio.Base.{
  ◌==◌, ◌≡◌, refl, sym, ap, Bool, true, false, ◌&&◌, inl, inr, List, [], ◌∷◌, Option, none, some,
  Text, eq_text, eq_text_refl, Result, ok, err, All, All-map, All-set_insert, any, Bool-cases,
  or_true, >>=-eq-ok, map_err, map_err-ok, ◌∙◌,
}
use cobrust_studio.Config.{ProviderConfig, RouterConfig}
use cobrust_studio.Host.{Host, Disk}
use cobrust_studio.Store.{StoreError}
use cobrust_studio.Store.Session.{Bytes, EncryptedBlob}
use cobrust_studio.Router.{Router, RouterError}
use cobrust_studio.Router.Builder.{
  register_provider, build, build-All, IsRegistered, build-IsRegistered,
}
use cobrust_studio.RouterInit.{
  Surroundings, InitError, read_config_failed, parse_config_failed, store_failed, AnyProvider,
  make_provider, Boot, register_made, register_one, register_all, no_providers, some_built, built,
  boot, read_config, ciphertext_of, parsed, prepared, build_inner, soft,
  try_build_router_from_project,
}

is_made : Option AnyProvider → Bool
is_made none = false
is_made (some p) = true

module _ (around : Surroundings) where
  -- a declared provider that can be made, under a name
  unfoldable pub provides : Option Bytes → Text → Text × ProviderConfig → Bool
  unfolding is_made
  provides blob name (declared, cfg) =
      eq_text declared name && is_made (make_provider around declared cfg blob)

  -- Of every declared name, a provider can be made.
  abbrev pub AreAvailable : RouterConfig → Option Bytes → Type 0
  AreAvailable cfg blob = All (λ e. any (provides blob e.0) cfg.providers ≡ true) cfg.providers

  module _ (host : Host) where
    register_made-All :
        (P : Text → Type 0) (name : Text) (o : Option AnyProvider) (b : Boot around host)
        → (is_made o ≡ true → P name)
        → All P b.builder.providers
        → All P (register_made around host name o b).builder.providers
    unfolding register_made register_provider is_made
    register_made-All P name none b h k = k
    register_made-All P name (some p) b h k = All-set_insert P name b.builder.providers (h refl) k

    register_all-All :
        (P : Text → Type 0) (ps : List (Text × ProviderConfig)) (blob : Option Bytes)
        (b : Boot around host)
        → All (λ e. is_made (make_provider around e.0 e.1 blob) ≡ true → P e.0) ps
        → All P b.builder.providers
        → All P (register_all around host ps blob b).builder.providers
    unfolding register_all register_one
    register_all-All P [] blob b h k = k
    register_all-All P ((name, cfg) ∷ ps) blob b (h, hs) k =
        register_all-All P ps blob _ hs
          (register_made-All P name (make_provider around name cfg blob) b h k)

  any-All : {A : Type 0} (xs : List A) → All (λ x. (p : A → Bool) → p x ≡ true → any p xs ≡ true) xs
  unfolding any
  any-All [] = tt
  any-All (x ∷ xs) =
      ((λ p h. rw h refl), All-map xs (any-All xs) λ y later p h. or_true (p x) (later p h))

  made-provides :
      (blob : Option Bytes) (cfg : RouterConfig)
      → All
          (λ e.
            is_made (make_provider around e.0 e.1 blob) ≡ true
            → any (provides blob e.0) cfg.providers ≡ true)
          cfg.providers
  unfolding provides
  made-provides blob cfg =
      All-map cfg.providers (any-All cfg.providers)
        λ e some_entry made. some_entry (provides blob e.0) (rw (eq_text_refl e.0) made)

  module _ (host : Host) where
    some_built-ok :
        (x : Result RouterError (Router host)) {r : Router host}
        → some_built around host x ≡ ok (some r)
        → x ≡ ok r
    unfolding some_built
    some_built-ok (ok q) h = cc
    some_built-ok (err e) h = absurd (cc h)

    built-ok :
        (cfg : RouterConfig) (b : Boot around host) (d : Disk host) {r : Router host}
        → (built around host cfg b d).0 ≡ ok (some r)
        → (build host b.builder cfg d).0 ≡ ok r
    unfolding built
    built-ok cfg b d h = elim (Bool-cases (b.registered_count == 0)) [
      | inl e ↦ absurd (cc (rw e at h))
      | inr e ↦ some_built-ok _ (rw e at h)
    ]

    -- A router that a start gives stands on a configuration of which every declared name has a provider
    -- that could be made; and each of its preferred models names one of its providers.
    abbrev pub StandsOn : Router host → RouterConfig → Option Bytes → Type 0
    StandsOn r cfg blob = AreAvailable cfg blob × All (IsRegistered r.providers) r.preferred

    boot-StandsOn :
        (cfg : RouterConfig) (blob : Option Bytes) (d : Disk host) {r : Router host}
        → (boot around host (ok (some (cfg, blob))) d).0 ≡ ok (some r)
        → StandsOn r cfg blob
    unfolding boot no_providers
    boot-StandsOn cfg blob d {r} h =
        let b = register_all around host cfg.providers blob (no_providers around host) in
        let made = built-ok cfg b d h in
        (
          build-All host (λ name. any (provides blob name) cfg.providers ≡ true) b.builder cfg d
              made
              (register_all-All host _ cfg.providers blob (no_providers around host)
                (made-provides blob cfg) tt),
          build-IsRegistered host b.builder cfg d (build host b.builder cfg d).1 r
              (ap (λ x. (x, (build host b.builder cfg d).1)) made),
        )

    -- What the file, the slot and TOML gave.
    abbrev pub WasRead :
        Result StoreError (Option EncryptedBlob) → RouterConfig → Option EncryptedBlob → Type 0
    WasRead found cfg there =
        ((text : Text) × (read_config around ≡ ok (some text))
          × (around.from_toml_str text ≡ ok cfg))
        × (found ≡ ok there)

    parsed-ok :
        (found : Result StoreError (Option EncryptedBlob)) (read : Option Text) {cfg : RouterConfig}
        {blob : Option Bytes}
        → parsed around host found read ≡ ok (some (cfg, blob))
        → (text : Text) × (there : Option EncryptedBlob) × (read ≡ some text)
          × (around.from_toml_str text ≡ ok cfg)
          × (found ≡ ok there)
          × (ciphertext_of there ≡ blob)
    unfolding parsed
    parsed-ok found none h = absurd (cc h)
    parsed-ok found (some text) {cfg} {blob} h =
        let (cfg', first, more) =
          >>=-eq-ok (map_err parse_config_failed (around.from_toml_str text)) _ h in
        let (there, second, last) = >>=-eq-ok (map_err store_failed found) _ more in
        let same_cfg : cfg' ≡ cfg = cc last in
        (
          text,
          there,
          refl,
          map_err-ok parse_config_failed (around.from_toml_str text) first ∙ ap ok same_cfg,
          map_err-ok store_failed found second,
          cc last,
        )

    soft-ok :
        (x : Result InitError (Option (Router host))) {r : Router host}
        → soft around host x ≡ some r
        → x ≡ ok (some r)
    unfolding soft
    soft-ok (ok q) h = ap ok h
    soft-ok (err e) h = absurd (cc h)

    boot-ok :
        (x : Result InitError (Option (RouterConfig × Option Bytes))) (d : Disk host)
        {r : Router host}
        → (boot around host x d).0 ≡ ok (some r)
        → (cfg : RouterConfig) × (blob : Option Bytes) × (x ≡ ok (some (cfg, blob)))
          × StandsOn r cfg blob
    unfolding boot
    boot-ok (err e) d h = absurd (cc h)
    boot-ok (ok none) d h = absurd (cc h)
    boot-ok (ok (some (cfg, blob))) d h = (cfg, blob, refl, boot-StandsOn cfg blob d h)

    -- Where a start gives a router, the file was read and parsed and the slot was read, of every
    -- declared name a provider could be made, and each preferred model names a provider of the router.
    pub try_build_router_from_project-StandsOn :
        (found : Result StoreError (Option EncryptedBlob)) (d : Disk host) {r : Router host}
        → (try_build_router_from_project around host found d).0 ≡ some r
        → (cfg : RouterConfig) × (there : Option EncryptedBlob) × WasRead found cfg there
          × StandsOn r cfg (ciphertext_of there)
    unfolding try_build_router_from_project build_inner prepared
    try_build_router_from_project-StandsOn found d {r} h =
        let (cfg, blob, x, stands) = boot-ok (prepared around host found) d (soft-ok _ h) in
        let (read, first, rest) =
          >>=-eq-ok (map_err read_config_failed (read_config around)) (parsed around host found)
            x in
        let (text, there, some_text, toml, slot, same) = parsed-ok found read rest in
        let was_read = map_err-ok read_config_failed (read_config around) first ∙ ap ok some_text in
        (cfg, there, ((text, was_read, toml), slot), subst (StandsOn r cfg) (sym same) stands)
