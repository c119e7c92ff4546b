-- ===== src/RouterInit.antt =====
-- crates/studio-server/src/router_init.rs: the router that the configuration file gives at the start.
-- The environment, the files, TOML and the HTTP client are parameters.
pub mod Available
use cobrust_studio.Base.{
  ℕ, suc, ◌==◌, Bool, true, false, not, ◌&&◌, List, [], ◌∷◌, Option, none, some, Text, codes,
  is_empty, Result, ok, err, ◌>>=◌, map_err, if◌then◌else◌,
}
use cobrust_studio.Config.{ProviderKind, anthropic, openai, synthetic, ProviderConfig, RouterConfig}
use cobrust_studio.Host.{Host, Disk}
use cobrust_studio.Store.{StoreError}
use cobrust_studio.Store.Session.{Bytes, EncryptedBlob}
use cobrust_studio.Adapter.{Client}
use cobrust_studio.Adapter.Anthropic
use cobrust_studio.Adapter.Anthropic.{AnthropicProvider}
use cobrust_studio.Adapter.OpenAi
use cobrust_studio.Adapter.OpenAi.{OpenAiProvider}
use cobrust_studio.Synthetic
use cobrust_studio.Synthetic.{SyntheticProvider}
use cobrust_studio.Router.{Router, RouterError}
use cobrust_studio.Router.Builder.{RouterBuilder, register_provider, build}
use cobrust_studio.Router.Builder

-- `PRIMARY_CONFIG_FILE` and `ALTERNATE_CONFIG_FILE`
abbrev pub primary_config_file : Text
primary_config_file = codes "studio.toml"

abbrev pub alternate_config_file : Text
alternate_config_file = codes "cobrust-studio.toml"

-- Each variant holds the error whose text the program keeps.
pub data InitError : Type 0 where
  read_config_failed : Text → InitError
  parse_config_failed : Text → InitError
  router_build_failed : RouterError → InitError
  store_failed : StoreError → InitError

-- What surrounds the program at its start: the variables, the two files by their names, the decoder of
-- UTF-8, the reader of TOML, and the builder of an HTTP client.
pub record Surroundings : Type 0 where
  pub var : Text → Option Text
  pub exists : Text → Bool
  pub read_to_string : Text → Result Text Text
  pub from_utf8 : Bytes → Option Text
  pub from_toml_str : Text → Result Text RouterConfig
  pub client : Result Text Client

-- what is registered, an `Arc<dyn LlmProvider>`
pub data AnyProvider : Type 0 where
  synthetic_provider : SyntheticProvider → AnyProvider
  anthropic_provider : AnthropicProvider → AnyProvider
  openai_provider : OpenAiProvider → AnyProvider

-- the bytes of the blob, where there is one
unfoldable pub ciphertext_of : Option EncryptedBlob → Option Bytes
ciphertext_of none = none
ciphertext_of (some b) = some b.ciphertext

module _ (around : Surroundings) where
  open around use {var, exists, read_to_string, from_utf8, from_toml_str, client}

  -- a text that is there and not empty
  filled : Option Text → Option Text
  filled none = none
  filled (some v) = if is_empty v then none else some v

  from_env : Text → Option Text
  unfolding filled
  from_env name = if is_empty name then none else filled (var name)

  from_blob : Option Bytes → Option Text
  from_blob none = none
  from_blob (some bytes) = if is_empty bytes then none else from_utf8 bytes

  unfoldable pub resolve_api_key : Text → Option Bytes → Option Text
  unfolding from_env from_blob
  resolve_api_key api_key_env blob_fallback = elim (from_env api_key_env) [
    | some v ↦ some v
    | none ↦ from_blob blob_fallback
  ]

  with_key : Option Text → (Text → Result Text AnyProvider) → Option AnyProvider
  with_key none new = none
  with_key (some key) new = elim (new key) [ ok p ↦ some p | err why ↦ none ]

  new_anthropic : Text → ProviderConfig → Text → Result Text AnyProvider
  unfolding Anthropic.new
  new_anthropic name cfg key = do
    p ← Anthropic.new client name cfg.base_url key
    ok (anthropic_provider p)

  new_openai : Text → ProviderConfig → Text → Result Text AnyProvider
  unfolding OpenAi.new
  new_openai name cfg key = do p ← OpenAi.new client name cfg.base_url key; ok (openai_provider p)

  -- the provider that `register_one` makes
  unfoldable pub make_provider : Text → ProviderConfig → Option Bytes → Option AnyProvider
  unfolding Synthetic.new with_key resolve_api_key new_anthropic new_openai
  make_provider name cfg blob = elim cfg.kind [
    | synthetic ↦ some (synthetic_provider (Synthetic.new name))
    | anthropic ↦ with_key (resolve_api_key cfg.api_key_env blob) (new_anthropic name cfg)
    | openai ↦ with_key (resolve_api_key cfg.api_key_env blob) (new_openai name cfg)
  ]

  read_from : Text → Result Text (Option Text)
  read_from name = do text ← read_to_string name; ok (some text)

  unfoldable pub read_config : Result Text (Option Text)
  unfolding read_from
  read_config =
      if exists primary_config_file
      then read_from primary_config_file
      else if exists alternate_config_file
      then read_from alternate_config_file
      else ok none

  module _ (host : Host) where
    -- the builder, the providers that it was given, and their number
    pub record Boot : Type 0 where
      pub builder : RouterBuilder host
      pub registered : List (Text × AnyProvider)
      pub registered_count : ℕ

    register_made : Text → Option AnyProvider → Boot → Boot
    unfolding register_provider
    register_made name none b = b
    register_made name (some p) b = record {
      builder = register_provider host name b.builder;
      registered = (name, p) ∷ b.registered;
      registered_count = suc b.registered_count;
    }

    -- `register_one`, where it is called
    unfoldable pub register_one : Text → ProviderConfig → Option Bytes → Boot → Boot
    unfolding make_provider register_made
    register_one name cfg blob b = register_made name (make_provider name cfg blob) b

    register_all : List (Text × ProviderConfig) → Option Bytes → Boot → Boot
    unfolding register_one
    register_all [] blob b = b
    register_all ((name, cfg) ∷ rest) blob b = register_all rest blob (register_one name cfg blob b)

    no_providers : Boot
    unfolding Builder.new
    no_providers = record { builder = Builder.new host; registered = []; registered_count = 0 }

    some_built : Result RouterError (Router host) → Result InitError (Option (Router host))
    some_built (ok r) = ok (some r)
    some_built (err e) = err (router_build_failed e)

    built : RouterConfig → Boot → Disk host → Result InitError (Option (Router host)) × Disk host
    unfolding build some_built
    built cfg b d =
        if b.registered_count == 0
        then (ok none, d)
        else let (r, d') = build host b.builder cfg d in (some_built r, d')

    parsed :
        Result StoreError (Option EncryptedBlob)
        → Option Text
        → Result InitError (Option (RouterConfig × Option Bytes))
    unfolding ciphertext_of
    parsed found none = ok none
    parsed found (some text) = do
      cfg ← map_err parse_config_failed (from_toml_str text)
      blob ← map_err store_failed found
      ok (some (cfg, ciphertext_of blob))

    -- the part of `build_inner` in front of the loop
    prepared :
        Result StoreError (Option EncryptedBlob)
        → Result InitError (Option (RouterConfig × Option Bytes))
    unfolding read_config parsed
    prepared found = do read ← map_err read_config_failed read_config; parsed found read

    boot :
        Result InitError (Option (RouterConfig × Option Bytes))
        → Disk host
        → Result InitError (Option (Router host)) × Disk host
    unfolding register_all built no_providers
    boot (err e) d = (err e, d)
    boot (ok none) d = (ok none, d)
    boot (ok (some (cfg, blob))) d = built cfg (register_all cfg.providers blob no_providers) d

    -- `build_inner`, of the blob in the slot of the endpoint
    unfoldable pub build_inner :
        Result StoreError (Option EncryptedBlob)
        → Disk host
        → Result InitError (Option (Router host)) × Disk host
    unfolding prepared boot
    build_inner found d = boot (prepared found) d

    soft : Result InitError (Option (Router host)) → Option (Router host)
    soft (ok r) = r
    soft (err e) = none

    -- `try_build_router_from_project`, which has no error of its own
    unfoldable pub try_build_router_from_project :
        Result StoreError (Option EncryptedBlob) → Disk host → Option (Router host) × Disk host
    unfolding build_inner soft
    try_build_router_from_project found d = let (r, d') = build_inner found d in (soft r, d')
