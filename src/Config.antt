-- ===== src/Config.antt =====
-- crates/studio-router/src/config.rs: the `[router]` and `[providers]` sections, the parser of a
-- `provider:model` tag and the check of a configuration. A `BTreeMap` is the list of its entries.
pub mod Tags
use cobrust_studio.Base.{
  ℕ, Bool, true, false, ◌||◌, Option, none, some, List, [], ◌∷◌, ◌++◌, Text, eq_text, trim,
  split_first, is_empty, Result, ok, err, ◌>>=◌, ◌>>◌, ok_or, refuse_if, not, if◌then◌else◌,
}

pub data Strategy : Type 0 where
  cost quality latency : Strategy

pub data ProviderKind : Type 0 where
  anthropic openai synthetic : ProviderKind

pub record ProviderConfig : Type 0 where
  pub kind : ProviderKind
  pub base_url : Text
  pub api_key_env : Text
  pub models : List Text

pub record RouterSection : Type 0 where
  pub strategy : Strategy
  pub cache_dir : Text
  pub ledger_path : Text
  pub preferred : List Text

pub record RouterConfig : Type 0 where
  pub router : RouterSection
  pub providers : List (Text × ProviderConfig)

pub record ProviderModel : Type 0 where
  pub provider : Text
  pub model : Text

-- the two parts of a tag, after `trim`
both_parts : Text → Text → Option ProviderModel
both_parts p m =
    if is_empty p || is_empty m then none else some (record { provider = p; model = m })

parts : Text → Option Text → Option ProviderModel
unfolding both_parts
parts p none = none
parts p (some m) = both_parts (trim p) (trim m)

-- `ProviderModel::parse`
unfoldable pub parse : Text → Option ProviderModel
unfolding parts
parse s = let (p, m) = split_first b':' s in parts p m

-- `contains_key`
unfoldable pub contains_key {ℓ} : {A : Type ℓ} → Text → List (Text × A) → Bool
contains_key k [] = false
contains_key k ((j, a) ∷ rest) = eq_text j k || contains_key k rest

-- The message of a rejected configuration: each constructor is one `format!` and holds its arguments.
pub data ConfigIssue : Type 0 where
  malformed_tag : Text → ConfigIssue
  not_declared : Text → Text → ConfigIssue
  not_with_builder : Text → ConfigIssue
  not_registered : Text → Text → ConfigIssue

-- one round of the loop of `RouterConfig::validate`
check_tag : List (Text × ProviderConfig) → Text → Result ConfigIssue (Unit {0})
check_tag providers tag = do
  pm ← ok_or (parse tag) (malformed_tag tag)
  refuse_if (not (contains_key pm.provider providers)) (not_declared pm.provider tag)

check_tags : List (Text × ProviderConfig) → List Text → Result ConfigIssue (Unit {0})
check_tags providers [] = ok tt
check_tags providers (tag ∷ tags) = check_tag providers tag >> check_tags providers tags

-- `RouterConfig::validate`
unfoldable pub validate : RouterConfig → Result ConfigIssue (Unit {0})
unfolding check_tag check_tags
validate cfg = check_tags cfg.providers cfg.router.preferred

-- `format!("{}:{}", pm.provider, pm.model)`, the key of the latency table
unfoldable pub tag_of : ProviderModel → Text
tag_of pm = pm.provider ++ b':' ∷ pm.model
