-- ===== src/Router/Builder.antt =====
-- crates/studio-router/src/router.rs: `RouterBuilder` and `build`.
use cobrust_studio.Base.{
  set_insert, Option, none, some, List, [], ◌∷◌, Text, true, ◌≡◌, ok_injective, refl, ap, arith,
  Result, ok, err, any, eq_text, eq_text_iff, Bool-cases, inl, inr, ◌>>=◌, ◌>>◌, ok_or, refuse_if,
  not, All, >>=-eq-ok, >>-eq-ok,
}
use mathlib.Core.Path.{subst}
use cobrust_studio.Config.{
  ProviderModel, ProviderConfig, RouterConfig, ConfigIssue, not_with_builder, not_registered,
  malformed_tag, parse, validate,
}
use cobrust_studio.Host.{Host, Disk, IoError}
use cobrust_studio.Files
use cobrust_studio.Files.{Io, on_directory}
use cobrust_studio.Router.{Router, RouterError, config, io, io_text, registered}
use cobrust_studio.Router.Policy.{RetryPolicy}

-- one round of the loop over `cfg.router.preferred` in `build`
resolve_tag : List Text → Text → Result ConfigIssue ProviderModel
resolve_tag keys tag = do
  pm ← ok_or (parse tag) (malformed_tag tag)
  refuse_if (not (registered pm.provider keys)) (not_registered pm.provider tag)
  ok pm

resolve_tags : List Text → List Text → Result ConfigIssue (List ProviderModel)
resolve_tags keys [] = ok []
resolve_tags keys (tag ∷ tags) = do
  pm ← resolve_tag keys tag
  pms ← resolve_tags keys tags
  ok (pm ∷ pms)

-- the loop over `cfg.providers.keys()`
check_registered : List Text → List (Text × ProviderConfig) → Result ConfigIssue (Unit {0})
check_registered keys [] = ok tt
check_registered keys ((name, c) ∷ rest) =
    refuse_if (not (registered name keys)) (not_with_builder name) >> check_registered keys rest

-- the part of `build` in front of the first file
unfoldable pub resolve : List Text → RouterConfig → Result ConfigIssue (List ProviderModel)
unfolding check_registered resolve_tags resolve_tag
resolve keys cfg = do
  validate cfg
  check_registered keys cfg.providers
  resolve_tags keys cfg.router.preferred

module _ (host : Host) where
  open host use {of_u64}

  pub record RouterBuilder : Type 0 where
    pub providers : List Text
    pub retry : Option (RetryPolicy host)

  -- `RouterBuilder::new`
  unfoldable pub new : RouterBuilder
  new = record { providers = []; retry = none }

  -- `RouterBuilder::register_provider`
  unfoldable pub register_provider : Text → RouterBuilder → RouterBuilder
  register_provider name b = record b { providers = set_insert name b.providers }

  -- `RouterBuilder::retry_policy`
  unfoldable pub retry_policy : RetryPolicy host → RouterBuilder → RouterBuilder
  retry_policy p b = record b { retry = some p }

  -- `RetryPolicy::default`
  default_policy : RetryPolicy host
  default_policy = record {
    max_attempts = 5;
    base_delay_ms = 250;
    factor = of_u64 2;
    max_total_ms = 30000;
  }

  policy_or_default : Option (RetryPolicy host) → RetryPolicy host
  policy_or_default none = default_policy
  policy_or_default (some p) = p

  -- `Cache::new` and `Ledger::open`, each two steps on the file system
  open_files : Io host (Unit {0})
  open_files =
      let step = on_directory host in Files.◌>>◌ step (Files.◌>>◌ step (Files.◌>>◌ step step))

  opened :
      RouterBuilder
      → RouterConfig
      → List ProviderModel
      → Result IoError (Unit {0})
      → Result RouterError (Router host)
  opened b cfg preferred_models (err e) = err (io (io_text e))
  opened b cfg preferred_models (ok _) = ok (record {
    providers = b.providers;
    preferred = preferred_models;
    strategy = cfg.router.strategy;
    cache_root = cfg.router.cache_dir ∷ [];
    retry = policy_or_default b.retry;
  })

  resolved :
      RouterBuilder
      → RouterConfig
      → Result ConfigIssue (List ProviderModel)
      → Disk host
      → Result RouterError (Router host) × Disk host
  resolved b cfg (err issue) d = (err (config issue), d)
  resolved b cfg (ok pms) d = let (r, d') = open_files d in (opened b cfg pms r, d')

  -- `RouterBuilder::build`
  unfoldable pub build :
      RouterBuilder → RouterConfig → Disk host → Result RouterError (Router host) × Disk host
  unfolding resolved opened open_files policy_or_default default_policy
  build b cfg = resolved b cfg (resolve b.providers cfg)

-- Every preferred model of a built router names a provider of the router.
abbrev pub IsRegistered : List Text → ProviderModel → Type 0
IsRegistered keys pm = registered pm.provider keys ≡ true

resolve_tag-IsRegistered :
    (keys : List Text) (tag : Text) {pm : ProviderModel}
    → resolve_tag keys tag ≡ ok pm
    → IsRegistered keys pm
unfolding resolve_tag
resolve_tag-IsRegistered keys tag h = ground arith

resolve_tags-IsRegistered :
    (keys : List Text) (tags : List Text) {pms : List ProviderModel}
    → resolve_tags keys tags ≡ ok pms
    → All (IsRegistered keys) pms
unfolding resolve_tags
resolve_tags-IsRegistered keys [] h = subst (All (IsRegistered keys)) (ok_injective h) tt
resolve_tags-IsRegistered keys (tag ∷ tags) h =
    let (pm, first, more) = >>=-eq-ok (resolve_tag keys tag) _ h in
    let (pms, rest, last) = >>=-eq-ok (resolve_tags keys tags) _ more in
    subst (All (IsRegistered keys)) (ok_injective last)
      (resolve_tag-IsRegistered keys tag first, resolve_tags-IsRegistered keys tags rest)

resolve-IsRegistered :
    (keys : List Text) (cfg : RouterConfig) {pms : List ProviderModel}
    → resolve keys cfg ≡ ok pms
    → All (IsRegistered keys) pms
unfolding resolve
resolve-IsRegistered keys cfg h =
    let (_, later) = >>-eq-ok (validate cfg) _ h in
    let (_, last) = >>-eq-ok (check_registered keys cfg.providers) _ later in
    resolve_tags-IsRegistered keys cfg.router.preferred last

registered-All :
    (P : Text → Type 0) (k : Text) (keys : List Text) → registered k keys ≡ true → All P keys → P k
unfolding registered any
registered-All P k [] h all = absurd (cc h)
registered-All P k (j ∷ keys) h (p, all) = elim (Bool-cases (eq_text j k)) [
  | inl same ↦ subst P ((eq_text_iff j k).0 same) p
  | inr other ↦ registered-All P k keys (rw other at h) all
]

check_registered-All :
    (P : Text → Type 0) (keys : List Text) (ps : List (Text × ProviderConfig))
    → check_registered keys ps ≡ ok tt
    → All P keys
    → All (λ e. P e.0) ps
unfolding check_registered
check_registered-All P keys [] h all = tt
check_registered-All P keys ((name, c) ∷ ps) h all =
    let (first, rest) =
      >>-eq-ok (refuse_if (not (registered name keys)) (not_with_builder name)) _ h in
    (
      registered-All P name keys (ground (arith, first)) all,
      check_registered-All P keys ps rest all,
    )

-- A router that was built has every declared provider: what all of the names of the builder have, the
-- declared names have.
pub resolve-All :
    (P : Text → Type 0) (keys : List Text) (cfg : RouterConfig) {pms : List ProviderModel}
    → resolve keys cfg ≡ ok pms
    → All P keys
    → All (λ e. P e.0) cfg.providers
unfolding resolve
resolve-All P keys cfg h all =
    let (_, later) = >>-eq-ok (validate cfg) _ h in
    let (checked, _) = >>-eq-ok (check_registered keys cfg.providers) _ later in
    check_registered-All P keys cfg.providers checked all

module _ (host : Host) where
  opened-IsRegistered :
      (b : RouterBuilder host) (cfg : RouterConfig) (pms : List ProviderModel)
      (files : Result IoError (Unit {0})) {r : Router host}
      → All (IsRegistered b.providers) pms
      → opened host b cfg pms files ≡ ok r
      → All (IsRegistered r.providers) r.preferred
  unfolding opened
  opened-IsRegistered b cfg pms (err e) all h = absurd (cc h)
  opened-IsRegistered b cfg pms (ok _) all h =
      subst (λ (r : Router host). All (IsRegistered r.providers) r.preferred) (ok_injective h) all

  resolved-IsRegistered :
      (b : RouterBuilder host) (cfg : RouterConfig)
      (found : Result ConfigIssue (List ProviderModel)) (d d' : Disk host) {r : Router host}
      → ((pms : List ProviderModel) → found ≡ ok pms → All (IsRegistered b.providers) pms)
      → resolved host b cfg found d ≡ (ok r, d')
      → All (IsRegistered r.providers) r.preferred
  unfolding resolved
  resolved-IsRegistered b cfg (err issue) d d' all h = absurd (cc (ap (λ t. t.0) h))
  resolved-IsRegistered b cfg (ok pms) d d' all h =
      opened-IsRegistered b cfg pms (open_files host d).0 (all pms refl) (ap (λ t. t.0) h)

  -- The dispatch of a built router never meets a provider that is not registered: `build` succeeds
  -- only when each preferred model names one of the builder's providers.
  pub build-IsRegistered :
      (b : RouterBuilder host) (cfg : RouterConfig) (d d' : Disk host) (r : Router host)
      → build host b cfg d ≡ (ok r, d')
      → All (IsRegistered r.providers) r.preferred
  unfolding build
  build-IsRegistered b cfg d d' r h =
      resolved-IsRegistered b cfg (resolve b.providers cfg) d d'
        (λ pms. resolve-IsRegistered b.providers cfg) h

  resolved-ok :
      (b : RouterBuilder host) (cfg : RouterConfig)
      (found : Result ConfigIssue (List ProviderModel)) (d : Disk host) {r : Router host}
      → (resolved host b cfg found d).0 ≡ ok r
      → (pms : List ProviderModel) × (found ≡ ok pms)
  unfolding resolved
  resolved-ok b cfg (err issue) d h = absurd (cc h)
  resolved-ok b cfg (ok pms) d h = (pms, refl)

  pub build-All :
      (P : Text → Type 0) (b : RouterBuilder host) (cfg : RouterConfig) (d : Disk host)
      {r : Router host}
      → (build host b cfg d).0 ≡ ok r
      → All P b.providers
      → All (λ e. P e.0) cfg.providers
  unfolding build
  build-All P b cfg d h all =
      let (pms, found) = resolved-ok b cfg (resolve b.providers cfg) d h in
      resolve-All P b.providers cfg found all
