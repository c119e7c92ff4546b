-- ===== src/Router.antt =====
-- crates/studio-router/src/router.rs: one attempt at a provider, the retry loop, the walk over the
-- preferred models, and the builder. What was written before an error stays written, so the state
-- comes back beside every result.
pub mod Policy
pub mod Builder
pub mod Retry
pub mod Attempts
pub mod Budget
pub mod Dispatch
pub mod Order
pub mod Hit
use cobrust_studio.Base.{
  ℕ, zero, suc, ◌+◌, ◌-◌, ◌/◌, min, Bool, true, false, not, ◌||◌, Option, none, some, List, [], ◌∷◌,
  ◌++◌, Text, codes, eq_text, is_empty, any, Result, ok, err, ltb, leb, if◌then◌else◌,
}
use cobrust_studio.Config.{
  Strategy, ProviderModel, ProviderKind, ProviderConfig, RouterConfig, ConfigIssue,
  not_with_builder, not_registered, malformed_tag, parse, validate, tag_of,
}
use cobrust_studio.Provider.{
  CompletionRequest, CompletionResponse, TokenUsage, LlmError, decode, provider, is_transient, code,
  u32_max,
}
use cobrust_studio.Ledger.{LedgerEntry, ok_entry, err_entry}
use cobrust_studio.Host.{Host, FilePath, IoError, not_found, io_failed, Disk, Fault}
use cobrust_studio.Files.{on_directory, Io}
use cobrust_studio.Cache.{Codec, compute, wire, cache_get, cache_put}
use Policy.{RetryPolicy, LatencyTracker, next_delay_ms, observe, order_preferred}

abbrev pub u64_max : ℕ
u64_max = 18446744073709551615

abbrev pub ns_per_ms : ℕ
ns_per_ms = 1000000

pub record DispatchResponse : Type 0 where
  pub response : CompletionResponse
  pub provider : Text
  pub cache_hit : Bool

pub data RouterError : Type 0 where
  config : ConfigIssue → RouterError
  no_provider : RouterError
  all_failed : List (Text × LlmError) → RouterError
  io : Text → RouterError

-- `providers.contains_key`
unfoldable pub registered : Text → List Text → Bool
registered k keys = any (λ j. eq_text j k) keys

-- `IoError::to_string`
unfoldable pub io_text : IoError → Text
io_text not_found = codes "entity not found"
io_text (io_failed m) = m

module _ (host : Host) where
  open host use {W, now, sleep, fault, complete, kind, now_rfc3339}

  pub record Router : Type 0 where
    pub providers : List Text
    pub preferred : List ProviderModel
    pub strategy : Strategy
    pub cache_root : FilePath
    pub retry : RetryPolicy host

  -- The disk, the ledger's records, the latency table, and what was asked of the outside: the calls
  -- of a provider and the sleeps, in milliseconds, in order.
  pub record State : Type 0 where
    pub disk : Disk host
    pub ledger : List LedgerEntry
    pub latency : LatencyTracker host
    pub calls : List (Text × CompletionRequest)
    pub slept : List ℕ

  abbrev pub Exec : Type 0 → Type 0
  Exec A = State → Result LlmError A × State

  append_at : Option Fault → LedgerEntry → State → Result LlmError (Unit {0}) × State
  append_at (some f) entry s = (err (decode f.reason), s)
  append_at none entry s = (ok tt, record s { ledger = s.ledger ++ entry ∷ [] })

  -- the record as it is in the clock's second: `Ledger::append` with its error as `Decode`
  unfoldable pub append : (Text → LedgerEntry) → Exec (Unit {0})
  unfolding append_at
  append entry s =
      let w = s.disk.world in
      let s' = record s { disk = record (s.disk) { world = (fault w).1 } } in
      append_at (fault w).0 (entry (now_rfc3339 w)) s'

  -- a call of the cache, with its error as `Decode`
  io_result : {A : Type 0} → Result IoError A → Result LlmError A
  io_result (ok a) = ok a
  io_result (err e) = err (decode (io_text e))

  unfoldable pub on_disk : {A : Type 0} → Io host A → Exec A
  unfolding io_result io_text
  on_disk m s = let (r, d) = m s.disk in (io_result r, record s { disk = d })

  unfoldable pub observed : Text → ℕ → Exec (Unit {0})
  observed k ms s = (ok tt, record s { latency = observe host k ms s.latency })

module _ {host : Host} where
  abbrev pub continue : {A B : Type 0} → Result LlmError A → (A → Exec host B) → Exec host B
  continue (ok a) f s = f a s
  continue (err e) f s = (err e, s)

  infixl 5 ◌>>=◌ ◌>>◌
  abbrev pub ◌>>=◌ : {A B : Type 0} → Exec host A → (A → Exec host B) → Exec host B
  ◌>>=◌ m f s = let (r, s') = m s in continue r f s'

  abbrev pub ◌>>◌ : {A B : Type 0} → Exec host A → Exec host B → Exec host B
  m >> k = m >>= λ _. k

  abbrev pub pure : {A : Type 0} → A → Exec host A
  pure a s = (ok a, s)

-- What one round of the retry loop does: it returns, or sleeps and goes round again.
pub data Turn (host : Host) : Type 0 where
  finish : Result LlmError DispatchResponse → State host → Turn host
  again : State host → Turn host

-- One provider and request, the arguments that the round keeps.
pub record Attempt (host : Host) : Type 0 where
  pub router : Router host
  pub task_tag : Option Text
  pub pm : ProviderModel
  pub request : CompletionRequest
  pub key : Text
  pub total_start : ℕ

module _ (host : Host) (codec : Codec) where
  open host use {W, now, sleep, complete, kind}

  -- `Instant::elapsed().as_millis()`, cut to the integer type
  unfoldable pub millis : ℕ → ℕ → ℕ → ℕ
  millis start finish_time limit = min ((finish_time - start) / ns_per_ms) limit

  -- the arm `Ok(resp)`
  unfoldable pub on_success : Attempt host → ℕ → ℕ → CompletionResponse → Exec host DispatchResponse
  on_success a attempt elapsed resp = do
    on_disk host (cache_put host codec a.router.cache_root a.key a.request resp)
    observed host (tag_of a.pm) elapsed
    append host (λ ts.
        ok_entry ts a.task_tag a.pm.provider (some (kind a.pm.provider)) a.pm.model (wire a.key)
          false resp.usage elapsed attempt)
    pure (record { response = resp; provider = a.pm.provider; cache_hit = false })

  -- the sleep before the next round
  unfoldable pub back_off : Attempt host → ℕ → LlmError → ℕ → State host → Turn host
  back_off a attempt e total_elapsed s =
      let (wanted, w) = next_delay_ms host a.router.retry attempt e s.disk.world in
      let delay = min wanted (a.router.retry.max_total_ms - total_elapsed) in
      again (
        if ltb 0 delay
        then record s {
          disk = record (s.disk) { world = sleep delay w };
          slept = s.slept ++ delay ∷ [];
        }
        else record s { disk = record (s.disk) { world = w } })

  -- behind the ledger's record of a failed call
  unfoldable pub retry_or_fail :
      Attempt host → ℕ → LlmError → Result LlmError (Unit {0}) → State host → Turn host
  unfolding millis
  retry_or_fail a attempt e (err why) s = finish (err why) s
  retry_or_fail a attempt e (ok _) s =
      let total_elapsed = millis a.total_start (now s.disk.world) u64_max in
      if not (is_transient e) || leb a.router.retry.max_attempts attempt
      then finish (err e) s
      else if leb a.router.retry.max_total_ms total_elapsed
      then finish (err e) s
      else back_off a attempt e total_elapsed s

  -- the arm `Err(err)`
  unfoldable pub on_error : Attempt host → ℕ → ℕ → LlmError → State host → Turn host
  on_error a attempt elapsed e s =
      let (r, s') =
        append host
          (λ ts.
            err_entry ts a.task_tag a.pm.provider (some (kind a.pm.provider)) a.pm.model
              (wire a.key) elapsed attempt (code e) (is_transient e))
          s in
      retry_or_fail a attempt e r s'

  unfoldable pub settle :
      Attempt host → ℕ → ℕ → Result LlmError CompletionResponse → State host → Turn host
  settle a attempt elapsed (ok resp) s =
      let (r, s') = on_success a attempt elapsed resp s in finish r s'
  settle a attempt elapsed (err e) s = on_error a attempt elapsed e s

  -- the call of the provider
  unfoldable pub called : Attempt host → State host → State host
  called a s = record s {
    disk = record (s.disk) { world = (complete a.pm.provider a.request s.disk.world).1 };
    calls = s.calls ++ (a.pm.provider, a.request) ∷ [];
  }

  -- one round of the loop
  unfoldable pub turn : Attempt host → ℕ → State host → Turn host
  unfolding called millis
  turn a attempt s =
      let outcome = (complete a.pm.provider a.request s.disk.world).0 in
      let s' = called a s in
      settle a attempt (millis (now s.disk.world) (now s'.disk.world) u32_max) outcome s'

  -- the loop, with fuel; `attempt` is a `u8` that saturates
  unfoldable pub attempts :
      ℕ → Attempt host → ℕ → State host → Option (Result LlmError DispatchResponse × State host)
  attempts zero a attempt s = none
  attempts (suc fuel) a attempt s = elim (turn a attempt s) [
    | finish r s' ↦ some (r, s')
    | again s' ↦ attempts fuel a (min (attempt + 1) 255) s'
  ]

  abbrev pub Run : Type 0 → Type 0
  Run A = Option (A × State host)

  -- the answer from the cache, with its record
  unfoldable pub from_cache :
      Option Text → ProviderModel → Text → CompletionResponse → Exec host DispatchResponse
  from_cache tag pm key resp = do
    append host (λ ts.
        ok_entry ts tag pm.provider (some (kind pm.provider)) pm.model (wire key) true resp.usage 0
          1)
    pure (record { response = resp; provider = pm.provider; cache_hit = true })

  -- behind the lookup in the cache
  after_lookup :
      Router host
      → Option Text
      → ProviderModel
      → CompletionRequest
      → Text
      → Result LlmError (Option CompletionResponse)
      → State host
      → Run (Result LlmError DispatchResponse)
  after_lookup r tag pm request key (err e) s = some (err e, s)
  after_lookup r tag pm request key (ok (some resp)) s = some (from_cache tag pm key resp s)
  after_lookup r tag pm request key (ok none) s =
      attempts 256
        (record {
          router = r;
          task_tag = tag;
          pm = pm;
          request = request;
          key = key;
          total_start = now s.disk.world;
        })
        1 s

  -- `RouterHandle::try_provider`; `some` says that the loop did not run out of fuel
  unfoldable pub try_provider :
      Router host
      → Option Text
      → CompletionRequest
      → ProviderModel
      → State host
      → Run (Result LlmError DispatchResponse)
  unfolding after_lookup registered
  try_provider r tag req pm s =
      let request = record req { model = pm.model } in
      let key = compute codec pm.provider request in
      let (found, s') = on_disk host (cache_get host codec r.cache_root key) s in
      if registered pm.provider r.providers
      then after_lookup r tag pm request key found s'
      else some (
        err (
            provider (codes "unknown_provider")
              (codes "provider " ++ (pm.provider ++ codes " not registered"))),
        s,
      )

  -- `Router::dispatch_ordered`, with the errors so far
  unfoldable pub walk :
      Router host
      → Option Text
      → CompletionRequest
      → List (Text × LlmError)
      → List ProviderModel
      → State host
      → Run (Result RouterError DispatchResponse)
  walk r tag req errors [] s = some (err (all_failed errors), s)
  walk r tag req errors (pm ∷ rest) s = elim (try_provider r tag req pm s) [
    | none ↦ none
    | some (ok resp, s') ↦ some (ok resp, s')
    | some (err e, s') ↦ walk r tag req (errors ++ (pm.provider, e) ∷ []) rest s'
  ]

  -- `Router::dispatch_ctx`, of the context the tag alone
  unfoldable pub dispatch_ctx :
      Router host
      → CompletionRequest
      → Option Text
      → State host
      → Run (Result RouterError DispatchResponse)
  dispatch_ctx r req tag s =
      if is_empty r.preferred
      then some (err no_provider, s)
      else walk r tag req [] (order_preferred host r.strategy r.preferred s.latency) s

  -- `Router::dispatch`, with the default context
  unfoldable pub dispatch :
      Router host → CompletionRequest → State host → Run (Result RouterError DispatchResponse)
  dispatch r req = dispatch_ctx r req none

  -- `Router::dispatch_with_tag`
  unfoldable pub dispatch_with_tag :
      Router host
      → CompletionRequest
      → Option Text
      → State host
      → Run (Result RouterError DispatchResponse)
  dispatch_with_tag r req tag = dispatch_ctx r req tag
