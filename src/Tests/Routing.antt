-- ===== src/Tests/Routing.antt =====
-- Runs of the router of crates/studio-router/src/router.rs.
use cobrust_studio.Base.{
  ◌≡◌, ◌⊎◌, ◌≤◌, ◌+◌, refl, arith, true, false, Option, none, some, List, [], ◌∷◌, map, Text, codes,
  any, Result, ok, err, eq_text, sum,
}
use mathlib.Core.List.{Perm}
use cobrust_studio.Config.{latency, ProviderModel, tag_of}
use cobrust_studio.Provider.{LlmError, is_transient, code, total, provider}
use cobrust_studio.Ledger.{err_entry, ok_entry}
use cobrust_studio.Host.{bind, eq_path, mode_of}
use cobrust_studio.Files.{on_directory, write, set_permissions, rename, read}
use cobrust_studio.Cache.{
  key_bytes, canonical_params, canonical_messages, cache_put, cache_get, path_for, tmp_path, wire,
  compute,
}
use cobrust_studio.Router.{
  Router, State, RouterError, DispatchResponse, all_failed, registered, try_provider, attempts,
  dispatch, dispatch_with_tag, dispatch_ctx, walk, turn, settle, on_error, retry_or_fail, append,
  back_off, on_success, on_disk, called, io_text, millis, observed, from_cache,
}
use cobrust_studio.Router.Policy.{
  order_preferred, next_delay_ms, latency_of, observe, retry_after, LatencyTracker,
}
use cobrust_studio.Router.Attempts.{Trace, attempts-Trace, attempts-some}
use cobrust_studio.Router.Budget.{Clock, try_provider-budget}
use cobrust_studio.Router.Dispatch.{
  IsFirstAnswer, IsAllFailed, dispatch_ctx-first, dispatch_ctx-all_failed,
}
use cobrust_studio.Router.Order.{IsSorted, slower_model, order_preferred-IsSorting}
use cobrust_studio.Router.Hit.{try_provider-cached}
use cobrust_studio.Tests.World.{
  host, codec, codec_reads, router, request, start, attempt, model_a, answer, state_after,
  result_of, run_eq,
}

abbrev run_attempts : Option (Result LlmError DispatchResponse × State host)
run_attempts = attempts host codec 256 attempt 1 start

abbrev answered : DispatchResponse
answered = record { response = answer; provider = codes "a"; cache_hit = false }

-- The first call of the provider fails, the second is answered.
attempts_test : result_of run_attempts ≡ some (ok answered)
unfolding attempts turn settle on_error retry_or_fail append is_transient back_off next_delay_ms
    on_success on_disk cache_put on_directory write set_permissions bind path_for eq_text codes
    tmp_path wire tag_of rename eq_path mode_of err_entry ok_entry code total latency_of observe
    retry_after called io_text millis observed
attempts_test = refl

attempts-some_example :
    (r : Result LlmError DispatchResponse) × (s' : State host) × (attempts host codec 256 attempt 1
        start
      ≡ some (r, s'))
attempts-some_example =
    attempts-some host codec 256 attempt 1 start (omega arith) (omega arith) (omega arith)
      (omega arith)

attempts-Trace_example : Trace host codec attempt 1 start (state_after run_attempts) (ok answered)
attempts-Trace_example =
    attempts-Trace host codec 256 attempt 1 start (state_after run_attempts) (ok answered)
      (omega arith) (run_eq run_attempts attempts_test)

abbrev run_provider : Option (Result LlmError DispatchResponse × State host)
run_provider = try_provider host codec router none request model_a start

provider_test : result_of run_provider ≡ some (ok answered)
unfolding try_provider compute cache_get read from_cache any key_bytes canonical_params
    canonical_messages attempts turn settle on_error retry_or_fail append is_transient back_off
    next_delay_ms on_success on_disk cache_put on_directory write set_permissions bind path_for
    eq_text codes tmp_path wire tag_of rename eq_path mode_of err_entry ok_entry code total
    latency_of observe retry_after called io_text millis observed
provider_test = refl

try_provider-cached_example :
    (t : State host) × (try_provider host codec router
        (some (codes "again"))
        request
        model_a
        (state_after run_provider)
      ≡ some (ok (record { response = answer; provider = codes "a"; cache_hit = true }), t))
    × (t.calls ≡ (state_after run_provider).calls)
    × (t.disk.files ≡ (state_after run_provider).disk.files)
try_provider-cached_example =
    try_provider-cached host codec codec_reads router none (some (codes "again")) request model_a
      start (state_after run_provider) answered (run_eq run_provider provider_test) refl refl refl

clock : Clock host
clock = record {
  complete_later = λ p req w. omega arith;
  fault_later = λ w. omega arith;
  range_later = λ f w. omega arith;
  sleep_lasts = λ d w. omega arith;
}

try_provider-budget_example : sum (state_after run_provider).slept ≤ 0 + 10
try_provider-budget_example =
    try_provider-budget host codec clock router none request model_a start
      (state_after run_provider) (ok answered) (omega arith) (run_eq run_provider provider_test)

dispatch_ctx-first_example :
    IsFirstAnswer host codec router none request
      (order_preferred host router.strategy router.preferred start.latency)
      start
      (dispatch_ctx host codec router request none start)
    ⊎ IsAllFailed host codec router none request
        (order_preferred host router.strategy router.preferred start.latency)
        start
        []
        (dispatch_ctx host codec router request none start)
dispatch_ctx-first_example =
    dispatch_ctx-first host codec router request none start (omega arith) refl

-- a router without its provider
abbrev bare_router : Router host
bare_router = record router { providers = [] }

abbrev run_bare : Option (Result RouterError DispatchResponse × State host)
run_bare = dispatch_ctx host codec bare_router request none start

abbrev bare_failures : List (Text × LlmError)
bare_failures =
    (codes "a", provider (codes "unknown_provider") (codes "provider a not registered")) ∷ []

bare_test : result_of run_bare ≡ some (err (all_failed bare_failures))
unfolding dispatch_ctx walk try_provider order_preferred registered codes any
bare_test = refl

dispatch_ctx-all_failed_example :
    map (λ f. f.0) bare_failures
    ≡ map (λ pm. pm.provider) (order_preferred host router.strategy router.preferred start.latency)
dispatch_ctx-all_failed_example =
    dispatch_ctx-all_failed host codec bare_router request none start (state_after run_bare)
      bare_failures (omega arith) refl (run_eq run_bare bare_test)

abbrev model_b : ProviderModel
model_b = record { provider = codes "b"; model = codes "m" }

abbrev two_models : List ProviderModel
two_models = model_a ∷ model_b ∷ []

abbrev table : LatencyTracker host
table = (codes "a:m", 30) ∷ (codes "b:m", 10) ∷ []

order_test : order_preferred host latency two_models table ≡ model_b ∷ model_a ∷ []
unfolding order_preferred latency_of eq_text tag_of codes
order_test = refl

order_preferred-IsSorting_example :
    Perm (order_preferred host latency two_models table) two_models
    × IsSorted (slower_model host table) (order_preferred host latency two_models table)
order_preferred-IsSorting_example =
    order_preferred-IsSorting host latency two_models table (λ a b h. ground arith)
      (λ a b c h k. ground arith)

dispatch_test : dispatch host codec bare_router request start ≡ run_bare
unfolding dispatch
dispatch_test = refl

dispatch_with_tag_test : dispatch_with_tag host codec bare_router request none start ≡ run_bare
unfolding dispatch_with_tag
dispatch_with_tag_test = refl
