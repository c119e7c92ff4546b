-- ===== src/Router/Policy.antt =====
-- crates/studio-router/src/router.rs: the retry policy, the latency table and the order in which
-- the preferred models are tried. `sort_by` is the standard library's stable sort.
use cobrust_studio.Base.{
  ℕ, ◌-◌, Bool, Option, none, some, List, [], ◌∷◌, map, Text, eq_text, ltb, if◌then◌else◌,
}
use cobrust_studio.Config.{Strategy, cost, quality, latency, ProviderModel, tag_of}
use cobrust_studio.Provider.{
  LlmError, transport, rate_limit, server, bad_request, auth, decode, stream, cancelled, provider,
}
use cobrust_studio.Host.{Host}

-- the `Retry-After` that an error carries, or 0
unfoldable pub retry_after : LlmError → ℕ
retry_after (rate_limit ms) = ms
retry_after (transport m) = 0
retry_after (server s b) = 0
retry_after (bad_request s b) = 0
retry_after auth = 0
retry_after (decode m) = 0
retry_after (stream m) = 0
retry_after cancelled = 0
retry_after (provider c m) = 0

-- `slice::sort_by`: `x` stood before the elements of the list, and stays before its equals
module _ {A : Type 0} (greater_than : A → A → Bool) where
  unfoldable pub insert_by : A → List A → List A
  insert_by x [] = x ∷ []
  insert_by x (y ∷ ys) = if greater_than x y then y ∷ insert_by x ys else x ∷ y ∷ ys

  unfoldable pub sort_by : List A → List A
  unfolding insert_by
  sort_by [] = []
  sort_by (x ∷ xs) = insert_by x (sort_by xs)

get_or_else : {A : Type 0} → Option A → A → A
get_or_else none d = d
get_or_else (some a) d = a

module _ (host : Host) where
  open host use {
    W, F, infinity, of_u64, powi, times, mul_add, at_most_zero, as_u64, greater, alpha,
    one_minus_alpha, gen_range,
  }

  pub record RetryPolicy : Type 0 where
    pub max_attempts : ℕ
    pub base_delay_ms : ℕ
    pub factor : F
    pub max_total_ms : ℕ

  -- full jitter: uniform in [0, max]
  jitter : F → W → ℕ × W
  jitter limit w =
      let (x, w') = gen_range limit w in if at_most_zero limit then (0, w) else (as_u64 x, w')

  -- `RetryPolicy::next_delay_ms`
  unfoldable pub next_delay_ms : RetryPolicy → ℕ → LlmError → W → ℕ × W
  unfolding jitter retry_after
  next_delay_ms p attempt e w =
      if ltb 0 (retry_after e)
      then (retry_after e, w)
      else jitter (times (of_u64 p.base_delay_ms) (powi p.factor (attempt - 1))) w

  abbrev pub LatencyTracker : Type 0
  LatencyTracker = List (Text × F)

  -- `LatencyTracker::get`
  unfoldable pub latency_of : Text → LatencyTracker → Option F
  latency_of k [] = none
  latency_of k ((j, v) ∷ rest) = if eq_text j k then some v else latency_of k rest

  set_latency : Text → F → LatencyTracker → LatencyTracker
  set_latency k v [] = (k, v) ∷ []
  set_latency k v ((j, w) ∷ rest) =
      if eq_text j k then (k, v) ∷ rest else (j, w) ∷ set_latency k v rest

  -- `LatencyTracker::observe`
  unfoldable pub observe : Text → ℕ → LatencyTracker → LatencyTracker
  unfolding latency_of set_latency get_or_else
  observe k ms table =
      let v = of_u64 ms in
      let entry = get_or_else (latency_of k table) v in
      set_latency k (mul_add alpha v (times one_minus_alpha entry)) table

  -- one row of the sort: an index of the source stands for the element at it
  unfoldable pub with_latency : LatencyTracker → ProviderModel → F × ProviderModel
  unfolding get_or_else
  with_latency table pm = (get_or_else (latency_of (tag_of pm) table) infinity, pm)

  unfoldable pub slower : F × ProviderModel → F × ProviderModel → Bool
  slower a b = greater a.0 b.0

  unfoldable pub model_of : F × ProviderModel → ProviderModel
  model_of row = row.1

  -- `Router::order_preferred`
  unfoldable pub order_preferred :
      Strategy → List ProviderModel → LatencyTracker → List ProviderModel
  unfolding sort_by with_latency slower model_of
  order_preferred latency preferred table =
      map model_of (sort_by slower (map (with_latency table) preferred))
  order_preferred quality preferred table = preferred
  order_preferred cost preferred table = preferred
