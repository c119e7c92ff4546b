-- ===== src/Router/Hit.antt =====
-- A second request to the same provider, in crates/studio-router/src/router.rs: it is answered from
-- the cache.
use mathlib.Core.Path.{subst}
use cobrust_studio.Base.{
  ℕ, zero, suc, ◌+◌, min, Option, none, some, ◌≡◌, ◌≢◌, ok_injective, inl, inr, true, false, refl,
  sym, ap, ◌∙◌, arith, Text, Result, ok, err, Bool-cases, Result-cases, Option-cases,
}
use cobrust_studio.Config.{ProviderModel}
use cobrust_studio.Provider.{CompletionRequest, CompletionResponse, LlmError}
use cobrust_studio.Host.{Host, FilePath}
use cobrust_studio.Files
use cobrust_studio.Cache.{Codec, path_for, compute, cache_get, cache_put}
use cobrust_studio.Cache.Atomic.{entry_file, cache_put-ok}
use cobrust_studio.Router.{
  State, Router, DispatchResponse, Attempt, attempts, after_lookup, try_provider, finish,
  registered, on_disk, on_success, observed, append, settle, turn, on_error, retry_or_fail,
  back_off, from_cache,
}
use cobrust_studio.Router.Retry.{Turn-cases, finish_eq}

module _ (host : Host) (codec : Codec) where
  -- the file of the key holds the whole response
  pub record Stored (a : Attempt host) (d : DispatchResponse) (s : State host) : Type 0 where
    pub bytes : Text
    pub encodes : codec.encode_entry a.request d.response ≡ ok bytes
    pub on_file : s.disk.files (path_for a.router.cache_root a.key) ≡ entry_file host codec bytes

  on_success-Stored :
      (a : Attempt host) (n elapsed : ℕ) (resp : CompletionResponse) (s : State host)
      (d : DispatchResponse)
      → (on_success host codec a n elapsed resp s).0 ≡ ok d
      → Stored a d (on_success host codec a n elapsed resp s).1
  unfolding on_success on_disk observed append
  on_success-Stored a n elapsed resp s d h =
      let put = cache_put host codec a.router.cache_root a.key a.request resp s.disk in
      elim (Result-cases put.0) [
        | inr (e, failed) ↦ absurd (cc (rw failed at h))
        | inl (_, stored) ↦
            let (bytes, written, full) =
              cache_put-ok host codec a.router.cache_root a.key a.request resp s.disk stored in
            elim (Option-cases (host.fault put.1.world).0) [
              | inr (f, failed) ↦ absurd (cc (rw (stored, failed) at h))
              | inl quiet ↦
                  let e : ◌≡◌ {A = DispatchResponse}
                      (record { response = resp; provider = a.pm.provider; cache_hit = false }) d =
                    ok_injective (rw (stored, quiet) at h) in
                  record {
                    bytes = bytes;
                    encodes =
                        ap (λ (x : DispatchResponse). codec.encode_entry a.request x.response)
                          (sym e)
                        ∙ written;
                    on_file = rw (stored, quiet) full;
                  }
            ]
      ]

  retry_or_fail_not_ok :
      (a : Attempt host) (n : ℕ) (e : LlmError) (w : Result LlmError (Unit {0})) (s s' : State host)
      (d : DispatchResponse)
      → retry_or_fail host codec a n e w s ≢ finish (ok d) s'
  unfolding retry_or_fail back_off
  retry_or_fail_not_ok a n e (err why) s s' d h = cc
  retry_or_fail_not_ok a n e (ok _) s s' d h = ground arith

  settle-Stored :
      (a : Attempt host) (n elapsed : ℕ) (outcome : Result LlmError CompletionResponse)
      (s s' : State host) (d : DispatchResponse)
      → settle host codec a n elapsed outcome s ≡ finish (ok d) s'
      → Stored a d s'
  unfolding settle on_error
  settle-Stored a n elapsed (err e) s s' d h = absurd (retry_or_fail_not_ok a n e _ _ s' d h)
  settle-Stored a n elapsed (ok resp) s s' d h =
      let (results, states) = finish_eq host codec h in
      subst (Stored a d) states (on_success-Stored a n elapsed resp s d results)

  attempts-Stored :
      (fuel : ℕ) (a : Attempt host) (n : ℕ) (s s' : State host) (d : DispatchResponse)
      → attempts host codec fuel a n s ≡ some (ok d, s')
      → Stored a d s'
  unfolding attempts turn
  attempts-Stored zero a n s s' d e = absurd (cc)
  attempts-Stored (suc fuel) a n s s' d e = elim (Turn-cases (turn host codec a n s)) [
    | inl (t, u, f) ↦
        let same : ◌≡◌ {A = Option (Result LlmError DispatchResponse × State host)} (some (t, u))
            (some (ok d, s')) =
          rw (f, attempts) at e in
        settle-Stored a n _ _ _ s' d (f ∙ cc)
    | inr (u, f) ↦ attempts-Stored fuel a (min (n + 1) 255) u s' d (rw (f, attempts) at e)
  ]

  after_lookup-Stored :
      (r : Router host) (tag : Option Text) (pm : ProviderModel) (request : CompletionRequest)
      (key : Text) (found : Result LlmError (Option CompletionResponse)) (s s' : State host)
      (d : DispatchResponse)
      → after_lookup host codec r tag pm request key found s ≡ some (ok d, s')
      → d.cache_hit ≡ false
      → (bytes : Text) × (codec.encode_entry request d.response ≡ ok bytes)
        × (s'.disk.files (path_for r.cache_root key) ≡ entry_file host codec bytes)
  unfolding after_lookup from_cache append
  after_lookup-Stored r tag pm request key (err e) s s' d h live = absurd (cc)
  after_lookup-Stored r tag pm request key (ok (some resp)) s s' d h live = absurd (ground arith)
  after_lookup-Stored r tag pm request key (ok none) s s' d h live =
      let st = attempts-Stored 256 _ 1 s s' d h in (st.bytes, st.encodes, st.on_file)

  -- The lookup of a stored entry, when the read meets no fault.
  lookup-Stored :
      ((req : CompletionRequest) (resp : CompletionResponse) (bytes : Text)
        → codec.encode_entry req resp ≡ ok bytes
        → codec.decode_entry bytes ≡ ok resp)
      → (root : FilePath) (key : Text) (req : CompletionRequest) (resp : CompletionResponse)
        (bytes : Text) (s : State host)
      → codec.encode_entry req resp ≡ ok bytes
      → s.disk.files (path_for root key) ≡ entry_file host codec bytes
      → (host.fault s.disk.world).0 ≡ none
      → (on_disk host (cache_get host codec root key) s).0 ≡ ok (some resp)
  unfolding on_disk cache_get Files.read
  lookup-Stored reads root key req resp bytes s e f quiet =
      rw (quiet, f) (rw (reads req resp bytes e))

  lookup_calls :
      (root : FilePath) (key : Text) (s : State host)
      → (on_disk host (cache_get host codec root key) s).1.calls ≡ s.calls
  unfolding on_disk
  lookup_calls root key s = refl

  lookup_files :
      (root : FilePath) (key : Text) (s : State host)
      → (on_disk host (cache_get host codec root key) s).1.disk.files ≡ s.disk.files
  unfolding on_disk cache_get Files.read
  lookup_files root key s = refl

  from_cache-quiet :
      (tag : Option Text) (pm : ProviderModel) (key : Text) (resp : CompletionResponse)
      (s : State host)
      → (host.fault s.disk.world).0 ≡ none
      → (from_cache host codec tag pm key resp s ≡ (
        ok (record { response = resp; provider = pm.provider; cache_hit = true }),
        (from_cache host codec tag pm key resp s).1,
      ))
        × ((from_cache host codec tag pm key resp s).1.calls ≡ s.calls)
        × ((from_cache host codec tag pm key resp s).1.disk.files ≡ s.disk.files)
  unfolding from_cache append
  from_cache-quiet tag pm key resp s quiet = (rw quiet, rw quiet, rw quiet)

  -- After a dispatch that a provider answered, the same request to the same provider and model is
  -- answered from the cache with the same response, and the provider is not called again. This holds
  -- under any task tag, while the two file operations of the second dispatch meet no fault, for a
  -- codec that reads back what it writes.
  pub try_provider-cached :
      ((req : CompletionRequest) (resp : CompletionResponse) (bytes : Text)
        → codec.encode_entry req resp ≡ ok bytes
        → codec.decode_entry bytes ≡ ok resp)
      → (r : Router host) (tag tag' : Option Text) (req : CompletionRequest) (pm : ProviderModel)
        (s s' : State host) (d : DispatchResponse)
      → try_provider host codec r tag req pm s ≡ some (ok d, s')
      → d.cache_hit ≡ false
      → (host.fault s'.disk.world).0 ≡ none
      → (host.fault (host.fault s'.disk.world).1).0 ≡ none
      → (t : State host) × (try_provider host codec r tag' req pm s'
          ≡ some
              (ok (record { response = d.response; provider = pm.provider; cache_hit = true }), t))
        × (t.calls ≡ s'.calls)
        × (t.disk.files ≡ s'.disk.files)
  unfolding try_provider
  try_provider-cached reads r tag tag' req pm s s' d h live quiet quiet' =
      elim (Bool-cases (registered pm.provider r.providers)) [
        | inr unknown ↦ absurd (cc (rw unknown at h))
        | inl known ↦
            let request = record req { model = pm.model } in
            let key = compute codec pm.provider request in
            let (bytes, e, f) =
              after_lookup-Stored r tag pm request key _ _ s' d (rw known at h) live in
            let found =
              lookup-Stored reads r.cache_root key request d.response bytes s' e f quiet in
            let u = (on_disk host (cache_get host codec r.cache_root key) s').1 in
            let (answer, calls, files) =
              from_cache-quiet tag' pm key d.response u
                (unfold on_disk cache_get Files.read in quiet') in
            (
              (from_cache host codec tag' pm key d.response u).1,
              rw known (rw (found, after_lookup) (ap some answer)),
              calls ∙ lookup_calls r.cache_root key s',
              files ∙ lookup_files r.cache_root key s',
            )
      ]
