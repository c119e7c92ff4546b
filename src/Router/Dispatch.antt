-- ===== src/Router/Dispatch.antt =====
-- The walk of crates/studio-router/src/router.rs over the preferred models.
use mathlib.Core.List.{append_assoc, append-nil}
use cobrust_studio.Base.{
  ◌≤◌, Option, none, some, List, [], ◌∷◌, ◌++◌, ◌≡◌, ◌⊎◌, inl, inr, map, is_empty, false, refl, sym,
  ap, ◌∙◌, arith, Text, Result, ok, err, Bool-cases, Result-cases,
}
use cobrust_studio.Config.{ProviderModel}
use cobrust_studio.Provider.{CompletionRequest, CompletionResponse, LlmError}
use cobrust_studio.Host.{Host}
use cobrust_studio.Cache.{Codec}
use cobrust_studio.Router.Policy.{order_preferred}
use cobrust_studio.Router.{
  State, Router, DispatchResponse, RouterError, all_failed, after_lookup, try_provider, registered,
  walk, dispatch_ctx,
}
use cobrust_studio.Router.Attempts.{attempts-some}

module _ (host : Host) (codec : Codec) where
  after_lookup-some :
      (r : Router host) (tag : Option Text) (pm : ProviderModel) (request : CompletionRequest)
      (key : Text) (found : Result LlmError (Option CompletionResponse)) (s : State host)
      → r.retry.max_attempts ≤ 255
      → (res : Result LlmError DispatchResponse) × (s' : State host) × (after_lookup host codec r
            tag pm request key found s
          ≡ some (res, s'))
  unfolding after_lookup
  after_lookup-some r tag pm request key (err e) s h = (err e, s, refl)
  after_lookup-some r tag pm request key (ok (some resp)) s h = (_, _, refl)
  after_lookup-some r tag pm request key (ok none) s h =
      attempts-some host codec 256 _ 1 s h (omega arith) (omega arith) (omega arith)

  try_provider-some :
      (r : Router host) (tag : Option Text) (req : CompletionRequest) (pm : ProviderModel)
      (s : State host)
      → r.retry.max_attempts ≤ 255
      → (res : Result LlmError DispatchResponse) × (s' : State host) × (try_provider host codec r
            tag req pm s
          ≡ some (res, s'))
  unfolding try_provider
  try_provider-some r tag req pm s h = elim (Bool-cases (registered pm.provider r.providers)) [
    | inl known ↦ rw known (after_lookup-some r tag pm _ _ _ _ h)
    | inr unknown ↦ rw unknown (_, s, refl)
  ]

  -- Each of these models fails, one behind the other, with these errors.
  pub data Fails (r : Router host) (tag : Option Text) (req : CompletionRequest)
      : List ProviderModel → State host → List (Text × LlmError) → State host → Type 0 where
    none_left : {s : State host} → Fails r tag req [] s [] s
    failed :
        {pm : ProviderModel} {rest : List ProviderModel} {es : List (Text × LlmError)}
        {s s' t : State host} {e : LlmError}
        → try_provider host codec r tag req pm s ≡ some (err e, s')
        → Fails r tag req rest s' es t
        → Fails r tag req (pm ∷ rest) s ((pm.provider, e) ∷ es) t

  -- The answer of the first model that answers, all before it having failed.
  abbrev pub IsFirstAnswer :
      (r : Router host) (tag : Option Text) (req : CompletionRequest)
      → List ProviderModel
      → State host
      → Option (Result RouterError DispatchResponse × State host)
      → Type 0
  IsFirstAnswer r tag req order s out =
      (before after : List ProviderModel) × (pm : ProviderModel) × (es : List (Text × LlmError))
      × (t s' : State host) × (resp : DispatchResponse) × (order ≡ before ++ pm ∷ after)
      × Fails r tag req before s es t
      × (try_provider host codec r tag req pm t ≡ some (ok resp, s'))
      × (out ≡ some (ok resp, s'))

  -- The errors of all the models, behind some errors from before.
  abbrev pub IsAllFailed :
      (r : Router host) (tag : Option Text) (req : CompletionRequest)
      → List ProviderModel
      → State host
      → List (Text × LlmError)
      → Option (Result RouterError DispatchResponse × State host)
      → Type 0
  IsAllFailed r tag req order s errors out =
      (es : List (Text × LlmError)) × (s' : State host) × Fails r tag req order s es s'
      × (out ≡ some (err (all_failed (errors ++ es)), s'))

  abbrev Walked :
      (r : Router host) (tag : Option Text) (req : CompletionRequest)
      → List ProviderModel
      → State host
      → List (Text × LlmError)
      → Type 0
  Walked r tag req order s errors =
      let out = walk host codec r tag req errors order s in
      IsFirstAnswer r tag req order s out ⊎ IsAllFailed r tag req order s errors out

  later-Walked :
      (r : Router host) (tag : Option Text) (req : CompletionRequest) (pm : ProviderModel)
      (rest : List ProviderModel) (errors : List (Text × LlmError)) (s s' : State host)
      (e : LlmError)
      → try_provider host codec r tag req pm s ≡ some (err e, s')
      → Walked r tag req rest s' (errors ++ (pm.provider, e) ∷ [])
      → Walked r tag req (pm ∷ rest) s errors
  unfolding walk
  later-Walked r tag req pm rest errors s s' e h
        (inl (before, after, qm, es, t, u, resp, split, fails, answers, out)) =
      inl (
        pm ∷ before,
        after,
        qm,
        (pm.provider, e) ∷ es,
        t,
        u,
        resp,
        ap (◌∷◌ pm) split,
        failed h fails,
        answers,
        rw (h, walk) out,
      )
  later-Walked r tag req pm rest errors s s' e h (inr (es, u, fails, out)) = inr (
    (pm.provider, e) ∷ es,
    u,
    failed h fails,
    rw (h, walk)
        (out
          ∙ ap (λ x. some (err (all_failed x), u))
              (append_assoc errors ((pm.provider, e) ∷ []) es)),
  )

  walk-Walked :
      (r : Router host) (tag : Option Text) (req : CompletionRequest) (order : List ProviderModel)
      (errors : List (Text × LlmError)) (s : State host)
      → r.retry.max_attempts ≤ 255
      → Walked r tag req order s errors
  unfolding walk
  walk-Walked r tag req [] errors s h =
      inr ([], s, none_left, ap (λ x. some (err (all_failed x), s)) (sym (append-nil errors)))
  walk-Walked r tag req (pm ∷ rest) errors s h =
      let (res, s', e) = try_provider-some r tag req pm s h in
      elim (Result-cases res) [
        | inl (resp, f) ↦
            let e' : try_provider host codec r tag req pm s ≡ some (ok resp, s') =
              e ∙ ap (λ x. some (x, s')) f in
            inl ([], rest, pm, [], s, s', resp, refl, none_left, e', rw (e', walk) refl)
        | inr (why, f) ↦
            later-Walked r tag req pm rest errors s s' why (e ∙ ap (λ x. some (x, s')) f)
              (walk-Walked r tag req rest (errors ++ (pm.provider, why) ∷ []) s' h)
      ]

  -- With at most 255 attempts to a provider and some preferred model, a dispatch returns: the answer of
  -- the first model, in the order of the strategy, that answers, and each model before it has failed, by
  -- whatever error, one of the request included; or the errors of all the models, each having failed.
  pub dispatch_ctx-first :
      (r : Router host) (req : CompletionRequest) (tag : Option Text) (s : State host)
      → r.retry.max_attempts ≤ 255
      → is_empty r.preferred ≡ false
      → IsFirstAnswer r tag req
          (order_preferred host r.strategy r.preferred s.latency)
          s
          (dispatch_ctx host codec r req tag s)
        ⊎ IsAllFailed r tag req
            (order_preferred host r.strategy r.preferred s.latency)
            s
            []
            (dispatch_ctx host codec r req tag s)
  unfolding dispatch_ctx
  dispatch_ctx-first r req tag s h filled = rw filled (walk-Walked r tag req _ [] s h)

  failures_eq :
      {fs es : List (Text × LlmError)} {s t : State host}
      → ◌≡◌ {A = Option (Result RouterError DispatchResponse × State host)}
          (some (err (all_failed es), s))
          (some (err (all_failed fs), t))
      → fs ≡ es
  failures_eq h = cc

  -- The errors name the providers of the models, in their order.
  Fails-providers :
      (r : Router host) (tag : Option Text) (req : CompletionRequest) {order : List ProviderModel}
      {s t : State host} {es : List (Text × LlmError)}
      → Fails r tag req order s es t
      → map (λ f. f.0) es ≡ map (λ pm. pm.provider) order
  Fails-providers r tag req none_left = refl
  Fails-providers r tag req (failed {pm = pm} h fails) =
      ap (◌∷◌ pm.provider) (Fails-providers r tag req fails)

  -- With at most 255 attempts to a provider and some preferred model: the error of a dispatch that fails
  -- everywhere names the provider of each preferred model once, in the order in which they were tried,
  -- whatever the errors are.
  pub dispatch_ctx-all_failed :
      (r : Router host) (req : CompletionRequest) (tag : Option Text) (s s' : State host)
      (failures : List (Text × LlmError))
      → r.retry.max_attempts ≤ 255
      → is_empty r.preferred ≡ false
      → dispatch_ctx host codec r req tag s ≡ some (err (all_failed failures), s')
      → map (λ f. f.0) failures
        ≡ map (λ pm. pm.provider) (order_preferred host r.strategy r.preferred s.latency)
  dispatch_ctx-all_failed r req tag s s' failures h filled e =
      elim (dispatch_ctx-first r req tag s h filled) [
        | inl (_, _, _, _, _, _, _, _, _, _, out) ↦ absurd (cc (sym e ∙ out))
        | inr (es, t, fails, out) ↦
            ap (map (λ f. f.0)) (failures_eq (sym out ∙ e)) ∙ Fails-providers r tag req fails
      ]
