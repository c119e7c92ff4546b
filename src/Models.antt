-- ===== src/Models.antt =====
-- crates/studio-server/src/routes/models.rs: the list of the models of a provider, for a login that is
-- being made and for the session that there is. HTTP and serde are parameters.
pub mod Ids
use cobrust_studio.Base.{
  ℕ, ◌≤◌, ◌==◌, ◌+◌, leb, within, Bool, true, false, not, ◌||◌, List, [], ◌∷◌, ◌++◌, Option, none,
  some, Text, String, codes, decimal, trim, is_empty, contains_text, set_insert, length, Result, ok,
  err, ◌>>=◌, ◌>>◌, map_err, ok_or, refuse_if, if◌then◌else◌,
}
use cobrust_studio.Config.{ProviderKind, anthropic, openai, synthetic}
use cobrust_studio.Store.{StoreError}
use cobrust_studio.Store.Session.{Bytes, EncryptedBlob}
use cobrust_studio.Secret.{
  SessionKey, EndpointSecret, SecretError, kdf, not_sealed, not_opened, malformed, unknown_scheme,
  Crypto, open_blob,
}
use cobrust_studio.Login.{secret_text}
use cobrust_studio.Routes.{
  RouteError, bad_request, service_unavailable, internal, not_found, of_store,
}
use cobrust_studio.Adapter.{Response, trim_slashes, is_success}

-- `MAX_MODELS`
abbrev pub max_models : ℕ
max_models = 512

pub record ModelPreviewRequest : Type 0 where
  pub endpoint : Text
  pub api_key : Text
  pub provider_kind : ProviderKind

pub record ModelListResponse : Type 0 where
  pub provider_kind : ProviderKind
  pub selected_model : Option Text
  pub models : List Text

-- `validate_preview_request`; every kind that there is beside the synthetic one is supported
is_synthetic : ProviderKind → Bool
is_synthetic synthetic = true
is_synthetic anthropic = false
is_synthetic openai = false

no_synthetic : RouteError
no_synthetic =
    bad_request (codes "synthetic provider cannot list remote models") "invalid_provider_kind"

unfoldable pub validate_preview_request : ModelPreviewRequest → Result RouteError (Unit {0})
unfolding is_synthetic no_synthetic
validate_preview_request req =
    if is_synthetic req.provider_kind
    then err no_synthetic
    else if is_empty (trim req.endpoint)
    then err (bad_request (codes "endpoint must be non-empty") "invalid_body")
    else if is_empty (trim req.api_key)
    then err (bad_request (codes "api_key must be non-empty") "invalid_body")
    else ok tt

-- the match on the error of `decrypt_session_secret`
not_decrypted : SecretError → RouteError
not_decrypted (not_opened m) =
    bad_request (codes "session key does not match stored blob") "session_decrypt_failed"
not_decrypted (kdf m) = internal (secret_text (kdf m))
not_decrypted (not_sealed m) = internal (secret_text (not_sealed m))
not_decrypted (malformed e g) = internal (secret_text (malformed e g))
not_decrypted (unknown_scheme m) = internal (secret_text (unknown_scheme m))

-- `decrypt_session_secret`, of the key and the blob in the slot of the endpoint
unfoldable pub decrypt_session_secret :
    Crypto
    → Option SessionKey
    → Result StoreError (Option EncryptedBlob)
    → Result RouteError EndpointSecret
unfolding not_decrypted
decrypt_session_secret crypto session_key found = do
  key ← ok_or session_key (bad_request (codes "not authenticated") "no_session")
  there ← map_err of_store found
  blob ← ok_or there (not_found (codes "no endpoint configured") "no_endpoint")
  map_err not_decrypted (open_blob crypto key blob.ciphertext)

-- `classify_model_list_status`
unfoldable pub classify_model_list_status : ℕ → RouteError
classify_model_list_status status =
    if status == 401 || status == 403
    then bad_request (codes "provider rejected the API key while listing models") "model_list_auth"
    else if status == 404
    then bad_request (codes "provider model-list endpoint was not found") "model_list_not_found"
    else if status == 429
    then service_unavailable (codes "provider rate-limited model listing") "model_list_rate_limited"
    else if within 400 499 status
    then bad_request (codes "provider model-list request failed with HTTP " ++ decimal status)
        "model_list_bad_request"
    else service_unavailable
        (codes "provider model-list request failed with HTTP " ++ decimal status)
        "model_list_failed"

-- The loop of `parse_model_ids` over the entries, each its id: the ids that were seen, and those that
-- are listed.
collect : List (Option Text) → List Text → List Text → List Text
collect [] seen ids = ids
collect (none ∷ data_) seen ids = collect data_ seen ids
collect (some raw ∷ data_) seen ids =
    let id = trim raw in
    let skipped = collect data_ seen ids in
    let listed = ids ++ id ∷ [] in
    let more = collect data_ (set_insert id seen) listed in
    if is_empty id || contains_text id seen
    then skipped
    else if leb max_models (length listed)
    then listed
    else more

some_ids : List Text → Result RouteError (List Text)
some_ids [] = err (bad_request (codes "provider returned no models") "model_list_empty")
some_ids (id ∷ ids) = ok (id ∷ ids)

-- What the routes ask of HTTP and of serde: the builder of a client with its GET, and the reader of the
-- envelope with the ids of its entries.
pub record Lister : Type 0 where
  pub client : Result Text (Text → List (Text × Text) → Result Text Response)
  pub envelope : Bytes → Result Text (List (Option Text))

module _ (lister : Lister) where
  unfoldable pub parse_model_ids : Bytes → Result RouteError (List Text)
  unfolding collect some_ids
  parse_model_ids bytes = do
    entries ←
        map_err (λ e. bad_request (codes "model list decode failed: " ++ e) "model_list_decode")
          (lister.envelope bytes)
    some_ids (collect entries [] [])

  -- the address and the headers of a request
  request_of : Text → Text → ProviderKind → Result RouteError (Text × List (Text × Text))
  unfolding no_synthetic
  request_of base api_key anthropic = ok (
    base ++ codes "/v1/models",
    (codes "x-api-key", trim api_key)
        ∷ (codes "anthropic-version", codes "2023-06-01")
        ∷ (codes "accept", codes "application/json")
        ∷ [],
  )
  request_of base api_key openai = ok (
    base ++ codes "/models",
    (codes "authorization", codes "Bearer " ++ trim api_key)
        ∷ (codes "accept", codes "application/json")
        ∷ [],
  )
  request_of base api_key synthetic = err no_synthetic

  transport_failed : Text → RouteError
  transport_failed m = service_unavailable m "model_list_transport"

  unfoldable pub list_provider_models : Text → Text → ProviderKind → Result RouteError (List Text)
  unfolding trim_slashes is_success request_of transport_failed classify_model_list_status
      parse_model_ids
  list_provider_models endpoint api_key provider_kind = do
    get ← map_err internal lister.client
    req ← request_of (trim_slashes (trim endpoint)) api_key provider_kind
    resp ← map_err transport_failed (get req.0 req.1)
    bytes ← map_err transport_failed resp.bytes
    refuse_if (not (is_success resp.status)) (classify_model_list_status resp.status)
    parse_model_ids bytes

  -- `preview_models`, with a body that may not be a request
  unfoldable pub preview_models :
      Result Text ModelPreviewRequest → Result RouteError ModelListResponse
  unfolding validate_preview_request list_provider_models
  preview_models payload = do
    req ← map_err (λ m. bad_request m "invalid_body") payload
    validate_preview_request req
    models ← list_provider_models req.endpoint req.api_key req.provider_kind
    ok (record { provider_kind = req.provider_kind; selected_model = none; models = models })

  unfoldable pub session_models :
      Crypto
      → Option SessionKey
      → Result StoreError (Option EncryptedBlob)
      → Result RouteError ModelListResponse
  unfolding decrypt_session_secret list_provider_models
  session_models crypto session_key found = do
    secret ← decrypt_session_secret crypto session_key found
    models ← list_provider_models secret.endpoint secret.api_key secret.provider_kind
    ok (record {
      provider_kind = secret.provider_kind;
      selected_model = some secret.model;
      models = models;
    })
