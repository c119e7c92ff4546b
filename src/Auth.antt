-- ===== src/Auth.antt =====
-- crates/studio-server/src/routes/auth.rs: a blob that a client has sealed itself. Base64 is a parameter.
pub mod Lockout
use cobrust_studio.Base.{
  ℕ, Bool, List, [], ◌∷◌, ◌++◌, Text, codes, trim, is_empty, Result, ok, err, map_err, refuse_if,
}
use cobrust_studio.Store.Session.{Bytes, EncryptedBlob}
use cobrust_studio.Routes.{RouteError, bad_request}
use cobrust_studio.Login.{Server, AppState, Handler, write_endpoint}
use cobrust_studio.Steps.{Steps, ◌>>=◌, ◌>>◌, lift}

pub record SetEndpointRequest : Type 0 where
  pub ciphertext : Text
  pub nonce : Text
  pub scheme : Text

module _ (server : Server) (base64 : Text → Result Text Bytes) where
  -- a field in base64, with the text of its name for the error
  field_of : Text → Text → Result RouteError Bytes
  field_of name text = map_err (λ e. bad_request (name ++ e) "invalid_body") (base64 text)

  -- `set_endpoint`, with a body that may not be a request
  unfoldable pub set_endpoint : Result Text SetEndpointRequest → Handler server (Unit {0})
  unfolding field_of
  set_endpoint payload = do
    req ← lift (map_err (λ m. bad_request m "invalid_body") payload)
    lift (
        refuse_if (is_empty (trim req.scheme))
          (bad_request (codes "scheme must be non-empty") "invalid_body"))
    ciphertext ← lift (field_of (codes "ciphertext base64: ") req.ciphertext)
    nonce ← lift (field_of (codes "nonce base64: ") req.nonce)
    lift (
        refuse_if (is_empty ciphertext)
          (bad_request (codes "ciphertext must be non-empty") "invalid_body"))
    write_endpoint server (record { ciphertext = ciphertext; nonce = nonce; scheme = req.scheme })
