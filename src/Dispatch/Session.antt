-- ===== src/Dispatch/Session.antt =====
-- The dispatch of a session, `resolve_router` in crates/studio-server/src/routes/dispatch.rs, on the
-- states that the login routes lead to.
use cobrust_studio.Base.{◌≡◌, refl, sym, ap, ◌∙◌, Option, some, Result, trim, ok}
use cobrust_studio.Store.Session.{Bytes, EncryptedBlob, get_endpoint}
use cobrust_studio.Secret.{SessionKey, EndpointSecret, IsSound, open_blob, Crypto}
use cobrust_studio.Login.{Server, AppState, LoginRequest, login, secret_of, sealed_blob}
use cobrust_studio.Login.Boot.{auto_unlock_on_boot, restarted}
use cobrust_studio.Login.Boot.Restart.{login-restored}
use cobrust_studio.Routes.{Envelope}
use cobrust_studio.Login.Boot.Reach.{Reach, Reach-IsUnlocked, get_endpoint-blob}
use cobrust_studio.Dispatch.{Builders, resolve_router, resolve_session, session_router}

resolve_session-opened :
    (builders : Builders) (crypto : Crypto) (k : SessionKey) (b : EncryptedBlob)
    (secret : EndpointSecret)
    → open_blob crypto k b.ciphertext ≡ ok secret
    → resolve_session builders crypto k (ok (some b)) ≡ session_router builders secret
unfolding resolve_session
resolve_session-opened builders crypto k b secret h = rw h refl

-- If the libraries are sound, a server that holds a key, in a state that it came to by logins, logouts,
-- new starts and keys from the command line when the slot can be written, asks for the router of the secret in
-- its slot whenever the slot can be read: it does not answer that the slot is empty or that the key does
-- not fit.
pub resolve_router-Reach :
    (builders : Builders) (server : Server) (sound : IsSound server.crypto) (s : AppState server)
    (k : SessionKey) (o : Option EncryptedBlob) (static : Option builders.Handle)
    → Reach server s
    → s.session_key ≡ some k
    → get_endpoint server.table s.db ≡ ok o
    → (b : EncryptedBlob) × (secret : EndpointSecret) × (o ≡ some b)
      × (open_blob server.crypto k b.ciphertext ≡ ok secret)
      × (resolve_router builders server.crypto s.session_key (get_endpoint server.table s.db) static
          ≡ session_router builders secret)
unfolding resolve_router
resolve_router-Reach builders server sound s k o static reached holds reads =
    let (b, secret, at, opened) = Reach-IsUnlocked server sound s reached k holds in
    let there = sym (get_endpoint-blob server sound s reads) ∙ at in
    (
      b,
      secret,
      there,
      opened,
      rw (holds, reads, there) (resolve_session-opened builders server.crypto k b secret opened),
    )

-- What a request to log in has in its fields, without the white space around it.
abbrev pub entered : LoginRequest → EndpointSecret
entered req = record {
  endpoint = trim req.endpoint;
  api_key = trim req.api_key;
  model = trim req.model;
  provider_kind = req.provider_kind;
}

-- The router of a state, of its key and its slot.
abbrev router_of :
    (builders : Builders) (server : Server)
    → Option builders.Handle
    → AppState server
    → Result Envelope builders.Handle
router_of builders server static t =
    resolve_router builders server.crypto t.session_key (get_endpoint server.table t.db) static

router_of-opened :
    (builders : Builders) (server : Server) (static : Option builders.Handle) (t : AppState server)
    (k : SessionKey) (c : Bytes) (secret : EndpointSecret)
    → t.session_key ≡ some k
    → get_endpoint server.table t.db ≡ ok (some (sealed_blob c))
    → open_blob server.crypto k c ≡ ok secret
    → router_of builders server static t ≡ session_router builders secret
unfolding resolve_router sealed_blob
router_of-opened builders server static t k c secret holds reads opened =
    rw (holds, reads)
      (resolve_session-opened builders server.crypto k (sealed_blob c) secret opened)

-- If the libraries are sound: behind a login that succeeded, where the slot can be read, a dispatch asks
-- for the router of the endpoint, the model and the key that were logged in with, whatever router the
-- configuration gives; and so does a dispatch behind the next start, where the backend gives the
-- passphrase back. What it is answered is that router, or the error of making it.
pub login-resolve_router :
    (builders : Builders) (server : Server) (sound : IsSound server.crypto) (req : LoginRequest)
    (s : AppState server) (o : Option EncryptedBlob) (static : Option builders.Handle)
    → (login server req s).0 ≡ ok tt
    → (server.persist.load (login server req s).1.stored).0 ≡ ok (some req.passphrase)
    → get_endpoint server.table (login server req s).1.db ≡ ok o
    → (router_of builders server static (login server req s).1
        ≡ session_router builders (entered req))
      × (router_of builders server static
            (auto_unlock_on_boot server (restarted server (login server req s).1))
          ≡ session_router builders (entered req))
unfolding secret_of
login-resolve_router builders server sound req s o static h loads reads =
    let (k, c, holds, there, opened, again) = login-restored server sound req s o h loads reads in
    let read = reads ∙ ap ok there in
    let t : AppState server = record (login server req s).1 {
      stored = (server.persist.load (login server req s).1.stored).1;
      session_key = some k;
    } in
    (
      router_of-opened builders server static (login server req s).1 k c _ holds read opened,
      ap (router_of builders server static) again
          ∙ router_of-opened builders server static t k c _ refl read opened,
    )
