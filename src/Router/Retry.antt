-- ===== src/Router/Retry.antt =====
-- The retry loop of crates/studio-router/src/router.rs: it ends, it records what it does, and it
-- keeps its budgets.
use cobrust_studio.Base.{
  ℕ, ◌<◌, true, false, some, [], ◌∷◌, ◌++◌, ◌≡◌, ◌⊎◌, inl, inr, refl, ap, ◌∙◌, arith, Text, Result,
  ok, err, Option-cases, Result-cases,
}
use mathlib.Core.Path.{subst₂}
use cobrust_studio.Provider.{CompletionResponse, LlmError, is_transient, code, decode}
use cobrust_studio.Ledger.{LedgerEntry, error_transient, err_entry, ok_entry}
use cobrust_studio.Host.{Host}
use cobrust_studio.Cache.{Codec, wire, cache_put}
use cobrust_studio.Router.{
  State, DispatchResponse, Turn, finish, again, Attempt, append, on_disk, observed, on_success,
  on_error, retry_or_fail, back_off, settle, called, turn, io_text,
}

module _ (host : Host) (codec : Codec) where
  -- What holds when a round goes on to another: the attempt was below the limit, the provider was
  -- called once, and one record was written, with this attempt's number and a transient error.
  pub record GoesOn (a : Attempt host) (attempt : ℕ) (s s' : State host) : Type 0 where
    pub below : attempt < a.router.retry.max_attempts
    pub entry : LedgerEntry
    pub recorded : s'.ledger ≡ s.ledger ++ entry ∷ []
    pub numbered : entry.attempt ≡ attempt
    pub transient : entry.outcome ≡ error_transient
    pub called_once : s'.calls ≡ s.calls ++ (a.pm.provider, a.request) ∷ []

  retry_or_fail-again :
      (a : Attempt host) (attempt : ℕ) (e : LlmError) (r : Result LlmError (Unit {0}))
      (s s' : State host)
      → retry_or_fail host codec a attempt e r s ≡ again s'
      → (attempt < a.router.retry.max_attempts)
        × (is_transient e ≡ true)
        × (r ≡ ok tt)
        × (s'.ledger ≡ s.ledger)
        × (s'.calls ≡ s.calls)
  unfolding retry_or_fail back_off
  retry_or_fail-again a attempt e (err why) s s' h = absurd (cc)
  retry_or_fail-again a attempt e (ok _) s s' h =
      (ground arith, ground arith, refl, ground arith, ground arith)

  -- A record is written whole, or the append fails and the ledger is as it was.
  append-ledger :
      (entry : Text → LedgerEntry) (s : State host)
      → ((append host entry s).0 ≡ ok tt)
          × ((append host entry s).1.ledger
              ≡ s.ledger ++ entry (host.now_rfc3339 s.disk.world) ∷ [])
        ⊎ ((append host entry s).1.ledger ≡ s.ledger)
  unfolding append
  append-ledger entry s = ground arith

  append-ok :
      (entry : Text → LedgerEntry) (s : State host)
      → (append host entry s).0 ≡ ok tt
      → (append host entry s).1.ledger ≡ s.ledger ++ entry (host.now_rfc3339 s.disk.world) ∷ []
  unfolding append
  append-ok entry s h = ground arith

  append-calls :
      (entry : Text → LedgerEntry) (s : State host) → (append host entry s).1.calls ≡ s.calls
  unfolding append
  append-calls entry s = ground arith

  on_error-again :
      (a : Attempt host) (attempt elapsed : ℕ) (e : LlmError) (s s' : State host)
      → on_error host codec a attempt elapsed e (called host codec a s) ≡ again s'
      → GoesOn a attempt s s'
  unfolding on_error called err_entry
  on_error-again a attempt elapsed e s s' h =
      let c = called host codec a s in
      let entry = λ (ts : Text).
        err_entry ts a.task_tag a.pm.provider (some (host.kind a.pm.provider)) a.pm.model
          (wire a.key) elapsed attempt (code e) (is_transient e) in
      let (below, transient, written, same, calls_same) =
        retry_or_fail-again a attempt e (append host entry c).0 (append host entry c).1 s' h in
      record {
        below = below;
        entry = entry (host.now_rfc3339 c.disk.world);
        recorded = same ∙ append-ok entry c written;
        numbered = refl;
        transient = rw transient;
        called_once = calls_same ∙ append-calls entry c;
      }

  settle-again :
      (a : Attempt host) (attempt elapsed : ℕ) (outcome : Result LlmError CompletionResponse)
      (s s' : State host)
      → settle host codec a attempt elapsed outcome (called host codec a s) ≡ again s'
      → GoesOn a attempt s s'
  unfolding settle
  settle-again a attempt elapsed (ok resp) s s' h = absurd (cc)
  settle-again a attempt elapsed (err e) s s' h = on_error-again a attempt elapsed e s s' h

  pub turn-again :
      (a : Attempt host) (attempt : ℕ) (s s' : State host)
      → turn host codec a attempt s ≡ again s'
      → GoesOn a attempt s s'
  unfolding turn
  turn-again a attempt s s' h = settle-again a attempt _ _ s s' h

  -- What holds when a round ends the loop: the provider was called once, and either one record was
  -- written, with this attempt's number, or a file operation failed and the result is its error.
  pub record Ends (a : Attempt host) (attempt : ℕ) (s s' : State host)
      (r : Result LlmError DispatchResponse) : Type 0 where
    pub called_once : s'.calls ≡ s.calls ++ (a.pm.provider, a.request) ∷ []
    pub recorded :
        ((entry : LedgerEntry) × (s'.ledger ≡ s.ledger ++ entry ∷ []) × (entry.attempt ≡ attempt))
        ⊎ ((why : Text) × (s'.ledger ≡ s.ledger) × (r ≡ err (decode why)))

  retry_or_fail-finish :
      (a : Attempt host) (attempt : ℕ) (e : LlmError) (w : Result LlmError (Unit {0}))
      (s s' : State host) (r : Result LlmError DispatchResponse)
      → retry_or_fail host codec a attempt e w s ≡ finish r s'
      → (s' ≡ s)
        × (((w ≡ ok tt) × (r ≡ err e)) ⊎ ((why : LlmError) × (w ≡ err why) × (r ≡ err why)))
  unfolding retry_or_fail back_off
  retry_or_fail-finish a attempt e (err why) s s' r h =
      (ground arith, inr (why, refl, ground arith))
  retry_or_fail-finish a attempt e (ok _) s s' r h = (ground arith, inl (refl, ground arith))

  append_or_decode :
      (entry : Text → LedgerEntry) (s : State host)
      → ((append host entry s).0 ≡ ok tt)
        ⊎ ((why : Text) × ((append host entry s).0 ≡ err (decode why))
            × ((append host entry s).1.ledger ≡ s.ledger))
  unfolding append
  append_or_decode entry s = elim (Option-cases (host.fault s.disk.world).0) [
    | inl quiet ↦ inl (rw quiet)
    | inr (f, failed) ↦ inr (f.reason, rw failed, rw failed)
  ]

  on_error-Ends :
      (a : Attempt host) (attempt elapsed : ℕ) (e : LlmError) (s s' : State host)
      (r : Result LlmError DispatchResponse)
      → on_error host codec a attempt elapsed e (called host codec a s) ≡ finish r s'
      → Ends a attempt s s' r
  unfolding on_error called err_entry
  on_error-Ends a attempt elapsed e s s' r h =
      let c = called host codec a s in
      let entry = λ (ts : Text).
        err_entry ts a.task_tag a.pm.provider (some (host.kind a.pm.provider)) a.pm.model
          (wire a.key) elapsed attempt (code e) (is_transient e) in
      let (same, outcome) =
        retry_or_fail-finish a attempt e (append host entry c).0 (append host entry c).1 s' r h in
      record {
        called_once = ap (λ (t : State host). t.calls) same ∙ append-calls entry c;
        recorded = elim (append_or_decode entry c) [
          | inl written ↦ inl (
            entry (host.now_rfc3339 c.disk.world),
            ap (λ (t : State host). t.ledger) same ∙ append-ok entry c written,
            refl,
          )
          | inr (why, failed, kept) ↦
              inr (why, ap (λ (t : State host). t.ledger) same ∙ kept, ground arith)
        ];
      }

  on_success-Ends :
      (a : Attempt host) (attempt elapsed : ℕ) (resp : CompletionResponse) (s : State host)
      → Ends a attempt s
          (on_success host codec a attempt elapsed resp (called host codec a s)).1
          (on_success host codec a attempt elapsed resp (called host codec a s)).0
  unfolding on_success called on_disk observed append ok_entry
  on_success-Ends a attempt elapsed resp s =
      let put =
        cache_put host codec a.router.cache_root a.key a.request resp
          (called host codec a s).disk in
      let entry =
        ok_entry (host.now_rfc3339 put.1.world) a.task_tag a.pm.provider
          (some (host.kind a.pm.provider)) a.pm.model (wire a.key) false resp.usage elapsed
          attempt in
      elim (Result-cases put.0) [
        | inr (e, failed) ↦ record {
          called_once = rw failed;
          recorded = inr (io_text e, rw failed, rw failed);
        }
        | inl (_, stored) ↦ elim (Option-cases (host.fault put.1.world).0) [
          | inl quiet ↦ record {
            called_once = rw (stored, quiet);
            recorded = inl (entry, rw (stored, quiet), refl);
          }
          | inr (f, failed) ↦ record {
            called_once = rw (stored, failed);
            recorded = inr (f.reason, rw (stored, failed), rw (stored, failed));
          }
        ]
      ]

  pub finish_eq :
      {r t : Result LlmError DispatchResponse} {s s' : State host}
      → finish r s ≡ finish t s'
      → (r ≡ t) × (s ≡ s')
  finish_eq h = (cc, cc)

  settle-Ends :
      (a : Attempt host) (attempt elapsed : ℕ) (outcome : Result LlmError CompletionResponse)
      (s s' : State host) (r : Result LlmError DispatchResponse)
      → settle host codec a attempt elapsed outcome (called host codec a s) ≡ finish r s'
      → Ends a attempt s s' r
  unfolding settle
  settle-Ends a attempt elapsed (err e) s s' r h = on_error-Ends a attempt elapsed e s s' r h
  settle-Ends a attempt elapsed (ok resp) s s' r h =
      let (results, states) = finish_eq h in
      subst₂ (λ r s'. Ends a attempt s s' r) results states
        (on_success-Ends a attempt elapsed resp s)

  pub turn-Ends :
      (a : Attempt host) (attempt : ℕ) (s s' : State host) (r : Result LlmError DispatchResponse)
      → turn host codec a attempt s ≡ finish r s'
      → Ends a attempt s s' r
  unfolding turn
  turn-Ends a attempt s s' r h = settle-Ends a attempt _ _ s s' r h

pub Turn-cases :
    {host : Host} (t : Turn host)
    → ((r : Result LlmError DispatchResponse) × (s : State host) × (t ≡ finish r s))
      ⊎ ((s : State host) × (t ≡ again s))
Turn-cases (finish r s) = inl (r, s, refl)
Turn-cases (again s) = inr (s, refl)
