-- ===== src/Router/Attempts.antt =====
-- The loop of `RouterHandle::try_provider` in crates/studio-router/src/router.rs, all its rounds.
use mathlib.Core.List.{append_assoc, append-nil}
use mathlib.Core.Path.{subst}
use cobrust_studio.Base.{
  ℕ, zero, suc, ◌+◌, ◌-◌, ◌≤◌, ◌<◌, min, max, Option, some, List, [], ◌∷◌, ◌++◌, ◌≡◌, ◌⊎◌, inl, inr,
  refl, sym, ap, ◌∙◌, arith, Text, Result, err, length, replicate,
}
use cobrust_studio.Provider.{LlmError, decode}
use cobrust_studio.Ledger.{LedgerEntry, error_transient}
use cobrust_studio.Host.{Host}
use cobrust_studio.Cache.{Codec}
use cobrust_studio.Router.{State, DispatchResponse, Attempt, turn, attempts}
use cobrust_studio.Router.Retry.{GoesOn, Ends, turn-again, turn-Ends, Turn-cases}

-- Records of consecutive attempts from number `n` on, all but the last of them of transient errors.
abbrev pub Trail : ℕ → List LedgerEntry → Type 0
Trail n [] = Unit
Trail n (e ∷ []) = e.attempt ≡ n
Trail n (e ∷ f ∷ es) = (e.attempt ≡ n) × (e.outcome ≡ error_transient) × Trail (suc n) (f ∷ es)

Trail-cons :
    (n : ℕ) (e : LedgerEntry) (es : List LedgerEntry)
    → e.attempt ≡ n
    → e.outcome ≡ error_transient
    → Trail (suc n) es
    → Trail n (e ∷ es)
Trail-cons n e [] h k t = h
Trail-cons n e (f ∷ es) h k t = (h, k, t)

module _ (host : Host) (codec : Codec) where
  -- The loop ends from attempt number `attempt` on, when the number and `max_attempts` are at most 255
  -- and the fuel is positive and covers the attempts that are left.
  pub attempts-some :
      (fuel : ℕ) (a : Attempt host) (attempt : ℕ) (s : State host)
      → a.router.retry.max_attempts ≤ 255
      → a.router.retry.max_attempts < fuel + attempt
      → attempt ≤ 255
      → 0 < fuel
      → (r : Result LlmError DispatchResponse) × (s' : State host) × (attempts host codec fuel a
            attempt s
          ≡ some (r, s'))
  unfolding attempts
  attempts-some zero a attempt s h k l m = absurd (omega arith)
  attempts-some (suc fuel) a attempt s h k l m = elim (Turn-cases (turn host codec a attempt s)) [
    | inl (r, s', e) ↦ (r, s', rw (e, attempts))
    | inr (s', e) ↦
        let g = turn-again host codec a attempt s s' e in
        rw (e, attempts)
          (attempts-some fuel a (min (attempt + 1) 255) s' h (omega (arith, g.below)) (omega arith)
            (omega (arith, g.below)))
  ]

  -- The calls and the records of the rounds from attempt number `n` on.
  pub record Trace (a : Attempt host) (n : ℕ) (s s' : State host)
      (r : Result LlmError DispatchResponse) : Type 0 where
    pub entries : List LedgerEntry
    pub rounds : ℕ
    pub recorded : s'.ledger ≡ s.ledger ++ entries
    pub trail : Trail n entries
    pub calls : s'.calls ≡ s.calls ++ replicate rounds (a.pm.provider, a.request)
    pub some_call : 0 < rounds
    pub within_limit : rounds ≤ max 1 (a.router.retry.max_attempts + 1 - n)
    pub balance :
        (rounds ≡ length entries)
        ⊎ ((why : Text) × (rounds ≡ length entries + 1) × (r ≡ err (decode why)))

  Ends-Trace :
      (a : Attempt host) (n : ℕ) (s s' : State host) (r : Result LlmError DispatchResponse)
      → Ends host codec a n s s' r
      → Trace a n s s' r
  Ends-Trace a n s s' r e = elim e.recorded [
    | inl (entry, written, numbered) ↦ record {
      entries = entry ∷ [];
      rounds = 1;
      recorded = written;
      trail = numbered;
      calls = e.called_once;
      some_call = omega arith;
      within_limit = omega arith;
      balance = inl refl;
    }
    | inr (why, kept, failed) ↦ record {
      entries = [];
      rounds = 1;
      recorded = kept ∙ sym (append-nil s.ledger);
      trail = tt;
      calls = e.called_once;
      some_call = omega arith;
      within_limit = omega arith;
      balance = inr (why, omega arith, failed);
    }
  ]

  GoesOn-Trace :
      (a : Attempt host) (n m : ℕ) (s s' t : State host) (r : Result LlmError DispatchResponse)
      → GoesOn host codec a n s s'
      → m ≡ suc n
      → Trace a m s' t r
      → Trace a n s t r
  GoesOn-Trace a n m s s' t r g next tr = record {
    entries = g.entry ∷ tr.entries;
    rounds = suc tr.rounds;
    recorded = tr.recorded ∙ ap (λ l. l ++ tr.entries) g.recorded ∙ append_assoc s.ledger _ _;
    trail =
        Trail-cons n g.entry tr.entries g.numbered g.transient
          (subst (λ k. Trail k tr.entries) next tr.trail);
    calls =
        tr.calls
        ∙ ap (λ l. l ++ replicate tr.rounds (a.pm.provider, a.request)) g.called_once
        ∙ append_assoc s.calls _ _;
    some_call = omega arith;
    within_limit = omega (arith, g.below, tr.within_limit, next);
    balance = ground (arith, tr.balance);
  }

  -- The ledger and the calls of the rounds from attempt `n` on, under a limit of at most 255 attempts,
  -- when they return: the provider was called at least once, and no more often than attempts are left
  -- from `n` to `max_attempts` (once if none is); the records are appended, one for each call, numbered
  -- from `n` on and all but the last of transient errors; only a last call may lack its record, and
  -- then the result is the error of the failed file operation.
  pub attempts-Trace :
      (fuel : ℕ) (a : Attempt host) (n : ℕ) (s s' : State host)
      (r : Result LlmError DispatchResponse)
      → a.router.retry.max_attempts ≤ 255
      → attempts host codec fuel a n s ≡ some (r, s')
      → Trace a n s s' r
  unfolding attempts
  attempts-Trace zero a n s s' r h e = absurd (cc)
  attempts-Trace (suc fuel) a n s s' r h e = elim (Turn-cases (turn host codec a n s)) [
    | inl (t, u, f) ↦
        let same : ◌≡◌ {A = Option (Result LlmError DispatchResponse × State host)} (some (t, u))
            (some (r, s')) =
          rw (f, attempts) at e in
        Ends-Trace a n s s' r (turn-Ends host codec a n s s' r (f ∙ cc))
    | inr (u, f) ↦
        let g = turn-again host codec a n s u f in
        GoesOn-Trace a n (min (n + 1) 255) s u s' r g (omega (arith, g.below))
          (attempts-Trace fuel a (min (n + 1) 255) u s' r h (rw (f, attempts) at e))
  ]
