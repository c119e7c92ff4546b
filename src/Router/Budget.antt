-- ===== src/Router/Budget.antt =====
-- The time that `RouterHandle::try_provider` in crates/studio-router/src/router.rs sleeps.
use cobrust_studio.Base.{
  ℕ, zero, suc, ◌+◌, ◌-◌, ◌*◌, ◌≤◌, ◌<◌, min, Option, none, some, ◌≡◌, inl, inr, refl, ap, ◌∙◌,
  arith, Text, Result, ok, err, sum, sum-snoc, ltb, leb, Bool-cases, Bool, true, false, not, ◌||◌,
  if◌then◌else◌,
}
use mathlib.Core.Path.{subst}
use cobrust_studio.Config.{ProviderModel}
use cobrust_studio.Provider.{CompletionRequest, CompletionResponse, LlmError, is_transient}
use cobrust_studio.Ledger.{LedgerEntry}
use cobrust_studio.Host.{Host}
use cobrust_studio.Cache.{Codec}
use cobrust_studio.Router.Policy.{next_delay_ms}
use cobrust_studio.Router.{
  State, DispatchResponse, Turn, finish, again, Attempt, append, on_disk, observed, on_success,
  on_error, retry_or_fail, back_off, settle, called, turn, attempts, millis, ns_per_ms, u64_max,
  Router, after_lookup, from_cache, try_provider, registered,
}
use cobrust_studio.Router.Retry.{Turn-cases}

-- The clock never goes back, and a sleep lasts at least as long as it was asked to.
pub record Clock (host : Host) : Type 0 where
  pub complete_later :
      (p : Text) (req : CompletionRequest) (w : host.W)
      → host.now w ≤ host.now (host.complete p req w).1
  pub fault_later : (w : host.W) → host.now w ≤ host.now (host.fault w).1
  pub range_later : (f : host.F) (w : host.W) → host.now w ≤ host.now (host.gen_range f w).1
  pub sleep_lasts : (d : ℕ) (w : host.W) → host.now w + d * ns_per_ms ≤ host.now (host.sleep d w)

module _ (host : Host) (codec : Codec) (clock : Clock host) where
  -- From a sum of `base` at the start: the sleeps since then are within the budget, and the clock has
  -- moved on by at least as much.
  pub record Within (a : Attempt host) (base : ℕ) (s : State host) : Type 0 where
    pub since : ℕ
    pub summed : sum s.slept ≡ base + since
    pub elapsed : a.total_start + since * ns_per_ms ≤ host.now s.disk.world
    pub budget : since ≤ a.router.retry.max_total_ms

  append-later :
      (entry : Text → LedgerEntry) (s : State host)
      → host.now s.disk.world ≤ host.now (append host entry s).1.disk.world
  unfolding append
  append-later entry s = ground (arith, clock.fault_later s.disk.world)

  append-slept :
      (entry : Text → LedgerEntry) (s : State host) → (append host entry s).1.slept ≡ s.slept
  unfolding append
  append-slept entry s = ground arith

  delay_later :
      (a : Attempt host) (n : ℕ) (e : LlmError) (w : host.W)
      → host.now w ≤ host.now (next_delay_ms host a.router.retry n e w).1
  unfolding next_delay_ms
  delay_later a n e w = ground (
    arith,
    clock.range_later
        (host.times (host.of_u64 a.router.retry.base_delay_ms)
          (host.powi a.router.retry.factor (n - 1)))
        w,
  )

  again_eq : {s t : State host} → again s ≡ again t → s ≡ t
  again_eq h = cc

  since_le :
      (a : Attempt host) (base : ℕ) (s : State host) (w : Within a base s)
      → a.router.retry.max_total_ms ≤ u64_max
      → w.since ≤ millis host codec a.total_start (host.now s.disk.world) u64_max
  unfolding millis
  since_le a base s w limit = omega (arith, w.elapsed, w.budget)

  back_off-Within :
      (a : Attempt host) (base n : ℕ) (e : LlmError) (total : ℕ) (s s' : State host)
      → (w : Within a base s) → w.since ≤ total
      → total < a.router.retry.max_total_ms
      → back_off host codec a n e total s ≡ again s'
      → Within a base s'
  unfolding back_off
  back_off-Within a base n e total s s' w low high h =
      let next = next_delay_ms host a.router.retry n e s.disk.world in
      let delay = min next.0 (a.router.retry.max_total_ms - total) in
      let later = delay_later a n e s.disk.world in
      elim (Bool-cases (ltb 0 delay)) [
        | inl sleeps ↦ subst (Within a base) (again_eq (rw (sleeps, back_off) at h)) (record {
          since = w.since + delay;
          summed = omega (arith, sum-snoc s.slept delay, w.summed);
          elapsed = omega (arith, clock.sleep_lasts delay next.1, later, w.elapsed);
          budget = omega (arith, low, high);
        })
        | inr not_now ↦ subst (Within a base) (again_eq (rw (not_now, back_off) at h)) (record {
          since = w.since;
          summed = w.summed;
          elapsed = omega (arith, later, w.elapsed);
          budget = w.budget;
        })
      ]

  -- what a round of the loop keeps, whether it goes on or ends
  abbrev Kept : Attempt host → ℕ → Turn host → Type 0
  Kept a base (again s') = Within a base s'
  Kept a base (finish r s') = sum s'.slept ≤ base + a.router.retry.max_total_ms

  Kept-if :
      (a : Attempt host) (base : ℕ) (b : Bool) (t u : Turn host)
      → Kept a base t
      → (b ≡ false → Kept a base u)
      → Kept a base (if b then t else u)
  Kept-if a base true t u h k = h
  Kept-if a base false t u h k = k refl

  retry_or_fail-Kept :
      (a : Attempt host) (base n : ℕ) (e : LlmError) (r : Result LlmError (Unit {0}))
      (s : State host)
      → a.router.retry.max_total_ms ≤ u64_max
      → Within a base s
      → Kept a base (retry_or_fail host codec a n e r s)
  unfolding retry_or_fail back_off
  retry_or_fail-Kept a base n e (err why) s limit w = omega (arith, w.summed, w.budget)
  retry_or_fail-Kept a base n e (ok _) s limit w =
      let total = millis host codec a.total_start (host.now s.disk.world) u64_max in
      let done : sum s.slept ≤ base + a.router.retry.max_total_ms =
        omega (arith, w.summed, w.budget) in
      Kept-if a base (not (is_transient e) || leb a.router.retry.max_attempts n) _ _ done λ _.
        Kept-if a base (leb a.router.retry.max_total_ms total) _ _ done λ low.
          back_off-Within a base n e total s _ w (since_le a base s w limit) (ground arith) refl

  on_success-slept :
      (a : Attempt host) (n elapsed : ℕ) (resp : CompletionResponse) (s : State host)
      → (on_success host codec a n elapsed resp s).1.slept ≡ s.slept
  unfolding on_success on_disk observed append
  on_success-slept a n elapsed resp s = ground arith

  settle-Kept :
      (a : Attempt host) (base n elapsed : ℕ) (outcome : Result LlmError CompletionResponse)
      (s : State host)
      → a.router.retry.max_total_ms ≤ u64_max
      → Within a base s
      → Kept a base (settle host codec a n elapsed outcome s)
  unfolding settle on_error
  settle-Kept a base n elapsed (err e) s limit w = retry_or_fail-Kept a base n e _ _ limit (record {
    since = w.since;
    summed = ap sum (append-slept _ s) ∙ w.summed;
    elapsed = omega (arith, append-later _ s, w.elapsed);
    budget = w.budget;
  })
  settle-Kept a base n elapsed (ok resp) s limit w =
      rw (on_success-slept a n elapsed resp s) (omega (arith, w.summed, w.budget))

  turn-Kept :
      (a : Attempt host) (base n : ℕ) (s : State host)
      → a.router.retry.max_total_ms ≤ u64_max
      → Within a base s
      → Kept a base (turn host codec a n s)
  unfolding turn called
  turn-Kept a base n s limit w = settle-Kept a base n _ _ (called host codec a s) limit (record {
    since = w.since;
    summed = w.summed;
    elapsed = omega (arith, clock.complete_later a.pm.provider a.request s.disk.world, w.elapsed);
    budget = w.budget;
  })

  state_eq :
      {t r : Result LlmError DispatchResponse} {u s : State host}
      → ◌≡◌ {A = Option (Result LlmError DispatchResponse × State host)} (some (t, u)) (some (r, s))
      → u ≡ s
  state_eq h = cc

  attempts-budget :
      (fuel : ℕ) (a : Attempt host) (base n : ℕ) (s s' : State host)
      (r : Result LlmError DispatchResponse)
      → a.router.retry.max_total_ms ≤ u64_max
      → Within a base s
      → attempts host codec fuel a n s ≡ some (r, s')
      → sum s'.slept ≤ base + a.router.retry.max_total_ms
  unfolding attempts
  attempts-budget zero a base n s s' r limit w e = absurd (cc)
  attempts-budget (suc fuel) a base n s s' r limit w e =
      let kept = turn-Kept a base n s limit w in
      elim (Turn-cases (turn host codec a n s)) [
        | inl (t, u, f) ↦
            subst (λ (v : State host). sum v.slept ≤ base + a.router.retry.max_total_ms)
              (state_eq (rw (f, attempts) at e)) (rw f at kept)
        | inr (u, f) ↦
            attempts-budget fuel a base (min (n + 1) 255) u s' r limit (rw f at kept)
              (rw (f, attempts) at e)
      ]

  from_cache-slept :
      (tag : Option Text) (pm : ProviderModel) (key : Text) (resp : CompletionResponse)
      (s : State host)
      → (from_cache host codec tag pm key resp s).1.slept ≡ s.slept
  unfolding from_cache append
  from_cache-slept tag pm key resp s = ground arith

  after_lookup-budget :
      (r : Router host) (tag : Option Text) (pm : ProviderModel) (request : CompletionRequest)
      (key : Text) (found : Result LlmError (Option CompletionResponse)) (s s' : State host)
      (res : Result LlmError DispatchResponse)
      → r.retry.max_total_ms ≤ u64_max
      → after_lookup host codec r tag pm request key found s ≡ some (res, s')
      → sum s'.slept ≤ sum s.slept + r.retry.max_total_ms
  unfolding after_lookup
  after_lookup-budget r tag pm request key (err e) s s' res limit h =
      omega (arith, ap (λ (v : State host). sum v.slept) (state_eq h))
  after_lookup-budget r tag pm request key (ok (some resp)) s s' res limit h = omega (
    arith,
    ap (λ (v : State host). sum v.slept) (state_eq h),
    ap sum (from_cache-slept tag pm key resp s),
  )
  after_lookup-budget r tag pm request key (ok none) s s' res limit h =
      attempts-budget 256 _ (sum s.slept) 1 s s' res limit
        (record { since = 0; summed = omega arith; elapsed = omega arith; budget = omega arith }) h

  -- When one call of `try_provider` returns, all its sleeps together are no longer than `max_total_ms`,
  -- a `u64`, on a clock that does not go back and on which a sleep is not cut short.
  pub try_provider-budget :
      (r : Router host) (tag : Option Text) (req : CompletionRequest) (pm : ProviderModel)
      (s s' : State host) (res : Result LlmError DispatchResponse)
      → r.retry.max_total_ms ≤ u64_max
      → try_provider host codec r tag req pm s ≡ some (res, s')
      → sum s'.slept ≤ sum s.slept + r.retry.max_total_ms
  unfolding try_provider on_disk
  try_provider-budget r tag req pm s s' res limit h =
      elim (Bool-cases (registered pm.provider r.providers)) [
        | inl known ↦ after_lookup-budget r tag pm _ _ _ _ s' res limit (rw known at h)
        | inr unknown ↦
            omega (arith, ap (λ (v : State host). sum v.slept) (state_eq (rw unknown at h)))
      ]
