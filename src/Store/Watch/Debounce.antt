-- ===== src/Store/Watch/Debounce.antt =====
-- How far the events of `WatchStream`, in crates/studio-store/src/watch.rs, are apart.
use cobrust_studio.Base.{
  if◌then◌else◌, ℕ, suc, ◌+◌, ◌-◌, ◌≤◌, ◌≡◌, refl, sym, ap, ◌∙◌, arith, ltb, leb, Bool, true, not,
  ◌&&◌, ◌⊎◌, inl, inr, List, [], ◌∷◌, ◌++◌, Option, none, some, All, All-append, All-map, both,
  length, Result, ok, err, Text, Bool-cases,
}
use cobrust_studio.Host.{FilePath, eq_path, eq_path_iff}
use cobrust_studio.Store.Documents.{EventKind, create, modify, remove, RawEvent}
use cobrust_studio.Store.Watch.{
  debounce_window, channel_capacity, map_kind, eq_kind, same_key, WatchStream, NotifyKind,
  NotifyEvent, on_notify, send_paths, send_kind, try_send, Polled, item, finished, pending,
  retained, is_stale, insert_emitted, poll_loop, poll_next, WatchStep, notified, polled, hung_up,
  Emission, emitted, step, run,
}

eq_kind_sound : (k l : EventKind) → eq_kind k l ≡ true → k ≡ l
unfolding eq_kind
eq_kind_sound create create h = refl
eq_kind_sound create modify h = absurd (cc h)
eq_kind_sound create remove h = absurd (cc h)
eq_kind_sound modify create h = absurd (cc h)
eq_kind_sound modify modify h = refl
eq_kind_sound modify remove h = absurd (cc h)
eq_kind_sound remove create h = absurd (cc h)
eq_kind_sound remove modify h = absurd (cc h)
eq_kind_sound remove remove h = refl

eq_kind_refl : (k : EventKind) → eq_kind k k ≡ true
unfolding eq_kind
eq_kind_refl create = refl
eq_kind_refl modify = refl
eq_kind_refl remove = refl

same_key_sound : (e f : RawEvent) → same_key e f ≡ true → e ≡ f
unfolding same_key
same_key_sound e f h =
    let (p, k) = both (eq_path e.path f.path) (eq_kind e.kind f.kind) h in
    let same_path : e.path ≡ f.path = (eq_path_iff e.path f.path).0 p in
    let same_kind : e.kind ≡ f.kind = eq_kind_sound e.kind f.kind k in
    ap (λ (q : FilePath). record { path = q; kind = e.kind }) same_path
    ∙ ap (λ (l : EventKind). record { path = f.path; kind = l }) same_kind

same_key_refl : (e : RawEvent) → same_key e e ≡ true
unfolding same_key
same_key_refl e = rw ((eq_path_iff e.path e.path).1 refl) (eq_kind_refl e.kind)

-- a clock that does not go back
abbrev pub IsMonotone : (ℕ → ℕ) → Type 0
IsMonotone clock = (n : ℕ) → clock n ≤ clock (suc n)

-- The second of two emissions of one path and kind is a window behind the first.
abbrev pub Apart : Emission → Emission → Type 0
Apart e f = e.event ≡ f.event → e.time + debounce_window ≤ f.time

abbrev pub AreApart : List Emission → Type 0
AreApart [] = Unit
AreApart (e ∷ es) = All (Apart e) es × AreApart es

module _ (clock : ℕ → ℕ) (mono : IsMonotone clock) where
  -- An emission is a window ago, or the map has its event with no earlier time.
  abbrev Covers : WatchStream → Emission → Type 0
  Covers s e =
      (e.time + debounce_window ≤ clock s.reads)
      ⊎ ((t : ℕ) × (s.last_emitted e.event ≡ some t) × (e.time ≤ t))

  Covers-read :
      (s : WatchStream) (e : Emission) → Covers s e → Covers (record s { reads = suc s.reads }) e
  Covers-read s e (inl ago) = inl (omega (arith, ago, mono s.reads))
  Covers-read s e (inr found) = inr found

  stale-Apart :
      (s : WatchStream) (e : Emission)
      → Covers s e
      → is_stale clock (clock s.reads) (s.last_emitted e.event) ≡ true
      → e.time + debounce_window ≤ clock s.reads
  unfolding is_stale
  stale-Apart s e (inl ago) h = ago
  stale-Apart s e (inr (t, found, before)) h =
      let late : leb debounce_window (clock s.reads - t) ≡ true = rw found at h in
      ground (arith, before, late)

  Covers-insert :
      (s : WatchStream) (e : Emission) (evt : RawEvent)
      → Covers s e
      → is_stale clock (clock s.reads) (s.last_emitted evt) ≡ true
      → Covers
          (record s {
            reads = suc s.reads;
            last_emitted = insert_emitted clock evt (clock s.reads) s.last_emitted;
          })
          e
  unfolding insert_emitted
  Covers-insert s e evt c h = elim (Bool-cases (same_key e.event evt)) [
    | inl same ↦
        let stale = rw (sym (same_key_sound e.event evt same)) at h in
        let ago = stale-Apart s e c stale in inl (omega (arith, ago, mono s.reads))
    | inr other ↦ elim c [
      | inl ago ↦ inl (omega (arith, ago, mono s.reads))
      | inr (t, found, before) ↦ inr (t, rw (other, found) refl, before)
    ]
  ]

  Covers-retained :
      (s : WatchStream) (e : Emission)
      → Covers s e
      → Covers
          (record s {
            reads = suc s.reads;
            last_emitted = λ x. retained clock (clock s.reads) (s.last_emitted x);
          })
          e
  unfolding retained
  Covers-retained s e (inl ago) = inl (omega (arith, ago, mono s.reads))
  Covers-retained s e (inr (t, found, before)) =
      elim (Bool-cases (ltb (clock s.reads - t) debounce_window)) [
        | inl recent ↦ inr (t, rw (found, recent) refl, before)
        | inr old ↦ inl (
            let past : e.time + debounce_window ≤ clock s.reads = ground (arith, before, old) in
            omega (arith, past, mono s.reads))
      ]

  -- What a poll does for an emission that was covered: what it emits is apart, and the emission is
  -- covered again.
  abbrev Follows : Emission → Polled × WatchStream → Type 0
  Follows e (p, s') = All (Apart e) (emitted p) × Covers s' e

  poll_loop-Follows :
      (queue : List RawEvent) (s : WatchStream) (e : Emission)
      → Covers s e
      → Follows e (poll_loop clock queue s)
  unfolding poll_loop emitted
  poll_loop-Follows [] s e c = elim (Bool-cases s.closed) [
    | inl h ↦ rw h (tt, c)
    | inr h ↦ rw h (tt, c)
  ]
  poll_loop-Follows (evt ∷ queue) s e c =
      elim (Bool-cases (is_stale clock (clock s.reads) (s.last_emitted evt))) [
        | inl h ↦ rw h (((λ same. stale-Apart s e c (rw same h)), tt), Covers-insert s e evt c h)
        | inr h ↦
            rw h (poll_loop-Follows queue (record s { reads = suc s.reads }) e (Covers-read s e c))
      ]

  poll_loop-Covers :
      (queue : List RawEvent) (s : WatchStream)
      → All (Covers (poll_loop clock queue s).1) (emitted (poll_loop clock queue s).0)
  unfolding poll_loop emitted insert_emitted
  poll_loop-Covers [] s = elim (Bool-cases s.closed) [ inl h ↦ rw h tt | inr h ↦ rw h tt ]
  poll_loop-Covers (evt ∷ queue) s =
      elim (Bool-cases (is_stale clock (clock s.reads) (s.last_emitted evt))) [
        | inl h ↦ rw h (inr (clock s.reads, rw (same_key_refl evt) refl, omega arith), tt)
        | inr h ↦ rw h (poll_loop-Covers queue (record s { reads = suc s.reads }))
      ]

  module _ (is_dir : FilePath → Bool) where
    try_send-Covers :
        (raw : RawEvent) (s : WatchStream) (e : Emission) → Covers s e → Covers (try_send raw s) e
    unfolding try_send
    try_send-Covers raw s e c =
        elim (Bool-cases (not s.closed && ltb (length s.queue) channel_capacity)) [
          | inl h ↦ rw h c
          | inr h ↦ rw h c
        ]

    send_kind-Covers :
        (path : FilePath) (kind : Option EventKind) (s : WatchStream) (e : Emission)
        → Covers s e
        → Covers (send_kind is_dir path kind s) e
    unfolding send_kind
    send_kind-Covers path none s e c = c
    send_kind-Covers path (some kind) s e c = try_send-Covers _ s e c

    send_paths-Covers :
        (kind : NotifyKind) (paths : List FilePath) (s : WatchStream) (e : Emission)
        → Covers s e
        → Covers (send_paths is_dir kind paths s) e
    unfolding send_paths
    send_paths-Covers kind [] s e c = c
    send_paths-Covers kind (path ∷ paths) s e c =
        send_paths-Covers kind paths
          (if is_dir path then s else send_kind is_dir path (map_kind kind) s) e
          (elim (Bool-cases (is_dir path)) [
            | inl h ↦ rw h c
            | inr h ↦ rw h (send_kind-Covers path (map_kind kind) s e c)
          ])

    on_notify-Covers :
        (r : Result Text NotifyEvent) (s : WatchStream) (e : Emission)
        → Covers s e
        → Covers (on_notify is_dir r s) e
    unfolding on_notify
    on_notify-Covers (err why) s e c = c
    on_notify-Covers (ok evt) s e c = send_paths-Covers evt.kind evt.paths s e c

    poll_next-Follows :
        (s : WatchStream) (e : Emission) → Covers s e → Follows e (poll_next clock s)
    unfolding poll_next
    poll_next-Follows s e c = poll_loop-Follows s.queue _ e (Covers-retained s e c)

    poll_next-Covers :
        (s : WatchStream) → All (Covers (poll_next clock s).1) (emitted (poll_next clock s).0)
    unfolding poll_next
    poll_next-Covers s = poll_loop-Covers s.queue _

    -- Everything that comes behind an emission that is covered is apart from it.
    run-Apart :
        (steps : List WatchStep) (s : WatchStream) (e : Emission)
        → Covers s e
        → All (Apart e) (run is_dir clock steps s)
    unfolding run step
    run-Apart [] s e c = tt
    run-Apart (notified r ∷ steps) s e c =
        run-Apart steps (on_notify is_dir r s) e (on_notify-Covers r s e c)
    run-Apart (hung_up ∷ steps) s e c = run-Apart steps (record s { closed = true }) e c
    run-Apart (polled ∷ steps) s e c =
        let (apart, again) = poll_next-Follows s e c in
        All-append (Apart e) (emitted (poll_next clock s).0) _ apart
          (run-Apart steps (poll_next clock s).1 e again)

    emitted-AreApart :
        (p : Polled) (es : List Emission)
        → All (λ e. All (Apart e) es) (emitted p)
        → AreApart es
        → AreApart (emitted p ++ es)
    unfolding emitted
    emitted-AreApart (item evt t) es (h, _) k = (h, k)
    emitted-AreApart finished es h k = k
    emitted-AreApart pending es h k = k

    -- Whatever is notified and however often the stream is polled, on a clock that does not go back two
    -- emissions of the same path and kind are 200 ms apart at least.
    pub run-AreApart :
        (steps : List WatchStep) (s : WatchStream) → AreApart (run is_dir clock steps s)
    unfolding run step
    run-AreApart [] s = tt
    run-AreApart (notified r ∷ steps) s = run-AreApart steps (on_notify is_dir r s)
    run-AreApart (hung_up ∷ steps) s = run-AreApart steps (record s { closed = true })
    run-AreApart (polled ∷ steps) s =
        emitted-AreApart (poll_next clock s).0 _
          (All-map (emitted (poll_next clock s).0) (poll_next-Covers s)
            λ e. run-Apart steps (poll_next clock s).1 e)
          (run-AreApart steps (poll_next clock s).1)
