-- ===== src/Adapter/Contract.antt =====
-- What the trait `LlmProvider` of crates/studio-router/src/provider.rs asks of `complete_stream`.
use cobrust_studio.Base.{
  ◌≡◌, refl, List, [], ◌∷◌, ◌++◌, All, All-append, Text, Result, ok, err, map, ◌⊎◌, inl, inr,
}
use cobrust_studio.Provider.{TokenUsage, Chunk, delta, done, LlmError}
use cobrust_studio.Adapter.{Drained, Flow, go, halt, fail, yielded_of, async_stream_yield}
use cobrust_studio.Adapter.Frames.{Leads}

abbrev pub IsDelta : Chunk → Type 0
IsDelta (delta text) = Unit
IsDelta (done usage) = ⊥

-- Only deltas have been collected.
abbrev pub AreDeltas : Drained → Type 0
AreDeltas s = All IsDelta s.yielded

pub add_text-AreDeltas :
    (s : Drained) (text : Text) → AreDeltas s → All IsDelta (s.yielded ++ delta text ∷ [])
add_text-AreDeltas s text h = All-append IsDelta s.yielded (delta text ∷ []) h (tt, tt)

-- Deltas, and the usage once behind them.
abbrev pub IsComplete : List Chunk → Type 0
IsComplete chunks =
    (ds : List Chunk) × (u : TokenUsage) × All IsDelta ds × (chunks ≡ ds ++ done u ∷ [])

-- The chunks of a stream: its error alone, or all of the deltas and the usage once behind them.
abbrev pub IsContract : List (Result LlmError Chunk) → Type 0
IsContract items =
    ((e : LlmError) × (items ≡ err e ∷ []))
    ⊎ ((chunks : List Chunk) × IsComplete chunks × (items ≡ map ok chunks))

abbrev pub IsOutcome : Result LlmError (List Chunk) → Type 0
IsOutcome (ok chunks) = IsComplete chunks
IsOutcome (err e) = Unit

pub yielded_of-IsOutcome :
    {A : Type 0} (d : A → Drained) (m : Flow A)
    → Leads (λ a. AreDeltas (d a)) AreDeltas m
    → IsOutcome (yielded_of d m)
unfolding yielded_of
yielded_of-IsOutcome d (go a) h = ((d a).yielded, (d a).total_usage, h, refl)
yielded_of-IsOutcome d (halt s) h = (s.yielded, s.total_usage, h, refl)
yielded_of-IsOutcome d (fail e) h = tt

pub async_stream_yield-IsContract :
    (r : Result LlmError (List Chunk)) → IsOutcome r → IsContract (async_stream_yield r)
unfolding async_stream_yield
async_stream_yield-IsContract (ok chunks) h = inr (chunks, h, refl)
async_stream_yield-IsContract (err e) h = inl (e, refl)
