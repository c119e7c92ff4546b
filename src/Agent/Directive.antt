-- ===== src/Agent/Directive.antt =====
-- crates/studio-server/src/agent_loop.rs: what the program reads in the model's text. serde_json's
-- reader is a parameter.
pub mod Panics
use cobrust_studio.Base.{
  ℕ, zero, suc, ◌+◌, ◌-◌, ◌≤◌, ◌<◌, Bool, true, false, not, ◌||◌, Option, none, some, List, [], ◌∷◌,
  ◌++◌, ◌≡◌, refl, sym, ap, ◌∙◌, arith, Text, codes, trim, strip_prefix, contains_char, is_empty,
  take, drop, leb, ltb, ◌==◌, if◌then◌else◌, Bool-cases, inl, inr, IsTrimmed,
}
use mathlib.Core.List.{reverse}
use cobrust_studio.Json.{Value, get, as_str, as_array}
use cobrust_studio.Agent.Policy.{ToolCall}

-- What a function of the program does: it returns, or it panics.
pub data Outcome {ℓ} (A : Type ℓ) : Type ℓ where
  returns : A → Outcome A
  panics : Outcome A

-- `str::find` and `str::rfind` of a character
unfoldable pub find : ℕ → Text → Option ℕ
find k [] = none
find k (c ∷ s) = if c == k then some 0 else elim (find k s) [ none ↦ none | some i ↦ some (suc i) ]

unfoldable pub rfind : ℕ → Text → Option ℕ
rfind k [] = none
rfind k (c ∷ s) = elim (rfind k s) [
  | some i ↦ some (suc i)
  | none ↦ if c == k then some 0 else none
]

-- `&s[start..=end]`; both ends are positions of ASCII characters of `s`, so only their order matters
slice_inclusive : ℕ → ℕ → Text → Outcome Text
slice_inclusive first last s =
    if leb first (last + 1) then returns (take (last + 1 - first) (drop first s)) else panics

-- `str::strip_suffix`
strip_suffix : Text → Text → Option Text
strip_suffix x s = elim (strip_prefix (reverse x) (reverse s)) [
  | none ↦ none
  | some r ↦ some (reverse r)
]

or_else : {A : Type 0} → Option A → Option A → Option A
or_else none o = o
or_else (some a) o = some a

unfoldable pub then_some : {A B : Type 0} → Option A → (A → Option B) → Option B
then_some none f = none
then_some (some a) f = f a

-- the text between the fences, if it has them
unfoldable pub unfenced : Text → Option Text
unfolding strip_suffix or_else then_some
unfenced trimmed =
    then_some
      (then_some
        (or_else (strip_prefix (codes "```json") trimmed) (strip_prefix (codes "```") trimmed))
        (strip_suffix (codes "```")))
      (λ s. some (trim s))

pub data AgentDirective : Type 0 where
  final : Text → AgentDirective
  tool_use : List ToolCall → AgentDirective

-- serde_json's reader, and `from_value::<ToolCall>`
pub record Reader : Type 0 where
  pub from_str : Text → Option Value
  pub tool_call_of : Value → Option ToolCall

module _ (reader : Reader) where
  open reader use {from_str, tool_call_of}

  from_slice : Outcome Text → Outcome (Option Value)
  from_slice panics = panics
  from_slice (returns s) = returns (from_str s)

  -- from the first `{` to the last `}`
  braces : Option ℕ → Option ℕ → Text → Outcome (Option Value)
  braces none last s = returns none
  braces (some first) none s = returns none
  braces (some first) (some last) s = from_slice (slice_inclusive first last s)

  first_value : Option Value → Outcome (Option Value) → Outcome (Option Value)
  first_value (some v) rest = returns (some v)
  first_value none rest = rest

  -- `parse_json_value`
  unfoldable pub parse_json_value : Text → Outcome (Option Value)
  unfolding first_value braces from_slice slice_inclusive then_some
  parse_json_value text =
      let trimmed = trim text in
      first_value (from_str trimmed) (
        first_value (then_some (unfenced trimmed) from_str)
          (braces (find b'{' trimmed) (rfind b'}' trimmed) trimmed))

  calls_of : List Value → List ToolCall
  calls_of [] = []
  calls_of (v ∷ vs) = elim (tool_call_of v) [ none ↦ calls_of vs | some c ↦ c ∷ calls_of vs ]

  single_call : Option ToolCall → Option (List ToolCall)
  single_call none = none
  single_call (some c) = some (c ∷ [])

  -- `parse_tool_calls`
  unfoldable pub parse_tool_calls : Value → Option (List ToolCall)
  unfolding calls_of single_call then_some
  parse_tool_calls v = elim (then_some (get (codes "tool_calls") v) as_array) [
    | some items ↦ some (calls_of items)
    | none ↦ then_some (get (codes "tool_call") v) (λ item. single_call (tool_call_of item))
  ]

  calls_or_text : Option (List ToolCall) → Text → AgentDirective
  calls_or_text none text = final text
  calls_or_text (some []) text = final text
  calls_or_text (some (c ∷ cs)) text = tool_use (c ∷ cs)

  directive_of : Option Value → Text → AgentDirective
  directive_of none text = final text
  directive_of (some v) text = elim (then_some (get (codes "final_text") v) as_str) [
    | some final_text ↦ final final_text
    | none ↦ calls_or_text (parse_tool_calls v) text
  ]

  directive_outcome : Outcome (Option Value) → Text → Outcome AgentDirective
  directive_outcome panics text = panics
  directive_outcome (returns v) text = returns (directive_of v text)

  -- `parse_agent_directive`
  unfoldable pub parse_agent_directive : Text → Outcome AgentDirective
  unfolding directive_outcome directive_of calls_or_text then_some
  parse_agent_directive text = directive_outcome (parse_json_value text) text
