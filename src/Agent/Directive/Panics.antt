-- ===== src/Agent/Directive/Panics.antt =====
-- When `parse_agent_directive` of crates/studio-server/src/agent_loop.rs panics, and what it returns.
use cobrust_studio.Base.{
  ℕ, ◌+◌, false, Option, none, some, List, [], ◌∷◌, ◌++◌, ◌≡◌, ◌≢◌, inl, inr, refl, sym, ap, ◌∙◌,
  arith, Text, contains_char, contains_char-append, is_empty, trim, length, length-append, leb,
  codes, Option-cases,
}
use mathlib.Core.List.{append_assoc}
use cobrust_studio.Json.{Value, get, as_str}
use cobrust_studio.Agent.Policy.{ToolCall}
use cobrust_studio.Agent.Directive.{
  Outcome, returns, panics, find, rfind, unfenced, then_some, tool_use, Reader, parse_json_value,
  parse_agent_directive, parse_tool_calls, calls_or_text, directive_of, directive_outcome,
}

-- The first `k` stands behind a text without one, the last in front of one.
find-append :
    (k : ℕ) (s t : Text) → contains_char k s ≡ false → find k (s ++ k ∷ t) ≡ some (length s)
unfolding find contains_char
find-append k [] t h = ground arith
find-append k (c ∷ s) t h = ground (arith, find-append k s t)

rfind-none : (k : ℕ) (s : Text) → contains_char k s ≡ false → rfind k s ≡ none
unfolding rfind contains_char
rfind-none k [] h = refl
rfind-none k (c ∷ s) h = ground (arith, rfind-none k s)

rfind-append :
    (k : ℕ) (s t : Text) → contains_char k t ≡ false → rfind k (s ++ k ∷ t) ≡ some (length s)
unfolding rfind
rfind-append k [] t h = rw (rfind-none k t h) (ground arith)
rfind-append k (c ∷ s) t h = rw (rfind-append k s t h)

returns_injective {ℓ} : {A : Type ℓ} {a b : A} → returns a ≡ returns b → a ≡ b
returns_injective h = cc

no_open :
    (a b : Text)
    → contains_char b'{' a ≡ false
    → contains_char b'{' b ≡ false
    → contains_char b'{' (a ++ b'}' ∷ b) ≡ false
unfolding contains_char
no_open a b h k = rw (contains_char-append b'{' a (b'}' ∷ b)) (rw (h, k))

no_close :
    (b c : Text)
    → contains_char b'}' b ≡ false
    → contains_char b'}' c ≡ false
    → contains_char b'}' (b ++ b'{' ∷ c) ≡ false
unfolding contains_char
no_close b c h k = rw (contains_char-append b'}' b (b'{' ∷ c)) (rw (h, k))

-- The slice from the one to the other starts behind its end.
gap : (a b : Text) → is_empty b ≡ false → leb (length (a ++ b'}' ∷ b)) (length a + 1) ≡ false
gap a [] h = absurd (cc)
gap a (c ∷ b) h = ground (arith, length-append a (b'}' ∷ c ∷ b))

module _ (reader : Reader) where
  open reader use {from_str}

  -- The reader of directives panics on a reply when what is left of it without the white space around
  -- it is no JSON, not even between fences, and has its first `{` behind its last `}` with some text
  -- between them.
  pub parse_agent_directive_panics :
      (text a b c : Text)
      → trim text ≡ a ++ b'}' ∷ (b ++ b'{' ∷ c)
      → contains_char b'{' a ≡ false
      → contains_char b'{' b ≡ false
      → contains_char b'}' b ≡ false
      → contains_char b'}' c ≡ false
      → is_empty b ≡ false
      → from_str (a ++ b'}' ∷ (b ++ b'{' ∷ c)) ≡ none
      → then_some (unfenced (a ++ b'}' ∷ (b ++ b'{' ∷ c))) from_str ≡ none
      → parse_agent_directive reader text ≡ panics
  unfolding parse_agent_directive parse_json_value
  parse_agent_directive_panics text a b c trimmed ha hb kb kc filled no_json no_fence =
      let s = a ++ b'}' ∷ (b ++ b'{' ∷ c) in
      let first : find b'{' s ≡ some (length (a ++ b'}' ∷ b)) =
        ap (find b'{') (sym (append_assoc a (b'}' ∷ b) (b'{' ∷ c)))
        ∙ find-append b'{' (a ++ b'}' ∷ b) c (no_open a b ha hb) in
      let last : rfind b'}' s ≡ some (length a) = rfind-append b'}' a _ (no_close b c kb kc) in
      rw (trimmed, no_json, no_fence) (rw (first, last) (rw (gap a b filled)))

  calls_or_text-ne-nil :
      (found : Option (List ToolCall)) (text : Text) (calls : List ToolCall)
      → calls_or_text reader found text ≡ tool_use calls
      → calls ≢ []
  unfolding calls_or_text
  calls_or_text-ne-nil none text calls h e = cc
  calls_or_text-ne-nil (some []) text calls h e = cc
  calls_or_text-ne-nil (some (c ∷ cs)) text calls h e = cc

  directive_of-ne-nil :
      (v : Option Value) (text : Text) (calls : List ToolCall)
      → directive_of reader v text ≡ tool_use calls
      → calls ≢ []
  unfolding directive_of
  directive_of-ne-nil none text calls h e = cc
  directive_of-ne-nil (some v) text calls h e =
      elim (Option-cases (then_some (get (codes "final_text") v) as_str)) [
        | inl absent ↦
            calls_or_text-ne-nil (parse_tool_calls reader v) text calls
              (rw (absent, directive_of) at h) e
        | inr (t, found) ↦ cc (rw (found, directive_of) at h)
      ]

  outcome-ne-nil :
      (o : Outcome (Option Value)) (text : Text) (calls : List ToolCall)
      → directive_outcome reader o text ≡ returns (tool_use calls)
      → calls ≢ []
  unfolding directive_outcome
  outcome-ne-nil panics text calls h e = cc
  outcome-ne-nil (returns v) text calls h e =
      directive_of-ne-nil v text calls (returns_injective h) e

  -- A directive to use tools has at least one call.
  pub tool_use-ne-nil :
      (text : Text) (calls : List ToolCall)
      → parse_agent_directive reader text ≡ returns (tool_use calls)
      → calls ≢ []
  unfolding parse_agent_directive
  tool_use-ne-nil text calls h e = outcome-ne-nil (parse_json_value reader text) text calls h e
