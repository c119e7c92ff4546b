-- ===== src/Agent/Policy.antt =====
-- crates/studio-server/src/agent_loop.rs: which tools a turn may name, and which call is let through.
use cobrust_studio.Base.{
  ℕ, Bool, true, false, not, ◌&&◌, ◌||◌, List, [], ◌∷◌, ◌≡◌, sym, ◌∙◌, arith, inl, inr, Text,
  String, codes, trim, is_empty, eq_text, eq_text_iff, contains_text, set_insert, All-set_insert,
  contains_text-set_insert, Result, ok, err, ◌>>◌, ◌>>=◌, refuse_if, if◌then◌else◌, All, Bool-cases,
  ok_injective, >>=-eq-ok, ◌⊎◌, ◌↔◌, map,
}
use mathlib.Core.Path.{subst}
use cobrust_studio.Json.{Value}
use cobrust_studio.Provider.{TokenUsage, saturating_add32}

-- `READ_TOOLS` and `WRITE_TOOLS`
abbrev pub read_tools : List Text
read_tools =
    codes "fs.read"
    ∷ codes "fs.list"
    ∷ codes "git.status"
    ∷ codes "git.diff"
    ∷ codes "project_tree"
    ∷ []

abbrev pub write_tools : List Text
write_tools = codes "fs.write" ∷ codes "fs.delete" ∷ codes "shell.exec" ∷ []

unfoldable pub is_known_tool : Text → Bool
is_known_tool tool = contains_text tool read_tools || contains_text tool write_tools

unfoldable pub is_write_tool : Text → Bool
is_write_tool tool = contains_text tool write_tools

pub data ToolRequestError : Type 0 where
  unknown_tool : Text → ToolRequestError
  write_tool_disabled : Text → ToolRequestError

-- `ToolRequestError::code`
unfoldable pub request_code : ToolRequestError → String
request_code (unknown_tool t) = "unknown_tool"
request_code (write_tool_disabled t) = "tool_not_allowed"

-- one round of the loop of `normalise_tools_allowed`, on the trimmed name
add_tool : Bool → Text → List Text → Result ToolRequestError (List Text)
add_tool write_enabled tool allowed =
    if is_empty tool
    then ok allowed
    else if not (is_known_tool tool)
    then err (unknown_tool tool)
    else if is_write_tool tool && not write_enabled
    then err (write_tool_disabled tool)
    else ok (set_insert tool allowed)

add_tools : Bool → List Text → List Text → Result ToolRequestError (List Text)
add_tools write_enabled [] allowed = ok allowed
add_tools write_enabled (tool ∷ tools) allowed =
    add_tool write_enabled (trim tool) allowed >>= add_tools write_enabled tools

-- `normalise_tools_allowed`
unfoldable pub normalise_tools_allowed : List Text → Bool → Result ToolRequestError (List Text)
unfolding add_tools add_tool
normalise_tools_allowed requested write_enabled = add_tools write_enabled requested []

pub record ToolCall : Type 0 where
  pub tool : Text
  pub input : Value

pub record ToolExecutionError : Type 0 where
  pub code : String
  pub message : Text

unfoldable pub tool_error : String → Text → ToolExecutionError
tool_error c m = record { code = c; message = m }

-- the guards of `execute_tool_inner`
unfoldable pub admit : Bool → List Text → Text → Result ToolExecutionError (Unit {0})
unfolding tool_error
admit write_enabled allowed tool = do
  refuse_if (not (is_known_tool tool)) (tool_error "unknown_tool" (codes "unknown tool"))
  refuse_if (not (contains_text tool allowed))
      (tool_error "tool_not_allowed" (codes "tool not allowed for this turn"))
  refuse_if (is_write_tool tool && not write_enabled)
      (tool_error "tool_not_allowed" (codes "write/exec tools require --enable-write-tools"))

pub record TotalTokens : Type 0 where
  pub prompt_tokens : ℕ
  pub completion_tokens : ℕ

-- `TotalTokens::zero`
unfoldable pub no_tokens : TotalTokens
no_tokens = record { prompt_tokens = 0; completion_tokens = 0 }

-- `TotalTokens::add`
unfoldable pub add : TotalTokens → TokenUsage → TotalTokens
add t u = record {
  prompt_tokens = saturating_add32 t.prompt_tokens u.prompt_tokens;
  completion_tokens = saturating_add32 t.completion_tokens u.completion_tokens;
}

-- A tool that a turn may use: it is one of the program's, and no write tool unless those are enabled.
pub record IsPermitted (write_enabled : Bool) (tool : Text) : Type 0 where
  pub known : is_known_tool tool ≡ true
  pub writes : is_write_tool tool ≡ true → write_enabled ≡ true

-- What one round adds: nothing for a blank name, and else a tool that is permitted.
add_tool-cases :
    (w : Bool) (tool : Text) (allowed out : List Text)
    → add_tool w tool allowed ≡ ok out
    → ((is_empty tool ≡ true) × (out ≡ allowed))
      ⊎ ((is_empty tool ≡ false) × IsPermitted w tool × (out ≡ set_insert tool allowed))
unfolding add_tool
add_tool-cases w tool allowed out e = ground arith

add_tools-IsPermitted :
    (w : Bool) (tools allowed out : List Text)
    → All (IsPermitted w) allowed
    → add_tools w tools allowed ≡ ok out
    → All (IsPermitted w) out
unfolding add_tools
add_tools-IsPermitted w [] allowed out h e = subst (All (IsPermitted w)) (ok_injective e) h
add_tools-IsPermitted w (tool ∷ tools) allowed out h e =
    let (next, first, more) = >>=-eq-ok (add_tool w (trim tool) allowed) (add_tools w tools) e in
    elim (add_tool-cases w (trim tool) allowed next first) [
      | inl (_, same) ↦ add_tools-IsPermitted w tools next out (subst (All _) (sym same) h) more
      | inr (_, permitted, same) ↦
          add_tools-IsPermitted w tools next out
            (subst (All _) (sym same) (All-set_insert _ (trim tool) allowed permitted h)) more
    ]

-- Every tool of a turn's set is known, and none of them writes unless write tools are enabled.
pub normalise_tools_allowed-IsPermitted :
    (requested : List Text) (w : Bool) (allowed : List Text)
    → normalise_tools_allowed requested w ≡ ok allowed
    → All (IsPermitted w) allowed
unfolding normalise_tools_allowed
normalise_tools_allowed-IsPermitted requested w allowed e =
    add_tools-IsPermitted w requested [] allowed tt e

or_false : (a b : Bool) → a ≡ (a || (b && false))
or_false a b = ground arith

skip_blank :
    (s t : Text) (a b : Bool)
    → is_empty s ≡ true
    → (a || (not (is_empty t) && b)) ≡ (a || (not (is_empty t) && (eq_text s t || b)))
skip_blank s t a b h = ground (arith, eq_text_iff s t)

keep_named :
    (s t : Text) (a b : Bool)
    → is_empty s ≡ false
    → ((eq_text s t || a) || (not (is_empty t) && b))
      ≡ (a || (not (is_empty t) && (eq_text s t || b)))
keep_named s t a b h = ground (arith, eq_text_iff s t)

add_tools-contains_text :
    (w : Bool) (tools allowed out : List Text) (t : Text)
    → add_tools w tools allowed ≡ ok out
    → contains_text t out
      ≡ (contains_text t allowed || (not (is_empty t) && contains_text t (map trim tools)))
unfolding add_tools contains_text
add_tools-contains_text w [] allowed out t e =
    subst (λ o. contains_text t o ≡ (contains_text t allowed || (not (is_empty t) && false)))
      (ok_injective e) (or_false (contains_text t allowed) (not (is_empty t)))
add_tools-contains_text w (tool ∷ tools) allowed out t e =
    let (next, first, more) = >>=-eq-ok (add_tool w (trim tool) allowed) (add_tools w tools) e in
    let later = add_tools-contains_text w tools next out t more in
    elim (add_tool-cases w (trim tool) allowed next first) [
      | inl (blank, same) ↦
          later ∙ rw same (skip_blank (trim tool) t (contains_text t allowed) _ blank)
      | inr (named, permitted, same) ↦
          later
          ∙ rw same (
              rw (contains_text-set_insert t (trim tool) allowed)
                (keep_named (trim tool) t (contains_text t allowed) _ named))
    ]

-- A turn's set holds exactly the names asked for, trimmed, without the blank ones.
pub normalise_tools_allowed-contains_text :
    (requested : List Text) (w : Bool) (allowed : List Text) (t : Text)
    → normalise_tools_allowed requested w ≡ ok allowed
    → contains_text t allowed ≡ (not (is_empty t) && contains_text t (map trim requested))
unfolding normalise_tools_allowed contains_text
normalise_tools_allowed-contains_text requested w allowed t e =
    add_tools-contains_text w requested [] allowed t e

All-contains_text {ℓ} :
    (P : Text → Type ℓ) (t : Text) (ts : List Text) → All P ts → contains_text t ts ≡ true → P t
unfolding contains_text
All-contains_text P t [] h e = absurd (cc)
All-contains_text P t (u ∷ ts) h e = elim (Bool-cases (eq_text u t)) [
  | inl same ↦ subst P ((eq_text_iff u t).0 same) h.0
  | inr apart ↦ All-contains_text P t ts h.1 (rw apart at e)
]

admit-IsPermitted :
    (w : Bool) (allowed : List Text) (tool : Text)
    → IsPermitted w tool
    → contains_text tool allowed ≡ true
    → admit w allowed tool ≡ ok tt
unfolding admit
admit-IsPermitted w allowed tool p c = ground arith

admit-contains_text :
    (w : Bool) (allowed : List Text) (tool : Text)
    → admit w allowed tool ≡ ok tt
    → contains_text tool allowed ≡ true
unfolding admit
admit-contains_text w allowed tool e = ground arith

-- Under the set of a turn, a call of the model is let through exactly when its tool is in the set.
pub admit-normalise_tools_allowed :
    (requested : List Text) (w : Bool) (allowed : List Text) (tool : Text)
    → normalise_tools_allowed requested w ≡ ok allowed
    → (admit w allowed tool ≡ ok tt) ↔ (contains_text tool allowed ≡ true)
admit-normalise_tools_allowed requested w allowed tool e = (
  admit-contains_text w allowed tool,
  λ c.
      admit-IsPermitted w allowed tool
        (All-contains_text (IsPermitted w) tool allowed
          (normalise_tools_allowed-IsPermitted requested w allowed e) c)
        c,
)

-- Whatever the set: a call that is let through is of a known tool, and of no write tool unless those
-- are enabled.
pub admit_sound :
    (w : Bool) (allowed : List Text) (tool : Text)
    → admit w allowed tool ≡ ok tt
    → (is_known_tool tool ≡ true) × ((is_write_tool tool && not w) ≡ false)
unfolding admit
admit_sound w allowed tool e = ground arith
