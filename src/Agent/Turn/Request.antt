-- ===== src/Agent/Turn/Request.antt =====
-- What the check of a request in crates/studio-server/src/routes/agent_turn.rs lets through.
use cobrust_studio.Base.{
  ◌≤◌, Bool, false, ◌||◌, Option, none, some, List, ◌≡◌, arith, Text, any, is_control, is_empty,
  len, ltb, All, Result, ok, err, >>=-eq-ok, >>-eq-ok, ok_injective, map_err, refuse_if, trim, ◌==◌,
}
use mathlib.Core.Path.{subst}
use cobrust_studio.Agent.Policy.{
  IsPermitted, normalise_tools_allowed, normalise_tools_allowed-IsPermitted, request_code,
}
use cobrust_studio.Agent.Turn.{
  AgentTurnRequest, LoopRequest, validate_task_tag, validate_request, parse_messages,
}

-- A tag that the ledger can take: no tag, or one of 1 to 256 bytes without control characters.
abbrev pub IsTaskTag : Option Text → Type 0
IsTaskTag none = Unit
IsTaskTag (some tag) = (is_empty tag ≡ false) × (len tag ≤ 256) × (any is_control tag ≡ false)

validate_task_tag-IsTaskTag :
    (tag out : Option Text) → validate_task_tag tag ≡ ok out → IsTaskTag out
unfolding validate_task_tag
validate_task_tag-IsTaskTag none none h = tt
validate_task_tag-IsTaskTag none (some t) h = absurd (cc)
validate_task_tag-IsTaskTag (some tag) none h = tt
validate_task_tag-IsTaskTag (some tag) (some t) h = ground arith

map_err-eq-ok :
    {E F A : Type 0} (f : E → F) (x : Result E A) {a : A} → map_err f x ≡ ok a → x ≡ ok a
map_err-eq-ok f (ok b) e = cc
map_err-eq-ok f (err b) e = absurd (cc e)

-- The request of a loop: 1 to 16 iterations, a tag that the ledger can take, and permitted tools.
pub record IsBounded (w : Bool) (r : LoopRequest) : Type 0 where
  pub some_iteration : 1 ≤ r.max_iterations
  pub iterations : r.max_iterations ≤ 16
  pub tag : IsTaskTag r.task_tag
  pub tools : All (IsPermitted w) r.tools_allowed

-- A request that the check lets through runs 1 to 16 iterations, its tag is missing or has 1 to 256 bytes
-- without a control character, and each of its tools is known and writes only if write tools are
-- enabled.
pub validate_request-IsBounded :
    (protocol : List Text → Text) (w : Bool) (req : AgentTurnRequest) (r : LoopRequest)
    → validate_request protocol w req ≡ ok r
    → IsBounded w r
unfolding validate_request
validate_request-IsBounded protocol w req r h =
    let (_, h1) = >>-eq-ok (refuse_if (is_empty (trim req.model)) "invalid_body") _ h in
    let (_, h2) = >>-eq-ok (refuse_if (is_empty req.messages) "invalid_body") _ h1 in
    let (count, h3) =
      >>-eq-ok (refuse_if (req.max_iterations == 0 || ltb 16 req.max_iterations) "invalid_body") _
        h2 in
    let (tools, permitted, h4) =
      >>=-eq-ok (map_err request_code (normalise_tools_allowed req.tools_allowed w)) _ h3 in
    let (tag, tagged, h5) = >>=-eq-ok (validate_task_tag req.task_tag) _ h4 in
    let (messages, parsed, last) = >>=-eq-ok (parse_messages req.messages) _ h5 in
    subst (IsBounded w) (ok_injective last) (record {
      some_iteration = ground arith;
      iterations = ground arith;
      tag = validate_task_tag-IsTaskTag req.task_tag tag tagged;
      tools =
          normalise_tools_allowed-IsPermitted req.tools_allowed w tools
            (map_err-eq-ok request_code _ permitted);
    })
