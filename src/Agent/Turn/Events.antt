-- ===== src/Agent/Turn/Events.antt =====
-- The events of an agent turn, in crates/studio-server/src/routes/agent_turn.rs.
use mathlib.Core.List.{append_assoc}
use mathlib.Core.Path.{subst}
use cobrust_studio.Base.{
  ℕ, zero, suc, ◌+◌, ◌≤◌, Bool, true, false, List, [], ◌∷◌, ◌++◌, ◌≡◌, ◌⊎◌, inl, inr, refl, sym, ap,
  ◌∙◌, arith, All, All-append, Text, Result-cases,
}
use cobrust_studio.Host.{FilePath}
use cobrust_studio.Agent.Policy.{ToolCall, TotalTokens, add}
use cobrust_studio.Agent.Directive.{
  Outcome, returns, panics, final, tool_use, Reader, parse_agent_directive,
}
use cobrust_studio.Agent.System.{System, World}
use cobrust_studio.Agent.Execute.{ToolExecution, execute_tool}
use cobrust_studio.Agent.Turn.{
  Event, iteration_event, tool_call_event, tool_result_event, done_event, error_event, Services,
  TurnState, LoopRequest, with_call, with_events, execute_calls, rounds, run_loop, with_results,
  completion_of, iteration_tag,
}

abbrev pub is_end : Event → Bool
is_end (iteration_event n d a) = false
is_end (tool_call_event n c) = false
is_end (tool_result_event n x) = false
is_end (done_event t n u tag) = true
is_end (error_event e) = true

-- the iterations among some events
abbrev pub iterations : List Event → ℕ
iterations [] = 0
iterations (iteration_event n d a ∷ es) = suc (iterations es)
iterations (tool_call_event n c ∷ es) = iterations es
iterations (tool_result_event n x ∷ es) = iterations es
iterations (done_event t n u tag ∷ es) = iterations es
iterations (error_event e ∷ es) = iterations es

-- Events of a turn with at most `limit` iterations: the last one, and no other, ends the turn.
pub record IsTurn (limit : ℕ) (events : List Event) : Type 0 where
  pub body : List Event
  pub last : Event
  pub splits : events ≡ body ++ last ∷ []
  pub goes_on : All (λ e. is_end e ≡ false) body
  pub ends : is_end last ≡ true
  pub bounded : iterations body ≤ limit

-- Events of the calls of tools.
pub record IsCalls (es : List Event) : Type 0 where
  pub goes_on : All (λ e. is_end e ≡ false) es
  pub none_new : (fs : List Event) → iterations (es ++ fs) ≡ iterations fs

IsCalls-IsTurn :
    (limit : ℕ) (e : Event) (es later : List Event)
    → is_end e ≡ false
    → ((fs : List Event) → iterations (e ∷ fs) ≡ suc (iterations fs))
    → IsCalls es
    → IsTurn limit later
    → IsTurn (suc limit) (e ∷ es ++ later)
IsCalls-IsTurn limit e es later h one c t = record {
  body = e ∷ es ++ t.body;
  last = t.last;
  splits = ap (λ x. e ∷ es ++ x) t.splits ∙ ap (◌∷◌ e) (sym (append_assoc es t.body _));
  goes_on = (h, All-append _ es t.body c.goes_on t.goes_on);
  ends = t.ends;
  bounded = omega (arith, one (es ++ t.body), c.none_new t.body, t.bounded);
}

Outcome-cases {ℓ} : {A : Type ℓ} (o : Outcome A) → ((a : A) × (o ≡ returns a)) ⊎ (o ≡ panics)
Outcome-cases (returns a) = inl (a, refl)
Outcome-cases panics = inr refl

returned {ℓ} : {A : Type ℓ} {a b : A} → returns a ≡ returns b → a ≡ b
returned h = cc

module _ (services : Services) (sys : System) (reader : Reader) (root : FilePath) (w : Bool) where
  execute_calls-IsCalls :
      (allowed : List Text) (n : ℕ) (calls : List ToolCall) (world : World sys)
      (xs : List ToolExecution) (es : List Event)
      → (execute_calls services sys reader root w allowed n calls world).0 ≡ returns (xs, es)
      → IsCalls es
  unfolding execute_calls with_call
  execute_calls-IsCalls allowed n [] world xs es h =
      subst IsCalls (ap (λ p. p.1) (returned h)) (record { goes_on = tt; none_new = λ fs. refl })
  execute_calls-IsCalls allowed n (call ∷ calls) world xs es h =
      let first = execute_tool sys root w allowed call world in
      elim (Outcome-cases first.0) [
        | inr bad ↦ absurd (cc (rw (bad, execute_calls) at h))
        | inl (x, fine) ↦
            let rest = execute_calls services sys reader root w allowed n calls first.1 in
            elim (Outcome-cases rest.0) [
              | inr bad ↦ absurd (cc (rw (fine, bad, execute_calls) at h))
              | inl ((ys, fs), done) ↦
                  let c = execute_calls-IsCalls allowed n calls first.1 ys fs done in
                  subst IsCalls (ap (λ p. p.1) (returned (rw (fine, done, execute_calls) at h)))
                    (record { goes_on = (refl, (refl, c.goes_on)); none_new = λ gs. c.none_new gs })
            ]
      ]

  rounds-IsTurn :
      (left n : ℕ) (req : LoopRequest) (totals : TotalTokens) (s : TurnState services sys)
      (es : List Event)
      → (rounds services sys reader root w left n req totals s).0 ≡ returns es
      → IsTurn left es
  unfolding rounds with_events
  rounds-IsTurn zero n req totals s es h = subst (IsTurn 0) (returned h) (record {
    body = [];
    last = _;
    splits = refl;
    goes_on = tt;
    ends = refl;
    bounded = omega arith;
  })
  rounds-IsTurn (suc left) n req totals s es h =
      let sent =
        services.dispatch (completion_of services sys reader root w req)
          (iteration_tag services sys reader root w req.task_tag n) s.routing in
      elim (Result-cases sent.0) [
        | inr (e, bad) ↦ subst (IsTurn (suc left)) (returned (rw (bad, rounds) at h)) (record {
          body = [];
          last = _;
          splits = refl;
          goes_on = tt;
          ends = refl;
          bounded = omega arith;
        })
        | inl (d, fine) ↦ elim (Outcome-cases (parse_agent_directive reader d.response.text)) [
          | inr bad ↦ absurd (cc (rw (fine, bad, rounds) at h))
          | inl (final text, said) ↦
              subst (IsTurn (suc left)) (returned (rw (fine, said, rounds) at h)) (record {
                body = _ ∷ [];
                last = _;
                splits = refl;
                goes_on = (refl, tt);
                ends = refl;
                bounded = omega arith;
              })
          | inl (tool_use calls, said) ↦
              let ran =
                execute_calls services sys reader root w req.tools_allowed n calls s.world in
              elim (Outcome-cases ran.0) [
                | inr bad ↦ absurd (cc (rw (fine, said, bad, rounds) at h))
                | inl ((xs, fs), done) ↦
                    let next =
                      rounds services sys reader root w left (n + 1)
                        (with_results services sys reader root w req d.response.text xs)
                        (add totals d.response.usage)
                        (record { routing = sent.1; world = ran.1 }) in
                    elim (Outcome-cases next.0) [
                      | inr bad ↦ absurd (cc (rw (fine, said, done, bad, rounds) at h))
                      | inl (later, after) ↦
                          subst (IsTurn (suc left))
                            (returned (rw (fine, said, done, after, rounds) at h))
                            (IsCalls-IsTurn left (iteration_event n d (tool_use calls)) fs later
                              refl (λ gs. refl)
                              (execute_calls-IsCalls req.tools_allowed n calls s.world xs fs done)
                              (rounds-IsTurn left (n + 1) _ _ _ later after))
                    ]
              ]
        ]
      ]

  -- A turn that does not panic sends one event that ends it, the last one, and has at most
  -- `max_iterations` iterations.
  pub run_loop-IsTurn :
      (req : LoopRequest) (s : TurnState services sys) (es : List Event)
      → (run_loop services sys reader root w req s).0 ≡ returns es
      → IsTurn req.max_iterations es
  unfolding run_loop
  run_loop-IsTurn req s es h = rounds-IsTurn req.max_iterations 0 req _ s es h
