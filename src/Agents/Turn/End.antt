-- ===== src/Agents/Turn/End.antt =====
-- The second half of a turn, behind the rendering (openai_agents.py).
use mathlib.Core.Path.{subst}
use mathlib.Core.List.{append-nil, append_assoc}
use chora_mem.Prelude.{
  ℕ, Bool, true, false, List, [], ◌∷◌, ◌++◌, Option, none, some, is_empty, Option-cases,
  if◌then◌else◌, ◌≡◌, refl, sym, ap, ◌∙◌, arith, inl, inr,
}
use chora_mem.Text.{Text}
use chora_mem.Result.{Result, ok, err}
use chora_mem.Rendering.{MemoryContext, RenderedMemoryContext}
use chora_mem.Trace.{done, calling, from, answer, bind-eq-done, and_then, Reply, ◌>>=◌}
use chora_mem.Agents.Calls.{
  SourceEventReceipt, RunnerInput, RunnerResult, Call, observe, record_delivery, run, Runner, Act,
}
use chora_mem.Agents.{
  Adapter, TurnIdentity, TurnResult, event_request, delivery_of, runner_input, role_agent_act,
  deliver_memory, chosen_runner, final_text, run_agent,
}

-- the record of the delivery, if there is text to deliver
abbrev pub deliveries : TurnIdentity → MemoryContext → RenderedMemoryContext → List Call
deliveries identity context rendered =
    if is_empty rendered.text
    then []
    else record_delivery (delivery_of identity context rendered) ∷ []

abbrev pub agent_calls : ℕ → RunnerInput → TurnIdentity → Text → List Call
agent_calls agent input identity output =
    run agent input
    ∷ observe (
        event_request identity.agent_act_idempotency_key identity output identity.agent_act
          role_agent_act none)
    ∷ []

ok-eq : {A : Type 0} {a b : A} → ok a ≡ ok b → a ≡ b
ok-eq h = cc h

and_then-done :
    (r : Result Text) (made : List Call) → (and_then r (λ ack. done (some ack)) made).1 ≡ made
and_then-done (ok ack) made = refl
and_then-done (err e) made = refl

calls_if :
    (none_due : Bool) (c : Call) (reply : List Call → Reply Text) (made : List Call)
    → ((if none_due then done none else (calling c reply >>= λ ack. done (some ack))) made).1
      ≡ made ++ (if none_due then [] else c ∷ [])
calls_if true c reply made = sym (append-nil made)
calls_if false c reply made = and_then-done (answer (reply made)) (made ++ c ∷ [])

deliver_memory-calls :
    (adapter : Adapter) (identity : TurnIdentity) (context : MemoryContext)
    (rendered : RenderedMemoryContext) (made : List Call)
    → (deliver_memory adapter identity context rendered made).1
      ≡ made ++ deliveries identity context rendered
unfolding deliver_memory
deliver_memory-calls adapter identity context rendered made =
    calls_if (is_empty rendered.text) (record_delivery (delivery_of identity context rendered)) _
      made

final_text-output :
    (result : RunnerResult) {text : Text}
    → final_text result ≡ ok text
    → result.final_output ≡ some text
unfolding final_text
final_text-output result h = elim (Option-cases result.final_output) [
  | inl missing ↦ ground (arith, missing, h)
  | inr (text, found) ↦ ground (arith, found, h)
]

run_agent-calls :
    (adapter : Adapter) (official : Option Runner) (agent : ℕ) (input : RunnerInput)
    (identity : TurnIdentity) (made : List Call) {acted : RunnerResult × SourceEventReceipt}
    {after : List Call}
    → run_agent adapter official agent input identity made ≡ (ok acted, after)
    → (output : Text) × (acted.0.final_output ≡ some output)
      × (after ≡ made ++ agent_calls agent input identity output)
unfolding run_agent
run_agent-calls adapter official agent input identity made h =
    let (runner, _, h1) = bind-eq-done (from (chosen_runner adapter.runner official)) _ made h in
    let (result, _, h2) =
      bind-eq-done (calling (run agent input) (λ m. runner m agent input)) _ made h1 in
    let (output, text, h3) = bind-eq-done (from (final_text result)) _ _ h2 in
    let request =
      event_request identity.agent_act_idempotency_key identity output identity.agent_act
        role_agent_act none in
    let (receipt, _, h4) =
      bind-eq-done (calling (observe request) (λ m. adapter.memory.on_observe m request)) _ _ h3 in
    (
      output,
      subst (λ a. a.0.final_output ≡ some output) (ok-eq (ap (λ p. p.0) h4))
          (final_text-output result text),
      sym (ap (λ p. p.1) h4) ∙ append_assoc made (run agent input ∷ []) (observe request ∷ []),
    )

-- What follows the rendering.
abbrev pub turn_end :
    Adapter
    → Option Runner
    → ℕ
    → Text
    → TurnIdentity
    → SourceEventReceipt
    → MemoryContext
    → RenderedMemoryContext
    → Act TurnResult
turn_end adapter official agent user_text identity situation context rendered = do
  delivery ← deliver_memory adapter identity context rendered
  acted ← run_agent adapter official agent (runner_input rendered user_text) identity
  done (record {
    runner_agent = agent;
    runner_result = acted.0;
    memory_context = context;
    situation_receipt = situation;
    delivery_receipt = delivery;
    agent_act_receipt = acted.1;
  })

pub record IsEnd (agent : ℕ) (user_text : Text) (identity : TurnIdentity)
    (situation : SourceEventReceipt) (context : MemoryContext) (rendered : RenderedMemoryContext)
    (made : List Call) (result : TurnResult) (after : List Call) : Type 0 where
  pub output : Text
  pub output_eq : result.runner_result.final_output ≡ some output
  pub context_eq : result.memory_context ≡ context
  pub situation_eq : result.situation_receipt ≡ situation
  pub calls :
      after
      ≡ made
        ++ (deliveries identity context rendered
            ++ agent_calls agent (runner_input rendered user_text) identity output)

pub turn_end-IsEnd :
    (adapter : Adapter) (official : Option Runner) (agent : ℕ) (user_text : Text)
    (identity : TurnIdentity) (situation : SourceEventReceipt) (context : MemoryContext)
    (rendered : RenderedMemoryContext) (made : List Call) {result : TurnResult} {after : List Call}
    → turn_end adapter official agent user_text identity situation context rendered made
      ≡ (ok result, after)
    → IsEnd agent user_text identity situation context rendered made result after
turn_end-IsEnd adapter official agent user_text identity situation context rendered made h =
    let (delivery, _, h1) =
      bind-eq-done (deliver_memory adapter identity context rendered) _ made h in
    let (acted, acts, h2) =
      bind-eq-done (run_agent adapter official agent (runner_input rendered user_text) identity) _ _
        h1 in
    let (output, found, calls) =
      run_agent-calls adapter official agent (runner_input rendered user_text) identity _ (
        ap
          (λ r. (
            r,
            (run_agent adapter official agent (runner_input rendered user_text) identity
                (deliver_memory adapter identity context rendered made).1).1,
          ))
          acts) in
    let same = ok-eq (ap (λ p. p.0) h2) in
    record {
      output = output;
      output_eq = subst (λ r. r.runner_result.final_output ≡ some output) same found;
      context_eq = sym (ap (λ r. r.memory_context) same);
      situation_eq = sym (ap (λ r. r.situation_receipt) same);
      calls =
          sym (ap (λ p. p.1) h2)
          ∙ (calls
              ∙ (ap (λ m. m ++ agent_calls agent (runner_input rendered user_text) identity output)
                    (deliver_memory-calls adapter identity context rendered made)
                  ∙ append_assoc made (deliveries identity context rendered) _));
    }
