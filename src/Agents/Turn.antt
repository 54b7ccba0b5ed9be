-- ===== src/Agents/Turn.antt =====
-- The order of the calls in a turn (openai_agents.py).
pub mod End
use mathlib.Core.Path.{subst}
use mathlib.Core.List.{append-nil, append_assoc}
use chora_mem.Prelude.{
  ℕ, Bool, true, false, List, [], ◌∷◌, ◌++◌, Option, none, some, is_empty, Bool-cases, Option-cases,
  if◌then◌else◌, ◌≡◌, refl, sym, ap, ◌∙◌, arith, inl, inr,
}
use chora_mem.Text.{Text, strip}
use chora_mem.Text.Unicode.{is_space}
use chora_mem.Result.{Result, ok, err}
use chora_mem.Rendering.{MemoryContext, RenderedMemoryContext, render_memory_context}
use chora_mem.Trace.{done, calling, from, answer, bind-eq-done, and_then, Reply, ◌>>=◌}
use chora_mem.Agents.Calls.{
  Constitution, SourceEventReceipt, RunnerInput, RunnerResult, Call, observe, select_memory,
  record_delivery, run, Runner, Act,
}
use chora_mem.Agents.{
  Adapter, TurnIdentity, TurnResult, event_request, select_request, delivery_of, runner_input,
  role_situation, role_agent_act, deliver_memory, chosen_runner, final_text, run_agent, run_turn,
}
use chora_mem.Agents.Turn.End.{deliveries, agent_calls, turn_end, IsEnd, turn_end-IsEnd}

abbrev pub situation_calls :
    Adapter → TurnIdentity → Text → Option Constitution → SourceEventReceipt → List Call
situation_calls adapter identity user_text constitution situation =
    observe (
      event_request identity.situation_idempotency_key identity user_text identity.situation
        role_situation constitution)
    ∷ select_memory (select_request adapter identity situation constitution)
    ∷ []

-- What a turn that has returned has done, after the calls in `made`.
pub record IsTurn (adapter : Adapter) (agent : ℕ) (user_text : Text) (identity : TurnIdentity)
    (constitution : Option Constitution) (made : List Call) (result : TurnResult)
    (after : List Call) : Type 0 where
  pub rendered : RenderedMemoryContext
  pub rendering :
      render_memory_context result.memory_context adapter.max_tokens adapter.token_count
      ≡ ok rendered
  pub output : Text
  pub output_eq : result.runner_result.final_output ≡ some output
  pub calls :
      after
      ≡ made
        ++ (situation_calls adapter identity user_text constitution result.situation_receipt
            ++ (deliveries identity result.memory_context rendered
                ++ agent_calls agent (runner_input rendered user_text) identity output))

IsEnd-IsTurn :
    (adapter : Adapter) (agent : ℕ) (user_text : Text) (identity : TurnIdentity)
    (constitution : Option Constitution) (situation : SourceEventReceipt) (context : MemoryContext)
    (rendered : RenderedMemoryContext) (made : List Call) (observed selected : Call)
    {result : TurnResult} {after : List Call}
    → situation_calls adapter identity user_text constitution situation ≡ observed ∷ selected ∷ []
    → render_memory_context context adapter.max_tokens adapter.token_count ≡ ok rendered
    → IsEnd agent user_text identity situation context rendered
        ((made ++ observed ∷ []) ++ selected ∷ [])
        result
        after
    → IsTurn adapter agent user_text identity constitution made result after
IsEnd-IsTurn adapter agent user_text identity constitution situation context rendered made observed
      selected {result} {after} first rendering e =
    let start_of : SourceEventReceipt → List Call =
      λ s. situation_calls adapter identity user_text constitution s in
    let end_of : MemoryContext → List Call = λ c.
      deliveries identity c rendered
      ++ agent_calls agent (runner_input rendered user_text) identity e.output in
    record {
      rendered = rendered;
      rendering =
          subst (λ c. render_memory_context c adapter.max_tokens adapter.token_count ≡ ok rendered)
            (sym e.context_eq) rendering;
      output = e.output;
      output_eq = e.output_eq;
      calls =
          e.calls
          ∙ (append_assoc (made ++ observed ∷ []) (selected ∷ []) _
              ∙ (append_assoc made (observed ∷ []) _
                  ∙ (ap (λ calls. made ++ (calls ++ end_of context)) (sym first)
                      ∙ (ap (λ s. made ++ (start_of s ++ end_of context)) (sym e.situation_eq)
                          ∙ ap (λ c. made ++ (start_of result.situation_receipt ++ end_of c))
                              (sym e.context_eq)))));
    }

selected-IsTurn :
    (adapter : Adapter) (official : Option Runner) (agent : ℕ) (user_text : Text)
    (identity : TurnIdentity) (constitution : Option Constitution) (situation : SourceEventReceipt)
    (made : List Call) {result : TurnResult} {after : List Call}
    → (do
      let selection = select_request adapter identity situation constitution
      context ← calling (select_memory selection) (λ made. adapter.memory.on_select made selection)
      rendered ← from (render_memory_context context adapter.max_tokens adapter.token_count)
      turn_end adapter official agent user_text identity situation context rendered)
        (made
          ++ observe (
              event_request identity.situation_idempotency_key identity user_text identity.situation
                role_situation constitution)
            ∷ [])
      ≡ (ok result, after)
    → IsTurn adapter agent user_text identity constitution made result after
selected-IsTurn adapter official agent user_text identity constitution situation made h =
    let selection = select_request adapter identity situation constitution in
    let (context, _, h2) =
      bind-eq-done (calling (select_memory selection) (λ m. adapter.memory.on_select m selection)) _
        _ h in
    let (rendered, rendering, h3) =
      bind-eq-done (from (render_memory_context context adapter.max_tokens adapter.token_count)) _ _
        h2 in
    IsEnd-IsTurn adapter agent user_text identity constitution situation context rendered made
      (observe (
        event_request identity.situation_idempotency_key identity user_text identity.situation
          role_situation constitution))
      (select_memory selection) refl rendering
      (turn_end-IsEnd adapter official agent user_text identity situation context rendered _ h3)

-- A turn that returns has made these calls and no other, in this order: it observed the user's
-- text, selected memory for it, recorded the delivery of exactly the refs rendered if there is any
-- text to deliver, ran the agent once, with that text in front if there is any, and observed what
-- the agent answered. So the agent sees no memory whose delivery is not recorded.
pub run_turn-IsTurn :
    (adapter : Adapter) (official : Option Runner) (agent : ℕ) (user_text : Text)
    (identity : TurnIdentity) (constitution : Option Constitution) (made : List Call)
    (result : TurnResult) (after : List Call)
    → run_turn adapter official agent user_text identity constitution made ≡ (ok result, after)
    → IsTurn adapter agent user_text identity constitution made result after
unfolding run_turn
run_turn-IsTurn adapter official agent user_text identity constitution made result after h =
    let request =
      event_request identity.situation_idempotency_key identity user_text identity.situation
        role_situation constitution in
    let (situation, _, h1) =
      bind-eq-done (calling (observe request) (λ m. adapter.memory.on_observe m request)) _ made
        h in
    selected-IsTurn adapter official agent user_text identity constitution situation made h1
