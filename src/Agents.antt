-- ===== src/Agents.antt =====
-- OpenAIAgentsAdapter (sdk/python/src/memory_core/adapters/openai_agents.py): one turn of an agent
-- between the calls of the memory client.
pub mod Calls
pub mod Turn
use chora_mem.Prelude.{
  ℕ, Bool, true, false, ◌&&◌, ◌||◌, not, List, [], ◌∷◌, Option, none, some, is_empty, ltb,
  if◌then◌else◌,
}
use chora_mem.Text.{Text, codes, strip}
use chora_mem.Text.Unicode.{is_space}
use chora_mem.Result.{Result, ok, err, Error, type_error, value_error, model_error}
use chora_mem.Rendering.{
  MemoryText, MemoryContext, RenderedMemoryContext, Count, natural, other, render_memory_context,
}
use chora_mem.Trace.{done, from, calling, ◌>>=◌}
use chora_mem.Agents.Calls.{
  MemoryScope, Constitution, ObserveRequest, SelectRequest, DeliveryReceipt, SourceEventReceipt,
  RunnerInput, user_only, with_memory, RunnerResult, Call, observe, select_memory, record_delivery,
  run, report, OutcomeRequest, OutcomeReceipt, Runner, MemoryClient, Act,
}

pub record SourceProvenance : Type 0 where
  pub source_ref : Text
  pub actor_kind : ℕ
  pub actor_ref : Text

pub record TurnIdentity : Type 0 where
  pub scope : MemoryScope
  pub run_ref : Text
  pub source_group_ref : Text
  pub situation_idempotency_key : Text
  pub situation : SourceProvenance
  pub delivery_idempotency_key : Text
  pub agent_act_idempotency_key : Text
  pub agent_act : SourceProvenance

pub record TurnResult : Type 0 where
  pub runner_agent : ℕ
  pub runner_result : RunnerResult
  pub memory_context : MemoryContext
  pub situation_receipt : SourceEventReceipt
  pub delivery_receipt : Option Text
  pub agent_act_receipt : SourceEventReceipt

-- the fields of OpenAIAgentsAdapter
pub record Adapter : Type 0 where
  pub memory : MemoryClient
  pub runner : Option Runner
  pub episode_evidence_max_bytes : ℕ
  pub max_tokens : Option Count
  pub token_count : Option (Text → Count)

-- `memory_pb2.MemoryContext()`
abbrev empty_context : MemoryContext
empty_context = record {
  context_ref = [];
  constitution = record { text = []; memory_ref = []; application_scope = 0 };
  recollections = [];
  dispositions = [];
  episode_evidence = [];
}

abbrev is_none : Option Count → Bool
is_none none = true
is_none (some count) = false

abbrev byte_limit_error : Error
byte_limit_error =
    value_error (codes "episode_evidence_max_bytes must be an integer from 0 to 16384")

-- the rest of `__init__`, once the number of bytes is known to be one
unfoldable pub configured :
    MemoryClient → Option Runner → ℕ → Option Count → Option (Text → Count) → Result Adapter
configured memory runner bytes max_tokens token_count =
    elim (render_memory_context empty_context max_tokens token_count) [
      | err e ↦ err e
      | ok rendered ↦
          if ltb 0 bytes && is_none max_tokens
          then err (value_error (codes "episode evidence requires max_tokens and token_count"))
          else ok (record {
            memory = memory;
            runner = runner;
            episode_evidence_max_bytes = bytes;
            max_tokens = max_tokens;
            token_count = token_count;
          })
    ]

-- `OpenAIAgentsAdapter.__init__`
unfoldable pub new_adapter :
    MemoryClient → Option Runner → Count → Option Count → Option (Text → Count) → Result Adapter
unfolding configured
new_adapter memory runner other max_tokens token_count = err byte_limit_error
new_adapter memory runner (natural bytes) max_tokens token_count =
    if ltb 16384 bytes
    then err byte_limit_error
    else configured memory runner bytes max_tokens token_count

abbrev pub role_situation : ℕ
role_situation = 1

abbrev pub role_agent_act : ℕ
role_agent_act = 2

-- `_event_request`, and the Constitution that `run_turn` copies into the first one
abbrev pub event_request :
    Text → TurnIdentity → Text → SourceProvenance → ℕ → Option Constitution → ObserveRequest
event_request idempotency_key identity text source role constitution = record {
  idempotency_key = idempotency_key;
  scope = identity.scope;
  text = text;
  source_ref = source.source_ref;
  actor_kind = source.actor_kind;
  actor_ref = source.actor_ref;
  constitution = constitution;
  run_ref = identity.run_ref;
  source_group_ref = identity.source_group_ref;
  role = role;
}

abbrev pub select_request :
    Adapter → TurnIdentity → SourceEventReceipt → Option Constitution → SelectRequest
select_request adapter identity situation constitution = record {
  scope = identity.scope;
  run_ref = identity.run_ref;
  situation_source_event_refs = situation.source_event_ref ∷ [];
  constitution = constitution;
  episode_evidence_max_bytes = adapter.episode_evidence_max_bytes;
}

abbrev pub delivery_of : TurnIdentity → MemoryContext → RenderedMemoryContext → DeliveryReceipt
delivery_of identity context rendered = record {
  idempotency_key = identity.delivery_idempotency_key;
  scope = identity.scope;
  run_ref = identity.run_ref;
  memory_context_ref = context.context_ref;
  delivered_memory_refs = rendered.memory_refs;
}

-- `if rendered.text:`
abbrev pub runner_input : RenderedMemoryContext → Text → RunnerInput
runner_input rendered user_text =
    if is_empty rendered.text then user_only user_text else with_memory rendered.text user_text

unfoldable pub deliver_memory :
    Adapter → TurnIdentity → MemoryContext → RenderedMemoryContext → Act (Option Text)
deliver_memory adapter identity context rendered =
    let receipt = delivery_of identity context rendered in
    let recorded : Act (Option Text) = (do
      ack ← calling (record_delivery receipt) (λ made. adapter.memory.on_delivery made receipt)
      done (some ack)) in
    if is_empty rendered.text then done none else recorded

abbrev missing_runner : Error
missing_runner =
    model_error (codes "OpenAI Agents adapter requires the 'openai-agents' optional dependency")

-- `_official_runner` is the second argument, `none` where the package is not installed.
abbrev pub chosen_runner : Option Runner → Option Runner → Result Runner
chosen_runner (some runner) official = ok runner
chosen_runner none (some official) = ok official
chosen_runner none none = err missing_runner

abbrev no_output : Error
no_output = type_error (codes "OpenAI Agents adapter requires a non-empty text final_output")

unfoldable pub final_text : RunnerResult → Result Text
unfolding strip is_space
final_text result = elim result.final_output [
  | none ↦ err no_output
  | some text ↦ if is_empty (strip is_space text) then err no_output else ok text
]

-- `run_turn` from `runner = ...` on
unfoldable pub run_agent :
    Adapter
    → Option Runner
    → ℕ
    → RunnerInput
    → TurnIdentity
    → Act (RunnerResult × SourceEventReceipt)
unfolding final_text
run_agent adapter official agent input identity = do
  runner ← from (chosen_runner adapter.runner official)
  result ← calling (run agent input) (λ made. runner made agent input)
  text ← from (final_text result)
  let request =
      event_request identity.agent_act_idempotency_key identity text identity.agent_act
        role_agent_act none
  receipt ← calling (observe request) (λ made. adapter.memory.on_observe made request)
  done (result, receipt)

-- `run_turn`
unfoldable pub run_turn :
    Adapter → Option Runner → ℕ → Text → TurnIdentity → Option Constitution → Act TurnResult
unfolding render_memory_context deliver_memory run_agent
run_turn adapter official agent user_text identity constitution = do
  let request =
      event_request identity.situation_idempotency_key identity user_text identity.situation
        role_situation constitution
  situation ← calling (observe request) (λ made. adapter.memory.on_observe made request)
  let selection = select_request adapter identity situation constitution
  context ← calling (select_memory selection) (λ made. adapter.memory.on_select made selection)
  rendered ← from (render_memory_context context adapter.max_tokens adapter.token_count)
  delivery ← deliver_memory adapter identity context rendered
  acted ← run_agent adapter official agent (runner_input rendered user_text) identity
  done (record {
    runner_agent = agent;
    runner_result = acted.0;
    memory_context = context;
    situation_receipt = situation;
    delivery_receipt = delivery;
    agent_act_receipt = acted.1;
  })

pub record OutcomeIdentity : Type 0 where
  pub scope : MemoryScope
  pub run_ref : Text
  pub source_group_ref : Text
  pub idempotency_key : Text
  pub source : SourceProvenance

-- `report_outcome`
unfoldable pub report_outcome :
    Adapter
    → Text
    → OutcomeIdentity
    → List Text
    → List Text
    → Option Constitution
    → Act OutcomeReceipt
report_outcome adapter text identity delivery_refs related_refs constitution =
    let request : OutcomeRequest = record {
      idempotency_key = identity.idempotency_key;
      scope = identity.scope;
      run_ref = identity.run_ref;
      source_group_ref = identity.source_group_ref;
      text = text;
      delivery_receipt_refs = delivery_refs;
      related_source_event_refs = related_refs;
      source_ref = identity.source.source_ref;
      actor_kind = identity.source.actor_kind;
      actor_ref = identity.source.actor_ref;
      constitution = constitution;
    } in
    calling (report request) (λ made. adapter.memory.on_report made request)
