-- ===== src/Agents/Calls.antt =====
-- The calls that the OpenAI Agents adapter makes
-- (sdk/python/src/memory_core/adapters/openai_agents.py): of the memory client and of the runner.
-- Both are parameters, so the state is the list of the calls made, in order.
use chora_mem.Prelude.{ℕ, List, Option}
use chora_mem.Text.{Text}
use chora_mem.Trace.{Reply, Traced}
use chora_mem.Rendering.{MemoryContext}

-- the messages of api/memory/v1/memory.proto, as the adapter fills and reads them
pub record MemoryScope : Type 0 where
  pub tenant_ref : Text
  pub agent_ref : Text
  pub relationship_ref : Text
  pub session_ref : Text
  pub kind : ℕ

pub record Constitution : Type 0 where
  pub memory_ref : Text
  pub text : Text

pub record ObserveRequest : Type 0 where
  pub idempotency_key : Text
  pub scope : MemoryScope
  pub text : Text
  pub source_ref : Text
  pub actor_kind : ℕ
  pub actor_ref : Text
  pub constitution : Option Constitution
  pub run_ref : Text
  pub source_group_ref : Text
  pub role : ℕ

pub record SelectRequest : Type 0 where
  pub scope : MemoryScope
  pub run_ref : Text
  pub situation_source_event_refs : List Text
  pub constitution : Option Constitution
  pub episode_evidence_max_bytes : ℕ

pub record DeliveryReceipt : Type 0 where
  pub idempotency_key : Text
  pub scope : MemoryScope
  pub run_ref : Text
  pub memory_context_ref : Text
  pub delivered_memory_refs : List Text

pub record OutcomeRequest : Type 0 where
  pub idempotency_key : Text
  pub scope : MemoryScope
  pub run_ref : Text
  pub source_group_ref : Text
  pub text : Text
  pub delivery_receipt_refs : List Text
  pub related_source_event_refs : List Text
  pub source_ref : Text
  pub actor_kind : ℕ
  pub actor_ref : Text
  pub constitution : Option Constitution

pub record OutcomeReceipt : Type 0 where
  pub outcome_event_ref : Text
  pub episode_ref : Text

pub record SourceEventReceipt : Type 0 where
  pub source_event_ref : Text
  pub episode_ref : Text

-- What the runner is given: the user's text, with a developer's message in front or alone.
pub data RunnerInput : Type 0 where
  user_only : Text → RunnerInput
  with_memory : Text → Text → RunnerInput

-- `final_output`, if it is a `str`
pub record RunnerResult : Type 0 where
  pub final_output : Option Text

pub data Call : Type 0 where
  observe : ObserveRequest → Call
  select_memory : SelectRequest → Call
  record_delivery : DeliveryReceipt → Call
  run : ℕ → RunnerInput → Call
  report : OutcomeRequest → Call

-- What answers a call, from the calls made before it. An agent is known by its identity.
abbrev pub Runner : Type 0
Runner = List Call → ℕ → RunnerInput → Reply RunnerResult

pub record MemoryClient : Type 0 where
  pub on_observe : List Call → ObserveRequest → Reply SourceEventReceipt
  pub on_select : List Call → SelectRequest → Reply MemoryContext
  -- `receipt_ref` of the acknowledgement
  pub on_delivery : List Call → DeliveryReceipt → Reply Text
  pub on_report : List Call → OutcomeRequest → Reply OutcomeReceipt

abbrev pub Act : Type 0 → Type 0
Act A = Traced Call A
