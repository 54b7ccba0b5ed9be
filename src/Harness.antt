-- ===== src/Harness.antt =====
-- ReferenceHarness (eval/python/src/memory_core_eval/reference.py): one run of a scenario in one of
-- four modes. The memory, the model and the settling call are parameters.
pub mod Rag
pub mod Run
pub mod Memory
pub mod Isolation
pub mod Scopes
use chora_mem.Prelude.{
  ℕ, suc, ◌+◌, Bool, true, false, ◌&&◌, not, List, [], ◌∷◌, ◌++◌, Option, none, some, is_empty,
  length, nat_eq, list_eq, ◌==◌, if◌then◌else◌,
}
use chora_mem.Text.{Text, codes, strip, join}
use chora_mem.Text.Unicode.{is_space}
use chora_mem.Result.{Result, ok, err, Error, model_error}
use chora_mem.Trace.{Reply, Traced, done, from, calling, ◌>>=◌}
use chora_mem.Agents.Calls.{
  MemoryScope, Constitution, ObserveRequest, SelectRequest, DeliveryReceipt, OutcomeRequest,
  SourceEventReceipt,
}
use chora_mem.Rendering.{MemoryContext, RenderedMemoryContext, render_memory_context}
use Rag.{HistoricalTurn, Alphabet, render_episode_rag}

pub data EvalMode : Type 0 where
  no_memory_mode : EvalMode
  episode_rag : EvalMode
  recollection_only : EvalMode
  full_core : EvalMode

abbrev pub mode_text : EvalMode → Text
mode_text no_memory_mode = codes "none"
mode_text episode_rag = codes "episode_rag"
mode_text recollection_only = codes "recollection_only"
mode_text full_core = codes "full_core"

abbrev pub uses_memory : EvalMode → Bool
uses_memory recollection_only = true
uses_memory full_core = true
uses_memory _ = false

pub record Scenario : Type 0 where
  pub scenario_ref : Text
  pub history : List HistoricalTurn
  pub query : Text
  pub expected_output : Text
  pub query_outcome : Option Text

-- the fields of HarnessProfile that a run reads
pub record HarnessProfile : Type 0 where
  pub evaluation_ref : Text
  pub harness : Text
  pub instructions : Text
  pub tenant_ref : Text
  pub agent_ref : Text
  pub relationship_ref : Text
  pub user_ref : Text
  pub constitution : Constitution
  pub max_output_tokens : ℕ
  pub episode_rag_top_k : ℕ

pub data HarnessCall : Type 0 where
  observing : ObserveRequest → HarnessCall
  selecting : SelectRequest → HarnessCall
  delivering : DeliveryReceipt → HarnessCall
  reporting : OutcomeRequest → HarnessCall
  settling : HarnessCall
  completing : Text → Text → ℕ → HarnessCall

pub record HarnessMemory : Type 0 where
  pub on_observe : List HarnessCall → ObserveRequest → Reply SourceEventReceipt
  pub on_select : List HarnessCall → SelectRequest → Reply MemoryContext
  pub on_delivery : List HarnessCall → DeliveryReceipt → Reply Text
  pub on_report : List HarnessCall → OutcomeRequest → Reply Text

-- The model gives a `str` or something else.
pub record Harness : Type 0 where
  pub memory : Option HarnessMemory
  pub on_complete : List HarnessCall → Text → Text → Reply (Option Text)
  pub on_settle : List HarnessCall → Reply (Unit {0})
  pub profile : HarnessProfile
  pub alphabet : Alphabet
  -- `str` of a number
  pub decimal : ℕ → Text

-- `_identity`
abbrev pub identity : HarnessProfile → EvalMode → Scenario → Text → Text → Text
identity profile mode scenario turn_ref kind = join (codes ":") (
    codes "eval"
    ∷ profile.evaluation_ref
    ∷ profile.harness
    ∷ scenario.scenario_ref
    ∷ mode_text mode
    ∷ turn_ref
    ∷ kind
    ∷ [])

-- `_scope`
unfoldable pub isolated_scope : HarnessProfile → EvalMode → Scenario → MemoryScope
isolated_scope profile mode scenario = record {
  tenant_ref = profile.tenant_ref;
  agent_ref = profile.agent_ref;
  relationship_ref = join (codes ":") (
      profile.relationship_ref
      ∷ profile.evaluation_ref
      ∷ profile.harness
      ∷ scenario.scenario_ref
      ∷ mode_text mode
      ∷ []);
  session_ref = identity profile mode scenario (codes "session") (codes "scope");
  kind = 2;
}

-- `_render_core_context`
abbrev pub core_context : EvalMode → MemoryContext → MemoryContext
core_context full_core context = context
core_context _ context = record context { dispositions = []; episode_evidence = [] }

module _ (harness : Harness) (mode : EvalMode) (scenario : Scenario) where
  abbrev pub observe_request : Text → Text → ℕ → Text → ℕ → Text → ObserveRequest
  observe_request turn_ref role_name role text actor_kind actor_ref = record {
    idempotency_key =
        identity harness.profile mode scenario turn_ref (codes "observe-" ++ role_name);
    scope = isolated_scope harness.profile mode scenario;
    text = text;
    source_ref = identity harness.profile mode scenario turn_ref role_name;
    actor_kind = actor_kind;
    actor_ref = actor_ref;
    constitution = none;
    run_ref = identity harness.profile mode scenario turn_ref (codes "run");
    source_group_ref = identity harness.profile mode scenario turn_ref (codes "source-group");
    role = role;
  }

  abbrev pub situation_request : Text → Text → ObserveRequest
  situation_request turn_ref text =
      observe_request turn_ref (codes "situation") 1 text 1 harness.profile.user_ref

  abbrev pub agent_request : Text → Text → ObserveRequest
  agent_request turn_ref text =
      observe_request turn_ref (codes "agent-act") 2 text 2 harness.profile.agent_ref

  abbrev pub report_request : Text → Text → List Text → List Text → OutcomeRequest
  report_request turn_ref text delivery_refs related = record {
    idempotency_key = identity harness.profile mode scenario turn_ref (codes "report-outcome");
    scope = isolated_scope harness.profile mode scenario;
    run_ref = identity harness.profile mode scenario turn_ref (codes "run");
    source_group_ref = identity harness.profile mode scenario turn_ref (codes "source-group");
    text = text;
    delivery_receipt_refs = delivery_refs;
    related_source_event_refs = related;
    source_ref = identity harness.profile mode scenario turn_ref (codes "outcome");
    actor_kind = 5;
    actor_ref = codes "memory-core-eval";
    constitution = none;
  }
