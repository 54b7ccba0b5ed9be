-- ===== src/Tests/Turns.antt =====
-- The theorem about turns, at a memory client and a runner that always answer the same.
use chora_mem.Prelude.{[], List, none, some, ◌≡◌, refl}
use chora_mem.Text.{codes, strip, join}
use chora_mem.Text.Unicode.{is_space}
use chora_mem.Result.{ok}
use chora_mem.Rendering.{
  MemoryContext, validated_items, render_memory_context, validate_ref, append_item, append_items,
  append_all_evidence, with_item, join_sections, deliver, validate_budget_options,
}
use chora_mem.Trace.{replied}
use chora_mem.Agents.Calls.{SourceEventReceipt, RunnerResult, Call, MemoryClient}
use chora_mem.Agents.{
  SourceProvenance, TurnIdentity, TurnResult, Adapter, run_turn, run_agent, deliver_memory,
  final_text,
}
use chora_mem.Agents.Turn.{IsTurn, run_turn-IsTurn}

abbrev context : MemoryContext
context = record {
  context_ref = codes "m1";
  constitution = record {
    text = codes "Be brief.";
    memory_ref = codes "c1";
    application_scope = 0;
  };
  recollections = [];
  dispositions = [];
  episode_evidence = [];
}

abbrev event : SourceEventReceipt
event = record { source_event_ref = codes "s1"; episode_ref = codes "e1" }

abbrev client : MemoryClient
client = record {
  on_observe = λ made request. replied event;
  on_select = λ made request. replied context;
  on_delivery = λ made request. replied (codes "d1");
  on_report =
      λ made request. replied (record { outcome_event_ref = codes "o1"; episode_ref = codes "e1" });
}

abbrev reply : RunnerResult
reply = record { final_output = some (codes "Hello.") }

abbrev adapter : Adapter
adapter = record {
  memory = client;
  runner = some (λ made agent input. replied reply);
  episode_evidence_max_bytes = 0;
  max_tokens = none;
  token_count = none;
}

abbrev source : SourceProvenance
source = record { source_ref = codes "u1"; actor_kind = 1; actor_ref = codes "user" }

abbrev identity : TurnIdentity
identity = record {
  scope = record {
    tenant_ref = codes "t1";
    agent_ref = codes "a1";
    relationship_ref = [];
    session_ref = [];
    kind = 1;
  };
  run_ref = codes "r1";
  source_group_ref = codes "g1";
  situation_idempotency_key = codes "k1";
  situation = source;
  delivery_idempotency_key = codes "k2";
  agent_act_idempotency_key = codes "k3";
  agent_act = source;
}

abbrev result : TurnResult
result = record {
  runner_agent = 7;
  runner_result = reply;
  memory_context = context;
  situation_receipt = event;
  delivery_receipt = some (codes "d1");
  agent_act_receipt = event;
}

-- the calls of the turn
abbrev calls : List Call
calls = (run_turn adapter none 7 (codes "Hi") identity none []).1

turn_runs : run_turn adapter none 7 (codes "Hi") identity none [] ≡ (ok result, calls)
unfolding run_turn deliver_memory run_agent final_text render_memory_context validated_items
    validate_budget_options append_items append_item append_all_evidence validate_ref deliver
    with_item join_sections join strip is_space
turn_runs = refl

run_turn-IsTurn_example : IsTurn adapter 7 (codes "Hi") identity none [] result calls
run_turn-IsTurn_example =
    run_turn-IsTurn adapter none 7 (codes "Hi") identity none [] result calls turn_runs
