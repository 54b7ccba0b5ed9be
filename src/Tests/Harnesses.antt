-- ===== src/Tests/Harnesses.antt =====
-- The theorem about the reference harness, at a memory and a model that always answer the same.
use chora_mem.Prelude.{[], ◌∷◌, none, some, true, ◌≡◌, refl}
use chora_mem.Text.{Text, codes, strip, join}
use chora_mem.Text.Unicode.{is_space}
use chora_mem.Result.{ok}
use chora_mem.Trace.{replied}
use chora_mem.Trace.Made.{Made}
use chora_mem.Harness.{EvalMode, full_core, isolated_scope, Scenario, HarnessMemory, Harness}
use chora_mem.Harness.Rag.{
  HistoricalTurn, Alphabet, character_ngrams, rank_turns, document_of, episode_lines,
  render_episode_rag,
}
use chora_mem.Harness.Run.{run}
use chora_mem.Harness.Memory.{IsIsolated}
use chora_mem.Harness.Isolation.{run-Made}
use chora_mem.Harness.Scopes.{isolated_scope-injective}
use chora_mem.Prelude.{distinct, unseen}
use chora_mem.Tests.Lifecycles.{context}

abbrev memory : HarnessMemory
memory = record {
  on_observe =
      λ made request. replied (record { source_event_ref = codes "s1"; episode_ref = codes "e1" });
  on_select = λ made request. replied context;
  on_delivery = λ made receipt. replied (codes "r1");
  on_report = λ made request. replied (codes "o1");
}

abbrev alphabet : Alphabet
alphabet = record { is_alnum = λ c. true; casefold = λ c. c ∷ [] }

abbrev harness : Harness
harness = record {
  memory = some memory;
  on_complete = λ made instructions input. replied (some (codes "tea"));
  on_settle = λ made. replied tt;
  profile = record {
    evaluation_ref = codes "eval1";
    harness = codes "reference";
    instructions = codes "Answer.";
    tenant_ref = codes "t1";
    agent_ref = codes "a1";
    relationship_ref = codes "r1";
    user_ref = codes "u1";
    constitution = record { memory_ref = codes "c1"; text = codes "Be brief." };
    max_output_tokens = 8;
    episode_rag_top_k = 1;
  };
  alphabet = alphabet;
  decimal = λ n. n ∷ [];
}

abbrev turn : Text → HistoricalTurn
turn situation = record { situation = situation; agent_act = codes "ok"; outcome = none }

abbrev scenario : Scenario
scenario = record {
  scenario_ref = codes "drinks";
  history = turn (codes "I like coffee") ∷ turn (codes "I like tea now") ∷ [];
  query = codes "like tea?";
  expected_output = codes "tea";
  query_outcome = some (codes "thanks");
}

-- the turn with more trigrams of the query is chosen
rag_runs :
    render_episode_rag alphabet scenario.history scenario.query 1 3
    ≡ ok (codes "EPISODES\nSITUATION: I like tea now\nAGENT_ACT: ok")
unfolding render_episode_rag character_ngrams rank_turns document_of episode_lines distinct unseen
    join strip is_space
rag_runs = refl

run-Made_example :
    Made (IsIsolated harness full_core scenario) [] (run harness full_core scenario []).1
run-Made_example = run-Made harness full_core scenario []

-- another scenario with the same reference
abbrev shorter : Scenario
shorter = record {
  scenario_ref = codes "drinks";
  history = [];
  query = codes "tea or coffee?";
  expected_output = codes "tea";
  query_outcome = none;
}

same_scope :
    (isolated_scope harness.profile full_core scenario).relationship_ref
    ≡ (isolated_scope harness.profile full_core shorter).relationship_ref
unfolding isolated_scope
same_scope = refl

isolated_scope-injective_example :
    ◌≡◌ {A = EvalMode} full_core full_core × (scenario.scenario_ref ≡ shorter.scenario_ref)
isolated_scope-injective_example =
    isolated_scope-injective harness.profile full_core full_core scenario shorter same_scope
