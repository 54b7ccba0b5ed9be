-- ===== src/Harness/Run.antt =====
-- `ReferenceHarness.run` (reference.py) in its steps: what is gathered and injected, its delivery, the
-- model's answer, and what is recorded of it.
use chora_mem.Prelude.{
  ℕ, suc, ◌+◌, Bool, false, List, [], ◌∷◌, ◌++◌, Option, none, some, is_empty, length, nat_eq,
  list_eq, ◌==◌, if◌then◌else◌,
}
use chora_mem.Text.{Text, codes, strip}
use chora_mem.Text.Unicode.{is_space}
use chora_mem.Result.{Result, ok, err, Error, model_error}
use chora_mem.Trace.{Traced, done, from, calling, ◌>>=◌}
use chora_mem.Agents.Calls.{SelectRequest, DeliveryReceipt, SourceEventReceipt}
use chora_mem.Rendering.{MemoryContext, RenderedMemoryContext, render_memory_context}
use chora_mem.Harness.{
  EvalMode, episode_rag, uses_memory, mode_text, Scenario, HarnessCall, observing, selecting,
  delivering, reporting, settling, completing, HarnessMemory, Harness, identity, isolated_scope,
  core_context, situation_request, agent_request, report_request,
}
use chora_mem.Harness.Rag.{HistoricalTurn, render_episode_rag}

-- the situation, its context and its rendering, in a mode with memory
pub record Turn : Type 0 where
  pub situation : SourceEventReceipt
  pub context : MemoryContext
  pub rendered : RenderedMemoryContext

-- what `run` has before it delivers: the text, and the turn in a mode with memory
pub record Gathered : Type 0 where
  pub injected_text : Text
  pub turn : Option Turn

-- the fields of EvalResult that a run decides
pub record EvalResult : Type 0 where
  pub mode : EvalMode
  pub output : Text
  pub matched : Bool
  pub injected_char_count : ℕ
  pub error : Option Error

abbrev query_ref : Text
query_ref = codes "query"

abbrev pub no_client : EvalMode → Error
no_client mode = model_error (mode_text mode ++ codes " requires a Memory Core client")

abbrev pub empty_output : Error
empty_output = model_error (codes "text model returned empty output")

module _ (harness : Harness) (mode : EvalMode) (scenario : Scenario) where
  -- `_report_outcome`, where there is one
  unfoldable pub report_if :
      HarnessMemory → Text → Option Text → List Text → List Text → Traced HarnessCall (Unit {0})
  report_if memory turn_ref none delivery_refs related = done tt
  report_if memory turn_ref (some text) delivery_refs related = do
    let request = report_request harness mode scenario turn_ref text delivery_refs related
    receipt ← calling (reporting request) (λ made. memory.on_report made request)
    done tt

  -- `_replay_history`, from the turn after `index`
  unfoldable pub replay_history :
      HarnessMemory → ℕ → List HistoricalTurn → Traced HarnessCall (Unit {0})
  unfolding report_if
  replay_history memory index [] = done tt
  replay_history memory index (turn ∷ turns) = do
    let turn_ref = codes "history-" ++ harness.decimal (index + 1)
    let asked = situation_request harness mode scenario turn_ref turn.situation
    let acted = agent_request harness mode scenario turn_ref turn.agent_act
    situation ← calling (observing asked) (λ made. memory.on_observe made asked)
    agent_act ← calling (observing acted) (λ made. memory.on_observe made acted)
    reported ←
        report_if memory turn_ref turn.outcome []
          (situation.source_event_ref ∷ agent_act.source_event_ref ∷ [])
    replay_history memory (suc index) turns

  abbrev pub select_request : SourceEventReceipt → SelectRequest
  select_request situation = record {
    scope = isolated_scope harness.profile mode scenario;
    run_ref = identity harness.profile mode scenario query_ref (codes "run");
    situation_source_event_refs = situation.source_event_ref ∷ [];
    constitution = some harness.profile.constitution;
    episode_evidence_max_bytes = 0;
  }

  unfoldable pub gather_memory : HarnessMemory → Traced HarnessCall Gathered
  unfolding replay_history render_memory_context
  gather_memory memory = do
    replayed ← replay_history memory 0 scenario.history
    settled ← calling settling harness.on_settle
    let asked = situation_request harness mode scenario query_ref scenario.query
    situation ← calling (observing asked) (λ made. memory.on_observe made asked)
    let request = select_request situation
    context ← calling (selecting request) (λ made. memory.on_select made request)
    rendered ← from (render_memory_context (core_context mode context) none none)
    done (record {
      injected_text = rendered.text;
      turn = some (record { situation = situation; context = context; rendered = rendered });
    })

  -- the text in a mode without memory
  unfoldable pub baseline_text : EvalMode → Result Text
  unfolding render_episode_rag
  baseline_text episode_rag =
      render_episode_rag harness.alphabet scenario.history scenario.query
        harness.profile.episode_rag_top_k 3
  baseline_text _ = ok []

  unfoldable pub gather : Traced HarnessCall Gathered
  unfolding gather_memory baseline_text
  gather =
      if uses_memory mode
      then elim harness.memory [
        | none ↦ from (err (no_client mode))
        | some memory ↦ gather_memory memory
      ]
      else (do
        text ← from (baseline_text mode)
        done (record { injected_text = text; turn = none }))

  abbrev pub delivery_receipt : Turn → DeliveryReceipt
  delivery_receipt turn = record {
    idempotency_key = identity harness.profile mode scenario query_ref (codes "delivery");
    scope = isolated_scope harness.profile mode scenario;
    run_ref = identity harness.profile mode scenario query_ref (codes "run");
    memory_context_ref = turn.context.context_ref;
    delivered_memory_refs = turn.rendered.memory_refs;
  }

  -- the references of the delivery's receipt, none where nothing is delivered
  unfoldable pub deliver_turn : HarnessMemory → Turn → Traced HarnessCall (List Text)
  deliver_turn memory turn =
      let receipt = delivery_receipt turn in
      if is_empty turn.rendered.text then done [] else (do
        ref ← calling (delivering receipt) (λ made. memory.on_delivery made receipt)
        done (ref ∷ []))

  unfoldable pub deliver_gathered : Gathered → Traced HarnessCall (List Text)
  unfolding deliver_turn
  deliver_gathered g = elim harness.memory [
    | none ↦ done []
    | some memory ↦ elim g.turn [ none ↦ done [] | some turn ↦ deliver_turn memory turn ]
  ]

  abbrev pub instructions_with : Text → Text
  instructions_with injected_text =
      if is_empty injected_text
      then harness.profile.instructions
      else harness.profile.instructions ++ (codes "\n\nLONG_TERM_MEMORY\n" ++ injected_text)

  -- `raw_output`, if it is text that is not blank
  abbrev pub checked_output : Option Text → Result Text
  unfolding strip is_space
  checked_output none = err empty_output
  checked_output (some text) = if is_empty (strip is_space text) then err empty_output else ok text

  unfoldable pub ask : Text → Traced HarnessCall Text
  unfolding strip is_space
  ask injected_text = do
    let instructions = instructions_with injected_text
    raw_output ←
        calling (completing instructions scenario.query harness.profile.max_output_tokens)
          (λ made. harness.on_complete made instructions scenario.query)
    from (checked_output raw_output)

  unfoldable pub record_turn :
      HarnessMemory → Turn → List Text → Text → Traced HarnessCall (Unit {0})
  unfolding report_if
  record_turn memory turn delivery_refs output = do
    let acted = agent_request harness mode scenario query_ref output
    agent_act ← calling (observing acted) (λ made. memory.on_observe made acted)
    report_if memory query_ref scenario.query_outcome delivery_refs
        (turn.situation.source_event_ref ∷ agent_act.source_event_ref ∷ [])

  unfoldable pub record_gathered : Gathered → List Text → Text → Traced HarnessCall (Unit {0})
  unfolding record_turn
  record_gathered g delivery_refs output = elim harness.memory [
    | none ↦ done tt
    | some memory ↦ elim g.turn [
      | none ↦ done tt
      | some turn ↦ record_turn memory turn delivery_refs output
    ]
  ]

  -- the result, from the output so far, the text that was injected and an error
  abbrev pub result_of : Text → Text → Option Error → EvalResult
  unfolding strip is_space
  result_of output injected_text error = record {
    mode = mode;
    output = output;
    matched = elim error [
      | none ↦ strip is_space output == strip is_space scenario.expected_output
      | some e ↦ false
    ];
    injected_char_count = length injected_text;
    error = error;
  }

  -- What a step that raises leaves is kept in the result.
  abbrev pub or_else :
      {A : Type 0}
      → Result A × List HarnessCall
      → (Error → EvalResult)
      → (A → List HarnessCall → EvalResult × List HarnessCall)
      → EvalResult × List HarnessCall
  or_else (err e, made) failed next = (failed e, made)
  or_else (ok a, made) failed next = next a made

  -- `run`
  unfoldable pub run : List HarnessCall → EvalResult × List HarnessCall
  unfolding gather deliver_gathered ask record_gathered strip is_space
  run made =
      or_else (gather made) (λ e. result_of [] [] (some e))
        (λ g made1.
          or_else (deliver_gathered g made1) (λ e. result_of [] g.injected_text (some e))
            (λ delivery_refs made2.
              or_else (ask g.injected_text made2) (λ e. result_of [] g.injected_text (some e))
                (λ output made3.
                  or_else (record_gathered g delivery_refs output made3)
                    (λ e. result_of output g.injected_text (some e))
                    (λ recorded made4. (result_of output g.injected_text none, made4)))))
