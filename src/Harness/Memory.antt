-- ===== src/Harness/Memory.antt =====
-- Which calls the steps of a run make of the memory (reference.py).
use chora_mem.Prelude.{
  ℕ, suc, ◌+◌, Bool, true, false, List, [], ◌∷◌, ◌++◌, Option, none, some, is_empty, if◌then◌else◌,
  ◌≡◌, refl, sym,
}
use chora_mem.Text.{Text, codes}
use chora_mem.Trace.{done, from, calling, ◌>>=◌}
use chora_mem.Trace.Made.{Made, Made-none, Made-bind, Made-call, Made-pure, Ends, Ends-bind}
use chora_mem.Rendering.{render_memory_context}
use chora_mem.Harness.{
  EvalMode, uses_memory, Scenario, HarnessCall, observing, selecting, delivering, reporting,
  settling, completing, HarnessMemory, Harness, isolated_scope, core_context, situation_request,
  agent_request, report_request,
}
use chora_mem.Harness.Rag.{HistoricalTurn}
use chora_mem.Harness.Run.{
  Turn, Gathered, report_if, replay_history, select_request, gather_memory, delivery_receipt,
  deliver_turn, record_turn,
}

-- A call of the memory or the settling service is made in a mode with memory, and in the scope of the
-- mode and the scenario; the model is asked the query.
abbrev pub IsIsolated : Harness → EvalMode → Scenario → HarnessCall → Type 0
IsIsolated harness mode scenario (observing r) =
    (uses_memory mode ≡ true) × (r.scope ≡ isolated_scope harness.profile mode scenario)
IsIsolated harness mode scenario (selecting r) =
    (uses_memory mode ≡ true) × (r.scope ≡ isolated_scope harness.profile mode scenario)
IsIsolated harness mode scenario (delivering r) =
    (uses_memory mode ≡ true) × (r.scope ≡ isolated_scope harness.profile mode scenario)
IsIsolated harness mode scenario (reporting r) =
    (uses_memory mode ≡ true) × (r.scope ≡ isolated_scope harness.profile mode scenario)
IsIsolated harness mode scenario settling = uses_memory mode ≡ true
IsIsolated harness mode scenario (completing instructions text limit) = text ≡ scenario.query

abbrev pub has_turn : Gathered → Bool
has_turn g = elim g.turn [ none ↦ false | some turn ↦ true ]

module _ (harness : Harness) (mode : EvalMode) (scenario : Scenario) where
  module _ (in_memory : uses_memory mode ≡ true) (memory : HarnessMemory) where
    pub report_if-Made :
        (turn_ref : Text) (text : Option Text) (delivery_refs related : List Text)
        (made : List HarnessCall)
        → Made
            (IsIsolated harness mode scenario)
            made
            (report_if harness mode scenario memory turn_ref text delivery_refs related made).1
    unfolding report_if
    report_if-Made turn_ref none delivery_refs related made = Made-none made
    report_if-Made turn_ref (some text) delivery_refs related made =
        let request = report_request harness mode scenario turn_ref text delivery_refs related in
        Made-call (reporting request) (λ m. memory.on_report m request) _ made (in_memory, refl)
          (λ receipt. Made-none _)

    pub replay_history-Made :
        (index : ℕ) (turns : List HistoricalTurn) (made : List HarnessCall)
        → Made
            (IsIsolated harness mode scenario)
            made
            (replay_history harness mode scenario memory index turns made).1
    unfolding replay_history
    replay_history-Made index [] made = Made-none made
    replay_history-Made index (turn ∷ turns) made =
        let turn_ref = codes "history-" ++ harness.decimal (index + 1) in
        let asked = situation_request harness mode scenario turn_ref turn.situation in
        let acted = agent_request harness mode scenario turn_ref turn.agent_act in
        Made-call (observing asked) (λ m. memory.on_observe m asked) _ made (in_memory, refl)
          λ situation.
            Made-call (observing acted) (λ m. memory.on_observe m acted) _ _ (in_memory, refl)
              λ agent_act.
                let related = situation.source_event_ref ∷ agent_act.source_event_ref ∷ [] in
                Made-bind (report_if harness mode scenario memory turn_ref turn.outcome [] related)
                  _ _ (report_if-Made turn_ref turn.outcome [] related _)
                  (λ reported e. replay_history-Made (suc index) turns _)

    pub gather_memory-Made :
        (made : List HarnessCall)
        → Made
            (IsIsolated harness mode scenario)
            made
            (gather_memory harness mode scenario memory made).1
    unfolding gather_memory
    gather_memory-Made made =
        Made-bind (replay_history harness mode scenario memory 0 scenario.history) _ made
          (replay_history-Made 0 scenario.history made)
          λ replayed e1. Made-call settling harness.on_settle _ _ in_memory λ settled.
            let asked = situation_request harness mode scenario (codes "query") scenario.query in
            Made-call (observing asked) (λ m. memory.on_observe m asked) _ _ (in_memory, refl)
              λ situation.
                let request = select_request harness mode scenario situation in
                Made-call (selecting request) (λ m. memory.on_select m request) _ _
                  (in_memory, refl)
                  λ context.
                    Made-pure (render_memory_context (core_context mode context) none none) _ _
                      (λ rendered e2. Made-none _)

    pub gather_memory-turn :
        (made : List HarnessCall)
        → Ends
            (λ g. has_turn g ≡ uses_memory mode)
            (gather_memory harness mode scenario memory made).0
    unfolding gather_memory
    gather_memory-turn made =
        let Q : Gathered → Type 0 = λ g. has_turn g ≡ uses_memory mode in
        let asked = situation_request harness mode scenario (codes "query") scenario.query in
        Ends-bind Q (replay_history harness mode scenario memory 0 scenario.history) _ made
          λ replayed e1. Ends-bind Q (calling settling harness.on_settle) _ _ λ settled e2.
            Ends-bind Q (calling (observing asked) (λ m. memory.on_observe m asked)) _ _
              λ situation e3.
                let request = select_request harness mode scenario situation in
                Ends-bind Q (calling (selecting request) (λ m. memory.on_select m request)) _ _
                  λ context e4.
                    Ends-bind Q (from (render_memory_context (core_context mode context) none none))
                      _ _ (λ rendered e5. sym in_memory)

    pub deliver_turn-Made :
        (turn : Turn) (made : List HarnessCall)
        → Made
            (IsIsolated harness mode scenario)
            made
            (deliver_turn harness mode scenario memory turn made).1
    unfolding deliver_turn
    deliver_turn-Made turn made = delivers (is_empty turn.rendered.text)
      where
        delivers :
            (b : Bool)
            → Made
                (IsIsolated harness mode scenario)
                made
                ((if b
                    then done []
                    else calling
                        (delivering (delivery_receipt harness mode scenario turn))
                        (λ m. memory.on_delivery m (delivery_receipt harness mode scenario turn))
                      >>= (λ ref. done (ref ∷ [])))
                  made).1
        delivers true = Made-none made
        delivers false =
            Made-call (delivering (delivery_receipt harness mode scenario turn))
              (λ m. memory.on_delivery m (delivery_receipt harness mode scenario turn)) _ made
              (in_memory, refl) (λ ref. Made-none _)

    pub record_turn-Made :
        (turn : Turn) (delivery_refs : List Text) (output : Text) (made : List HarnessCall)
        → Made
            (IsIsolated harness mode scenario)
            made
            (record_turn harness mode scenario memory turn delivery_refs output made).1
    unfolding record_turn
    record_turn-Made turn delivery_refs output made =
        let acted = agent_request harness mode scenario (codes "query") output in
        Made-call (observing acted) (λ m. memory.on_observe m acted) _ made (in_memory, refl)
          λ agent_act.
            report_if-Made (codes "query") scenario.query_outcome delivery_refs
              (turn.situation.source_event_ref ∷ agent_act.source_event_ref ∷ []) _
