-- ===== src/Lifecycle/Feedback/Steps.antt =====
-- The steps of `_run_feedback_case` (seed_lifecycle.py), in their order, and the case as their chain.
use chora_mem.Prelude.{
  ℕ, Bool, true, false, not, List, [], ◌∷◌, ◌++◌, Option, none, some, is_empty, elem, map, select,
  nat_eq, list_eq, pair_eq, ◌==◌, if◌then◌else◌,
}
use chora_mem.Text.{Text, codes}
use chora_mem.Result.{Result, ok, err, Error, model_error}
use chora_mem.Trace.{Traced, done, from, calling, ◌>>=◌}
use chora_mem.Agents.Calls.{
  MemoryScope, ObserveRequest, DeliveryReceipt, OutcomeRequest, SourceEventReceipt,
}
use chora_mem.Rendering.{natural, render_memory_context}
use chora_mem.Lifecycle.States.{State, active_dispositions, basis_delta, seed_lineage, Link}
use chora_mem.Lifecycle.Summary.{kind_text, CaseResult}
use chora_mem.Lifecycle.Feedback.{
  LifecycleCase, LifecycleCall, observed, selected, delivered, completed, reported, settled, Lab,
  query, option_a, option_b, choice_input, lane_scope, step_identity, extract_option_token,
  turn_event, probe_request, with_memory_text, filled_refs, Probe, FeedbackResult,
}

abbrev pub user_ref : Text
user_ref = codes "seed-lifecycle-user"

-- a situation, the memory selected for it, and what of it is rendered
unfoldable pub probe : Lab → ObserveRequest → Text → Traced LifecycleCall Probe
unfolding render_memory_context
probe lab event run_ref = do
  situation ← calling (observed event) (λ made. lab.on_observe made event)
  let request = probe_request event.scope run_ref situation
  context ← calling (selected request) (λ made. lab.on_select made request)
  rendered ←
      from (render_memory_context context (some (natural lab.memory_tokens)) (some lab.token_count))
  done (record {
    situation = situation;
    context = context;
    rendered = rendered;
    selected_dispositions = filled_refs context.dispositions;
    rendered_dispositions =
        select (λ ref. elem ref rendered.memory_refs) (filled_refs context.dispositions);
  })

abbrev pub delivery_receipt : Text → MemoryScope → Text → Probe → DeliveryReceipt
delivery_receipt identity scope run_ref p = record {
  idempotency_key = identity ++ codes ":delivery";
  scope = scope;
  run_ref = run_ref;
  memory_context_ref = p.context.context_ref;
  delivered_memory_refs = p.rendered.memory_refs;
}

-- the reference of the receipt, empty without a delivery
unfoldable pub deliver_case : Lab → Bool → DeliveryReceipt → Traced LifecycleCall Text
deliver_case lab false receipt = done []
deliver_case lab true receipt = calling (delivered receipt) (λ made. lab.on_delivery made receipt)

-- the model's answer to a probe, as an option's letter
unfoldable pub choose : Lab → Probe → Traced LifecycleCall Text
unfolding extract_option_token
choose lab p = do
  let instructions = with_memory_text p.rendered
  let input_text = choice_input query
  output ←
      calling (completed instructions input_text lab.max_output_tokens)
        (λ made. lab.on_complete made instructions input_text)
  done (extract_option_token lab.upper output)

-- `ACTION_OPTIONS[option]`, if there is one
abbrev pub action_text : Text → Option Text
action_text option =
    if option == codes "A"
    then some option_a
    else if option == codes "B"
    then some option_b
    else none

abbrev pub invalid_option : Error
invalid_option = model_error (codes "lifecycle model did not return a valid option token")

abbrev pub agent_event : MemoryScope → Text → Text → Text → Text → ObserveRequest
agent_event scope identity run_ref group_ref text =
    turn_event scope (identity ++ codes ":agent-act") text 2 (codes "seed-lifecycle-agent") run_ref
      group_ref 2

-- what the agent does by the option
unfoldable pub act_on :
    Lab → Text → (Text → ObserveRequest) → Traced LifecycleCall SourceEventReceipt
act_on lab option event = elim (action_text option) [
  | none ↦ from (err invalid_option)
  | some text ↦ calling (observed (event text)) (λ made. lab.on_observe made (event text))
]

abbrev pub outcome_request :
    Text → MemoryScope → Text → Text → Text → Text → List Text → OutcomeRequest
outcome_request identity scope run_ref group_ref text delivery_ref related = record {
  idempotency_key = identity ++ codes ":outcome-report";
  scope = scope;
  run_ref = run_ref;
  source_group_ref = group_ref;
  text = text;
  delivery_receipt_refs = if is_empty delivery_ref then [] else delivery_ref ∷ [];
  related_source_event_refs = related;
  source_ref = identity ++ codes ":outcome";
  actor_kind = 1;
  actor_ref = user_ref;
  constitution = none;
}

-- the reference of the outcome, empty without one
unfoldable pub report_case : Lab → Option Text → (Text → OutcomeRequest) → Traced LifecycleCall Text
report_case lab none request = done []
report_case lab (some text) request =
    calling (reported (request text)) (λ made. lab.on_report made (request text))

-- the Dispositions of a probe that belong to the lineages
abbrev pub of_lineages : Lab → List Text → List Text → List Text
unfolding seed_lineage
of_lineages lab lineages refs = select (λ ref. elem (seed_lineage lab.is_digit ref) lineages) refs

-- the result, once the later probe is answered
abbrev pub result_of :
    Lab
    → LifecycleCase
    → Probe
    → Text
    → Text
    → Text
    → List Link
    → List Link
    → Probe
    → Text
    → State
    → FeedbackResult
unfolding seed_lineage
result_of lab case p delivery_ref option outcome_ref reenacted revised delayed delayed_option
      after =
    let lineages = map (seed_lineage lab.is_digit) p.rendered_dispositions in
    record {
      kind = case.kind;
      formed = true;
      rendered = not (is_empty p.rendered_dispositions);
      rendered_disposition_refs = p.rendered_dispositions;
      delivered_memory_refs = if is_empty delivery_ref then [] else p.rendered.memory_refs;
      delivery_receipt_ref = delivery_ref;
      agent_act_option = option;
      agent_act_expressed_tendency = option == codes "A";
      outcome_event_ref = outcome_ref;
      reenacted = not (is_empty reenacted);
      revision_or_inhibition = not (is_empty revised);
      future_selection_changed = not (
          of_lineages lab lineages p.rendered_dispositions
          == of_lineages lab lineages delayed.rendered_dispositions);
      delayed_option = delayed_option;
      after = after;
    }

-- from the settled state on
unfoldable pub measure :
    Lab
    → LifecycleCase
    → Text
    → Text
    → State
    → State
    → Probe
    → Text
    → Text
    → Text
    → Traced LifecycleCall FeedbackResult
unfolding basis_delta seed_lineage lane_scope probe choose
measure lab case evaluation_ref lane before after p delivery_ref option outcome_ref = do
  let lineages = map (seed_lineage lab.is_digit) p.rendered_dispositions
  let step = kind_text case.kind ++ codes "-delayed"
  let identity = step_identity evaluation_ref lane step
  reenacted ← from (basis_delta lab.is_digit before after (codes "reenactment" ∷ []) lineages)
  revised ←
      from (
        basis_delta lab.is_digit before after (codes "revision" ∷ codes "inhibition" ∷ []) lineages)
  scope ← from (lane_scope evaluation_ref lane step)
  delayed ←
      probe lab (turn_event scope (identity ++ codes ":situation") query 1 user_ref [] [] 0)
        (identity ++ codes ":run")
  delayed_option ← choose lab delayed
  done (
      result_of lab case p delivery_ref option outcome_ref reenacted revised delayed delayed_option
        after)

abbrev pub nothing_active : Error
nothing_active = model_error (codes "feedback chain requires an active Disposition")

abbrev pub nothing_rendered : Error
nothing_rendered = model_error (codes "relevant probe rendered no Disposition")

abbrev pub require : Bool → Error → Result (Unit {0})
require true e = ok tt
require false e = err e

-- `_run_feedback_case`
unfoldable pub run_feedback_case :
    Lab → LifecycleCase → Text → Text → State → ℕ → Traced LifecycleCall FeedbackResult
unfolding active_dispositions lane_scope probe deliver_case choose act_on report_case measure
run_feedback_case lab case evaluation_ref lane before expected_episodes = do
  let step = kind_text case.kind ++ codes "-feedback"
  let identity = step_identity evaluation_ref lane step
  let run_ref = identity ++ codes ":run"
  let group_ref = identity ++ codes ":source-group"
  formed ← from (active_dispositions before)
  checked ← from (require (not (is_empty formed)) nothing_active)
  scope ← from (lane_scope evaluation_ref lane step)
  p ←
      probe lab
        (turn_event scope (identity ++ codes ":situation") query 1 user_ref run_ref group_ref 1)
        run_ref
  shown ← from (require (not (is_empty p.rendered_dispositions)) nothing_rendered)
  delivery_ref ← deliver_case lab case.record_delivery (delivery_receipt identity scope run_ref p)
  option ← choose lab p
  act ← act_on lab option (agent_event scope identity run_ref group_ref)
  outcome_ref ← report_case lab case.outcome_text (λ text.
      outcome_request identity scope run_ref group_ref text delivery_ref
        (p.situation.source_event_ref ∷ act.source_event_ref ∷ []))
  after ←
      calling (settled scope expected_episodes) (λ made. lab.on_settle made scope expected_episodes)
  measure lab case evaluation_ref lane before after p delivery_ref option outcome_ref

-- what the gate reads of a result
abbrev pub case_result : FeedbackResult → CaseResult
case_result r = record {
  kind = some (kind_text r.kind);
  formed = some r.formed;
  rendered = some r.rendered;
  agent_act_expressed_tendency = some r.agent_act_expressed_tendency;
  reenacted = some r.reenacted;
  revision_or_inhibition = some r.revision_or_inhibition;
  future_selection_changed = some r.future_selection_changed;
}
