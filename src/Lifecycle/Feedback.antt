-- ===== src/Lifecycle/Feedback.antt =====
-- One case of the lifecycle (`_run_feedback_case` of seed_lifecycle.py): a probe that renders a
-- Disposition, its delivery, the model's choice, the outcome, and the probe that comes later. The
-- memory, the model and the service that settles the state are parameters.
pub mod Steps
pub mod Controls
use chora_mem.Prelude.{
  ℕ, suc, ◌+◌, Bool, true, false, ◌&&◌, ◌||◌, not, List, [], ◌∷◌, ◌++◌, Option, none, some,
  is_empty, elem, map, select, leb, eqb, nat_eq, list_eq, ◌==◌, if◌then◌else◌,
}
use chora_mem.Text.{Text, codes, strip}
use chora_mem.Text.Unicode.{is_space}
use chora_mem.Result.{Result, ok, err, Error, model_error}
use chora_mem.Trace.{Reply, Traced, done, from, calling, ◌>>=◌}
use chora_mem.Agents.Calls.{
  MemoryScope, ObserveRequest, SelectRequest, DeliveryReceipt, OutcomeRequest, SourceEventReceipt,
}
use chora_mem.Rendering.{
  MemoryContext, MemoryText, RenderedMemoryContext, Count, natural, render_memory_context,
}
use chora_mem.Lifecycle.States.{State, nonblank, active_dispositions, basis_delta, seed_lineage}
use chora_mem.Lifecycle.Summary.{
  LifecycleKind, positive_complete, no_delivery, no_outcome, negative_complete, kind_text,
  CaseResult,
}

pub record LifecycleCase : Type 0 where
  pub kind : LifecycleKind
  pub record_delivery : Bool
  pub outcome_text : Option Text

abbrev pub query : Text
query = codes "This complicated plan has left me overwhelmed and unable to tell where to begin."

abbrev pub option_a : Text
option_a =
    codes "Let's pause before solutions and name the top priority first: what matters most here?"

abbrev pub option_b : Text
option_b = codes "Here is a complete ten-step solution to follow immediately."

abbrev pub model_instructions : Text
model_instructions =
    codes
      "You are the companion in a fixed behavior-choice test.\nUse LONG_TERM_MEMORY when present. Choose the response that best fits this user now.\nReply with exactly one uppercase option letter and no other text."

-- `lifecycle_cases`
abbrev pub positive_outcome : Text
positive_outcome = codes "Yes, naming priorities before solutions helped me start."

abbrev pub negative_outcome : Text
negative_outcome =
    codes
      "That made things harder: sorting priorities increased the overwhelm, while one concrete next step would have been manageable."

abbrev pub lifecycle_cases : List LifecycleCase
lifecycle_cases =
    record {
      kind = positive_complete;
      record_delivery = true;
      outcome_text = some positive_outcome;
    }
    ∷ record { kind = no_delivery; record_delivery = false; outcome_text = some positive_outcome }
    ∷ record { kind = no_outcome; record_delivery = true; outcome_text = none }
    ∷ record {
      kind = negative_complete;
      record_delivery = true;
      outcome_text = some negative_outcome;
    }
    ∷ []

pub data LifecycleCall : Type 0 where
  observed : ObserveRequest → LifecycleCall
  selected : SelectRequest → LifecycleCall
  delivered : DeliveryReceipt → LifecycleCall
  completed : Text → Text → ℕ → LifecycleCall
  reported : OutcomeRequest → LifecycleCall
  settled : MemoryScope → ℕ → LifecycleCall

-- What the lifecycle is run with. The model gives a `str` or something else; `is_digit` and `upper`
-- are the tables of `str.isdigit` and `str.upper`.
pub record Lab : Type 0 where
  pub on_observe : List LifecycleCall → ObserveRequest → Reply SourceEventReceipt
  pub on_select : List LifecycleCall → SelectRequest → Reply MemoryContext
  pub on_delivery : List LifecycleCall → DeliveryReceipt → Reply Text
  pub on_complete : List LifecycleCall → Text → Text → Reply (Option Text)
  pub on_report : List LifecycleCall → OutcomeRequest → Reply Text
  pub on_settle : List LifecycleCall → MemoryScope → ℕ → Reply State
  pub token_count : Text → Count
  pub memory_tokens : ℕ
  pub max_output_tokens : ℕ
  pub is_digit : ℕ → Bool
  pub upper : Text → Text

abbrev pub choice_input : Text → Text
choice_input situation =
    codes "SITUATION\n"
    ++ (situation ++ (codes "\n\nOPTIONS\nA. " ++ (option_a ++ (codes "\nB. " ++ option_b))))

-- `_scope`
unfoldable pub lane_scope : Text → Text → Text → Result MemoryScope
unfolding nonblank
lane_scope evaluation_ref lane session = elim (nonblank (some lane) (codes "lifecycle lane")) [
  | err e ↦ err e
  | ok name ↦
      let relationship = evaluation_ref ++ (codes ":" ++ name) in
      ok (record {
        tenant_ref = codes "seed-lifecycle-eval";
        agent_ref = codes "seed-lifecycle-agent";
        relationship_ref = relationship;
        session_ref = relationship ++ (codes ":" ++ session);
        kind = 2;
      })
]

-- `_identity`
abbrev pub step_identity : Text → Text → Text → Text
step_identity evaluation_ref lane step =
    codes "seed-lifecycle:" ++ (evaluation_ref ++ (codes ":" ++ (lane ++ (codes ":" ++ step))))

abbrev is_capital : Text → Bool
is_capital (c ∷ []) = leb b'A' c && leb c b'Z'
is_capital _ = false

-- `extract_option_token` (perma_seed_effect.py)
unfoldable pub extract_option_token : (Text → Text) → Option Text → Text
unfolding strip is_space
extract_option_token upper none = []
extract_option_token upper (some output) =
    let token = upper (strip is_space output) in if is_capital token then token else []

-- a request of a turn's event; one without a binding has no run, group or role
abbrev pub turn_event : MemoryScope → Text → Text → ℕ → Text → Text → Text → ℕ → ObserveRequest
turn_event scope source_ref text actor_kind actor_ref run_ref group_ref role = record {
  idempotency_key = source_ref;
  scope = scope;
  text = text;
  source_ref = source_ref;
  actor_kind = actor_kind;
  actor_ref = actor_ref;
  constitution = none;
  run_ref = run_ref;
  source_group_ref = group_ref;
  role = role;
}

abbrev pub probe_request : MemoryScope → Text → SourceEventReceipt → SelectRequest
probe_request scope run_ref situation = record {
  scope = scope;
  run_ref = run_ref;
  situation_source_event_refs = situation.source_event_ref ∷ [];
  constitution = none;
  episode_evidence_max_bytes = 0;
}

abbrev pub with_memory_text : RenderedMemoryContext → Text
with_memory_text rendered =
    if is_empty rendered.text
    then model_instructions
    else model_instructions ++ (codes "\n\nLONG_TERM_MEMORY\n" ++ rendered.text)

-- the references of the Dispositions whose text is not blank
abbrev pub filled_refs : List MemoryText → List Text
unfolding strip is_space
filled_refs items =
    map (λ (i : MemoryText). i.memory_ref)
      (select (λ (i : MemoryText). not (is_empty (strip is_space i.text))) items)

-- what a probe shows
pub record Probe : Type 0 where
  pub situation : SourceEventReceipt
  pub context : MemoryContext
  pub rendered : RenderedMemoryContext
  pub selected_dispositions : List Text
  pub rendered_dispositions : List Text

-- the fields of the result that the suite and its gate read, with the delivery and the outcome
pub record FeedbackResult : Type 0 where
  pub kind : LifecycleKind
  pub formed : Bool
  pub rendered : Bool
  pub rendered_disposition_refs : List Text
  pub delivered_memory_refs : List Text
  pub delivery_receipt_ref : Text
  pub agent_act_option : Text
  pub agent_act_expressed_tendency : Bool
  pub outcome_event_ref : Text
  pub reenacted : Bool
  pub revision_or_inhibition : Bool
  pub future_selection_changed : Bool
  pub delayed_option : Text
  pub after : State
