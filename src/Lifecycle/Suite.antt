-- ===== src/Lifecycle/Suite.antt =====
-- The formation of the Disposition and the suite of the four cases (seed_lifecycle.py), without the
-- files that the suite writes.
pub mod Cases
pub mod Verdict
pub mod Forming
use chora_mem.Prelude.{
  ℕ, suc, ◌+◌, Bool, true, false, ◌&&◌, not, List, [], ◌∷◌, ◌++◌, Option, none, some, is_empty, map,
  leb, if◌then◌else◌,
}
use chora_mem.Text.{Text, codes}
use chora_mem.Result.{Result, ok, err, Error, value_error, model_error}
use chora_mem.Trace.{Traced, done, from, calling, ◌>>=◌}
use chora_mem.Agents.Calls.{MemoryScope}
use chora_mem.Lifecycle.States.{Field, State, nonblank, active_dispositions}
use chora_mem.Lifecycle.Summary.{
  positive_complete, no_delivery, no_outcome, negative_complete, kind_text, LifecycleSummary,
  summarize_lifecycle,
}
use chora_mem.Lifecycle.Feedback.{
  LifecycleCase, LifecycleCall, observed, settled, Lab, positive_outcome, negative_outcome,
  lane_scope, step_identity, turn_event, FeedbackResult,
}
use chora_mem.Lifecycle.Feedback.Steps.{user_ref, require, run_feedback_case, case_result}

-- `FORMATION_TURNS`: a situation with what the agent did
abbrev pub formation_turns : List (Text × Text)
formation_turns =
    (
      codes
          "A product launch had so many moving pieces that I froze. Once we named what mattered most before discussing solutions, I could think again.",
      codes "We named the most important concern before considering possible solutions.",
    )
    ∷ (
      codes
          "Planning my move overwhelmed me. Saying the priorities aloud before looking at solutions made the next step manageable.",
      codes "We clarified the priorities together before choosing a next step.",
    )
    ∷ (
      codes
          "Preparing a conference agenda left me stuck among too many competing tasks. Once we identified the one outcome that mattered most, I could move forward.",
      codes "We identified the most important outcome before working through the agenda.",
    )
    ∷ []

-- `_observe_complete_turn`
unfoldable pub observe_complete_turn :
    Lab → MemoryScope → Text → Text → Text → Traced LifecycleCall (Unit {0})
observe_complete_turn lab scope identity situation agent_act = do
  let run_ref = identity ++ codes ":run"
  let group_ref = identity ++ codes ":source-group"
  let asked =
      turn_event scope (identity ++ codes ":situation") situation 1 user_ref run_ref group_ref 1
  let acted =
      turn_event scope (identity ++ codes ":agent-act") agent_act 2 (codes "seed-lifecycle-agent")
        run_ref group_ref 2
  first ← calling (observed asked) (λ made. lab.on_observe made asked)
  second ← calling (observed acted) (λ made. lab.on_observe made acted)
  done tt

-- the decimal digit of a step
abbrev pub digit : ℕ → Text
digit n = (b'0' + n) ∷ []

-- `offset >= 2 and _active_dispositions(before)`
unfoldable pub has_formed : ℕ → State → Result Bool
unfolding active_dispositions
has_formed offset state =
    if leb 2 offset
    then elim (active_dispositions state) [ err e ↦ err e | ok formed ↦ ok (not (is_empty formed)) ]
    else ok false

abbrev not_formed : Error
not_formed = model_error (codes "formation produced no active Disposition")

-- the loop of `_form_lifecycle_seed`
unfoldable pub form_from :
    Lab → Text → Text → ℕ → ℕ → List (Text × Text) → Traced LifecycleCall (State × ℕ)
unfolding lane_scope observe_complete_turn has_formed
form_from lab evaluation_ref lane expected_before offset [] = from (err not_formed)
form_from lab evaluation_ref lane expected_before offset ((situation, agent_act) ∷ turns) = do
  let step = codes "formation-" ++ digit offset
  scope ← from (lane_scope evaluation_ref lane step)
  observed_turn ←
      observe_complete_turn lab scope (step_identity evaluation_ref lane step) situation agent_act
  before ←
      calling (settled scope (expected_before + offset))
        (λ made. lab.on_settle made scope (expected_before + offset))
  formed ← from (has_formed offset before)
  let rest = form_from lab evaluation_ref lane expected_before (suc offset) turns
  if formed then done (before, expected_before + offset) else rest

unfoldable pub form_lifecycle_seed : Lab → Text → Text → ℕ → Traced LifecycleCall (State × ℕ)
unfolding form_from
form_lifecycle_seed lab evaluation_ref lane expected_before =
    form_from lab evaluation_ref lane expected_before 1 formation_turns

-- `_validate_run_inputs`, with the laboratory's numbers
unfoldable pub validate_run_inputs : Lab → Field → Result Text
unfolding nonblank
validate_run_inputs lab evaluation_ref = elim (nonblank evaluation_ref (codes "evaluation_ref")) [
  | err e ↦ err e
  | ok name ↦
      if leb lab.max_output_tokens 0
      then err (value_error (codes "max_output_tokens must be positive"))
      else ok name
]

unfoldable pub run_lifecycle_case :
    Lab → LifecycleCase → Field → Traced LifecycleCall FeedbackResult
unfolding validate_run_inputs form_lifecycle_seed run_feedback_case
run_lifecycle_case lab case field = do
  evaluation_ref ← from (validate_run_inputs lab field)
  formed ← form_lifecycle_seed lab evaluation_ref (kind_text case.kind) 0
  run_feedback_case lab case evaluation_ref (kind_text case.kind) formed.0 (formed.1 + 1)

-- the four cases in the order of the suite
abbrev pub ordered_cases : List LifecycleCase
ordered_cases =
    record { kind = no_delivery; record_delivery = false; outcome_text = some positive_outcome }
    ∷ record {
      kind = positive_complete;
      record_delivery = true;
      outcome_text = some positive_outcome;
    }
    ∷ record { kind = no_outcome; record_delivery = true; outcome_text = none }
    ∷ record {
      kind = negative_complete;
      record_delivery = true;
      outcome_text = some negative_outcome;
    }
    ∷ []

-- the loop of `run_lifecycle_suite`: each case starts from the state after the one before
unfoldable pub run_cases :
    Lab → Text → Text → State → ℕ → List LifecycleCase → Traced LifecycleCall (List FeedbackResult)
unfolding run_feedback_case
run_cases lab evaluation_ref lane before episodes [] = done []
run_cases lab evaluation_ref lane before episodes (case ∷ cases) = do
  result ← run_feedback_case lab case evaluation_ref lane before episodes
  results ← run_cases lab evaluation_ref lane result.after (suc episodes) cases
  done (result ∷ results)

-- `run_lifecycle_suite`, where no summary is there yet
unfoldable pub run_lifecycle_suite : Lab → Field → Traced LifecycleCall LifecycleSummary
unfolding validate_run_inputs form_lifecycle_seed run_cases summarize_lifecycle
run_lifecycle_suite lab field = do
  evaluation_ref ← from (validate_run_inputs lab field)
  formed ← form_lifecycle_seed lab evaluation_ref (codes "shared-seed") 0
  results ← run_cases lab evaluation_ref (codes "shared-seed") formed.0 (formed.1 + 1) ordered_cases
  from (summarize_lifecycle (map case_result results))
