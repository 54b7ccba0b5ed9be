-- ===== src/Lifecycle/Suite/Cases.antt =====
-- What the suite's results are, and what its summary makes of them (seed_lifecycle.py).
use mathlib.Core.Path.{subst}
use chora_mem.Prelude.{
  ℕ, suc, Bool, true, false, not, List, [], ◌∷◌, ◌++◌, is_empty, map, nat_eq, list_eq, ◌≡◌, refl,
}
use chora_mem.Text.{Text, codes}
use chora_mem.Result.{Result, ok, Error}
use chora_mem.Trace.{from, calling}
use chora_mem.Trace.Made.{Ends, Ends-bind}
use chora_mem.Agents.Calls.{OutcomeRequest}
use chora_mem.Lifecycle.States.{State, active_dispositions, basis_delta, seed_lineage}
use chora_mem.Lifecycle.Summary.{LifecycleKind, kind_text}
use chora_mem.Lifecycle.Feedback.{
  LifecycleCase, LifecycleCall, settled, Lab, Probe, query, lane_scope, step_identity, turn_event,
  FeedbackResult,
}
use chora_mem.Lifecycle.Feedback.Steps.{
  user_ref, probe, delivery_receipt, deliver_case, choose, agent_event, act_on, outcome_request,
  report_case, require, nothing_active, nothing_rendered, measure, run_feedback_case,
}
use chora_mem.Lifecycle.Suite.{run_cases}

-- a result of the case whose probe rendered a Disposition
abbrev IsResultOf : LifecycleCase → FeedbackResult → Type 0
IsResultOf case r = (r.kind ≡ case.kind) × (r.rendered ≡ true)

require-true : (b : Bool) (e : Error) {u : Unit {0}} → require b e ≡ ok u → b ≡ true
require-true true e h = refl
require-true false e h = cc h

module _ (lab : Lab) (case : LifecycleCase) where
  measure-IsResultOf :
      (evaluation_ref lane : Text) (before after : State) (p : Probe)
      (delivery_ref option outcome_ref : Text) (made : List LifecycleCall)
      → not (is_empty p.rendered_dispositions) ≡ true
      → Ends
          (IsResultOf case)
          (measure lab case evaluation_ref lane before after p delivery_ref option outcome_ref
            made).0
  unfolding measure
  measure-IsResultOf evaluation_ref lane before after p delivery_ref option outcome_ref made shown =
      let Q = IsResultOf case in
      let lineages = map (seed_lineage lab.is_digit) p.rendered_dispositions in
      let step = kind_text case.kind ++ codes "-delayed" in
      let identity = step_identity evaluation_ref lane step in
      Ends-bind Q (from (basis_delta lab.is_digit before after (codes "reenactment" ∷ []) lineages))
        _ _
        λ reenacted e1.
          Ends-bind Q
            (from (
              basis_delta lab.is_digit before after (codes "revision" ∷ codes "inhibition" ∷ [])
                lineages))
            _ _
            λ revised e2. Ends-bind Q (from (lane_scope evaluation_ref lane step)) _ _ λ scope e3.
              let event =
                turn_event scope (identity ++ codes ":situation") query 1 user_ref [] [] 0 in
              Ends-bind Q (probe lab event (identity ++ codes ":run")) _ _ λ delayed e4.
                Ends-bind Q (choose lab delayed) _ _ (λ delayed_option e5. (refl, shown))

  run_feedback_case-IsResultOf :
      (evaluation_ref lane : Text) (before : State) (expected_episodes : ℕ)
      (made : List LifecycleCall)
      → Ends
          (IsResultOf case)
          (run_feedback_case lab case evaluation_ref lane before expected_episodes made).0
  unfolding run_feedback_case
  run_feedback_case-IsResultOf evaluation_ref lane before expected_episodes made =
      let Q = IsResultOf case in
      let step = kind_text case.kind ++ codes "-feedback" in
      let identity = step_identity evaluation_ref lane step in
      let run_ref = identity ++ codes ":run" in
      let group_ref = identity ++ codes ":source-group" in
      Ends-bind Q (from (active_dispositions before)) _ _ λ formed e1.
        Ends-bind Q (from (require (not (is_empty formed)) nothing_active)) _ _ λ checked e2.
          Ends-bind Q (from (lane_scope evaluation_ref lane step)) _ _ λ scope e3.
            let event =
              turn_event scope (identity ++ codes ":situation") query 1 user_ref run_ref group_ref
                1 in
            Ends-bind Q (probe lab event run_ref) _ _ λ p e4.
              let some_shown = not (is_empty p.rendered_dispositions) in
              Ends-bind Q (from (require some_shown nothing_rendered)) _ _ λ shown e5.
                let receipt = delivery_receipt identity scope run_ref p in
                Ends-bind Q (deliver_case lab case.record_delivery receipt) _ _ λ delivery_ref e6.
                  Ends-bind Q (choose lab p) _ _ λ option e7.
                    Ends-bind Q (act_on lab option (agent_event scope identity run_ref group_ref)) _
                      _
                      λ act e8.
                        let request : Text → OutcomeRequest = λ text.
                          outcome_request identity scope run_ref group_ref text delivery_ref
                            (p.situation.source_event_ref ∷ act.source_event_ref ∷ []) in
                        Ends-bind Q (report_case lab case.outcome_text request) _ _
                          λ outcome_ref e9.
                            Ends-bind Q
                              (calling (settled scope expected_episodes)
                                (λ m. lab.on_settle m scope expected_episodes))
                              _ _
                              λ after e10.
                                measure-IsResultOf evaluation_ref lane before after p delivery_ref
                                  option outcome_ref _ (require-true some_shown nothing_rendered e5)

pub Ends-ok : {A : Type 0} (Q : A → Type 0) (r : Result A) {a : A} → r ≡ ok a → Ends Q r → Q a
Ends-ok Q r h q = subst (Ends Q) h q

abbrev pub kinds : List FeedbackResult → List LifecycleKind
kinds results = map (λ (r : FeedbackResult). r.kind) results

pub run_cases-kinds :
    (lab : Lab) (evaluation_ref lane : Text) (before : State) (episodes : ℕ)
    (cases : List LifecycleCase) (made : List LifecycleCall)
    → Ends
        (λ results. kinds results ≡ map (λ (c : LifecycleCase). c.kind) cases)
        (run_cases lab evaluation_ref lane before episodes cases made).0
unfolding run_cases
run_cases-kinds lab evaluation_ref lane before episodes [] made = refl
run_cases-kinds lab evaluation_ref lane before episodes (case ∷ cases) made =
    let Q : List FeedbackResult → Type 0 =
      λ results. kinds results ≡ map (λ (c : LifecycleCase). c.kind) (case ∷ cases) in
    Ends-bind Q (run_feedback_case lab case evaluation_ref lane before episodes) _ made λ result e1.
      Ends-bind Q (run_cases lab evaluation_ref lane result.after (suc episodes) cases) _ _
        λ results e2.
          let (first, shown) =
            Ends-ok (IsResultOf case) _ e1
              (run_feedback_case-IsResultOf lab case evaluation_ref lane before episodes made) in
          let others =
            Ends-ok _ _ e2
              (run_cases-kinds lab evaluation_ref lane result.after (suc episodes) cases _) in
          λ i. first i ∷ others i
