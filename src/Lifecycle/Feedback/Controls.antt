-- ===== src/Lifecycle/Feedback/Controls.antt =====
-- What a case of the lifecycle may call, whatever answers (`_run_feedback_case` of
-- seed_lifecycle.py).
use chora_mem.Prelude.{
  ℕ, Bool, true, false, ◌||◌, not, List, [], ◌∷◌, ◌++◌, Option, none, some, is_empty, map, list_eq,
  nat_eq, if◌then◌else◌, ◌≡◌, refl, sym, ap, ◌∙◌,
}
use chora_mem.Text.{Text, codes}
use chora_mem.Result.{ok, err}
use chora_mem.Trace.{Traced, from, calling}
use chora_mem.Trace.Made.{Made, Made-none, Made-calling, Made-call, Made-pure, Made-bind}
use chora_mem.Rendering.{natural, render_memory_context}
use chora_mem.Agents.Calls.{SourceEventReceipt, ObserveRequest, DeliveryReceipt, OutcomeRequest}
use chora_mem.Lifecycle.States.{State, active_dispositions, basis_delta, seed_lineage}
use chora_mem.Lifecycle.Summary.{kind_text}
use chora_mem.Lifecycle.Feedback.{
  LifecycleCase, LifecycleCall, observed, selected, delivered, completed, reported, settled, Lab,
  Probe, query, choice_input, lane_scope, step_identity, turn_event, probe_request,
  with_memory_text,
}
use chora_mem.Lifecycle.Feedback.Steps.{
  user_ref, probe, delivery_receipt, agent_event, outcome_request, require, invalid_option,
  nothing_active, nothing_rendered, deliver_case, choose, action_text, act_on, report_case, measure,
  run_feedback_case,
}

-- Only a case that records deliveries delivers; only one with an outcome reports, its text, and
-- with a receipt only after a delivery; no selection asks for the text of Episodes.
abbrev pub IsControlled : LifecycleCase → LifecycleCall → Type 0
IsControlled case (delivered receipt) = case.record_delivery ≡ true
IsControlled case (reported request) =
    (case.outcome_text ≡ some request.text)
    × ((is_empty request.delivery_receipt_refs || case.record_delivery) ≡ true)
IsControlled case (selected request) = request.episode_evidence_max_bytes ≡ 0
IsControlled case (observed event) = Unit
IsControlled case (completed instructions input_text limit) = Unit
IsControlled case (settled scope episodes) = Unit

ok-eq : {A : Type 0} {a b : A} → ok a ≡ ok b → a ≡ b
ok-eq h = cc h

cited :
    (delivery_ref : Text)
    → delivery_ref ≡ []
    → (is_empty (if is_empty delivery_ref then [] else delivery_ref ∷ []) || false) ≡ true
cited [] h = refl
cited (c ∷ r) h = cc h

module _ (lab : Lab) (case : LifecycleCase) where
  probe-Made :
      (event : ObserveRequest) (run_ref : Text) (made : List LifecycleCall)
      → Made (IsControlled case) made (probe lab event run_ref made).1
  unfolding probe
  probe-Made event run_ref made =
      Made-call (observed event) (λ m. lab.on_observe m event) _ made tt
        λ situation.
          let request = probe_request event.scope run_ref situation in
          Made-call (selected request) (λ m. lab.on_select m request) _ _ refl
            λ context.
              Made-pure
                (render_memory_context context (some (natural lab.memory_tokens))
                  (some lab.token_count))
                _ _ (λ rendered same. Made-none _)

  deliver_case-Made :
      (receipt : DeliveryReceipt) (made : List LifecycleCall)
      → Made (IsControlled case) made (deliver_case lab case.record_delivery receipt made).1
  unfolding deliver_case
  deliver_case-Made receipt made = allowed case.record_delivery refl
    where
      allowed :
          (b : Bool)
          → case.record_delivery ≡ b
          → Made (IsControlled case) made (deliver_case lab b receipt made).1
      allowed false same = Made-none made
      allowed true same =
          Made-calling (delivered receipt) (λ m. lab.on_delivery m receipt) made same

  choose-Made :
      (p : Probe) (made : List LifecycleCall) → Made (IsControlled case) made (choose lab p made).1
  unfolding choose
  choose-Made p made =
      let instructions = with_memory_text p.rendered in
      Made-call (completed instructions (choice_input query) lab.max_output_tokens)
        (λ m. lab.on_complete m instructions (choice_input query)) _ made tt (λ output. Made-none _)

  act_on-Made :
      (option : Text) (event : Text → ObserveRequest) (made : List LifecycleCall)
      → Made (IsControlled case) made (act_on lab option event made).1
  unfolding act_on
  act_on-Made option event made = acting (action_text option)
    where
      acting :
          (o : Option Text)
          → Made
              (IsControlled case)
              made
              ((elim o as (λ x. Traced LifecycleCall SourceEventReceipt) [
                | none ↦ from (err invalid_option)
                | some text ↦ calling (observed (event text)) (λ m. lab.on_observe m (event text))
              ])
                made).1
      acting none = Made-none made
      acting (some text) =
          Made-calling (observed (event text)) (λ m. lab.on_observe m (event text)) made tt

  report_case-Made :
      (request : Text → OutcomeRequest) (made : List LifecycleCall)
      → ((text : Text) → (request text).text ≡ text)
      → ((text : Text)
          → (is_empty (request text).delivery_receipt_refs || case.record_delivery) ≡ true)
      → Made (IsControlled case) made (report_case lab case.outcome_text request made).1
  unfolding report_case
  report_case-Made request made own cites = allowed case.outcome_text refl
    where
      allowed :
          (o : Option Text)
          → case.outcome_text ≡ o
          → Made (IsControlled case) made (report_case lab o request made).1
      allowed none same = Made-none made
      allowed (some text) same =
          Made-calling (reported (request text)) (λ m. lab.on_report m (request text)) made
            (same ∙ ap some (sym (own text)), cites text)

  measure-Made :
      (evaluation_ref lane : Text) (before after : State) (p : Probe)
      (delivery_ref option outcome_ref : Text) (made : List LifecycleCall)
      → Made
          (IsControlled case)
          made
          (measure lab case evaluation_ref lane before after p delivery_ref option outcome_ref
            made).1
  unfolding measure
  measure-Made evaluation_ref lane before after p delivery_ref option outcome_ref made =
      let lineages = map (seed_lineage lab.is_digit) p.rendered_dispositions in
      let step = kind_text case.kind ++ codes "-delayed" in
      let identity = step_identity evaluation_ref lane step in
      Made-pure (basis_delta lab.is_digit before after (codes "reenactment" ∷ []) lineages) _ _
        λ reenacted e1.
          Made-pure
            (basis_delta lab.is_digit before after (codes "revision" ∷ codes "inhibition" ∷ [])
              lineages)
            _ _
            λ revised e2. Made-pure (lane_scope evaluation_ref lane step) _ _ λ scope e3.
              let event =
                turn_event scope (identity ++ codes ":situation") query 1 user_ref [] [] 0 in
              Made-bind (probe lab event (identity ++ codes ":run")) _ _ (probe-Made event _ _)
                λ delayed e4.
                  Made-bind (choose lab delayed) _ _ (choose-Made delayed _)
                    (λ delayed_option e5. Made-none _)

  -- Without a delivery there is no receipt to cite.
  deliver_case-cites :
      (receipt : DeliveryReceipt) (made : List LifecycleCall) {delivery_ref : Text}
      → (deliver_case lab case.record_delivery receipt made).0 ≡ ok delivery_ref
      → (is_empty (if is_empty delivery_ref then [] else delivery_ref ∷ []) || case.record_delivery)
        ≡ true
  unfolding deliver_case
  deliver_case-cites receipt made {delivery_ref} h = decided case.record_delivery h
    where
      or_true : (b : Bool) → (b || true) ≡ true
      or_true true = refl
      or_true false = refl

      decided :
          (b : Bool)
          → (deliver_case lab b receipt made).0 ≡ ok delivery_ref
          → (is_empty (if is_empty delivery_ref then [] else delivery_ref ∷ []) || b) ≡ true
      decided true h = or_true _
      decided false h = cited delivery_ref (sym (ok-eq h))

  -- Whatever the memory, the model and the settling service answer, and also where the case fails on
  -- the way: it makes a delivery only if the case records deliveries; it reports an outcome only if
  -- the case has one, with its text, and cites a delivery only if the case records deliveries; and
  -- no selection asks for the text of Episodes.
  pub run_feedback_case-Made :
      (evaluation_ref lane : Text) (before : State) (expected_episodes : ℕ)
      (made : List LifecycleCall)
      → Made
          (IsControlled case)
          made
          (run_feedback_case lab case evaluation_ref lane before expected_episodes made).1
  unfolding run_feedback_case
  run_feedback_case-Made evaluation_ref lane before expected_episodes made =
      let step = kind_text case.kind ++ codes "-feedback" in
      let identity = step_identity evaluation_ref lane step in
      let run_ref = identity ++ codes ":run" in
      let group_ref = identity ++ codes ":source-group" in
      Made-pure (active_dispositions before) _ _ λ formed e1.
        Made-pure (require (not (is_empty formed)) nothing_active) _ _ λ checked e2.
          Made-pure (lane_scope evaluation_ref lane step) _ _ λ scope e3.
            let event =
              turn_event scope (identity ++ codes ":situation") query 1 user_ref run_ref group_ref
                1 in
            Made-bind (probe lab event run_ref) _ _ (probe-Made event run_ref _) λ p e4.
              Made-pure (require (not (is_empty p.rendered_dispositions)) nothing_rendered) _ _
                λ shown e5.
                  let receipt = delivery_receipt identity scope run_ref p in
                  Made-bind (deliver_case lab case.record_delivery receipt) _ _
                    (deliver_case-Made receipt _)
                    λ delivery_ref e6. Made-bind (choose lab p) _ _ (choose-Made p _) λ option e7.
                      Made-bind (act_on lab option (agent_event scope identity run_ref group_ref)) _
                        _ (act_on-Made option (agent_event scope identity run_ref group_ref) _)
                        λ act e8.
                          let request : Text → OutcomeRequest = λ text.
                            outcome_request identity scope run_ref group_ref text delivery_ref
                              (p.situation.source_event_ref ∷ act.source_event_ref ∷ []) in
                          Made-bind (report_case lab case.outcome_text request) _ _
                            (report_case-Made request _ (λ text. refl)
                              (λ text. deliver_case-cites receipt _ e6))
                            λ outcome_ref e9.
                              Made-call (settled scope expected_episodes)
                                (λ m. lab.on_settle m scope expected_episodes) _ _ tt
                                λ after.
                                  measure-Made evaluation_ref lane before after p delivery_ref
                                    option outcome_ref _
