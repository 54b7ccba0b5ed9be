-- ===== src/Tests/Lifecycles.antt =====
-- The theorems about the lifecycle of the evaluation, at a laboratory that always answers the same.
use chora_mem.Prelude.{
  ℕ, Bool, true, false, ◌&&◌, List, [], ◌∷◌, ◌++◌, some, all, leb, nat_eq, list_eq, ◌≡◌, refl,
}
use chora_mem.Text.{codes, strip}
use chora_mem.Text.Unicode.{is_space}
use chora_mem.Result.{ok}
use chora_mem.Trace.{replied}
use chora_mem.Trace.Made.{Made}
use chora_mem.Rendering.{MemoryContext, natural}
use chora_mem.Lifecycle.States.{State, records, basis, nonblank, seed_lineage}
use chora_mem.Lifecycle.States.Lineage.{seed_lineage-version}
use chora_mem.Lifecycle.Summary.{
  LifecycleKind, positive_complete, no_delivery, no_outcome, negative_complete, kind_text,
  expected_kinds, CaseResult, LifecycleSummary, collect_results, unproved, reasons_of,
  summarize_lifecycle,
}
use chora_mem.Lifecycle.Summary.Reasons.{name_of}
use chora_mem.Lifecycle.Summary.Gate.{has_case, proves, summarize_lifecycle-passed}
use chora_mem.Lifecycle.Feedback.{LifecycleCase, Lab, positive_outcome}
use chora_mem.Lifecycle.Feedback.Steps.{run_feedback_case}
use chora_mem.Lifecycle.Feedback.Controls.{IsControlled, run_feedback_case-Made}

abbrev pub is_digit : ℕ → Bool
is_digit c = leb b'0' c && leb c b'9'

seed_lineage-version_example : seed_lineage is_digit (codes "d1" ++ b'@' ∷ codes "12") ≡ codes "d1"
seed_lineage-version_example =
    seed_lineage-version is_digit (codes "d1") (codes "12") refl refl refl refl

-- a result of a case; the flags say what was reenacted, revised and selected otherwise
abbrev result : LifecycleKind → Bool → Bool → Bool → CaseResult
result kind reenacted revised changed = record {
  kind = some (kind_text kind);
  formed = some true;
  rendered = some true;
  agent_act_expressed_tendency = some true;
  reenacted = some reenacted;
  revision_or_inhibition = some revised;
  future_selection_changed = some changed;
}

abbrev results : List CaseResult
results =
    result no_delivery false false false
    ∷ result positive_complete true false false
    ∷ result no_outcome false false false
    ∷ result negative_complete false true true
    ∷ []

abbrev passing : LifecycleSummary
passing = record {
  cases =
      kind_text no_delivery
      ∷ kind_text positive_complete
      ∷ kind_text no_outcome
      ∷ kind_text negative_complete
      ∷ [];
  passed = true;
  reasons = [];
}

results_run : summarize_lifecycle results ≡ ok passing
unfolding summarize_lifecycle collect_results reasons_of unproved nonblank strip is_space
results_run = refl

summarize_lifecycle-passed_example :
    true ≡ (all (has_case results) expected_kinds && all (λ r. proves (name_of r) r) results)
summarize_lifecycle-passed_example = summarize_lifecycle-passed results results_run

abbrev pub context : MemoryContext
context = record {
  context_ref = codes "m1";
  constitution = record { text = []; memory_ref = []; application_scope = 0 };
  recollections = [];
  dispositions =
      record {
        text = codes "Name priorities first.";
        memory_ref = codes "d1@1";
        application_scope = 1;
      }
      ∷ [];
  episode_evidence = [];
}

abbrev pub state : State
state = record {
  dispositions = records (
      some (record {
        status = some (codes "active");
        ref = some (codes "d1@1");
        text = some (codes "Name priorities first.");
      })
      ∷ []);
  basis = basis (records []);
}

abbrev pub lab : Lab
lab = record {
  on_observe =
      λ made event. replied (record { source_event_ref = codes "s1"; episode_ref = codes "e1" });
  on_select = λ made request. replied context;
  on_delivery = λ made receipt. replied (codes "r1");
  on_complete = λ made instructions input. replied (some (codes "A"));
  on_report = λ made request. replied (codes "o1");
  on_settle = λ made scope episodes. replied state;
  token_count = λ text. natural 1;
  memory_tokens = 100;
  max_output_tokens = 8;
  is_digit = is_digit;
  upper = λ text. text;
}

abbrev undelivered : LifecycleCase
undelivered = record {
  kind = no_delivery;
  record_delivery = false;
  outcome_text = some positive_outcome;
}

run_feedback_case-Made_example :
    Made
      (IsControlled undelivered)
      []
      (run_feedback_case lab undelivered (codes "run1") (codes "lane") state 3 []).1
run_feedback_case-Made_example =
    run_feedback_case-Made lab undelivered (codes "run1") (codes "lane") state 3 []
