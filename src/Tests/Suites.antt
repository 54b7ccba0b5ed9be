-- ===== src/Tests/Suites.antt =====
-- The theorems about the suite of the lifecycle, at a laboratory that always answers the same.
use chora_mem.Prelude.{List, [], ◌≡◌, refl}
use chora_mem.Text.{codes, strip, join}
use chora_mem.Text.Unicode.{is_space}
use chora_mem.Result.{Result, ok, err}
use chora_mem.Trace.Made.{Ends}
use chora_mem.Rendering.{
  validated_items, render_memory_context, validate_ref, append_item, append_items,
  append_all_evidence, with_item, join_sections, deliver, validate_budget_options,
}
use chora_mem.Lifecycle.States.{
  nonblank, active_dispositions, add_active, basis_delta, seed_basis, add_links, seed_lineage,
  rpartition_at,
}
use chora_mem.Lifecycle.Feedback.{lane_scope, extract_option_token, FeedbackResult}
use chora_mem.Lifecycle.Feedback.Steps.{
  probe, deliver_case, choose, act_on, report_case, measure, run_feedback_case,
}
use chora_mem.Lifecycle.Suite.{
  observe_complete_turn, has_formed, form_from, form_lifecycle_seed, ordered_cases, run_cases,
}
use chora_mem.Lifecycle.Suite.Verdict.{HasVerdict, run_cases-HasVerdict}
use chora_mem.Lifecycle.Suite.Forming.{IsFormedWithin, form_lifecycle_seed-IsFormed}
use chora_mem.Tests.Lifecycles.{lab, state}

abbrev results_of : Result (List FeedbackResult) → List FeedbackResult
results_of (ok results) = results
results_of (err e) = []

abbrev results : List FeedbackResult
results = results_of (run_cases lab (codes "run1") (codes "lane") state 3 ordered_cases []).0

cases_run : (run_cases lab (codes "run1") (codes "lane") state 3 ordered_cases []).0 ≡ ok results
unfolding run_cases run_feedback_case active_dispositions add_active nonblank lane_scope probe
    deliver_case choose act_on report_case measure basis_delta seed_basis add_links seed_lineage
    rpartition_at extract_option_token render_memory_context validated_items validate_budget_options
    append_items append_item append_all_evidence validate_ref deliver with_item join_sections join
    strip is_space
cases_run = refl

run_cases-HasVerdict_example : HasVerdict results
run_cases-HasVerdict_example =
    run_cases-HasVerdict lab (codes "run1") (codes "lane") state 3 [] cases_run

seed_runs : (form_lifecycle_seed lab (codes "run1") (codes "lane") 0 []).0 ≡ ok (state, 2)
unfolding form_lifecycle_seed form_from observe_complete_turn has_formed active_dispositions
    add_active nonblank lane_scope strip is_space
seed_runs = refl

form_lifecycle_seed-IsFormed_example :
    Ends (IsFormedWithin 0 3) (form_lifecycle_seed lab (codes "run1") (codes "lane") 0 []).0
form_lifecycle_seed-IsFormed_example =
    form_lifecycle_seed-IsFormed lab (codes "run1") (codes "lane") 0 []
