-- ===== src/Lifecycle/Suite/Verdict.antt =====
-- The summary of the suite (`run_lifecycle_suite` of seed_lifecycle.py).
use mathlib.Core.Path.{subst}
use chora_mem.Prelude.{ℕ, List, [], ◌∷◌, all, map, ◌≡◌, refl}
use chora_mem.Text.{Text, strip}
use chora_mem.Text.Unicode.{is_space}
use chora_mem.Result.{ok}
use chora_mem.Lifecycle.States.{State, nonblank}
use chora_mem.Lifecycle.Summary.{
  LifecycleKind, positive_complete, no_delivery, no_outcome, negative_complete, kind_text,
  collect_results, LifecycleSummary, summarize_lifecycle,
}
use chora_mem.Lifecycle.Summary.Gate.{proves, summarize_lifecycle-passed}
use chora_mem.Lifecycle.Feedback.{LifecycleCall, Lab, FeedbackResult}
use chora_mem.Lifecycle.Feedback.Steps.{case_result}
use chora_mem.Lifecycle.Suite.{ordered_cases, run_cases}
use chora_mem.Lifecycle.Suite.Cases.{kinds, run_cases-kinds, Ends-ok}

-- the kinds in the order of the suite
abbrev pub suite_kinds : List LifecycleKind
suite_kinds = no_delivery ∷ positive_complete ∷ no_outcome ∷ negative_complete ∷ []

-- A verdict on results: all four cases, passed exactly if each result proves what its case has to.
pub record IsVerdict (results : List FeedbackResult) (summary : LifecycleSummary) : Type 0 where
  pub cases : summary.cases ≡ map kind_text suite_kinds
  pub passed : summary.passed ≡ all (λ r. proves (kind_text r.kind) (case_result r)) results

-- a result with another kind
abbrev as_kind : LifecycleKind → FeedbackResult → FeedbackResult
as_kind kind r = record r { kind = kind }

abbrev four :
    FeedbackResult → FeedbackResult → FeedbackResult → FeedbackResult → List FeedbackResult
four a b c d =
    as_kind no_delivery a
    ∷ as_kind positive_complete b
    ∷ as_kind no_outcome c
    ∷ as_kind negative_complete d
    ∷ []

-- The results have a summary, with its verdict.
abbrev pub HasVerdict : List FeedbackResult → Type 0
HasVerdict results =
    (summary : LifecycleSummary) × (summarize_lifecycle (map case_result results) ≡ ok summary)
    × IsVerdict results summary

four-HasVerdict : (a b c d : FeedbackResult) → HasVerdict (four a b c d)
unfolding summarize_lifecycle collect_results nonblank strip is_space
four-HasVerdict a b c d = (
  _,
  refl,
  record {
    cases = refl;
    passed = summarize_lifecycle-passed (map case_result (four a b c d)) refl;
  },
)

kinds-HasVerdict :
    (results : List FeedbackResult) → kinds results ≡ suite_kinds → HasVerdict results
kinds-HasVerdict [] h = cc h
kinds-HasVerdict (a ∷ []) h = cc h
kinds-HasVerdict (a ∷ b ∷ []) h = cc h
kinds-HasVerdict (a ∷ b ∷ c ∷ []) h = cc h
kinds-HasVerdict (a ∷ b ∷ c ∷ d ∷ e ∷ rest) h = cc h
kinds-HasVerdict (a ∷ b ∷ c ∷ d ∷ []) h =
    let first : no_delivery ≡ a.kind = cc h in
    let second : positive_complete ≡ b.kind = cc h in
    let third : no_outcome ≡ c.kind = cc h in
    let fourth : negative_complete ≡ d.kind = cc h in
    subst HasVerdict
      (λ i.
        as_kind (first i) a
        ∷ as_kind (second i) b
        ∷ as_kind (third i) c
        ∷ as_kind (fourth i) d
        ∷ [])
      (four-HasVerdict a b c d)

-- Where the four cases of the suite have run, the summary is made: it lists the cases in their order,
-- and says that the lifecycle passed exactly if each result proves what its case has to show.
pub run_cases-HasVerdict :
    (lab : Lab) (evaluation_ref lane : Text) (before : State) (episodes : ℕ)
    (made : List LifecycleCall) {results : List FeedbackResult}
    → (run_cases lab evaluation_ref lane before episodes ordered_cases made).0 ≡ ok results
    → HasVerdict results
run_cases-HasVerdict lab evaluation_ref lane before episodes made h =
    kinds-HasVerdict _
      (Ends-ok _ _ h (run_cases-kinds lab evaluation_ref lane before episodes ordered_cases made))
