-- ===== src/Lifecycle/Summary/Gate.antt =====
-- What a passing summary shows of the results (`summarize_lifecycle` of seed_lifecycle.py).
use chora_mem.Prelude.{
  Bool, true, false, ◌&&◌, ◌||◌, not, List, [], ◌∷◌, ◌++◌, is_empty, elem, all, any, map, keys,
  Nodup, list_eq, nat_eq, ◌==◌, ◌≡◌, refl, sym, ap, ◌∙◌, arith,
}
use chora_mem.Text.{Text}
use chora_mem.Result.{ok, bind-eq-ok}
use chora_mem.Lifecycle.Summary.{
  LifecycleKind, positive_complete, no_delivery, no_outcome, negative_complete, kind_text,
  expected_kinds, is_true, is_false, CaseResult, ByKind, collect_results, reason_if, unproved,
  fails_at, reasons_of, LifecycleSummary, summarize_lifecycle,
}
use chora_mem.Lifecycle.Summary.Reasons.{
  name_of, entry, proves_use, collect_results-all, lookup-any, is_empty-reason_if,
  is_empty-unproved, misses_kind-all, all-and, all-not, all-same,
}

abbrev is_kind : LifecycleKind → Text → Bool
is_kind kind name = name == kind_text kind

-- What a result of a case has to show: that a Disposition was formed, rendered and acted upon; that
-- the positive chain reenacts; that nothing changes without a delivery, and nothing is revised or
-- inhibited without an outcome; that the negative chain revises or inhibits and that the next
-- selection differs.
abbrev pub proves : Text → CaseResult → Bool
proves name r =
    is_true r.formed
    && is_true r.rendered
    && is_true r.agent_act_expressed_tendency
    && (not (is_kind positive_complete name) || is_true r.reenacted)
    && (not (is_kind no_delivery name)
        || (is_false r.reenacted && is_false r.revision_or_inhibition))
    && (not (is_kind no_outcome name) || is_false r.revision_or_inhibition)
    && (not (is_kind negative_complete name)
        || (is_true r.revision_or_inhibition && is_true r.future_selection_changed))

abbrev pub has_case : List CaseResult → Text → Bool
has_case results kind = any (λ r. name_of r == kind) results

-- what each case must not do
abbrev fails_positive : CaseResult → Bool
fails_positive r = not (is_true r.reenacted)

abbrev fails_no_delivery : CaseResult → Bool
fails_no_delivery r = not (is_false r.reenacted) || not (is_false r.revision_or_inhibition)

abbrev fails_no_outcome : CaseResult → Bool
fails_no_outcome r = not (is_false r.revision_or_inhibition)

abbrev fails_negative : CaseResult → Bool
fails_negative r =
    not (is_true r.revision_or_inhibition) || not (is_true r.future_selection_changed)

abbrev at_kind : LifecycleKind → (CaseResult → Bool) → Text × CaseResult → Bool
at_kind kind test e = e.0 == kind_text kind && test e.1

abbrev never : LifecycleKind → (CaseResult → Bool) → ByKind → Bool
never kind test by_kind = all (λ e. not (at_kind kind test e)) by_kind

is_empty-append : (xs ys : List Text) → is_empty (xs ++ ys) ≡ (is_empty xs && is_empty ys)
is_empty-append [] ys = refl
is_empty-append (x ∷ xs) ys = refl

is_empty-last : (test : Bool) (reason : Text) → is_empty (reason_if test reason) ≡ not test
is_empty-last true reason = refl
is_empty-last false reason = refl

imp_one : (k a : Bool) → (not k || a) ≡ not (k && not a)
imp_one k a = ground arith

imp_two : (k a b : Bool) → (not k || (a && b)) ≡ not (k && (not a || not b))
imp_two k a b = ground arith

and_same : {a b c d : Bool} → a ≡ b → c ≡ d → (a && c) ≡ (b && d)
and_same h g = λ i. h i && g i

regroup :
    (m u a b c d : Bool) → (m && (u && (a && (b && (c && d))))) ≡ (m && (u && a && b && c && d))
regroup m u a b c d = ground arith

proves_lem :
    (name : Text) (r : CaseResult)
    → proves name r ≡ (
        proves_use r
        && not (at_kind positive_complete fails_positive (name, r))
        && not (at_kind no_delivery fails_no_delivery (name, r))
        && not (at_kind no_outcome fails_no_outcome (name, r))
        && not (at_kind negative_complete fails_negative (name, r)))
proves_lem name r =
    and_same (and_same (and_same (and_same refl (imp_one _ _)) (imp_two _ _ _)) (imp_one _ _))
      (imp_two _ _ _)

fails_at-any :
    (kind : LifecycleKind) (test : CaseResult → Bool) (by_kind : ByKind)
    → Nodup (keys by_kind)
    → not (fails_at kind test by_kind) ≡ never kind test by_kind
fails_at-any kind test by_kind nodup =
    ap not (lookup-any (kind_text kind) test by_kind nodup)
    ∙ sym (all-not (at_kind kind test) by_kind)

all-proves :
    (by_kind : ByKind)
    → all (λ e. proves e.0 e.1) by_kind ≡ (
        all (λ e. proves_use e.1) by_kind
        && never positive_complete fails_positive by_kind
        && never no_delivery fails_no_delivery by_kind
        && never no_outcome fails_no_outcome by_kind
        && never negative_complete fails_negative by_kind)
all-proves by_kind =
    all-same _ _ by_kind (λ e. proves_lem e.0 e.1)
    ∙ (all-and _ _ by_kind
        ∙ and_same
            (all-and _ _ by_kind
              ∙ and_same (all-and _ _ by_kind ∙ and_same (all-and _ _ by_kind) refl) refl)
            refl)

is_empty-reasons_of :
    (by_kind : ByKind)
    → Nodup (keys by_kind)
    → is_empty (reasons_of by_kind)
      ≡ (all (λ k. elem k (keys by_kind)) expected_kinds && all (λ e. proves e.0 e.1) by_kind)
unfolding reasons_of
is_empty-reasons_of by_kind nodup =
    is_empty-reason_if _ _ _
    ∙ and_same (misses_kind-all by_kind expected_kinds) (
        is_empty-append (unproved by_kind) _
        ∙ and_same (is_empty-unproved by_kind) (
            is_empty-reason_if _ _ _
            ∙ and_same (fails_at-any positive_complete fails_positive by_kind nodup) (
                is_empty-reason_if _ _ _
                ∙ and_same (fails_at-any no_delivery fails_no_delivery by_kind nodup) (
                    is_empty-reason_if _ _ _
                    ∙ and_same (fails_at-any no_outcome fails_no_outcome by_kind nodup) (
                        is_empty-last _ _
                        ∙ fails_at-any negative_complete fails_negative by_kind nodup)))))
    ∙ regroup (all (λ k. elem k (keys by_kind)) expected_kinds) (all (λ e. proves_use e.1) by_kind)
        (never positive_complete fails_positive by_kind)
        (never no_delivery fails_no_delivery by_kind) (never no_outcome fails_no_outcome by_kind)
        (never negative_complete fails_negative by_kind)
    ∙ ap (λ b. all (λ k. elem k (keys by_kind)) expected_kinds && b) (sym (all-proves by_kind))

elem-keys-entry :
    (results : List CaseResult) (kind : Text)
    → elem kind (keys (map entry results)) ≡ has_case results kind
elem-keys-entry [] kind = refl
elem-keys-entry (r ∷ rest) kind = ap (λ b. name_of r == kind || b) (elem-keys-entry rest kind)

all-entry :
    (results : List CaseResult)
    → all (λ e. proves e.0 e.1) (map entry results) ≡ all (λ r. proves (name_of r) r) results
all-entry [] = refl
all-entry (r ∷ rest) = ap (λ b. proves (name_of r) r && b) (all-entry rest)

ok-eq : {A : Type 0} {a b : A} → ok a ≡ ok b → a ≡ b
ok-eq h = cc h

-- A summary says that the lifecycle passed exactly if the four cases are all among the results, and
-- every result proves what its case has to show.
pub summarize_lifecycle-passed :
    (results : List CaseResult) {summary : LifecycleSummary}
    → summarize_lifecycle results ≡ ok summary
    → summary.passed
      ≡ (all (has_case results) expected_kinds && all (λ r. proves (name_of r) r) results)
unfolding summarize_lifecycle
summarize_lifecycle-passed results h =
    let (by_kind, collected, h1) = bind-eq-ok (collect_results [] results) _ h in
    let (same, nodup) = collect_results-all [] results collected tt in
    ap (λ (s : LifecycleSummary). s.passed) (sym (ok-eq h1))
    ∙ is_empty-reasons_of by_kind nodup
    ∙ ap (λ (x : ByKind). all (λ k. elem k (keys x)) expected_kinds && all (λ e. proves e.0 e.1) x)
        same
    ∙ and_same (all-same _ _ expected_kinds (elem-keys-entry results)) (all-entry results)
