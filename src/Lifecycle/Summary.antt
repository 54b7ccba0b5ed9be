-- ===== src/Lifecycle/Summary.antt =====
-- The gate of the lifecycle (seed_lifecycle.py): which results of the four cases pass, and why not.
pub mod Reasons
pub mod Gate
use chora_mem.Prelude.{
  ℕ, Bool, true, false, ◌&&◌, ◌||◌, not, List, [], ◌∷◌, ◌++◌, Option, none, some, is_empty, elem,
  map, lookup, keys, list_eq, nat_eq, ◌==◌, if◌then◌else◌,
}
use chora_mem.Text.{Text, codes}
use chora_mem.Result.{Result, ok, err, value_error, ◌>>=◌, ◌>>◌, raise_if}
use chora_mem.Lifecycle.States.{Field, nonblank}

pub data LifecycleKind : Type 0 where
  positive_complete : LifecycleKind
  no_delivery : LifecycleKind
  no_outcome : LifecycleKind
  negative_complete : LifecycleKind

abbrev pub kind_text : LifecycleKind → Text
kind_text positive_complete = codes "positive_complete"
kind_text no_delivery = codes "no_delivery"
kind_text no_outcome = codes "no_outcome"
kind_text negative_complete = codes "negative_complete"

-- `set` of the kinds' values
abbrev pub expected_kinds : List Text
expected_kinds =
    map kind_text (positive_complete ∷ no_delivery ∷ no_outcome ∷ negative_complete ∷ [])

-- a field that should hold a `bool`: `none` where it holds anything else or is missing
abbrev pub Flag : Type 0
Flag = Option Bool

abbrev pub is_true : Flag → Bool
is_true (some true) = true
is_true _ = false

abbrev pub is_false : Flag → Bool
is_false (some false) = true
is_false _ = false

-- the fields of a result that the gate reads
pub record CaseResult : Type 0 where
  pub kind : Field
  pub formed : Flag
  pub rendered : Flag
  pub agent_act_expressed_tendency : Flag
  pub reenacted : Flag
  pub revision_or_inhibition : Flag
  pub future_selection_changed : Flag

abbrev pub ByKind : Type 0
ByKind = List (Text × CaseResult)

-- the first loop of `summarize_lifecycle`
unfoldable pub collect_results : ByKind → List CaseResult → Result ByKind
unfolding nonblank
collect_results by_kind [] = ok by_kind
collect_results by_kind (result ∷ rest) = do
  kind ← nonblank result.kind (codes "kind")
  raise_if (not (elem kind expected_kinds) || elem kind (keys by_kind))
      (value_error (codes "lifecycle results must contain unique known cases"))
  collect_results (by_kind ++ (kind, result) ∷ []) rest

-- a reason, where a test asks for it
abbrev pub reason_if : Bool → Text → List Text
reason_if true reason = reason ∷ []
reason_if false reason = []

-- the second loop: the fields that every case has to prove
unfoldable pub unproved : ByKind → List Text
unproved [] = []
unproved ((kind, result) ∷ rest) =
    reason_if (not (is_true result.formed)) (kind ++ codes " did not prove formed")
    ++ (reason_if (not (is_true result.rendered)) (kind ++ codes " did not prove rendered")
        ++ (reason_if (not (is_true result.agent_act_expressed_tendency))
              (kind ++ codes " did not prove agent_act_expressed_tendency")
            ++ unproved rest))

-- a test of the result of one kind, if there is one
abbrev pub fails_at : LifecycleKind → (CaseResult → Bool) → ByKind → Bool
fails_at kind test by_kind = elim (lookup (kind_text kind) by_kind) [
  | none ↦ false
  | some result ↦ test result
]

abbrev pub misses_kind : ByKind → List Text → Bool
misses_kind by_kind [] = false
misses_kind by_kind (kind ∷ kinds) = not (elem kind (keys by_kind)) || misses_kind by_kind kinds

unfoldable pub reasons_of : ByKind → List Text
unfolding unproved
reasons_of by_kind =
    reason_if (misses_kind by_kind expected_kinds) (codes "all four lifecycle cases are required")
    ++ (unproved by_kind
        ++ (reason_if (fails_at positive_complete (λ r. not (is_true r.reenacted)) by_kind)
              (codes "positive complete chain did not reenact")
            ++ (reason_if
                  (fails_at no_delivery
                    (λ r. not (is_false r.reenacted) || not (is_false r.revision_or_inhibition))
                    by_kind)
                  (codes "undelivered control changed the Seed")
                ++ (reason_if
                      (fails_at no_outcome (λ r. not (is_false r.revision_or_inhibition)) by_kind)
                      (codes "outcome-less control revised or inhibited the Seed")
                    ++ reason_if
                        (fails_at negative_complete
                          (λ r.
                            not (is_true r.revision_or_inhibition)
                            || not (is_true r.future_selection_changed))
                          by_kind)
                        (codes "negative complete chain did not change future selection")))))

pub record LifecycleSummary : Type 0 where
  pub cases : List Text
  pub passed : Bool
  pub reasons : List Text

unfoldable pub summarize_lifecycle : List CaseResult → Result LifecycleSummary
unfolding collect_results reasons_of
summarize_lifecycle results = do
  by_kind ← collect_results [] results
  ok (record {
    cases = keys by_kind;
    passed = is_empty (reasons_of by_kind);
    reasons = reasons_of by_kind;
  })
