-- ===== src/Harness/Scopes.antt =====
-- The scope of a run (`_scope` of reference.py) as the mode and the scenario tell it.
use mathlib.Core.Path.{subst}
use mathlib.Core.List.{append_cancel_left}
use chora_mem.Prelude.{ℕ, ◌≡◌, refl, [], ◌∷◌, ◌++◌, eqb_iff, arith}
use chora_mem.Text.{Text, codes, join}
use chora_mem.Text.Lines.{Avoids}
use chora_mem.Harness.{
  EvalMode, no_memory_mode, episode_rag, recollection_only, full_core, mode_text, Scenario,
  HarnessProfile, isolated_scope,
}

separator_stays : (sep : ℕ) (l t : Text) → Avoids sep (l ++ sep ∷ t) → ⊥
separator_stays sep [] t h = cc (h.0, (eqb_iff sep sep).1 refl)
separator_stays sep (c ∷ l) t h = separator_stays sep l t h.1

-- A text is cut in one way only at its last separator.
last_separator :
    (sep : ℕ) (l m t u : Text)
    → Avoids sep t
    → Avoids sep u
    → l ++ sep ∷ t ≡ m ++ sep ∷ u
    → (l ≡ m) × (t ≡ u)
last_separator sep [] [] t u a b h = (refl, cc h)
last_separator sep [] (c ∷ m) t u a b h =
    let same : t ≡ m ++ sep ∷ u = cc h in
    absurd (separator_stays sep m u (subst (Avoids sep) same a))
last_separator sep (c ∷ l) [] t u a b h =
    let same : u ≡ l ++ sep ∷ t = cc h in
    absurd (separator_stays sep l t (subst (Avoids sep) same b))
last_separator sep (c ∷ l) (d ∷ m) t u a b h =
    let rest : l ++ sep ∷ t ≡ m ++ sep ∷ u = cc h in
    let first : c ≡ d = cc h in
    let (heads, tails) = last_separator sep l m t u a b rest in (cc (first, heads), tails)

mode_text-Avoids : (mode : EvalMode) → Avoids b':' (mode_text mode)
mode_text-Avoids no_memory_mode = search tt
mode_text-Avoids episode_rag = search tt
mode_text-Avoids recollection_only = search tt
mode_text-Avoids full_core = search tt

mode_text-injective : (mode other : EvalMode) → mode_text mode ≡ mode_text other → mode ≡ other
mode_text-injective no_memory_mode no_memory_mode h = refl
mode_text-injective episode_rag episode_rag h = refl
mode_text-injective recollection_only recollection_only h = refl
mode_text-injective full_core full_core h = refl
mode_text-injective mode other h = ground arith

-- Runs of one profile whose scopes have the same relationship are of the same mode and of
-- scenarios with the same reference, whatever characters that reference has.
pub isolated_scope-injective :
    (profile : HarnessProfile) (mode other : EvalMode) (scenario second : Scenario)
    → (isolated_scope profile mode scenario).relationship_ref
      ≡ (isolated_scope profile other second).relationship_ref
    → (mode ≡ other) × (scenario.scenario_ref ≡ second.scenario_ref)
unfolding isolated_scope join
isolated_scope-injective profile mode other scenario second h =
    let at_evaluation = append_cancel_left profile.relationship_ref _ _ h in
    let behind_it =
      append_cancel_left profile.evaluation_ref _ _
        (append_cancel_left (codes ":") _ _ at_evaluation) in
    let behind_harness =
      append_cancel_left profile.harness _ _ (append_cancel_left (codes ":") _ _ behind_it) in
    let (refs, modes) =
      last_separator b':' scenario.scenario_ref second.scenario_ref (mode_text mode)
        (mode_text other) (mode_text-Avoids mode) (mode_text-Avoids other)
        (append_cancel_left (codes ":") _ _ behind_harness) in
    (mode_text-injective mode other modes, refs)
