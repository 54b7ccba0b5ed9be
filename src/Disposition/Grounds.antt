-- ===== src/Disposition/Grounds.antt =====
-- What the material of `disposition_formation_material` is made of (disposition_materials.py).
mod Steps
mod Pairs
mod Experiences
mod Relevant
use mathlib.Core.Path.{subst}
use chora_mem.Prelude.{
  All-of_elem, arith, ◌+◌, ◌≤◌, some-eq, ◌≡◌, refl, sym, Bool, true, false, not, List, [], ◌∷◌,
  Option, none, some, map, All, inl, inr, ◌⊎◌, count, eqb, has_duplicates, nat_eq, list_eq, ◌==◌,
  if◌then◌else◌,
}
use chora_mem.Text.{Text, codes, split}
use chora_mem.Text.Lines.{All-append}
use chora_mem.Wire.{EvidenceEpisode, EvidenceOutcome, WindowEvidence, WindowRequest}
use chora_mem.Disposition.{FormationMaterial}
use chora_mem.Disposition.Window.{
  applications_in, application_at, listed, application_group, matches_line, eligible_new_line,
  offered_applications,
}
use chora_mem.Disposition.Formation.{
  Paired, only_one, experiences_of, relevant_episodes, disposition_formation_material,
  pair_outcomes,
}
use chora_mem.Disposition.Grounds.Steps.{bind-eq-some, none_if-eq-some}
use chora_mem.Disposition.Grounds.Pairs.{
  outcomes_of, pair_outcomes-IsHeard, pair_outcomes-outcomes_of,
}
use chora_mem.Disposition.Grounds.Experiences.{Rests, experiences_of-Rests}
use chora_mem.Disposition.Grounds.Relevant.{IsRelevant, relevant_episodes-IsRelevant}

abbrev episode_ref : EvidenceEpisode → Text
episode_ref e = e.episode_ref

abbrev pub IsFormationScope : Text → Type 0
IsFormationScope application = (application ≡ codes "SELF") ⊎ (application ≡ codes "RELATION")

choice-IsFormationScope :
    (p q : Bool) {a : Text}
    → (if p then some (codes "SELF") else if q then some (codes "RELATION") else none) ≡ some a
    → IsFormationScope a
choice-IsFormationScope true q h = inl (sym (some-eq h))
choice-IsFormationScope false true h = inr (sym (some-eq h))
choice-IsFormationScope false false h = cc

listed-All :
    (P : Text → Type 0) (o : Option Text) → ((a : Text) → o ≡ some a → P a) → All P (listed o)
listed-All P none h = tt
listed-All P (some a) h = (h a refl, tt)

application_at-IsFormationScope :
    (offered : Bool) (rest : List Text) → All IsFormationScope (application_at offered rest)
application_at-IsFormationScope false rest = tt
application_at-IsFormationScope true [] = tt
application_at-IsFormationScope true (next ∷ rest) =
    listed-All IsFormationScope (application_group next) (λ a e. choice-IsFormationScope _ _ e)

applications_in-IsFormationScope : (ls : List Text) → All IsFormationScope (applications_in ls)
unfolding applications_in
applications_in-IsFormationScope [] = tt
applications_in-IsFormationScope (line ∷ rest) =
    All-append IsFormationScope (application_at (matches_line eligible_new_line line) rest)
      (applications_in rest) (application_at-IsFormationScope _ rest)
      (applications_in-IsFormationScope rest)

offered-IsFormationScope : (text : Text) → All IsFormationScope (offered_applications text)
unfolding offered_applications
offered-IsFormationScope text = applications_in-IsFormationScope (split b'\n' text)

only_one-IsFormationScope :
    (ls : List Text) {a : Text}
    → All IsFormationScope ls
    → only_one ls ≡ some a
    → IsFormationScope a
only_one-IsFormationScope [] s h = cc
only_one-IsFormationScope (l ∷ []) s h = subst IsFormationScope (some-eq h) s.0
only_one-IsFormationScope (l ∷ m ∷ ls) s h = cc

-- No relevant Episode has a second Outcome.
pair_outcomes-single :
    (relevant : List Text) (outcomes : List EvidenceOutcome) {table : Paired}
    → pair_outcomes relevant [] outcomes ≡ some table
    → All (λ ref. outcomes_of ref outcomes ≤ 1) relevant
pair_outcomes-single relevant outcomes h =
    All-of_elem (λ ref. outcomes_of ref outcomes ≤ 1) relevant
      (λ ref m. omega (arith, pair_outcomes-outcomes_of relevant ref m [] outcomes h))

-- What a formation material is grounded in: the relevant Episodes of the window's evidence, each
-- with the Outcome that it is paired with.
pub record IsGrounded (request : WindowRequest) (material : FormationMaterial) : Type 0 where
  pub evidence : WindowEvidence
  pub given : request.evidence ≡ some evidence
  pub scope : IsFormationScope material.application
  pub episodes : List EvidenceEpisode
  pub relevant : IsRelevant evidence.episodes episodes
  pub paired : All (λ ref. outcomes_of ref evidence.outcomes ≤ 1) (map episode_ref episodes)
  pub rests :
      Rests request.allowed_basis_refs evidence.outcomes episodes material.experiences
        material.basis_refs

-- A material that is formed has the application SELF or RELATION, and rests on the one anchor
-- Episode, of current origin, and all candidate Episodes of the window's evidence, in this order:
-- there is a candidate, candidates are of current or related origin, the sessions are named and all
-- different, and no Episode has two Outcomes in the evidence. Each of these Episodes in turn gives
-- one experience and two refs, both among the allowed Basis refs: its own, and that of an Outcome
-- of the evidence for this Episode, whose actor is given and no agent. The experience's outcome is
-- the stripped text of that Outcome, its condition the joined stripped texts of the Episode's
-- situations that no agent gave, its response those of its acts by an agent; none of the three is
-- empty.
pub disposition_formation_material-IsGrounded :
    (request : WindowRequest) {material : FormationMaterial}
    → disposition_formation_material request ≡ some material
    → IsGrounded request material
unfolding disposition_formation_material
disposition_formation_material-IsGrounded request h =
    let (evidence, given, k0) = bind-eq-some request.evidence _ h in
    let (_, k1) =
      none_if-eq-some
        (not (eqb (count (λ ref. ref == codes "NEW_DISPOSITION") request.allowed_target_refs) 1)) _
        k0 in
    let (application, offered, k2) =
      bind-eq-some (only_one (offered_applications request.window_text)) _ k1 in
    let (_, k3) = none_if-eq-some (has_duplicates request.allowed_basis_refs) _ k2 in
    let (relevant, e0, k4) = bind-eq-some (relevant_episodes evidence.episodes) _ k3 in
    let refs = map episode_ref relevant in
    let (paired, e1, k5) = bind-eq-some (pair_outcomes refs [] evidence.outcomes) _ k4 in
    let (found, e2, k6) =
      bind-eq-some (experiences_of request.allowed_basis_refs paired relevant) _ k5 in
    let heard =
      pair_outcomes-IsHeard evidence.outcomes refs [] evidence.outcomes (λ o m. m) tt e1 in
    subst (IsGrounded request) (some-eq k6) (record {
      evidence = evidence;
      given = given;
      scope = only_one-IsFormationScope _ (offered-IsFormationScope request.window_text) offered;
      episodes = relevant;
      relevant = relevant_episodes-IsRelevant evidence.episodes e0;
      paired = pair_outcomes-single refs evidence.outcomes e1;
      rests =
          experiences_of-Rests request.allowed_basis_refs evidence.outcomes paired heard relevant
            e2;
    })
