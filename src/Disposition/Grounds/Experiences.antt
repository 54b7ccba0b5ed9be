-- ===== src/Disposition/Grounds/Experiences.antt =====
-- The loop of `disposition_formation_material` over the relevant Episodes
-- (disposition_materials.py).
use mathlib.Core.Path.{subst}
use chora_mem.Prelude.{
  ◌≡◌, refl, sym, Bool, false, true, ◌||◌, not, List, [], ◌∷◌, ◌++◌, some, some-eq, elem, is_empty,
  All, select, select-passes, lookup, map, nat_eq, list_eq,
}
use chora_mem.Text.{Text, strip, join, join_lines}
use chora_mem.Text.Unicode.{is_space}
use chora_mem.Wire.{EvidenceSource, EvidenceEpisode, EvidenceOutcome}
use chora_mem.Disposition.{DispositionExperience}
use chora_mem.Disposition.Formation.{
  Paired, experience_of, experiences_of, source_texts, is_condition, is_response,
}
use chora_mem.Disposition.Grounds.Steps.{bind-eq-some, none_if-eq-some, or-false_both, not-false}
use chora_mem.Disposition.Grounds.Pairs.{Heard, IsHeard, lookup-IsHeard}

-- What one Episode gives: its texts, and the Outcome that it is paired with.
pub record IsExperience (allowed : List Text) (outcomes : List EvidenceOutcome)
    (episode : EvidenceEpisode) (outcome_ref : Text) (experience : DispositionExperience)
    : Type 0 where
  pub heard : Heard outcomes episode.episode_ref outcome_ref experience.outcome
  pub episode_allowed : elem episode.episode_ref allowed ≡ true
  pub outcome_allowed : elem outcome_ref allowed ≡ true
  pub condition : experience.condition ≡ join_lines (source_texts is_condition episode.sources)
  pub condition_filled : is_empty experience.condition ≡ false
  pub response : experience.response ≡ join_lines (source_texts is_response episode.sources)
  pub response_filled : is_empty experience.response ≡ false

-- Every Episode in turn gives one experience, and two refs: its own and its Outcome's.
pub data Rests (allowed : List Text) (outcomes : List EvidenceOutcome)
    : List EvidenceEpisode → List DispositionExperience → List Text → Type 0 where
  nothing : Rests allowed outcomes [] [] []
  cited :
      {episode : EvidenceEpisode} {outcome_ref : Text} {experience : DispositionExperience}
      {episodes : List EvidenceEpisode} {experiences : List DispositionExperience}
      {refs : List Text}
      → IsExperience allowed outcomes episode outcome_ref experience
      → Rests allowed outcomes episodes experiences refs
      → Rests allowed outcomes
          (episode ∷ episodes)
          (experience ∷ experiences)
          (episode.episode_ref ∷ outcome_ref ∷ refs)

join_lines-filled :
    (texts : List Text)
    → is_empty texts ≡ false
    → All (λ t. not (is_empty t) ≡ true) texts
    → is_empty (join_lines texts) ≡ false
unfolding join
join_lines-filled [] f h = cc
join_lines-filled ([] ∷ texts) f h = cc (h.0)
join_lines-filled ((c ∷ t) ∷ []) f h = refl
join_lines-filled ((c ∷ t) ∷ u ∷ texts) f h = refl

source_texts-filled :
    (p : EvidenceSource → Bool) (sources : List EvidenceSource)
    → is_empty (source_texts p sources) ≡ false
    → is_empty (join_lines (source_texts p sources)) ≡ false
source_texts-filled p sources f = join_lines-filled (source_texts p sources) f (
    select-passes (λ (text : Text). not (is_empty text))
      (map (λ (s : EvidenceSource). strip is_space s.text) (select p sources)))

-- The two results of a round belong together.
record Found (allowed : List Text) (outcomes : List EvidenceOutcome) (episode : EvidenceEpisode)
    (found : DispositionExperience × List Text) : Type 0 where
  outcome_ref : Text
  rests : IsExperience allowed outcomes episode outcome_ref found.0
  refs : found.1 ≡ episode.episode_ref ∷ outcome_ref ∷ []

module _ (allowed : List Text) (outcomes : List EvidenceOutcome) (paired : Paired)
    (heard : All (IsHeard outcomes) paired) where
  experience_of-Found :
      (episode : EvidenceEpisode) {found : DispositionExperience × List Text}
      → experience_of allowed paired episode ≡ some found
      → Found allowed outcomes episode found
  unfolding experience_of
  experience_of-Found episode {found} h =
      let (offered, k0) =
        none_if-eq-some (is_empty episode.episode_ref || not (elem episode.episode_ref allowed)) _
          h in
      let (outcome, e, k1) = bind-eq-some (lookup episode.episode_ref paired) _ k0 in
      let (permitted, k2) = none_if-eq-some (not (elem outcome.0 allowed)) _ k1 in
      let (told, k3) =
        none_if-eq-some
          (is_empty (source_texts is_condition episode.sources)
            || is_empty (source_texts is_response episode.sources))
          _ k2 in
      let (situations, acts) = or-false_both _ _ told in
      let (_, among) = or-false_both _ _ offered in
      subst (Found allowed outcomes episode) (some-eq k3) (record {
        outcome_ref = outcome.0;
        rests = record {
          heard = lookup-IsHeard outcomes episode.episode_ref paired heard e;
          episode_allowed = not-false _ among;
          outcome_allowed = not-false _ permitted;
          condition = refl;
          condition_filled = source_texts-filled is_condition episode.sources situations;
          response = refl;
          response_filled = source_texts-filled is_response episode.sources acts;
        };
        refs = refl;
      })

  pub experiences_of-Rests :
      (episodes : List EvidenceEpisode) {found : List DispositionExperience × List Text}
      → experiences_of allowed paired episodes ≡ some found
      → Rests allowed outcomes episodes found.0 found.1
  unfolding experiences_of
  experiences_of-Rests [] h =
      subst (λ (f : List DispositionExperience × List Text). Rests allowed outcomes [] f.0 f.1)
        (some-eq h) nothing
  experiences_of-Rests (episode ∷ episodes) h =
      let (first, e0, k0) = bind-eq-some (experience_of allowed paired episode) _ h in
      let (rest, e1, k1) = bind-eq-some (experiences_of allowed paired episodes) _ k0 in
      let found = experience_of-Found episode e0 in
      subst
        (λ (f : List DispositionExperience × List Text).
          Rests allowed outcomes (episode ∷ episodes) f.0 f.1)
        (some-eq k1)
        (subst
          (λ (refs : List Text).
            Rests allowed outcomes (episode ∷ episodes) (first.0 ∷ rest.0) (refs ++ rest.1))
          (sym found.refs) (cited found.rests (experiences_of-Rests episodes e1)))
