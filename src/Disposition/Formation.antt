-- ===== src/Disposition/Formation.antt =====
-- `disposition_formation_material` (disposition_materials.py). `none` is the source's None.
use chora_mem.Prelude.{
  Bool, false, true, ◌&&◌, ◌||◌, not, List, [], ◌∷◌, ◌++◌, Option, none, some, is_empty, any, elem,
  select, count, lookup, has_duplicates, map, eqb, nat_eq, list_eq, ◌==◌, if◌then◌else◌,
}
use chora_mem.Text.{Text, codes, strip, join, join_lines}
use chora_mem.Text.Unicode.{is_space}
use chora_mem.Wire.{EvidenceSource, EvidenceEpisode, EvidenceOutcome, WindowRequest}
use chora_mem.Disposition.{DispositionExperience, FormationMaterial}
use chora_mem.Disposition.Window.{
  offered_applications, existing_disposition_texts, constitution_text,
}

infixl 5 ◌>>=◌ ◌>>◌
abbrev pub ◌>>=◌ {ℓ κ} : {A : Type ℓ} {B : Type κ} → Option A → (A → Option B) → Option B
none >>= f = none
some a >>= f = f a

abbrev pub ◌>>◌ {ℓ} : {B : Type ℓ} → Option (Unit {0}) → Option B → Option B
m >> k = m >>= λ _. k

-- `if test: return None`
abbrev pub none_if : Bool → Option (Unit {0})
none_if test = if test then none else some tt

abbrev pub has_formation_role : Text → EvidenceEpisode → Bool
has_formation_role role episode = episode.formation_role == role

-- episode_ref to (outcome_ref, text)
abbrev pub Paired : Type 0
Paired = List (Text × (Text × Text))

abbrev pub is_some {ℓ} : {A : Type ℓ} → Option A → Bool
is_some none = false
is_some (some a) = true

-- the loop over the Outcomes
unfoldable pub pair_outcomes : List Text → Paired → List EvidenceOutcome → Option Paired
unfolding strip is_space
pair_outcomes relevant paired [] = some paired
pair_outcomes relevant paired (outcome ∷ rest) =
    let skipped = pair_outcomes relevant paired rest in
    let entry : Text × (Text × Text) =
      (outcome.episode_ref, (outcome.outcome_ref, strip is_space outcome.text)) in
    let added = pair_outcomes relevant (entry ∷ paired) rest in
    if not (elem outcome.episode_ref relevant)
    then skipped
    else if is_empty outcome.outcome_ref
        || is_empty (strip is_space outcome.text)
        || is_empty outcome.actor_kind
        || outcome.actor_kind == codes "agent"
        || is_some (lookup outcome.episode_ref paired)
    then none
    else added

-- the stripped texts, not empty, of the sources that pass a test
abbrev pub source_texts : (EvidenceSource → Bool) → List EvidenceSource → List Text
source_texts p sources =
    select (λ text. not (is_empty text)) (map (λ s. strip is_space s.text) (select p sources))

abbrev pub is_condition : EvidenceSource → Bool
is_condition s = s.role == codes "situation" && not (s.actor_kind == codes "agent")

abbrev pub is_response : EvidenceSource → Bool
is_response s = s.role == codes "agent_act" && s.actor_kind == codes "agent"

-- one round of the loop over the relevant Episodes: the experience and its two Basis refs
unfoldable pub experience_of :
    List Text → Paired → EvidenceEpisode → Option (DispositionExperience × List Text)
unfolding strip is_space join
experience_of allowed_basis paired episode = do
  none_if (is_empty episode.episode_ref || not (elem episode.episode_ref allowed_basis))
  outcome ← lookup episode.episode_ref paired
  none_if (not (elem outcome.0 allowed_basis))
  let conditions = source_texts is_condition episode.sources
  let responses = source_texts is_response episode.sources
  none_if (is_empty conditions || is_empty responses)
  some (
    record {
      condition = join_lines conditions;
      response = join_lines responses;
      outcome = outcome.1;
    },
    episode.episode_ref ∷ outcome.0 ∷ [],
  )

unfoldable pub experiences_of :
    List Text → Paired → List EvidenceEpisode → Option (List DispositionExperience × List Text)
unfolding experience_of
experiences_of allowed_basis paired [] = some ([], [])
experiences_of allowed_basis paired (episode ∷ episodes) = do
  first ← experience_of allowed_basis paired episode
  rest ← experiences_of allowed_basis paired episodes
  some (first.0 ∷ rest.0, first.1 ++ rest.1)

abbrev pub not_interaction : EvidenceEpisode → Bool
not_interaction e = not (e.origin == codes "current" || e.origin == codes "related")

-- `relevant`, or None where anchor and candidates are not as required
unfoldable pub relevant_episodes : List EvidenceEpisode → Option (List EvidenceEpisode)
unfolding has_duplicates
relevant_episodes episodes = elim (select (has_formation_role (codes "anchor")) episodes) [
  | [] ↦ none
  | anchor ∷ [] ↦
      let candidates = select (has_formation_role (codes "candidate")) episodes in
      let sessions = map (λ (e : EvidenceEpisode). e.session_ref) (anchor ∷ candidates) in
      if is_empty candidates
        || not (anchor.origin == codes "current")
        || any not_interaction candidates
        || any is_empty sessions
        || has_duplicates sessions
      then none
      else some (anchor ∷ candidates)
  | anchor ∷ second ∷ more ↦ none
]

abbrev pub only_one : List Text → Option Text
only_one (a ∷ []) = some a
only_one _ = none

unfoldable pub disposition_formation_material : WindowRequest → Option FormationMaterial
unfolding offered_applications has_duplicates relevant_episodes pair_outcomes experiences_of
    constitution_text existing_disposition_texts
disposition_formation_material request = do
  evidence ← request.evidence
  none_if (not (eqb (count (λ ref. ref == codes "NEW_DISPOSITION") request.allowed_target_refs) 1))
  application ← only_one (offered_applications request.window_text)
  none_if (has_duplicates request.allowed_basis_refs)
  relevant ← relevant_episodes evidence.episodes
  paired ←
      pair_outcomes (map (λ (e : EvidenceEpisode). e.episode_ref) relevant) [] evidence.outcomes
  found ← experiences_of request.allowed_basis_refs paired relevant
  some (record {
    application = application;
    constitution = constitution_text request.window_text;
    experiences = found.0;
    existing_dispositions = existing_disposition_texts request.window_text;
    basis_refs = found.1;
  })
