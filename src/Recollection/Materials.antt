-- ===== src/Recollection/Materials.antt =====
-- `recollection_materials` and `_render_context` (source_materials.py).
use chora_mem.Prelude.{
  ◌-◌, Bool, ◌&&◌, not, List, [], ◌∷◌, ◌++◌, none, some, is_empty, any, elem, select, map,
  has_duplicates, ltb, leb, nat_eq, list_eq, ◌==◌, if◌then◌else◌,
}
use chora_mem.Text.{Text, codes, strip, split, join, join_lines}
use chora_mem.Text.Unicode.{is_space}
use chora_mem.Result.{Result, ok, err, value_error, ◌>>=◌, ◌>>◌, raise_if}
use chora_mem.Checks.{max_change_text_bytes, utf8_size, validate_required_ref, validate_source_text}
use chora_mem.Wire.{
  EvidenceEpisode, EvidenceOutcome, EvidenceRecollection, WindowEvidence, WindowRequest,
}
use chora_mem.Recollection.{RecollectionMaterial}
use chora_mem.Recollection.Sources.{actor_kinds, CopiedSource, EpisodeScan, scan_episodes}

abbrev pub applications : List Text
applications = codes "self" ∷ codes "other" ∷ codes "relation" ∷ codes "situation" ∷ []

-- the loop over `allowed_basis`, and that over `request.evidence.recollections`
unfoldable pub validate_allowed_basis : List Text → Result (Unit {0})
unfolding validate_required_ref
validate_allowed_basis [] = ok tt
validate_allowed_basis (ref ∷ refs) = do
  validate_required_ref ref (codes "allowed basis ref")
  validate_allowed_basis refs

unfoldable pub existing_texts :
    List Text → List Text → List EvidenceRecollection → Result (List Text)
unfolding validate_required_ref utf8_size strip is_space
existing_texts allowed_targets seen [] = ok []
existing_texts allowed_targets seen (recollection ∷ rest) = do
  validate_required_ref recollection.version_ref (codes "Recollection version ref")
  raise_if (elem recollection.version_ref seen)
      (value_error (codes "duplicate existing Recollection"))
  raise_if (not (elem recollection.version_ref allowed_targets))
      (value_error (codes "existing Recollection lacks Target permission"))
  raise_if (not (elem recollection.application applications))
      (value_error (codes "invalid existing Recollection application"))
  let text = strip is_space recollection.text
  raise_if (is_empty text) (value_error (codes "existing Recollection text is required"))
  n ← utf8_size text (codes "existing Recollection text")
  raise_if (ltb max_change_text_bytes n)
      (value_error (codes "existing Recollection text exceeds 4 KiB"))
  texts ← existing_texts allowed_targets (recollection.version_ref ∷ seen) rest
  ok (text ∷ texts)

-- the loop over `request.evidence.outcomes`
unfoldable pub validate_outcomes : List Text → List Text → List EvidenceOutcome → Result (Unit {0})
unfolding validate_required_ref validate_source_text
validate_outcomes episode_refs seen [] = ok tt
validate_outcomes episode_refs seen (outcome ∷ rest) = do
  validate_required_ref outcome.outcome_ref (codes "outcome ref")
  validate_required_ref outcome.episode_ref (codes "outcome episode ref")
  raise_if (elem outcome.outcome_ref seen) (value_error (codes "duplicate outcome ref"))
  raise_if (not (elem outcome.episode_ref episode_refs))
      (value_error (codes "Outcome references an unknown Episode"))
  raise_if (not (elem outcome.actor_kind actor_kinds))
      (value_error (codes "unknown Outcome actor kind"))
  validate_required_ref outcome.actor_ref (codes "Outcome actor ref")
  validate_source_text outcome.text
  validate_outcomes episode_refs (outcome.outcome_ref ∷ seen) rest

-- `text.upper()` on the roles, whose letters are ASCII
abbrev pub upper : Text → Text
upper = map (λ c. if leb b'a' c && leb c b'z' then c - 32 else c)

-- the lines of one source in `_render_context`
abbrev pub source_lines : CopiedSource → List Text
source_lines s =
    (upper s.role ++ (codes " " ++ s.actor_kind))
    ∷ map (λ line. codes "> " ++ line) (split b'\n' s.text)

abbrev pub sources_lines : List CopiedSource → List Text
sources_lines [] = []
sources_lines (s ∷ rest) = source_lines s ++ sources_lines rest

-- one block of `_render_context`
abbrev pub context_block : Text × List CopiedSource → Text
context_block episode = join_lines (
    (if episode.0 == codes "current" then codes "CURRENT_EPISODE" else codes "RELATED_EPISODE")
    ∷ sources_lines episode.1)

unfoldable pub render_context : List (Text × List CopiedSource) → Text
unfolding split join
render_context episodes = join (codes "\n\n") (map context_block episodes)

abbrev pub is_current : EvidenceEpisode → Bool
is_current episode = episode.origin == codes "current"

-- the refs of the current Episodes, in order
unfoldable pub current_refs : List EvidenceEpisode → List Text
current_refs episodes = map (λ episode. episode.episode_ref) (select is_current episodes)

-- what is returned, from what the loops have gathered
abbrev pub make_materials :
    List EvidenceEpisode → List Text → EpisodeScan → List RecollectionMaterial
make_materials episodes existing scan =
    map
      (λ found. record {
        episode_ref = found.0;
        source_ref = found.1.0;
        text = found.1.1;
        context_text = render_context scan.context_episodes;
        basis_refs = current_refs episodes;
        existing_recollections = existing;
      })
      scan.current_sources

abbrev pub no_episodes : EpisodeScan
no_episodes = record {
  episode_refs = [];
  source_state = [];
  context_episodes = [];
  current_sources = [];
}

-- the part that reads the evidence
unfoldable pub evidence_materials :
    List Text → List Text → WindowEvidence → Result (List RecollectionMaterial)
unfolding validate_allowed_basis existing_texts scan_episodes validate_outcomes has_duplicates
evidence_materials allowed_targets allowed_basis evidence = do
  raise_if (has_duplicates allowed_targets) (value_error (codes "duplicate allowed target ref"))
  raise_if (has_duplicates allowed_basis) (value_error (codes "duplicate allowed basis ref"))
  raise_if (not (elem (codes "NEW_RECOLLECTION") allowed_targets))
      (value_error (codes "NEW_RECOLLECTION target permission is required"))
  validate_allowed_basis allowed_basis
  existing ← existing_texts allowed_targets [] evidence.recollections
  raise_if (is_empty evidence.episodes) (value_error (codes "typed evidence requires Episodes"))
  scan ← scan_episodes allowed_basis no_episodes evidence.episodes
  raise_if (not (any is_current evidence.episodes))
      (value_error (codes "typed evidence requires a current Episode"))
  validate_outcomes scan.episode_refs [] evidence.outcomes
  ok (make_materials evidence.episodes existing scan)

unfoldable pub recollection_materials : WindowRequest → Result (List RecollectionMaterial)
unfolding evidence_materials
recollection_materials request = elim request.evidence [
  | none ↦ err (value_error (codes "typed evidence is required"))
  | some evidence ↦
      evidence_materials request.allowed_target_refs request.allowed_basis_refs evidence
]
