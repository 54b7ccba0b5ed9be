-- ===== src/Recollection/Sources.antt =====
-- The scan of the Episodes in `recollection_materials` (source_materials.py): the sources of one
-- Episode, and the state that the loops carry.
use chora_mem.Prelude.{
  Bool, false, ◌&&◌, ◌||◌, not, List, [], ◌∷◌, ◌++◌, Option, none, some, is_empty, elem, lookup,
  nat_eq, list_eq, pair_eq, ◌==◌, if◌then◌else◌,
}
use chora_mem.Text.{Text, codes}
use chora_mem.Result.{Result, ok, value_error, ◌>>=◌, ◌>>◌, raise_if}
use chora_mem.Checks.{
  validate_required_ref, validate_optional_ref, validate_basis_ref, validate_source_text,
}
use chora_mem.Wire.{EvidenceSource, EvidenceEpisode}

abbrev pub origins : List Text
origins = codes "current" ∷ codes "related" ∷ codes "revision_anchor" ∷ []

abbrev pub roles : List Text
roles = codes "situation" ∷ codes "agent_act" ∷ []

abbrev pub actor_kinds : List Text
actor_kinds = codes "agent" ∷ codes "user" ∷ codes "system" ∷ codes "tool" ∷ codes "external" ∷ []

-- (session_ref, source_ref), and (actor_kind, actor_ref, text)
abbrev pub Identity : Type 0
Identity = Text × Text

abbrev pub Immutable : Type 0
Immutable = Text × (Text × Text)

abbrev pub SourceState : Type 0
SourceState = List (Identity × Immutable)

-- one of `copied_sources`
pub record CopiedSource : Type 0 where
  pub source_ref : Text
  pub role : Text
  pub actor_kind : Text
  pub text : Text

-- the variables of the inner loop
pub record SourceScan : Type 0 where
  pub links : List (Text × Text)
  pub has_situation : Bool
  pub has_agent_act : Bool
  pub copied : List CopiedSource
  pub state : SourceState

-- whether the dictionary holds another value for the key
abbrev pub conflicts : Option Immutable → Immutable → Bool
conflicts none value = false
conflicts (some previous) value = not (previous == value)

-- one round of the inner loop
unfoldable pub scan_source : Text → SourceScan → EvidenceSource → Result SourceScan
unfolding validate_required_ref validate_source_text
scan_source session scan source = do
  validate_required_ref source.source_ref (codes "source ref")
  raise_if (not (elem source.role roles)) (value_error (codes "unknown evidence source role"))
  raise_if (not (elem source.actor_kind actor_kinds))
      (value_error (codes "unknown evidence actor kind"))
  validate_required_ref source.actor_ref (codes "actor ref")
  validate_source_text source.text
  raise_if (elem (source.role, source.source_ref) scan.links)
      (value_error (codes "duplicate source role link in Episode"))
  let identity : Identity = (session, source.source_ref)
  let immutable : Immutable = (source.actor_kind, (source.actor_ref, source.text))
  raise_if (conflicts (lookup identity scan.state) immutable)
      (value_error (codes "same-session source identity conflict"))
  let situation = source.role == codes "situation"
  raise_if (not situation && not (source.actor_kind == codes "agent"))
      (value_error (codes "agent_act requires an agent actor"))
  ok (record {
    links = (source.role, source.source_ref) ∷ scan.links;
    has_situation = situation || scan.has_situation;
    has_agent_act = not situation || scan.has_agent_act;
    copied =
        scan.copied
        ++ (record {
          source_ref = source.source_ref;
          role = source.role;
          actor_kind = source.actor_kind;
          text = source.text;
        }
            ∷ []);
    state = (identity, immutable) ∷ scan.state;
  })

unfoldable pub scan_sources : Text → SourceScan → List EvidenceSource → Result SourceScan
unfolding scan_source
scan_sources session scan [] = ok scan
scan_sources session scan (source ∷ sources) = do
  scan' ← scan_source session scan source
  scan_sources session scan' sources

-- the variables of the outer loop
pub record EpisodeScan : Type 0 where
  pub episode_refs : List Text
  pub source_state : SourceState
  pub context_episodes : List (Text × List CopiedSource)
  pub current_sources : List (Text × (Text × Text))

-- the user's Situation texts of a current Episode, as (episode_ref, source_ref, text)
abbrev pub user_situations : Text → List CopiedSource → List (Text × (Text × Text))
user_situations episode_ref [] = []
user_situations episode_ref (s ∷ rest) =
    let others = user_situations episode_ref rest in
    if s.role == codes "situation" && s.actor_kind == codes "user"
    then (episode_ref, (s.source_ref, s.text)) ∷ others
    else others

abbrev pub is_interaction : Text → Bool
is_interaction origin = origin == codes "current" || origin == codes "related"

-- one round of the outer loop
unfoldable pub scan_episode : List Text → EpisodeScan → EvidenceEpisode → Result EpisodeScan
unfolding validate_required_ref validate_optional_ref validate_basis_ref scan_sources
scan_episode allowed_basis scan episode = do
  validate_required_ref episode.episode_ref (codes "episode ref")
  validate_optional_ref episode.session_ref (codes "session ref")
  raise_if (elem episode.episode_ref scan.episode_refs)
      (value_error (codes "duplicate episode ref"))
  raise_if (not (elem episode.episode_ref allowed_basis))
      (value_error (codes "Episode ref lacks Basis permission"))
  raise_if (not (elem episode.origin origins)) (value_error (codes "unknown evidence origin"))
  (if is_interaction episode.origin
      then validate_basis_ref episode.episode_ref (codes "recollection Episode Basis ref")
      else ok tt)
  raise_if (is_empty episode.sources) (value_error (codes "Episode sources are required"))
  sources ←
      scan_sources episode.session_ref
        (record {
          links = [];
          has_situation = false;
          has_agent_act = false;
          copied = [];
          state = scan.source_state;
        })
        episode.sources
  raise_if (not sources.has_situation || not sources.has_agent_act)
      (value_error (codes "Episode must contain Situation and actual AgentAct"))
  ok (record {
    episode_refs = episode.episode_ref ∷ scan.episode_refs;
    source_state = sources.state;
    context_episodes =
        if is_interaction episode.origin
        then scan.context_episodes ++ (episode.origin, sources.copied) ∷ []
        else scan.context_episodes;
    current_sources =
        if episode.origin == codes "current"
        then scan.current_sources ++ user_situations episode.episode_ref sources.copied
        else scan.current_sources;
  })

unfoldable pub scan_episodes : List Text → EpisodeScan → List EvidenceEpisode → Result EpisodeScan
unfolding scan_episode
scan_episodes allowed_basis scan [] = ok scan
scan_episodes allowed_basis scan (episode ∷ episodes) = do
  scan' ← scan_episode allowed_basis scan episode
  scan_episodes allowed_basis scan' episodes
