-- ===== src/Wire.antt =====
-- The messages of api/memory/inference/v1/inference.proto, as the Python worker reads them.
-- `evidence` is `none` where `request.HasField("evidence")` is false.
use chora_mem.Prelude.{List, Option}
use chora_mem.Text.{Text}

pub record EvidenceSource : Type 0 where
  pub source_ref : Text
  pub role : Text
  pub actor_kind : Text
  pub actor_ref : Text
  pub text : Text

pub record EvidenceEpisode : Type 0 where
  pub episode_ref : Text
  pub session_ref : Text
  pub origin : Text
  pub sources : List EvidenceSource
  pub formation_role : Text

pub record EvidenceOutcome : Type 0 where
  pub outcome_ref : Text
  pub episode_ref : Text
  pub actor_kind : Text
  pub actor_ref : Text
  pub text : Text

pub record EvidenceRecollection : Type 0 where
  pub version_ref : Text
  pub application : Text
  pub text : Text

pub record WindowEvidence : Type 0 where
  pub episodes : List EvidenceEpisode
  pub outcomes : List EvidenceOutcome
  pub recollections : List EvidenceRecollection

pub record WindowRequest : Type 0 where
  pub job_ref : Text
  pub window_text : Text
  pub allowed_target_refs : List Text
  pub allowed_basis_refs : List Text
  pub evidence : Option WindowEvidence
