-- ===== src/Tests/Blocks.antt =====
-- The theorems about the blocks that the worker writes, at concrete materials.
use chora_mem.Prelude.{[], ◌∷◌, ◌≡◌, ◌≢◌, refl, some, arith}
use chora_mem.Text.{Text, codes, strip}
use chora_mem.Text.Size.{utf8_length}
use chora_mem.Text.Unicode.{is_space}
use chora_mem.Result.{ok}
use chora_mem.Checks.{validate_basis_ref}
use chora_mem.Wire.{EvidenceSource, EvidenceEpisode, EvidenceOutcome, WindowRequest}
use chora_mem.Recollection.{
  RecollectionMaterial, no_memory, tagged_recollection, bind_recollection, bind_body,
  bind_normalized,
}
use chora_mem.Recollection.Injection.{IsRecollectionBlock, normalized, bind_recollection-block}
use chora_mem.Disposition.{
  DispositionExperience, FormationMaterial, no_change, bind_disposition, bind_value,
  tagged_disposition,
}
use chora_mem.Disposition.Formation.{disposition_formation_material}
use chora_mem.Disposition.Injection.{IsDispositionBlock, bind_disposition-block}
use chora_mem.Disposition.Grounds.{IsGrounded, disposition_formation_material-IsGrounded}

abbrev material : RecollectionMaterial
material = record {
  episode_ref = codes "e1";
  source_ref = codes "s1";
  text = codes "I live in Paris.";
  context_text = [];
  basis_refs = codes "e1" ∷ codes "e2" ∷ [];
  existing_recollections = [];
}

abbrev fact : Text
fact = codes " The user lives\n in Paris. "

abbrev bound_fact : Text
bound_fact = tagged_recollection (codes "The user lives in Paris.") material.basis_refs

fact_runs : bind_recollection material fact ≡ ok bound_fact
unfolding bind_recollection bind_body bind_normalized validate_basis_ref utf8_length
fact_runs = refl

fact_ne_no_memory : strip is_space fact ≢ no_memory
unfolding strip is_space
fact_ne_no_memory e = ground arith

bind_recollection-block_example :
    IsRecollectionBlock (normalized fact) material.basis_refs bound_fact
bind_recollection-block_example = bind_recollection-block material fact fact_runs fact_ne_no_memory

abbrev experience : Text → DispositionExperience
experience outcome = record {
  condition = codes "I am stressed.";
  response = codes "I hear you.";
  outcome = outcome;
}

abbrev formed : FormationMaterial
formed = record {
  application = codes "SELF";
  constitution = codes "UNKNOWN";
  experiences = experience (codes "That helped.") ∷ experience (codes "That helped too.") ∷ [];
  existing_dispositions = [];
  basis_refs = codes "e1" ∷ codes "o1" ∷ codes "e2" ∷ codes "o2" ∷ [];
}

abbrev tendency : Text
tendency = codes "When the user is stressed, listen first.\n"

abbrev bound_tendency : Text
bound_tendency =
    tagged_disposition (codes "SELF") (codes "When the user is stressed, listen first.")
      formed.basis_refs

tendency_runs : bind_disposition formed tendency ≡ ok bound_tendency
unfolding bind_disposition bind_value utf8_length
tendency_runs = refl

tendency_ne_no_change : strip is_space tendency ≢ no_change
unfolding strip is_space
tendency_ne_no_change e = ground arith

bind_disposition-block_example :
    IsDispositionBlock (codes "SELF") (strip is_space tendency) formed.basis_refs bound_tendency
bind_disposition-block_example =
    bind_disposition-block formed tendency (refl, (refl, (refl, (refl, tt)))) tendency_runs
      tendency_ne_no_change

abbrev user_source : EvidenceSource
user_source = record {
  source_ref = codes "s1";
  role = codes "situation";
  actor_kind = codes "user";
  actor_ref = codes "u1";
  text = codes "I am stressed.";
}

abbrev agent_source : EvidenceSource
agent_source = record {
  source_ref = codes "s2";
  role = codes "agent_act";
  actor_kind = codes "agent";
  actor_ref = codes "a1";
  text = codes "I hear you.";
}

abbrev episode : Text → Text → Text → Text → EvidenceEpisode
episode ref session origin role = record {
  episode_ref = ref;
  session_ref = session;
  origin = origin;
  sources = user_source ∷ agent_source ∷ [];
  formation_role = role;
}

abbrev outcome : Text → Text → Text → EvidenceOutcome
outcome ref episode_ref text = record {
  outcome_ref = ref;
  episode_ref = episode_ref;
  actor_kind = codes "user";
  actor_ref = codes "u1";
  text = text;
}

abbrev request : WindowRequest
request = record {
  job_ref = codes "job";
  window_text = codes "ELIGIBLE_NEW_DISPOSITION NEW_DISPOSITION\nAPPLICATION SELF\n";
  allowed_target_refs = codes "NEW_DISPOSITION" ∷ codes "NEW_RECOLLECTION" ∷ [];
  allowed_basis_refs = codes "e1" ∷ codes "e2" ∷ codes "o1" ∷ codes "o2" ∷ [];
  evidence = some (record {
    episodes =
        episode (codes "e1") (codes "session1") (codes "current") (codes "anchor")
        ∷ episode (codes "e2") (codes "session2") (codes "related") (codes "candidate")
        ∷ [];
    outcomes =
        outcome (codes "o1") (codes "e1") (codes "That helped.")
        ∷ outcome (codes "o2") (codes "e2") (codes "That helped too.")
        ∷ [];
    recollections = [];
  });
}

formed_runs : disposition_formation_material request ≡ some formed
unfolding disposition_formation_material
formed_runs = refl

disposition_formation_material-IsGrounded_example : IsGrounded request formed
disposition_formation_material-IsGrounded_example =
    disposition_formation_material-IsGrounded request formed_runs
