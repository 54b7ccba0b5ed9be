-- ===== src/Prompts.antt =====
-- The prompts of the worker: five texts that precede the data of a model call.
pub mod Consolidation
pub mod FinalCheck
pub mod Feedback
pub mod Recollection
pub mod Formation
use chora_mem.Text.{Text}
use Consolidation.{rules}
use FinalCheck.{final_check}
use Feedback.{feedback_rules}
use Recollection.{recollection_rules}
use Formation.{formation_rules}

pub record Prompts : Type 0 where
  pub rules : Text
  pub final_check : Text
  pub feedback_rules : Text
  pub recollection_rules : Text
  pub formation_rules : Text

-- the module-level constants
unfoldable pub worker_prompts : Prompts
worker_prompts = record {
  rules = rules;
  final_check = final_check;
  feedback_rules = feedback_rules;
  recollection_rules = recollection_rules;
  formation_rules = formation_rules;
}
