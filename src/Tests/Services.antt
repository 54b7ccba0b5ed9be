-- ===== src/Tests/Services.antt =====
-- The theorems about the worker's handler and its batches of plain Recollections.
use chora_mem.Prelude.{List, [], ◌∷◌, none, All, length, ◌≤◌, ◌≡◌, refl}
use chora_mem.Text.{Text, codes, strip}
use chora_mem.Text.Size.{utf8_length}
use chora_mem.Text.Unicode.{is_space}
use chora_mem.Result.{ok}
use chora_mem.Checks.{meaningful_lines, validate_basis_ref}
use chora_mem.Wire.{WindowRequest}
use chora_mem.Recollection.{
  RecollectionMaterial, bind_recollection, bind_body, bind_normalized, tagged_recollection,
}
use chora_mem.Service.Exec.{returned}
use chora_mem.Service.Handler.{Service, process_window}
use chora_mem.Service.Recollections.{max_plain_recollections, bind_lines, bind_plain_recollections}
use chora_mem.Service.Batches.{IsBlockFor, bind_plain_recollections-All}
use chora_mem.Service.Sending.{Sends}
use chora_mem.Service.Limits.{IsLimited, process_window-Sends}

abbrev service : Service
service = record {
  model = λ sent prompt. returned (codes "TARGET\nr1\nCHANGE\nKEEP");
  prompts = record {
    rules = codes "rules";
    final_check = codes "check";
    feedback_rules = codes "feedback";
    recollection_rules = codes "recollection";
    formation_rules = codes "formation";
  };
  max_model_input_bytes = 1000;
}

abbrev request : WindowRequest
request = record {
  job_ref = codes "job";
  window_text = codes "EPISODE e1";
  allowed_target_refs = codes "r1" ∷ [];
  allowed_basis_refs = codes "e1" ∷ [];
  evidence = none;
}

process_window-Sends_example :
    Sends (IsLimited service request) 4 [] (process_window service request []).1
process_window-Sends_example = process_window-Sends service request []

abbrev material : RecollectionMaterial
material = record {
  episode_ref = codes "e1";
  source_ref = codes "s1";
  text = codes "I live in Paris and work in Lyon.";
  context_text = [];
  basis_refs = codes "e1" ∷ [];
  existing_recollections = [];
}

abbrev two_lines : Text
two_lines = codes "The user lives in Paris.\n\nThe user works in Lyon.\nThe user lives in Paris."

abbrev two_blocks : List Text
two_blocks =
    tagged_recollection (codes "The user lives in Paris.") material.basis_refs
    ∷ tagged_recollection (codes "The user works in Lyon.") material.basis_refs
    ∷ []

lines_run : bind_plain_recollections material two_lines ≡ ok two_blocks
unfolding bind_plain_recollections bind_lines meaningful_lines bind_recollection bind_body
    bind_normalized validate_basis_ref utf8_length strip is_space
lines_run = refl

bind_plain_recollections-All_example :
    (length two_blocks ≤ max_plain_recollections) × All (IsBlockFor material.basis_refs) two_blocks
bind_plain_recollections-All_example = bind_plain_recollections-All material two_lines lines_run
