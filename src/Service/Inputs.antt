-- ===== src/Service/Inputs.antt =====
-- The prompts that service.py builds. The constant texts come as arguments.
use chora_mem.Prelude.{List, [], ◌∷◌, ◌++◌, any, map, not, nat_eq, list_eq, ◌==◌}
use chora_mem.Text.{Text, codes, split, join, join_lines}
use chora_mem.Result.{Result, ok, err, value_error, ◌>>◌, raise_if}
use chora_mem.Prompts.{Prompts}
use chora_mem.Recollection.{RecollectionMaterial}

-- `_tagged_values`
abbrev pub tagged_values : Text → List Text → List Text
tagged_values tag [] = []
tagged_values tag (value ∷ values) = tag ∷ value ∷ tagged_values tag values

-- the parts between the rules and the window, which two prompts share
abbrev pub allowed_parts : List Text → List Text → List Text → List Text
allowed_parts targets basis rest =
    codes "ALLOWED_TARGETS_BEGIN"
    ∷ (tagged_values (codes "ALLOWED_TARGET") targets
        ++ codes "ALLOWED_TARGETS_END"
          ∷ codes "ALLOWED_BASIS_BEGIN"
          ∷ (tagged_values (codes "ALLOWED_BASIS") basis ++ codes "ALLOWED_BASIS_END" ∷ rest))

-- `build_model_input`
unfoldable pub model_input : Prompts → Text → List Text → List Text → Text
unfolding join
model_input prompts window_text targets basis = join_lines (
    prompts.rules
    ∷ allowed_parts targets basis
        (codes "WINDOW_BEGIN" ∷ window_text ∷ codes "WINDOW_END" ∷ prompts.final_check ∷ []))

-- `build_feedback_input`
unfoldable pub feedback_input : Prompts → Text → List Text → List Text → Text
unfolding join
feedback_input prompts window_text targets basis = join_lines (
    prompts.feedback_rules
    ∷ allowed_parts targets basis (codes "WINDOW_BEGIN" ∷ window_text ∷ codes "WINDOW_END" ∷ []))

abbrev pub quoted : Text → List Text
quoted text = map (λ line. codes "> " ++ line) (split b'\n' text)

abbrev pub existing_lines : List Text → List Text
existing_lines [] = []
existing_lines (text ∷ texts) = quoted text ++ existing_lines texts

abbrev pub existing_or_none : List Text → List Text
existing_or_none [] = codes "NONE" ∷ []
existing_or_none (text ∷ texts) = existing_lines (text ∷ texts)

abbrev pub source_parts : List RecollectionMaterial → List Text
source_parts [] = []
source_parts (m ∷ rest) = quoted m.text ++ [] ∷ source_parts rest

-- `build_recollection_input`
unfoldable pub recollection_input : Prompts → List RecollectionMaterial → Result Text
unfolding split join
recollection_input prompts [] =
    err (value_error (codes "at least one Recollection material is required"))
recollection_input prompts (first ∷ rest) = do
  raise_if
      (any
        (λ (m : RecollectionMaterial).
          not (m.existing_recollections == first.existing_recollections))
        (first ∷ rest))
      (value_error (codes "Recollection materials must share existing memory"))
  ok (
      join_lines (
        prompts.recollection_rules
        ∷ codes "EXISTING_RECOLLECTIONS_BEGIN"
        ∷ (existing_or_none first.existing_recollections
            ++ codes "EXISTING_RECOLLECTIONS_END"
              ∷ codes "CURRENT_USER_SOURCES_BEGIN"
              ∷ (source_parts (first ∷ rest) ++ codes "CURRENT_USER_SOURCES_END" ∷ []))))
