-- ===== src/Service/Handler.antt =====
-- The passes of `ProcessConsolidationWindow` (service.py) in the order of the code.
use chora_mem.Prelude.{
  ℕ, Bool, false, ◌&&◌, ◌||◌, not, List, [], ◌∷◌, Option, none, some, is_empty, any, elem, count,
  map, ltb, eqb, nat_eq, list_eq, ◌==◌, if◌then◌else◌,
}
use chora_mem.Text.{Text, codes, strip, split, join, join_lines}
use chora_mem.Text.Unicode.{is_space}
use chora_mem.Result.{Result, ok, err, Error, value_error, model_error}
use chora_mem.Checks.{max_tagged_text_bytes}
use chora_mem.Wire.{EvidenceRecollection, WindowRequest}
use chora_mem.Prompts.{Prompts}
use chora_mem.Recollection.{RecollectionMaterial}
use chora_mem.Recollection.Materials.{recollection_materials}
use chora_mem.Disposition.{FormationMaterial, no_change, bind_disposition, formation_input}
use chora_mem.Disposition.Formation.{disposition_formation_material, has_formation_role}
use chora_mem.Tagged.{new_recollection, trimmed, encoded_length, combine, append_tagged_text}
use chora_mem.Tagged.Application.{split_copied_inline_application}
use chora_mem.Tagged.Target.{restore_initial_new_target}
use chora_mem.Tagged.Basis.{deduplicate_basis}
use chora_mem.Tagged.NewDisposition.{remove_new_disposition_changes}
use chora_mem.Tagged.Window.{
  eligible_feedback_targets, eligible_feedback_basis_refs, contains_target_block,
  contains_only_target_blocks,
}
use chora_mem.Tagged.Feedback.{normalize_feedback_output}
use chora_mem.Service.Exec.{TextModel, Exec, pure, lift, complete, ◌>>=◌}
use chora_mem.Service.Inputs.{model_input, feedback_input, recollection_input}
use chora_mem.Service.Recollections.{bind_plain_recollections}

-- the fields of InferenceService
pub record Service : Type 0 where
  pub model : TextModel
  pub prompts : Prompts
  pub max_model_input_bytes : ℕ

-- `InferenceService.__init__`, with its limit as a natural number
unfoldable pub new_service : TextModel → Prompts → ℕ → Result Service
new_service model prompts limit =
    if ltb 0 limit
    then ok (record { model = model; prompts = prompts; max_model_input_bytes = limit })
    else err (value_error (codes "max_model_input_bytes must be positive"))

-- the ends of the first pass, from what the model returned
unfoldable pub repaired : WindowRequest → Text → Text
unfolding strip is_space
repaired request reply =
    let text = if strip is_space reply == no_change then [] else reply in
    restore_initial_new_target (split_copied_inline_application text request.allowed_target_refs)
      request.allowed_target_refs

-- the text that the first pass hands on
unfoldable pub primary_text : WindowRequest → Text → Result Text
unfolding encoded_length
primary_text request reply = elim (encoded_length (repaired request reply)) [
  | err e ↦ err e
  | ok n ↦
      let text = if ltb max_tagged_text_bytes n then [] else repaired request reply in
      ok (
        remove_new_disposition_changes (deduplicate_basis text request.allowed_basis_refs)
          (codes "ADAPT" ∷ []))
]

-- `_has_disposition_formation_anchor`
unfoldable pub has_formation_anchor : WindowRequest → Bool
has_formation_anchor request = elim request.evidence [
  | none ↦ false
  | some evidence ↦ eqb (count (has_formation_role (codes "anchor")) evidence.episodes) 1
]

-- the material, unless its prompt is longer than the limit
unfoldable pub fitting_material :
    Service → Option FormationMaterial → Result (Option FormationMaterial)
unfolding encoded_length
fitting_material service none = ok none
fitting_material service (some material) =
    elim (encoded_length (formation_input service.prompts.formation_rules material)) [
      | err e ↦ err e
      | ok n ↦ ok (if ltb service.max_model_input_bytes n then none else some material)
    ]

-- the formation call
unfoldable pub form_disposition : Service → Text → Option FormationMaterial → Exec Text
unfolding complete
form_disposition service text none = pure text
form_disposition service text (some material) = do
  body ← complete service.model (formation_input service.prompts.formation_rules material)
  formation ← lift (bind_disposition material body)
  lift (append_tagged_text text formation)

-- the branch `if formation_anchor`
unfoldable pub formation_pass : Service → WindowRequest → Text → Exec Text
unfolding form_disposition has_formation_anchor
formation_pass service request text = do
  material ← lift (fitting_material service (disposition_formation_material request))
  if has_formation_anchor request
      then form_disposition service (remove_new_disposition_changes text (codes "TEXT" ∷ []))
          material
      else pure text

-- the branch that normalises a text of feedback blocks alone
unfoldable pub feedback_normal : WindowRequest → Text → Text
feedback_normal request text =
    let targets = eligible_feedback_targets request.window_text request.allowed_target_refs in
    if not (is_empty targets) && contains_only_target_blocks text targets
    then normalize_feedback_output text targets request.window_text
    else text

-- what `_recover_missing_feedback` does with the reply
unfoldable pub recovered : WindowRequest → List Text → Text → Text → Result Text
unfolding strip is_space
recovered request targets primary reply =
    let feedback = normalize_feedback_output reply targets request.window_text in
    if strip is_space reply == no_change
    then ok primary
    else if is_empty feedback
    then ok primary
    else combine primary feedback

-- `_recover_missing_feedback`
unfoldable pub recover_missing_feedback : Service → WindowRequest → Text → Exec Text
unfolding complete recovered
recover_missing_feedback service request primary =
    let targets = eligible_feedback_targets request.window_text request.allowed_target_refs in
    let basis = eligible_feedback_basis_refs request.window_text request.allowed_basis_refs in
    let asked : Exec Text = (do
      reply ←
          complete service.model (feedback_input service.prompts request.window_text targets basis)
      lift (recovered request targets primary reply)) in
    if is_empty targets || contains_target_block primary targets
    then pure primary
    else if is_empty basis
    then pure primary
    else asked

-- the stripped lines of `_should_process_recollection`
abbrev pub primary_lines : Text → List Text
primary_lines primary = map trimmed (split b'\n' primary)

-- `_should_process_recollection`
unfoldable pub should_process_recollection : WindowRequest → Text → Bool
unfolding split trimmed
should_process_recollection request primary = elim request.evidence [
  | none ↦ false
  | some evidence ↦
      elem new_recollection request.allowed_target_refs
      && not (elem new_recollection (primary_lines primary))
      && not (
          any (λ (r : EvidenceRecollection). elem r.version_ref (primary_lines primary))
            evidence.recollections)
]

-- `except (TypeError, ValueError): return primary_text`
abbrev pub or_primary : Text → Error → Result Text
or_primary primary (model_error what) = err (model_error what)
or_primary primary _ = ok primary

-- what `_append_plain_recollection` does with the reply
unfoldable pub appended : Text → RecollectionMaterial → Text → Result Text
unfolding join
appended primary material reply = elim (bind_plain_recollections material reply) [
  | err e ↦ or_primary primary e
  | ok recollections ↦
      if is_empty recollections then ok primary else combine primary (join_lines recollections)
]

-- the model call of `_append_plain_recollection`
unfoldable pub ask_recollections :
    Service → Text → RecollectionMaterial → List RecollectionMaterial → Exec Text
unfolding complete appended
ask_recollections service primary first rest = do
  prompt ← lift (recollection_input service.prompts (first ∷ rest))
  n ← lift (encoded_length prompt)
  if ltb service.max_model_input_bytes n
      then pure primary
      else do reply ← complete service.model prompt; lift (appended primary first reply)

-- `_append_plain_recollection`
unfoldable pub append_plain_recollection : Service → WindowRequest → Text → Exec Text
unfolding ask_recollections
append_plain_recollection service request primary = elim (recollection_materials request) [
  | err e ↦ lift (or_primary primary e)
  | ok [] ↦ pure primary
  | ok (first ∷ rest) ↦ ask_recollections service primary first rest
]

-- the last branch
unfoldable pub recollection_pass : Service → WindowRequest → Text → Exec Text
unfolding append_plain_recollection should_process_recollection
recollection_pass service request text =
    if should_process_recollection request text
    then append_plain_recollection service request text
    else pure text

-- the passes behind the first call
unfoldable pub later_passes : Service → WindowRequest → Text → Exec Text
unfolding formation_pass feedback_normal recover_missing_feedback recollection_pass
later_passes service request text = do
  formed ← formation_pass service request text
  fed ← recover_missing_feedback service request (feedback_normal request formed)
  recollection_pass service request fed

-- `ProcessConsolidationWindow`: the tagged text of the response
unfoldable pub process_window : Service → WindowRequest → Exec Text
unfolding complete later_passes primary_text
process_window service request =
    let prompt =
      model_input service.prompts request.window_text request.allowed_target_refs
        request.allowed_basis_refs in
    let asked : Exec Text = (do
      reply ← complete service.model prompt
      text ← lift (primary_text request reply)
      later_passes service request text) in
    do
      n ← lift (encoded_length prompt)
      if ltb service.max_model_input_bytes n then pure [] else asked
