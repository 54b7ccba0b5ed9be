-- ===== src/Service/Limits.antt =====
-- The prompts of one call of `ProcessConsolidationWindow`: how many, and how long (service.py).
use mathlib.Core.Path.{subst}
use chora_mem.Prelude.{
  ℕ, ◌≤◌, Bool, true, false, ◌||◌, List, [], ◌∷◌, Option, none, some, is_empty, ltb, ltb→ge,
  if◌then◌else◌, ◌≡◌, refl, ap, ◌∙◌, ◌⊎◌, inl, inr,
}
use chora_mem.Text.{Text, codes}
use chora_mem.Result.{Result, ok, err}
use chora_mem.Wire.{WindowRequest}
use chora_mem.Recollection.{RecollectionMaterial}
use chora_mem.Recollection.Materials.{recollection_materials}
use chora_mem.Disposition.{FormationMaterial, bind_disposition, formation_input}
use chora_mem.Disposition.Formation.{disposition_formation_material}
use chora_mem.Tagged.{encoded_length}
use chora_mem.Tagged.NewDisposition.{remove_new_disposition_changes}
use chora_mem.Tagged.Window.{
  eligible_feedback_targets, eligible_feedback_basis_refs, contains_target_block,
}
use chora_mem.Service.Exec.{Exec, pure, lift, complete}
use chora_mem.Service.Inputs.{model_input, feedback_input, recollection_input}
use chora_mem.Service.Handler.{
  Service, fitting_material, has_formation_anchor, form_disposition, formation_pass,
  feedback_normal, recover_missing_feedback, should_process_recollection, or_primary,
  ask_recollections, append_plain_recollection, recollection_pass, later_passes, primary_text,
  process_window,
}
use chora_mem.Service.Sending.{Sends, Sends-none, Sends-complete, Sends-bind, Sends-lift, Sends-if}

-- The prompt has a size in UTF-8, within the service's limit.
abbrev pub FitsLimit : Service → Text → Type 0
FitsLimit service prompt =
    (n : ℕ) × (encoded_length prompt ≡ ok n) × (n ≤ service.max_model_input_bytes)

-- the prompt of `_recover_missing_feedback`
abbrev pub feedback_prompt : Service → WindowRequest → Text
feedback_prompt service request =
    feedback_input service.prompts request.window_text
      (eligible_feedback_targets request.window_text request.allowed_target_refs)
      (eligible_feedback_basis_refs request.window_text request.allowed_basis_refs)

abbrev pub IsLimited : Service → WindowRequest → Text → Type 0
IsLimited service request prompt =
    FitsLimit service prompt ⊎ (prompt ≡ feedback_prompt service request)

let_through :
    (long : Bool) (candidate material : FormationMaterial)
    → ok (if long then none else some candidate) ≡ ok (some material)
    → (long ≡ false) × (candidate ≡ material)
let_through true candidate material h = absurd (ok_none h)
  where
    ok_none : ok none ≡ ok (some material) → ⊥
    ok_none e = cc e
let_through false candidate material h = (refl, cc h)

module _ (service : Service) (request : WindowRequest) where
  abbrev Limited : ℕ → List Text → List Text → Type 0
  Limited = Sends (IsLimited service request)

  -- the material that `fitting_material` lets through has a prompt that fits
  fitting-FitsLimit :
      (found : Option FormationMaterial) {material : FormationMaterial}
      → fitting_material service found ≡ ok (some material)
      → FitsLimit service (formation_input service.prompts.formation_rules material)
  unfolding fitting_material
  fitting-FitsLimit none h = cc h
  fitting-FitsLimit (some candidate) {material} h =
      sized (encoded_length (formation_input service.prompts.formation_rules candidate)) refl h
    where
      sized :
          (r : Result ℕ)
          → encoded_length (formation_input service.prompts.formation_rules candidate) ≡ r
          → (elim r as (λ x. Result (Option FormationMaterial)) [
            | err e ↦ err e
            | ok n ↦ ok (if ltb service.max_model_input_bytes n then none else some candidate)
          ])
            ≡ ok (some material)
          → FitsLimit service (formation_input service.prompts.formation_rules material)
      sized (err e) same k = cc k
      sized (ok n) same k =
          let (short, its) =
            let_through (ltb service.max_model_input_bytes n) candidate material k in
          subst (λ m. FitsLimit service (formation_input service.prompts.formation_rules m)) its
            (n, same, ltb→ge service.max_model_input_bytes n short)

  form-Limited :
      (text : Text) (found : Option FormationMaterial) (sent : List Text)
      → ((material : FormationMaterial)
          → found ≡ some material
          → FitsLimit service (formation_input service.prompts.formation_rules material))
      → Limited 1 sent (form_disposition service text found sent).1
  unfolding form_disposition
  form-Limited text none sent fits = Sends-none 1 sent
  form-Limited text (some material) sent fits =
      let prompt = formation_input service.prompts.formation_rules material in
      Sends-bind 1 0 (complete service.model prompt) _ sent
        (Sends-complete service.model prompt sent (inl (fits material refl)))
        (λ body e.
          Sends-lift 0 (bind_disposition material body) _ _ (λ formation f. Sends-none 0 _))

  formation_pass-Limited :
      (text : Text) (sent : List Text) → Limited 1 sent (formation_pass service request text sent).1
  unfolding formation_pass form_disposition
  formation_pass-Limited text sent =
      Sends-lift 1 (fitting_material service (disposition_formation_material request)) _ sent
        λ found e.
          Sends-if 1 (has_formation_anchor request) _ _ sent
            (λ anchored.
              form-Limited (remove_new_disposition_changes text (codes "TEXT" ∷ [])) found sent
                (λ material same.
                  fitting-FitsLimit (disposition_formation_material request) (e ∙ ap ok same)))
            (λ plain. Sends-none 1 sent)

  recover-Limited :
      (text : Text) (sent : List Text)
      → Limited 1 sent (recover_missing_feedback service request text sent).1
  unfolding recover_missing_feedback
  recover-Limited text sent =
      let targets = eligible_feedback_targets request.window_text request.allowed_target_refs in
      let basis = eligible_feedback_basis_refs request.window_text request.allowed_basis_refs in
      Sends-if 1 (is_empty targets || contains_target_block text targets) _ _ sent
        (λ e. Sends-none 1 sent)
        (λ e.
          Sends-if 1 (is_empty basis) _ _ sent (λ f. Sends-none 1 sent)
            (λ f.
              Sends-bind 1 0 (complete service.model (feedback_prompt service request)) _ sent
                (Sends-complete service.model (feedback_prompt service request) sent (inr refl))
                (λ reply g. Sends-none 0 _)))

  ask-Limited :
      (text : Text) (first : RecollectionMaterial) (rest : List RecollectionMaterial)
      (sent : List Text)
      → Limited 1 sent (ask_recollections service text first rest sent).1
  unfolding ask_recollections
  ask-Limited text first rest sent =
      Sends-lift 1 (recollection_input service.prompts (first ∷ rest)) _ sent λ prompt made.
        Sends-lift 1 (encoded_length prompt) _ sent λ n sized.
          Sends-if 1 (ltb service.max_model_input_bytes n) _ _ sent (λ long. Sends-none 1 sent)
            (λ short.
              Sends-bind 1 0 (complete service.model prompt) _ sent
                (Sends-complete service.model prompt sent
                  (inl (n, sized, ltb→ge service.max_model_input_bytes n short)))
                (λ reply g. Sends-none 0 _))

  append-Limited :
      (text : Text) (sent : List Text)
      → Limited 1 sent (append_plain_recollection service request text sent).1
  unfolding append_plain_recollection
  append-Limited text sent = by_materials (recollection_materials request)
    where
      by_materials :
          (found : Result (List RecollectionMaterial))
          → Limited 1 sent
              ((elim found as (λ m. Exec Text) [
                | err e ↦ lift (or_primary text e)
                | ok [] ↦ pure text
                | ok (first ∷ rest) ↦ ask_recollections service text first rest
              ])
                sent).1
      by_materials (err e) = Sends-none 1 sent
      by_materials (ok []) = Sends-none 1 sent
      by_materials (ok (first ∷ rest)) = ask-Limited text first rest sent

  recollection_pass-Limited :
      (text : Text) (sent : List Text)
      → Limited 1 sent (recollection_pass service request text sent).1
  unfolding recollection_pass
  recollection_pass-Limited text sent =
      Sends-if 1 (should_process_recollection request text) _ _ sent (λ e. append-Limited text sent)
        (λ e. Sends-none 1 sent)

  later_passes-Limited :
      (text : Text) (sent : List Text) → Limited 3 sent (later_passes service request text sent).1
  unfolding later_passes
  later_passes-Limited text sent =
      Sends-bind 1 2 (formation_pass service request text) _ sent (formation_pass-Limited text sent)
        λ formed _.
          Sends-bind 1 1 (recover_missing_feedback service request (feedback_normal request formed))
            _ _ (recover-Limited (feedback_normal request formed) _)
            (λ fed _. recollection_pass-Limited fed _)

-- One call sends at most four prompts, and appends them to those sent before. Every one of them has
-- a size in UTF-8 within the service's limit, but for the prompt that asks for missing feedback.
pub process_window-Sends :
    (service : Service) (request : WindowRequest) (sent : List Text)
    → Sends (IsLimited service request) 4 sent (process_window service request sent).1
unfolding process_window
process_window-Sends service request sent =
    let prompt =
      model_input service.prompts request.window_text request.allowed_target_refs
        request.allowed_basis_refs in
    Sends-lift 4 (encoded_length prompt) _ sent λ n sized.
      Sends-if 4 (ltb service.max_model_input_bytes n) _ _ sent (λ long. Sends-none 4 sent)
        (λ short.
          Sends-bind 1 3 (complete service.model prompt) _ sent
            (Sends-complete service.model prompt sent
              (inl (n, sized, ltb→ge service.max_model_input_bytes n short)))
            (λ reply _.
              Sends-lift 3 (primary_text request reply) _ _
                (λ text _. later_passes-Limited service request text _)))
