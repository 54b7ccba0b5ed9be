-- ===== src/Disposition.antt =====
-- Formation of a Disposition (worker/python/src/memory_core_worker/disposition_materials.py): the
-- material, its `bind_disposition`, and the prompt built from it.
pub mod Window
pub mod Formation
pub mod Injection
pub mod Grounds
use chora_mem.Prelude.{
  ℕ, Bool, ◌||◌, not, List, [], ◌∷◌, ◌++◌, is_empty, any, elem, has_duplicates, length, ltb, eqb,
  map, nat_eq, list_eq, ◌==◌, if◌then◌else◌,
}
use chora_mem.Text.{Text, codes, starts_with, strip, split, splitlines, join, join_lines}
use chora_mem.Text.Unicode.{is_space}
use chora_mem.Result.{Result, ok, err, value_error, ◌>>=◌, ◌>>◌, raise_if}
use chora_mem.Checks.{
  max_stable_ref_bytes, max_change_text_bytes, max_tagged_text_bytes, utf8_size,
  has_space_or_control,
}

pub record DispositionExperience : Type 0 where
  pub condition : Text
  pub response : Text
  pub outcome : Text

pub record FormationMaterial : Type 0 where
  pub application : Text
  pub constitution : Text
  pub experiences : List DispositionExperience
  pub existing_dispositions : List Text
  pub basis_refs : List Text

abbrev pub no_change : Text
no_change = codes "NO_CHANGE"

abbrev pub reserved_output_lines : List Text
reserved_output_lines =
    codes "TARGET"
    ∷ codes "APPLICATION"
    ∷ codes "CHANGE"
    ∷ codes "TEXT"
    ∷ codes "BASIS"
    ∷ codes "NEW_RECOLLECTION"
    ∷ codes "NEW_DISPOSITION"
    ∷ []

abbrev pub invalid_ref : Result (Unit {0})
invalid_ref = err (value_error (codes "invalid disposition Basis ref"))

-- `_validate_basis_ref`
unfoldable pub validate_ref : Text → Result (Unit {0})
unfolding utf8_size has_space_or_control
validate_ref [] = invalid_ref
validate_ref (c ∷ ref) = do
  n ← utf8_size (c ∷ ref) (codes "basis ref")
  if ltb max_stable_ref_bytes n then invalid_ref else ok tt
  if has_space_or_control (c ∷ ref) then invalid_ref else ok tt

-- the loop over `self.basis_refs`
unfoldable pub validate_refs : List Text → Result (Unit {0})
unfolding validate_ref
validate_refs [] = ok tt
validate_refs (ref ∷ refs) = do validate_ref ref; validate_refs refs

-- the block that is returned
abbrev pub tagged_disposition : Text → Text → List Text → Text
tagged_disposition application value refs =
    codes "TARGET\nNEW_DISPOSITION\nAPPLICATION\n"
    ++ (application
        ++ (codes "\nCHANGE\nTEXT\n" ++ (value ++ (codes "\nBASIS\n" ++ join_lines refs))))

abbrev starts_like_markup : Text → Bool
starts_like_markup value =
    starts_with (codes "{") value
    || starts_with (codes "[") value
    || starts_with (codes "```") value

-- what is done with the stripped body
unfoldable pub bind_value : FormationMaterial → Text → Result Text
unfolding splitlines utf8_size has_duplicates validate_refs join
bind_value material value = do
  raise_if (is_empty value) (value_error (codes "disposition body is required"))
  raise_if (not (eqb (length (splitlines value)) 1))
      (value_error (codes "disposition body must contain exactly one line"))
  raise_if (elem value reserved_output_lines || starts_like_markup value)
      (value_error (codes "disposition body must be plain text"))
  n ← utf8_size value (codes "disposition body")
  raise_if (ltb max_change_text_bytes n) (value_error (codes "disposition body exceeds 4 KiB"))
  raise_if (is_empty material.basis_refs || has_duplicates material.basis_refs)
      (value_error (codes "disposition material requires unique Basis refs"))
  validate_refs material.basis_refs
  let tagged = tagged_disposition material.application value material.basis_refs
  size ← utf8_size tagged (codes "tagged disposition")
  raise_if (ltb max_tagged_text_bytes size)
      (value_error (codes "bound tagged disposition exceeds 64 KiB"))
  ok tagged

unfoldable pub bind_disposition : FormationMaterial → Text → Result Text
unfolding strip is_space
bind_disposition material body =
    let value = strip is_space body in
    if value == no_change then ok [] else bind_value material value

-- `_quote`
abbrev pub quote_lines : Text → List Text
quote_lines text = map (λ line. codes "> " ++ line) (split b'\n' text)

abbrev pub quote_all : List Text → List Text
quote_all [] = []
quote_all (text ∷ texts) = quote_lines text ++ quote_all texts

abbrev pub or_none : List Text → List Text
or_none [] = codes "NONE" ∷ []
or_none (text ∷ texts) = quote_all (text ∷ texts)

abbrev pub experience_lines : DispositionExperience → List Text
experience_lines experience =
    codes "EXPERIENCE"
    ∷ codes "USER_CONDITION"
    ∷ (quote_lines experience.condition
        ++ codes "AGENT_RESPONSE"
          ∷ (quote_lines experience.response
              ++ codes "USER_OUTCOME"
                ∷ (quote_lines experience.outcome ++ codes "EXPERIENCE_END" ∷ [])))

abbrev pub experiences_lines : List DispositionExperience → List Text
experiences_lines [] = []
experiences_lines (e ∷ rest) = experience_lines e ++ experiences_lines rest

-- `build_disposition_formation_input`, the text of `_FORMATION_RULES` as an argument
unfoldable pub formation_input : Text → FormationMaterial → Text
unfolding split join
formation_input rules material = join_lines (
    rules
    ∷ codes "CONSTITUTION_BEGIN"
    ∷ (quote_lines material.constitution
        ++ codes "CONSTITUTION_END"
          ∷ codes "EXISTING_DISPOSITIONS_BEGIN"
          ∷ (or_none material.existing_dispositions
              ++ codes "EXISTING_DISPOSITIONS_END"
                ∷ codes "EXPERIENCES_BEGIN"
                ∷ (experiences_lines material.experiences ++ codes "EXPERIENCES_END" ∷ []))))
