-- ===== src/Recollection.antt =====
-- RecollectionMaterial and its `bind_recollection`
-- (worker/python/src/memory_core_worker/source_materials.py).
pub mod Sources
pub mod Materials
mod Reserved
pub mod Injection
use chora_mem.Prelude.{
  ℕ, Bool, ◌||◌, List, [], ◌∷◌, ◌++◌, is_empty, any, elem, has_duplicates, ltb, nat_eq, list_eq,
  ◌==◌, if◌then◌else◌,
}
use chora_mem.Text.{Text, codes, contains, strip, join, join_lines}
use chora_mem.Text.Unicode.{is_space}
use chora_mem.Result.{Result, ok, err, value_error, ◌>>=◌, ◌>>◌, raise_if}
use chora_mem.Checks.{
  max_change_text_bytes, max_tagged_text_bytes, utf8_size, validate_basis_ref, meaningful_lines,
}

pub record RecollectionMaterial : Type 0 where
  pub episode_ref : Text
  pub source_ref : Text
  pub text : Text
  pub context_text : Text
  pub basis_refs : List Text
  pub existing_recollections : List Text

abbrev pub no_memory : Text
no_memory = codes "NO_MEMORY"

abbrev pub reserved_protocol_lines : List Text
reserved_protocol_lines =
    codes "TARGET"
    ∷ codes "APPLICATION"
    ∷ codes "CHANGE"
    ∷ codes "TEXT"
    ∷ codes "BASIS"
    ∷ codes "NEW_RECOLLECTION"
    ∷ codes "NEW_DISPOSITION"
    ∷ codes "SELF"
    ∷ codes "OTHER"
    ∷ codes "RELATION"
    ∷ codes "SITUATION"
    ∷ codes "NO_MEMORY"
    ∷ codes "NO_CHANGE"
    ∷ []

-- the loop over `self.basis_refs`
unfoldable pub validate_basis_refs : Text → List Text → Result (Unit {0})
validate_basis_refs label [] = ok tt
validate_basis_refs label (ref ∷ refs) = do
  validate_basis_ref ref label
  validate_basis_refs label refs

-- the block that is returned
abbrev pub tagged_recollection : Text → List Text → Text
tagged_recollection normalized refs =
    codes "TARGET\nNEW_RECOLLECTION\nAPPLICATION\nOTHER\nCHANGE\nTEXT\n"
    ++ (normalized ++ (codes "\nBASIS\n" ++ join_lines refs))

-- what follows the tests on the body, once it is one line
unfoldable pub bind_normalized : List Text → Text → Result Text
unfolding utf8_size validate_basis_refs has_duplicates
bind_normalized refs normalized = do
  raise_if (is_empty normalized) (value_error (codes "recollection body is required"))
  n ← utf8_size normalized (codes "recollection body")
  raise_if (ltb max_change_text_bytes n) (value_error (codes "recollection body exceeds 4 KiB"))
  raise_if (is_empty refs || has_duplicates refs)
      (value_error (codes "recollection material requires unique Episode Basis refs"))
  validate_basis_refs (codes "basis ref") refs
  size ← utf8_size (tagged_recollection normalized refs) (codes "tagged text")
  raise_if (ltb max_tagged_text_bytes size) (value_error (codes "bound tagged text exceeds 64 KiB"))
  ok (tagged_recollection normalized refs)

-- the tests on the body
unfoldable pub bind_body : List Text → Text → Result Text
unfolding strip is_space meaningful_lines join
bind_body refs body = do
  raise_if (is_empty (strip is_space body)) (value_error (codes "recollection body is required"))
  raise_if (contains (codes "```") body)
      (value_error (codes "recollection body must not contain a code fence"))
  let meaningful = meaningful_lines is_space body
  raise_if (any (λ line. line == no_memory) meaningful)
      (value_error (codes "NO_MEMORY cannot be mixed with recollection text"))
  raise_if (any (λ line. elem line reserved_protocol_lines) meaningful)
      (value_error (codes "recollection body must not contain protocol lines"))
  bind_normalized refs (join (codes " ") meaningful)

unfoldable pub bind_recollection : RecollectionMaterial → Text → Result Text
unfolding strip is_space
bind_recollection material body =
    if strip is_space body == no_memory then ok [] else bind_body material.basis_refs body
