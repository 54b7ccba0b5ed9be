-- ===== src/Checks.antt =====
-- The checks that `source_materials.py` and `disposition_materials.py` share, and their limits.
pub mod Laws
use chora_mem.Prelude.{
  ℕ, ◌*◌, Bool, ◌||◌, not, List, [], ◌∷◌, ◌++◌, none, some, is_empty, any, elem, ltb, ◌==◌, nat_eq,
  list_eq, select, map,
}
use chora_mem.Text.{Text, codes, strip, splitlines}
use chora_mem.Text.Unicode.{is_space, is_control}
use chora_mem.Text.Size.{utf8_length}
use chora_mem.Result.{Result, ok, err, value_error, ◌>>=◌, ◌>>◌, raise_if}

abbrev pub max_stable_ref_bytes : ℕ
max_stable_ref_bytes = 384

abbrev pub max_source_text_bytes : ℕ
max_source_text_bytes = 64 * 1024

abbrev pub max_change_text_bytes : ℕ
max_change_text_bytes = 4 * 1024

abbrev pub max_tagged_text_bytes : ℕ
max_tagged_text_bytes = 64 * 1024

-- `_utf8_size`
unfoldable pub utf8_size : Text → Text → Result ℕ
utf8_size value label = elim (utf8_length value) [
  | some n ↦ ok n
  | none ↦ err (value_error (label ++ codes " is not valid UTF-8"))
]

-- `_validate_required_ref` of source_materials.py
unfoldable pub validate_required_ref : Text → Text → Result (Unit {0})
unfolding utf8_size
validate_required_ref ref label = do
  raise_if (is_empty ref) (value_error (label ++ codes " is required"))
  n ← utf8_size ref label
  raise_if (ltb max_stable_ref_bytes n) (value_error (label ++ codes " exceeds 384 bytes"))

unfoldable pub validate_optional_ref : Text → Text → Result (Unit {0})
unfolding validate_required_ref
validate_optional_ref [] label = ok tt
validate_optional_ref (c ∷ ref) label = validate_required_ref (c ∷ ref) label

-- whether a ref has a character that `isspace` or the category "Cc" rules out
unfoldable pub has_space_or_control : Text → Bool
unfolding is_space is_control
has_space_or_control = any (λ c. is_space c || is_control c)

abbrev pub reserved_basis_refs : List Text
reserved_basis_refs =
    codes "TARGET"
    ∷ codes "APPLICATION"
    ∷ codes "CHANGE"
    ∷ codes "BASIS"
    ∷ codes "NEW"
    ∷ codes "NEW_RECOLLECTION"
    ∷ codes "NEW_DISPOSITION"
    ∷ []

-- `_validate_basis_ref` of source_materials.py
unfoldable pub validate_basis_ref : Text → Text → Result (Unit {0})
unfolding validate_required_ref has_space_or_control
validate_basis_ref ref label = do
  validate_required_ref ref label
  raise_if (has_space_or_control ref)
      (value_error (label ++ codes " is not a valid tagged-text ref"))
  raise_if (elem ref reserved_basis_refs)
      (value_error (label ++ codes " is reserved tagged-text syntax"))

-- `_validate_source_text`
unfoldable pub validate_source_text : Text → Result (Unit {0})
unfolding utf8_size
validate_source_text text = do
  raise_if (is_empty text) (value_error (codes "source text is required"))
  n ← utf8_size text (codes "source text")
  raise_if (ltb max_source_text_bytes n) (value_error (codes "source text exceeds 64 KiB"))

-- `[line.strip() for line in text.splitlines() if line.strip()]`, for the given set of blanks
unfoldable pub meaningful_lines : (ℕ → Bool) → Text → List Text
unfolding strip splitlines
meaningful_lines p text = select (λ line. not (is_empty line)) (map (strip p) (splitlines text))
