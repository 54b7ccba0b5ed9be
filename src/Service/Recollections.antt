-- ===== src/Service/Recollections.antt =====
-- `_bind_plain_recollections` (service.py): a list of plain lines becomes a list of blocks.
use chora_mem.Prelude.{
  ℕ, suc, List, [], ◌∷◌, is_empty, elem, eqb, nat_eq, list_eq, ◌==◌, if◌then◌else◌,
}
use chora_mem.Text.{Text, codes, strip}
use chora_mem.Text.Unicode.{is_space}
use chora_mem.Result.{Result, ok, value_error, ◌>>=◌, ◌>>◌, raise_if}
use chora_mem.Checks.{meaningful_lines}
use chora_mem.Recollection.{RecollectionMaterial, no_memory, bind_recollection}

abbrev pub max_plain_recollections : ℕ
max_plain_recollections = 32

-- The loop over the lines; `n` is `len(result)`.
unfoldable pub bind_lines : RecollectionMaterial → ℕ → List Text → List Text → Result (List Text)
bind_lines material n seen [] = ok []
bind_lines material n seen (line ∷ rest) =
    let skipped = bind_lines material n seen rest in
    let added : Result (List Text) = (do
      bound ← bind_recollection material line
      others ← bind_lines material (suc n) (line ∷ seen) rest
      ok (bound ∷ others)) in
    if elem line seen then skipped else if eqb n max_plain_recollections then ok [] else added

unfoldable pub bind_plain_recollections : RecollectionMaterial → Text → Result (List Text)
unfolding strip is_space meaningful_lines bind_lines
bind_plain_recollections material body = if strip is_space body == no_memory then ok [] else do
  let lines = meaningful_lines is_space body
  raise_if (is_empty lines)
      (value_error (codes "plain Recollection output must contain at least one line"))
  raise_if (elem no_memory lines)
      (value_error (codes "NO_MEMORY cannot be mixed with Recollection text"))
  bind_lines material 0 [] lines
