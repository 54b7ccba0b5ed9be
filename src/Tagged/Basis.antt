-- ===== src/Tagged/Basis.antt =====
-- `_deduplicate_basis` and `_complete_basis_tail` (service.py).
pub mod Erasure
use chora_mem.Prelude.{
  Bool, true, false, ◌&&◌, not, List, [], ◌∷◌, Option, none, some, is_empty, elem, nat_eq, list_eq,
  ◌==◌, if◌then◌else◌,
}
use chora_mem.Text.{Text, strip, split, join, join_lines}
use chora_mem.Text.Unicode.{line_blank}
use chora_mem.Tagged.{target_mark, basis_mark}

-- `line.strip(" \t\r")`
unfoldable pub value_of : Text → Text
unfolding strip line_blank
value_of = strip line_blank

-- `_complete_basis_tail`; the flag is `previous_ref`
unfoldable pub complete_basis_tail : List Text → Bool → List Text → Bool
complete_basis_tail allowed previous_ref [] = previous_ref
complete_basis_tail allowed previous_ref (line ∷ rest) =
    let value = value_of line in
    let after_ref = complete_basis_tail allowed true rest in
    let after_label = complete_basis_tail allowed false rest in
    let after_blank = complete_basis_tail allowed previous_ref rest in
    if value == target_mark
    then previous_ref
    else if is_empty value
    then after_blank
    else if elem value allowed
    then after_ref
    else if value == basis_mark && previous_ref
    then after_label
    else false

-- What one round does with its line: whether it is kept, and the refs seen in this list, `none`
-- outside every list of refs.
pub record Round : Type 0 where
  pub kept : Bool
  pub seen : Option (List Text)

abbrev some_seen : Option (List Text) → Bool
some_seen none = false
some_seen (some refs) = not (is_empty refs)

-- the branches behind the tests on TARGET and BASIS
unfoldable pub basis_ref_round : List Text → Option (List Text) → Text → Round
basis_ref_round allowed none value = record { kept = true; seen = none }
basis_ref_round allowed (some refs) value =
    if elem value allowed
    then if elem value refs
      then record { kept = false; seen = some refs }
      else record { kept = true; seen = some (value ∷ refs) }
    else if is_empty value
    then record { kept = true; seen = some refs }
    else record { kept = true; seen = none }

unfoldable pub basis_round : List Text → Option (List Text) → Text → List Text → Round
unfolding basis_ref_round complete_basis_tail
basis_round allowed seen value rest =
    if value == target_mark
    then record { kept = true; seen = none }
    else if value == basis_mark
    then if some_seen seen && complete_basis_tail allowed false rest
      then record { kept = false; seen = seen }
      else record { kept = true; seen = some [] }
    else basis_ref_round allowed seen value

unfoldable pub deduplicate_lines : List Text → Option (List Text) → List Text → List Text
unfolding basis_round value_of
deduplicate_lines allowed seen [] = []
deduplicate_lines allowed seen (line ∷ rest) =
    let round = basis_round allowed seen (value_of line) rest in
    let tail = deduplicate_lines allowed round.seen rest in if round.kept then line ∷ tail else tail

unfoldable pub deduplicate_basis : Text → List Text → Text
unfolding split join deduplicate_lines
deduplicate_basis text allowed = join_lines (deduplicate_lines allowed none (split b'\n' text))
