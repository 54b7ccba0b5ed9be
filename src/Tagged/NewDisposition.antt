-- ===== src/Tagged/NewDisposition.antt =====
-- `_remove_new_disposition_changes` (service.py).
pub mod Trimmed
pub mod Safety
use chora_mem.Prelude.{
  ℕ, Bool, true, false, ◌&&◌, ◌||◌, not, List, [], ◌∷◌, ◌++◌, Option, none, some, is_empty, any,
  all, elem, select, length, leb, nat_eq, list_eq, ◌==◌, if◌then◌else◌,
}
use chora_mem.Text.{Text, codes, starts_with, strip, splitlines, join, join_lines}
use chora_mem.Text.Unicode.{go_trim_space}
use chora_mem.Checks.{meaningful_lines}
use chora_mem.Tagged.{target_mark, application_mark, change_mark, new_disposition, trimmed}

-- `operation in changes or any(operation.startswith(change + " ") for change in changes)`
unfoldable pub owned_operation : List Text → Text → Bool
owned_operation changes operation =
    elem operation changes || any (λ change. starts_with (change ++ codes " ") operation) changes

-- the stripped lines that are not empty
unfoldable pub meaningful : List Text → List Text
unfolding trimmed
meaningful [] = []
meaningful (line ∷ rest) =
    if is_empty (trimmed line) then meaningful rest else trimmed line ∷ meaningful rest

-- an owned block's header at the head of the meaningful lines
unfoldable pub owned_header : List Text → List Text → Bool
unfolding owned_operation
owned_header changes (a ∷ b ∷ c ∷ d ∷ e ∷ f ∷ rest) =
    a == target_mark
    && b == new_disposition
    && c == application_mark
    && e == change_mark
    && owned_operation changes f
owned_header changes _ = false

-- `has_owned_block`
unfoldable pub has_owned_block : List Text → List Text → Bool
unfolding owned_header
has_owned_block changes [] = false
has_owned_block changes (value ∷ rest) =
    owned_header changes (value ∷ rest) || has_owned_block changes rest

abbrev pub is_target_line : Text → Bool
is_target_line line = trimmed line == target_mark

-- The lines before the first TARGET, and one block for each TARGET line.
pub record Blocks : Type 0 where
  pub preamble : List Text
  pub blocks : List (List Text)

unfoldable pub blocks_of : List Text → Blocks
unfolding trimmed
blocks_of [] = record { preamble = []; blocks = [] }
blocks_of (line ∷ rest) =
    let later = blocks_of rest in
    if is_target_line line
    then record { preamble = []; blocks = (line ∷ later.preamble) ∷ later.blocks }
    else record { preamble = line ∷ later.preamble; blocks = later.blocks }

-- what the loop does with a block, from its meaningful lines
pub data Verdict : Type 0 where
  malformed dropped kept : Verdict

unfoldable pub verdict : List Text → List Text → Verdict
unfolding owned_operation
verdict changes (a ∷ target ∷ c ∷ d ∷ e ∷ operation ∷ g ∷ rest) =
    if not (a == target_mark) || not (c == application_mark) || not (e == change_mark)
    then malformed
    else if target == new_disposition && owned_operation changes operation
    then dropped
    else kept
verdict changes _ = malformed

-- the loop over the blocks; `none` is the early `return ""`
unfoldable pub kept_lines : List Text → List (List Text) → Option (List Text)
unfolding verdict meaningful
kept_lines changes [] = some []
kept_lines changes (block ∷ rest) = elim (verdict changes (meaningful block)) [
  | malformed ↦ none
  | dropped ↦ kept_lines changes rest
  | kept ↦ elim (kept_lines changes rest) [ none ↦ none | some lines ↦ some (block ++ lines) ]
]

-- what is returned once an owned block is found
unfoldable pub without_owned : List Text → Blocks → Text
unfolding kept_lines join trimmed meaningful
without_owned changes found =
    if is_empty found.blocks || not (is_empty (meaningful found.preamble))
    then []
    else elim (kept_lines changes found.blocks) [
      | none ↦ []
      | some lines ↦ trimmed (join_lines lines)
    ]

unfoldable pub remove_new_disposition_changes : Text → List Text → Text
unfolding splitlines meaningful has_owned_block blocks_of without_owned
remove_new_disposition_changes text changes =
    if has_owned_block changes (meaningful (splitlines text))
    then without_owned changes (blocks_of (splitlines text))
    else text
