-- ===== src/Tagged/Window.antt =====
-- What service.py reads from the text of a window and from tagged text: the offered feedback
-- targets, their Basis, and tests on the targets of a text.
use chora_mem.Prelude.{
  Bool, false, ◌&&◌, ◌||◌, not, List, [], ◌∷◌, is_empty, all, elem, select, drop, distinct, length,
  map, nat_eq, list_eq, ◌==◌, if◌then◌else◌,
}
use chora_mem.Text.{Text, codes, starts_with, strip, splitlines}
use chora_mem.Text.Unicode.{is_space}
use chora_mem.Tagged.{target_mark}
use chora_mem.Tagged.Basis.{value_of}

abbrev pub eligible_prefix : Text
eligible_prefix = codes "ELIGIBLE_DISPOSITION "

abbrev pub episode_prefix : Text
episode_prefix = codes "FEEDBACK_EPISODE "

abbrev pub outcome_prefix : Text
outcome_prefix = codes "FEEDBACK_OUTCOME "

abbrev pub pairing_prefix : Text
pairing_prefix = codes "OUTCOME_EPISODE "

-- `line[len(prefix):].strip()`
unfoldable pub ref_after : Text → Text → Text
unfolding strip is_space
ref_after prefix line = strip is_space (drop (length prefix) line)

-- the refs behind a prefix, in the order of their lines
unfoldable pub refs_behind : Text → List Text → List Text
unfolding ref_after
refs_behind prefix [] = []
refs_behind prefix (line ∷ rest) =
    let others = refs_behind prefix rest in
    if starts_with prefix line then ref_after prefix line ∷ others else others

-- the refs behind either of two prefixes
unfoldable pub refs_behind_either : Text → Text → List Text → List Text
unfolding ref_after
refs_behind_either first second [] = []
refs_behind_either first second (line ∷ rest) =
    let others = refs_behind_either first second rest in
    if starts_with first line
    then ref_after first line ∷ others
    else if starts_with second line
    then ref_after second line ∷ others
    else others

abbrev pub window_lines : Text → List Text
window_lines window_text = map value_of (splitlines window_text)

-- `_eligible_feedback_targets`
unfoldable pub eligible_feedback_targets : Text → List Text → List Text
unfolding refs_behind distinct
eligible_feedback_targets window_text allowed =
    distinct
      (select (λ ref. elem ref allowed) (refs_behind eligible_prefix (window_lines window_text)))

-- `_eligible_feedback_basis_refs`
unfoldable pub eligible_feedback_basis_refs : Text → List Text → List Text
unfolding refs_behind_either distinct
eligible_feedback_basis_refs window_text allowed = distinct (
    select (λ ref. elem ref allowed)
      (refs_behind_either episode_prefix outcome_prefix (window_lines window_text)))

abbrev pub starts_block : List Text → List Text → Bool
starts_block targets (line ∷ next ∷ rest) = line == target_mark && elem next targets
starts_block targets _ = false

unfoldable pub any_block : List Text → List Text → Bool
any_block targets [] = false
any_block targets (line ∷ rest) = starts_block targets (line ∷ rest) || any_block targets rest

-- `_contains_target_block`
unfoldable pub contains_target_block : Text → List Text → Bool
unfolding any_block value_of splitlines
contains_target_block text targets = any_block targets (map value_of (splitlines text))

-- the lines, stripped of `" \t\r"`, that are not empty
unfoldable pub value_lines : Text → List Text
unfolding value_of splitlines
value_lines text = select (λ line. not (is_empty line)) (map value_of (splitlines text))

-- the line behind each TARGET
unfoldable pub target_refs : List Text → List Text
target_refs [] = []
target_refs (line ∷ []) = []
target_refs (line ∷ next ∷ rest) =
    let others = target_refs (next ∷ rest) in if line == target_mark then next ∷ others else others

-- `_contains_only_target_blocks`
unfoldable pub contains_only_target_blocks : Text → List Text → Bool
unfolding target_refs value_lines
contains_only_target_blocks text targets =
    let refs = target_refs (value_lines text) in
    not (is_empty refs) && all (λ ref. elem ref targets) refs

-- `_ordered_unique`
unfoldable pub ordered_unique : List Text → List Text
unfolding distinct
ordered_unique values = distinct (select (λ value. not (is_empty value)) values)

-- outcome_ref to episode_ref, the latest line first
abbrev pub Pairing : Type 0
Pairing = List (Text × Text)

abbrev pub pair_with : Text → List Text → Pairing → Pairing
pair_with line [] pairing = pairing
pair_with line (next ∷ rest) pairing =
    let outcome = ref_after outcome_prefix line in
    let episode = ref_after pairing_prefix next in
    if starts_with outcome_prefix line
      && starts_with pairing_prefix next
      && not (is_empty outcome)
      && not (is_empty episode)
    then (outcome, episode) ∷ pairing
    else pairing

unfoldable pub outcome_pairing : Pairing → List Text → Pairing
unfolding ref_after
outcome_pairing pairing [] = pairing
outcome_pairing pairing (line ∷ rest) = outcome_pairing (pair_with line rest pairing) rest

-- the first part of `_feedback_basis_map`
unfoldable pub feedback_episodes : Text → List Text
unfolding refs_behind splitlines value_of
feedback_episodes window_text = refs_behind episode_prefix (window_lines window_text)

-- the second part
unfoldable pub outcome_episodes : Text → Pairing
unfolding outcome_pairing splitlines value_of
outcome_episodes window_text = outcome_pairing [] (window_lines window_text)
