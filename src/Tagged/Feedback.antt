-- ===== src/Tagged/Feedback.antt =====
-- `_normalize_feedback_output` (service.py).
mod Reads
mod Unique
mod Basis
pub mod Fuel
pub mod Bound
use chora_mem.Prelude.{
  ℕ, zero, suc, Bool, true, false, ◌||◌, not, List, [], ◌∷◌, ◌++◌, Option, none, some, is_empty,
  elem, select, lookup, length, nat_eq, list_eq, ◌==◌, if◌then◌else◌,
}
use chora_mem.Text.{Text, codes, join, join_lines}
use chora_mem.Tagged.{target_mark, application_mark, change_mark, basis_mark}
use chora_mem.Tagged.Window.{
  Pairing, value_lines, ordered_unique, feedback_episodes, outcome_episodes,
}

infixl 5 ◌>>=◌ ◌>>◌
abbrev pub ◌>>=◌ {ℓ κ} : {A : Type ℓ} {B : Type κ} → Option A → (A → Option B) → Option B
none >>= f = none
some a >>= f = f a

abbrev pub ◌>>◌ {ℓ} : {B : Type ℓ} → Option (Unit {0}) → Option B → Option B
m >> k = m >>= λ _. k

-- `if not test: return ""`
abbrev pub require : Bool → Option (Unit {0})
require test = if test then some tt else none

abbrev pub text_op : Text
text_op = codes "TEXT"

abbrev pub reenact_op : Text
reenact_op = codes "REENACT"

abbrev pub inhibit_op : Text
inhibit_op = codes "INHIBIT"

-- What the window offers: the feedback targets, the feedback Episodes, and the Episode of each
-- Outcome.
pub record Offer : Type 0 where
  pub targets : List Text
  pub episodes : List Text
  pub outcomes : Pairing

-- one block of the input, as the loop takes it apart
pub record Block : Type 0 where
  pub target : Text
  pub application : Text
  pub operation : Text
  pub body : List Text
  pub basis : List Text

-- the lines before the next TARGET, and those from it on
unfoldable pub until_target : List Text → List Text
until_target [] = []
until_target (line ∷ rest) =
    let later = until_target rest in if line == target_mark then [] else line ∷ later

unfoldable pub from_target : List Text → List Text
from_target [] = []
from_target (line ∷ rest) =
    let later = from_target rest in if line == target_mark then line ∷ rest else later

-- at the BASIS marker: the block, and the lines that follow it
unfoldable pub read_basis : Text → Text → Text → List Text → List Text → Option (Block × List Text)
unfolding until_target from_target
read_basis target application operation body [] = none
read_basis target application operation body (marker ∷ rest) = do
  require (marker == basis_mark)
  some (
    record {
      target = target;
      application = application;
      operation = operation;
      body = body;
      basis = until_target rest;
    },
    from_target rest,
  )

-- behind the operation: the body of a TEXT, and no body of the others
unfoldable pub read_body : Text → Text → Text → List Text → Option (Block × List Text)
unfolding read_basis
read_body target application operation [] = none
read_body target application operation (line ∷ rest) =
    if operation == text_op
    then (if line == basis_mark
        then none
        else read_basis target application operation (line ∷ []) rest)
    else if operation == reenact_op || operation == inhibit_op
    then read_basis target application operation [] (line ∷ rest)
    else none

-- the first block of the lines: the header, of at least eight lines in all
unfoldable pub read_block : List Text → List Text → Option (Block × List Text)
unfolding read_body
read_block targets (a ∷ target ∷ c ∷ application ∷ e ∷ operation ∷ g ∷ h ∷ rest) = do
  require (a == target_mark)
  require (elem target targets)
  require (c == application_mark)
  require (e == change_mark)
  read_body target application operation (g ∷ h ∷ rest)
read_block targets _ = none

-- the loop over `chosen_outcomes`
unfoldable pub paired_items : Offer → List Text → Option (List Text)
paired_items offer [] = some []
paired_items offer (outcome ∷ rest) = do
  episode ← lookup outcome offer.outcomes
  require (elem episode offer.episodes)
  items ← paired_items offer rest
  some (episode ∷ outcome ∷ items)

abbrev pub is_some : Option Text → Bool
is_some none = false
is_some (some ref) = true

abbrev pub is_paired : Offer → Text → Bool
is_paired offer ref = is_some (lookup ref offer.outcomes)

-- `basis`
unfoldable pub bound_basis : Offer → Block → Option (List Text)
unfolding ordered_unique paired_items
bound_basis offer block =
    if block.operation == reenact_op
    then some (ordered_unique (select (λ ref. elem ref offer.episodes) block.basis))
    else do
      items ← paired_items offer (ordered_unique (select (is_paired offer) block.basis))
      some (ordered_unique items)

-- the lines that are written for a block
abbrev pub block_lines : Block → List Text → List Text
block_lines block basis =
    target_mark
    ∷ block.target
    ∷ application_mark
    ∷ block.application
    ∷ change_mark
    ∷ block.operation
    ∷ (block.body ++ basis_mark ∷ basis)

-- one round of the loop
unfoldable pub normalize_block : Offer → Block → Option (List Text)
unfolding bound_basis
normalize_block offer block = do
  basis ← bound_basis offer block
  require (not (is_empty basis))
  some (block_lines block basis)

-- How the loop ends: with no fuel left, or by returning; `none` is an early `return ""`.
pub data Loop : Type 0 where
  unfinished : Loop
  returned : Option (List Text) → Loop

-- `blocks.extend(block)`, before the rounds that follow
abbrev pub extend : List Text → Option (List Text) → Option (List Text)
extend lines none = none
extend lines (some others) = some (lines ++ others)

abbrev pub extend_loop : List Text → Loop → Loop
extend_loop lines unfinished = unfinished
extend_loop lines (returned others) = returned (extend lines others)

-- The loop, on fuel.
unfoldable pub normalize_blocks : ℕ → Offer → List Text → Loop
unfolding read_block normalize_block
normalize_blocks fuel offer [] = returned (some [])
normalize_blocks zero offer (line ∷ rest) = unfinished
normalize_blocks (suc fuel) offer (line ∷ rest) = elim (read_block offer.targets (line ∷ rest)) [
  | none ↦ returned none
  | some (block, remaining) ↦ elim (normalize_block offer block) [
    | none ↦ returned none
    | some lines ↦ extend_loop lines (normalize_blocks fuel offer remaining)
  ]
]

abbrev pub offer_of : List Text → Text → Offer
offer_of targets window_text = record {
  targets = targets;
  episodes = feedback_episodes window_text;
  outcomes = outcome_episodes window_text;
}

abbrev pub joined_or_empty : Loop → Text
joined_or_empty unfinished = []
joined_or_empty (returned none) = []
joined_or_empty (returned (some lines)) = join_lines lines

-- The fuel is the number of lines.
unfoldable pub normalize_feedback_output : Text → List Text → Text → Text
unfolding value_lines join feedback_episodes outcome_episodes normalize_blocks
normalize_feedback_output text targets window_text =
    joined_or_empty (
      normalize_blocks (length (value_lines text)) (offer_of targets window_text)
        (value_lines text))
