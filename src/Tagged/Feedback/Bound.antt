-- ===== src/Tagged/Feedback/Bound.antt =====
-- The blocks that `_normalize_feedback_output` writes (service.py).
use chora_mem.Prelude.{true, false, List, [], ◌++◌, is_empty, elem, nat_eq, list_eq, ◌≡◌}
use chora_mem.Text.{Text}
use chora_mem.Tagged.Feedback.{Block, Offer, block_lines}
use chora_mem.Tagged.Feedback.Reads.{HasBody}
use chora_mem.Tagged.Feedback.Basis.{IsBasis}

-- What is written for one block.
pub record IsBound (offer : Offer) (block : Block) (basis : List Text) : Type 0 where
  pub target_offered : elem block.target offer.targets ≡ true
  pub shape : HasBody block.operation block.body
  pub basis_filled : is_empty basis ≡ false
  pub refs : IsBasis offer block basis

-- The input as blocks one after another, and the output as the same blocks with new Basis lists.
pub data Binds (offer : Offer) : List Text → List Text → Type 0 where
  no_blocks : Binds offer [] []
  block_then :
      {block : Block} {basis input output rest others : List Text}
      → IsBound offer block basis
      → input ≡ block_lines block block.basis ++ rest
      → output ≡ block_lines block basis ++ others
      → Binds offer rest others
      → Binds offer input output
