-- ===== src/Tests/Repairs.antt =====
-- The theorems about the repairs of tagged text, at concrete texts.
use chora_mem.Prelude.{[], ◌∷◌, List, ◌≡◌, Option, none, false, if◌then◌else◌}
use chora_mem.Text.{Text, codes, split, splitlines}
use chora_mem.Tagged.{target_mark}
use chora_mem.Tagged.Target.{offered_new, restore_initial_new_target}
use chora_mem.Tagged.Target.Repair.{values_of, begins_with_kind, restore-values_of, restore-restore}
use chora_mem.Tagged.Basis.{deduplicate_basis}
use chora_mem.Tagged.Basis.Erasure.{
  Erases, is_basis_line, HasNoRepeats, deduplicate_basis-Erases, deduplicate_basis-HasNoRepeats,
}
use chora_mem.Tagged.Feedback.{Offer, normalize_blocks, returned}
use chora_mem.Tagged.Feedback.Fuel.{normalize_blocks-fuel}
use chora_mem.Prelude.{arith}
use chora_mem.Tagged.NewDisposition.{meaningful, has_owned_block, remove_new_disposition_changes}
use chora_mem.Tagged.NewDisposition.Safety.{remove-has_owned_block}

abbrev two_blocks : Text
two_blocks =
    codes
      "TARGET\nNEW_DISPOSITION\nAPPLICATION\nSELF\nCHANGE\nADAPT\nx\nBASIS\ne1\nTARGET\nd1\nAPPLICATION\nSELF\nCHANGE\nREENACT\nBASIS\ne2\n"

abbrev adapt : List Text
adapt = codes "ADAPT" ∷ []

remove-has_owned_block_example :
    has_owned_block adapt
      (meaningful (splitlines (remove_new_disposition_changes two_blocks adapt)))
    ≡ false
remove-has_owned_block_example = remove-has_owned_block two_blocks adapt

abbrev repeated : Text
repeated = codes "TARGET\nr\nBASIS\ne1\nBASIS\ne2\ne1\n"

abbrev two_refs : List Text
two_refs = codes "e1" ∷ codes "e2" ∷ []

deduplicate_basis-Erases_example :
    Erases
      (is_basis_line two_refs)
      (split b'\n' repeated)
      (split b'\n' (deduplicate_basis repeated two_refs))
deduplicate_basis-Erases_example = deduplicate_basis-Erases repeated two_refs

deduplicate_basis-HasNoRepeats_example :
    HasNoRepeats two_refs none (split b'\n' (deduplicate_basis repeated two_refs))
deduplicate_basis-HasNoRepeats_example = deduplicate_basis-HasNoRepeats repeated two_refs

abbrev unlabelled : Text
unlabelled = codes "\nNEW_RECOLLECTION\nAPPLICATION\nOTHER"

abbrev kinds : List Text
kinds = codes "NEW_RECOLLECTION" ∷ []

restore-values_of_example : values_of (restore_initial_new_target unlabelled kinds) ≡ (
    if begins_with_kind (offered_new kinds) (values_of unlabelled)
    then target_mark ∷ values_of unlabelled
    else values_of unlabelled)
restore-values_of_example = restore-values_of unlabelled kinds

restore-restore_example :
    restore_initial_new_target (restore_initial_new_target unlabelled kinds) kinds
    ≡ restore_initial_new_target unlabelled kinds
restore-restore_example = restore-restore unlabelled kinds

abbrev offer : Offer
offer = record {
  targets = codes "d1" ∷ [];
  episodes = codes "e1" ∷ [];
  outcomes = (codes "o1", codes "e1") ∷ [];
}

abbrev feedback_lines : List Text
feedback_lines =
    codes "TARGET"
    ∷ codes "d1"
    ∷ codes "APPLICATION"
    ∷ codes "SELF"
    ∷ codes "CHANGE"
    ∷ codes "INHIBIT"
    ∷ codes "BASIS"
    ∷ codes "o1"
    ∷ []

normalize_blocks-fuel_example :
    (result : Option (List Text)) × (normalize_blocks 8 offer feedback_lines ≡ returned result)
    × (normalize_blocks 20 offer feedback_lines ≡ returned result)
normalize_blocks-fuel_example =
    normalize_blocks-fuel 8 20 offer feedback_lines (omega arith) (omega arith)

abbrev feedback : Text
feedback = codes "TARGET\nd1\nAPPLICATION\nSELF\nCHANGE\nINHIBIT\nBASIS\no1\n"

abbrev feedback_window : Text
feedback_window = codes "FEEDBACK_EPISODE e1\nFEEDBACK_OUTCOME o1\nOUTCOME_EPISODE e1\n"

abbrev one_target : List Text
one_target = codes "d1" ∷ []
