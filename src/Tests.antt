-- ===== src/Tests.antt =====
-- Runs of the definitions on small inputs.
mod Blocks
mod Clients
mod Harnesses
mod Indexes
mod Lifecycles
mod Renderings
mod Repairs
mod Services
mod Suites
mod Turns
mod Upserts
use chora_mem.Prelude.{[], ◌∷◌, List, ◌≡◌, refl, some, none}
use chora_mem.Text.{Text, codes, splitlines, strip, split}
use chora_mem.Text.Size.{utf8_length}
use chora_mem.Text.Unicode.{is_space}
use chora_mem.Result.{ok}
use chora_mem.Recollection.{RecollectionMaterial, bind_recollection, bind_body, bind_normalized}
use chora_mem.Checks.{validate_basis_ref}
use chora_mem.Tagged.{trimmed}
use chora_mem.Tagged.Basis.{deduplicate_basis}
use chora_mem.Tagged.Application.{split_copied_inline_application}
use chora_mem.Tagged.Target.{restore_initial_new_target}
use chora_mem.Tagged.NewDisposition.{remove_new_disposition_changes}
use chora_mem.Tagged.Feedback.{normalize_feedback_output}

splitlines_runs : splitlines (codes "a\r\nb\n\nc\r") ≡ codes "a" ∷ codes "b" ∷ [] ∷ codes "c" ∷ []
unfolding splitlines
splitlines_runs = refl

strip_runs : strip is_space (codes " \t a b \n") ≡ codes "a b"
unfolding strip is_space
strip_runs = refl

abbrev material : RecollectionMaterial
material = record {
  episode_ref = codes "e1";
  source_ref = codes "s1";
  text = codes "I live in Paris.";
  context_text = [];
  basis_refs = codes "e1" ∷ codes "e2" ∷ [];
  existing_recollections = [];
}

bind_runs :
    bind_recollection material (codes " The user lives\n in Paris. ")
    ≡ ok (
        codes
          "TARGET\nNEW_RECOLLECTION\nAPPLICATION\nOTHER\nCHANGE\nTEXT\nThe user lives in Paris.\nBASIS\ne1\ne2")
unfolding bind_recollection bind_body bind_normalized validate_basis_ref utf8_length
bind_runs = refl

dedup_runs :
    deduplicate_basis (codes "TARGET\nr\nBASIS\ne1\nBASIS\ne2\ne1\n") (codes "e1" ∷ codes "e2" ∷ [])
    ≡ codes "TARGET\nr\nBASIS\ne1\ne2\n"
unfolding deduplicate_basis
dedup_runs = refl

inline_runs :
    split_copied_inline_application
      (codes "TARGET\nd1\nAPPLICATION SELF\r\nCHANGE\nKEEP")
      (codes "d1" ∷ [])
    ≡ codes "TARGET\nd1\nAPPLICATION\r\nSELF\r\nCHANGE\nKEEP"
unfolding split_copied_inline_application trimmed
inline_runs = refl

restore_runs :
    restore_initial_new_target
      (codes "\nNEW_RECOLLECTION\nAPPLICATION\nOTHER")
      (codes "NEW_RECOLLECTION" ∷ [])
    ≡ codes "\nTARGET\nNEW_RECOLLECTION\nAPPLICATION\nOTHER"
unfolding restore_initial_new_target trimmed
restore_runs = refl

remove_runs :
    remove_new_disposition_changes
      (codes
        "TARGET\nNEW_DISPOSITION\nAPPLICATION\nSELF\nCHANGE\nADAPT\nx\nBASIS\ne1\nTARGET\nd1\nAPPLICATION\nSELF\nCHANGE\nREENACT\nBASIS\ne2\n")
      (codes "ADAPT" ∷ [])
    ≡ codes "TARGET\nd1\nAPPLICATION\nSELF\nCHANGE\nREENACT\nBASIS\ne2"
unfolding remove_new_disposition_changes
remove_runs = refl

feedback_runs :
    normalize_feedback_output
      (codes "TARGET\nd1\nAPPLICATION\nSELF\nCHANGE\nINHIBIT\nBASIS\no1\n")
      (codes "d1" ∷ [])
      (codes "FEEDBACK_EPISODE e1\nFEEDBACK_OUTCOME o1\nOUTCOME_EPISODE e1\n")
    ≡ codes "TARGET\nd1\nAPPLICATION\nSELF\nCHANGE\nINHIBIT\nBASIS\ne1\no1"
unfolding normalize_feedback_output
feedback_runs = refl
