-- ===== src/Tagged/Target.antt =====
-- `_restore_initial_new_target` (service.py).
pub mod Repair
use chora_mem.Prelude.{
  Bool, false, ◌&&◌, List, [], ◌∷◌, ◌++◌, Option, none, some, is_empty, elem, select, nat_eq,
  list_eq, ◌==◌, if◌then◌else◌,
}
use chora_mem.Text.{Text, split, join, join_lines}
use chora_mem.Tagged.{
  target_mark, application_mark, new_recollection, new_disposition, trimmed, next_meaningful,
  carriage_of,
}

-- `offered_new`
abbrev pub offered_new : List Text → List Text
offered_new allowed = select (λ ref. elem ref allowed) (new_recollection ∷ new_disposition ∷ [])

abbrev is_application : Option Text → Bool
is_application none = false
is_application (some value) = value == application_mark

-- whether the first meaningful line, here `line`, lacks its TARGET
unfoldable pub lacks_target : List Text → Text → List Text → Bool
lacks_target offered line rest =
    elem (trimmed line) offered && is_application (next_meaningful rest)

unfoldable pub restore_lines : List Text → List Text → List Text
unfolding lacks_target
restore_lines offered [] = []
restore_lines offered (line ∷ rest) =
    let skipped = line ∷ restore_lines offered rest in
    if is_empty (trimmed line)
    then skipped
    else if lacks_target offered line rest
    then (target_mark ++ carriage_of line) ∷ line ∷ rest
    else line ∷ rest

unfoldable pub restore_initial_new_target : Text → List Text → Text
unfolding split join restore_lines
restore_initial_new_target text allowed =
    if is_empty (offered_new allowed)
    then text
    else join_lines (restore_lines (offered_new allowed) (split b'\n' text))
