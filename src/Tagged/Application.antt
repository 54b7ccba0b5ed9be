-- ===== src/Tagged/Application.antt =====
-- `_split_copied_inline_application` (service.py).
use chora_mem.Prelude.{
  Bool, false, ◌&&◌, List, [], ◌∷◌, ◌++◌, Option, none, some, is_empty, elem, nat_eq, list_eq, ◌==◌,
  if◌then◌else◌,
}
use chora_mem.Text.{Text, codes, split, join, join_lines}
use chora_mem.Tagged.{application_mark, change_mark, trimmed, next_meaningful, carriage_of}

abbrev pub scopes : List Text
scopes = codes "SELF" ∷ codes "OTHER" ∷ codes "RELATION" ∷ codes "SITUATION" ∷ []

abbrev scope_in : List Text → Option Text
scope_in (mark ∷ scope ∷ []) =
    if mark == application_mark && elem scope scopes then some scope else none
scope_in _ = none

-- the scope of a line `APPLICATION <scope>`
unfoldable pub inline_scope : Text → Option Text
unfolding split
inline_scope value = scope_in (split b' ' value)

abbrev is_offered : List Text → Option Text → Bool
is_offered allowed none = false
is_offered allowed (some previous) = elem previous allowed

abbrev is_change : Option Text → Bool
is_change none = false
is_change (some following) = following == change_mark

-- The scope to split off a line, where the meaningful lines around it are an offered ref and CHANGE.
unfoldable pub copied_scope : List Text → Option Text → Text → List Text → Option Text
unfolding inline_scope
copied_scope allowed previous line rest =
    if is_offered allowed previous && is_change (next_meaningful rest)
    then inline_scope (trimmed line)
    else none

-- The loop over the meaningful lines; `previous` is the last one before `lines`.
unfoldable pub split_first : List Text → Option Text → List Text → List Text
unfolding copied_scope
split_first allowed previous [] = []
split_first allowed previous (line ∷ rest) =
    let previous' : Option Text =
      (if is_empty (trimmed line) then previous else some (trimmed line)) in
    let onward = line ∷ split_first allowed previous' rest in
    elim (copied_scope allowed previous line rest) [
      | none ↦ onward
      | some scope ↦ (application_mark ++ carriage_of line) ∷ (scope ++ carriage_of line) ∷ rest
    ]

unfoldable pub split_copied_inline_application : Text → List Text → Text
unfolding split join split_first
split_copied_inline_application text allowed =
    join_lines (split_first allowed none (split b'\n' text))
