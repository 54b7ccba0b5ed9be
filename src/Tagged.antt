-- ===== src/Tagged.antt =====
-- The repairs and filters that the worker applies to the tagged text of a model
-- (worker/python/src/memory_core_worker/service.py), and the words of its grammar.
pub mod Application
pub mod Target
pub mod Basis
pub mod NewDisposition
pub mod Window
pub mod Feedback
use chora_mem.Prelude.{ℕ, List, [], ◌∷◌, ◌++◌, Option, none, some, is_empty, if◌then◌else◌, ltb}
use chora_mem.Text.{Text, codes, strip, trim_end, ends_with_cr, newline}
use chora_mem.Text.Unicode.{is_space, go_trim_space}
use chora_mem.Text.Size.{utf8_length}
use chora_mem.Result.{Result, ok, err, unicode_encode_error, ◌>>=◌}
use chora_mem.Checks.{max_tagged_text_bytes}

abbrev pub target_mark : Text
target_mark = codes "TARGET"

abbrev pub application_mark : Text
application_mark = codes "APPLICATION"

abbrev pub change_mark : Text
change_mark = codes "CHANGE"

abbrev pub basis_mark : Text
basis_mark = codes "BASIS"

abbrev pub new_disposition : Text
new_disposition = codes "NEW_DISPOSITION"

abbrev pub new_recollection : Text
new_recollection = codes "NEW_RECOLLECTION"

-- `line.strip(_GO_TRIM_SPACE)`
unfoldable pub trimmed : Text → Text
unfolding strip go_trim_space
trimmed = strip go_trim_space

-- the stripped value of the next line that is not blank
abbrev pub next_meaningful : List Text → Option Text
next_meaningful [] = none
next_meaningful (line ∷ rest) =
    let later = next_meaningful rest in
    if is_empty (trimmed line) then later else some (trimmed line)

-- `newline_suffix`
abbrev pub carriage_of : Text → Text
carriage_of line = if ends_with_cr line then codes "\r" else []

-- `len(text.encode("utf-8"))`
unfoldable pub encoded_length : Text → Result ℕ
encoded_length text = elim (utf8_length text) [ none ↦ err unicode_encode_error | some n ↦ ok n ]

-- `addition if not primary else primary.rstrip() + "\n" + addition`
unfoldable pub after_primary : Text → Text → Text
unfolding trim_end is_space
after_primary [] addition = addition
after_primary (c ∷ primary) addition = trim_end is_space (c ∷ primary) ++ (newline ++ addition)

-- the combined text, or the primary one where the combined is too long
unfoldable pub combine : Text → Text → Result Text
unfolding after_primary encoded_length
combine primary addition = do
  n ← encoded_length (after_primary primary addition)
  ok (if ltb max_tagged_text_bytes n then primary else after_primary primary addition)

-- `_append_tagged_text`
unfoldable pub append_tagged_text : Text → Text → Result Text
unfolding combine
append_tagged_text primary [] = ok primary
append_tagged_text primary (c ∷ addition) = combine primary (c ∷ addition)
