-- ===== src/Index/Projection.antt =====
-- `semantic_index_text` (local_memory_index.py): the text of an Episode without the identities that
-- the core gives it.
pub mod Renaming
use chora_mem.Prelude.{
  ℕ, Bool, true, false, ◌&&◌, ◌||◌, not, List, [], ◌∷◌, ◌++◌, Option, none, some, elem, eqb, nat_eq,
  list_eq, ◌==◌, if◌then◌else◌,
}
use chora_mem.Text.{
  Text, codes, starts_with, split, is_line_break, starts_with_lf, push, trim_end, newline,
}

-- `MEMORY_KIND_EPISODE`, `_RECOLLECTION` and `_DISPOSITION`
abbrev pub kind_episode : ℕ
kind_episode = 1

abbrev pub kind_recollection : ℕ
kind_recollection = 2

abbrev pub kind_disposition : ℕ
kind_disposition = 3

-- `text.splitlines(keepends=True)`
unfoldable pub splitlines_keepends : Text → List Text
splitlines_keepends [] = []
splitlines_keepends (c ∷ t) =
    let rest = splitlines_keepends t in
    if eqb c b'\r' && starts_with_lf t
    then push c rest
    else if is_line_break c
    then (c ∷ []) ∷ rest
    else push c rest

-- `"".join(lines)`
abbrev pub concat : List Text → Text
concat [] = []
concat (l ∷ ls) = l ++ concat ls

-- the end of a line that `replace_line` keeps: "\r\n", "\n" or none
abbrev pub line_end : Text → Text
line_end [] = []
line_end (c ∷ []) = if eqb c b'\n' then newline else []
line_end (c ∷ d ∷ []) = if eqb c b'\r' && eqb d b'\n' then codes "\r\n" else line_end (d ∷ [])
line_end (c ∷ d ∷ e ∷ t) = line_end (d ∷ e ∷ t)

-- `replace_line`
abbrev pub replace_line : Text → Text → Text
replace_line line value = value ++ line_end line

-- `line.rstrip("\r\n")`
unfoldable pub without_ends : Text → Text
unfolding trim_end
without_ends line = trim_end (λ c. eqb c b'\r' || eqb c b'\n') line

abbrev pub roles : List Text
roles = codes "AGENT_ACT" ∷ codes "OUTCOME" ∷ codes "SITUATION" ∷ []

-- `line.split(" ", 2)` with three parts: its second part
abbrev pub second_of_three : List Text → Option Text
second_of_three (a ∷ b ∷ c ∷ rest) = some b
second_of_three _ = none

-- the anonymous form of a line that starts with "ACTOR ", if it has three parts
unfoldable pub anonymous_actor : Text → Option Text
unfolding split without_ends
anonymous_actor line = elim (second_of_three (split b' ' (without_ends line))) [
  | none ↦ none
  | some kind ↦ some (replace_line line (codes "ACTOR " ++ (kind ++ codes " <actor>")))
]

-- Which structural line may come next: behind a role's line an actor or a source, behind the actor
-- a source.
pub data Expected : Type 0 where
  content actor_or_source only_source : Expected

abbrev pub after_line : Text → Expected
after_line line = if elem (without_ends line) roles then actor_or_source else content

-- a line that may be the source's
unfoldable pub at_source : Text → Text × Expected
unfolding without_ends
at_source line =
    if starts_with (codes "SOURCE ") line
    then (replace_line line (codes "SOURCE <source>"), content)
    else (line, after_line line)

-- a line that may be the actor's
unfoldable pub at_actor : Text → Text × Expected
unfolding at_source anonymous_actor
at_actor line =
    if starts_with (codes "ACTOR ") line
    then elim (anonymous_actor line) [ none ↦ at_source line | some l ↦ (l, only_source) ]
    else at_source line

abbrev pub redact_line : Expected → Text → Text × Expected
redact_line content line = (line, after_line line)
redact_line actor_or_source line = at_actor line
redact_line only_source line = at_source line

-- The loop over the lines: a structural line is rewritten when its role's line has been met.
unfoldable pub redact : Expected → List Text → List Text
unfolding at_actor at_source without_ends
redact expected [] = []
redact expected (line ∷ rest) =
    (redact_line expected line).0 ∷ redact (redact_line expected line).1 rest

-- the test on the two lines of the header
abbrev pub is_header : Text → Text → Bool
is_header first second =
    starts_with (codes "EPISODE ") first && starts_with (codes "SESSION ") second

-- the lines of an Episode with its header rewritten
unfoldable pub redact_episode : Text → List Text → Text
unfolding redact
redact_episode text (first ∷ second ∷ rest) =
    if is_header first second
    then concat (
        redact content (
          replace_line first (codes "EPISODE <episode>")
          ∷ replace_line second (codes "SESSION <session>")
          ∷ rest))
    else text
redact_episode text _ = text

unfoldable pub semantic_index_text : ℕ → Text → Text
unfolding splitlines_keepends redact_episode
semantic_index_text kind text =
    if eqb kind kind_episode then redact_episode text (splitlines_keepends text) else text
