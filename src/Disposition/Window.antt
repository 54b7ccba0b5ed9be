-- ===== src/Disposition/Window.antt =====
-- What disposition_materials.py reads from the text of the window: the offered applications, the
-- constitution and the texts of existing Dispositions. Its two regular expressions match whole
-- consecutive lines, so they are read as tests on the lines between "\n".
use chora_mem.Prelude.{
  Bool, true, false, ◌&&◌, ◌||◌, not, List, [], ◌∷◌, ◌++◌, Option, none, some, any, select, drop,
  distinct, map, eqb, nat_eq, list_eq, ◌==◌, if◌then◌else◌,
}
use chora_mem.Text.{Text, codes, starts_with, strip, split, splitlines, join, join_lines}
use chora_mem.Text.Unicode.{is_space}

-- `literal\r?$`
abbrev pub matches_line : Text → Text → Bool
matches_line literal line = line == literal || line == literal ++ codes "\r"

abbrev pub eligible_new_line : Text
eligible_new_line = codes "ELIGIBLE_NEW_DISPOSITION NEW_DISPOSITION"

-- the group of `APPLICATION (SELF|RELATION)\r?$`
abbrev pub application_group : Text → Option Text
application_group line =
    if matches_line (codes "APPLICATION SELF") line
    then some (codes "SELF")
    else if matches_line (codes "APPLICATION RELATION") line
    then some (codes "RELATION")
    else none

abbrev pub listed : Option Text → List Text
listed none = []
listed (some text) = text ∷ []

abbrev pub application_at : Bool → List Text → List Text
application_at false following = []
application_at true [] = []
application_at true (next ∷ rest) = listed (application_group next)

-- the groups that `re.findall` lists
unfoldable pub applications_in : List Text → List Text
applications_in [] = []
applications_in (line ∷ rest) =
    application_at (matches_line eligible_new_line line) rest ++ applications_in rest

unfoldable pub offered_applications : Text → List Text
unfolding split applications_in
offered_applications window_text = applications_in (split b'\n' window_text)

abbrev pub disposition_prefixes : List Text
disposition_prefixes =
    codes "ACTIVE_DISPOSITION_HINT "
    ∷ codes "ELIGIBLE_DISPOSITION "
    ∷ codes "ELIGIBLE_ADAPTATION "
    ∷ []

-- `prefix [^\n]+\r?`: the prefix with at least one more character
abbrev pub longer_than : Text → Text → Bool
longer_than [] [] = false
longer_than [] (c ∷ line) = true
longer_than (p ∷ ps) [] = false
longer_than (p ∷ ps) (c ∷ line) = eqb p c && longer_than ps line

abbrev pub heads_disposition : Text → Bool
heads_disposition line = any (λ prefix. longer_than prefix line) disposition_prefixes

abbrev pub is_application_line : Text → Bool
is_application_line line =
    matches_line (codes "APPLICATION SELF") line || matches_line (codes "APPLICATION RELATION") line

-- the group of `TEXT ([^\r\n]+)$`
abbrev pub text_group : Text → Option Text
text_group line =
    if longer_than (codes "TEXT ") line && not (any (λ c. eqb c b'\r') line)
    then some (drop 5 line)
    else none

abbrev pub text_at : List Text → List Text
text_at (line ∷ next ∷ third ∷ rest) =
    if heads_disposition line && is_application_line next then listed (text_group third) else []
text_at _ = []

unfoldable pub disposition_texts_in : List Text → List Text
disposition_texts_in [] = []
disposition_texts_in (line ∷ rest) = text_at (line ∷ rest) ++ disposition_texts_in rest

-- `_existing_disposition_texts`
unfoldable pub existing_disposition_texts : Text → List Text
unfolding split disposition_texts_in strip is_space distinct
existing_disposition_texts window_text =
    distinct (map (strip is_space) (disposition_texts_in (split b'\n' window_text)))

abbrev pub unknown : Text
unknown = codes "UNKNOWN"

-- the lines before `lines.index("END_CONSTITUTION")`; `none` is ValueError
unfoldable pub before_end : List Text → Option (List Text)
before_end [] = none
before_end (line ∷ rest) =
    if line == codes "END_CONSTITUTION"
    then some []
    else elim (before_end rest) [ none ↦ none | some found ↦ some (line ∷ found) ]

abbrev pub or_unknown : Text → Text
or_unknown [] = unknown
or_unknown (c ∷ t) = c ∷ t

-- what the quoted lines hold
abbrev pub quoted_text : List Text → Text
quoted_text lines =
    or_unknown
      (strip is_space (join_lines (map (drop 2) (select (starts_with (codes "> ")) lines))))

abbrev pub constitution_of : List Text → Text
constitution_of (first ∷ second ∷ rest) =
    if not (first == codes "CONSTITUTION")
    then unknown
    else if second == unknown
    then unknown
    else elim (before_end rest) [ none ↦ unknown | some lines ↦ quoted_text lines ]
constitution_of _ = unknown

-- `_constitution_text`
unfoldable pub constitution_text : Text → Text
unfolding splitlines before_end strip is_space join
constitution_text window_text = constitution_of (splitlines window_text)
