-- ===== src/Text.antt =====
-- Python's `str` as a list of code points (lone surrogates included), with the methods of `str`
-- that the worker calls.
pub mod Unicode
pub mod Lines
pub mod Trim
pub mod Size
use Prim.Native.Char.{code}
use chora_mem.Prelude.{
  ℕ, zero, suc, ◌+◌, String, Bool, true, false, ◌&&◌, ◌||◌, not, List, [], ◌∷◌, ◌++◌, Option, none,
  some, eqb, leb, ltb, if◌then◌else◌, ◌==◌, nat_eq, elem,
}

abbrev pub Text : Type 0
Text = List ℕ

abbrev pub codes : String → Text
codes String.[] = []
codes (String.◌∷◌ c s) = code c ∷ codes s

-- `text.startswith(prefix)`
abbrev pub starts_with : Text → Text → Bool
starts_with [] t = true
starts_with (p ∷ ps) [] = false
starts_with (p ∷ ps) (c ∷ t) = eqb p c && starts_with ps t

-- `text.endswith("\r")`
abbrev pub ends_with_cr : Text → Bool
ends_with_cr [] = false
ends_with_cr (c ∷ []) = eqb c b'\r'
ends_with_cr (c ∷ d ∷ t) = ends_with_cr (d ∷ t)

-- `part in text`
abbrev pub contains : Text → Text → Bool
contains part [] = starts_with part []
contains part (c ∷ t) = starts_with part (c ∷ t) || contains part t

-- `text.lstrip(chars)`, the set of characters as a test
unfoldable pub trim_start : (ℕ → Bool) → Text → Text
trim_start p [] = []
trim_start p (c ∷ t) = elim (p c) [ true ↦ trim_start p t | false ↦ c ∷ t ]

-- A character in front of what `rstrip` kept; the flag says that the character can go.
abbrev pub keep_or_trim : Bool → ℕ → Text → Text
keep_or_trim removable c [] = if removable then [] else c ∷ []
keep_or_trim removable c (d ∷ r) = c ∷ d ∷ r

-- `text.rstrip(chars)`
unfoldable pub trim_end : (ℕ → Bool) → Text → Text
trim_end p [] = []
trim_end p (c ∷ t) = keep_or_trim (p c) c (trim_end p t)

-- `text.strip(chars)`
unfoldable pub strip : (ℕ → Bool) → Text → Text
unfolding trim_start trim_end
strip p t = trim_end p (trim_start p t)

-- A character in front of the first line.
abbrev pub push : ℕ → List Text → List Text
push c [] = (c ∷ []) ∷ []
push c (l ∷ ls) = (c ∷ l) ∷ ls

-- `text.split(separator)` for a separator of one character
unfoldable pub split : ℕ → Text → List Text
split sep [] = [] ∷ []
split sep (c ∷ t) = let rest = split sep t in if eqb c sep then [] ∷ rest else push c rest

-- the characters at which `str.splitlines` ends a line
abbrev pub is_line_break : ℕ → Bool
is_line_break c =
    leb 10 c && leb c 13 || leb 28 c && leb c 30 || eqb c 0x85 || eqb c 0x2028 || eqb c 0x2029

abbrev pub starts_with_lf : Text → Bool
starts_with_lf [] = false
starts_with_lf (c ∷ t) = eqb c b'\n'

-- `text.splitlines()`: "\r\n" ends one line, and the last line is listed only if it is not empty
unfoldable pub splitlines : Text → List Text
splitlines [] = []
splitlines (c ∷ t) =
    let rest = splitlines t in
    if eqb c b'\r' && starts_with_lf t
    then rest
    else if is_line_break c
    then [] ∷ rest
    else push c rest

-- `separator.join(parts)`
unfoldable pub join : Text → List Text → Text
join sep [] = []
join sep (x ∷ []) = x
join sep (x ∷ y ∷ r) = x ++ (sep ++ join sep (y ∷ r))

abbrev pub newline : Text
newline = b'\n' ∷ []

-- `"\n".join(parts)`
abbrev pub join_lines : List Text → Text
join_lines = join newline
