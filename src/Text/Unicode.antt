-- ===== src/Text/Unicode.antt =====
-- The classes of characters that the worker tests, from Python's Unicode tables.
use chora_mem.Prelude.{ℕ, Bool, ◌||◌, ◌&&◌, leb, eqb}

abbrev within : ℕ → ℕ → ℕ → Bool
within lo hi c = leb lo c && leb c hi

-- the spaces of both tables above the ASCII controls
abbrev wide_space : ℕ → Bool
wide_space c =
    eqb c 0x85
    || eqb c 0xa0
    || eqb c 0x1680
    || within 0x2000 0x200a c
    || within 0x2028 0x2029 c
    || eqb c 0x202f
    || eqb c 0x205f
    || eqb c 0x3000

-- `character.isspace()`, and the characters that `text.strip()` removes
unfoldable pub is_space : ℕ → Bool
is_space c = within 9 13 c || within 28 32 c || wide_space c

-- the members of `_GO_TRIM_SPACE`
unfoldable pub go_trim_space : ℕ → Bool
go_trim_space c = within 9 13 c || eqb c 32 || wide_space c

-- the members of `" \t\r"`
unfoldable pub line_blank : ℕ → Bool
line_blank c = eqb c 32 || eqb c 9 || eqb c 13

-- `unicodedata.category(character) == "Cc"`
unfoldable pub is_control : ℕ → Bool
is_control c = within 0 31 c || within 127 159 c
