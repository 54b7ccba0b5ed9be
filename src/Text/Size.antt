-- ===== src/Text/Size.antt =====
-- The length of a text in UTF-8.
use chora_mem.Prelude.{
  ℕ, ◌+◌, ◌≡◌, ◌&&◌, [], ◌∷◌, ◌++◌, Option, none, some, ltb, leb, arith, if◌then◌else◌,
}
use chora_mem.Text.{Text}

-- The bytes of one character: none for a surrogate, which cannot be encoded.
abbrev pub utf8_width : ℕ → Option ℕ
utf8_width c =
    if ltb c 0x80
    then some 1
    else if ltb c 0x800
    then some 2
    else if leb 0xd800 c && leb c 0xdfff
    then none
    else if ltb c 0x10000
    then some 3
    else some 4

abbrev pub add : Option ℕ → Option ℕ → Option ℕ
add (some a) (some b) = some (a + b)
add _ _ = none

-- `len(text.encode("utf-8"))`; `none` is UnicodeEncodeError
unfoldable pub utf8_length : Text → Option ℕ
utf8_length [] = some 0
utf8_length (c ∷ t) = add (utf8_width c) (utf8_length t)

add_assoc : (a b c : Option ℕ) → add (add a b) c ≡ add a (add b c)
add_assoc a b c = ground arith

-- The length of a text in two parts is the sum.
pub utf8_length-append : (a b : Text) → utf8_length (a ++ b) ≡ add (utf8_length a) (utf8_length b)
unfolding utf8_length
utf8_length-append [] b = ground arith
utf8_length-append (c ∷ a) b =
    cc (utf8_length-append a b, add_assoc (utf8_width c) (utf8_length a) (utf8_length b))
