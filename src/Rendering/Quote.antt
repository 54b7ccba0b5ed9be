-- ===== src/Rendering/Quote.antt =====
-- The quoting of Episode evidence: `_quote_raw_lines` (rendering.py).
use chora_mem.Prelude.{
  ◌&&◌, ◌||◌, List, [], ◌∷◌, ◌++◌, map, eqb, if◌then◌else◌, ◌≡◌, ◌≢◌, refl, ap, ◌∙◌, arith,
}
use chora_mem.Text.{Text, push, starts_with_lf}
use chora_mem.Rendering.{quote_breaks, quote_raw_lines, quote_mark}

-- the lines of a text whose lines end with "\r\n", "\r" or "\n"
unfoldable pub raw_lines : Text → List Text
raw_lines [] = [] ∷ []
raw_lines (c ∷ t) =
    let rest = raw_lines t in
    if eqb c b'\r' && starts_with_lf t
    then rest
    else if eqb c b'\n' || eqb c b'\r'
    then [] ∷ rest
    else push c rest

abbrev marked : List Text → List Text
marked [] = []
marked (l ∷ ls) = (quote_mark ++ l) ∷ marked ls

-- every line but the first is marked
abbrev marked_tail : List Text → List Text
marked_tail [] = []
marked_tail (l ∷ ls) = l ∷ marked ls

raw_lines-ne-nil : (t : Text) → raw_lines t ≢ []
unfolding raw_lines
raw_lines-ne-nil [] = λ e. cc
raw_lines-ne-nil (c ∷ t) = λ e. ground (arith, raw_lines-ne-nil t)

push-marked_tail : (c : _) (ls : List Text) → push c (marked_tail ls) ≡ marked_tail (push c ls)
push-marked_tail c [] = refl
push-marked_tail c (l ∷ ls) = refl

push-marked : (ls : List Text) → ls ≢ [] → push b'>' (push b' ' (marked_tail ls)) ≡ marked ls
push-marked [] h = absurd (h refl)
push-marked (l ∷ ls) h = refl

starts_with_lf-quote_breaks : (t : Text) → starts_with_lf (quote_breaks t) ≡ starts_with_lf t
starts_with_lf-quote_breaks [] = refl
starts_with_lf-quote_breaks (c ∷ t) = ground arith

raw_lines-mark : (t : Text) → raw_lines (b'>' ∷ b' ' ∷ t) ≡ push b'>' (push b' ' (raw_lines t))
unfolding raw_lines
raw_lines-mark t = refl

raw_lines-quote_breaks : (t : Text) → raw_lines (quote_breaks t) ≡ marked_tail (raw_lines t)
unfolding raw_lines
raw_lines-quote_breaks [] = refl
raw_lines-quote_breaks (c ∷ t) = ground (
  arith,
  raw_lines-quote_breaks t,
  starts_with_lf-quote_breaks t,
  raw_lines-ne-nil t,
  push-marked (raw_lines t),
  push-marked_tail c (raw_lines t),
)

marked-map : (ls : List Text) → marked ls ≡ map (λ l. quote_mark ++ l) ls
marked-map [] = refl
marked-map (l ∷ ls) = ap (◌∷◌ (quote_mark ++ l)) (marked-map ls)

-- The lines of quoted evidence, whichever of "\r\n", "\r" and "\n" ends them, are the lines of the
-- evidence, each behind a quote mark: no line of it can stand unquoted among the instructions.
pub raw_lines-quote_raw_lines :
    (t : Text) → raw_lines (quote_raw_lines t) ≡ map (λ l. quote_mark ++ l) (raw_lines t)
unfolding quote_raw_lines
raw_lines-quote_raw_lines t =
    raw_lines-mark (quote_breaks t)
    ∙ (ap (λ ls. push b'>' (push b' ' ls)) (raw_lines-quote_breaks t)
        ∙ (push-marked (raw_lines t) (raw_lines-ne-nil t) ∙ marked-map (raw_lines t)))
