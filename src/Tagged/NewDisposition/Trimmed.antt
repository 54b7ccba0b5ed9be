-- ===== src/Tagged/NewDisposition/Trimmed.antt =====
-- The meaningful lines of a text that is stripped, or joined again (service.py).
use mathlib.Core.Path.{ap₂}
use chora_mem.Prelude.{
  Bool-cases, inl, inr, ℕ, ◌≡◌, refl, sym, ap, ◌∙◌, Bool, true, false, ◌&&◌, List, [], ◌∷◌,
  is_empty, All, arith, eqb, if◌then◌else◌,
}
use chora_mem.Text.{
  Text, push, splitlines, is_line_break, starts_with_lf, trim_start, trim_end, strip, keep_or_trim,
  join, join_lines,
}
use chora_mem.Text.Unicode.{go_trim_space}
use chora_mem.Text.Lines.{IsUnbroken, splitlines-append, splitlines-IsUnbroken_self}
use chora_mem.Text.Trim.{strip-trim_end, trim_end-starts_with_lf}
use chora_mem.Tagged.{trimmed}
use chora_mem.Tagged.NewDisposition.{meaningful}

-- A value in front of meaningful lines, unless it is empty.
abbrev cons_value : Text → List Text → List Text
cons_value value rest = if is_empty value then rest else value ∷ rest

meaningful_cons :
    (l : Text) (ls : List Text) → meaningful (l ∷ ls) ≡ cons_value (trimmed l) (meaningful ls)
unfolding meaningful
meaningful_cons l ls = ground arith

trimmed-space : (c : ℕ) (l : Text) → go_trim_space c ≡ true → trimmed (c ∷ l) ≡ trimmed l
unfolding trimmed trim_start
trimmed-space c l h = ground arith

trimmed-nil : trimmed [] ≡ []
unfolding trimmed
trimmed-nil = refl

meaningful-push_space :
    (c : ℕ) (ls : List Text) → go_trim_space c ≡ true → meaningful (push c ls) ≡ meaningful ls
meaningful-push_space c [] h = unfold meaningful in ground (arith, trimmed-space c [], trimmed-nil)
meaningful-push_space c (l ∷ ls) h = unfold meaningful in ground (arith, trimmed-space c l)

meaningful-splitlines_space :
    (c : ℕ) (t : Text)
    → go_trim_space c ≡ true
    → meaningful (splitlines (c ∷ t)) ≡ meaningful (splitlines t)
unfolding splitlines
meaningful-splitlines_space c t h =
    ground (
      arith,
      meaningful-push_space c (splitlines t),
      meaningful_cons [] (splitlines t),
      trimmed-nil,
    )

meaningful-trim_start :
    (t : Text) → meaningful (splitlines (trim_start go_trim_space t)) ≡ meaningful (splitlines t)
unfolding trim_start
meaningful-trim_start [] = refl
meaningful-trim_start (c ∷ t) =
    ground (arith, meaningful-trim_start t, meaningful-splitlines_space c t)

-- What the meaningful lines depend on: the first line without its end, and those behind it.
record Summary : Type 0 where
  first : Text
  rest : List Text

abbrev summary : List Text → Summary
summary [] = record { first = []; rest = [] }
summary (l ∷ ls) = record { first = trim_end go_trim_space l; rest = meaningful ls }

abbrev values : Summary → List Text
values s = cons_value (trimmed s.first) s.rest

trimmed-trim_end : (l : Text) → trimmed (trim_end go_trim_space l) ≡ trimmed l
unfolding trimmed
trimmed-trim_end l = strip-trim_end go_trim_space l

meaningful-summary : (ls : List Text) → meaningful ls ≡ values (summary ls)
meaningful-summary [] = unfold meaningful in ground (arith, trimmed-nil)
meaningful-summary (l ∷ ls) = meaningful_cons l ls ∙ rw trimmed-trim_end

-- how a character in front of a text changes the summary of its lines
abbrev step : ℕ → Bool → Summary → Summary
step c lf s =
    if eqb c b'\r' && lf
    then s
    else if is_line_break c
    then record { first = []; rest = values s }
    else record { first = keep_or_trim (go_trim_space c) c s.first; rest = s.rest }

summary-push :
    (c : ℕ) (ls : List Text)
    → summary (push c ls) ≡ record {
      first = keep_or_trim (go_trim_space c) c (summary ls).first;
      rest = (summary ls).rest;
    }
unfolding trim_end meaningful
summary-push c [] = refl
summary-push c (l ∷ ls) = refl

summary-if :
    (crlf broken : Bool) (c : ℕ) (ls : List Text)
    → summary (if crlf then ls else if broken then [] ∷ ls else push c ls) ≡ (
        if crlf
        then summary ls
        else if broken
        then record { first = []; rest = values (summary ls) }
        else record {
          first = keep_or_trim (go_trim_space c) c (summary ls).first;
          rest = (summary ls).rest;
        })
unfolding trim_end
summary-if true broken c ls = refl
summary-if false true c ls =
    ap (λ (v : List Text). record { first = []; rest = v }) (meaningful-summary ls)
summary-if false false c ls = summary-push c ls

summary-cons :
    (c : ℕ) (t : Text)
    → summary (splitlines (c ∷ t)) ≡ step c (starts_with_lf t) (summary (splitlines t))
unfolding splitlines
summary-cons c t = summary-if (eqb c b'\r' && starts_with_lf t) (is_line_break c) c (splitlines t)

abbrev blank : Summary
blank = record { first = []; rest = [] }

-- in front of a blank text: the two cases of `rstrip`
step-blank_space : (c : ℕ) (lf : Bool) → go_trim_space c ≡ true → step c lf blank ≡ blank
step-blank_space c lf h = ground (arith, trimmed-nil)

step-blank_other :
    (c : ℕ) (lf : Bool) → go_trim_space c ≡ false → step c lf blank ≡ step c false blank
unfolding go_trim_space
step-blank_other c lf h = ground arith

summary-trim_end_cons :
    (c : ℕ) (t r : Text)
    → trim_end go_trim_space t ≡ r
    → summary (splitlines r) ≡ summary (splitlines t)
    → summary (splitlines (keep_or_trim (go_trim_space c) c r)) ≡ summary (splitlines (c ∷ t))
unfolding splitlines
summary-trim_end_cons c t [] e h = elim (Bool-cases (go_trim_space c)) [
  | inl space ↦
      rw (space, keep_or_trim)
        (sym
          (summary-cons c t ∙ ap (step c (starts_with_lf t)) (sym h) ∙ step-blank_space c _ space))
  | inr other ↦
      rw (other, keep_or_trim)
        (summary-cons c []
          ∙ sym (
              summary-cons c t
              ∙ ap (step c (starts_with_lf t)) (sym h)
              ∙ step-blank_other c _ other))
]
summary-trim_end_cons c t (d ∷ r) e h =
    summary-cons c (d ∷ r)
    ∙ ap₂ (step c) (trim_end-starts_with_lf go_trim_space t d r e) h
    ∙ sym (summary-cons c t)

summary-trim_end :
    (t : Text) → summary (splitlines (trim_end go_trim_space t)) ≡ summary (splitlines t)
unfolding trim_end
summary-trim_end [] = refl
summary-trim_end (c ∷ t) =
    summary-trim_end_cons c t (trim_end go_trim_space t) refl (summary-trim_end t)

-- Stripping a text keeps its meaningful lines.
pub meaningful-trimmed :
    (t : Text) → meaningful (splitlines (trimmed t)) ≡ meaningful (splitlines t)
unfolding trimmed strip
meaningful-trimmed t =
    meaningful-summary _
    ∙ ap values (summary-trim_end (trim_start go_trim_space t))
    ∙ sym (meaningful-summary _)
    ∙ meaningful-trim_start t

-- Lines with no break in them, joined and split again, have the same meaningful lines.
pub meaningful-join_lines :
    (ls : List Text) → All IsUnbroken ls → meaningful (splitlines (join_lines ls)) ≡ meaningful ls
unfolding join
meaningful-join_lines [] h = unfold splitlines in refl
meaningful-join_lines ([] ∷ []) h = unfold splitlines meaningful in ground (arith, trimmed-nil)
meaningful-join_lines ((c ∷ l) ∷ []) h =
    ap meaningful (splitlines-IsUnbroken_self (c ∷ l) h.0 (λ e. cc e))
meaningful-join_lines (l ∷ m ∷ ls) h =
    ap meaningful (splitlines-append l (join_lines (m ∷ ls)) h.0)
    ∙ meaningful_cons l _
    ∙ ap (cons_value (trimmed l)) (meaningful-join_lines (m ∷ ls) h.1)
    ∙ sym (meaningful_cons l (m ∷ ls))
