-- ===== src/Tagged/Basis/Erasure.antt =====
-- What `deduplicate_basis` takes away, and what it leaves.
use mathlib.Core.Path.{subst}
use chora_mem.Prelude.{
  not, Bool, true, false, ◌≡◌, sym, ◌||◌, ◌&&◌, List, [], ◌∷◌, Option, none, some, elem, is_empty,
  All, arith, nat_eq, list_eq, ◌==◌, if◌then◌else◌, Bool-cases, inl, inr,
}
use chora_mem.Text.{Text, split}
use chora_mem.Text.Lines.{Avoids, split-join_filled, split-Avoids, split-filled}
use chora_mem.Tagged.{basis_mark, target_mark}
use chora_mem.Tagged.Basis.{value_of, basis_round, deduplicate_lines, deduplicate_basis}

-- `ys` is `xs` without some lines, all of which pass the test.
pub data Erases (p : Text → Bool) : List Text → List Text → Type 0 where
  done : Erases p [] []
  keep : {x : Text} {xs ys : List Text} → Erases p xs ys → Erases p (x ∷ xs) (x ∷ ys)
  drop : {x : Text} {xs ys : List Text} → p x ≡ true → Erases p xs ys → Erases p (x ∷ xs) ys

Erases-All :
    {p : Text → Bool} {xs ys : List Text} (P : Text → Type 0) → Erases p xs ys → All P xs → All P ys
Erases-All P done h = tt
Erases-All P (keep e) h = (h.0, Erases-All P e h.1)
Erases-All P (drop d e) h = Erases-All P e h.1

-- a BASIS label or an offered ref, alone on its line
abbrev pub is_basis_line : List Text → Text → Bool
is_basis_line allowed line = value_of line == basis_mark || elem (value_of line) allowed

-- What a round does not keep is a label or an offered ref.
basis_round-dropped :
    (allowed : List Text) (seen : Option (List Text)) (value : Text) (rest : List Text)
    → (basis_round allowed seen value rest).kept ≡ false
    → (value == basis_mark || elem value allowed) ≡ true
unfolding basis_round
basis_round-dropped allowed seen value rest h = ground arith

-- Outside a list every line is kept.
basis_round-outside :
    (allowed : List Text) (value : Text) (rest : List Text)
    → (basis_round allowed none value rest).kept ≡ true
unfolding basis_round
basis_round-outside allowed value rest = ground arith

deduplicate_lines-Erases :
    (allowed : List Text) (seen : Option (List Text)) (ls : List Text)
    → Erases (is_basis_line allowed) ls (deduplicate_lines allowed seen ls)
unfolding deduplicate_lines
deduplicate_lines-Erases allowed seen [] = done
deduplicate_lines-Erases allowed seen (line ∷ rest) =
    let round = basis_round allowed seen (value_of line) rest in
    let later = deduplicate_lines-Erases allowed round.seen rest in
    elim (Bool-cases round.kept) [
      | inl kept ↦ rw kept (keep later)
      | inr gone ↦ rw gone (drop (basis_round-dropped allowed seen (value_of line) rest gone) later)
    ]

deduplicate_lines-filled :
    (allowed : List Text) (ls : List Text)
    → is_empty ls ≡ false
    → is_empty (deduplicate_lines allowed none ls) ≡ false
unfolding deduplicate_lines
deduplicate_lines-filled allowed [] h = cc
deduplicate_lines-filled allowed (l ∷ ls) h = rw (basis_round-outside allowed (value_of l) ls)

-- The result joined and split again: its first line, which is kept, shows that there is one.
deduplicate_basis-lines :
    (text : Text) (allowed : List Text)
    → split b'\n' (deduplicate_basis text allowed)
      ≡ deduplicate_lines allowed none (split b'\n' text)
unfolding deduplicate_basis
deduplicate_basis-lines text allowed =
    split-join_filled (deduplicate_lines allowed none (split b'\n' text))
      (deduplicate_lines-filled allowed (split b'\n' text) (split-filled b'\n' text))
      (Erases-All (Avoids b'\n') (deduplicate_lines-Erases allowed none (split b'\n' text))
        (split-Avoids b'\n' text))

-- The filter takes whole lines away and changes no other: each is a BASIS label or an offered ref
-- alone on its line. All other lines stay, in their order.
pub deduplicate_basis-Erases :
    (text : Text) (allowed : List Text)
    → Erases
        (is_basis_line allowed)
        (split b'\n' text)
        (split b'\n' (deduplicate_basis text allowed))
deduplicate_basis-Erases text allowed =
    rw deduplicate_basis-lines (deduplicate_lines-Erases allowed none (split b'\n' text))

-- The refs of the list that a line ends, goes on or opens; `none` outside every list.
abbrev pub list_after : List Text → Option (List Text) → Text → Option (List Text)
list_after allowed seen value =
    if value == target_mark then none else if value == basis_mark then some [] else elim seen [
      | none ↦ none
      | some refs ↦
          if elem value allowed
          then some (value ∷ refs)
          else if is_empty value
          then some refs
          else none
    ]

abbrev pub repeats : List Text → Option (List Text) → Text → Bool
repeats allowed none value = false
repeats allowed (some refs) value =
    not (value == target_mark || value == basis_mark) && elem value allowed && elem value refs

-- No offered ref stands twice in one list behind a BASIS label.
abbrev pub HasNoRepeats : List Text → Option (List Text) → List Text → Type 0
HasNoRepeats allowed seen [] = Unit
HasNoRepeats allowed seen (line ∷ rest) =
    (repeats allowed seen (value_of line) ≡ false)
    × HasNoRepeats allowed (list_after allowed seen (value_of line)) rest

basis_round-kept :
    (allowed : List Text) (seen : Option (List Text)) (value : Text) (rest : List Text)
    → (basis_round allowed seen value rest).kept ≡ true
    → (repeats allowed seen value ≡ false)
      × ((basis_round allowed seen value rest).seen ≡ list_after allowed seen value)
unfolding basis_round
basis_round-kept allowed none value rest h = ground arith
basis_round-kept allowed (some refs) value rest h = ground arith

basis_round-seen :
    (allowed : List Text) (seen : Option (List Text)) (value : Text) (rest : List Text)
    → (basis_round allowed seen value rest).kept ≡ false
    → (basis_round allowed seen value rest).seen ≡ seen
unfolding basis_round
basis_round-seen allowed none value rest h = ground arith
basis_round-seen allowed (some refs) value rest h = ground arith

deduplicate_lines-HasNoRepeats :
    (allowed : List Text) (seen : Option (List Text)) (ls : List Text)
    → HasNoRepeats allowed seen (deduplicate_lines allowed seen ls)
unfolding deduplicate_lines
deduplicate_lines-HasNoRepeats allowed seen [] = tt
deduplicate_lines-HasNoRepeats allowed seen (line ∷ rest) =
    let round = basis_round allowed seen (value_of line) rest in
    let later = deduplicate_lines-HasNoRepeats allowed round.seen rest in
    elim (Bool-cases round.kept) [
      | inl kept ↦
          let (fresh, same) = basis_round-kept allowed seen (value_of line) rest kept in
          rw kept (
            fresh,
            subst (λ s. HasNoRepeats allowed s (deduplicate_lines allowed round.seen rest)) same
                later,
          )
      | inr gone ↦ rw gone (
          subst (λ s. HasNoRepeats allowed s (deduplicate_lines allowed round.seen rest))
            (basis_round-seen allowed seen (value_of line) rest gone) later)
    ]

-- In the result no offered ref stands twice in one list behind a BASIS label.
pub deduplicate_basis-HasNoRepeats :
    (text : Text) (allowed : List Text)
    → HasNoRepeats allowed none (split b'\n' (deduplicate_basis text allowed))
deduplicate_basis-HasNoRepeats text allowed =
    subst (HasNoRepeats allowed none) (sym (deduplicate_basis-lines text allowed))
      (deduplicate_lines-HasNoRepeats allowed none (split b'\n' text))
