-- ===== src/Tagged/Target/Repair.antt =====
-- What `restore_initial_new_target` repairs.
use chora_mem.Prelude.{
  Bool, true, false, ◌≡◌, refl, ap, sym, ◌∙◌, ◌&&◌, List, [], ◌∷◌, ◌++◌, Option, none, some, elem,
  is_empty, All, arith, nat_eq, list_eq, ◌==◌, if◌then◌else◌, Bool-cases, inl, inr,
}
use chora_mem.Text.{Text, split, join_lines, ends_with_cr}
use chora_mem.Text.Lines.{Avoids, join-split, split-join_filled, split-Avoids, split-filled}
use chora_mem.Tagged.{target_mark, application_mark, trimmed, next_meaningful, carriage_of}
use chora_mem.Tagged.NewDisposition.{meaningful}
use chora_mem.Tagged.Target.{
  offered_new, is_application, lacks_target, restore_lines, restore_initial_new_target,
}

-- the meaningful lines of a text
abbrev pub values_of : Text → List Text
values_of text = meaningful (split b'\n' text)

-- A kind of new memory, and APPLICATION behind it: a block whose TARGET label is missing.
abbrev pub begins_with_kind : List Text → List Text → Bool
begins_with_kind offered (kind ∷ next ∷ rest) = elem kind offered && next == application_mark
begins_with_kind offered _ = false

abbrev head_of : List Text → Option Text
head_of [] = none
head_of (v ∷ vs) = some v

next_meaningful-head : (ls : List Text) → next_meaningful ls ≡ head_of (meaningful ls)
unfolding meaningful
next_meaningful-head [] = refl
next_meaningful-head (l ∷ ls) = ground (arith, next_meaningful-head ls)

trimmed-label : (line : Text) → trimmed (target_mark ++ carriage_of line) ≡ target_mark
trimmed-label line = elim (Bool-cases (ends_with_cr line)) [
  | inl cr ↦ rw cr (unfold trimmed in refl)
  | inr lf ↦ rw lf (unfold trimmed in refl)
]

meaningful-label :
    (line : Text) (ls : List Text)
    → meaningful ((target_mark ++ carriage_of line) ∷ ls) ≡ target_mark ∷ meaningful ls
unfolding meaningful
meaningful-label line ls = rw trimmed-label

label-Avoids : (line : Text) → Avoids b'\n' (target_mark ++ carriage_of line)
label-Avoids line = elim (Bool-cases (ends_with_cr line)) [
  | inl cr ↦ rw cr (ground arith)
  | inr lf ↦ rw lf (ground arith)
]

begins-head :
    (offered : List Text) (kind : Text) (vs : List Text)
    → begins_with_kind offered (kind ∷ vs) ≡ (elem kind offered && is_application (head_of vs))
begins-head offered kind [] = ground arith
begins-head offered kind (v ∷ vs) = refl

meaningful-blank :
    (l : Text) (ls : List Text) → is_empty (trimmed l) ≡ true → meaningful (l ∷ ls) ≡ meaningful ls
unfolding meaningful
meaningful-blank l ls h = rw h

meaningful-value :
    (l : Text) (ls : List Text)
    → is_empty (trimmed l) ≡ false
    → meaningful (l ∷ ls) ≡ trimmed l ∷ meaningful ls
unfolding meaningful
meaningful-value l ls h = rw h

module _ (offered : List Text) where
  lacks_target-begins :
      (l : Text) (ls : List Text)
      → lacks_target offered l ls ≡ begins_with_kind offered (trimmed l ∷ meaningful ls)
  unfolding lacks_target
  lacks_target-begins l ls =
      rw next_meaningful-head (sym (begins-head offered (trimmed l) (meaningful ls)))

  restore_lines-meaningful :
      (ls : List Text)
      → meaningful (restore_lines offered ls) ≡ (
          if begins_with_kind offered (meaningful ls)
          then target_mark ∷ meaningful ls
          else meaningful ls)
  unfolding restore_lines
  restore_lines-meaningful [] = unfold meaningful in refl
  restore_lines-meaningful (l ∷ ls) = ground (
    arith,
    restore_lines-meaningful ls,
    lacks_target-begins l ls,
    meaningful-blank l ls,
    meaningful-blank l (restore_lines offered ls),
    meaningful-value l ls,
    meaningful-label l (l ∷ ls),
  )

  restore_lines-Avoids :
      (ls : List Text) → All (Avoids b'\n') ls → All (Avoids b'\n') (restore_lines offered ls)
  unfolding restore_lines
  restore_lines-Avoids [] h = tt
  restore_lines-Avoids (l ∷ ls) h = ground (arith, restore_lines-Avoids ls h.1, label-Avoids l)

  restore_lines-filled :
      (ls : List Text) → is_empty ls ≡ false → is_empty (restore_lines offered ls) ≡ false
  unfolding restore_lines
  restore_lines-filled [] h = h
  restore_lines-filled (l ∷ ls) h = ground arith

  restore_lines-unchanged :
      (ls : List Text)
      → begins_with_kind offered (meaningful ls) ≡ false
      → restore_lines offered ls ≡ ls
  unfolding restore_lines
  restore_lines-unchanged [] h = refl
  restore_lines-unchanged (l ∷ ls) h = ground (
    arith,
    restore_lines-unchanged ls,
    lacks_target-begins l ls,
    meaningful-blank l ls,
    meaningful-value l ls,
  )

offered_new-target : (allowed : List Text) → elem target_mark (offered_new allowed) ≡ false
offered_new-target allowed = ground arith

begins-target :
    (offered rest : List Text)
    → elem target_mark offered ≡ false
    → begins_with_kind offered (target_mark ∷ rest) ≡ false
begins-target offered [] h = refl
begins-target offered (v ∷ rest) h = rw h

begins-restored :
    (offered vs : List Text)
    → elem target_mark offered ≡ false
    → begins_with_kind offered (if begins_with_kind offered vs then target_mark ∷ vs else vs)
      ≡ false
begins-restored offered vs h = elim (Bool-cases (begins_with_kind offered vs)) [
  | inl lacks ↦ rw lacks (begins-target offered vs h)
  | inr fine ↦ rw fine fine
]

begins-nil : (vs : List Text) → begins_with_kind [] vs ≡ false
begins-nil [] = refl
begins-nil (v ∷ []) = refl
begins-nil (v ∷ w ∷ vs) = refl

-- the text that the repair returns
abbrev restored : List Text → Text → Text
restored offered text =
    if is_empty offered then text else join_lines (restore_lines offered (split b'\n' text))

restored-values_of :
    (offered : List Text) (text : Text)
    → values_of (restored offered text) ≡ (
        if begins_with_kind offered (values_of text)
        then target_mark ∷ values_of text
        else values_of text)
restored-values_of [] text = rw begins-nil
restored-values_of (o ∷ os) text =
    ap meaningful (
      split-join_filled (restore_lines (o ∷ os) (split b'\n' text))
        (restore_lines-filled (o ∷ os) (split b'\n' text) (split-filled b'\n' text))
        (restore_lines-Avoids (o ∷ os) (split b'\n' text) (split-Avoids b'\n' text)))
    ∙ restore_lines-meaningful (o ∷ os) (split b'\n' text)

restored-unchanged :
    (offered : List Text) (text : Text)
    → begins_with_kind offered (values_of text) ≡ false
    → restored offered text ≡ text
restored-unchanged [] text h = refl
restored-unchanged (o ∷ os) text h =
    ap join_lines (restore_lines-unchanged (o ∷ os) (split b'\n' text) h) ∙ join-split text

-- The repair adds the label TARGET in front of a text that begins with an offered kind of new memory
-- and APPLICATION, and changes the meaningful lines of no other text.
pub restore-values_of :
    (text : Text) (allowed : List Text)
    → values_of (restore_initial_new_target text allowed) ≡ (
        if begins_with_kind (offered_new allowed) (values_of text)
        then target_mark ∷ values_of text
        else values_of text)
unfolding restore_initial_new_target
restore-values_of text allowed = restored-values_of (offered_new allowed) text

-- A text that does not begin so is returned as it is, to the character.
pub restore_unchanged :
    (text : Text) (allowed : List Text)
    → begins_with_kind (offered_new allowed) (values_of text) ≡ false
    → restore_initial_new_target text allowed ≡ text
unfolding restore_initial_new_target
restore_unchanged text allowed h = restored-unchanged (offered_new allowed) text h

-- Repairing a second time changes nothing.
pub restore-restore :
    (text : Text) (allowed : List Text)
    → restore_initial_new_target (restore_initial_new_target text allowed) allowed
      ≡ restore_initial_new_target text allowed
restore-restore text allowed = restore_unchanged (restore_initial_new_target text allowed) allowed (
    rw restore-values_of
      (begins-restored (offered_new allowed) (values_of text) (offered_new-target allowed)))
