-- ===== src/Tagged/NewDisposition/Safety.antt =====
-- The owned blocks of the text that `_remove_new_disposition_changes` returns (service.py).
use mathlib.Core.Path.{subst}
use chora_mem.Prelude.{
  ◌⊎◌, ◌≡◌, refl, ap, ◌∙◌, Bool, true, false, ◌&&◌, not, ◌||◌, Option, none, some, List, [], ◌∷◌,
  ◌++◌, is_empty, All, arith, if◌then◌else◌, ◌==◌, nat_eq, list_eq, Bool-cases, inl, inr, some-eq,
}
use chora_mem.Text.{Text, splitlines, join_lines}
use chora_mem.Text.Lines.{IsUnbroken, splitlines-IsUnbroken, All-append}
use chora_mem.Tagged.{trimmed, target_mark}
use chora_mem.Tagged.NewDisposition.{
  meaningful, owned_header, has_owned_block, Blocks, blocks_of, verdict, Verdict, malformed,
  dropped, kept, kept_lines, without_owned, remove_new_disposition_changes, is_target_line,
}
use chora_mem.Tagged.NewDisposition.Trimmed.{meaningful-trimmed, meaningful-join_lines}

meaningful-append : (xs ys : List Text) → meaningful (xs ++ ys) ≡ meaningful xs ++ meaningful ys
unfolding meaningful
meaningful-append [] ys = refl
meaningful-append (x ∷ xs) ys = ground (arith, meaningful-append xs ys)

-- a value that starts no block
abbrev NoTarget : Text → Type 0
NoTarget value = (value == target_mark) ≡ false

verdict_tests :
    (p q r s o : Bool)
    → (if not p || not r || not s then malformed else if q && o then dropped else kept) ≡ kept
    → (p && q && r && s && o) ≡ false
verdict_tests p q r s o h = ground arith

-- a block: its TARGET line, and lines that are none
abbrev NotTargetLine : Text → Type 0
NotTargetLine line = is_target_line line ≡ false

abbrev IsTargetBlock : List Text → Type 0
IsTargetBlock [] = ⊥
IsTargetBlock (line ∷ rest) = (is_target_line line ≡ true) × All NotTargetLine rest

record IsPartition (found : Blocks) : Type 0 where
  preamble : All NotTargetLine found.preamble
  blocks : All IsTargetBlock found.blocks

blocks_of-IsPartition : (ls : List Text) → IsPartition (blocks_of ls)
unfolding blocks_of
blocks_of-IsPartition [] = record { preamble = tt; blocks = tt }
blocks_of-IsPartition (line ∷ rest) = elim (Bool-cases (is_target_line line)) [
  | inl target ↦ rw target (record {
    preamble = tt;
    blocks = ((target, (blocks_of-IsPartition rest).preamble), (blocks_of-IsPartition rest).blocks);
  })
  | inr other ↦ rw other (record {
    preamble = (other, (blocks_of-IsPartition rest).preamble);
    blocks = (blocks_of-IsPartition rest).blocks;
  })
]

blocks_of-All :
    (P : Text → Type 0) (ls : List Text)
    → All P ls
    → All P (blocks_of ls).preamble × All (All P) (blocks_of ls).blocks
unfolding blocks_of
blocks_of-All P [] h = (tt, tt)
blocks_of-All P (line ∷ rest) h = elim (Bool-cases (is_target_line line)) [
  | inl target ↦ rw target (tt, ((h.0, (blocks_of-All P rest h.1).0), (blocks_of-All P rest h.1).1))
  | inr other ↦ rw other ((h.0, (blocks_of-All P rest h.1).0), (blocks_of-All P rest h.1).1)
]

meaningful-NoTarget : (ls : List Text) → All NotTargetLine ls → All NoTarget (meaningful ls)
unfolding meaningful
meaningful-NoTarget [] h = tt
meaningful-NoTarget (line ∷ rest) h = ground (arith, meaningful-NoTarget rest h.1)

target_not_empty : (value : Text) → (value == target_mark) ≡ true → is_empty value ≡ false
target_not_empty [] h = cc
target_not_empty (c ∷ value) h = refl

meaningful-target :
    (line : Text) (rest : List Text)
    → is_target_line line ≡ true
    → meaningful (line ∷ rest) ≡ trimmed line ∷ meaningful rest
unfolding meaningful
meaningful-target line rest h = rw (target_not_empty (trimmed line) h)

-- one round of the loop that ends well: a block dropped, or a block kept
round_cases :
    (v : Verdict) (o : Option (List Text)) (block : List Text) {ls : List Text}
    → elim v [
      | malformed ↦ none
      | dropped ↦ o
      | kept ↦ elim o [ none ↦ none | some lines ↦ some (block ++ lines) ]
    ]
      ≡ some ls
    → (o ≡ some ls) ⊎ ((rest : List Text) × (o ≡ some rest) × (v ≡ kept) × (block ++ rest ≡ ls))
round_cases malformed o block h = cc
round_cases dropped o block h = inl h
round_cases kept none block h = cc
round_cases kept (some rest) block h = inr (rest, refl, refl, some-eq h)

module _ (changes : List Text) where
  owned_header-NoTarget :
      (value : Text) (rest : List Text)
      → NoTarget value
      → owned_header changes (value ∷ rest) ≡ false
  unfolding owned_header
  owned_header-NoTarget value (b ∷ c ∷ d ∷ e ∷ f ∷ rest) h = rw h
  owned_header-NoTarget value _ h = refl

  has_owned-NoTarget :
      (values rest : List Text)
      → All NoTarget values
      → has_owned_block changes (values ++ rest) ≡ has_owned_block changes rest
  unfolding has_owned_block
  has_owned-NoTarget [] rest h = refl
  has_owned-NoTarget (value ∷ values) rest h =
      rw (owned_header-NoTarget value (values ++ rest) h.0) (has_owned-NoTarget values rest h.1)

  verdict-kept :
      (values rest : List Text)
      → verdict changes values ≡ kept
      → owned_header changes (values ++ rest) ≡ false
  unfolding verdict owned_header
  verdict-kept (a ∷ b ∷ c ∷ d ∷ e ∷ f ∷ g ∷ values) rest h = verdict_tests _ _ _ _ _ h
  verdict-kept _ rest h = cc

  -- A kept block in front of other lines brings no owned header.
  has_owned-kept :
      (block rest : List Text)
      → IsTargetBlock block
      → verdict changes (meaningful block) ≡ kept
      → has_owned_block changes (meaningful block ++ rest) ≡ has_owned_block changes rest
  has_owned-kept [] rest t h = absurd t
  has_owned-kept (line ∷ lines) rest t h =
      let opened = meaningful-target line lines t.0 in
      let header : owned_header changes (trimmed line ∷ meaningful lines ++ rest) ≡ false =
        verdict-kept (trimmed line ∷ meaningful lines) rest (rw opened at h) in
      rw opened (
        unfold has_owned_block in
        rw header (has_owned-NoTarget (meaningful lines) rest (meaningful-NoTarget lines t.1)))

  kept_lines-safe :
      (blocks : List (List Text)) {ls : List Text}
      → All IsTargetBlock blocks
      → kept_lines changes blocks ≡ some ls
      → has_owned_block changes (meaningful ls) ≡ false
  unfolding kept_lines
  kept_lines-safe [] t h =
      subst (λ ls. has_owned_block changes (meaningful ls) ≡ false) (some-eq h)
        (unfold meaningful has_owned_block in refl)
  kept_lines-safe (block ∷ blocks) t h =
      elim (round_cases (verdict changes (meaningful block)) (kept_lines changes blocks) block h) [
        | inl later ↦ kept_lines-safe blocks t.1 later
        | inr (rest, later, good, same) ↦
            subst (λ ls. has_owned_block changes (meaningful ls) ≡ false) same
              (rw meaningful-append (
                has_owned-kept block (meaningful rest) t.0 good ∙ kept_lines-safe blocks t.1 later))
      ]

  kept_lines-All :
      (P : Text → Type 0) (blocks : List (List Text)) {ls : List Text}
      → All (All P) blocks
      → kept_lines changes blocks ≡ some ls
      → All P ls
  unfolding kept_lines
  kept_lines-All P [] t h = subst (All P) (some-eq h) tt
  kept_lines-All P (block ∷ blocks) t h =
      elim (round_cases (verdict changes (meaningful block)) (kept_lines changes blocks) block h) [
        | inl later ↦ kept_lines-All P blocks t.1 later
        | inr (rest, later, good, same) ↦
            subst (All P) same (All-append P block rest t.0 (kept_lines-All P blocks t.1 later))
      ]

  without_owned-safe :
      (found : Blocks)
      → IsPartition found
      → All (All IsUnbroken) found.blocks
      → has_owned_block changes (meaningful (splitlines (without_owned changes found))) ≡ false
  unfolding without_owned
  without_owned-safe found p u =
      elim (Bool-cases (is_empty found.blocks || not (is_empty (meaningful found.preamble)))) [
        | inl refused ↦ rw refused empty-safe
        | inr accepted ↦ rw accepted (joined-safe (kept_lines changes found.blocks) refl)
      ]
    where
      empty-safe : has_owned_block changes (meaningful (splitlines [])) ≡ false
      empty-safe = unfold splitlines meaningful has_owned_block in refl

      joined-safe :
          (o : Option (List Text))
          → kept_lines changes found.blocks ≡ o
          → has_owned_block changes
              (meaningful (splitlines (elim o [ none ↦ [] | some ls ↦ trimmed (join_lines ls) ])))
            ≡ false
      joined-safe none e = empty-safe
      joined-safe (some ls) e =
          ap (has_owned_block changes) (
            meaningful-trimmed (join_lines ls)
            ∙ meaningful-join_lines ls (kept_lines-All IsUnbroken found.blocks u e))
          ∙ kept_lines-safe found.blocks p.blocks e

-- However the text came about, no block of NEW_DISPOSITION whose operation is among `changes`
-- stands in what the filter returns: it drops such blocks, or returns an empty text.
pub remove-has_owned_block :
    (text : Text) (changes : List Text)
    → has_owned_block changes
        (meaningful (splitlines (remove_new_disposition_changes text changes)))
      ≡ false
unfolding remove_new_disposition_changes
remove-has_owned_block text changes =
    elim (Bool-cases (has_owned_block changes (meaningful (splitlines text)))) [
      | inl owned ↦ rw owned (
          without_owned-safe changes (blocks_of (splitlines text))
            (blocks_of-IsPartition (splitlines text))
            (blocks_of-All IsUnbroken (splitlines text) (splitlines-IsUnbroken text)).1)
      | inr free ↦ rw free free
    ]
