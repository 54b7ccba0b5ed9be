-- ===== src/Service/Batches.antt =====
-- What a batch of plain Recollections becomes: `_bind_plain_recollections` (service.py).
use mathlib.Core.Path.{subst}
use chora_mem.Prelude.{
  ℕ, suc, ◌+◌, ◌≤◌, Bool, true, false, ◌||◌, List, [], ◌∷◌, All, length, elem, is_empty, select-All,
  eqb, nat_eq, list_eq, ◌==◌, Bool-cases, map, ◌≡◌, ◌≢◌, sym, ◌∙◌, arith, inl, inr,
}
use chora_mem.Text.{Text, strip, splitlines}
use chora_mem.Text.Unicode.{is_space}
use chora_mem.Text.Trim.{strip-strip}
use chora_mem.Result.{ok, bind-eq-ok, raise_if-eq-ok}
use chora_mem.Checks.{meaningful_lines}
use chora_mem.Recollection.{RecollectionMaterial, no_memory, bind_recollection}
use chora_mem.Recollection.Injection.{IsRecollectionBlock, normalized, bind_recollection-block}
use chora_mem.Service.Recollections.{max_plain_recollections, bind_lines, bind_plain_recollections}

-- a block that cites the given refs, with one of the lines as its body
abbrev pub IsBlockFor : List Text → Text → Type 0
IsBlockFor refs text = (line : Text) × IsRecollectionBlock (normalized line) refs text

abbrev IsStripped : Text → Type 0
IsStripped line = strip is_space line ≡ line

map-strip-IsStripped : (lines : List Text) → All IsStripped (map (strip is_space) lines)
map-strip-IsStripped [] = tt
map-strip-IsStripped (l ∷ ls) = (strip-strip is_space l, map-strip-IsStripped ls)

meaningful_lines-IsStripped : (body : Text) → All IsStripped (meaningful_lines is_space body)
unfolding meaningful_lines
meaningful_lines-IsStripped body =
    select-All IsStripped _ _ (map-strip-IsStripped (splitlines body))

or-false_both : (a b : Bool) → (a || b) ≡ false → (a ≡ false) × (b ≡ false)
or-false_both a b h = ground arith

no_memory-ne :
    (lines : List Text)
    → elem no_memory lines ≡ false
    → All IsStripped lines
    → All (λ l. strip is_space l ≢ no_memory) lines
no_memory-ne [] h s = tt
no_memory-ne (l ∷ ls) h s =
    let (differ, others) = or-false_both (l == no_memory) (elem no_memory ls) h in
    (
      λ e. differ_absurd differ ((list_eq.beq_iff l no_memory).1 (sym s.0 ∙ e)),
      no_memory-ne ls others s.1,
    )
  where
    differ_absurd : {b : Bool} → b ≡ false → b ≡ true → ⊥
    differ_absurd f t = cc (f, t)

record IsBatch (refs : List Text) (n : ℕ) (blocks : List Text) : Type 0 where
  few : n + length blocks ≤ max_plain_recollections
  each : All (IsBlockFor refs) blocks

ok-eq : {A : Type 0} {a b : A} → ok a ≡ ok b → a ≡ b
ok-eq h = cc h

IsBatch-nil : (refs : List Text) (n : ℕ) → n ≤ max_plain_recollections → IsBatch refs n []
IsBatch-nil refs n le = record { few = omega (arith, le); each = tt }

room_left : (n m : ℕ) → n ≤ m → eqb n m ≡ false → suc n ≤ m
room_left n m le h = ground (arith, le, h)

bind_lines-IsBatch :
    (material : RecollectionMaterial) (n : ℕ) (seen lines : List Text) {blocks : List Text}
    → n ≤ max_plain_recollections
    → All (λ l. strip is_space l ≢ no_memory) lines
    → bind_lines material n seen lines ≡ ok blocks
    → IsBatch material.basis_refs n blocks
unfolding bind_lines
bind_lines-IsBatch material n seen [] le ne h =
    subst (IsBatch material.basis_refs n) (ok-eq h) (IsBatch-nil material.basis_refs n le)
bind_lines-IsBatch material n seen (line ∷ rest) le ne h = elim (Bool-cases (elem line seen)) [
  | inl old ↦ bind_lines-IsBatch material n seen rest le ne.1 (rw old at h)
  | inr new ↦ elim (Bool-cases (eqb n max_plain_recollections)) [
    | inl full ↦
        subst (IsBatch material.basis_refs n) (ok-eq (rw full at (rw new at h)))
          (IsBatch-nil material.basis_refs n le)
    | inr room ↦
        let (bound, b, h1) =
          bind-eq-ok (bind_recollection material line) _ (rw room at (rw new at h)) in
        let (others, o, h2) = bind-eq-ok (bind_lines material (suc n) (line ∷ seen) rest) _ h1 in
        let later =
          bind_lines-IsBatch material (suc n) (line ∷ seen) rest
            (room_left n max_plain_recollections le room) ne.1 o in
        subst (IsBatch material.basis_refs n) (ok-eq h2) (record {
          few = omega (arith, later.few);
          each = ((line, bind_recollection-block material line b ne.0), later.each);
        })
  ]
]

-- A reply that binds becomes at most 32 blocks, each of them one NEW_RECOLLECTION TEXT block with one
-- line as its body, and with the material's refs.
pub bind_plain_recollections-All :
    (material : RecollectionMaterial) (body : Text) {blocks : List Text}
    → bind_plain_recollections material body ≡ ok blocks
    → (length blocks ≤ max_plain_recollections) × All (IsBlockFor material.basis_refs) blocks
unfolding bind_plain_recollections
bind_plain_recollections-All material body h =
    elim (Bool-cases (strip is_space body == no_memory)) [
      | inl same ↦
          subst (λ b. (length b ≤ max_plain_recollections) × All (IsBlockFor material.basis_refs) b)
            (ok-eq (rw same at h)) (omega arith, tt)
      | inr other ↦
          let lines = meaningful_lines is_space body in
          let (_, h1) = raise_if-eq-ok (is_empty lines) _ _ (rw other at h) in
          let (pure_lines, h2) = raise_if-eq-ok (elem no_memory lines) _ _ h1 in
          let batch =
            bind_lines-IsBatch material 0 [] lines (omega arith)
              (no_memory-ne lines pure_lines (meaningful_lines-IsStripped body)) h2 in
          (omega (arith, batch.few), batch.each)
    ]
