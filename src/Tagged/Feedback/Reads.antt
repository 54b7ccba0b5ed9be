-- ===== src/Tagged/Feedback/Reads.antt =====
-- The blocks that the loop of `_normalize_feedback_output` takes apart (service.py).
use mathlib.Core.Path.{subst}
use mathlib.Core.List.{append_assoc}
use chora_mem.Prelude.{
  some-eq, Bool-cases, Bool, true, false, ◌||◌, List, [], ◌∷◌, Option, none, some, elem, ◌⊎◌, inl,
  inr, nat_eq, list_eq, ◌==◌, if◌then◌else◌, ◌≡◌, ◌≢◌, refl, sym, ap, ◌∙◌, ◌++◌,
}
use chora_mem.Text.{Text}
use chora_mem.Tagged.{target_mark, application_mark, change_mark, basis_mark}
use chora_mem.Tagged.Feedback.{
  Block, text_op, reenact_op, inhibit_op, require, block_lines, until_target, from_target,
  read_basis, read_body, read_block, ◌>>◌,
}

-- What holds of a value, if there is one.
abbrev pub Ensures {ℓ} : {A : Type ℓ} → (A → Type 0) → Option A → Type 0
Ensures P none = Unit
Ensures P (some a) = P a

pub Ensures-some {ℓ} :
    {A : Type ℓ} (P : A → Type 0) (o : Option A) {a : A} → Ensures P o → o ≡ some a → P a
Ensures-some P none e h = cc
Ensures-some P (some b) e h = subst P (some-eq h) e

pub require-Ensures {ℓ} :
    {A : Type ℓ} (P : A → Type 0) (test : Bool) (k : Option A)
    → (test ≡ true → Ensures P k)
    → Ensures P (require test >> k)
require-Ensures P true k h = h refl
require-Ensures P false k h = tt

pub if-Ensures {ℓ} :
    {A : Type ℓ} (P : A → Type 0) (test : Bool) (k l : Option A)
    → (test ≡ true → Ensures P k)
    → (test ≡ false → Ensures P l)
    → Ensures P (if test then k else l)
if-Ensures P true k l h g = h refl
if-Ensures P false k l h g = g refl

-- The body of a block, by its operation.
abbrev pub HasBody : Text → List Text → Type 0
HasBody operation body =
    ((operation ≡ text_op) × ((line : Text) × (body ≡ line ∷ []) × (line ≢ basis_mark)))
    ⊎ (((operation ≡ reenact_op) ⊎ (operation ≡ inhibit_op)) × (body ≡ []))

-- A block of an offered target, and the input as its lines and those that follow.
pub record IsRead (targets input : List Text) (found : Block × List Text) : Type 0 where
  pub target_offered : elem found.0.target targets ≡ true
  pub shape : HasBody found.0.operation found.0.body
  pub input_lines : input ≡ block_lines found.0 found.0.basis ++ found.1

same_text : (a b : Text) → (a == b) ≡ true → a ≡ b
same_text a b h = (list_eq.beq_iff a b).0 h

other_text : (a b : Text) → (a == b) ≡ false → a ≢ b
other_text a b h same = cc (h, (list_eq.beq_iff a b).1 same)

either_text : (a b c : Text) → ((a == b) || (a == c)) ≡ true → (a ≡ b) ⊎ (a ≡ c)
either_text a b c h = elim (Bool-cases (a == b)) [
  | inl same ↦ inl (same_text a b same)
  | inr other ↦ inr (same_text a c (rw other at h))
]

until-from_target : (lines : List Text) → until_target lines ++ from_target lines ≡ lines
unfolding until_target from_target
until-from_target [] = refl
until-from_target (line ∷ rest) = elim (Bool-cases (line == target_mark)) [
  | inl marker ↦ rw marker refl
  | inr other ↦ rw other (ap (λ (ls : List Text). line ∷ ls) (until-from_target rest))
]

-- the lines of a block up to its operation
abbrev headed : Text → Text → Text → List Text → List Text
headed target application operation lines =
    target_mark ∷ target ∷ application_mark ∷ application ∷ change_mark ∷ operation ∷ lines

module _ (targets input : List Text) (target application operation : Text)
    (offered : elem target targets ≡ true) where
  read_basis-IsRead :
      (body lines : List Text)
      → HasBody operation body
      → input ≡ headed target application operation (body ++ lines)
      → Ensures (IsRead targets input) (read_basis target application operation body lines)
  unfolding read_basis
  read_basis-IsRead body [] shape e = tt
  read_basis-IsRead body (marker ∷ rest) shape e =
      require-Ensures (IsRead targets input) (marker == basis_mark) _ (λ same. record {
        target_offered = offered;
        shape = shape;
        input_lines =
            e
            ∙ ap (headed target application operation) (
                ap (λ (ls : List Text). body ++ ls)
                  (ap (λ (m : Text). m ∷ rest) (same_text marker basis_mark same)
                    ∙ ap (λ (ls : List Text). basis_mark ∷ ls) (sym (until-from_target rest)))
                ∙ sym (append_assoc body (basis_mark ∷ until_target rest) (from_target rest)));
      })

  read_body-IsRead :
      (lines : List Text)
      → input ≡ headed target application operation lines
      → Ensures (IsRead targets input) (read_body target application operation lines)
  unfolding read_body
  read_body-IsRead [] e = tt
  read_body-IsRead (line ∷ rest) e =
      if-Ensures (IsRead targets input) (operation == text_op) _ _
        (λ text.
          if-Ensures (IsRead targets input) (line == basis_mark) _ _ (λ _. tt)
            (λ other.
              read_basis-IsRead (line ∷ []) rest
                (inl (
                  same_text operation text_op text,
                  (line, refl, other_text line basis_mark other),
                ))
                e))
        (λ _.
          if-Ensures (IsRead targets input) (operation == reenact_op || operation == inhibit_op) _ _
            (λ known.
              read_basis-IsRead [] (line ∷ rest)
                (inr (either_text operation reenact_op inhibit_op known, refl)) e)
            (λ _. tt))

pub read_block-IsRead :
    (targets lines : List Text) → Ensures (IsRead targets lines) (read_block targets lines)
unfolding read_block
read_block-IsRead targets (a ∷ target ∷ c ∷ application ∷ e ∷ operation ∷ g ∷ h ∷ rest) =
    let input = a ∷ target ∷ c ∷ application ∷ e ∷ operation ∷ g ∷ h ∷ rest in
    require-Ensures (IsRead targets input) (a == target_mark) _ (λ first.
      require-Ensures (IsRead targets input) (elem target targets) _ (λ offered.
        require-Ensures (IsRead targets input) (c == application_mark) _ (λ third.
          require-Ensures (IsRead targets input) (e == change_mark) _ (λ fifth.
            read_body-IsRead targets input target application operation offered (g ∷ h ∷ rest) (
              cc (
                same_text a target_mark first,
                same_text c application_mark third,
                same_text e change_mark fifth,
              ))))))
read_block-IsRead targets _ = tt
