-- ===== src/Tagged/Feedback/Fuel.antt =====
-- The rounds of the loop of `_normalize_feedback_output` and its fuel (service.py).
use chora_mem.Prelude.{
  ℕ, zero, suc, ◌≤◌, ◌<◌, ◌||◌, List, [], ◌∷◌, Option, none, some, elem, length, nat_eq, list_eq,
  ◌==◌, Option-cases, ◌≡◌, refl, arith, inl, inr,
}
use chora_mem.Text.{Text}
use chora_mem.Tagged.Feedback.Reads.{Ensures, Ensures-some, require-Ensures, if-Ensures}
use chora_mem.Tagged.{target_mark, application_mark, change_mark, basis_mark}
use chora_mem.Tagged.Feedback.{
  Block, Offer, text_op, reenact_op, inhibit_op, from_target, read_basis, read_body, read_block,
  normalize_block, normalize_blocks, returned, extend,
}

length-from_target : (lines : List Text) → length (from_target lines) ≤ length lines
unfolding from_target
length-from_target [] = omega arith
length-from_target (line ∷ rest) = ground (arith, length-from_target rest)

-- What is left behind a block.
abbrev IsShorter : ℕ → Block × List Text → Type 0
IsShorter n found = length found.1 < n

Ensures-le :
    (m n : ℕ) (k : Option (Block × List Text))
    → m ≤ n
    → Ensures (IsShorter m) k
    → Ensures (IsShorter n) k
Ensures-le m n none le h = tt
Ensures-le m n (some found) le h = omega (arith, le, h)

read_basis-IsShorter :
    (target application operation : Text) (body lines : List Text)
    → Ensures (IsShorter (length lines)) (read_basis target application operation body lines)
unfolding read_basis
read_basis-IsShorter target application operation body [] = tt
read_basis-IsShorter target application operation body (marker ∷ rest) =
    require-Ensures (IsShorter (suc (length rest))) (marker == basis_mark) _
      (λ _. omega (arith, length-from_target rest))

read_body-IsShorter :
    (target application operation : Text) (lines : List Text)
    → Ensures (IsShorter (length lines)) (read_body target application operation lines)
unfolding read_body
read_body-IsShorter target application operation [] = tt
read_body-IsShorter target application operation (line ∷ rest) =
    let n = suc (length rest) in
    if-Ensures (IsShorter n) (operation == text_op) _ _
      (λ _.
        if-Ensures (IsShorter n) (line == basis_mark) _ _ (λ _. tt)
          (λ _.
            Ensures-le (length rest) n _ (omega arith)
              (read_basis-IsShorter target application operation (line ∷ []) rest)))
      (λ _.
        if-Ensures (IsShorter n) (operation == reenact_op || operation == inhibit_op) _ _
          (λ _. read_basis-IsShorter target application operation [] (line ∷ rest)) (λ _. tt))

read_block-IsShorter :
    (targets lines : List Text) → Ensures (IsShorter (length lines)) (read_block targets lines)
unfolding read_block
read_block-IsShorter targets (a ∷ target ∷ c ∷ application ∷ e ∷ operation ∷ g ∷ h ∷ rest) =
    let n = length (a ∷ target ∷ c ∷ application ∷ e ∷ operation ∷ g ∷ h ∷ rest) in
    require-Ensures (IsShorter n) (a == target_mark) _ (λ _.
      require-Ensures (IsShorter n) (elem target targets) _ (λ _.
        require-Ensures (IsShorter n) (c == application_mark) _ (λ _.
          require-Ensures (IsShorter n) (e == change_mark) _ (λ _.
            Ensures-le (length (g ∷ h ∷ rest)) n _ (omega arith)
              (read_body-IsShorter target application operation (g ∷ h ∷ rest))))))
read_block-IsShorter targets _ = tt

-- The loop ends: fuel that covers the number of lines is enough for it to return, and it returns the
-- same with any two such amounts.
pub normalize_blocks-fuel :
    (f g : ℕ) (offer : Offer) (lines : List Text)
    → length lines ≤ f
    → length lines ≤ g
    → (result : Option (List Text)) × (normalize_blocks f offer lines ≡ returned result)
      × (normalize_blocks g offer lines ≡ returned result)
unfolding normalize_blocks
normalize_blocks-fuel f g offer [] hf hg = (some [], refl, refl)
normalize_blocks-fuel zero g offer (line ∷ rest) hf hg = absurd (omega (arith, hf))
normalize_blocks-fuel (suc f) zero offer (line ∷ rest) hf hg = absurd (omega (arith, hg))
normalize_blocks-fuel (suc f) (suc g) offer (line ∷ rest) hf hg =
    elim (Option-cases (read_block offer.targets (line ∷ rest))) [
      | inl nothing ↦ (none, ground (arith, nothing), ground (arith, nothing))
      | inr ((block, remaining), read) ↦
          let shorter : length remaining < length (line ∷ rest) =
            Ensures-some (IsShorter (length (line ∷ rest))) (read_block offer.targets (line ∷ rest))
              (read_block-IsShorter offer.targets (line ∷ rest)) read in
          let (result, with_f, with_g) =
            normalize_blocks-fuel f g offer remaining (omega (arith, shorter, hf))
              (omega (arith, shorter, hg)) in
          elim (Option-cases (normalize_block offer block)) [
            | inl refused ↦ (none, ground (arith, read, refused), ground (arith, read, refused))
            | inr (lines, written) ↦ (
              extend lines result,
              ground (arith, read, written, with_f),
              ground (arith, read, written, with_g),
            )
          ]
    ]
