-- ===== src/Index/Servicer/Items.antt =====
-- Counting the items of two selections.
use chora_mem.Prelude.{
  ℕ, ◌+◌, Bool, true, false, ◌&&◌, not, List, [], ◌∷◌, ◌++◌, select, count, ◌≡◌, refl, ap, ◌∙◌,
  arith, if◌then◌else◌,
}

module _ {A : Type 0} where
  pub count-append : (p : A → Bool) (xs ys : List A) → count p (xs ++ ys) ≡ count p xs + count p ys
  count-append p [] ys = omega arith
  count-append p (x ∷ xs) ys = omega (arith, count-append p xs ys)

  pub count-select :
      (p q : A → Bool) (xs : List A) → count p (select q xs) ≡ count (λ x. p x && q x) xs
  count-select p q [] = refl
  count-select p q (x ∷ xs) = ground (arith, count-select p q xs)

  pub count-agree :
      (good p q : A → Bool) (xs : List A)
      → ((x : A) → good x ≡ true → p x ≡ q x)
      → count (λ x. not (good x)) xs ≡ 0
      → count p xs ≡ count q xs
  count-agree good p q [] agree none_bad = refl
  count-agree good p q (x ∷ xs) agree none_bad =
      step (good x) (p x) (q x) (agree x) none_bad (count-agree good p q xs agree)
    where
      step :
          {n a b : ℕ} (g s t : Bool)
          → (g ≡ true → s ≡ t)
          → ((if not g then 1 else 0) + n) ≡ 0
          → (n ≡ 0 → a ≡ b)
          → ((if s then 1 else 0) + a) ≡ (if t then 1 else 0) + b
      step {n} {a} {b} true s t same h rest =
          let tail = rest (omega (arith, h)) in
          ap (λ x. (if x then 1 else 0) + a) (same refl) ∙ ap (λ x. (if t then 1 else 0) + x) tail
      step false s t same h rest = omega (arith, h)

  pub count-and :
      (p q : A → Bool) (xs : List A)
      → count (λ x. not (p x)) xs ≡ 0
      → count (λ x. not (q x)) xs ≡ 0
      → count (λ x. not (p x && q x)) xs ≡ 0
  count-and p q [] hp hq = refl
  count-and p q (x ∷ xs) hp hq = ground (arith, hp, hq, count-and p q xs)

  pub count-never : (p : A → Bool) (xs : List A) → ((x : A) → p x ≡ false) → count p xs ≡ 0
  count-never p [] never = refl
  count-never p (x ∷ xs) never = ground (arith, never x, count-never p xs never)

  pub count-imp :
      (p q : A → Bool) (xs : List A)
      → ((x : A) → p x ≡ false → q x ≡ false)
      → count p xs ≡ 0
      → count q xs ≡ 0
  count-imp p q [] imp h = refl
  count-imp p q (x ∷ xs) imp h = ground (arith, h, imp x, count-imp p q xs imp)
