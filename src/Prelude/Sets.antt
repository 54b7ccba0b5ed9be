-- ===== src/Prelude/Sets.antt =====
-- Laws of the searches in lists and of Python's sets that keep an order.
use Prim.Native.Nat.{ℕ, ◌≤◌}
use mathlib.Core.Path.{◌≡◌, ◌∙◌, refl, subst, sym}
use mathlib.Core.Bool.{Bool, true, false, not}
use mathlib.Core.List.{List, [], ◌∷◌}
use native.Mathlib.Omega.{arith}
use chora_mem.Prelude.Tests.{Eq, ◌==◌, Bool-cases, eqb}
use mathlib.Core.Logic.{inl, inr}
use chora_mem.Prelude.Lists.{All, length, elem, unseen, distinct, has_duplicates, Nodup, select}

pub select-All {ℓ κ} :
    {A : Type ℓ} (P : A → Type κ) (p : A → Bool) (xs : List A) → All P xs → All P (select p xs)
select-All P p [] h = tt
select-All P p (x ∷ xs) h = ground (arith, select-All P p xs)

-- What passes a selection passes its test.
pub select-passes {ℓ} :
    {A : Type ℓ} (p : A → Bool) (xs : List A) → All (λ x. p x ≡ true) (select p xs)
select-passes p [] = tt
select-passes p (x ∷ xs) = ground (arith, select-passes p xs)

not-eqb : (a b : ℕ) → not (eqb a b) ≡ false → a ≡ b
not-eqb a b h = ground arith

true-ne-false : true ≡ false → ⊥
true-ne-false h = cc

module _ {ℓ} {A : Type ℓ} ⦃e : Eq A⦄ where
  pub elem-All {κ} : (P : A → Type κ) (a : A) (xs : List A) → All P xs → elem a xs ≡ true → P a
  elem-All P a [] h m = cc
  elem-All P a (x ∷ xs) h m = elim (Bool-cases (x == a)) [
    | inl same ↦ subst P ((e.beq_iff x a).0 same) h.0
    | inr other ↦ elem-All P a xs h.1 (rw other at m)
  ]

  -- What holds of all that the test finds holds of all members.
  pub All-of_elem {κ} :
      (P : A → Type κ) (xs : List A) → ((a : A) → elem a xs ≡ true → P a) → All P xs
  All-of_elem P [] h = tt
  All-of_elem P (x ∷ xs) h =
      (h x (rw ((e.beq_iff x x).1 refl)), All-of_elem P xs (λ a m. h a (ground (arith, m))))

  pub All-elem :
      (xs ys : List A)
      → ((a : A) → elem a xs ≡ true → elem a ys ≡ true)
      → All (λ a. elem a ys ≡ true) xs
  All-elem xs ys h = All-of_elem (λ a. elem a ys ≡ true) xs h

  unseen-All {κ} : (P : A → Type κ) (seen xs : List A) → All P xs → All P (unseen seen xs)
  unfolding unseen
  unseen-All P seen [] h = tt
  unseen-All P seen (x ∷ xs) h = ground (arith, unseen-All P seen xs, unseen-All P (x ∷ seen) xs)

  -- What all members satisfy, all members of the set do.
  pub distinct-All {κ} : (P : A → Type κ) (xs : List A) → All P xs → All P (distinct xs)
  unfolding distinct
  distinct-All P xs h = unseen-All P [] xs h

  elem-cons_self : (x : A) (xs : List A) → elem x (x ∷ xs) ≡ true
  elem-cons_self x xs = rw ((e.beq_iff x x).1 refl)

  unseen-old :
      (x : A) (seen xs : List A) → elem x seen ≡ true → unseen seen (x ∷ xs) ≡ unseen seen xs
  unfolding unseen
  unseen-old x seen xs h = ground arith

  unseen-new :
      (x : A) (seen xs : List A)
      → elem x seen ≡ false
      → unseen seen (x ∷ xs) ≡ x ∷ unseen (x ∷ seen) xs
  unfolding unseen
  unseen-new x seen xs h = ground arith

  eq-of-beq : (x a : A) → (x == a) ≡ true → x ≡ a
  eq-of-beq x a h = (e.beq_iff x a).0 h

  not-elem-cons :
      (x a : A) (seen : List A) → (x == a) ≡ true → elem a seen ≡ false → elem x seen ≡ false
  not-elem-cons x a seen same n = subst (λ y. elem y seen ≡ false) (sym (eq-of-beq x a same)) n

  elem-later : (x a : A) (seen : List A) → elem a seen ≡ true → elem a (x ∷ seen) ≡ true
  elem-later x a seen m = ground arith

  elem-unseen :
      (a : A) (seen xs : List A)
      → elem a seen ≡ false
      → elem a xs ≡ true
      → elem a (unseen seen xs) ≡ true
  elem-unseen a seen [] n m = cc m
  elem-unseen a seen (x ∷ xs) n m = elim (Bool-cases (x == a)) [
    | inl same ↦ rw (unseen-new x seen xs (not-elem-cons x a seen same n)) (rw same)
    | inr other ↦ elim (Bool-cases (elem x seen)) [
      | inl old ↦ rw (unseen-old x seen xs old) (elem-unseen a seen xs n (rw other at m))
      | inr new ↦
          rw (unseen-new x seen xs new)
            (rw other (elem-unseen a (x ∷ seen) xs (rw other n) (rw other at m)))
    ]
  ]

  unseen-not-seen :
      (a : A) (seen xs : List A) → elem a seen ≡ true → elem a (unseen seen xs) ≡ false
  unseen-not-seen a seen [] m = unfold unseen in refl
  unseen-not-seen a seen (x ∷ xs) m = elim (Bool-cases (elem x seen)) [
    | inl old ↦ rw (unseen-old x seen xs old) (unseen-not-seen a seen xs m)
    | inr new ↦ elim (Bool-cases (x == a)) [
      | inl same ↦
          absurd (true-ne-false (sym m ∙ subst (λ y. elem y seen ≡ false) (eq-of-beq x a same) new))
      | inr other ↦
          rw (unseen-new x seen xs new)
            (rw other (unseen-not-seen a (x ∷ seen) xs (elem-later x a seen m)))
    ]
  ]

  unseen-Nodup : (seen xs : List A) → Nodup (unseen seen xs)
  unseen-Nodup seen [] = unfold unseen in tt
  unseen-Nodup seen (x ∷ xs) = elim (Bool-cases (elem x seen)) [
    | inl old ↦ rw (unseen-old x seen xs old) (unseen-Nodup seen xs)
    | inr new ↦
        rw (unseen-new x seen xs new)
          (unseen-not-seen x (x ∷ seen) xs (elem-cons_self x seen), unseen-Nodup (x ∷ seen) xs)
  ]

  -- A set holds every member of the list, and holds none twice.
  pub elem-distinct : (a : A) (xs : List A) → elem a xs ≡ true → elem a (distinct xs) ≡ true
  unfolding distinct
  elem-distinct a xs m = elem-unseen a [] xs refl m

  pub distinct-Nodup : (xs : List A) → Nodup (distinct xs)
  unfolding distinct
  distinct-Nodup xs = unseen-Nodup [] xs

  length-unseen : (seen xs : List A) → length (unseen seen xs) ≤ length xs
  unfolding unseen
  length-unseen seen [] = omega arith
  length-unseen seen (x ∷ xs) = ground (arith, length-unseen seen xs, length-unseen (x ∷ seen) xs)

  -- a list none of whose members is seen, or stands twice
  IsFresh : List A → List A → Type 0
  IsFresh seen [] = Unit
  IsFresh seen (x ∷ xs) = (elem x seen ≡ false) × IsFresh (x ∷ seen) xs

  IsFresh-full : (seen xs : List A) → length (unseen seen xs) ≡ length xs → IsFresh seen xs
  unfolding unseen IsFresh
  IsFresh-full seen [] h = tt
  IsFresh-full seen (x ∷ xs) h = ground (arith, length-unseen seen xs, IsFresh-full (x ∷ seen) xs)

  IsFresh-seen :
      (a : A) (seen xs : List A) → IsFresh seen xs → elem a seen ≡ true → elem a xs ≡ false
  unfolding IsFresh
  IsFresh-seen a seen [] h m = refl
  IsFresh-seen a seen (x ∷ xs) h m = elim (Bool-cases (x == a)) [
    | inl same ↦
        absurd (true-ne-false (sym m ∙ subst (λ y. elem y seen ≡ false) (eq-of-beq x a same) h.0))
    | inr other ↦ rw other (IsFresh-seen a (x ∷ seen) xs h.1 (elem-later x a seen m))
  ]

  IsFresh-Nodup : (seen xs : List A) → IsFresh seen xs → Nodup xs
  unfolding IsFresh
  IsFresh-Nodup seen [] h = tt
  IsFresh-Nodup seen (x ∷ xs) h =
      (IsFresh-seen x (x ∷ seen) xs h.1 (elem-cons_self x seen), IsFresh-Nodup (x ∷ seen) xs h.1)

  -- `len(set(xs)) == len(xs)` says that no member stands twice.
  pub has_duplicates-Nodup : (xs : List A) → has_duplicates xs ≡ false → Nodup xs
  unfolding has_duplicates
  has_duplicates-Nodup xs h = IsFresh-Nodup [] xs (IsFresh-full [] xs (not-eqb _ _ h))
