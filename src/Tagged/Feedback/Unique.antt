-- ===== src/Tagged/Feedback/Unique.antt =====
-- What `_ordered_unique` keeps of a list of refs (service.py).
use mathlib.Core.Path.{subst}
use chora_mem.Prelude.{
  true, false, not, List, [], ◌∷◌, elem, select, is_empty, distinct-All, elem-distinct, All,
  Bool-cases, ◌⊎◌, inl, inr, nat_eq, list_eq, ◌==◌, ◌≡◌, refl, sym, arith,
}
use chora_mem.Text.{Text}
use chora_mem.Tagged.Window.{ordered_unique}

pub named_refs : (refs : List Text) → All (λ ref. is_empty ref ≡ false) (ordered_unique refs)
unfolding ordered_unique
named_refs refs =
    distinct-All (λ ref. is_empty ref ≡ false) (select (λ value. not (is_empty value)) refs)
      (filled refs)
  where
    filled :
        (refs : List Text)
        → All (λ ref. is_empty ref ≡ false) (select (λ value. not (is_empty value)) refs)
    filled [] = tt
    filled (ref ∷ refs) = ground (arith, filled refs)

pub ordered_unique-All :
    (P : Text → Type 0) (refs : List Text) → All P refs → All P (ordered_unique refs)
unfolding ordered_unique
ordered_unique-All P refs h =
    distinct-All P (select (λ value. not (is_empty value)) refs) (kept refs h)
  where
    kept : (refs : List Text) → All P refs → All P (select (λ value. not (is_empty value)) refs)
    kept [] h = tt
    kept (ref ∷ refs) h = elim (Bool-cases (is_empty ref)) [
      | inl empty ↦ rw empty (kept refs h.1)
      | inr filled ↦ rw filled (h.0, kept refs h.1)
    ]

pub ordered_unique-elem :
    (ref : Text) (refs : List Text)
    → elem ref refs ≡ true
    → (is_empty ref ≡ true) ⊎ (elem ref (ordered_unique refs) ≡ true)
unfolding ordered_unique
ordered_unique-elem ref refs m = elim (Bool-cases (is_empty ref)) [
  | inl empty ↦ inl empty
  | inr filled ↦ inr (elem-distinct ref _ (kept refs filled m))
]
  where
    kept :
        (refs : List Text)
        → is_empty ref ≡ false
        → elem ref refs ≡ true
        → elem ref (select (λ value. not (is_empty value)) refs) ≡ true
    kept [] filled m = m
    kept (other ∷ refs) filled m = elim (Bool-cases (other == ref)) [
      | inl same ↦
          let plain : is_empty other ≡ false =
            subst (λ (r : Text). is_empty r ≡ false) (sym ((list_eq.beq_iff other ref).0 same))
              filled in
          rw plain (rw same refl)
      | inr differ ↦
          let among = kept refs filled (rw differ at m) in
          elim (Bool-cases (is_empty other)) [
            | inl empty ↦ rw empty among
            | inr plain ↦ rw plain (rw differ among)
          ]
    ]

pub All-map :
    {P Q : Text → Type 0} (refs : List Text) → ((r : Text) → P r → Q r) → All P refs → All Q refs
All-map [] f h = tt
All-map (ref ∷ refs) f h = (f ref h.0, All-map refs f h.1)

pub All-both :
    (P Q : Text → Type 0) (refs : List Text) → All P refs → All Q refs → All (λ r. P r × Q r) refs
All-both P Q [] h k = tt
All-both P Q (ref ∷ refs) h k = ((h.0, k.0), All-both P Q refs h.1 k.1)
