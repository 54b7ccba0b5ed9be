-- ===== src/Prelude/Dicts.antt =====
-- Laws of dictionaries as association lists.
use mathlib.Core.Path.{◌≡◌, refl}
use mathlib.Core.Bool.{true, false, ◌||◌}
use mathlib.Core.Logic.{inl, inr}
use mathlib.Core.List.{List, [], ◌∷◌}
use mathlib.Core.Option.{none, some}
use native.Mathlib.Omega.{arith}
use chora_mem.Prelude.Tests.{Eq, ◌==◌, Bool-cases, if◌then◌else◌}
use chora_mem.Prelude.Lists.{All, elem, Nodup, lookup, assign, keys}

module _ {ℓ κ} {K : Type ℓ} {V : Type κ} ⦃e : Eq K⦄ where
  pub lookup-assign :
      (k j : K) (v : V) (d : List (K × V))
      → lookup j (assign k v d) ≡ (if k == j then some v else lookup j d)
  lookup-assign k j v [] = refl
  lookup-assign k j v (entry ∷ d) =
      ground (arith, lookup-assign k j v d, e.beq_iff entry.0 k, e.beq_iff entry.0 j, e.beq_iff k j)

  elem-keys-assign :
      (k j : K) (v : V) (d : List (K × V))
      → elem j (keys (assign k v d)) ≡ (k == j || elem j (keys d))
  elem-keys-assign k j v [] = refl
  elem-keys-assign k j v (entry ∷ d) =
      ground
        (arith, elem-keys-assign k j v d, e.beq_iff entry.0 k, e.beq_iff entry.0 j, e.beq_iff k j)

  -- An assignment repeats no key.
  pub assign-Nodup :
      (k : K) (v : V) (d : List (K × V)) → Nodup (keys d) → Nodup (keys (assign k v d))
  assign-Nodup k v [] u = (refl, tt)
  assign-Nodup k v (entry ∷ d) u = ground (
    arith,
    assign-Nodup k v d,
    elem-keys-assign k entry.0 v d,
    e.beq_iff entry.0 k,
    e.beq_iff k entry.0,
    u,
  )

  pub assign-All {μ} :
      (P : K × V → Type μ) (k : K) (v : V) (d : List (K × V))
      → ((j : K) → (j == k) ≡ true → P (j, v))
      → All P d
      → All P (assign k v d)
  assign-All P k v [] h a = (h k ((e.beq_iff k k).1 refl), tt)
  assign-All P k v (entry ∷ d) h a = elim (Bool-cases (entry.0 == k)) [
    | inl same ↦ rw same (h entry.0 same, a.1)
    | inr other ↦ rw other (a.0, assign-All P k v d h a.1)
  ]

  elem-of_lookup : (k : K) (d : List (K × V)) → elem k (keys d) ≡ false → lookup k d ≡ none
  elem-of_lookup k [] h = refl
  elem-of_lookup k (entry ∷ d) h = ground (arith, elem-of_lookup k d, h)

  -- Where no key stands twice, each entry is what its key is looked up as.
  pub lookup-entries :
      (d : List (K × V)) → Nodup (keys d) → All (λ entry. lookup entry.0 d ≡ some entry.1) d
  lookup-entries [] u = tt
  lookup-entries (entry ∷ d) u =
      (rw ((e.beq_iff entry.0 entry.0).1 refl), later d u.0 (lookup-entries d u.1))
    where
      later :
          (rest : List (K × V))
          → elem entry.0 (keys rest) ≡ false
          → All (λ x. lookup x.0 d ≡ some x.1) rest
          → All (λ x. lookup x.0 (entry ∷ d) ≡ some x.1) rest
      later [] n a = tt
      later (x ∷ rest) n a = (
        ground (arith, n, a.0, e.beq_iff x.0 entry.0, e.beq_iff entry.0 x.0),
        later rest (ground (arith, n)) a.1,
      )
