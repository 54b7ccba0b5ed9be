-- ===== src/Lifecycle/States/Lineage.antt =====
-- The lineage of a version's reference (`_seed_lineage` of seed_lifecycle.py).
use chora_mem.Prelude.{
  ℕ, Bool, true, false, ◌&&◌, [], ◌∷◌, ◌++◌, none, some, is_empty, all, eqb, eqb_iff, Bool-cases,
  ◌≡◌, refl, sym, ap, ◌∙◌, arith, inl, inr,
}
use chora_mem.Text.{Text}
use chora_mem.Lifecycle.States.{rpartition_at, seed_lineage}

both_true : (a b : Bool) → (a && b) ≡ true → (a ≡ true) × (b ≡ true)
both_true a b h = ground (arith, h)

contradiction : {A : Type 0} {b : Bool} → b ≡ false → b ≡ true → A
contradiction h g = cc

not_at :
    (is_digit : ℕ → Bool) (c : ℕ) → is_digit b'@' ≡ false → is_digit c ≡ true → eqb c b'@' ≡ false
not_at is_digit c at h = elim (Bool-cases (eqb c b'@')) [
  | inl same ↦ contradiction at (ap is_digit (sym ((eqb_iff c b'@').0 same)) ∙ h)
  | inr differ ↦ differ
]

rpartition_at-none :
    (is_digit : ℕ → Bool) (suffix : Text)
    → is_digit b'@' ≡ false
    → all is_digit suffix ≡ true
    → rpartition_at suffix ≡ none
unfolding rpartition_at
rpartition_at-none is_digit [] at h = refl
rpartition_at-none is_digit (c ∷ suffix) at h =
    let (digit, rest) = both_true (is_digit c) (all is_digit suffix) h in
    rw (rpartition_at-none is_digit suffix at rest) (rw (not_at is_digit c at digit) refl)

rpartition_at-last :
    (head suffix : Text)
    → rpartition_at suffix ≡ none
    → rpartition_at (head ++ b'@' ∷ suffix) ≡ some (head, suffix)
unfolding rpartition_at
rpartition_at-last [] suffix h = rw h refl
rpartition_at-last (c ∷ head) suffix h = rw (rpartition_at-last head suffix h) refl

-- Every version of a Disposition, its reference with "@" and a number behind it, has the reference
-- as its lineage, if that is not empty; "@" is no digit.
pub seed_lineage-version :
    (is_digit : ℕ → Bool) (head suffix : Text)
    → is_digit b'@' ≡ false
    → is_empty head ≡ false
    → is_empty suffix ≡ false
    → all is_digit suffix ≡ true
    → seed_lineage is_digit (head ++ b'@' ∷ suffix) ≡ head
unfolding seed_lineage
seed_lineage-version is_digit head suffix at some_head some_suffix digits =
    rw (rpartition_at-last head suffix (rpartition_at-none is_digit suffix at digits), seed_lineage)
      (rw some_head (rw some_suffix (rw digits refl)))
