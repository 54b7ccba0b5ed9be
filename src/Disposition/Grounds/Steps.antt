-- ===== src/Disposition/Grounds/Steps.antt =====
-- Inversion of the steps of a chain that may return None (disposition_materials.py).
use chora_mem.Prelude.{
  ◌≡◌, refl, Bool, true, false, ◌||◌, not, Option, none, some, arith, if◌then◌else◌,
}
use chora_mem.Disposition.Formation.{◌>>=◌, ◌>>◌, none_if}

pub bind-eq-some {ℓ κ} :
    {A : Type ℓ} {B : Type κ} (m : Option A) (f : A → Option B) {b : B}
    → (m >>= f) ≡ some b
    → (a : A) × (m ≡ some a) × (f a ≡ some b)
bind-eq-some none f h = cc
bind-eq-some (some a) f h = (a, refl, h)

pub none_if-eq-some {ℓ} :
    {B : Type ℓ} (test : Bool) (k : Option B) {b : B}
    → (none_if test >> k) ≡ some b
    → (test ≡ false) × (k ≡ some b)
none_if-eq-some true k h = cc
none_if-eq-some false k h = (refl, h)

-- A test that leads to None did not pass.
pub if_none-eq-some {ℓ} :
    {B : Type ℓ} (test : Bool) {a b : B}
    → (if test then none else some a) ≡ some b
    → (test ≡ false) × (some a ≡ some b)
if_none-eq-some true h = cc
if_none-eq-some false h = (refl, h)

pub or-false_both : (a b : Bool) → (a || b) ≡ false → (a ≡ false) × (b ≡ false)
or-false_both true b h = cc
or-false_both false b h = (refl, h)

pub not-false : (a : Bool) → not a ≡ false → a ≡ true
not-false a h = ground arith
