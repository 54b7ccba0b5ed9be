-- ===== src/Trace/Made.antt =====
-- Which calls a piece of code adds to those made before it, however it ends.
use mathlib.Core.List.{append-nil, append_assoc}
use chora_mem.Prelude.{List, [], ◌∷◌, ◌++◌, All, ◌≡◌, refl, sym, ap, ◌∙◌}
use chora_mem.Text.Lines.{All-append}
use chora_mem.Result.{Result, ok, err}
use chora_mem.Trace.{Traced, Reply, from, calling, and_then, ◌>>=◌}

-- From `made` to `after` only calls with the property `P` are made.
pub record Made {C : Type 0} (P : C → Type 0) (made after : List C) : Type 0 where
  pub calls : List C
  pub appended : after ≡ made ++ calls
  pub each : All P calls

module _ {C : Type 0} {P : C → Type 0} where
  pub Made-none : (made : List C) → Made P made made
  Made-none made = record { calls = []; appended = sym (append-nil made); each = tt }

  pub Made-trans :
      {made between after : List C} → Made P made between → Made P between after → Made P made after
  Made-trans {made} s t = record {
    calls = s.calls ++ t.calls;
    appended = t.appended ∙ (ap (λ l. l ++ t.calls) s.appended ∙ append_assoc made s.calls t.calls);
    each = All-append P s.calls t.calls s.each t.each;
  }

  pub Made-calling :
      {A : Type 0} (c : C) (reply : List C → Reply A) (made : List C)
      → P c
      → Made P made (calling c reply made).1
  Made-calling c reply made p = record { calls = c ∷ []; appended = refl; each = (p, tt) }

  -- The rest of a chain is run only where its first step has returned.
  pub Made-bind :
      {A B : Type 0} (act : Traced C A) (next : A → Traced C B) (made : List C)
      → Made P made (act made).1
      → ((a : A) → (act made).0 ≡ ok a → Made P (act made).1 (next a (act made).1).1)
      → Made P made ((act >>= next) made).1
  Made-bind {A} act next made first rest = settled (act made).0 refl
    where
      settled : (r : Result A) → (act made).0 ≡ r → Made P made (and_then r next (act made).1).1
      settled (ok a) same = Made-trans first (rest a same)
      settled (err e) same = first

  pub Made-call :
      {A B : Type 0} (c : C) (reply : List C → Reply A) (next : A → Traced C B) (made : List C)
      → P c
      → ((a : A) → Made P (made ++ c ∷ []) (next a (made ++ c ∷ [])).1)
      → Made P made ((calling c reply >>= next) made).1
  Made-call c reply next made p rest =
      Made-bind (calling c reply) next made (Made-calling c reply made p) (λ a same. rest a)

  -- A pure step in front makes no call.
  pub Made-pure :
      {A B : Type 0} (r : Result A) (next : A → Traced C B) (made : List C)
      → ((a : A) → r ≡ ok a → Made P made (next a made).1)
      → Made P made ((from r >>= next) made).1
  Made-pure (ok a) next made rest = rest a refl
  Made-pure (err e) next made rest = Made-none made

-- what a result that is returned satisfies
abbrev pub Ends : {A : Type 0} → (A → Type 0) → Result A → Type 0
Ends Q (ok a) = Q a
Ends Q (err e) = Unit

pub Ends-bind :
    {C A B : Type 0} (Q : B → Type 0) (act : Traced C A) (next : A → Traced C B) (made : List C)
    → ((a : A) → (act made).0 ≡ ok a → Ends Q (next a (act made).1).0)
    → Ends Q ((act >>= next) made).0
Ends-bind {C} {A} Q act next made rest = settled (act made).0 refl
  where
    settled : (r : Result A) → (act made).0 ≡ r → Ends Q (and_then r next (act made).1).0
    settled (ok a) same = rest a same
    settled (err e) same = tt
