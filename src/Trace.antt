-- ===== src/Trace.antt =====
-- Code that calls others (a memory client, a runner, a model) and may raise. Who is called is a
-- parameter, and answers from the calls made before: the state is the list of the calls, in order.
pub mod Made
use chora_mem.Prelude.{◌≡◌, refl, List, [], ◌∷◌, ◌++◌}
use chora_mem.Text.{Text}
use chora_mem.Result.{Result, ok, err, model_error}

pub data Reply (A : Type 0) : Type 0 where
  replied : A → Reply A
  raised : Text → Reply A

abbrev pub answer : {A : Type 0} → Reply A → Result A
answer (replied a) = ok a
answer (raised what) = err (model_error what)

-- code over the calls `C`
abbrev pub Traced : Type 0 → Type 0 → Type 0
Traced C A = List C → Result A × List C

module _ {C A : Type 0} where
  abbrev pub done : A → Traced C A
  done a made = (ok a, made)

  abbrev pub from : Result A → Traced C A
  from r made = (r, made)

  -- an awaited call
  abbrev pub calling : C → (List C → Reply A) → Traced C A
  calling c reply made = (answer (reply made), made ++ c ∷ [])

module _ {C A B : Type 0} where
  abbrev pub and_then : Result A → (A → Traced C B) → Traced C B
  and_then (err e) next made = (err e, made)
  and_then (ok a) next made = next a made

  infixl 5 ◌>>=◌
  abbrev pub ◌>>=◌ : Traced C A → (A → Traced C B) → Traced C B
  ◌>>=◌ act next made = and_then (act made).0 next (act made).1

  -- A chain that has returned has returned from its first step.
  pub bind-eq-done :
      (act : Traced C A) (next : A → Traced C B) (made : List C) {b : B} {after : List C}
      → (act >>= next) made ≡ (ok b, after)
      → (a : A) × ((act made).0 ≡ ok a) × (next a (act made).1 ≡ (ok b, after))
  bind-eq-done act next made h = settled (act made).0 (act made).1 refl h
    where
      settled :
          (r : Result A) (between : List C) {b : B} {after : List C}
          → (act made).0 ≡ r
          → and_then r next between ≡ (ok b, after)
          → (a : A) × ((act made).0 ≡ ok a) × (next a between ≡ (ok b, after))
      settled (err e) between same h = cc h
      settled (ok a) between same h = (a, same, h)
