-- ===== src/Service/Sending.antt =====
-- Which prompts the passes of `ProcessConsolidationWindow` send (service.py).
use mathlib.Core.List.{append-nil, append_assoc}
use chora_mem.Prelude.{
  ℕ, ◌+◌, ◌≤◌, Bool, true, false, List, [], ◌∷◌, ◌++◌, All, length, length-append, if◌then◌else◌,
  ◌≡◌, refl, sym, ap, ◌∙◌, arith,
}
use chora_mem.Text.{Text}
use chora_mem.Text.Lines.{All-append}
use chora_mem.Result.{Result, ok, err}
use chora_mem.Service.Exec.{TextModel, Exec, lift, complete, continue, ◌>>=◌}

-- From `sent` to `after` at most `k` prompts are sent, each with the property `P`.
pub record Sends (P : Text → Type 0) (k : ℕ) (sent after : List Text) : Type 0 where
  pub prompts : List Text
  pub appended : after ≡ sent ++ prompts
  pub few : length prompts ≤ k
  pub each : All P prompts

module _ {P : Text → Type 0} where
  pub Sends-none : (k : ℕ) (sent : List Text) → Sends P k sent sent
  Sends-none k sent = record {
    prompts = [];
    appended = sym (append-nil sent);
    few = omega arith;
    each = tt;
  }

  pub Sends-more :
      {k : ℕ} (m : ℕ) {sent after : List Text} → k ≤ m → Sends P k sent after → Sends P m sent after
  Sends-more m le s = record {
    prompts = s.prompts;
    appended = s.appended;
    few = omega (arith, s.few, le);
    each = s.each;
  }

  pub Sends-trans :
      (k m : ℕ) {sent between after : List Text}
      → Sends P k sent between
      → Sends P m between after
      → Sends P (k + m) sent after
  Sends-trans k m {sent} s t = record {
    prompts = s.prompts ++ t.prompts;
    appended =
        t.appended ∙ (ap (λ l. l ++ t.prompts) s.appended ∙ append_assoc sent s.prompts t.prompts);
    few = omega (arith, s.few, t.few, length-append s.prompts t.prompts);
    each = All-append P s.prompts t.prompts s.each t.each;
  }

  pub Sends-complete :
      (model : TextModel) (prompt : Text) (sent : List Text)
      → P prompt
      → Sends P 1 sent (complete model prompt sent).1
  unfolding complete
  Sends-complete model prompt sent p = record {
    prompts = prompt ∷ [];
    appended = refl;
    few = omega arith;
    each = (p, tt);
  }

  -- The rest of a chain is run only where its first step has returned.
  pub Sends-bind :
      {A B : Type 0} (k m : ℕ) (act : Exec A) (next : A → Exec B) (sent : List Text)
      → Sends P k sent (act sent).1
      → ((a : A) → (act sent).0 ≡ ok a → Sends P m (act sent).1 (next a (act sent).1).1)
      → Sends P (k + m) sent ((act >>= next) sent).1
  Sends-bind {A} {B} k m act next sent first rest = settled (act sent).0 refl
    where
      settled :
          (r : Result A) → (act sent).0 ≡ r → Sends P (k + m) sent (continue r next (act sent).1).1
      settled (ok a) same = Sends-trans k m first (rest a same)
      settled (err e) same = Sends-more (k + m) (omega arith) first

  -- A pure step in front sends nothing.
  pub Sends-lift :
      {A B : Type 0} (m : ℕ) (r : Result A) (next : A → Exec B) (sent : List Text)
      → ((a : A) → r ≡ ok a → Sends P m sent (next a sent).1)
      → Sends P m sent ((lift r >>= next) sent).1
  Sends-lift m (ok a) next sent rest = rest a refl
  Sends-lift m (err e) next sent rest = Sends-none m sent

  pub Sends-if :
      {A : Type 0} (m : ℕ) (test : Bool) (yes_branch no_branch : Exec A) (sent : List Text)
      → (test ≡ true → Sends P m sent (yes_branch sent).1)
      → (test ≡ false → Sends P m sent (no_branch sent).1)
      → Sends P m sent ((if test then yes_branch else no_branch) sent).1
  Sends-if m true y n sent f g = f refl
  Sends-if m false y n sent f g = g refl
