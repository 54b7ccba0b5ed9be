-- ===== src/Tagged/Feedback/Basis.antt =====
-- The Basis that `_normalize_feedback_output` gives a block (service.py).
use mathlib.Core.Path.{subst}
use chora_mem.Prelude.{
  Bool, true, false, not, List, [], ◌∷◌, Option, none, some, some-eq, elem, select, select-passes,
  select-All, is_empty, lookup, distinct-Nodup, All, All-of_elem, Nodup, Bool-cases, ◌⊎◌, inl, inr,
  ◌||◌, nat_eq, list_eq, ◌==◌, ◌≡◌, ◌≢◌, refl, arith,
}
use chora_mem.Text.{Text}
use chora_mem.Tagged.Window.{ordered_unique}
use chora_mem.Tagged.Feedback.Unique.{
  named_refs, ordered_unique-All, ordered_unique-elem, All-map, All-both,
}
use chora_mem.Tagged.Feedback.{
  Block, Offer, reenact_op, require, paired_items, is_paired, bound_basis, ◌>>=◌, ◌>>◌,
}

abbrev IsIn : List Text → Text → Type 0
IsIn refs ref = elem ref refs ≡ true

-- an Outcome that the model chose and its offered Episode, one of which is the ref and both of which
-- satisfy a predicate
pub record IsPaired (offer : Offer) (chosen : List Text) (P : Text → Type 0) (ref : Text)
    : Type 0 where
  pub outcome : Text
  pub episode : Text
  pub outcome_chosen : elem outcome chosen ≡ true
  pub of_outcome : lookup outcome offer.outcomes ≡ some episode
  pub episode_offered : elem episode offer.episodes ≡ true
  pub one_of_them : (ref ≡ episode) ⊎ (ref ≡ outcome)
  pub both : P episode × P outcome

abbrev pub IsKept : List Text → Text → Type 0
IsKept refs ref = (is_empty ref ≡ true) ⊎ (elem ref refs ≡ true)

-- A ref of a Basis `refs`: for REENACT an offered Episode that the model chose, else one of a pair
-- that is cited together.
abbrev pub IsCited : Offer → Block → List Text → Text → Type 0
IsCited offer block refs ref =
    ((block.operation ≡ reenact_op)
      × (elem ref offer.episodes ≡ true)
      × (elem ref block.basis ≡ true))
    ⊎ ((block.operation ≢ reenact_op) × IsPaired offer block.basis (IsKept refs) ref)

chosen_of : (p : Text → Bool) (written : List Text) → All (IsIn written) (select p written)
chosen_of p written =
    select-All (IsIn written) p written (All-of_elem (IsIn written) written (λ ref m. m))

pub bind-eq-some {ℓ κ} :
    {A : Type ℓ} {B : Type κ} (m : Option A) (f : A → Option B) {b : B}
    → (m >>= f) ≡ some b
    → (a : A) × (m ≡ some a) × (f a ≡ some b)
bind-eq-some none f h = cc
bind-eq-some (some a) f h = (a, refl, h)

pub require-eq-some {ℓ} :
    {B : Type ℓ} (test : Bool) (k : Option B) {b : B}
    → (require test >> k) ≡ some b
    → (test ≡ true) × (k ≡ some b)
require-eq-some true k h = (refl, h)
require-eq-some false k h = cc

true-ne-false : {b : Bool} → b ≡ false → b ≡ true → ⊥
true-ne-false h k = cc

elem-later : (a b ref : Text) (l : List Text) → elem ref l ≡ true → elem ref (a ∷ b ∷ l) ≡ true
elem-later a b ref l m = ground (arith, m)

elem-second : (a b : Text) (l : List Text) → elem b (a ∷ b ∷ l) ≡ true
elem-second a b l = elem-later_one (a == b) (b == b) (elem b l) ((list_eq.beq_iff b b).1 refl)
  where
    elem-later_one : (p q r : Bool) → q ≡ true → (p || (q || r)) ≡ true
    elem-later_one p q r h = ground (arith, h)

module _ (offer : Offer) (written : List Text) where
  paired_items-IsPaired :
      (all chosen : List Text) {items : List Text}
      → All (IsIn written) chosen
      → paired_items offer chosen ≡ some items
      → ((ref : Text) → elem ref items ≡ true → elem ref all ≡ true)
      → All (IsPaired offer written (IsIn all)) items
  unfolding paired_items
  paired_items-IsPaired all [] c h among =
      subst (All (IsPaired offer written (IsIn all))) (some-eq h) tt
  paired_items-IsPaired all (outcome ∷ chosen) {items} c h among =
      let (episode, paired, k0) = bind-eq-some (lookup outcome offer.outcomes) _ h in
      let (offered, k1) = require-eq-some (elem episode offer.episodes) _ k0 in
      let (rest, e, k2) = bind-eq-some (paired_items offer chosen) _ k1 in
      let whole : episode ∷ outcome ∷ rest ≡ items = some-eq k2 in
      let within : (ref : Text) → IsIn (episode ∷ outcome ∷ rest) ref → IsIn all ref =
        λ ref m. among ref (subst (λ (l : List Text). elem ref l ≡ true) whole m) in
      let both : IsIn all episode × IsIn all outcome = (
        within episode (rw ((list_eq.beq_iff episode episode).1 refl) refl),
        within outcome (elem-second episode outcome rest),
      ) in
      let pair = λ (ref : Text) (one : (ref ≡ episode) ⊎ (ref ≡ outcome)).
        let paired_ref : IsPaired offer written (IsIn all) ref = record {
          outcome = outcome;
          episode = episode;
          outcome_chosen = c.0;
          of_outcome = paired;
          episode_offered = offered;
          one_of_them = one;
          both = both;
        } in
        paired_ref in
      subst (All (IsPaired offer written (IsIn all))) whole (
        pair episode (inl refl),
        (
          pair outcome (inr refl),
          paired_items-IsPaired all chosen c.1 e
              (λ ref m. within ref (elem-later episode outcome ref rest m)),
        ),
      )

-- a pair stays cited when repeated and empty refs are dropped
IsPaired-IsKept :
    (offer : Offer) (written items : List Text) (ref : Text)
    → IsPaired offer written (IsIn items) ref
    → IsPaired offer written (IsKept (ordered_unique items)) ref
IsPaired-IsKept offer written items ref p = record {
  outcome = p.outcome;
  episode = p.episode;
  outcome_chosen = p.outcome_chosen;
  of_outcome = p.of_outcome;
  episode_offered = p.episode_offered;
  one_of_them = p.one_of_them;
  both =
      (ordered_unique-elem p.episode items p.both.0, ordered_unique-elem p.outcome items p.both.1);
}

-- The refs of a Basis are different, not empty, and cited.
pub record IsBasis (offer : Offer) (block : Block) (basis : List Text) : Type 0 where
  pub different : Nodup basis
  pub named : All (λ ref. is_empty ref ≡ false) basis
  pub cited : All (IsCited offer block basis) basis

ordered_unique-IsBasis :
    (offer : Offer) (block : Block) (refs : List Text)
    → All (IsCited offer block (ordered_unique refs)) refs
    → IsBasis offer block (ordered_unique refs)
unfolding ordered_unique
ordered_unique-IsBasis offer block refs h = record {
  different = distinct-Nodup (select (λ value. not (is_empty value)) refs);
  named = named_refs refs;
  cited = ordered_unique-All (IsCited offer block (ordered_unique refs)) refs h;
}

pub bound_basis-IsBasis :
    (offer : Offer) (block : Block) {basis : List Text}
    → bound_basis offer block ≡ some basis
    → IsBasis offer block basis
unfolding bound_basis
bound_basis-IsBasis offer block {basis} h = elim (Bool-cases (block.operation == reenact_op)) [
  | inl same ↦
      let offered = λ (ref : Text). elem ref offer.episodes in
      let refs = select offered block.basis in
      let whole : ordered_unique refs ≡ basis = some-eq (rw same at h) in
      let reenact = (list_eq.beq_iff block.operation reenact_op).0 same in
      subst (IsBasis offer block) whole (
        ordered_unique-IsBasis offer block refs (
          All-map refs (λ ref both. inl (reenact, both.0, both.1))
            (All-both (λ ref. offered ref ≡ true) (IsIn block.basis) refs
              (select-passes offered block.basis) (chosen_of offered block.basis))))
  | inr other ↦
      let paired = select (is_paired offer) block.basis in
      let chosen = ordered_unique paired in
      let (items, e, k) = bind-eq-some (paired_items offer chosen) _ (rw other at h) in
      let whole : ordered_unique items ≡ basis = some-eq k in
      let differs : block.operation ≢ reenact_op =
        λ same. true-ne-false other ((list_eq.beq_iff block.operation reenact_op).1 same) in
      let within =
        ordered_unique-All (IsIn block.basis) paired (chosen_of (is_paired offer) block.basis) in
      subst (IsBasis offer block) whole (
        ordered_unique-IsBasis offer block items (
          All-map items (λ ref p. inr (differs, IsPaired-IsKept offer block.basis items ref p))
            (paired_items-IsPaired offer block.basis items chosen within e (λ ref m. m))))
]
