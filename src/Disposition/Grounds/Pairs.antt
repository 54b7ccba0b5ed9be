-- ===== src/Disposition/Grounds/Pairs.antt =====
-- The table of Outcomes that `disposition_formation_material` fills (disposition_materials.py).
use mathlib.Core.Path.{subst}
use mathlib.Core.List.{Mem, mem-cons_self, mem-cons_of_mem}
use chora_mem.Prelude.{
  ℕ, ◌+◌, ◌≤◌, ◌≡◌, ◌≢◌, refl, sym, Bool, true, false, ◌||◌, not, List, [], ◌∷◌, Option, none, some,
  some-eq, elem, is_empty, All, lookup, count, arith, Bool-cases, ◌⊎◌, inl, inr, nat_eq, list_eq,
  ◌==◌, if◌then◌else◌,
}
use chora_mem.Text.{Text, codes, strip}
use chora_mem.Text.Unicode.{is_space}
use chora_mem.Wire.{EvidenceOutcome}
use chora_mem.Disposition.Formation.{Paired, is_some, pair_outcomes}
use chora_mem.Disposition.Grounds.Steps.{or-false_both}

-- An entry of the table: the Outcome of an Episode, with a text, that no agent gave.
pub record Heard (outcomes : List EvidenceOutcome) (episode_ref ref text : Text) : Type 0 where
  pub outcome : EvidenceOutcome
  pub recorded : Mem outcome outcomes
  pub of_episode : outcome.episode_ref ≡ episode_ref
  pub reference : outcome.outcome_ref ≡ ref
  pub named : is_empty ref ≡ false
  pub words : strip is_space outcome.text ≡ text
  pub said : is_empty text ≡ false
  pub someone : is_empty outcome.actor_kind ≡ false
  pub no_agent : outcome.actor_kind ≢ codes "agent"

abbrev pub IsHeard : List EvidenceOutcome → Text × (Text × Text) → Type 0
IsHeard outcomes entry = Heard outcomes entry.0 entry.1.0 entry.1.1

pub lookup-IsHeard :
    (outcomes : List EvidenceOutcome) (k : Text) (paired : Paired) {found : Text × Text}
    → All (IsHeard outcomes) paired
    → lookup k paired ≡ some found
    → Heard outcomes k found.0 found.1
lookup-IsHeard outcomes k [] each h = cc
lookup-IsHeard outcomes k (entry ∷ paired) {found} each h = elim (Bool-cases (entry.0 == k)) [
  | inl same ↦
      let value : entry.1 ≡ found = some-eq (rw same at h) in
      subst (λ (v : Text × Text). Heard outcomes k v.0 v.1) value
        (subst (λ (j : Text). Heard outcomes j entry.1.0 entry.1.1)
          ((list_eq.beq_iff entry.0 k).0 same) each.0)
  | inr other ↦ lookup-IsHeard outcomes k paired each.1 (rw other at h)
]

passed_or_added :
    (p q : Bool) (skipped added : Option Paired) {table : Paired}
    → (if p then skipped else if q then none else added) ≡ some table
    → ((p ≡ true) × (skipped ≡ some table)) ⊎ ((q ≡ false) × (added ≡ some table))
passed_or_added true q skipped added h = inl (refl, h)
passed_or_added false true skipped added h = cc
passed_or_added false false skipped added h = inr (refl, h)

other_kind : (a b : Text) → (a == b) ≡ false → a ≢ b
other_kind a b h same = cc (h, (list_eq.beq_iff a b).1 same)

-- what the loop refuses of an Outcome for a relevant Episode
abbrev is_invalid : Paired → EvidenceOutcome → Bool
is_invalid paired outcome =
    is_empty outcome.outcome_ref
    || is_empty (strip is_space outcome.text)
    || is_empty outcome.actor_kind
    || outcome.actor_kind == codes "agent"
    || is_some (lookup outcome.episode_ref paired)

abbrev entry_of : EvidenceOutcome → Text × (Text × Text)
entry_of outcome = (outcome.episode_ref, (outcome.outcome_ref, strip is_space outcome.text))

-- One round of the loop passes an Outcome over, or enters it.
round :
    (relevant : List Text) (paired : Paired) (outcome : EvidenceOutcome)
    (rest : List EvidenceOutcome) {table : Paired}
    → pair_outcomes relevant paired (outcome ∷ rest) ≡ some table
    → ((not (elem outcome.episode_ref relevant) ≡ true)
        × (pair_outcomes relevant paired rest ≡ some table))
      ⊎ ((is_invalid paired outcome ≡ false)
          × (pair_outcomes relevant (entry_of outcome ∷ paired) rest ≡ some table))
unfolding pair_outcomes
round relevant paired outcome rest h =
    passed_or_added (not (elem outcome.episode_ref relevant)) (is_invalid paired outcome)
      (pair_outcomes relevant paired rest) (pair_outcomes relevant (entry_of outcome ∷ paired) rest)
      h

module _ (outcomes : List EvidenceOutcome) where
  entry-IsHeard :
      (paired : Paired) (outcome : EvidenceOutcome)
      → Mem outcome outcomes
      → is_invalid paired outcome ≡ false
      → IsHeard outcomes (entry_of outcome)
  entry-IsHeard paired outcome recorded valid =
      let (four, _) = or-false_both _ _ valid in
      let (three, no_agent) = or-false_both _ _ four in
      let (two, someone) = or-false_both _ _ three in
      let (named, said) = or-false_both _ _ two in
      record {
        outcome = outcome;
        recorded = recorded;
        of_episode = refl;
        reference = refl;
        named = named;
        words = refl;
        said = said;
        someone = someone;
        no_agent = other_kind outcome.actor_kind (codes "agent") no_agent;
      }

  pub pair_outcomes-IsHeard :
      (relevant : List Text) (paired : Paired) (rest : List EvidenceOutcome) {table : Paired}
      → ((o : EvidenceOutcome) → Mem o rest → Mem o outcomes)
      → All (IsHeard outcomes) paired
      → pair_outcomes relevant paired rest ≡ some table
      → All (IsHeard outcomes) table
  unfolding pair_outcomes
  pair_outcomes-IsHeard relevant paired [] among each h =
      subst (All (IsHeard outcomes)) (some-eq h) each
  pair_outcomes-IsHeard relevant paired (outcome ∷ rest) among each h =
      let later = λ (o : EvidenceOutcome) (m : Mem o rest). among o (mem-cons_of_mem outcome m) in
      elim (round relevant paired outcome rest h) [
        | inl (_, passed) ↦ pair_outcomes-IsHeard relevant paired rest later each passed
        | inr (valid, entered) ↦
            pair_outcomes-IsHeard relevant (entry_of outcome ∷ paired) rest later
              (entry-IsHeard paired outcome (among outcome mem-cons_self) valid, each) entered
      ]

-- how many Outcomes there are for an Episode
abbrev pub outcomes_of : Text → List EvidenceOutcome → ℕ
outcomes_of k = count (λ (o : EvidenceOutcome). o.episode_ref == k)

abbrev entries_of : Text → Paired → ℕ
entries_of k paired = if is_some (lookup k paired) then 1 else 0

module _ (relevant : List Text) (k : Text) (m : elem k relevant ≡ true) where
  other_episode : (ref : Text) → not (elem ref relevant) ≡ true → (ref == k) ≡ false
  other_episode ref out = elim (Bool-cases (ref == k)) [
    | inl same ↦
        let kept : elem ref relevant ≡ true =
          subst (λ (j : Text). elem j relevant ≡ true) (sym ((list_eq.beq_iff ref k).0 same)) m in
        cc (rw kept at out)
    | inr other ↦ other
  ]

  -- A new entry is for an Episode that had none.
  entered-le :
      (ref : Text) (value : Text × Text) (paired : Paired) (n : ℕ)
      → is_some (lookup ref paired) ≡ false
      → n + entries_of k ((ref, value) ∷ paired) ≤ 1
      → (if ref == k then 1 else 0) + n + entries_of k paired ≤ 1
  entered-le ref value paired n fresh le = elim (Bool-cases (ref == k)) [
    | inl same ↦
        let none_yet : is_some (lookup k paired) ≡ false =
          subst (λ (j : Text). is_some (lookup j paired) ≡ false) ((list_eq.beq_iff ref k).0 same)
            fresh in
        rw (same, none_yet) (let le' = rw same at le in omega (arith, le'))
    | inr other ↦ rw other (let le' = rw other at le in omega (arith, le'))
  ]

  pub pair_outcomes-outcomes_of :
      (paired : Paired) (rest : List EvidenceOutcome) {table : Paired}
      → pair_outcomes relevant paired rest ≡ some table
      → outcomes_of k rest + entries_of k paired ≤ 1
  unfolding pair_outcomes
  pair_outcomes-outcomes_of paired [] h = ground arith
  pair_outcomes-outcomes_of paired (outcome ∷ rest) h =
      elim (round relevant paired outcome rest h) [
        | inl (out, passed) ↦
            rw (other_episode outcome.episode_ref out)
              (omega (arith, pair_outcomes-outcomes_of paired rest passed))
        | inr (valid, entered) ↦
            let (_, fresh) = or-false_both _ _ valid in
            entered-le outcome.episode_ref (entry_of outcome).1 paired (outcomes_of k rest) fresh
              (pair_outcomes-outcomes_of (entry_of outcome ∷ paired) rest entered)
      ]
