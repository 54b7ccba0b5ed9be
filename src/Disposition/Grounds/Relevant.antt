-- ===== src/Disposition/Grounds/Relevant.antt =====
-- The Episodes that `disposition_formation_material` takes as relevant (disposition_materials.py).
use mathlib.Core.Path.{subst}
use chora_mem.Prelude.{
  ◌≡◌, refl, Bool, false, true, ◌||◌, not, List, [], ◌∷◌, some, some-eq, any, is_empty, Nodup,
  has_duplicates-Nodup, All, ◌⊎◌, inl, inr, map, select, nat_eq, list_eq, ◌==◌,
}
use chora_mem.Text.{Text, codes}
use chora_mem.Wire.{EvidenceEpisode}
use chora_mem.Disposition.Formation.{has_formation_role, not_interaction, relevant_episodes}
use chora_mem.Disposition.Grounds.Steps.{if_none-eq-some, or-false_both, not-false}

abbrev pub session : EvidenceEpisode → Text
session e = e.session_ref

-- An Episode of an interaction, by its origin.
abbrev pub IsInteraction : EvidenceEpisode → Type 0
IsInteraction e = (e.origin ≡ codes "current") ⊎ (e.origin ≡ codes "related")

-- The relevant Episodes are the anchor and the candidates, all from different sessions.
pub record IsRelevant (episodes relevant : List EvidenceEpisode) : Type 0 where
  pub anchor : EvidenceEpisode
  pub candidates : List EvidenceEpisode
  pub all : relevant ≡ anchor ∷ candidates
  pub one_anchor : select (has_formation_role (codes "anchor")) episodes ≡ anchor ∷ []
  pub all_candidates : select (has_formation_role (codes "candidate")) episodes ≡ candidates
  pub repeated : is_empty candidates ≡ false
  pub current : anchor.origin ≡ codes "current"
  pub interactions : All IsInteraction candidates
  pub named : All (λ s. is_empty s ≡ false) (map session relevant)
  pub sessions : Nodup (map session relevant)

any-All : {A : Type 0} (p : A → Bool) (xs : List A) → any p xs ≡ false → All (λ x. p x ≡ false) xs
any-All p [] h = tt
any-All p (x ∷ xs) h =
    let (first, rest) = or-false_both (p x) (any p xs) h in (first, any-All p xs rest)

interaction_of :
    (p q : Bool) {A B : Type 0} → (p ≡ true → A) → (q ≡ true → B) → not (p || q) ≡ false → A ⊎ B
interaction_of true q f g h = inl (f refl)
interaction_of false true f g h = inr (g refl)
interaction_of false false f g h = cc

any-IsInteraction :
    (es : List EvidenceEpisode) → any not_interaction es ≡ false → All IsInteraction es
any-IsInteraction [] h = tt
any-IsInteraction (e ∷ es) h =
    let (first, rest) = or-false_both (not_interaction e) (any not_interaction es) h in
    (
      interaction_of (e.origin == codes "current") (e.origin == codes "related")
          (list_eq.beq_iff e.origin (codes "current")).0
          (list_eq.beq_iff e.origin (codes "related")).0 first,
      any-IsInteraction es rest,
    )

module _ (episodes : List EvidenceEpisode) {relevant : List EvidenceEpisode} where
  anchors-IsRelevant :
      (anchors : List EvidenceEpisode)
      → select (has_formation_role (codes "anchor")) episodes ≡ anchors
      → relevant_episodes episodes ≡ some relevant
      → IsRelevant episodes relevant
  unfolding relevant_episodes
  anchors-IsRelevant [] e h = cc (rw (e, relevant_episodes) at h)
  anchors-IsRelevant (anchor ∷ []) e h =
      let candidates = select (has_formation_role (codes "candidate")) episodes in
      let (valid, k) = if_none-eq-some _ (rw (e, relevant_episodes) at h) in
      let (four, distinct) = or-false_both _ _ valid in
      let (three, filled) = or-false_both _ _ four in
      let (two, origins) = or-false_both _ _ three in
      let (several, current) = or-false_both _ _ two in
      let same : anchor ∷ candidates ≡ relevant = some-eq k in
      subst (IsRelevant episodes) same (record {
        anchor = anchor;
        candidates = candidates;
        all = refl;
        one_anchor = e;
        all_candidates = refl;
        repeated = several;
        current = (list_eq.beq_iff anchor.origin (codes "current")).0 (not-false _ current);
        interactions = any-IsInteraction candidates origins;
        named = any-All is_empty (map session (anchor ∷ candidates)) filled;
        sessions = has_duplicates-Nodup (map session (anchor ∷ candidates)) distinct;
      })
  anchors-IsRelevant (anchor ∷ second ∷ more) e h = cc (rw (e, relevant_episodes) at h)

  pub relevant_episodes-IsRelevant :
      relevant_episodes episodes ≡ some relevant → IsRelevant episodes relevant
  relevant_episodes-IsRelevant h = anchors-IsRelevant _ refl h
