-- ===== src/Index/Ranking/Order.antt =====
-- What the ranking returns (local_memory_index.py).
use chora_mem.Prelude.{
  ℕ, zero, suc, ◌≤◌, Bool, true, false, ◌||◌, List, [], ◌∷◌, All, elem, Nodup, map, keys, length,
  nat_eq, list_eq, pair_eq, Eq, ◌==◌, Bool-cases, ◌≡◌, refl, ap, ◌∙◌, arith, inl, inr,
}
use chora_mem.Text.{Text}
use chora_mem.Index.Chunks.{take}
use chora_mem.Index.Ranking.{
  Identity, identity_of, Best, Candidate, compare_candidates, candidate_le, insert_sorted, sorted,
  candidate_of, Ranked, ranked_of,
}
use chora_mem.Index.Ranking.Best.{Entry, pair_of}

-- Where the identities are the same, the distance is not above the entry's.
abbrev pub NotAbove : Bool → ℕ → ℕ → Type 0
NotAbove true d n = d ≤ n
NotAbove false d n = Unit

-- The distance is one of the identity's, and the least of them.
abbrev pub IsLeast : List Entry → Identity → ℕ → Type 0
IsLeast es id d =
    (elem (id, d) (map pair_of es) ≡ true) × All (λ e. NotAbove (id == identity_of e.0) d e.1) es

abbrev pub IsOrdered : List Ranked → Type 0
IsOrdered [] = Unit
IsOrdered (r ∷ []) = Unit
IsOrdered (r ∷ s ∷ rest) = (r.0 ≤ s.0) × IsOrdered (s ∷ rest)

abbrev pub ranked_identity : Ranked → Identity
ranked_identity r = (r.1, r.2)

-- A ranking of the entries by distance, of the given length at most.
pub record IsRanking (es : List Entry) (limit : ℕ) (ranked : List Ranked) : Type 0 where
  pub few : length ranked ≤ limit
  pub ordered : IsOrdered ranked
  pub unique : Nodup (map ranked_identity ranked)
  pub least : All (λ r. IsLeast es (ranked_identity r) r.0) ranked

abbrev pub ids : List Candidate → List Identity
ids cs = map (λ c. ranked_identity (ranked_of c)) cs

abbrev pub AreOrdered : List Candidate → Type 0
AreOrdered [] = Unit
AreOrdered (c ∷ []) = Unit
AreOrdered (c ∷ d ∷ rest) = (c.0 ≤ d.0) × AreOrdered (d ∷ rest)

candidate_le-le : (a b : Candidate) → candidate_le a b ≡ true → a.0 ≤ b.0
unfolding compare_candidates
candidate_le-le (d, s, k, r) (d', s', k', r') h = ground (arith, h)

candidate_le-ge : (a b : Candidate) → candidate_le a b ≡ false → b.0 ≤ a.0
unfolding compare_candidates
candidate_le-ge (d, s, k, r) (d', s', k', r') h = ground (arith, h)

insert_sorted-AreOrdered :
    (x : Candidate) (cs : List Candidate) → AreOrdered cs → AreOrdered (insert_sorted x cs)
insert_sorted-AreOrdered x [] h = tt
insert_sorted-AreOrdered x (c ∷ []) h = elim (Bool-cases (candidate_le x c)) [
  | inl le ↦ rw le (candidate_le-le x c le, tt)
  | inr gt ↦ rw gt (candidate_le-ge x c gt, tt)
]
insert_sorted-AreOrdered x (c ∷ d ∷ rest) h = elim (Bool-cases (candidate_le x c)) [
  | inl le ↦ rw le (candidate_le-le x c le, h)
  | inr gt ↦ elim (Bool-cases (candidate_le x d)) [
    | inl le ↦ rw gt (rw le (candidate_le-ge x c gt, (candidate_le-le x d le, h.1)))
    | inr later ↦
        let rest_ordered = insert_sorted-AreOrdered x (d ∷ rest) h.1 in
        rw gt (rw later (h.0, rw later at rest_ordered))
  ]
]

pub sorted-AreOrdered : (cs : List Candidate) → AreOrdered (sorted cs)
sorted-AreOrdered [] = tt
sorted-AreOrdered (c ∷ cs) = insert_sorted-AreOrdered c (sorted cs) (sorted-AreOrdered cs)

insert_sorted-All :
    (P : Candidate → Type 0) (x : Candidate) (cs : List Candidate)
    → P x
    → All P cs
    → All P (insert_sorted x cs)
insert_sorted-All P x [] p h = (p, tt)
insert_sorted-All P x (c ∷ cs) p h = elim (Bool-cases (candidate_le x c)) [
  | inl le ↦ rw le (p, h)
  | inr gt ↦ rw gt (h.0, insert_sorted-All P x cs p h.1)
]

pub sorted-All : (P : Candidate → Type 0) (cs : List Candidate) → All P cs → All P (sorted cs)
sorted-All P [] h = tt
sorted-All P (c ∷ cs) h = insert_sorted-All P c (sorted cs) h.0 (sorted-All P cs h.1)

or_swap : (p q r : Bool) → (p || (q || r)) ≡ (q || (p || r))
or_swap p q r = ground arith

elem-insert_sorted :
    (a : Identity) (x : Candidate) (cs : List Candidate)
    → elem a (ids (insert_sorted x cs)) ≡ elem a (ids (x ∷ cs))
elem-insert_sorted a x [] = refl
elem-insert_sorted a x (c ∷ cs) = elim (Bool-cases (candidate_le x c)) [
  | inl le ↦ rw le
  | inr gt ↦ rw gt (
      ap (λ b. ranked_identity (ranked_of c) == a || b) (elem-insert_sorted a x cs)
      ∙ or_swap (ranked_identity (ranked_of c) == a) (ranked_identity (ranked_of x) == a)
          (elem a (ids cs)))
]

beq_sym : {A : Type 0} ⦃e : Eq A⦄ (x y : A) → (x == y) ≡ false → (y == x) ≡ false
beq_sym ⦃e⦄ x y h = ground (arith, e.beq_iff x y, e.beq_iff y x, h)

or-both : (p q : Bool) → (p || q) ≡ false → (p ≡ false) × (q ≡ false)
or-both p q h = ground arith

or-none : (p q : Bool) → p ≡ false → q ≡ false → (p || q) ≡ false
or-none p q h g = ground arith

insert_sorted-Nodup :
    (x : Candidate) (cs : List Candidate)
    → elem (ranked_identity (ranked_of x)) (ids cs) ≡ false
    → Nodup (ids cs)
    → Nodup (ids (insert_sorted x cs))
insert_sorted-Nodup x [] n u = (n, u)
insert_sorted-Nodup x (c ∷ cs) n u = elim (Bool-cases (candidate_le x c)) [
  | inl le ↦ rw le (n, u)
  | inr gt ↦
      let xi = ranked_identity (ranked_of x) in
      let ci = ranked_identity (ranked_of c) in
      let (differ, fresh) = or-both (ci == xi) (elem xi (ids cs)) n in
      rw gt (
        elem-insert_sorted ci x cs
            ∙ or-none (xi == ci) (elem ci (ids cs)) (beq_sym ci xi differ) u.0,
        insert_sorted-Nodup x cs fresh u.1,
      )
]

elem-sorted : (a : Identity) (cs : List Candidate) → elem a (ids (sorted cs)) ≡ elem a (ids cs)
elem-sorted a [] = refl
elem-sorted a (c ∷ cs) =
    elem-insert_sorted a c (sorted cs)
    ∙ ap (λ b. ranked_identity (ranked_of c) == a || b) (elem-sorted a cs)

pub sorted-Nodup : (cs : List Candidate) → Nodup (ids cs) → Nodup (ids (sorted cs))
sorted-Nodup [] u = tt
sorted-Nodup (c ∷ cs) u =
    insert_sorted-Nodup c (sorted cs) (elem-sorted (ranked_identity (ranked_of c)) cs ∙ u.0)
      (sorted-Nodup cs u.1)

elem-take :
    (a : Identity) (n : ℕ) (cs : List Candidate)
    → elem a (ids cs) ≡ false
    → elem a (ids (take n cs)) ≡ false
elem-take a zero cs h = refl
elem-take a (suc n) [] h = refl
elem-take a (suc n) (c ∷ cs) h =
    let (differ, fresh) = or-both (ranked_identity (ranked_of c) == a) (elem a (ids cs)) h in
    or-none (ranked_identity (ranked_of c) == a) _ differ (elem-take a n cs fresh)

pub take-Nodup : (n : ℕ) (cs : List Candidate) → Nodup (ids cs) → Nodup (ids (take n cs))
take-Nodup zero cs u = tt
take-Nodup (suc n) [] u = tt
take-Nodup (suc n) (c ∷ cs) u = (elem-take _ n cs u.0, take-Nodup n cs u.1)

pub take-All : (P : Candidate → Type 0) (n : ℕ) (cs : List Candidate) → All P cs → All P (take n cs)
take-All P zero cs h = tt
take-All P (suc n) [] h = tt
take-All P (suc n) (c ∷ cs) h = (h.0, take-All P n cs h.1)

pub take-AreOrdered : (n : ℕ) (cs : List Candidate) → AreOrdered cs → AreOrdered (take n cs)
take-AreOrdered zero cs h = tt
take-AreOrdered (suc n) [] h = tt
take-AreOrdered (suc zero) (c ∷ cs) h = tt
take-AreOrdered (suc (suc n)) (c ∷ []) h = tt
take-AreOrdered (suc (suc n)) (c ∷ d ∷ cs) h = (h.0, take-AreOrdered (suc n) (d ∷ cs) h.1)

pub length-take : (n : ℕ) (cs : List Candidate) → length (map ranked_of (take n cs)) ≤ n
length-take zero cs = omega arith
length-take (suc n) [] = omega arith
length-take (suc n) (c ∷ cs) = omega (arith, length-take n cs)

pub IsOrdered-map : (cs : List Candidate) → AreOrdered cs → IsOrdered (map ranked_of cs)
IsOrdered-map [] h = tt
IsOrdered-map (c ∷ []) h = tt
IsOrdered-map (c ∷ d ∷ cs) h = (h.0, IsOrdered-map (d ∷ cs) h.1)

pub identities-map : (cs : List Candidate) → map ranked_identity (map ranked_of cs) ≡ ids cs
identities-map [] = refl
identities-map (c ∷ cs) = ap (◌∷◌ (ranked_identity (ranked_of c))) (identities-map cs)

pub ids-keys : (best : Best) → ids (map candidate_of best) ≡ keys best
ids-keys [] = refl
ids-keys (((kind, ref), value) ∷ best) = ap (◌∷◌ (kind, ref)) (ids-keys best)

pub All-ranked :
    (P : Ranked → Type 0) (cs : List Candidate)
    → All (λ c. P (ranked_of c)) cs
    → All P (map ranked_of cs)
All-ranked P [] h = tt
All-ranked P (c ∷ cs) h = (h.0, All-ranked P cs h.1)

abbrev pub IsLeastEntry : List Entry → Identity × (ℕ × Text) → Type 0
IsLeastEntry es entry = IsLeast es entry.0 entry.1.0

pub All-candidates :
    (es : List Entry) (best : Best)
    → All (IsLeastEntry es) best
    → All (λ c. IsLeast es (ranked_identity (ranked_of c)) (ranked_of c).0) (map candidate_of best)
All-candidates es [] h = tt
All-candidates es (((kind, ref), (d, semantic)) ∷ best) h = (h.0, All-candidates es best h.1)
