-- ===== src/Index/Ranking/Least.antt =====
-- The ranking that `rank_unique_candidates` returns (local_memory_index.py).
use mathlib.Core.Path.{subst}
use chora_mem.Prelude.{
  ℕ, zero, suc, Bool, true, false, List, [], ◌∷◌, some, All, Nodup, map, lookup, lookup-entries,
  nat_eq, list_eq, pair_eq, ◌==◌, ◌≡◌, refl, sym, ap, ◌∙◌, arith,
}
use chora_mem.Text.{Text}
use chora_mem.Text.Lines.{All-imp}
use chora_mem.Result.{ok, bind-eq-ok}
use chora_mem.Index.Chunks.{take}
use chora_mem.Index.Ranking.{
  ChunkMetadata, Identity, identity_of, Best, sorted, collect_rows, candidate_of, Ranked, ranked_of,
  rank_unique_candidates,
}
use chora_mem.Index.Ranking.Best.{
  Entry, entries, pair_of, Dominates, IsAtMost, IsTable, collect_rows-IsTable,
}
use chora_mem.Index.Ranking.Order.{
  NotAbove, IsLeastEntry, IsRanking, sorted-AreOrdered, sorted-All, sorted-Nodup, take-Nodup,
  take-All, take-AreOrdered, length-take, IsOrdered-map, identities-map, ids-keys, All-ranked,
  All-candidates,
}

not_above :
    (best : Best) (id : Identity) (value : ℕ × Text) (e : Entry)
    → lookup id best ≡ some value
    → Dominates best e
    → NotAbove (id == identity_of e.0) value.0 e.1
not_above best id value e found dom = tested (id == identity_of e.0) refl
  where
    tested : (test : Bool) → (id == identity_of e.0) ≡ test → NotAbove test value.0 e.1
    tested true same =
        subst (λ o. IsAtMost o e.1)
          (ap (λ x. lookup x best) (sym ((pair_eq.beq_iff id (identity_of e.0)).0 same)) ∙ found)
          dom
    tested false differ = tt

All-both :
    {A : Type 0} (P Q : A → Type 0) (xs : List A) → All P xs → All Q xs → All (λ x. P x × Q x) xs
All-both P Q [] p q = tt
All-both P Q (x ∷ xs) p q = ((p.0, q.0), All-both P Q xs p.1 q.1)

table-IsLeast :
    (es : List Entry) (best : Best)
    → IsTable (map pair_of es) best
    → All (Dominates best) es
    → All (IsLeastEntry es) best
table-IsLeast es best t covers = All-both _ _ best t.attained (
    All-imp _ _ best
      (λ entry found. All-imp _ _ es (λ e dom. not_above best entry.0 entry.1 e found dom) covers)
      (lookup-entries best t.unique))

ok-eq : {A : Type 0} {a b : A} → ok a ≡ ok b → a ≡ b
ok-eq h = cc h

best-IsRanking :
    (es : List Entry) (limit : ℕ) (best : Best)
    → IsTable (map pair_of es) best
    → All (Dominates best) es
    → IsRanking es limit (map ranked_of (take limit (sorted (map candidate_of best))))
best-IsRanking es limit best t covers =
    let all = sorted (map candidate_of best) in
    record {
      few = length-take limit all;
      ordered =
          IsOrdered-map (take limit all)
            (take-AreOrdered limit all (sorted-AreOrdered (map candidate_of best)));
      unique = subst Nodup (sym (identities-map (take limit all))) (
          take-Nodup limit all
            (sorted-Nodup (map candidate_of best) (subst Nodup (sym (ids-keys best)) t.unique)));
      least = All-ranked _ (take limit all) (
          take-All _ limit all (
            sorted-All _ (map candidate_of best)
              (All-candidates es best (table-IsLeast es best t covers))));
    }

-- The candidates that are returned are at most `limit`, ordered by distance, and all of different
-- identities; the distance of each is that of some chunk with its identity, and no chunk with its
-- identity is nearer.
pub rank_unique_candidates-IsRanking :
    (metadatas : List (List ChunkMetadata)) (distances : List (List ℕ)) (limit : ℕ)
    {ranked : List Ranked}
    → rank_unique_candidates metadatas distances limit ≡ ok ranked
    → IsRanking (entries metadatas distances) limit ranked
unfolding rank_unique_candidates
rank_unique_candidates-IsRanking metadatas distances zero h =
    subst (IsRanking (entries metadatas distances) 0) (ok-eq h)
      (record { few = omega arith; ordered = tt; unique = tt; least = tt })
rank_unique_candidates-IsRanking metadatas distances (suc limit) h =
    let (best, made, h1) = bind-eq-ok (collect_rows [] metadatas distances) _ h in
    let (t, covers) = collect_rows-IsTable metadatas distances made in
    subst (IsRanking (entries metadatas distances) (suc limit)) (ok-eq h1)
      (best-IsRanking (entries metadatas distances) (suc limit) best t covers)
