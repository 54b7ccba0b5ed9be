-- ===== src/Index/Ranking.antt =====
-- The ranking of candidates (local_memory_index.py). A distance is a float that is not negative; it
-- stands as the natural number of its bit pattern, which has the same order.
pub mod Best
pub mod Order
pub mod Least
use Prim.Native.Nat.{Ordering, compare}
use chora_mem.Prelude.{
  ℕ, zero, suc, Bool, true, false, not, List, [], ◌∷◌, Option, none, some, map, lookup, assign, leb,
  ltb, eqb, nat_eq, list_eq, pair_eq, ◌==◌, if◌then◌else◌,
}
use chora_mem.Text.{Text, codes}
use chora_mem.Result.{Result, ok, err, value_error, ◌>>=◌}
use chora_mem.Index.Chunks.{take}

-- the metadata of a stored chunk
pub record Metadata : Type 0 where
  pub tenant : Text
  pub agent : Text
  pub relationship : Text
  pub kind : ℕ
  pub ref : Text

-- a chunk's metadata with the hash of its projection
pub record ChunkMetadata : Type 0 where
  pub metadata : Metadata
  pub chunk : ℕ
  pub semantic_sha256 : Text

abbrev pub Identity : Type 0
Identity = ℕ × Text

abbrev pub identity_of : ChunkMetadata → Identity
identity_of m = (m.metadata.kind, m.metadata.ref)

-- `best`: for each identity its least distance and its hash
abbrev pub Best : Type 0
Best = List (Identity × (ℕ × Text))

-- a candidate as the sort compares it: distance, hash, kind and ref
abbrev pub Candidate : Type 0
Candidate = ℕ × Text × ℕ × Text

-- the order of Python's `str`
abbrev pub compare_text : Text → Text → Ordering
compare_text [] [] = Ordering.eq
compare_text [] (d ∷ t) = Ordering.lt
compare_text (c ∷ s) [] = Ordering.gt
compare_text (c ∷ s) (d ∷ t) =
    let rest = compare_text s t in
    elim (compare c d) [
      | Ordering.lt ↦ Ordering.lt
      | Ordering.eq ↦ rest
      | Ordering.gt ↦ Ordering.gt
    ]

abbrev pub and_then : Ordering → Ordering → Ordering
and_then Ordering.eq later = later
and_then Ordering.lt later = Ordering.lt
and_then Ordering.gt later = Ordering.gt

-- the order of the tuples
unfoldable pub compare_candidates : Candidate → Candidate → Ordering
compare_candidates (d, s, k, r) (d', s', k', r') =
    and_then (compare d d')
      (and_then (compare_text s s') (and_then (compare k k') (compare_text r r')))

abbrev pub at_most : Ordering → Bool
at_most Ordering.gt = false
at_most Ordering.eq = true
at_most Ordering.lt = true

abbrev pub candidate_le : Candidate → Candidate → Bool
candidate_le a b = at_most (compare_candidates a b)

abbrev pub insert_sorted : Candidate → List Candidate → List Candidate
insert_sorted x [] = x ∷ []
insert_sorted x (y ∷ ys) = if candidate_le x y then x ∷ y ∷ ys else y ∷ insert_sorted x ys

-- `sorted(...)`
abbrev pub sorted : List Candidate → List Candidate
sorted [] = []
sorted (x ∷ xs) = insert_sorted x (sorted xs)

-- one round of the loop
unfoldable pub improve : Best → ChunkMetadata → ℕ → Result Best
improve best m distance = elim (lookup (identity_of m) best) [
  | none ↦ ok (assign (identity_of m) (distance, m.semantic_sha256) best)
  | some (previous, semantic) ↦
      if not (semantic == m.semantic_sha256)
      then err (value_error (codes "one indexed identity has conflicting semantic hashes"))
      else if ltb distance previous
      then ok (assign (identity_of m) (distance, m.semantic_sha256) best)
      else ok best
]

-- a row of metadata with the row of its distances, by `zip(..., strict=True)`
unfoldable pub collect_row : Best → List ChunkMetadata → List ℕ → Result Best
unfolding improve
collect_row best [] [] = ok best
collect_row best (m ∷ ms) (d ∷ ds) = do better ← improve best m d; collect_row better ms ds
collect_row best _ _ = err (value_error (codes "zip() arguments have different lengths"))

unfoldable pub collect_rows : Best → List (List ChunkMetadata) → List (List ℕ) → Result Best
unfolding collect_row
collect_rows best [] [] = ok best
collect_rows best (ms ∷ mss) (ds ∷ dss) = do
  better ← collect_row best ms ds
  collect_rows better mss dss
collect_rows best _ _ = err (value_error (codes "zip() arguments have different lengths"))

abbrev pub candidate_of : Identity × (ℕ × Text) → Candidate
candidate_of ((kind, ref), (distance, semantic)) = (distance, semantic, kind, ref)

-- distance, kind and ref of a candidate that is returned
abbrev pub Ranked : Type 0
Ranked = ℕ × ℕ × Text

abbrev pub ranked_of : Candidate → Ranked
ranked_of (distance, semantic, kind, ref) = (distance, kind, ref)

unfoldable pub rank_unique_candidates :
    List (List ChunkMetadata) → List (List ℕ) → ℕ → Result (List Ranked)
unfolding collect_rows compare_candidates
rank_unique_candidates metadatas distances zero = ok []
rank_unique_candidates metadatas distances (suc limit) = do
  best ← collect_rows [] metadatas distances
  ok (map ranked_of (take (suc limit) (sorted (map candidate_of best))))
