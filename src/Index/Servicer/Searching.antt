-- ===== src/Index/Servicer/Searching.antt =====
-- What `Search` finds (local_memory_index.py).
use mathlib.Core.Path.{subst}
use chora_mem.Prelude.{
  ℕ, zero, suc, ◌+◌, ◌≤◌, ◌<◌, Bool, true, false, ◌&&◌, ◌||◌, not, List, [], ◌∷◌, ◌++◌, Option, All,
  elem, Nodup, map, count, length, is_empty, ltb, eqb, nat_eq, list_eq, pair_eq, ◌==◌,
  if◌then◌else◌, ◌≡◌, refl, sym, ap, ◌∙◌, arith,
}
use chora_mem.Text.{Text, strip}
use chora_mem.Text.Unicode.{is_space}
use chora_mem.Text.Lines.{All-imp}
use chora_mem.Result.{Result, ok, err, bind-eq-ok, ◌>>=◌, raise_if-eq-ok}
use chora_mem.Index.Chunks.{chunk_text, chunk_tokens, overlap_tokens}
use chora_mem.Index.Ranking.{Identity, identity_of, Ranked}
use chora_mem.Index.Ranking.Best.{entries, zip_row, pair_of}
use chora_mem.Index.Ranking.Order.{IsRanking, ranked_identity}
use chora_mem.Index.Ranking.Least.{rank_unique_candidates-IsRanking}
use chora_mem.Index.Store.{
  IndexScope, Stored, scoped, exact, in_scope, metadata_beq, matches, Collection,
}
use chora_mem.Index.Servicer.{
  Engine, Query, IndexCandidate, IndexState, metadata_of, shown, rank_exact_cosine_candidates,
  search_ranked, search, searched, is_authorized, invalid_token,
}
use chora_mem.Index.Servicer.Scopes.{get-matches}

ok-eq : {A : Type 0} {a b : A} → ok a ≡ ok b → a ≡ b
ok-eq h = cc h

module _ {V : Type 0} where
  abbrev pub identities : List (Stored V) → List Identity
  identities found = map (λ (c : Stored V). identity_of c.chunk_metadata) found

  -- What the candidates of a search are: of different documents, few, and each of a document that
  -- has a chunk in the scope.
  pub record Answers (scope : IndexScope) (limit : ℕ) (found : List (Stored V))
      (candidates : List IndexCandidate) : Type 0 where
    pub few : length candidates ≤ limit
    pub unique : Nodup candidates
    pub stored : All (λ a. 0 < count (matches (exact (metadata_of scope a.0 a.1))) found) candidates

  elem-identities :
      (id : Identity) (d : ℕ) (cs : List (Stored V)) (ds : List ℕ)
      → elem (id, d) (map pair_of (zip_row (map (λ (c : Stored V). c.chunk_metadata) cs) ds ++ []))
        ≡ true
      → elem id (identities cs) ≡ true
  elem-identities id d [] ds h = cc h
  elem-identities id d (c ∷ cs) [] h = cc h
  elem-identities id d (c ∷ cs) (e ∷ ds) h =
      step (identity_of c.chunk_metadata == id) (eqb e d) _ _ h (elem-identities id d cs ds)
    where
      step : (a b r t : Bool) → ((a && b) || r) ≡ true → (r ≡ true → t ≡ true) → (a || t) ≡ true
      step true b r t h f = refl
      step false b r t h f = f h

  document-stored :
      (scope : IndexScope) (a : IndexCandidate) (found : List (Stored V))
      → elem a (identities found) ≡ true
      → count (λ c. not (matches (scoped scope) c)) found ≡ 0
      → 0 < count (matches (exact (metadata_of scope a.0 a.1))) found
  document-stored scope a [] h g = cc h
  document-stored scope a (c ∷ cs) h g =
      let m = c.chunk_metadata.metadata in
      step (identity_of c.chunk_metadata == a) (in_scope scope m)
        (metadata_beq (metadata_of scope a.0 a.1) m) h g
        (λ same here.
          ap (λ (id : Identity). in_scope scope m && eqb id.0 m.kind && id.1 == m.ref)
            (sym ((pair_eq.beq_iff (identity_of c.chunk_metadata) a).0 same))
          ∙ own (in_scope scope m) m.kind m.ref here)
        (document-stored scope a cs)
    where
      own : (b : Bool) (k : ℕ) (r : Text) → b ≡ true → (b && eqb k k && r == r) ≡ true
      own b k r h =
          let same_kind = (nat_eq.beq_iff k k).1 refl in
          let same_ref = (list_eq.beq_iff r r).1 refl in ground (arith, h, same_kind, same_ref)

      step :
          {r : Bool} {n k : ℕ} (same here this : Bool)
          → (same || r) ≡ true
          → ((if not here then 1 else 0) + n) ≡ 0
          → (same ≡ true → here ≡ true → this ≡ true)
          → (r ≡ true → n ≡ 0 → 0 < k)
          → 0 < (if this then 1 else 0) + k
      step true true this h g f rest = rw (f refl refl) (omega arith)
      step true false this h g f rest = omega (arith, g)
      step {r} {n} {k} false here this h g f rest =
          let more = rest h (ground (arith, g)) in ground (arith, more)

length-map : {A B : Type 0} (f : A → B) (xs : List A) → length (map f xs) ≡ length xs
length-map f [] = refl
length-map f (x ∷ xs) = ap suc (length-map f xs)

shown-identity : (ranked : List Ranked) → map ranked_identity ranked ≡ map shown ranked
shown-identity [] = refl
shown-identity ((d, k, r) ∷ rest) = ap (λ x. (k, r) ∷ x) (shown-identity rest)

All-shown :
    (P : IndexCandidate → Type 0) (ranked : List Ranked)
    → All (λ r. P (ranked_identity r)) ranked
    → All P (map shown ranked)
All-shown P [] h = tt
All-shown P ((d, k, r) ∷ rest) h = (h.0, All-shown P rest h.1)

module _ {V : Type 0} (scope : IndexScope) (limit : ℕ) (found : List (Stored V)) where
  none-Answers :
      {ranked : List Ranked} → ok [] ≡ ok ranked → Answers scope limit found (map shown ranked)
  none-Answers h =
      subst (λ r. Answers scope limit found (map shown r)) (ok-eq h)
        (record { few = omega arith; unique = tt; stored = tt })

  IsRanking-Answers :
      (ds : List ℕ) (ranked : List Ranked)
      → count (λ c. not (matches (scoped scope) c)) found ≡ 0
      → IsRanking
          (entries (map (λ (c : Stored V). c.chunk_metadata) found ∷ []) (ds ∷ []))
          limit
          ranked
      → Answers scope limit found (map shown ranked)
  IsRanking-Answers ds ranked g r = record {
    few = let same = length-map shown ranked in let few = r.few in omega (arith, same, few);
    unique = subst Nodup (shown-identity ranked) r.unique;
    stored = All-shown _ ranked (
        All-imp _ _ ranked
          (λ a least.
            document-stored scope (ranked_identity a) found
              (elem-identities (ranked_identity a) a.0 found ds least.0) g)
          r.least);
  }

module _ {V : Type 0} (engine : Engine V) where
  rank_exact-Answers :
      (found : List (Stored V)) (queries : List V) (limit : ℕ) (scope : IndexScope)
      {ranked : List Ranked}
      → rank_exact_cosine_candidates engine found queries limit ≡ ok ranked
      → count (λ c. not (matches (scoped scope) c)) found ≡ 0
      → Answers scope limit found (map shown ranked)
  unfolding rank_exact_cosine_candidates
  rank_exact-Answers found queries zero scope h g = none-Answers scope 0 found h
  rank_exact-Answers [] queries (suc limit) scope h g = none-Answers scope (suc limit) [] h
  rank_exact-Answers (c ∷ found) queries (suc limit) scope {ranked} h g =
      let vectors = map (λ (x : Stored V). x.vector) (c ∷ found) in
      let (shape, h1) = raise_if-eq-ok (not (engine.same_shape vectors queries)) _ _ h in
      let (nonzero, h2) =
        raise_if-eq-ok (engine.has_zero vectors || engine.has_zero queries) _ _ h1 in
      IsRanking-Answers scope (suc limit) (c ∷ found) (engine.distances vectors queries) ranked g (
        rank_unique_candidates-IsRanking (map (λ (x : Stored V). x.chunk_metadata) (c ∷ found) ∷ [])
          (engine.distances vectors queries ∷ []) (suc limit) h2)

  search_ranked-Answers :
      (found : List (Stored V)) (query : Query) (scope : IndexScope) {ranked : List Ranked}
      → search_ranked engine found query ≡ ok ranked
      → count (λ c. not (matches (scoped scope) c)) found ≡ 0
      → Answers scope query.limit found (map shown ranked)
  unfolding search_ranked
  search_ranked-Answers found query scope {ranked} h g =
      tested
        (not (is_empty found) && ltb 0 query.limit && not (is_empty (strip is_space query.text))) h
    where
      tested :
          (test : Bool)
          → (if test
              then chunk_text chunk_tokens overlap_tokens (engine.offsets query.text) query.text
                >>= (λ chunks.
                    rank_exact_cosine_candidates engine found (map engine.embed chunks) query.limit)
              else ok [])
            ≡ ok ranked
          → Answers scope query.limit found (map shown ranked)
      tested true h =
          let (chunks, made, h1) =
            bind-eq-ok
              (chunk_text chunk_tokens overlap_tokens (engine.offsets query.text) query.text)
              (λ chunks.
                rank_exact_cosine_candidates engine found (map engine.embed chunks) query.limit)
              h in
          rank_exact-Answers found (map engine.embed chunks) query.limit scope h1 g
      tested false h = none-Answers scope query.limit found h

  -- The candidates of a search are of different documents, at most as many as the query allows, and
  -- each is a document of the query's scope that has a chunk in the collection; the caller is
  -- authorized, and a search changes nothing in the collection.
  pub search-Answers :
      (collection : Collection V) (token : Text) (supplied : Option Text) (query : Query)
      (state : IndexState engine collection) {candidates : List IndexCandidate}
      → (search engine collection token supplied query state).0 ≡ ok candidates
      → (is_authorized token supplied ≡ true)
        × ((search engine collection token supplied query state).1.contents ≡ state.contents)
        × Answers query.scope query.limit
            (collection.get state.contents (scoped query.scope))
            candidates
  unfolding search
  search-Answers collection token supplied query state {candidates} h =
      checked (is_authorized token supplied) (search_ranked engine found query) refl h
    where
      found : List (Stored V)
      found = collection.get state.contents (scoped query.scope)

      after :
          Bool → Result (List Ranked) → Result (List IndexCandidate) × IndexState engine collection
      after authorized r =
          if authorized
          then elim r as (λ x. Result (List IndexCandidate) × IndexState engine collection) [
            | err e ↦ (err e, state)
            | ok ranked ↦ (
              ok (map shown ranked),
              record {
                contents = state.contents;
                log =
                    state.log
                    ++ searched query.scope query.text query.limit (length found) ranked ∷ [];
              },
            )
          ]
          else (err invalid_token, state)

      checked :
          (authorized : Bool) (r : Result (List Ranked))
          → search_ranked engine found query ≡ r
          → (after authorized r).0 ≡ ok candidates
          → (authorized ≡ true)
            × ((after authorized r).1.contents ≡ state.contents)
            × Answers query.scope query.limit found candidates
      checked false r same h = cc h
      checked true (err e) same h = cc h
      checked true (ok ranked) same h = (
        refl,
        refl,
        subst (Answers query.scope query.limit found) (ok-eq h) (
            search_ranked-Answers found query query.scope same
              (get-matches engine collection state.contents (scoped query.scope))),
      )
