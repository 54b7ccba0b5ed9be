-- ===== src/Tests/Upserts.antt =====
-- The theorems about the index at two documents of different relationships.
use chora_mem.Prelude.{
  ℕ, true, ◌&&◌, List, [], ◌∷◌, some, All, all, ◌≡◌, refl, arith, ◌⊎◌, nat_eq, list_eq,
}
use chora_mem.Text.{Text, codes, strip}
use chora_mem.Text.Unicode.{is_space}
use chora_mem.Result.{ok}
use chora_mem.Index.Chunks.{chunk_spans, chunk_text}
use chora_mem.Index.Chunks.Coverage.{IsSpan, HoldsToken, AreLinked, chunk_spans-covers}
use chora_mem.Index.Projection.{kind_episode, semantic_index_text}
use chora_mem.Index.Projection.Renaming.{episode_text, semantic_index_text-refs}
use chora_mem.Index.Ranking.{
  ChunkMetadata, Ranked, rank_unique_candidates, collect_rows, collect_row, improve,
  compare_candidates,
}
use chora_mem.Index.Ranking.Best.{entries}
use chora_mem.Index.Ranking.Order.{IsRanking}
use chora_mem.Index.Ranking.Least.{rank_unique_candidates-IsRanking}
use chora_mem.Index.Store.{IndexScope, scoped, SameItems}
use chora_mem.Index.Servicer.{
  IndexDocument, IndexState, Query, metadata_of, is_authorized, is_valid_document, upsert, delete,
  search, prepare_all, prepare, write_all, write, search_ranked, rank_exact_cosine_candidates,
}
use chora_mem.Index.Servicer.Scopes.{IsWellKept}
use chora_mem.Index.Servicer.Refinement.{
  Refines, put_documents, clear_documents, shelf_of, upsert-Refines, delete-Refines,
}
use chora_mem.Index.Servicer.Guards.{succeeds, upsert-atomic, upsert-outside}
use chora_mem.Index.Servicer.Searching.{Answers, search-Answers}
use chora_mem.Tests.Indexes.{chunks, engine, engine-IsCollisionFree}

abbrev scope_of : Text → IndexScope
scope_of relationship = record {
  tenant_ref = codes "t1";
  agent_ref = codes "a1";
  relationship_ref = relationship;
}

abbrev ours : IndexScope
ours = scope_of (codes "r1")

abbrev theirs : IndexScope
theirs = scope_of (codes "r2")

abbrev document : IndexScope → Text → IndexDocument
document scope text = record { scope = scope; kind = 2; ref = codes "m1"; text = text }

abbrev empty_index : IndexState engine chunks
empty_index = record { contents = []; log = [] }

abbrev token : Text
token = codes "secret"

upsert-Refines_example :
    Refines engine chunks
      (upsert engine chunks token (some token) (document ours (codes "tea") ∷ []) empty_index)
      (put_documents engine
        (is_authorized token (some token))
        (document ours (codes "tea") ∷ [])
        (shelf_of engine chunks []))
upsert-Refines_example =
    upsert-Refines engine chunks engine-IsCollisionFree token (some token)
      (document ours (codes "tea") ∷ []) empty_index (λ w. refl)

-- the index with one document
abbrev one_document : IndexState engine chunks
one_document =
    (upsert engine chunks token (some token) (document ours (codes "tea") ∷ []) empty_index).1

one_document-IsWellKept : IsWellKept engine chunks one_document.contents
one_document-IsWellKept =
    (upsert-Refines engine chunks engine-IsCollisionFree token (some token)
      (document ours (codes "tea") ∷ []) empty_index (λ w. refl)).kept

delete-Refines_example :
    Refines engine chunks
      (delete engine chunks token (some token) ours ((2, codes "m1") ∷ []) one_document)
      (clear_documents engine
        (is_authorized token (some token))
        ours
        ((2, codes "m1") ∷ [])
        (shelf_of engine chunks one_document.contents))
delete-Refines_example =
    delete-Refines engine chunks token (some token) ours ((2, codes "m1") ∷ []) one_document
      one_document-IsWellKept

upsert-atomic_example :
    (succeeds
        (upsert engine chunks token
          (some token)
          (document ours (codes "tea") ∷ document ours [] ∷ [])
          one_document).0
      ≡ (is_authorized token (some token)
          && all is_valid_document (document ours (codes "tea") ∷ document ours [] ∷ [])))
    × (((is_authorized token (some token)
            && all is_valid_document (document ours (codes "tea") ∷ document ours [] ∷ []))
          ≡ true)
        ⊎ ((upsert engine chunks token
              (some token)
              (document ours (codes "tea") ∷ document ours [] ∷ [])
              one_document).1
            ≡ one_document))
upsert-atomic_example =
    upsert-atomic engine chunks token (some token)
      (document ours (codes "tea") ∷ document ours [] ∷ []) one_document

upsert-outside_example :
    SameItems
      (chunks.get
        (upsert engine chunks token
          (some token)
          (document theirs (codes "coffee") ∷ [])
          one_document).1.contents
        (scoped ours))
      (chunks.get one_document.contents (scoped ours))
upsert-outside_example =
    upsert-outside engine chunks engine-IsCollisionFree token (some token)
      (document theirs (codes "coffee") ∷ []) one_document ours one_document-IsWellKept (refl, tt)

abbrev about_tea : Query
about_tea = record { scope = ours; text = codes "drink"; limit = 3 }

search_runs :
    (search engine chunks token (some token) about_tea one_document).0 ≡ ok ((2, codes "m1") ∷ [])
unfolding search search_ranked rank_exact_cosine_candidates rank_unique_candidates collect_rows
    collect_row improve compare_candidates chunk_text strip is_space is_authorized upsert
    prepare_all prepare is_valid_document semantic_index_text write_all write
search_runs = refl

search-Answers_example :
    (is_authorized token (some token) ≡ true)
    × ((search engine chunks token (some token) about_tea one_document).1.contents
        ≡ one_document.contents)
    × Answers ours 3 (chunks.get one_document.contents (scoped ours)) ((2, codes "m1") ∷ [])
search-Answers_example =
    search-Answers engine chunks token (some token) about_tea one_document search_runs

chunk_spans-covers_example :
    All (IsSpan 4 10) (chunk_spans 4 3 10 10 0)
    × HoldsToken 7 (chunk_spans 4 3 10 10 0)
    × AreLinked 1 10 (chunk_spans 4 3 10 10 0)
chunk_spans-covers_example = chunk_spans-covers 4 1 10 7 (omega arith) (omega arith)

semantic_index_text-refs_example :
    semantic_index_text kind_episode
      (episode_text (codes "e1") (codes "s1") (codes "SITUATION\nACTOR user u1\nHi"))
    ≡ semantic_index_text kind_episode
        (episode_text (codes "e2") (codes "s2") (codes "SITUATION\nACTOR user u1\nHi"))
semantic_index_text-refs_example =
    semantic_index_text-refs (codes "e1") (codes "s1") (codes "e2") (codes "s2")
      (codes "SITUATION\nACTOR user u1\nHi") (refl, (refl, tt)) (refl, (refl, tt))
      (refl, (refl, tt)) (refl, (refl, tt))

abbrev chunk_of : Text → ℕ → ChunkMetadata
chunk_of ref number = record {
  metadata = metadata_of ours 2 ref;
  chunk = number;
  semantic_sha256 = ref;
}

abbrev three_chunks : List ChunkMetadata
three_chunks = chunk_of (codes "m1") 0 ∷ chunk_of (codes "m2") 0 ∷ chunk_of (codes "m1") 1 ∷ []

abbrev two_candidates : List Ranked
two_candidates = (2, 2, codes "m1") ∷ (4, 2, codes "m2") ∷ []

rank_runs : rank_unique_candidates (three_chunks ∷ []) ((5 ∷ 4 ∷ 2 ∷ []) ∷ []) 2 ≡ ok two_candidates
unfolding rank_unique_candidates collect_rows collect_row improve compare_candidates
rank_runs = refl

rank_unique_candidates-IsRanking_example :
    IsRanking (entries (three_chunks ∷ []) ((5 ∷ 4 ∷ 2 ∷ []) ∷ [])) 2 two_candidates
rank_unique_candidates-IsRanking_example =
    rank_unique_candidates-IsRanking (three_chunks ∷ []) ((5 ∷ 4 ∷ 2 ∷ []) ∷ []) 2 rank_runs
