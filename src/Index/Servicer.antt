-- ===== src/Index/Servicer.antt =====
-- ChromaMiniLMIndex (local_memory_index.py): the four operations of the index over its collection
-- and its log. The tokenizer, the encoder, the hashes and numpy's distances are parameters.
pub mod Items
pub mod Scopes
pub mod Writes
pub mod Refinement
pub mod Searching
pub mod Guards
use chora_mem.Prelude.{
  ℕ, zero, suc, ◌+◌, Bool, true, false, ◌&&◌, ◌||◌, not, List, [], ◌∷◌, ◌++◌, Option, none, some,
  is_empty, elem, length, map, ltb, leb, eqb, nat_eq, list_eq, ◌==◌, if◌then◌else◌,
}
use chora_mem.Text.{Text, codes, strip}
use chora_mem.Text.Unicode.{is_space}
use chora_mem.Result.{Result, ok, err, Error, value_error, model_error, ◌>>=◌, ◌>>◌, raise_if}
use chora_mem.Index.Chunks.{Offset, chunk_text, chunk_tokens, overlap_tokens}
use chora_mem.Index.Projection.{
  kind_episode, kind_recollection, kind_disposition, semantic_index_text,
}
use chora_mem.Index.Ranking.{Metadata, ChunkMetadata, Ranked, rank_unique_candidates}
use chora_mem.Index.Store.{IndexScope, Stored, Where, scoped, exact, Collection}

-- What the index calls to cut, embed, hash and compare. `chunk_id` is the hash of the metadata with
-- the chunk's number behind it; `same_shape` is numpy's test that the stored and the query vectors
-- are finite and of one dimension, `has_zero` that one has the norm 0, and `distances` gives for each
-- stored vector the least cosine distance to a query vector.
pub record Engine (V : Type 0) : Type 0 where
  pub offsets : Text → List Offset
  pub embed : Text → V
  pub sha256 : Text → Text
  pub chunk_id : Metadata → ℕ → Text
  pub same_shape : List V → List V → Bool
  pub has_zero : List V → Bool
  pub distances : List V → List V → List ℕ

-- the messages of api/memoryindex/v1/memory_index.proto, as the index reads them
pub record IndexDocument : Type 0 where
  pub scope : IndexScope
  pub kind : ℕ
  pub ref : Text
  pub text : Text

-- a limit that is not positive stands as 0
pub record Query : Type 0 where
  pub scope : IndexScope
  pub text : Text
  pub limit : ℕ

abbrev pub IndexCandidate : Type 0
IndexCandidate = ℕ × Text

-- a line of the log, without its duration
pub data LogRecord : Type 0 where
  upserted : Metadata → ℕ → Text → LogRecord
  searched : IndexScope → Text → ℕ → ℕ → List Ranked → LogRecord
  deleted : Metadata → LogRecord
  was_reset : LogRecord

abbrev pub metadata_of : IndexScope → ℕ → Text → Metadata
metadata_of scope kind ref = record {
  tenant = scope.tenant_ref;
  agent = scope.agent_ref;
  relationship = scope.relationship_ref;
  kind = kind;
  ref = ref;
}

-- a candidate as the reply gives it
abbrev pub shown : Ranked → IndexCandidate
shown (distance, kind, ref) = (kind, ref)

-- a document that is ready to be written
pub record PreparedDocument : Type 0 where
  pub metadata : Metadata
  pub chunks : List Text
  pub text_hash : Text

abbrev pub invalid_document : Error
invalid_document = model_error (codes "INVALID_ARGUMENT: invalid index document")

abbrev invalid_shape : Error
invalid_shape = value_error (codes "MemoryIndex embeddings have an invalid shape or value")

abbrev zero_vector : Error
zero_vector = value_error (codes "MemoryIndex cosine embeddings must be nonzero")

abbrev pub invalid_token : Error
invalid_token = model_error (codes "UNAUTHENTICATED: invalid MemoryIndex token")

-- `_authorize`; the second argument is the header that the caller gave, if any
unfoldable pub is_authorized : Text → Option Text → Bool
is_authorized [] supplied = true
is_authorized (c ∷ token) none = false
is_authorized (c ∷ token) (some supplied) = supplied == c ∷ token

unfoldable pub is_valid_document : IndexDocument → Bool
unfolding strip is_space
is_valid_document document =
    elem document.kind (kind_episode ∷ kind_recollection ∷ kind_disposition ∷ [])
    && not (is_empty document.ref)
    && not (is_empty (strip is_space document.text))

module _ {V : Type 0} (engine : Engine V) where
  unfoldable pub prepare : IndexDocument → Result PreparedDocument
  unfolding is_valid_document semantic_index_text chunk_text
  prepare document = do
    raise_if (not (is_valid_document document)) invalid_document
    let semantic_text = semantic_index_text document.kind document.text
    chunks ← chunk_text chunk_tokens overlap_tokens (engine.offsets semantic_text) semantic_text
    ok (record {
      metadata = metadata_of document.scope document.kind document.ref;
      chunks = chunks;
      text_hash = engine.sha256 semantic_text;
    })

  -- the first loop of `Upsert`
  unfoldable pub prepare_all : List IndexDocument → Result (List PreparedDocument)
  unfolding prepare
  prepare_all [] = ok []
  prepare_all (document ∷ rest) = do
    first ← prepare document
    others ← prepare_all rest
    ok (first ∷ others)

  -- the ids, documents, embeddings and metadata of the chunks from `index` on
  abbrev pub stored_from : Metadata → Text → ℕ → List Text → List (Stored V)
  stored_from metadata text_hash index [] = []
  stored_from metadata text_hash index (chunk ∷ chunks) =
      record {
        id = engine.chunk_id metadata index;
        chunk_metadata = record { metadata = metadata; chunk = index; semantic_sha256 = text_hash };
        document = chunk;
        vector = engine.embed chunk;
      }
      ∷ stored_from metadata text_hash (suc index) chunks

  abbrev pub stored_chunks : PreparedDocument → List (Stored V)
  stored_chunks p = stored_from p.metadata p.text_hash 0 p.chunks

  -- `rank_exact_cosine_candidates`, on what `get` found
  unfoldable pub rank_exact_cosine_candidates : List (Stored V) → List V → ℕ → Result (List Ranked)
  unfolding rank_unique_candidates
  rank_exact_cosine_candidates found queries zero = ok []
  rank_exact_cosine_candidates [] queries (suc limit) = ok []
  rank_exact_cosine_candidates (chunk ∷ found) queries (suc limit) = do
    let vectors = map (λ (c : Stored V). c.vector) (chunk ∷ found)
    raise_if (not (engine.same_shape vectors queries)) invalid_shape
    raise_if (engine.has_zero vectors || engine.has_zero queries) zero_vector
    let row = map (λ (c : Stored V). c.chunk_metadata) (chunk ∷ found)
    rank_unique_candidates (row ∷ []) (engine.distances vectors queries ∷ []) (suc limit)

  -- the ranking of `Search`
  unfoldable pub search_ranked : List (Stored V) → Query → Result (List Ranked)
  unfolding rank_exact_cosine_candidates chunk_text strip is_space
  search_ranked found query =
      if not (is_empty found) && ltb 0 query.limit && not (is_empty (strip is_space query.text))
      then (do
        chunks ← chunk_text chunk_tokens overlap_tokens (engine.offsets query.text) query.text
        rank_exact_cosine_candidates found (map engine.embed chunks) query.limit)
      else ok []

  module _ (collection : Collection V) where
    -- the collection and the log
    pub record IndexState : Type 0 where
      pub contents : collection.Contents
      pub log : List LogRecord

    -- the second loop of `Upsert`, and its body
    unfoldable pub write : IndexState → PreparedDocument → IndexState
    write state p = record {
      contents =
          collection.upsert (collection.delete state.contents (exact p.metadata)) (stored_chunks p);
      log = state.log ++ upserted p.metadata (length p.chunks) p.text_hash ∷ [];
    }

    unfoldable pub write_all : IndexState → List PreparedDocument → IndexState
    unfolding write
    write_all state [] = state
    write_all state (p ∷ ps) = write_all (write state p) ps

    unfoldable pub remove : IndexState → Metadata → IndexState
    remove state m = record {
      contents = collection.delete state.contents (exact m);
      log = state.log ++ deleted m ∷ [];
    }

    -- the loop of `Delete`
    unfoldable pub remove_all : IndexState → IndexScope → List IndexCandidate → IndexState
    unfolding remove
    remove_all state scope [] = state
    remove_all state scope ((kind, ref) ∷ rest) =
        remove_all (remove state (metadata_of scope kind ref)) scope rest

    -- The operations: the service's token, the token that the call gives, the request and the state.
    unfoldable pub upsert :
        Text → Option Text → List IndexDocument → IndexState → Result (Unit {0}) × IndexState
    unfolding is_authorized prepare_all write_all
    upsert token supplied documents state =
        if is_authorized token supplied
        then elim (prepare_all documents) [
          | err e ↦ (err e, state)
          | ok prepared ↦ (ok tt, write_all state prepared)
        ]
        else (err invalid_token, state)

    unfoldable pub search :
        Text → Option Text → Query → IndexState → Result (List IndexCandidate) × IndexState
    unfolding is_authorized search_ranked
    search token supplied query state =
        let found = collection.get state.contents (scoped query.scope) in
        if is_authorized token supplied
        then elim (search_ranked found query) [
          | err e ↦ (err e, state)
          | ok ranked ↦ (
            ok (map shown ranked),
            record {
              contents = state.contents;
              log =
                  state.log
                  ++ searched query.scope query.text query.limit (length found) ranked ∷ [];
            },
          )
        ]
        else (err invalid_token, state)

    unfoldable pub delete :
        Text
        → Option Text
        → IndexScope
        → List IndexCandidate
        → IndexState
        → Result (Unit {0}) × IndexState
    unfolding is_authorized remove_all
    delete token supplied scope candidates state =
        if is_authorized token supplied
        then (ok tt, remove_all state scope candidates)
        else (err invalid_token, state)

    unfoldable pub reset : Text → Option Text → IndexState → Result (Unit {0}) × IndexState
    unfolding is_authorized
    reset token supplied state =
        if is_authorized token supplied
        then (ok tt, record { contents = collection.recreated; log = state.log ++ was_reset ∷ [] })
        else (err invalid_token, state)
