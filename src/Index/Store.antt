-- ===== src/Index/Store.antt =====
-- The collection of chunks that the index keeps in Chroma, a package: an interface of what
-- local_memory_index.py calls, with the behaviour that it relies on.
use chora_mem.Prelude.{
  Bool, ◌&&◌, not, List, [], ◌++◌, elem, Nodup, select, count, map, eqb, nat_eq, list_eq, ◌==◌, ◌≡◌,
}
use chora_mem.Text.{Text}
use chora_mem.Index.Ranking.{Metadata, ChunkMetadata}

-- a scope as `_scope` reads it
pub record IndexScope : Type 0 where
  pub tenant_ref : Text
  pub agent_ref : Text
  pub relationship_ref : Text

-- a chunk in the collection; `V` is the type of embeddings
pub record Stored (V : Type 0) : Type 0 where
  pub id : Text
  pub chunk_metadata : ChunkMetadata
  pub document : Text
  pub vector : V

-- The conditions of `_where`: a scope, or all the metadata of a document.
pub data Where : Type 0 where
  scoped : IndexScope → Where
  exact : Metadata → Where

abbrev pub in_scope : IndexScope → Metadata → Bool
in_scope scope m =
    scope.tenant_ref == m.tenant
    && scope.agent_ref == m.agent
    && scope.relationship_ref == m.relationship

abbrev pub metadata_beq : Metadata → Metadata → Bool
metadata_beq m n =
    m.tenant == n.tenant
    && m.agent == n.agent
    && m.relationship == n.relationship
    && eqb m.kind n.kind
    && m.ref == n.ref

abbrev pub matches_metadata : Where → Metadata → Bool
matches_metadata (scoped scope) m = in_scope scope m
matches_metadata (exact n) m = metadata_beq n m

module _ {V : Type 0} where
  abbrev pub matches : Where → Stored V → Bool
  matches w c = matches_metadata w c.chunk_metadata.metadata

  -- the chunk has one of the ids
  abbrev pub has_id_of : List (Stored V) → Stored V → Bool
  has_id_of cs c = elem c.id (map (λ (x : Stored V). x.id) cs)

  -- the same chunks, as often, in any order
  abbrev pub SameItems : List (Stored V) → List (Stored V) → Type 0
  SameItems xs ys = (p : Stored V → Bool) → count p xs ≡ count p ys

-- What is relied on: deleting removes what matches; upserting chunks with different ids replaces the
-- chunks that have the same ids, and adds the others; a collection that is created anew is empty. No order is relied on.
pub record Collection (V : Type 0) : Type 1 where
  pub Contents : Type 0
  pub get : Contents → Where → List (Stored V)
  pub delete : Contents → Where → Contents
  pub upsert : Contents → List (Stored V) → Contents
  pub recreated : Contents
  pub get_delete :
      (s : Contents) (v w : Where)
      → SameItems (get (delete s v) w) (select (λ c. not (matches v c)) (get s w))
  pub get_upsert :
      (s : Contents) (cs : List (Stored V)) (w : Where)
      → Nodup (map (λ (c : Stored V). c.id) cs)
      → SameItems
          (get (upsert s cs) w)
          (select (λ c. not (has_id_of cs c)) (get s w) ++ select (matches w) cs)
  pub get_matches : (s : Contents) (w : Where) → SameItems (select (matches w) (get s w)) (get s w)
  pub get_recreated : (w : Where) → get recreated w ≡ []
