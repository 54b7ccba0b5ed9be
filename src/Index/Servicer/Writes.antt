-- ===== src/Index/Servicer/Writes.antt =====
-- The chunks of one document under a write and a removal (`Upsert` and `Delete` of
-- local_memory_index.py).
use chora_mem.Prelude.{Bool, true, false, ◌&&◌, not, [], nat_eq, list_eq, ◌≡◌, ap, ◌∙◌, arith}
use chora_mem.Index.Ranking.{Metadata}
use chora_mem.Index.Store.{
  Stored, Where, exact, metadata_beq, matches_metadata, matches, has_id_of, SameItems, Collection,
}
use chora_mem.Index.Servicer.{Engine, PreparedDocument, stored_chunks}
use chora_mem.Index.Servicer.Items.{count-agree, count-and, count-imp}
use chora_mem.Index.Servicer.Scopes.{
  IsCollisionFree, metadata_beq-eq, metadata_beq_refl, absurd, not_true, add_eq, has_own_id,
  has_id_of-stored_from, count-stored_from, IsWellKept, get-matches, count-delete, written,
  count-write,
}

and_true : (a b : Bool) → (a && b) ≡ true → (a ≡ true) × (b ≡ true)
and_true a b h = ground (arith, h)

-- A part that holds a chunk of one document, and not one of another.
differ :
    (w : Where) (m n : Metadata)
    → matches_metadata w m ≡ false
    → matches_metadata w n ≡ true
    → metadata_beq m n ≡ false
differ w m n out here =
    not_true (metadata_beq m n)
      (λ same. absurd out (ap (matches_metadata w) (metadata_beq-eq m n same) ∙ here))

outside :
    (w : Where) (m n : Metadata) (q : Bool)
    → matches_metadata w m ≡ false
    → n ≡ m
    → (q && matches_metadata w n) ≡ false
outside w m n q out same = let no = ap (matches_metadata w) same ∙ out in ground (arith, no)

and_last : (a b : Bool) → b ≡ true → (a && b) ≡ a
and_last a b h = ground (arith, h)

and_none : (a b : Bool) → not b ≡ false → (a && not b) ≡ false
and_none a b h = ground (arith, h)

none_and : (a b : Bool) → a ≡ false → (a && b) ≡ false
none_and a b h = ground (arith, h)

and_kept : (a b : Bool) → b ≡ false → (a && not b) ≡ a
and_kept a b h = ground (arith, h)

module _ {V : Type 0} (engine : Engine V) (collection : Collection V) where
  -- what a write leaves of the parts without the document
  pub write-other :
      IsCollisionFree engine
      → (s : collection.Contents) (p : PreparedDocument) (w : Where)
      → IsWellKept engine collection s
      → matches_metadata w p.metadata ≡ false
      → SameItems (collection.get (written engine collection s p) w) (collection.get s w)
  write-other free s p w kept out q =
      count-write engine collection free s p w q
      ∙ add_eq
          (count-agree (λ c. has_own_id engine c && matches w c) _ q (collection.get s w) agree
            (count-and (has_own_id engine) (matches w) _ (kept w)
              (get-matches engine collection s w)))
          (count-stored_from engine p.metadata p.text_hash 0 p.chunks _
            (λ c same own. outside w p.metadata c.chunk_metadata.metadata (q c) out same))
      ∙ omega arith
    where
      agree :
          (c : Stored V)
          → (has_own_id engine c && matches w c) ≡ true
          → (q c
              && not (has_id_of (stored_chunks engine p) c)
              && not (matches (exact p.metadata) c))
            ≡ q c
      agree c good =
          let (own, here) = and_true (has_own_id engine c) (matches w c) good in
          let other = differ w p.metadata c.chunk_metadata.metadata out here in
          let fresh =
            has_id_of-stored_from engine free p.metadata p.text_hash 0 p.chunks c own other in
          ground (arith, other, fresh)

  -- what a write leaves of the document
  pub write-same :
      IsCollisionFree engine
      → (s : collection.Contents) (p : PreparedDocument)
      → SameItems
          (collection.get (written engine collection s p) (exact p.metadata))
          (stored_chunks engine p)
  write-same free s p q =
      count-write engine collection free s p (exact p.metadata) q
      ∙ add_eq
          (count-imp (λ c. not (matches (exact p.metadata) c)) _ _
            (λ c.
              and_none (q c && not (has_id_of (stored_chunks engine p) c))
                (matches (exact p.metadata) c))
            (get-matches engine collection s (exact p.metadata)))
          (count-agree (matches (exact p.metadata)) _ q (stored_chunks engine p)
            (λ c. and_last (q c) (matches (exact p.metadata) c))
            (count-stored_from engine p.metadata p.text_hash 0 p.chunks _ (λ c same own.
              ap not (ap (metadata_beq p.metadata) same ∙ metadata_beq_refl p.metadata))))
      ∙ omega arith

  pub write-IsWellKept :
      IsCollisionFree engine
      → (s : collection.Contents) (p : PreparedDocument) → IsWellKept engine collection s
      → IsWellKept engine collection (written engine collection s p)
  write-IsWellKept free s p kept w =
      count-write engine collection free s p w _
      ∙ add_eq
          (count-imp (λ c. not (has_own_id engine c)) _ _ (λ c own. none_and _ _ (none_and _ _ own))
            (kept w))
          (count-stored_from engine p.metadata p.text_hash 0 p.chunks _
            (λ c same own. none_and _ _ (ap not own)))

  pub delete-other :
      (s : collection.Contents) (m : Metadata) (w : Where)
      → matches_metadata w m ≡ false
      → SameItems (collection.get (collection.delete s (exact m)) w) (collection.get s w)
  delete-other s m w out q =
      count-delete engine collection s (exact m) w q
      ∙ count-agree (matches w) _ q (collection.get s w)
          (λ c here. and_kept (q c) _ (differ w m c.chunk_metadata.metadata out here))
          (get-matches engine collection s w)

  pub delete-same :
      (s : collection.Contents) (m : Metadata)
      → SameItems (collection.get (collection.delete s (exact m)) (exact m)) []
  delete-same s m q =
      count-delete engine collection s (exact m) (exact m) q
      ∙ count-imp (λ c. not (matches (exact m) c)) _ _ (λ c. and_none (q c) (matches (exact m) c))
          (get-matches engine collection s (exact m))

  pub delete-IsWellKept :
      (s : collection.Contents) (v : Where)
      → IsWellKept engine collection s
      → IsWellKept engine collection (collection.delete s v)
  delete-IsWellKept s v kept w =
      count-delete engine collection s v w _
      ∙ count-imp (λ c. not (has_own_id engine c)) _ _ (λ c. none_and _ _) (kept w)
