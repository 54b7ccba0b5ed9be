-- ===== src/Index/Servicer/Refinement.antt =====
-- What the index promises, without ids, order or the collection: a shelf of chunks for each document
-- (`Upsert` and `Delete` of local_memory_index.py).
use chora_mem.Prelude.{
  Bool, true, false, List, [], ◌∷◌, Option, count, if◌then◌else◌, ◌≡◌, refl, sym, ap, ◌∙◌,
}
use chora_mem.Text.{Text}
use chora_mem.Result.{Result, ok, err}
use chora_mem.Index.Ranking.{Metadata}
use chora_mem.Index.Store.{IndexScope, Stored, exact, metadata_beq, SameItems, Collection}
use chora_mem.Index.Servicer.{
  Engine, IndexDocument, IndexCandidate, PreparedDocument, IndexState, metadata_of, stored_chunks,
  prepare_all, is_authorized, invalid_token, write, write_all, remove, remove_all, upsert, delete,
}
use chora_mem.Index.Servicer.Scopes.{
  IsCollisionFree, metadata_beq-eq, metadata_beq_refl, absurd, not_true, IsWellKept, written,
}
use chora_mem.Index.Servicer.Writes.{
  write-other, write-same, write-IsWellKept, delete-other, delete-same, delete-IsWellKept,
}

-- the chunks of each document
abbrev pub Shelf : Type 0 → Type 0
Shelf V = Metadata → List (Stored V)

abbrev pub SameShelf : {V : Type 0} → Shelf V → Shelf V → Type 0
SameShelf f g = (m : Metadata) → SameItems (f m) (g m)

differ_back : (m n : Metadata) → metadata_beq m n ≡ false → metadata_beq n m ≡ false
differ_back m n h =
    not_true (metadata_beq n m)
      (λ same. absurd h (ap (metadata_beq m) (metadata_beq-eq n m same) ∙ metadata_beq_refl m))

module _ {V : Type 0} where
  count-if :
      (q : Stored V → Bool) (b : Bool) (zs xs ys : List (Stored V))
      → (b ≡ true → count q zs ≡ count q xs)
      → (b ≡ false → count q zs ≡ count q ys)
      → count q zs ≡ count q (if b then xs else ys)
  count-if q true zs xs ys first second = first refl
  count-if q false zs xs ys first second = second refl

  abbrev pub replace : Metadata → List (Stored V) → Shelf V → Shelf V
  replace m cs shelf n = if metadata_beq m n then cs else shelf n

  replace-same :
      (m : Metadata) (cs : List (Stored V)) (f g : Shelf V)
      → SameShelf f g
      → SameShelf (replace m cs f) (replace m cs g)
  replace-same m cs f g same n q = either (metadata_beq m n)
    where
      either : (b : Bool) → count q (if b then cs else f n) ≡ count q (if b then cs else g n)
      either true = refl
      either false = same n q

module _ {V : Type 0} (engine : Engine V) where
  abbrev pub put_all : List PreparedDocument → Shelf V → Shelf V
  put_all [] shelf = shelf
  put_all (p ∷ ps) shelf = put_all ps (replace p.metadata (stored_chunks engine p) shelf)

  abbrev pub clear_all : IndexScope → List IndexCandidate → Shelf V → Shelf V
  clear_all scope [] shelf = shelf
  clear_all scope ((kind, ref) ∷ rest) shelf =
      clear_all scope rest (replace (metadata_of scope kind ref) [] shelf)

  -- what `Upsert` promises
  abbrev pub put_documents : Bool → List IndexDocument → Shelf V → Result (Unit {0}) × Shelf V
  put_documents authorized documents shelf =
      if authorized
      then elim (prepare_all engine documents) [
        | err e ↦ (err e, shelf)
        | ok prepared ↦ (ok tt, put_all prepared shelf)
      ]
      else (err invalid_token, shelf)

  -- what `Delete` promises
  abbrev pub clear_documents :
      Bool → IndexScope → List IndexCandidate → Shelf V → Result (Unit {0}) × Shelf V
  clear_documents authorized scope candidates shelf =
      if authorized then (ok tt, clear_all scope candidates shelf) else (err invalid_token, shelf)

  put_all-same :
      (ps : List PreparedDocument) (f g : Shelf V)
      → SameShelf f g
      → SameShelf (put_all ps f) (put_all ps g)
  put_all-same [] f g same = same
  put_all-same (p ∷ ps) f g same =
      put_all-same ps _ _ (replace-same p.metadata (stored_chunks engine p) f g same)

  clear_all-same :
      (scope : IndexScope) (cs : List IndexCandidate) (f g : Shelf V)
      → SameShelf f g
      → SameShelf (clear_all scope cs f) (clear_all scope cs g)
  clear_all-same scope [] f g same = same
  clear_all-same scope ((kind, ref) ∷ rest) f g same =
      clear_all-same scope rest _ _ (replace-same (metadata_of scope kind ref) [] f g same)

  module _ (collection : Collection V) where
    -- the shelf that the collection stands for
    abbrev pub shelf_of : collection.Contents → Shelf V
    shelf_of s m = collection.get s (exact m)

    write-replace :
        IsCollisionFree engine
        → (s : collection.Contents) (p : PreparedDocument) → IsWellKept engine collection s
        → SameShelf
            (shelf_of (written engine collection s p))
            (replace p.metadata (stored_chunks engine p) (shelf_of s))
    write-replace free s p kept m q =
        count-if q (metadata_beq p.metadata m) (shelf_of (written engine collection s p) m) _ _
          (λ h.
            ap (λ n. count q (shelf_of (written engine collection s p) n))
              (sym (metadata_beq-eq p.metadata m h))
            ∙ write-same engine collection free s p q)
          (λ h.
            write-other engine collection free s p (exact m) kept (differ_back p.metadata m h) q)

    delete-replace :
        (s : collection.Contents) (m : Metadata)
        → SameShelf (shelf_of (collection.delete s (exact m))) (replace m [] (shelf_of s))
    delete-replace s m n q =
        count-if q (metadata_beq m n) (shelf_of (collection.delete s (exact m)) n) _ _
          (λ h.
            ap (λ x. count q (shelf_of (collection.delete s (exact m)) x))
              (sym (metadata_beq-eq m n h))
            ∙ delete-same engine collection s m q)
          (λ h. delete-other engine collection s m (exact n) (differ_back m n h) q)

    -- The state and the shelf that an operation leaves: the state is well kept and stands for it.
    pub record Refines (done : Result (Unit {0}) × IndexState engine collection)
        (promised : Result (Unit {0}) × Shelf V) : Type 0 where
      pub reply : done.0 ≡ promised.0
      pub shelf : SameShelf (shelf_of done.1.contents) promised.1
      pub kept : IsWellKept engine collection done.1.contents

    write_all-put_all :
        IsCollisionFree engine
        → (ps : List PreparedDocument) (state : IndexState engine collection)
        → IsWellKept engine collection state.contents
        → SameShelf
            (shelf_of (write_all engine collection state ps).contents)
            (put_all ps (shelf_of state.contents))
          × IsWellKept engine collection (write_all engine collection state ps).contents
    unfolding write_all write
    write_all-put_all free [] state kept = ((λ m q. refl), kept)
    write_all-put_all free (p ∷ ps) state kept =
        let state1 = write engine collection state p in
        let kept1 = write-IsWellKept engine collection free state.contents p kept in
        let (shelf, kept2) = write_all-put_all free ps state1 kept1 in
        (
          (λ m q. shelf m q ∙ put_all-same ps _ _ (write-replace free state.contents p kept) m q),
          kept2,
        )

    remove_all-clear_all :
        (scope : IndexScope) (cs : List IndexCandidate) (state : IndexState engine collection)
        → IsWellKept engine collection state.contents
        → SameShelf
            (shelf_of (remove_all engine collection state scope cs).contents)
            (clear_all scope cs (shelf_of state.contents))
          × IsWellKept engine collection (remove_all engine collection state scope cs).contents
    unfolding remove_all remove
    remove_all-clear_all scope [] state kept = ((λ m q. refl), kept)
    remove_all-clear_all scope ((kind, ref) ∷ rest) state kept =
        let m = metadata_of scope kind ref in
        let kept1 = delete-IsWellKept engine collection state.contents (exact m) kept in
        let (shelf, kept2) =
          remove_all-clear_all scope rest (remove engine collection state m) kept1 in
        (
          (λ n q. shelf n q ∙ clear_all-same scope rest _ _ (delete-replace state.contents m) n q),
          kept2,
        )

    -- Whatever the documents are and whoever calls, `Upsert` replies and leaves the chunks of each
    -- document as promised: an invalid document or token changes nothing, and otherwise the chunks
    -- of each document are those of the last document in the request with its scope, kind and
    -- reference, and the same as before if there is none. This holds if no two documents get chunks
    -- with one id and every chunk of the collection has its own id, which stays so.
    pub upsert-Refines :
        IsCollisionFree engine
        → (token : Text) (supplied : Option Text) (documents : List IndexDocument)
          (state : IndexState engine collection)
        → IsWellKept engine collection state.contents
        → Refines
            (upsert engine collection token supplied documents state)
            (put_documents (is_authorized token supplied) documents (shelf_of state.contents))
    unfolding upsert
    upsert-Refines free token supplied documents state kept =
        checked (is_authorized token supplied) (prepare_all engine documents)
      where
        checked :
            (authorized : Bool) (r : Result (List PreparedDocument))
            → Refines
                (if authorized
                  then elim r as (λ x. Result (Unit {0}) × IndexState engine collection) [
                    | err e ↦ (err e, state)
                    | ok prepared ↦ (ok tt, write_all engine collection state prepared)
                  ]
                  else (err invalid_token, state))
                (if authorized
                  then elim r as (λ x. Result (Unit {0}) × Shelf V) [
                    | err e ↦ (err e, shelf_of state.contents)
                    | ok prepared ↦ (ok tt, put_all prepared (shelf_of state.contents))
                  ]
                  else (err invalid_token, shelf_of state.contents))
        checked false r = record { reply = refl; shelf = λ m q. refl; kept = kept }
        checked true (err e) = record { reply = refl; shelf = λ m q. refl; kept = kept }
        checked true (ok prepared) =
            let (shelf, kept1) = write_all-put_all free prepared state kept in
            record { reply = refl; shelf = shelf; kept = kept1 }

    -- An authorized `Delete` leaves no chunk of the documents that it names, and those of the others
    -- as they were; an unauthorized one changes nothing. This holds if every chunk of the collection
    -- has its own id, which stays so.
    pub delete-Refines :
        (token : Text) (supplied : Option Text) (scope : IndexScope)
        (candidates : List IndexCandidate) (state : IndexState engine collection)
        → IsWellKept engine collection state.contents
        → Refines (delete engine collection token supplied scope candidates state) (
            clear_documents
              (is_authorized token supplied)
              scope
              candidates
              (shelf_of state.contents))
    unfolding delete
    delete-Refines token supplied scope candidates state kept =
        checked (is_authorized token supplied)
      where
        checked :
            (authorized : Bool)
            → Refines
                (if authorized
                  then (ok tt, remove_all engine collection state scope candidates)
                  else (err invalid_token, state))
                (clear_documents authorized scope candidates (shelf_of state.contents))
        checked false = record { reply = refl; shelf = λ m q. refl; kept = kept }
        checked true =
            let (shelf, kept1) = remove_all-clear_all scope candidates state kept in
            record { reply = refl; shelf = shelf; kept = kept1 }
