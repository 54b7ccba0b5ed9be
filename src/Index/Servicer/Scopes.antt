-- ===== src/Index/Servicer/Scopes.antt =====
-- What one write and one removal leave in a part of the collection (`Upsert` and `Delete` of
-- local_memory_index.py).
use chora_mem.Prelude.{
  Eq, ℕ, suc, ◌+◌, Bool, true, false, ◌&&◌, not, List, [], ◌∷◌, elem, Nodup, ◌<◌, select, count,
  map, eqb, nat_eq, list_eq, ◌==◌, ◌≡◌, refl, sym, ap, ◌∙◌, arith,
}
use chora_mem.Text.{Text}
use chora_mem.Index.Ranking.{Metadata}
use chora_mem.Index.Store.{Stored, Where, exact, metadata_beq, matches, has_id_of, Collection}
use chora_mem.Index.Servicer.{Engine, PreparedDocument, stored_from, stored_chunks}
use chora_mem.Index.Servicer.Items.{count-append, count-select, count-never}

-- No two chunks get one id.
abbrev pub IsCollisionFree : {V : Type 0} → Engine V → Type 0
IsCollisionFree engine =
    (m n : Metadata) (i j : ℕ) → engine.chunk_id m i ≡ engine.chunk_id n j → (m ≡ n) × (i ≡ j)

module _ {A : Type 0} ⦃e : Eq A⦄ where
  pub beq_refl : (a : A) → (a == a) ≡ true
  beq_refl a = (e.beq_iff a a).1 refl

and5 :
    (a b c d e : Bool)
    → (a && b && c && d && e) ≡ true
    → (a ≡ true) × (b ≡ true) × (c ≡ true) × (d ≡ true) × (e ≡ true)
and5 a b c d e h = ground (arith, h)

pub metadata_beq-eq : (m n : Metadata) → metadata_beq m n ≡ true → m ≡ n
metadata_beq-eq m n h =
    let (tenant, agent, relationship, kind, ref) =
      and5 (m.tenant == n.tenant) (m.agent == n.agent) (m.relationship == n.relationship)
        (eqb m.kind n.kind) (m.ref == n.ref) h in
    let a = (list_eq.beq_iff m.tenant n.tenant).0 tenant in
    let b = (list_eq.beq_iff m.agent n.agent).0 agent in
    let c = (list_eq.beq_iff m.relationship n.relationship).0 relationship in
    let d = (nat_eq.beq_iff m.kind n.kind).0 kind in
    let e = (list_eq.beq_iff m.ref n.ref).0 ref in
    λ i. record { tenant = a i; agent = b i; relationship = c i; kind = d i; ref = e i }

pub metadata_beq_refl : (m : Metadata) → metadata_beq m m ≡ true
metadata_beq_refl m = ground (
  arith,
  beq_refl m.tenant,
  beq_refl m.agent,
  beq_refl m.relationship,
  beq_refl m.kind,
  beq_refl m.ref,
)

pub absurd : {A : Type 0} {b : Bool} → b ≡ false → b ≡ true → A
absurd h g = cc

pub not_true : (b : Bool) → (b ≡ true → b ≡ false) → b ≡ false
not_true true f = f refl
not_true false f = refl

pub add_eq : {a b c d : ℕ} → a ≡ c → b ≡ d → a + b ≡ c + d
add_eq h g = omega (arith, h, g)

module _ {V : Type 0} (engine : Engine V) where
  -- the chunk has the id of its metadata
  abbrev pub has_own_id : Stored V → Bool
  has_own_id c = c.id == engine.chunk_id c.chunk_metadata.metadata c.chunk_metadata.chunk

  -- A chunk that has its own id and is of another document has none of the new chunks' ids.
  pub has_id_of-stored_from :
      IsCollisionFree engine
      → (m : Metadata) (hash : Text) (i : ℕ) (chunks : List Text) (c : Stored V)
      → has_own_id c ≡ true
      → metadata_beq m c.chunk_metadata.metadata ≡ false
      → has_id_of (stored_from engine m hash i chunks) c ≡ false
  has_id_of-stored_from free m hash i [] c own other = refl
  has_id_of-stored_from free m hash i (chunk ∷ chunks) c own other =
      let rest = has_id_of-stored_from free m hash (suc i) chunks c own other in
      let distinct = not_true (engine.chunk_id m i == c.id) (λ same. absurd other (
        ap (metadata_beq m) (
          sym (
            (free m c.chunk_metadata.metadata i c.chunk_metadata.chunk
              ((list_eq.beq_iff _ _).0 same ∙ (list_eq.beq_iff _ _).0 own)).0))
        ∙ metadata_beq_refl m)) in
      ground (arith, rest, distinct)

  absent_id :
      IsCollisionFree engine
      → (m : Metadata) (hash : Text) (i j : ℕ) (chunks : List Text) → i < j
      → elem
          (engine.chunk_id m i)
          (map (λ (c : Stored V). c.id) (stored_from engine m hash j chunks))
        ≡ false
  absent_id free m hash i j [] lt = refl
  absent_id free m hash i j (chunk ∷ chunks) lt =
      let rest = absent_id free m hash i (suc j) chunks (omega (arith, lt)) in
      let distinct = not_true (engine.chunk_id m j == engine.chunk_id m i) (λ same.
        absurd (later i j lt (free m m j i ((list_eq.beq_iff _ _).0 same)).1)
          ((nat_eq.beq_iff i j).1 (sym (free m m j i ((list_eq.beq_iff _ _).0 same)).1))) in
      ground (arith, rest, distinct)
    where
      later : (a b : ℕ) → a < b → b ≡ a → eqb a b ≡ false
      later a b lt same = ground (arith, lt, same)

  stored_from-Nodup :
      IsCollisionFree engine
      → (m : Metadata) (hash : Text) (i : ℕ) (chunks : List Text)
      → Nodup (map (λ (c : Stored V). c.id) (stored_from engine m hash i chunks))
  stored_from-Nodup free m hash i [] = tt
  stored_from-Nodup free m hash i (chunk ∷ chunks) = (
    absent_id free m hash i (suc i) chunks (omega arith),
    stored_from-Nodup free m hash (suc i) chunks,
  )

  -- No new chunk passes a test that no chunk with the document's metadata and its own id passes.
  pub count-stored_from :
      (m : Metadata) (hash : Text) (i : ℕ) (chunks : List Text) (p : Stored V → Bool)
      → ((c : Stored V) → c.chunk_metadata.metadata ≡ m → has_own_id c ≡ true → p c ≡ false)
      → count p (stored_from engine m hash i chunks) ≡ 0
  count-stored_from m hash i [] p passes = refl
  count-stored_from m hash i (chunk ∷ chunks) p passes =
      let rest = count-stored_from m hash (suc i) chunks p passes in
      let first =
        passes
          (record {
            id = engine.chunk_id m i;
            chunk_metadata = record { metadata = m; chunk = i; semantic_sha256 = hash };
            document = chunk;
            vector = engine.embed chunk;
          })
          refl (beq_refl (engine.chunk_id m i)) in
      ground (arith, rest, first)

  module _ (collection : Collection V) where
    -- every chunk of the collection has its own id
    abbrev pub IsWellKept : collection.Contents → Type 0
    IsWellKept s = (w : Where) → count (λ c. not (has_own_id c)) (collection.get s w) ≡ 0

    pub get-matches :
        (s : collection.Contents) (w : Where)
        → count (λ c. not (matches w c)) (collection.get s w) ≡ 0
    get-matches s w =
        sym (collection.get_matches s w _)
        ∙ count-select _ (matches w) (collection.get s w)
        ∙ count-never _ (collection.get s w) (λ c. not_and (matches w c))
      where
        not_and : (b : Bool) → (not b && b) ≡ false
        not_and true = refl
        not_and false = refl

    -- the count after a delete
    pub count-delete :
        (s : collection.Contents) (v w : Where) (p : Stored V → Bool)
        → count p (collection.get (collection.delete s v) w)
          ≡ count (λ c. p c && not (matches v c)) (collection.get s w)
    count-delete s v w p = collection.get_delete s v w p ∙ count-select p _ (collection.get s w)

    -- the contents after a write
    abbrev pub written : collection.Contents → PreparedDocument → collection.Contents
    written s p =
        collection.upsert (collection.delete s (exact p.metadata)) (stored_chunks engine p)

    -- the count after a write
    pub count-write :
        IsCollisionFree engine
        → (s : collection.Contents) (p : PreparedDocument) (w : Where) (q : Stored V → Bool)
        → count q (
            collection.get
              (collection.upsert (collection.delete s (exact p.metadata)) (stored_chunks engine p))
              w)
          ≡ count
              (λ c.
                (q c && not (has_id_of (stored_chunks engine p) c))
                && not (matches (exact p.metadata) c))
              (collection.get s w)
            + count (λ c. q c && matches w c) (stored_chunks engine p)
    count-write free s p w q =
        let cs = stored_chunks engine p in
        let s1 = collection.delete s (exact p.metadata) in
        collection.get_upsert s1 cs w (stored_from-Nodup free p.metadata p.text_hash 0 p.chunks) q
        ∙ count-append q (select (λ c. not (has_id_of cs c)) (collection.get s1 w))
            (select (matches w) cs)
        ∙ add_eq (count-select q _ (collection.get s1 w) ∙ count-delete s (exact p.metadata) w _)
            (count-select q (matches w) cs)
