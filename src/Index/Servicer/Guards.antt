-- ===== src/Index/Servicer/Guards.antt =====
-- When `Upsert` accepts a request, and what it leaves alone (local_memory_index.py).
use mathlib.Core.Path.{subst}
use chora_mem.Prelude.{
  Bool, true, false, ◌&&◌, not, List, [], ◌∷◌, Option, all, All, if◌then◌else◌, ◌≡◌, refl, sym, ap,
  ◌∙◌, ◌⊎◌, inl, inr,
}
use chora_mem.Text.{Text}
use chora_mem.Result.{Result, ok, err, ◌>>=◌, raise_if, ◌>>◌, bind-eq-ok, raise_if-eq-ok}
use chora_mem.Index.Chunks.{chunk_text}
use chora_mem.Index.Store.{IndexScope, scoped, in_scope, SameItems, Collection}
use chora_mem.Index.Servicer.{
  Engine, IndexDocument, PreparedDocument, IndexState, metadata_of, is_valid_document,
  is_authorized, invalid_token, invalid_document, prepare, prepare_all, write, write_all, upsert,
}
use chora_mem.Index.Servicer.Scopes.{IsCollisionFree, IsWellKept}
use chora_mem.Index.Servicer.Writes.{write-other, write-IsWellKept}

abbrev pub succeeds : {A : Type 0} → Result A → Bool
succeeds (ok a) = true
succeeds (err e) = false

bind-succeeds :
    {A B : Type 0} (r : Result A) (k : A → Result B) (b : Bool)
    → ((a : A) → succeeds (k a) ≡ b)
    → succeeds (r >>= k) ≡ (succeeds r && b)
bind-succeeds (ok a) k b h = h a
bind-succeeds (err e) k b h = refl

and_true : (b : Bool) → (b && true) ≡ b
and_true true = refl
and_true false = refl

ok-eq : {A : Type 0} {a b : A} → ok a ≡ ok b → a ≡ b
ok-eq h = cc h

module _ {V : Type 0} (engine : Engine V) where
  prepare-succeeds :
      (document : IndexDocument) → succeeds (prepare engine document) ≡ is_valid_document document
  unfolding prepare chunk_text
  prepare-succeeds document = guarded _ (is_valid_document document)
    where
      guarded :
          (p : PreparedDocument) (valid : Bool)
          → succeeds (raise_if (not valid) invalid_document >> ok p) ≡ valid
      guarded p true = refl
      guarded p false = refl

  prepare_all-succeeds :
      (documents : List IndexDocument)
      → succeeds (prepare_all engine documents) ≡ all is_valid_document documents
  unfolding prepare_all
  prepare_all-succeeds [] = refl
  prepare_all-succeeds (document ∷ rest) =
      bind-succeeds (prepare engine document) _ (all is_valid_document rest) (λ p.
        bind-succeeds (prepare_all engine rest) _ true (λ ps. refl)
        ∙ and_true _
        ∙ prepare_all-succeeds rest)
      ∙ ap (λ b. b && all is_valid_document rest) (prepare-succeeds document)

  module _ (collection : Collection V) where
    -- A request to `Upsert` is accepted exactly if the caller is authorized and every document has
    -- a known kind, a reference and a text that is not blank; a request that is not accepted
    -- changes neither the collection nor the log, whichever of its documents is invalid.
    pub upsert-atomic :
        (token : Text) (supplied : Option Text) (documents : List IndexDocument)
        (state : IndexState engine collection)
        → (succeeds (upsert engine collection token supplied documents state).0
            ≡ (is_authorized token supplied && all is_valid_document documents))
          × (((is_authorized token supplied && all is_valid_document documents) ≡ true)
              ⊎ ((upsert engine collection token supplied documents state).1 ≡ state))
    unfolding upsert
    upsert-atomic token supplied documents state =
        checked (is_authorized token supplied) (all is_valid_document documents)
          (prepare_all engine documents) (prepare_all-succeeds documents)
      where
        after :
            Bool → Result (List PreparedDocument) → Result (Unit {0}) × IndexState engine collection
        after authorized r =
            if authorized
            then elim r as (λ x. Result (Unit {0}) × IndexState engine collection) [
              | err e ↦ (err e, state)
              | ok prepared ↦ (ok tt, write_all engine collection state prepared)
            ]
            else (err invalid_token, state)

        checked :
            (authorized valid : Bool) (r : Result (List PreparedDocument))
            → succeeds r ≡ valid
            → (succeeds (after authorized r).0 ≡ (authorized && valid))
              × (((authorized && valid) ≡ true) ⊎ ((after authorized r).1 ≡ state))
        checked false valid r h = (refl, inr refl)
        checked true valid (ok ps) h = (h, inl (sym h))
        checked true valid (err e) h = (h, inr refl)

    -- the prepared documents are outside the scope
    abbrev AreOutside : IndexScope → List PreparedDocument → Type 0
    AreOutside scope ps = All (λ p. in_scope scope p.metadata ≡ false) ps

    write_all-outside :
        IsCollisionFree engine
        → (scope : IndexScope) (ps : List PreparedDocument) (state : IndexState engine collection)
        → IsWellKept engine collection state.contents
        → AreOutside scope ps
        → SameItems
            (collection.get (write_all engine collection state ps).contents (scoped scope))
            (collection.get state.contents (scoped scope))
    unfolding write_all write
    write_all-outside free scope [] state kept out q = refl
    write_all-outside free scope (p ∷ ps) state kept out q =
        write_all-outside free scope ps (write engine collection state p)
          (write-IsWellKept engine collection free state.contents p kept) out.1 q
        ∙ write-other engine collection free state.contents p (scoped scope) kept out.0 q

    prepared-outside :
        (scope : IndexScope) (documents : List IndexDocument) {ps : List PreparedDocument}
        → prepare_all engine documents ≡ ok ps
        → All (λ d. in_scope scope (metadata_of d.scope d.kind d.ref) ≡ false) documents
        → AreOutside scope ps
    unfolding prepare_all prepare chunk_text
    prepared-outside scope [] made out = subst (AreOutside scope) (ok-eq made) tt
    prepared-outside scope (d ∷ ds) made out =
        let (p, one, h1) = bind-eq-ok (prepare engine d) _ made in
        let (ps, rest, h2) = bind-eq-ok (prepare_all engine ds) _ h1 in
        let (valid, h3) = raise_if-eq-ok (not (is_valid_document d)) invalid_document _ one in
        subst (AreOutside scope) (ok-eq h2) (
          subst (λ (x : PreparedDocument). in_scope scope x.metadata ≡ false) (ok-eq h3) out.0,
          prepared-outside scope ds rest out.1,
        )

    -- A request to `Upsert` whose documents are all outside a scope changes no chunk of the scope,
    -- whoever calls and whatever the documents hold, if no two documents get chunks with one id and
    -- every chunk of the collection has its own id.
    pub upsert-outside :
        IsCollisionFree engine
        → (token : Text) (supplied : Option Text) (documents : List IndexDocument)
          (state : IndexState engine collection) (scope : IndexScope)
        → IsWellKept engine collection state.contents
        → All (λ d. in_scope scope (metadata_of d.scope d.kind d.ref) ≡ false) documents
        → SameItems
            (collection.get
              (upsert engine collection token supplied documents state).1.contents
              (scoped scope))
            (collection.get state.contents (scoped scope))
    unfolding upsert
    upsert-outside free token supplied documents state scope kept out =
        checked (is_authorized token supplied) (prepare_all engine documents) (λ ps made.
          write_all-outside free scope ps state kept (prepared-outside scope documents made out))
      where
        checked :
            (authorized : Bool) (r : Result (List PreparedDocument))
            → ((ps : List PreparedDocument)
                → r ≡ ok ps
                → SameItems
                    (collection.get (write_all engine collection state ps).contents (scoped scope))
                    (collection.get state.contents (scoped scope)))
            → SameItems
                (collection.get
                  (if authorized
                    then elim r as (λ x. Result (Unit {0}) × IndexState engine collection) [
                      | err e ↦ (err e, state)
                      | ok prepared ↦ (ok tt, write_all engine collection state prepared)
                    ]
                    else (err invalid_token, state)).1.contents
                  (scoped scope))
                (collection.get state.contents (scoped scope))
        checked false r f q = refl
        checked true (err e) f q = refl
        checked true (ok ps) f q = f ps refl q
