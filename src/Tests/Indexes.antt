-- ===== src/Tests/Indexes.antt =====
-- The theorems about the index, at a collection that is a list of chunks.
use chora_mem.Prelude.{
  ℕ, ◌+◌, Bool, true, false, ◌&&◌, not, List, [], ◌∷◌, ◌++◌, select, count, length, Bool-cases, inl,
  inr, ◌≡◌, refl, sym, ap, ◌∙◌, arith,
}
use chora_mem.Text.{Text}
use chora_mem.Index.Store.{Stored, matches, has_id_of, Collection}
use chora_mem.Index.Servicer.{Engine}
use chora_mem.Index.Servicer.Items.{count-append, count-select}
use chora_mem.Index.Servicer.Scopes.{IsCollisionFree}

module _ {A : Type 0} where
  count-pointwise : (p q : A → Bool) (xs : List A) → ((x : A) → p x ≡ q x) → count p xs ≡ count q xs
  count-pointwise p q [] h = refl
  count-pointwise p q (x ∷ xs) h = ground (arith, h x, count-pointwise p q xs h)

  pub select-append :
      (p : A → Bool) (xs ys : List A) → select p (xs ++ ys) ≡ select p xs ++ select p ys
  select-append p [] ys = refl
  select-append p (x ∷ xs) ys = elim (Bool-cases (p x)) [
    | inl kept ↦ rw kept (ap (λ l. x ∷ l) (select-append p xs ys))
    | inr dropped ↦ rw dropped (select-append p xs ys)
  ]

  pub select-swap :
      (p v w : A → Bool) (xs : List A)
      → count p (select w (select v xs)) ≡ count p (select v (select w xs))
  select-swap p v w xs =
      count-select p w (select v xs)
      ∙ count-select _ v xs
      ∙ count-pointwise _ _ xs (λ x. swap (p x) (w x) (v x))
      ∙ sym (count-select p v (select w xs) ∙ count-select _ w xs)
    where
      swap : (a b c : Bool) → (a && b && c) ≡ (a && c && b)
      swap a b c = ground arith

  pub select-again :
      (p w : A → Bool) (xs : List A) → count p (select w (select w xs)) ≡ count p (select w xs)
  select-again p w xs =
      count-select p w (select w xs)
      ∙ count-select _ w xs
      ∙ count-pointwise _ _ xs (λ x. again (p x) (w x))
      ∙ sym (count-select p w xs)
    where
      again : (a b : Bool) → (a && b && b) ≡ (a && b)
      again a b = ground arith

abbrev pub chunks : Collection ℕ
chunks = record {
  Contents = List (Stored ℕ);
  get = λ s w. select (matches w) s;
  delete = λ s v. select (λ c. not (matches v c)) s;
  upsert = λ s cs. select (λ c. not (has_id_of cs c)) s ++ cs;
  recreated = [];
  get_delete = λ s v w p. select-swap p (λ c. not (matches v c)) (matches w) s;
  get_upsert = λ s cs w unique p.
      ap (count p) (select-append (matches w) (select (λ c. not (has_id_of cs c)) s) cs)
      ∙ count-append p (select (matches w) (select (λ c. not (has_id_of cs c)) s))
          (select (matches w) cs)
      ∙ ap (λ n. n + count p (select (matches w) cs))
          (select-swap p (λ c. not (has_id_of cs c)) (matches w) s)
      ∙ sym (
          count-append p (select (λ c. not (has_id_of cs c)) (select (matches w) s))
            (select (matches w) cs));
  get_matches = λ s w p. select-again p (matches w) s;
  get_recreated = λ w. refl;
}

-- a text with its length in front
abbrev sized : Text → Text → Text
sized text rest = length text ∷ (text ++ rest)

abbrev pub engine : Engine ℕ
engine = record {
  offsets = λ text. [];
  embed = λ text. length text;
  sha256 = λ text. text;
  chunk_id = λ m i. i ∷ m.kind ∷ sized m.tenant (sized m.agent (sized m.relationship m.ref));
  same_shape = λ stored queries. true;
  has_zero = λ vectors. false;
  distances = λ stored queries. stored;
}

cons-eq : {c d : ℕ} {s t : Text} → c ∷ s ≡ d ∷ t → (c ≡ d) × (s ≡ t)
cons-eq h = (cc h, cc h)

append-eq : (s t : Text) {u v : Text} → length s ≡ length t → s ++ u ≡ t ++ v → (s ≡ t) × (u ≡ v)
append-eq [] [] same h = (refl, h)
append-eq [] (c ∷ t) same h = ground (arith, same)
append-eq (c ∷ s) [] same h = ground (arith, same)
append-eq (c ∷ s) (d ∷ t) same h =
    let (first, h1) = cons-eq h in
    let (rest, h2) = append-eq s t (omega (arith, same)) h1 in ((λ i. first i ∷ rest i), h2)

sized-eq : (s t : Text) {u v : Text} → sized s u ≡ sized t v → (s ≡ t) × (u ≡ v)
sized-eq s t h = let (same, h1) = cons-eq h in append-eq s t same h1

pub engine-IsCollisionFree : IsCollisionFree engine
engine-IsCollisionFree m n i j h =
    let (number, h1) = cons-eq h in
    let (kind, h2) = cons-eq h1 in
    let (tenant, h3) = sized-eq m.tenant n.tenant h2 in
    let (agent, h4) = sized-eq m.agent n.agent h3 in
    let (relationship, ref) = sized-eq m.relationship n.relationship h4 in
    (
      (λ x. record {
        tenant = tenant x;
        agent = agent x;
        relationship = relationship x;
        kind = kind x;
        ref = ref x;
      }),
      number,
    )
