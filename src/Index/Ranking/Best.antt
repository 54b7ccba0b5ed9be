-- ===== src/Index/Ranking/Best.antt =====
-- The table of least distances (local_memory_index.py).
use mathlib.Core.Path.{subst}
use chora_mem.Prelude.{
  ℕ, ◌≤◌, ◌<◌, Bool, true, false, not, List, [], ◌∷◌, ◌++◌, Option, none, some, All, elem, Nodup,
  map, lookup, assign, keys, lookup-assign, assign-Nodup, assign-All, ltb, ltb→lt, ltb→ge, nat_eq,
  list_eq, pair_eq, ◌==◌, if◌then◌else◌, ◌≡◌, refl, sym, arith, ◌⊎◌, inl, inr,
}
use chora_mem.Text.{Text, codes}
use chora_mem.Text.Lines.{All-imp, All-append}
use chora_mem.Result.{Result, ok, err, value_error, bind-eq-ok}
use chora_mem.Index.Ranking.{
  ChunkMetadata, Identity, identity_of, Best, improve, collect_row, collect_rows,
}

-- a chunk that was found, with its distance
abbrev pub Entry : Type 0
Entry = ChunkMetadata × ℕ

abbrev pub zip_row : List ChunkMetadata → List ℕ → List Entry
zip_row (m ∷ ms) (d ∷ ds) = (m, d) ∷ zip_row ms ds
zip_row _ _ = []

abbrev pub entries : List (List ChunkMetadata) → List (List ℕ) → List Entry
entries (ms ∷ mss) (ds ∷ dss) = zip_row ms ds ++ entries mss dss
entries _ _ = []

abbrev pub IsAtMost : Option (ℕ × Text) → ℕ → Type 0
IsAtMost none d = ⊥
IsAtMost (some value) d = value.0 ≤ d

-- the table has a distance for the entry's identity that is not above the entry's
abbrev pub Dominates : Best → Entry → Type 0
Dominates best e = IsAtMost (lookup (identity_of e.0) best) e.1

-- the least distance so far, if any, is above the new one
abbrev IsBelow : Option (ℕ × Text) → ℕ → Type 0
IsBelow none d = Unit
IsBelow (some previous) d = d < previous.0

IsBelow-le : (o : Option (ℕ × Text)) (d n : ℕ) → IsBelow o d → IsAtMost o n → d ≤ n
IsBelow-le none d n b a = absurd a
IsBelow-le (some previous) d n b a = omega (arith, a, b)

ok-eq : {A : Type 0} {a b : A} → ok a ≡ ok b → a ≡ b
ok-eq h = cc h

-- What a round that does not fail does to the table.
improve-cases :
    (best : Best) (m : ChunkMetadata) (d : ℕ) {b : Best}
    → improve best m d ≡ ok b
    → ((b ≡ assign (identity_of m) (d, m.semantic_sha256) best)
        × IsBelow (lookup (identity_of m) best) d)
      ⊎ ((b ≡ best) × IsAtMost (lookup (identity_of m) best) d)
unfolding improve
improve-cases best m d {b} h = found (lookup (identity_of m) best) refl h
  where
    round : ℕ × Text → Bool → Bool → Type 0
    round value conflict nearer =
        (if conflict
          then err (value_error (codes "one indexed identity has conflicting semantic hashes"))
          else if nearer
          then ok (assign (identity_of m) (d, m.semantic_sha256) best)
          else ok best)
        ≡ ok b

    decided :
        (value : ℕ × Text) (conflict nearer : Bool)
        → ltb d value.0 ≡ nearer
        → round value conflict nearer
        → ((b ≡ assign (identity_of m) (d, m.semantic_sha256) best) × (d < value.0))
          ⊎ ((b ≡ best) × (value.0 ≤ d))
    decided value true nearer t k = cc k
    decided value false true t k = inl (sym (ok-eq k), ltb→lt d value.0 t)
    decided value false false t k = inr (sym (ok-eq k), ltb→ge d value.0 t)

    found :
        (o : Option (ℕ × Text))
        → lookup (identity_of m) best ≡ o
        → (elim o as (λ x. Result Best) [
          | none ↦ ok (assign (identity_of m) (d, m.semantic_sha256) best)
          | some (previous, semantic) ↦
              if not (semantic == m.semantic_sha256)
              then err (value_error (codes "one indexed identity has conflicting semantic hashes"))
              else if ltb d previous
              then ok (assign (identity_of m) (d, m.semantic_sha256) best)
              else ok best
        ])
          ≡ ok b
        → ((b ≡ assign (identity_of m) (d, m.semantic_sha256) best)
            × IsBelow (lookup (identity_of m) best) d)
          ⊎ ((b ≡ best) × IsAtMost (lookup (identity_of m) best) d)
    found none same k = inl (sym (ok-eq k), subst (λ x. IsBelow x d) (sym same) tt)
    found (some value) same k =
        elim (decided value (not (value.1 == m.semantic_sha256)) (ltb d value.0) refl k) [
          | inl (is, lt) ↦ inl (is, subst (λ x. IsBelow x d) (sym same) lt)
          | inr (is, le) ↦ inr (is, subst (λ x. IsAtMost x d) (sym same) le)
        ]

IsAtMost-if :
    (test : Bool) (value : ℕ × Text) (o : Option (ℕ × Text)) (n : ℕ)
    → (test ≡ true → value.0 ≤ n)
    → IsAtMost o n
    → IsAtMost (if test then some value else o) n
IsAtMost-if true value o n h a = h refl
IsAtMost-if false value o n h a = a

assign-Dominates :
    (best : Best) (id : Identity) (d : ℕ) (semantic : Text) (e : Entry)
    → IsBelow (lookup id best) d
    → Dominates best e
    → Dominates (assign id (d, semantic) best) e
assign-Dominates best id d semantic e below dom =
    let ie = identity_of e.0 in
    subst (λ o. IsAtMost o e.1) (sym (lookup-assign id ie (d, semantic) best))
      (IsAtMost-if (id == ie) (d, semantic) (lookup ie best) e.1
        (λ same.
          IsBelow-le (lookup ie best) d e.1
            (subst (λ x. IsBelow (lookup x best) d) ((pair_eq.beq_iff id ie).0 same) below) dom)
        dom)

assign-Dominates_self :
    (best : Best) (m : ChunkMetadata) (d : ℕ)
    → Dominates (assign (identity_of m) (d, m.semantic_sha256) best) (m, d)
assign-Dominates_self best m d =
    let id = identity_of m in
    subst (λ o. IsAtMost o d) (sym (lookup-assign id id (d, m.semantic_sha256) best))
      (subst (λ t. IsAtMost (if t then some (d, m.semantic_sha256) else lookup id best) d)
        (sym ((pair_eq.beq_iff id id).1 refl)) (omega arith))

improve-keeps :
    (best : Best) (m : ChunkMetadata) (d : ℕ) (e : Entry) {b : Best}
    → improve best m d ≡ ok b
    → Dominates best e
    → Dominates b e
improve-keeps best m d e h dom = elim (improve-cases best m d h) [
  | inl (is, below) ↦
      subst (λ x. Dominates x e) (sym is)
        (assign-Dominates best (identity_of m) d m.semantic_sha256 e below dom)
  | inr (is, le) ↦ subst (λ x. Dominates x e) (sym is) dom
]

improve-covers :
    (best : Best) (m : ChunkMetadata) (d : ℕ) {b : Best}
    → improve best m d ≡ ok b
    → Dominates b (m, d)
improve-covers best m d h = elim (improve-cases best m d h) [
  | inl (is, below) ↦ subst (λ x. Dominates x (m, d)) (sym is) (assign-Dominates_self best m d)
  | inr (is, le) ↦ subst (λ x. Dominates x (m, d)) (sym is) le
]

abbrev pub pair_of : Entry → Identity × ℕ
pair_of e = (identity_of e.0, e.1)

-- The table has one value for each key, and each is the distance of an entry with that identity.
pub record IsTable (pairs : List (Identity × ℕ)) (best : Best) : Type 0 where
  pub unique : Nodup (keys best)
  pub attained : All (λ entry. elem (entry.0, entry.1.0) pairs ≡ true) best

improve-IsTable :
    (pairs : List (Identity × ℕ)) (best : Best) (m : ChunkMetadata) (d : ℕ) {b : Best}
    → improve best m d ≡ ok b
    → elem (identity_of m, d) pairs ≡ true
    → IsTable pairs best
    → IsTable pairs b
improve-IsTable pairs best m d h is_in t = elim (improve-cases best m d h) [
  | inl (is, below) ↦ subst (IsTable pairs) (sym is) (record {
    unique = assign-Nodup (identity_of m) (d, m.semantic_sha256) best t.unique;
    attained =
        assign-All (λ entry. elem (entry.0, entry.1.0) pairs ≡ true) (identity_of m)
          (d, m.semantic_sha256) best
          (λ j same.
            subst (λ x. elem (x, d) pairs ≡ true) (sym ((pair_eq.beq_iff j (identity_of m)).0 same))
              is_in)
          t.attained;
  })
  | inr (is, le) ↦ subst (IsTable pairs) (sym is) t
]

abbrev AreIn : List (Identity × ℕ) → List Entry → Type 0
AreIn pairs = All (λ e. elem (pair_of e) pairs ≡ true)

-- What a run of the loops over some entries makes of a table.
record Collected (pairs : List (Identity × ℕ)) (best : Best) (es : List Entry) (b : Best)
    : Type 0 where
  keeps : (e : Entry) → Dominates best e → Dominates b e
  covers : All (Dominates b) es
  table : IsTable pairs b

collect_row-Collected :
    (pairs : List (Identity × ℕ)) (best : Best) (ms : List ChunkMetadata) (ds : List ℕ) {b : Best}
    → collect_row best ms ds ≡ ok b
    → AreIn pairs (zip_row ms ds)
    → IsTable pairs best
    → Collected pairs best (zip_row ms ds) b
unfolding collect_row
collect_row-Collected pairs best [] [] h is_in t =
    subst (Collected pairs best []) (ok-eq h) (record { keeps = λ e k. k; covers = tt; table = t })
collect_row-Collected pairs best (m ∷ ms) (d ∷ ds) h is_in t =
    let (better, i, rest) = bind-eq-ok (improve best m d) _ h in
    let later =
      collect_row-Collected pairs better ms ds rest is_in.1
        (improve-IsTable pairs best m d i is_in.0 t) in
    record {
      keeps = λ e k. later.keeps e (improve-keeps best m d e i k);
      covers = (later.keeps (m, d) (improve-covers best m d i), later.covers);
      table = later.table;
    }
collect_row-Collected pairs best [] (d ∷ ds) h is_in t = cc h
collect_row-Collected pairs best (m ∷ ms) [] h is_in t = cc h

AreIn-parts :
    (pairs : List (Identity × ℕ)) (xs ys : List Entry)
    → AreIn pairs (xs ++ ys)
    → AreIn pairs xs × AreIn pairs ys
AreIn-parts pairs [] ys h = (tt, h)
AreIn-parts pairs (x ∷ xs) ys h = let (a, b) = AreIn-parts pairs xs ys h.1 in ((h.0, a), b)

collect_rows-Collected :
    (pairs : List (Identity × ℕ)) (best : Best) (mss : List (List ChunkMetadata))
    (dss : List (List ℕ)) {b : Best}
    → collect_rows best mss dss ≡ ok b
    → AreIn pairs (entries mss dss)
    → IsTable pairs best
    → Collected pairs best (entries mss dss) b
unfolding collect_rows
collect_rows-Collected pairs best [] [] h is_in t =
    subst (Collected pairs best []) (ok-eq h) (record { keeps = λ e k. k; covers = tt; table = t })
collect_rows-Collected pairs best (ms ∷ mss) (ds ∷ dss) h is_in t =
    let (better, i, rest) = bind-eq-ok (collect_row best ms ds) _ h in
    let (here, there) = AreIn-parts pairs (zip_row ms ds) (entries mss dss) is_in in
    let first = collect_row-Collected pairs best ms ds i here t in
    let later = collect_rows-Collected pairs better mss dss rest there first.table in
    record {
      keeps = λ e k. later.keeps e (first.keeps e k);
      covers =
          All-append _ (zip_row ms ds) (entries mss dss)
            (All-imp _ _ (zip_row ms ds) later.keeps first.covers) later.covers;
      table = later.table;
    }
collect_rows-Collected pairs best [] (ds ∷ dss) h is_in t = cc h
collect_rows-Collected pairs best (ms ∷ mss) [] h is_in t = cc h

own-AreIn : (es : List Entry) → AreIn (map pair_of es) es
own-AreIn [] = tt
own-AreIn (e ∷ es) = (
  rw ((pair_eq.beq_iff (pair_of e) (pair_of e)).1 refl),
  All-imp _ _ es (λ x h. ground (arith, h)) (own-AreIn es),
)

-- The table that the loops leave has one distance for each identity, which some entry of it has, and
-- no entry of it has a smaller one.
pub collect_rows-IsTable :
    (mss : List (List ChunkMetadata)) (dss : List (List ℕ)) {b : Best}
    → collect_rows [] mss dss ≡ ok b
    → IsTable (map pair_of (entries mss dss)) b × All (Dominates b) (entries mss dss)
collect_rows-IsTable mss dss h =
    let done =
      collect_rows-Collected (map pair_of (entries mss dss)) [] mss dss h
        (own-AreIn (entries mss dss)) (record { unique = tt; attained = tt }) in
    (done.table, done.covers)
