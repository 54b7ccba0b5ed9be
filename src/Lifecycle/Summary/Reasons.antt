-- ===== src/Lifecycle/Summary/Reasons.antt =====
-- The table of the results and the reasons that it gives (`summarize_lifecycle` of seed_lifecycle.py).
use mathlib.Core.Path.{subst}
use mathlib.Core.List.{append-nil, append_assoc}
use chora_mem.Prelude.{
  Bool, true, false, ◌&&◌, ◌||◌, not, List, [], ◌∷◌, ◌++◌, none, some, is_empty, elem, all, any,
  map, lookup, keys, Nodup, Eq, list_eq, nat_eq, ◌==◌, if◌then◌else◌, Bool-cases, ◌≡◌, refl, sym,
  ap, ◌∙◌, arith, inl, inr,
}
use chora_mem.Text.{Text, codes, strip}
use chora_mem.Text.Unicode.{is_space}
use chora_mem.Result.{Error, ok, err, bind-eq-ok, raise_if-eq-ok}
use chora_mem.Lifecycle.States.{Field, nonblank, text_of}
use chora_mem.Lifecycle.Summary.{
  expected_kinds, is_true, CaseResult, ByKind, collect_results, reason_if, unproved, misses_kind,
}

-- the kind of a result, without the white space around it
abbrev pub name_of : CaseResult → Text
unfolding strip is_space
name_of result = strip is_space (text_of result.kind)

abbrev pub entry : CaseResult → Text × CaseResult
entry r = (name_of r, r)

keys-append : (xs ys : ByKind) → keys (xs ++ ys) ≡ keys xs ++ keys ys
keys-append [] ys = refl
keys-append (x ∷ xs) ys = ap (λ l. x.0 ∷ l) (keys-append xs ys)

module _ {A : Type 0} ⦃e : Eq A⦄ where
  elem-append : (a : A) (xs ys : List A) → elem a (xs ++ ys) ≡ (elem a xs || elem a ys)
  elem-append a [] ys = refl
  elem-append a (x ∷ xs) ys = ground (arith, elem-append a xs ys)

  beq_comm : (a b : A) → (a == b) ≡ (b == a)
  beq_comm a b = ground (arith, e.beq_iff a b, e.beq_iff b a)

  Nodup-append_one : (xs : List A) (a : A) → Nodup xs → elem a xs ≡ false → Nodup (xs ++ a ∷ [])
  Nodup-append_one [] a h g = (refl, tt)
  Nodup-append_one (x ∷ xs) a h g =
      let (differ, absent) = both_false (x == a) (elem a xs) g in
      (
        elem-append x xs (a ∷ []) ∙ neither (h.0) (beq_comm a x ∙ differ),
        Nodup-append_one xs a h.1 absent,
      )
    where
      both_false : (p q : Bool) → (p || q) ≡ false → (p ≡ false) × (q ≡ false)
      both_false p q k = ground (arith, k)

      neither : {p q : Bool} → p ≡ false → q ≡ false → (p || (q || false)) ≡ false
      neither {p} {q} h g = ground (arith, h, g)

ok-eq : {A : Type 0} {a b : A} → ok a ≡ ok b → a ≡ b
ok-eq h = cc h

nonblank-name :
    (field : Field) (what : Text) {name : Text}
    → nonblank field what ≡ ok name
    → strip is_space (text_of field) ≡ name
unfolding nonblank
nonblank-name none what h = cc h
nonblank-name (some text) what {name} h = split _ (is_empty (strip is_space text)) h
  where
    split :
        (e : Error) (b : Bool)
        → (if b then err e else ok (strip is_space text)) ≡ ok name
        → strip is_space text ≡ name
    split e true h = cc h
    split e false h = ok-eq h

pub collect_results-all :
    (by_kind : ByKind) (results : List CaseResult) {out : ByKind}
    → collect_results by_kind results ≡ ok out
    → Nodup (keys by_kind)
    → (out ≡ by_kind ++ map entry results) × Nodup (keys out)
unfolding collect_results
collect_results-all by_kind [] h nodup =
    subst (λ (x : ByKind). (x ≡ by_kind ++ []) × Nodup (keys x)) (ok-eq h)
      (sym (append-nil by_kind), nodup)
collect_results-all by_kind (r ∷ rest) {out} h nodup =
    let (kind, named, h1) = bind-eq-ok (nonblank r.kind (codes "kind")) _ h in
    let (fresh, h2) =
      raise_if-eq-ok (not (elem kind expected_kinds) || elem kind (keys by_kind)) _ _ h1 in
    let name = nonblank-name r.kind _ named in
    let absent = second (not (elem kind expected_kinds)) (elem kind (keys by_kind)) fresh in
    let (all_kept, unique) = collect_results-all (by_kind ++ (kind, r) ∷ []) rest h2 (
      subst Nodup (sym (keys-append by_kind ((kind, r) ∷ [])))
        (Nodup-append_one (keys by_kind) kind nodup absent)) in
    (
      all_kept
          ∙ append_assoc by_kind ((kind, r) ∷ []) (map entry rest)
          ∙ ap (λ k. by_kind ++ (k, r) ∷ map entry rest) (sym name),
      unique,
    )
  where
    second : (p q : Bool) → (p || q) ≡ false → q ≡ false
    second p q k = ground (arith, k)

absent-any :
    (kind : Text) (test : CaseResult → Bool) (by_kind : ByKind)
    → elem kind (keys by_kind) ≡ false
    → any (λ e. e.0 == kind && test e.1) by_kind ≡ false
absent-any kind test [] h = refl
absent-any kind test (e ∷ rest) h = ground (arith, h, absent-any kind test rest)

pub lookup-any :
    (kind : Text) (test : CaseResult → Bool) (by_kind : ByKind)
    → Nodup (keys by_kind)
    → (elim (lookup kind by_kind) [ none ↦ false | some result ↦ test result ])
      ≡ any (λ e. e.0 == kind && test e.1) by_kind
lookup-any kind test [] nodup = refl
lookup-any kind test (e ∷ rest) nodup = elim (Bool-cases (e.0 == kind)) [
  | inl same ↦ rw same (
      sym (or_false (test e.1))
      ∙ ap (λ b. test e.1 || b)
          (sym (
            absent-any kind test rest
              (ap (λ k. elem k (keys rest)) (sym ((list_eq.beq_iff e.0 kind).0 same)) ∙ nodup.0))))
  | inr differ ↦ rw differ (lookup-any kind test rest nodup.1)
]
  where
    or_false : (b : Bool) → (b || false) ≡ b
    or_false true = refl
    or_false false = refl

pub is_empty-reason_if :
    (test : Bool) (reason : Text) (rest : List Text)
    → is_empty (reason_if test reason ++ rest) ≡ (not test && is_empty rest)
is_empty-reason_if true reason rest = refl
is_empty-reason_if false reason rest = refl

abbrev pub proves_use : CaseResult → Bool
proves_use r = is_true r.formed && is_true r.rendered && is_true r.agent_act_expressed_tendency

pub is_empty-unproved :
    (by_kind : ByKind) → is_empty (unproved by_kind) ≡ all (λ e. proves_use e.1) by_kind
unfolding unproved
is_empty-unproved [] = refl
is_empty-unproved ((kind, r) ∷ rest) =
    is_empty-reason_if (not (is_true r.formed)) _ _
    ∙ ap (λ b. not (not (is_true r.formed)) && b)
        (is_empty-reason_if (not (is_true r.rendered)) _ _
          ∙ ap (λ b. not (not (is_true r.rendered)) && b)
              (is_empty-reason_if (not (is_true r.agent_act_expressed_tendency)) _ _
                ∙ ap (λ b. not (not (is_true r.agent_act_expressed_tendency)) && b)
                    (is_empty-unproved rest)))
    ∙ regroup (is_true r.formed) (is_true r.rendered) (is_true r.agent_act_expressed_tendency) _
  where
    regroup :
        (a b c d : Bool) → (not (not a) && (not (not b) && (not (not c) && d))) ≡ (a && b && c && d)
    regroup a b c d = ground arith

pub misses_kind-all :
    (by_kind : ByKind) (kinds : List Text)
    → not (misses_kind by_kind kinds) ≡ all (λ k. elem k (keys by_kind)) kinds
misses_kind-all by_kind [] = refl
misses_kind-all by_kind (k ∷ kinds) = ground (arith, misses_kind-all by_kind kinds)

module _ {A : Type 0} where
  pub all-and : (p q : A → Bool) (xs : List A) → all (λ x. p x && q x) xs ≡ (all p xs && all q xs)
  all-and p q [] = refl
  all-and p q (x ∷ xs) = ground (arith, all-and p q xs)

  pub all-not : (p : A → Bool) (xs : List A) → all (λ x. not (p x)) xs ≡ not (any p xs)
  all-not p [] = refl
  all-not p (x ∷ xs) = ground (arith, all-not p xs)

  pub all-same : (p q : A → Bool) (xs : List A) → ((x : A) → p x ≡ q x) → all p xs ≡ all q xs
  all-same p q [] h = refl
  all-same p q (x ∷ xs) h = ground (arith, h x, all-same p q xs h)
