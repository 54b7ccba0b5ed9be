-- ===== src/Disposition/Injection.antt =====
-- The block that `bind_disposition` returns (disposition_materials.py).
use mathlib.Core.Path.{subst}
use chora_mem.Prelude.{
  or-false, ℕ, ◌≤◌, ◌≡◌, ◌≢◌, ap, ◌∙◌, Bool, false, ◌||◌, not, List, [], ◌∷◌, some, elem, is_empty,
  length, All, has_duplicates, arith, ltb, eqb, ltb→ge, Bool-cases, inl, inr, nat_eq, list_eq, ◌==◌,
  if◌then◌else◌,
}
use chora_mem.Text.{Text, codes, strip, split, splitlines}
use chora_mem.Text.Unicode.{is_space}
use chora_mem.Text.Lines.{
  Avoids, split-append, split-join, one_line-IsUnbroken, unbroken_ne_newline,
}
use chora_mem.Text.Trim.{LastKept, strip-LastKept}
use chora_mem.Text.Size.{utf8_length}
use chora_mem.Result.{Result, ok, ◌>>◌, bind-eq-ok, raise_if-eq-ok}
use chora_mem.Checks.{
  max_stable_ref_bytes, utf8_size, max_change_text_bytes, max_tagged_text_bytes,
  has_space_or_control,
}
use chora_mem.Checks.Laws.{utf8_size-eq-ok, has_space_or_control-Avoids}
use chora_mem.Disposition.{
  FormationMaterial, no_change, invalid_ref, reserved_output_lines, bind_disposition, bind_value,
  tagged_disposition, validate_ref, validate_refs,
}

-- the lines of a block NEW_DISPOSITION TEXT
abbrev pub disposition_block : Text → Text → List Text → List Text
disposition_block application body refs =
    codes "TARGET"
    ∷ codes "NEW_DISPOSITION"
    ∷ codes "APPLICATION"
    ∷ application
    ∷ codes "CHANGE"
    ∷ codes "TEXT"
    ∷ body
    ∷ codes "BASIS"
    ∷ refs

-- A check that lets the rest run has passed.
invalid_unless :
    (b : Bool) (k : Result (Unit {0}))
    → ((if b then invalid_ref else ok tt) >> k) ≡ ok tt
    → (b ≡ false) × (k ≡ ok tt)
invalid_unless b k h = ground arith

plain_of : (b : Bool) → (if b then invalid_ref else ok tt) ≡ ok tt → b ≡ false
plain_of b h = ground arith

is_one : (n : ℕ) → not (eqb n 1) ≡ false → n ≡ 1
is_one n h = ground arith

validate_ref-Avoids : (ref : Text) → validate_ref ref ≡ ok tt → Avoids b'\n' ref
unfolding validate_ref
validate_ref-Avoids [] h = tt
validate_ref-Avoids (c ∷ ref) h =
    let (n, sized, k0) = bind-eq-ok (utf8_size (c ∷ ref) (codes "basis ref")) _ h in
    let (short, k1) = invalid_unless (ltb max_stable_ref_bytes n) _ k0 in
    has_space_or_control-Avoids (c ∷ ref) (plain_of (has_space_or_control (c ∷ ref)) k1)

validate_refs-Avoids : (refs : List Text) → validate_refs refs ≡ ok tt → All (Avoids b'\n') refs
unfolding validate_refs
validate_refs-Avoids [] h = tt
validate_refs-Avoids (ref ∷ refs) h =
    let (_, first, rest) = bind-eq-ok (validate_ref ref) _ h in
    (validate_ref-Avoids ref first, validate_refs-Avoids refs rest)

tagged_disposition-split :
    (application body : Text) (refs : List Text)
    → is_empty refs ≡ false
    → Avoids b'\n' application
    → Avoids b'\n' body
    → All (Avoids b'\n') refs
    → split b'\n' (tagged_disposition application body refs)
      ≡ disposition_block application body refs
unfolding split
tagged_disposition-split application body [] n a b h = cc
tagged_disposition-split application body (ref ∷ refs) n a b h =
    ap (λ (ls : List Text). codes "TARGET" ∷ codes "NEW_DISPOSITION" ∷ codes "APPLICATION" ∷ ls)
      (split-append b'\n' application _ a
        ∙ ap (λ (ls : List Text). application ∷ codes "CHANGE" ∷ codes "TEXT" ∷ ls)
            (split-append b'\n' body _ b
              ∙ ap (λ (ls : List Text). body ∷ codes "BASIS" ∷ ls) (split-join ref refs h)))

-- One block of the given body line within 4 KiB, in all within 64 KiB, with the given application
-- and refs.
pub record IsDispositionBlock (application body : Text) (refs : List Text) (text : Text)
    : Type 0 where
  pub body_size : ℕ
  pub size : ℕ
  pub lines : split b'\n' text ≡ disposition_block application body refs
  pub body_filled : is_empty body ≡ false
  pub body_free : elem body reserved_output_lines ≡ false
  pub body_sized : utf8_length body ≡ some body_size
  pub body_short : body_size ≤ max_change_text_bytes
  pub sized : utf8_length text ≡ some size
  pub short : size ≤ max_tagged_text_bytes

bind_value-block :
    (material : FormationMaterial) (body : Text) {text : Text}
    → Avoids b'\n' material.application
    → LastKept is_space body
    → bind_value material body ≡ ok text
    → IsDispositionBlock material.application body material.basis_refs text
unfolding bind_value
bind_value-block material body {text} a last h =
    let refs = material.basis_refs in
    let tagged = tagged_disposition material.application body refs in
    let (filled, k0) = raise_if-eq-ok (is_empty body) _ _ h in
    let (single, k1) = raise_if-eq-ok (not (eqb (length (splitlines body)) 1)) _ _ k0 in
    let (plain, k2) = raise_if-eq-ok _ _ _ k1 in
    let (n, sized, k3) = bind-eq-ok (utf8_size body (codes "disposition body")) _ k2 in
    let (short, k4) = raise_if-eq-ok (ltb max_change_text_bytes n) _ _ k3 in
    let (unique, k5) = raise_if-eq-ok (is_empty refs || has_duplicates refs) _ _ k4 in
    let (_, valid, k6) = bind-eq-ok (validate_refs refs) _ k5 in
    let (m, total, k7) = bind-eq-ok (utf8_size tagged (codes "tagged disposition")) _ k6 in
    let (fits, k8) = raise_if-eq-ok (ltb max_tagged_text_bytes m) _ _ k7 in
    let same : tagged ≡ text = cc k8 in
    let one : length (splitlines body) ≡ 1 = is_one (length (splitlines body)) single in
    let some_ref : is_empty refs ≡ false = or-false (is_empty refs) (has_duplicates refs) unique in
    record {
      body_size = n;
      size = m;
      lines = rw (← same) (
          tagged_disposition-split material.application body refs some_ref a
            (unbroken_ne_newline body (one_line-IsUnbroken body last one))
            (validate_refs-Avoids refs valid));
      body_filled = filled;
      body_free = or-false _ _ plain;
      body_sized = utf8_size-eq-ok body (codes "disposition body") sized;
      body_short = ltb→ge max_change_text_bytes n short;
      sized =
          subst (λ t. utf8_length t ≡ some m) same
            (utf8_size-eq-ok tagged (codes "tagged disposition") total);
      short = ltb→ge max_tagged_text_bytes m fits;
    }

-- A body that binds, and is not NO_CHANGE, becomes exactly one NEW_DISPOSITION TEXT block with the
-- material's application and refs: the stripped body as one line, within 4 KiB and no word of the protocol; the whole
-- is within 64 KiB. The application must hold no newline.
pub bind_disposition-block :
    (material : FormationMaterial) (body : Text) {text : Text}
    → Avoids b'\n' material.application
    → bind_disposition material body ≡ ok text
    → strip is_space body ≢ no_change
    → IsDispositionBlock material.application (strip is_space body) material.basis_refs text
unfolding bind_disposition
bind_disposition-block material body a h ne = elim (Bool-cases (strip is_space body == no_change)) [
  | inl same ↦ absurd (ne ((list_eq.beq_iff (strip is_space body) no_change).0 same))
  | inr other ↦
      bind_value-block material (strip is_space body) a (strip-LastKept is_space body)
        (rw other at h)
]
