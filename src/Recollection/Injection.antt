-- ===== src/Recollection/Injection.antt =====
-- The block that `bind_recollection` returns (source_materials.py).
use mathlib.Core.Path.{subst}
use chora_mem.Prelude.{
  or-false, ℕ, ◌≤◌, ◌≡◌, ◌≢◌, refl, ap, ◌∙◌, false, ◌||◌, List, [], ◌∷◌, some, any, elem, is_empty,
  All, has_duplicates, ltb, ltb→ge, Bool-cases, inl, inr, nat_eq, list_eq, ◌==◌,
}
use chora_mem.Text.{Text, codes, contains, strip, split, join}
use chora_mem.Text.Unicode.{is_space}
use chora_mem.Text.Lines.{Avoids, split-append, split-join}
use chora_mem.Text.Size.{utf8_length}
use chora_mem.Result.{ok, bind-eq-ok, raise_if-eq-ok}
use chora_mem.Checks.{
  utf8_size, validate_basis_ref, meaningful_lines, max_change_text_bytes, max_tagged_text_bytes,
}
use chora_mem.Checks.Laws.{
  IsBasisRef, utf8_size-eq-ok, has_space_or_control-Avoids, validate_basis_ref-IsBasisRef,
  meaningful_lines-IsUnbroken, join-Avoids,
}
use chora_mem.Recollection.{
  RecollectionMaterial, no_memory, reserved_protocol_lines, bind_recollection, bind_body,
  bind_normalized, tagged_recollection, validate_basis_refs,
}
use chora_mem.Recollection.Reserved.{join-elem_reserved}

-- the lines of a block NEW_RECOLLECTION TEXT
abbrev pub recollection_block : Text → List Text → List Text
recollection_block body refs =
    codes "TARGET"
    ∷ codes "NEW_RECOLLECTION"
    ∷ codes "APPLICATION"
    ∷ codes "OTHER"
    ∷ codes "CHANGE"
    ∷ codes "TEXT"
    ∷ body
    ∷ codes "BASIS"
    ∷ refs

pub validate_basis_refs-IsBasisRef :
    (label : Text) (refs : List Text) → validate_basis_refs label refs ≡ ok tt → All IsBasisRef refs
unfolding validate_basis_refs
validate_basis_refs-IsBasisRef label [] h = tt
validate_basis_refs-IsBasisRef label (ref ∷ refs) h =
    let (_, first, rest) = bind-eq-ok (validate_basis_ref ref label) _ h in
    (validate_basis_ref-IsBasisRef ref label first, validate_basis_refs-IsBasisRef label refs rest)

refs_avoid : (refs : List Text) → All IsBasisRef refs → All (Avoids b'\n') refs
refs_avoid [] h = tt
refs_avoid (ref ∷ refs) h = (has_space_or_control-Avoids ref h.0.plain, refs_avoid refs h.1)

tagged_recollection-split :
    (body : Text) (refs : List Text)
    → is_empty refs ≡ false
    → Avoids b'\n' body
    → All (Avoids b'\n') refs
    → split b'\n' (tagged_recollection body refs) ≡ recollection_block body refs
unfolding split
tagged_recollection-split body [] n b h = cc
tagged_recollection-split body (ref ∷ refs) n b h =
    ap
      (λ (ls : List Text).
        codes "TARGET"
        ∷ codes "NEW_RECOLLECTION"
        ∷ codes "APPLICATION"
        ∷ codes "OTHER"
        ∷ codes "CHANGE"
        ∷ codes "TEXT"
        ∷ ls)
      (split-append b'\n' body _ b
        ∙ ap (λ (ls : List Text). body ∷ codes "BASIS" ∷ ls) (split-join ref refs h))

-- the body on one line: its meaningful lines, stripped and joined by spaces
abbrev pub normalized : Text → Text
normalized body = join (codes " ") (meaningful_lines is_space body)

-- One block of the given body line, no word of the protocol and within 4 KiB, in all within 64 KiB,
-- that cites the given refs.
pub record IsRecollectionBlock (body : Text) (refs : List Text) (text : Text) : Type 0 where
  pub body_size : ℕ
  pub size : ℕ
  pub lines : split b'\n' text ≡ recollection_block body refs
  pub body_filled : is_empty body ≡ false
  pub body_free : elem body reserved_protocol_lines ≡ false
  pub body_sized : utf8_length body ≡ some body_size
  pub body_short : body_size ≤ max_change_text_bytes
  pub sized : utf8_length text ≡ some size
  pub short : size ≤ max_tagged_text_bytes

bind_normalized-block :
    (refs : List Text) (body : Text) {text : Text}
    → Avoids b'\n' body
    → elem body reserved_protocol_lines ≡ false
    → bind_normalized refs body ≡ ok text
    → IsRecollectionBlock body refs text
unfolding bind_normalized
bind_normalized-block refs body {text} b free h =
    let (filled, k0) = raise_if-eq-ok (is_empty body) _ _ h in
    let (n, sized, k1) = bind-eq-ok (utf8_size body (codes "recollection body")) _ k0 in
    let (short, k2) = raise_if-eq-ok (ltb max_change_text_bytes n) _ _ k1 in
    let (unique, k3) = raise_if-eq-ok (is_empty refs || has_duplicates refs) _ _ k2 in
    let (_, valid, k4) = bind-eq-ok (validate_basis_refs (codes "basis ref") refs) _ k3 in
    let (m, total, k5) =
      bind-eq-ok (utf8_size (tagged_recollection body refs) (codes "tagged text")) _ k4 in
    let (fits, k6) = raise_if-eq-ok (ltb max_tagged_text_bytes m) _ _ k5 in
    let same : tagged_recollection body refs ≡ text = cc k6 in
    let some_ref : is_empty refs ≡ false = or-false (is_empty refs) (has_duplicates refs) unique in
    record {
      body_size = n;
      size = m;
      lines = rw (← same) (
          tagged_recollection-split body refs some_ref b
            (refs_avoid refs (validate_basis_refs-IsBasisRef _ refs valid)));
      body_filled = filled;
      body_free = free;
      body_sized = utf8_size-eq-ok body (codes "recollection body") sized;
      body_short = ltb→ge max_change_text_bytes n short;
      sized =
          subst (λ t. utf8_length t ≡ some m) same
            (utf8_size-eq-ok (tagged_recollection body refs) (codes "tagged text") total);
      short = ltb→ge max_tagged_text_bytes m fits;
    }

bind_body-block :
    (refs : List Text) (body : Text) {text : Text}
    → bind_body refs body ≡ ok text
    → IsRecollectionBlock (normalized body) refs text
unfolding bind_body
bind_body-block refs body h =
    let lines = meaningful_lines is_space body in
    let (_, k0) = raise_if-eq-ok (is_empty (strip is_space body)) _ _ h in
    let (_, k1) = raise_if-eq-ok (contains (codes "```") body) _ _ k0 in
    let (_, k2) = raise_if-eq-ok (any (λ line. line == no_memory) lines) _ _ k1 in
    let (plain, k3) =
      raise_if-eq-ok (any (λ line. elem line reserved_protocol_lines) lines) _ _ k2 in
    bind_normalized-block refs (join (codes " ") lines)
      (join-Avoids (codes " ") lines (refl, tt) (meaningful_lines-IsUnbroken is_space body))
      (join-elem_reserved lines plain) k3

-- A body that binds, and is not NO_MEMORY, becomes exactly one NEW_RECOLLECTION TEXT block: its
-- lines are the fixed header, the body joined to one line, BASIS and the material's refs. The body
-- line is not empty, no reserved protocol line and within 4 KiB; the whole is within 64 KiB.
pub bind_recollection-block :
    (material : RecollectionMaterial) (body : Text) {text : Text}
    → bind_recollection material body ≡ ok text
    → strip is_space body ≢ no_memory
    → IsRecollectionBlock (normalized body) material.basis_refs text
unfolding bind_recollection
bind_recollection-block material body h ne = elim (Bool-cases (strip is_space body == no_memory)) [
  | inl same ↦ absurd (ne ((list_eq.beq_iff (strip is_space body) no_memory).0 same))
  | inr other ↦ bind_body-block material.basis_refs body (rw other at h)
]
