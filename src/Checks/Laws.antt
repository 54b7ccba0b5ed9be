-- ===== src/Checks/Laws.antt =====
-- What the shared checks guarantee when they do not raise.
use chora_mem.Prelude.{
  ℕ, ◌≤◌, ◌≡◌, Bool, false, ◌||◌, List, [], ◌∷◌, some, any, elem, is_empty, select, map, All, arith,
  eqb, ltb→ge, nat_eq, list_eq,
}
use chora_mem.Text.{Text, strip, splitlines, join}
use chora_mem.Text.Unicode.{is_space, is_control}
use chora_mem.Text.Lines.{
  Avoids, IsUnbroken, All-append, All-imp, splitlines-IsUnbroken, unbroken_ne_newline,
}
use chora_mem.Text.Trim.{strip-All}
use chora_mem.Text.Size.{utf8_length}
use chora_mem.Result.{ok, bind-eq-ok, raise_if-eq-ok, raise_if-not}
use chora_mem.Checks.{
  utf8_size, validate_required_ref, validate_basis_ref, has_space_or_control, meaningful_lines,
  reserved_basis_refs, max_stable_ref_bytes,
}

-- A search that finds nothing has tested every member.
pub any-All {ℓ} :
    {A : Type ℓ} (p : A → Bool) (xs : List A) → any p xs ≡ false → All (λ x. p x ≡ false) xs
any-All p [] h = tt
any-All p (x ∷ xs) h = ground (arith, any-All p xs)

-- The size that a check has let pass is that of the text, and within its bound.
pub utf8_size-eq-ok :
    (text label : Text) {n : ℕ} → utf8_size text label ≡ ok n → utf8_length text ≡ some n
unfolding utf8_size
utf8_size-eq-ok text label h = ground arith

space_ne_newline : (c : ℕ) → (is_space c || is_control c) ≡ false → eqb c b'\n' ≡ false
unfolding is_space is_control
space_ne_newline c h = ground arith

-- A ref that `has_space_or_control` lets pass holds no newline.
pub has_space_or_control-Avoids : (ref : Text) → has_space_or_control ref ≡ false → Avoids b'\n' ref
unfolding has_space_or_control
has_space_or_control-Avoids ref h =
    All-imp _ _ ref space_ne_newline (any-All (λ c. is_space c || is_control c) ref h)

-- what a ref that `validate_basis_ref` lets pass satisfies
pub record IsBasisRef (ref : Text) : Type 0 where
  pub size : ℕ
  pub not_empty : is_empty ref ≡ false
  pub sized : utf8_length ref ≡ some size
  pub short : size ≤ max_stable_ref_bytes
  pub plain : has_space_or_control ref ≡ false
  pub free : elem ref reserved_basis_refs ≡ false

pub validate_basis_ref-IsBasisRef :
    (ref label : Text) → validate_basis_ref ref label ≡ ok tt → IsBasisRef ref
unfolding validate_basis_ref
validate_basis_ref-IsBasisRef ref label h =
    let (_, required, k) = bind-eq-ok (validate_required_ref ref label) _ h in
    let (not_empty, k1) = raise_if-eq-ok (is_empty ref) _ _ required in
    let (n, sized, k2) = bind-eq-ok (utf8_size ref label) _ k1 in
    let (plain, k3) = raise_if-eq-ok (has_space_or_control ref) _ _ k in
    record {
      size = n;
      not_empty = not_empty;
      sized = utf8_size-eq-ok ref label sized;
      short = ltb→ge max_stable_ref_bytes n (raise_if-not _ _ k2);
      plain = plain;
      free = raise_if-not _ _ k3;
    }

select-All {ℓ κ} :
    {A : Type ℓ} (P : A → Type κ) (p : A → Bool) (xs : List A) → All P xs → All P (select p xs)
select-All P p [] h = tt
select-All P p (x ∷ xs) h = ground (arith, select-All P p xs)

strip-All-IsUnbroken :
    (p : ℕ → Bool) (ls : List Text) → All IsUnbroken ls → All IsUnbroken (map (strip p) ls)
strip-All-IsUnbroken p [] h = tt
strip-All-IsUnbroken p (l ∷ ls) h = (strip-All _ p l h.0, strip-All-IsUnbroken p ls h.1)

-- No meaningful line holds a line break.
pub meaningful_lines-IsUnbroken :
    (p : ℕ → Bool) (text : Text) → All IsUnbroken (meaningful_lines p text)
unfolding meaningful_lines
meaningful_lines-IsUnbroken p text =
    select-All IsUnbroken _ (map (strip p) (splitlines text))
      (strip-All-IsUnbroken p (splitlines text) (splitlines-IsUnbroken text))

-- Lines joined by a text without newlines make a text without newlines.
pub join-Avoids :
    (sep : Text) (ls : List Text)
    → Avoids b'\n' sep
    → All IsUnbroken ls
    → Avoids b'\n' (join sep ls)
unfolding join
join-Avoids sep [] s h = tt
join-Avoids sep (l ∷ []) s h = unbroken_ne_newline l h.0
join-Avoids sep (l ∷ m ∷ ls) s h =
    All-append _ l _ (unbroken_ne_newline l h.0)
      (All-append _ sep _ s (join-Avoids sep (m ∷ ls) s h.1))
