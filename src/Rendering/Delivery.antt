-- ===== src/Rendering/Delivery.antt =====
-- The text and the items of a rendered context (`render_memory_context` of rendering.py).
use mathlib.Core.Path.{subst}
use mathlib.Core.List.{append-nil, append_assoc}
use chora_mem.Prelude.{
  ℕ, ◌≤◌, true, false, List, [], ◌∷◌, ◌++◌, Option, none, some, map, ltb→ge, ◌≡◌, refl, sym, ap,
  ◌∙◌, arith, ◌⊎◌, inl, inr,
}
use chora_mem.Text.{Text}
use chora_mem.Result.{ok, err, Result-cases, bind-eq-ok, ◌>>=◌}
use chora_mem.Rendering.{
  RenderItem, Section, Count, natural, other, Budget, exceeds, over_limit, with_item, join_sections,
  deliver, MemoryContext, RenderedMemoryContext, Rendered, validated_items, validate_budget_options,
  render_memory_context,
}

-- a list with some of its members left out
pub data IsPart {A : Type 0} : List A → List A → Type 0 where
  nothing : IsPart [] []
  keep : {x : A} {xs ys : List A} → IsPart xs ys → IsPart (x ∷ xs) (x ∷ ys)
  leave : {x : A} {xs ys : List A} → IsPart xs ys → IsPart xs (x ∷ ys)

-- the sections that items make, one after the other
unfoldable pub place : List Section → List RenderItem → List Section
place sections [] = sections
place sections (item ∷ rest) = place (with_item sections item) rest

abbrev pub Within : ℕ → Count → Type 0
Within n (natural used) = used ≤ n
Within n other = ⊥

abbrev pub Fits : Budget → Text → Type 0
Fits none text = Unit
Fits (some (n, token_count)) text = Within n (token_count text)

over_limit-Within : (n : ℕ) (c : Count) → over_limit n c ≡ ok false → Within n c
over_limit-Within n (natural used) h = ground (arith, ltb→ge n used)
over_limit-Within n other h = cc h

exceeds-Fits : (budget : Budget) (text : Text) → exceeds budget text ≡ ok false → Fits budget text
exceeds-Fits none text h = tt
exceeds-Fits (some (n, token_count)) text h = over_limit-Within n (token_count text) h

-- What a run of the loop has made, from the sections and refs that it started with.
pub record IsDelivery (budget : Budget) (items : List RenderItem) (sections : List Section)
    (refs : List Text) (result : List Section × List Text) : Type 0 where
  pub kept : List RenderItem
  pub is_part : IsPart kept items
  pub sections_eq : result.0 ≡ place sections kept
  pub refs_eq : result.1 ≡ refs ++ map (λ i. i.memory_ref) kept
  pub fits : (result.0 ≡ sections) ⊎ Fits budget (join_sections result.0)

module _ (budget : Budget) (sections : List Section) (refs : List Text) (item : RenderItem)
    (rest : List RenderItem) where
  abbrev candidate : List Section
  candidate = with_item sections item

  deliver-left :
      exceeds budget (join_sections candidate) ≡ ok true
      → deliver budget sections refs (item ∷ rest) ≡ deliver budget sections refs rest
  unfolding deliver
  deliver-left over = ground (arith, over)

  deliver-kept :
      exceeds budget (join_sections candidate) ≡ ok false
      → deliver budget sections refs (item ∷ rest)
        ≡ deliver budget candidate (refs ++ item.memory_ref ∷ []) rest
  unfolding deliver
  deliver-kept within = ground (arith, within)

  deliver-err :
      (e : _) {result : List Section × List Text}
      → exceeds budget (join_sections candidate) ≡ err e
      → deliver budget sections refs (item ∷ rest) ≡ ok result
      → ⊥
  unfolding deliver
  deliver-err e fails h = ground (arith, fails, h)

  IsDelivery-left :
      {result : List Section × List Text}
      → IsDelivery budget rest sections refs result
      → IsDelivery budget (item ∷ rest) sections refs result
  IsDelivery-left d = record {
    kept = d.kept;
    is_part = leave d.is_part;
    sections_eq = d.sections_eq;
    refs_eq = d.refs_eq;
    fits = d.fits;
  }

  Fits-kept :
      (made : List Section)
      → Fits budget (join_sections candidate)
      → (made ≡ candidate) ⊎ Fits budget (join_sections made)
      → Fits budget (join_sections made)
  Fits-kept made fit (inl same) = subst (λ s. Fits budget (join_sections s)) (sym same) fit
  Fits-kept made fit (inr fits) = fits

  IsDelivery-kept :
      {result : List Section × List Text}
      → Fits budget (join_sections candidate)
      → IsDelivery budget rest candidate (refs ++ item.memory_ref ∷ []) result
      → IsDelivery budget (item ∷ rest) sections refs result
  unfolding place
  IsDelivery-kept fit d = record {
    kept = item ∷ d.kept;
    is_part = keep d.is_part;
    sections_eq = d.sections_eq;
    refs_eq = d.refs_eq ∙ append_assoc refs (item.memory_ref ∷ []) _;
    fits = inr (Fits-kept _ fit d.fits);
  }

ok-eq : {A : Type 0} {a b : A} → ok a ≡ ok b → a ≡ b
ok-eq h = cc h

deliver-nil :
    (budget : Budget) (sections : List Section) (refs : List Text)
    (result : List Section × List Text)
    → deliver budget sections refs [] ≡ ok result
    → (sections, refs) ≡ result
unfolding deliver
deliver-nil budget sections refs result h = ok-eq h

IsDelivery-nothing :
    (budget : Budget) (sections : List Section) (refs : List Text)
    → IsDelivery budget [] sections refs (sections, refs)
unfolding place
IsDelivery-nothing budget sections refs = record {
  kept = [];
  is_part = nothing;
  sections_eq = refl;
  refs_eq = sym (append-nil refs);
  fits = inl refl;
}

-- The loop keeps some of the items, in order, and drops each of the others whole; it returns the
-- sections that the kept ones make and their refs, and the text of the sections is within the
-- budget once anything is kept.
pub deliver-IsDelivery :
    (budget : Budget) (sections : List Section) (refs : List Text) (items : List RenderItem)
    (result : List Section × List Text)
    → deliver budget sections refs items ≡ ok result
    → IsDelivery budget items sections refs result
deliver-IsDelivery budget sections refs [] result h =
    subst (IsDelivery budget [] sections refs) (deliver-nil budget sections refs result h)
      (IsDelivery-nothing budget sections refs)
deliver-IsDelivery budget sections refs (item ∷ rest) result h =
    elim (Result-cases (exceeds budget (join_sections (with_item sections item)))) [
      | inl (true, over) ↦ IsDelivery-left budget sections refs item rest (
          deliver-IsDelivery budget sections refs rest result
            (sym (deliver-left budget sections refs item rest over) ∙ h))
      | inl (false, within) ↦
          IsDelivery-kept budget sections refs item rest (exceeds-Fits budget _ within) (
            deliver-IsDelivery budget (with_item sections item) (refs ++ item.memory_ref ∷ []) rest
              result (sym (deliver-kept budget sections refs item rest within) ∙ h))
      | inr (e, fails) ↦ absurd (deliver-err budget sections refs item rest e fails h)
    ]

abbrev pub rendered_of : List Section × List Text → RenderedMemoryContext
rendered_of made = record { text = join_sections made.0; memory_refs = made.1 }

-- A context that renders has valid options and items. Its text is made of some of the items, in
-- order, its refs are exactly the refs of those, and the text is within the budget unless nothing
-- is delivered.
pub render_memory_context-IsDelivery :
    (context : MemoryContext) (max_tokens : Option Count) (token_count : Option (Text → Count))
    (rendered : RenderedMemoryContext)
    → render_memory_context context max_tokens token_count ≡ ok rendered
    → (budget : Budget) × (items : Rendered) × (sections : List Section) × (validate_budget_options
          max_tokens token_count
        ≡ ok budget)
      × (validated_items context ≡ ok items)
      × (rendered.text ≡ join_sections sections)
      × IsDelivery budget items.0 [] [] (sections, rendered.memory_refs)
unfolding render_memory_context
render_memory_context-IsDelivery context max_tokens token_count rendered h =
    let (budget, options, h1) = bind-eq-ok (validate_budget_options max_tokens token_count) _ h in
    let (items, valid, h2) = bind-eq-ok (validated_items context) _ h1 in
    let (made, delivered, h3) = bind-eq-ok (deliver budget [] [] items.0) _ h2 in
    let same : rendered_of made ≡ rendered = ok-eq h3 in
    (
      budget,
      items,
      made.0,
      options,
      valid,
      sym (ap (λ r. r.text) same),
      subst (λ refs. IsDelivery budget items.0 [] [] (made.0, refs)) (ap (λ r. r.memory_refs) same)
          (deliver-IsDelivery budget [] [] items.0 made delivered),
    )

deliver-unbounded :
    (sections : List Section) (refs : List Text) (items : List RenderItem)
    → deliver none sections refs items
      ≡ ok (place sections items, refs ++ map (λ i. i.memory_ref) items)
unfolding deliver place
deliver-unbounded sections refs [] = ap (λ r. ok (sections, r)) (sym (append-nil refs))
deliver-unbounded sections refs (item ∷ rest) =
    deliver-unbounded (with_item sections item) (refs ++ item.memory_ref ∷ []) rest
    ∙ ap (λ r. ok (place (with_item sections item) rest, r))
        (append_assoc refs (item.memory_ref ∷ []) _)

-- Without a budget, a context whose items are valid renders, and every item is delivered: the text
-- is made of all of them, in order, and the refs are all of theirs.
pub render_memory_context-unbounded :
    (context : MemoryContext) (items : Rendered)
    → validated_items context ≡ ok items
    → render_memory_context context none none
      ≡ ok (rendered_of (place [] items.0, map (λ i. i.memory_ref) items.0))
unfolding render_memory_context validate_budget_options
render_memory_context-unbounded context items h =
    ap (λ m. m >>= λ valid. (deliver none [] [] valid.0 >>= λ made. ok (rendered_of made))) h
    ∙ ap (λ m. m >>= λ made. ok (rendered_of made)) (deliver-unbounded [] [] items.0)
