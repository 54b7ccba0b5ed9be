-- ===== src/Rendering/Refs.antt =====
-- The refs of a delivery (`render_memory_context` of rendering.py).
use mathlib.Core.Path.{subst}
use mathlib.Core.List.{map-append}
use chora_mem.Prelude.{
  Bool, true, false, ◌||◌, List, [], ◌∷◌, ◌++◌, Option, map, elem, Nodup, Eq, ◌==◌, is_empty,
  nat_eq, list_eq, Bool-cases, if◌then◌else◌, ◌≡◌, ◌⊎◌, refl, sym, ap, ◌∙◌, arith, inl, inr,
}
use chora_mem.Text.{Text, codes, strip}
use chora_mem.Text.Unicode.{is_space}
use chora_mem.Result.{Result, ok, bind-eq-ok}
use chora_mem.Rendering.{
  MemoryText, EpisodeEvidence, MemoryContext, RenderItem, Rendered, RenderedMemoryContext, Count,
  validate_ref, scoped_text, append_item, append_items, append_evidence, append_all_evidence,
  validated_items, render_memory_context,
}
use chora_mem.Rendering.Delivery.{IsPart, nothing, keep, leave, render_memory_context-IsDelivery}

ok-eq : {A : Type 0} {a b : A} → ok a ≡ ok b → a ≡ b
ok-eq h = cc h

module _ {A : Type 0} ⦃e : Eq A⦄ where
  elem-append_one : (a x : A) (xs : List A) → elem a (xs ++ x ∷ []) ≡ (x == a || elem a xs)
  elem-append_one a x [] = refl
  elem-append_one a x (y ∷ xs) = ground (arith, elem-append_one a x xs)

  eq-of-elem : (x y : A) (xs : List A) → elem x (y ∷ xs) ≡ false → (x == y) ≡ false
  eq-of-elem x y xs h = elim (Bool-cases (x == y)) [
    | inl same ↦
        subst (λ z. elem z (y ∷ xs) ≡ false → (z == y) ≡ false) (sym ((e.beq_iff x y).0 same))
          (λ g. ground (arith, g, (e.beq_iff y y).1 refl)) h
    | inr differ ↦ differ
  ]

  Nodup-append_one : (x : A) (xs : List A) → elem x xs ≡ false → Nodup xs → Nodup (xs ++ x ∷ [])
  Nodup-append_one x [] n u = (refl, tt)
  Nodup-append_one x (y ∷ xs) n u = (
    ground (arith, elem-append_one y x xs, eq-of-elem x y xs n, u.0),
    Nodup-append_one x xs (ground (arith, n)) u.1,
  )

  IsPart-elem : (a : A) {xs ys : List A} → IsPart xs ys → elem a ys ≡ false → elem a xs ≡ false
  IsPart-elem a nothing n = n
  IsPart-elem a (keep p) n = ground (arith, IsPart-elem a p)
  IsPart-elem a (leave p) n = ground (arith, IsPart-elem a p)

  IsPart-Nodup : {xs ys : List A} → IsPart xs ys → Nodup ys → Nodup xs
  IsPart-Nodup nothing u = u
  IsPart-Nodup (keep p) u = (IsPart-elem _ p u.0, IsPart-Nodup p u.1)
  IsPart-Nodup (leave p) u = IsPart-Nodup p u.1

IsPart-map :
    {A B : Type 0} (f : A → B) {xs ys : List A} → IsPart xs ys → IsPart (map f xs) (map f ys)
IsPart-map f nothing = nothing
IsPart-map f (keep p) = keep (IsPart-map f p)
IsPart-map f (leave p) = leave (IsPart-map f p)

abbrev refs_of : List RenderItem → List Text
refs_of = map (λ i. i.memory_ref)

-- The refs seen are those of the items rendered, none of them twice.
abbrev AreUnique : Rendered → Type 0
AreUnique state = Nodup (refs_of state.0) × ((a : Text) → elem a (refs_of state.0) ≡ elem a state.1)

validate_ref-new :
    (ref : Text) (seen : List Text) (kind : Text) {seen_now : List Text}
    → validate_ref ref seen kind ≡ ok seen_now
    → (elem ref seen ≡ false) × (seen_now ≡ ref ∷ seen)
unfolding validate_ref
validate_ref-new ref seen kind h = ground (arith, h)

-- an item with a ref that was not seen
added-AreUnique :
    (state : Rendered) (item : RenderItem)
    → AreUnique state
    → elem item.memory_ref state.1 ≡ false
    → AreUnique (state.0 ++ item ∷ [], item.memory_ref ∷ state.1)
added-AreUnique state item u n =
    let grown : refs_of (state.0 ++ item ∷ []) ≡ refs_of state.0 ++ item.memory_ref ∷ [] =
      map-append _ state.0 (item ∷ []) in
    (
      subst Nodup (sym grown)
          (Nodup-append_one item.memory_ref (refs_of state.0) (u.1 item.memory_ref ∙ n) u.0),
      λ a.
          ap (elem a) grown
          ∙ (elem-append_one a item.memory_ref (refs_of state.0)
              ∙ ap (λ b. item.memory_ref == a || b) (u.1 a)),
    )

-- an item that is left out, or whose ref is checked
if-ok :
    {A : Type 0} (test : Bool) (a : A) (m : Result A) {b : A}
    → (if test then ok a else m) ≡ ok b
    → (a ≡ b) ⊎ (m ≡ ok b)
if-ok true a m h = inl (cc h)
if-ok false a m h = inr h

checked-AreUnique :
    (kind : Text) (state : Rendered) (item : RenderItem) (seen : List Text) {after : Rendered}
    → AreUnique state
    → validate_ref item.memory_ref state.1 kind ≡ ok seen
    → ok (state.0 ++ item ∷ [], seen) ≡ ok after
    → AreUnique after
checked-AreUnique kind state item seen u valid h =
    let (n, now) = validate_ref-new item.memory_ref state.1 kind valid in
    subst AreUnique (ok-eq h)
      (subst (λ s. AreUnique (state.0 ++ item ∷ [], s)) (sym now) (added-AreUnique state item u n))

append_item-AreUnique :
    (section : Text) (scoped : Bool) (item : MemoryText) (state : Rendered) {after : Rendered}
    → AreUnique state
    → append_item section scoped item state ≡ ok after
    → AreUnique after
unfolding append_item
append_item-AreUnique section scoped item state u h =
    elim (if-ok (is_empty (strip is_space item.text)) state _ h) [
      | inl same ↦ subst AreUnique same u
      | inr added ↦
          let (seen, valid, h1) =
            bind-eq-ok (validate_ref item.memory_ref state.1 (codes "memory text")) _ added in
          let (labelled, _, h2) =
            bind-eq-ok (scoped_text scoped item.application_scope (strip is_space item.text)) _
              h1 in
          checked-AreUnique (codes "memory text") state _ seen u valid h2
    ]

append_items-AreUnique :
    (section : Text) (scoped : Bool) (items : List MemoryText) (state : Rendered) {after : Rendered}
    → AreUnique state
    → append_items section scoped items state ≡ ok after
    → AreUnique after
unfolding append_items
append_items-AreUnique section scoped [] state u h = subst AreUnique (ok-eq h) u
append_items-AreUnique section scoped (item ∷ rest) state u h =
    let (next, first, others) = bind-eq-ok (append_item section scoped item state) _ h in
    append_items-AreUnique section scoped rest next
      (append_item-AreUnique section scoped item state u first) others

append_evidence-AreUnique :
    (item : EpisodeEvidence) (state : Rendered) {after : Rendered}
    → AreUnique state
    → append_evidence item state ≡ ok after
    → AreUnique after
unfolding append_evidence
append_evidence-AreUnique item state u h =
    elim (if-ok (is_empty (strip is_space item.text)) state _ h) [
      | inl same ↦ subst AreUnique same u
      | inr added ↦
          let (seen, valid, h1) =
            bind-eq-ok (validate_ref item.memory_ref state.1 (codes "episode evidence")) _ added in
          checked-AreUnique (codes "episode evidence") state _ seen u valid h1
    ]

append_all_evidence-AreUnique :
    (items : List EpisodeEvidence) (state : Rendered) {after : Rendered}
    → AreUnique state
    → append_all_evidence items state ≡ ok after
    → AreUnique after
unfolding append_all_evidence
append_all_evidence-AreUnique [] state u h = subst AreUnique (ok-eq h) u
append_all_evidence-AreUnique (item ∷ rest) state u h =
    let (next, first, others) = bind-eq-ok (append_evidence item state) _ h in
    append_all_evidence-AreUnique rest next (append_evidence-AreUnique item state u first) others

validated_items-AreUnique :
    (context : MemoryContext) {items : Rendered}
    → validated_items context ≡ ok items
    → AreUnique items
unfolding validated_items
validated_items-AreUnique context h =
    let (a, first, h1) =
      bind-eq-ok (append_items (codes "CONSTITUTION") false (context.constitution ∷ []) ([], [])) _
        h in
    let (b, second, h2) =
      bind-eq-ok (append_items (codes "RECOLLECTIONS") true context.recollections a) _ h1 in
    let (c, third, fourth) =
      bind-eq-ok (append_items (codes "DISPOSITIONS") true context.dispositions b) _ h2 in
    append_all_evidence-AreUnique context.episode_evidence c
      (append_items-AreUnique (codes "DISPOSITIONS") true context.dispositions b
        (append_items-AreUnique (codes "RECOLLECTIONS") true context.recollections a
          (append_items-AreUnique (codes "CONSTITUTION") false (context.constitution ∷ []) ([], [])
            (tt, λ r. refl) first)
          second)
        third)
      fourth

-- The refs that a rendered context delivers are all different.
pub render_memory_context-Nodup :
    (context : MemoryContext) (max_tokens : Option Count) (token_count : Option (Text → Count))
    (rendered : RenderedMemoryContext)
    → render_memory_context context max_tokens token_count ≡ ok rendered
    → Nodup rendered.memory_refs
render_memory_context-Nodup context max_tokens token_count rendered h =
    let (budget, items, sections, _, valid, _, d) =
      render_memory_context-IsDelivery context max_tokens token_count rendered h in
    subst Nodup (sym d.refs_eq)
      (IsPart-Nodup (IsPart-map _ d.is_part) (validated_items-AreUnique context valid).0)
