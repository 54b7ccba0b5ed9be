-- ===== src/Index/Chunks/Coverage.antt =====
-- The spans of tokens that `chunk_text` steps through (local_memory_index.py).
use chora_mem.Prelude.{
  ℕ, zero, suc, ◌+◌, ◌-◌, ◌≤◌, ◌<◌, false, List, [], ◌∷◌, All, leb, eqb, Bool-cases, ◌≡◌, refl,
  arith, ◌⊎◌, inl, inr,
}
use chora_mem.Index.Chunks.{chunk_spans, min}

-- a chunk of at least one token and at most `size`, in range
pub record IsSpan (size total : ℕ) (span : ℕ × ℕ) : Type 0 where
  pub nonempty : span.0 < span.1
  pub bounded : span.1 ≤ span.0 + size
  pub in_range : span.1 ≤ total

-- some chunk holds the token
abbrev pub HoldsToken : ℕ → List (ℕ × ℕ) → Type 0
HoldsToken i [] = ⊥
HoldsToken i (span ∷ spans) = ((span.0 ≤ i) × (i < span.1)) ⊎ HoldsToken i spans

-- Neighbours overlap by the given number of tokens, and the last chunk ends with the text.
abbrev pub AreLinked : ℕ → ℕ → List (ℕ × ℕ) → Type 0
AreLinked overlap total [] = Unit
AreLinked overlap total (span ∷ []) = span.1 ≡ total
AreLinked overlap total (span ∷ next ∷ spans) =
    (next.0 + overlap ≡ span.1) × AreLinked overlap total (next ∷ spans)

module _ (size overlap total : ℕ) (positive : overlap < size) where
  chunk_spans-All :
      (fuel start : ℕ)
      → All (IsSpan size total) (chunk_spans size (size - overlap) total fuel start)
  unfolding chunk_spans
  chunk_spans-All zero start = tt
  chunk_spans-All (suc fuel) start =
      ground (arith, chunk_spans-All fuel (start + (size - overlap)), positive)

  chunk_spans-HoldsToken :
      (fuel start i : ℕ)
      → start ≤ i
      → i < total
      → total ≤ start + fuel
      → HoldsToken i (chunk_spans size (size - overlap) total fuel start)
  unfolding chunk_spans
  chunk_spans-HoldsToken zero start i le lt enough = absurd (omega arith)
  chunk_spans-HoldsToken (suc fuel) start i le lt enough =
      ground (arith, chunk_spans-HoldsToken fuel (start + (size - overlap)) i, positive)

  StartsAt : ℕ → List (ℕ × ℕ) → Type 0
  StartsAt start [] = ⊥
  StartsAt start (span ∷ spans) = span.0 ≡ start

  link :
      (start end : ℕ) (spans : List (ℕ × ℕ))
      → AreLinked overlap total spans
      → StartsAt (start + (size - overlap)) spans
      → end ≡ start + size
      → AreLinked overlap total ((start, end) ∷ spans)
  unfolding StartsAt
  link start end [] l s e = absurd s
  link start end (span ∷ spans) l s e = (omega (arith, s, e, positive), l)

  chunk_spans-AreLinked :
      (fuel start : ℕ)
      → start < total
      → total ≤ start + fuel
      → AreLinked overlap total (chunk_spans size (size - overlap) total fuel start)
        × StartsAt start (chunk_spans size (size - overlap) total fuel start)
  unfolding chunk_spans StartsAt
  chunk_spans-AreLinked zero start lt enough = absurd (omega arith)
  chunk_spans-AreLinked (suc fuel) start lt enough =
      let end = min (start + size) total in
      let later = chunk_spans size (size - overlap) total fuel (start + (size - overlap)) in
      elim (Bool-cases (eqb end total)) [
        | inl last ↦ ground (arith, last, lt)
        | inr more ↦
            let (linked, starts) =
              chunk_spans-AreLinked fuel (start + (size - overlap)) (ground (arith, more, positive))
                (omega (arith, enough, positive)) in
            rw (not_done lt)
              (rw more (link start end later linked starts (ground (arith, more)), refl))
      ]
    where
      not_done : {a b : ℕ} → a < b → leb b a ≡ false
      not_done h = ground (arith, h)

-- The chunks of a text with tokens: each holds one token at least and `size` at most, neighbours
-- share exactly `overlap` tokens, the last ends with the last token, and every token `i` stands in one.
-- So the loop ends by its own tests within one round for each token.
pub chunk_spans-covers :
    (size overlap total i : ℕ)
    → overlap < size
    → i < total
    → All (IsSpan size total) (chunk_spans size (size - overlap) total total 0)
      × HoldsToken i (chunk_spans size (size - overlap) total total 0)
      × AreLinked overlap total (chunk_spans size (size - overlap) total total 0)
chunk_spans-covers size overlap total i positive lt = (
  chunk_spans-All size overlap total positive total 0,
  chunk_spans-HoldsToken size overlap total positive total 0 i (omega arith) lt (omega arith),
  (chunk_spans-AreLinked size overlap total positive total 0 (omega (arith, lt)) (omega arith)).0,
)
