-- ===== src/Index/Chunks.antt =====
-- `chunk_text` (local_memory_index.py). The tokenizer's offsets are a parameter.
pub mod Coverage
use chora_mem.Prelude.{
  ℕ, zero, suc, ◌+◌, ◌-◌, Bool, ◌||◌, List, [], ◌∷◌, is_empty, length, map, drop, leb, ltb, eqb,
  if◌then◌else◌,
}
use chora_mem.Text.{Text, codes}
use chora_mem.Result.{Result, ok, value_error, ◌>>=◌, ◌>>◌, raise_if}

abbrev pub chunk_tokens : ℕ
chunk_tokens = 220

abbrev pub overlap_tokens : ℕ
overlap_tokens = 32

-- where a token stands in the text
abbrev pub Offset : Type 0
Offset = ℕ × ℕ

-- `xs[:n]`
abbrev pub take {ℓ} : {A : Type ℓ} → ℕ → List A → List A
take zero xs = []
take (suc n) [] = []
take (suc n) (x ∷ xs) = x ∷ take n xs

-- `text[start:end]`
abbrev pub slice : ℕ → ℕ → Text → Text
slice start end text = drop start (take end text)

-- `offsets[i]`, for an index in range
abbrev pub offset_at : List Offset → ℕ → Offset
offset_at [] i = (0, 0)
offset_at (o ∷ os) zero = o
offset_at (o ∷ os) (suc i) = offset_at os i

abbrev pub min : ℕ → ℕ → ℕ
min a b = if leb a b then a else b

-- The rounds of the loop from `start` on, as the tokens `[start, end)` of each chunk, on fuel.
unfoldable pub chunk_spans : (size step total : ℕ) → ℕ → ℕ → List (ℕ × ℕ)
chunk_spans size step total zero start = []
chunk_spans size step total (suc fuel) start =
    let end = min (start + size) total in
    let later = chunk_spans size step total fuel (start + step) in
    let round = if eqb end total then (start, end) ∷ [] else (start, end) ∷ later in
    if leb total start then [] else round

-- the text of a chunk
abbrev pub span_text : Text → List Offset → ℕ × ℕ → Text
span_text text offsets span =
    slice (offset_at offsets span.0).0 (offset_at offsets (span.1 - 1)).1 text

-- `chunk_text` with its two limits; the fuel is the number of tokens
unfoldable pub chunk_text : ℕ → ℕ → List Offset → Text → Result (List Text)
unfolding chunk_spans
chunk_text size overlap offsets text = do
  raise_if (leb size 0) (value_error (codes "chunk_tokens must be positive"))
  raise_if (leb size overlap) (value_error (codes "overlap_tokens must be in [0, chunk_tokens)"))
  ok (
      if is_empty offsets
      then text ∷ []
      else map (span_text text offsets)
          (chunk_spans size (size - overlap) (length offsets) (length offsets) 0))
