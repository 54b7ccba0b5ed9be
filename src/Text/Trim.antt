-- ===== src/Text/Trim.antt =====
-- The characters of a stripped text (`strip`).
use chora_mem.Prelude.{ℕ, ◌≡◌, refl, Bool, false, [], ◌∷◌, All, arith, ◌∙◌, ap}
use chora_mem.Text.{Text, trim_start, trim_end, strip, keep_or_trim, starts_with_lf}

module _ (P : ℕ → Type 0) (p : ℕ → Bool) where
  pub trim_start-All : (t : Text) → All P t → All P (trim_start p t)
  unfolding trim_start
  trim_start-All [] h = tt
  trim_start-All (c ∷ t) h = ground (arith, trim_start-All t)

  keep-All : (c : ℕ) (r : Text) → P c → All P r → All P (keep_or_trim (p c) c r)
  keep-All c [] h k = ground arith
  keep-All c (d ∷ r) h k = (h, k)

  pub trim_end-All : (t : Text) → All P t → All P (trim_end p t)
  unfolding trim_end
  trim_end-All [] h = tt
  trim_end-All (c ∷ t) h = keep-All c (trim_end p t) h.0 (trim_end-All t h.1)

  -- What every character of a text satisfies, every character of the stripped text does.
  pub strip-All : (t : Text) → All P t → All P (strip p t)
  unfolding strip
  strip-All t h = trim_end-All (trim_start p t) (trim_start-All t h)

-- the first character, if any, is not to be stripped
abbrev pub HeadKept : (ℕ → Bool) → Text → Type 0
HeadKept p [] = Unit
HeadKept p (c ∷ t) = p c ≡ false

module _ (p : ℕ → Bool) where
  trim_start-HeadKept : (t : Text) → HeadKept p (trim_start p t)
  unfolding trim_start
  trim_start-HeadKept [] = tt
  trim_start-HeadKept (c ∷ t) = ground (arith, trim_start-HeadKept t)

  trim_start-id : (t : Text) → HeadKept p t → trim_start p t ≡ t
  unfolding trim_start
  trim_start-id [] h = refl
  trim_start-id (c ∷ t) h = ground arith

  trim_end-HeadKept : (t : Text) → HeadKept p t → HeadKept p (trim_end p t)
  unfolding trim_end
  trim_end-HeadKept [] h = tt
  trim_end-HeadKept (c ∷ t) h = ground arith

  trim_end-trim_end : (t : Text) → trim_end p (trim_end p t) ≡ trim_end p t
  unfolding trim_end
  trim_end-trim_end [] = refl
  trim_end-trim_end (c ∷ t) = ground (arith, trim_end-trim_end t)

  -- Stripping a second time changes nothing.
  pub strip-strip : (t : Text) → strip p (strip p t) ≡ strip p t
  unfolding strip
  strip-strip t =
      ap (trim_end p) (
        trim_start-id (trim_end p (trim_start p t))
          (trim_end-HeadKept (trim_start p t) (trim_start-HeadKept t)))
      ∙ trim_end-trim_end (trim_start p t)

-- the last character, if any, is not to be stripped
abbrev pub LastKept : (ℕ → Bool) → Text → Type 0
LastKept p [] = Unit
LastKept p (c ∷ []) = p c ≡ false
LastKept p (c ∷ d ∷ t) = LastKept p (d ∷ t)

keep-LastKept :
    (p : ℕ → Bool) (c : ℕ) (r : Text) → LastKept p r → LastKept p (keep_or_trim (p c) c r)
keep-LastKept p c [] h = ground arith
keep-LastKept p c (d ∷ r) h = h

trim_end-LastKept : (p : ℕ → Bool) (t : Text) → LastKept p (trim_end p t)
unfolding trim_end
trim_end-LastKept p [] = tt
trim_end-LastKept p (c ∷ t) = keep-LastKept p c (trim_end p t) (trim_end-LastKept p t)

-- A stripped text ends in a character that is not to be stripped.
pub strip-LastKept : (p : ℕ → Bool) (t : Text) → LastKept p (strip p t)
unfolding strip
strip-LastKept p t = trim_end-LastKept p (trim_start p t)

module _ (p : ℕ → Bool) where
  -- Stripping the end first does not change what `strip` gives.
  pub strip-trim_end : (t : Text) → strip p (trim_end p t) ≡ strip p t
  unfolding strip trim_start trim_end
  strip-trim_end [] = refl
  strip-trim_end (c ∷ t) = ground (arith, strip-trim_end t, trim_end-trim_end p t)

  pub trim_end-starts_with_lf :
      (t : Text) (d : ℕ) (r : Text)
      → trim_end p t ≡ d ∷ r
      → starts_with_lf (d ∷ r) ≡ starts_with_lf t
  unfolding trim_end
  trim_end-starts_with_lf [] d r h = cc
  trim_end-starts_with_lf (c ∷ t) d r h = ground arith
