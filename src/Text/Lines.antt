-- ===== src/Text/Lines.antt =====
-- The lines of a text: `split` on a character, `splitlines` and `join_lines`.
use chora_mem.Prelude.{
  ℕ, ◌≡◌, refl, ap, ◌∙◌, ◌≢◌, false, List, [], ◌∷◌, ◌++◌, All, length, eqb, arith, false, is_empty,
  is_empty,
}
use chora_mem.Text.Unicode.{is_space}
use chora_mem.Text.Trim.{LastKept}
use chora_mem.Text.{Text, push, split, splitlines, join, join_lines, is_line_break}

-- no character of the text is `sep`
abbrev pub Avoids : ℕ → Text → Type 0
Avoids sep = All (λ c. eqb c sep ≡ false)

-- no character of the text ends a line for `splitlines`
abbrev pub IsUnbroken : Text → Type 0
IsUnbroken = All (λ c. is_line_break c ≡ false)

pub All-append {ℓ κ} :
    {A : Type ℓ} (P : A → Type κ) (xs ys : List A) → All P xs → All P ys → All P (xs ++ ys)
All-append P [] ys hx hy = hy
All-append P (x ∷ xs) ys hx hy = (hx.0, All-append P xs ys hx.1 hy)

pub All-imp {ℓ κ μ} :
    {A : Type ℓ} (P : A → Type κ) (Q : A → Type μ) (xs : List A)
    → ((x : A) → P x → Q x)
    → All P xs
    → All Q xs
All-imp P Q [] f h = tt
All-imp P Q (x ∷ xs) f h = (f x h.0, All-imp P Q xs f h.1)

split-ne-nil : (sep : ℕ) (t : Text) → split sep t ≢ []
unfolding split
split-ne-nil sep [] = λ e. cc
split-ne-nil sep (c ∷ t) = λ e. ground (arith, split-ne-nil sep t)

join-push : (c : ℕ) (ls : List Text) → ls ≢ [] → join_lines (push c ls) ≡ c ∷ join_lines ls
unfolding join
join-push c [] h = absurd (h refl)
join-push c (l ∷ []) h = refl
join-push c (l ∷ m ∷ ls) h = refl

join-nil_cons : (ls : List Text) → ls ≢ [] → join_lines ([] ∷ ls) ≡ b'\n' ∷ join_lines ls
unfolding join
join-nil_cons [] h = absurd (h refl)
join-nil_cons (l ∷ ls) h = refl

-- `"\n".join(text.split("\n"))` is the text.
pub join-split : (t : Text) → join_lines (split b'\n' t) ≡ t
unfolding split
join-split [] = unfold join in refl
join-split (c ∷ t) = ground (
  arith,
  join-split t,
  join-push c (split b'\n' t),
  join-nil_cons (split b'\n' t),
  split-ne-nil b'\n' t,
)

-- A line without the separator, in front of a separator, is the first part.
pub split-append :
    (sep : ℕ) (l t : Text) → Avoids sep l → split sep (l ++ sep ∷ t) ≡ l ∷ split sep t
unfolding split
split-append sep [] t h = ground arith
split-append sep (c ∷ l) t h = ground (arith, split-append sep l t)

pub split-Avoids_self : (sep : ℕ) (l : Text) → Avoids sep l → split sep l ≡ l ∷ []
unfolding split
split-Avoids_self sep [] h = refl
split-Avoids_self sep (c ∷ l) h = ground (arith, split-Avoids_self sep l)

-- `"\n".join(lines).split("\n")` is the lines, if there is one and none holds a newline.
pub split-join :
    (l : Text) (ls : List Text)
    → All (Avoids b'\n') (l ∷ ls)
    → split b'\n' (join_lines (l ∷ ls)) ≡ l ∷ ls
unfolding join
split-join l [] h = split-Avoids_self b'\n' l h.0
split-join l (m ∷ ls) h =
    split-append b'\n' l (join_lines (m ∷ ls)) h.0 ∙ ap (◌∷◌ l) (split-join m ls h.1)

push-IsUnbroken :
    (c : ℕ) (ls : List Text)
    → is_line_break c ≡ false
    → All IsUnbroken ls
    → All IsUnbroken (push c ls)
push-IsUnbroken c [] b h = ((b, tt), tt)
push-IsUnbroken c (l ∷ ls) b h = ((b, h.0), h.1)

-- No line of `splitlines` holds a line break.
pub splitlines-IsUnbroken : (t : Text) → All IsUnbroken (splitlines t)
unfolding splitlines
splitlines-IsUnbroken [] = tt
splitlines-IsUnbroken (c ∷ t) =
    ground (arith, splitlines-IsUnbroken t, push-IsUnbroken c (splitlines t))

pub splitlines-append : (l t : Text) → IsUnbroken l → splitlines (l ++ b'\n' ∷ t) ≡ l ∷ splitlines t
unfolding splitlines
splitlines-append [] t h = refl
splitlines-append (c ∷ l) t h = ground (arith, splitlines-append l t)

pub splitlines-IsUnbroken_self : (l : Text) → IsUnbroken l → l ≢ [] → splitlines l ≡ l ∷ []
unfolding splitlines
splitlines-IsUnbroken_self [] h n = absurd (n refl)
splitlines-IsUnbroken_self (c ∷ []) h n = ground arith
splitlines-IsUnbroken_self (c ∷ d ∷ l) h n = ground (arith, splitlines-IsUnbroken_self (d ∷ l))

length-push : (c : ℕ) (ls : List Text) → ls ≢ [] → length (push c ls) ≡ length ls
length-push c [] h = absurd (h refl)
length-push c (l ∷ ls) h = refl

splitlines-ne-nil : (c : ℕ) (t : Text) → splitlines (c ∷ t) ≢ []
unfolding splitlines
splitlines-ne-nil c [] = λ e. ground arith
splitlines-ne-nil c (d ∷ t) = λ e. ground (arith, splitlines-ne-nil d t)

break_is_space : (c : ℕ) → is_space c ≡ false → is_line_break c ≡ false
unfolding is_space
break_is_space c h = ground arith

-- A text of one line that does not end in a space holds no line break.
pub one_line-IsUnbroken :
    (t : Text) → LastKept is_space t → length (splitlines t) ≡ 1 → IsUnbroken t
unfolding splitlines
one_line-IsUnbroken [] k h = tt
one_line-IsUnbroken (c ∷ []) k h = (break_is_space c k, tt)
one_line-IsUnbroken (c ∷ d ∷ t) k h = ground (
  arith,
  one_line-IsUnbroken (d ∷ t) k,
  splitlines-ne-nil d t,
  length-push c (splitlines (d ∷ t)),
)

-- A text with no line break holds no newline.
pub unbroken_ne_newline : (t : Text) → IsUnbroken t → Avoids b'\n' t
unbroken_ne_newline t h = All-imp _ _ t (λ c b. ground arith) h

push-Avoids :
    (sep c : ℕ) (ls : List Text)
    → eqb c sep ≡ false
    → All (Avoids sep) ls
    → All (Avoids sep) (push c ls)
push-Avoids sep c [] b h = ((b, tt), tt)
push-Avoids sep c (l ∷ ls) b h = ((b, h.0), h.1)

-- No part of a split holds the separator.
pub split-Avoids : (sep : ℕ) (t : Text) → All (Avoids sep) (split sep t)
unfolding split
split-Avoids sep [] = (tt, tt)
split-Avoids sep (c ∷ t) = ground (arith, split-Avoids sep t, push-Avoids sep c (split sep t))

-- A split has a part.
pub split-filled : (sep : ℕ) (t : Text) → is_empty (split sep t) ≡ false
split-filled sep t = filled (split sep t) (split-ne-nil sep t)
  where
    filled : (parts : List Text) → parts ≢ [] → is_empty parts ≡ false
    filled [] h = absurd (h refl)
    filled (l ∷ ls) h = refl

-- `split-join` for a list that is known not to be empty.
pub split-join_filled :
    (ls : List Text)
    → is_empty ls ≡ false
    → All (Avoids b'\n') ls
    → split b'\n' (join_lines ls) ≡ ls
split-join_filled [] f h = cc
split-join_filled (l ∷ ls) f h = split-join l ls h
