-- ===== src/Index/Projection/Renaming.antt =====
-- `semantic_index_text` and the refs in an Episode's header (local_memory_index.py).
use chora_mem.Prelude.{List, [], ◌∷◌, ◌++◌, ◌≡◌, refl, sym, ap, ◌∙◌, arith}
use chora_mem.Text.{Text, codes, newline}
use chora_mem.Text.Lines.{IsUnbroken, All-append}
use chora_mem.Index.Projection.{
  kind_episode, splitlines_keepends, line_end, replace_line, concat, redact, content,
  redact_episode, semantic_index_text,
}

-- an Episode's text as the core writes it: two header lines, and the rest
abbrev pub episode_text : Text → Text → Text → Text
episode_text episode_ref session_ref body =
    (codes "EPISODE " ++ episode_ref) ++ b'\n' ∷ ((codes "SESSION " ++ session_ref) ++ b'\n' ∷ body)

splitlines_keepends-line :
    (l t : Text)
    → IsUnbroken l
    → splitlines_keepends (l ++ b'\n' ∷ t) ≡ (l ++ newline) ∷ splitlines_keepends t
unfolding splitlines_keepends
splitlines_keepends-line [] t h = refl
splitlines_keepends-line (c ∷ l) t h = ground (arith, splitlines_keepends-line l t, h)

line_end-line : (l : Text) → IsUnbroken l → line_end (l ++ newline) ≡ newline
line_end-line [] h = refl
line_end-line (c ∷ []) h = ground (arith, h)
line_end-line (c ∷ d ∷ []) h = line_end-line (d ∷ []) h.1
line_end-line (c ∷ d ∷ e ∷ l) h = line_end-line (d ∷ e ∷ l) h.1

header-IsUnbroken : (word ref : Text) → IsUnbroken word → IsUnbroken ref → IsUnbroken (word ++ ref)
header-IsUnbroken word ref h g = All-append _ word ref h g

redacted-line :
    (l value : Text) → IsUnbroken l → replace_line (l ++ newline) value ≡ value ++ newline
redacted-line l value h = ap (λ e. value ++ e) (line_end-line l h)

abbrev anonymous_lines : Text → List Text
anonymous_lines body =
    (codes "EPISODE <episode>" ++ newline)
    ∷ (codes "SESSION <session>" ++ newline)
    ∷ splitlines_keepends body

module _ (episode_ref session_ref body : Text) (e : IsUnbroken episode_ref)
    (s : IsUnbroken session_ref) where
  abbrev first_line : Text
  first_line = codes "EPISODE " ++ episode_ref

  abbrev second_line : Text
  second_line = codes "SESSION " ++ session_ref

  first-IsUnbroken : IsUnbroken first_line
  first-IsUnbroken =
      header-IsUnbroken (codes "EPISODE ") episode_ref
        (refl, (refl, (refl, (refl, (refl, (refl, (refl, (refl, tt)))))))) e

  second-IsUnbroken : IsUnbroken second_line
  second-IsUnbroken =
      header-IsUnbroken (codes "SESSION ") session_ref
        (refl, (refl, (refl, (refl, (refl, (refl, (refl, (refl, tt)))))))) s

  lines-episode_text :
      splitlines_keepends (episode_text episode_ref session_ref body)
      ≡ (first_line ++ newline) ∷ (second_line ++ newline) ∷ splitlines_keepends body
  lines-episode_text =
      splitlines_keepends-line first_line (second_line ++ b'\n' ∷ body) first-IsUnbroken
      ∙ ap (◌∷◌ (first_line ++ newline))
          (splitlines_keepends-line second_line body second-IsUnbroken)

  redact-episode_text :
      (text : Text)
      → redact_episode text
          ((first_line ++ newline) ∷ (second_line ++ newline) ∷ splitlines_keepends body)
        ≡ concat (redact content (anonymous_lines body))
  unfolding redact_episode
  redact-episode_text text =
      ap
        (λ l. concat (
          redact content (
            l
            ∷ replace_line (second_line ++ newline) (codes "SESSION <session>")
            ∷ splitlines_keepends body)))
        (redacted-line first_line (codes "EPISODE <episode>") first-IsUnbroken)
      ∙ ap
          (λ l. concat (
            redact content ((codes "EPISODE <episode>" ++ newline) ∷ l ∷ splitlines_keepends body)))
          (redacted-line second_line (codes "SESSION <session>") second-IsUnbroken)

  projected :
      semantic_index_text kind_episode (episode_text episode_ref session_ref body)
      ≡ concat (redact content (anonymous_lines body))
  unfolding semantic_index_text
  projected =
      ap (redact_episode (episode_text episode_ref session_ref body)) lines-episode_text
      ∙ redact-episode_text (episode_text episode_ref session_ref body)

-- Two Episodes that differ only in the refs of their two header lines, each of them on one line,
-- have the same projection: isolated owners of equal evidence meet on one vector.
pub semantic_index_text-refs :
    (episode_ref session_ref other_episode other_session body : Text)
    → IsUnbroken episode_ref
    → IsUnbroken session_ref
    → IsUnbroken other_episode
    → IsUnbroken other_session
    → semantic_index_text kind_episode (episode_text episode_ref session_ref body)
      ≡ semantic_index_text kind_episode (episode_text other_episode other_session body)
semantic_index_text-refs episode_ref session_ref other_episode other_session body e s f t =
    projected episode_ref session_ref body e s
    ∙ sym (projected other_episode other_session body f t)
