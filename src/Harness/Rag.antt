-- ===== src/Harness/Rag.antt =====
-- The baseline without a memory core (`render_episode_rag` of reference.py): past Episodes ranked by
-- the overlap of their character trigrams with the query's.
use chora_mem.Prelude.{
  ℕ, zero, suc, ◌+◌, ◌*◌, Bool, ◌||◌, not, List, [], ◌∷◌, ◌++◌, Option, none, some, is_empty, elem,
  distinct, length, map, select, leb, ltb, nat_eq, list_eq, if◌then◌else◌,
}
use chora_mem.Text.{Text, codes, strip, join}
use chora_mem.Text.Unicode.{is_space}
use chora_mem.Result.{Result, ok, err, value_error}
use chora_mem.Index.Chunks.{take}

pub record HistoricalTurn : Type 0 where
  pub situation : Text
  pub agent_act : Text
  pub outcome : Option Text

-- the tables of `str.isalnum` and `str.casefold` of a character
pub record Alphabet : Type 0 where
  pub is_alnum : ℕ → Bool
  pub casefold : ℕ → Text

abbrev pub normalized : Alphabet → Text → Text
normalized alphabet [] = []
normalized alphabet (c ∷ t) =
    let rest = normalized alphabet t in
    if alphabet.is_alnum c then alphabet.casefold c ++ rest else rest

-- the substrings of a length, for a text that has as many characters
abbrev pub windows : ℕ → Text → List Text
windows size [] = []
windows size (c ∷ t) =
    let rest = windows size t in
    if leb size (length (c ∷ t)) then take size (c ∷ t) ∷ rest else rest

-- `_character_ngrams`, a set
unfoldable pub character_ngrams : Alphabet → Text → ℕ → List Text
unfolding distinct
character_ngrams alphabet text size =
    let word = normalized alphabet text in
    if is_empty word
    then []
    else if leb (length word) size
    then word ∷ []
    else distinct (windows size word)

abbrev pub outcome_text : HistoricalTurn → Text
outcome_text turn = elim turn.outcome [ none ↦ [] | some text ↦ text ]

unfoldable pub document_of : HistoricalTurn → Text
unfolding join strip is_space
document_of turn = join (codes "\n") (
    select (λ part. not (is_empty (strip is_space part)))
      (turn.situation ∷ turn.agent_act ∷ outcome_text turn ∷ []))

-- A turn with its score as a fraction, the common ngrams above all. The source divides floats; the
-- order is the same as long as the product of two such sizes is below 2 ^ 52.
pub record Scored : Type 0 where
  pub common : ℕ
  pub union : ℕ
  pub turn : HistoricalTurn

abbrev pub scored : List Text → List Text → HistoricalTurn → Scored
scored query_ngrams ngrams turn =
    let both = length (select (λ g. elem g ngrams) query_ngrams) in
    record {
      common = both;
      union = length query_ngrams + length (select (λ g. not (elem g query_ngrams)) ngrams);
      turn = turn;
    }

abbrev pub insert_scored : Scored → List Scored → List Scored
insert_scored x [] = x ∷ []
insert_scored x (y ∷ ys) =
    if leb (y.common * x.union) (x.common * y.union) then x ∷ y ∷ ys else y ∷ insert_scored x ys

-- sorted by falling score; an earlier turn stays in front of a later one with the same score
abbrev pub sort_scored : List Scored → List Scored
sort_scored [] = []
sort_scored (x ∷ xs) = insert_scored x (sort_scored xs)

unfoldable pub rank_turns : Alphabet → List Text → ℕ → List HistoricalTurn → List Scored
unfolding character_ngrams document_of
rank_turns alphabet query_ngrams size history = sort_scored (
    select (λ (s : Scored). ltb 0 s.common)
      (map (λ turn. scored query_ngrams (character_ngrams alphabet (document_of turn) size) turn)
        history))

unfoldable pub episode_lines : HistoricalTurn → Text
unfolding join strip is_space
episode_lines turn =
    let acts =
      (codes "SITUATION: " ++ strip is_space turn.situation)
      ∷ (codes "AGENT_ACT: " ++ strip is_space turn.agent_act)
      ∷ [] in
    let outcome = strip is_space (outcome_text turn) in
    join (codes "\n")
      (if is_empty outcome then acts else acts ++ (codes "OUTCOME: " ++ outcome) ∷ [])

unfoldable pub render_episode_rag : Alphabet → List HistoricalTurn → Text → ℕ → ℕ → Result Text
unfolding character_ngrams rank_turns episode_lines join
render_episode_rag alphabet history query zero size =
    err (value_error (codes "top_k must be positive"))
render_episode_rag alphabet history query (suc k) zero =
    err (value_error (codes "ngram_size must be positive"))
render_episode_rag alphabet history query (suc k) (suc n) =
    let query_ngrams = character_ngrams alphabet query (suc n) in
    let chosen = take (suc k) (rank_turns alphabet query_ngrams (suc n) history) in
    if is_empty query_ngrams || is_empty chosen
    then ok []
    else ok (
        codes "EPISODES\n"
        ++ join (codes "\n\n") (map (λ (s : Scored). episode_lines s.turn) chosen))
