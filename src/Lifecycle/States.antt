-- ===== src/Lifecycle/States.antt =====
-- What the lifecycle reads of a settled state (seed_lifecycle.py): the active Dispositions, and the
-- links from their versions to the Episodes that they rest on.

pub mod Lineage
use chora_mem.Prelude.{
  ℕ, Bool, true, false, ◌&&◌, not, List, [], ◌∷◌, ◌++◌, Option, none, some, is_empty, elem, all,
  select, any, assign, lookup, eqb, nat_eq, list_eq, pair_eq, ◌==◌, if◌then◌else◌,
}
use chora_mem.Text.{Text, codes, strip}
use chora_mem.Text.Unicode.{is_space}
use chora_mem.Result.{Result, ok, err, value_error, type_error, ◌>>=◌, raise_if}

-- A field that should hold text: `none` where it holds anything else or is missing.
abbrev pub Field : Type 0
Field = Option Text

pub record DispositionRecord : Type 0 where
  pub status : Field
  pub ref : Field
  pub text : Field

pub record BasisRecord : Type 0 where
  pub role : Field
  pub ref : Field
  pub episode_ref : Field

-- The value of a field that should hold a sequence of mappings; a missing one is empty.
pub data Records (R : Type 0) : Type 0 where
  no_sequence : Records R
  records : List (Option R) → Records R

-- `state["basis"]`, a mapping with the links or something else
pub data Basis : Type 0 where
  no_mapping : Basis
  basis : Records BasisRecord → Basis

pub record State : Type 0 where
  pub dispositions : Records DispositionRecord
  pub basis : Basis

-- `_nonblank`
unfoldable pub nonblank : Field → Text → Result Text
unfolding strip is_space
nonblank none field = err (value_error (field ++ codes " must be nonblank text"))
nonblank (some text) field =
    if is_empty (strip is_space text)
    then err (value_error (field ++ codes " must be nonblank text"))
    else ok (strip is_space text)

abbrev pub is_active : Field → Bool
is_active none = false
is_active (some status) = status == codes "active"

-- the loop of `_active_dispositions`, over the dictionary so far
unfoldable pub add_active :
    List (Text × Text) → List (Option DispositionRecord) → Result (List (Text × Text))
unfolding nonblank
add_active found [] = ok found
add_active found (none ∷ rest) = err (type_error (codes "state disposition must be a mapping"))
add_active found (some record_ ∷ rest) =
    if is_active record_.status
    then (do
      ref ← nonblank record_.ref (codes "Disposition ref")
      text ← nonblank record_.text (codes "Disposition text")
      add_active (assign ref text found) rest)
    else add_active found rest

-- `_active_dispositions`
unfoldable pub active_dispositions : State → Result (List (Text × Text))
unfolding add_active
active_dispositions state = elim state.dispositions [
  | no_sequence ↦ err (type_error (codes "state dispositions must be a sequence"))
  | records rs ↦ add_active [] rs
]

-- a version of a Disposition, an Episode that it rests on, and how
abbrev pub Link : Type 0
Link = Text × (Text × Text)

-- `role in roles`
abbrev pub has_role : Field → List Text → Bool
has_role none roles = false
has_role (some role) roles = elem role roles

abbrev pub text_of : Field → Text
text_of none = []
text_of (some text) = text

-- The loop of `_seed_basis`. The set is a list; no one counts its items.
unfoldable pub add_links : List Text → List Link → List (Option BasisRecord) → Result (List Link)
unfolding nonblank
add_links roles found [] = ok found
add_links roles found (none ∷ rest) = err (type_error (codes "seed basis link must be a mapping"))
add_links roles found (some link ∷ rest) =
    if has_role link.role roles
    then (do
      ref ← nonblank link.ref (codes "seed basis ref")
      episode_ref ← nonblank link.episode_ref (codes "seed basis Episode ref")
      add_links roles (found ++ (ref, (episode_ref, text_of link.role)) ∷ []) rest)
    else add_links roles found rest

-- `_seed_basis`
unfoldable pub seed_basis : State → List Text → Result (List Link)
unfolding add_links
seed_basis state roles = elim state.basis [
  | no_mapping ↦ err (type_error (codes "state basis must be a mapping"))
  | basis no_sequence ↦ err (type_error (codes "seed basis links must be a sequence"))
  | basis (records rs) ↦ add_links roles [] rs
]

-- what stands before the last "@" and behind it
unfoldable pub rpartition_at : Text → Option (Text × Text)
rpartition_at [] = none
rpartition_at (c ∷ t) =
    let rest = rpartition_at t in
    elim rest [
      | some parts ↦ some (c ∷ parts.0, parts.1)
      | none ↦ if eqb c b'@' then some ([], t) else none
    ]

-- The test `str.isdigit` of a character is a table of Unicode, a parameter.
module _ (is_digit : ℕ → Bool) where
  -- `_seed_lineage`: a version's reference without "@" and the number of the version
  unfoldable pub seed_lineage : Text → Text
  unfolding rpartition_at
  seed_lineage version_ref = elim (rpartition_at version_ref) [
    | none ↦ version_ref
    | some parts ↦
        if not (is_empty parts.0) && not (is_empty parts.1) && all is_digit parts.1
        then parts.0
        else version_ref
  ]

  -- `_basis_delta`, with target lineages
  unfoldable pub basis_delta : State → State → List Text → List Text → Result (List Link)
  unfolding seed_basis seed_lineage
  basis_delta before after roles target_lineages = do
    later ← seed_basis after roles
    earlier ← seed_basis before roles
    let delta = select (λ (link : Link). not (elem link earlier)) later
    ok (select (λ (link : Link). elem (seed_lineage link.0) target_lineages) delta)
