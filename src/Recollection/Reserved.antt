-- ===== src/Recollection/Reserved.antt =====
-- The words of the protocol against lines that are joined by spaces
-- (`_RESERVED_PROTOCOL_LINES` of source_materials.py).
use chora_mem.Prelude.{
  ◌≡◌, refl, Bool, true, false, List, [], ◌∷◌, ◌++◌, any, elem, arith, eqb, or-false, Bool-cases,
  inl, inr, elem-All, nat_eq, list_eq,
}
use chora_mem.Text.{Text, codes, join}
use chora_mem.Recollection.{reserved_protocol_lines}

abbrev has_space : Text → Bool
has_space = any (λ c. eqb c b' ')

has_space-append : (l t : Text) → has_space (l ++ b' ' ∷ t) ≡ true
has_space-append [] t = refl
has_space-append (c ∷ l) t = ground (arith, has_space-append l t)

reserved-has_space :
    (line : Text) → elem line reserved_protocol_lines ≡ true → has_space line ≡ false
reserved-has_space line m =
    elem-All (λ l. has_space l ≡ false) line reserved_protocol_lines (search tt) m

-- Lines that are no words of the protocol are none when joined by spaces.
pub join-elem_reserved :
    (lines : List Text)
    → any (λ line. elem line reserved_protocol_lines) lines ≡ false
    → elem (join (codes " ") lines) reserved_protocol_lines ≡ false
unfolding join
join-elem_reserved [] h = refl
join-elem_reserved (line ∷ []) h = or-false _ _ h
join-elem_reserved (line ∷ next ∷ lines) h =
    elim (Bool-cases (elem (join (codes " ") (line ∷ next ∷ lines)) reserved_protocol_lines)) [
      | inl reserved ↦ cc (
        has_space-append line (join (codes " ") (next ∷ lines)),
        reserved-has_space (join (codes " ") (line ∷ next ∷ lines)) reserved,
      )
      | inr free ↦ free
    ]
