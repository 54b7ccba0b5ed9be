-- ===== src/Lifecycle/Suite/Forming.antt =====
-- What the formation of the Disposition returns (`_form_lifecycle_seed` of seed_lifecycle.py).
use chora_mem.Prelude.{
  ℕ, suc, ◌+◌, ◌≤◌, Bool, true, false, not, List, [], ◌∷◌, ◌++◌, is_empty, length, leb,
  if◌then◌else◌, ◌≡◌, refl, arith,
}
use chora_mem.Text.{Text, codes}
use chora_mem.Result.{Result, ok, err}
use chora_mem.Trace.{done, from, calling}
use chora_mem.Trace.Made.{Ends, Ends-bind}
use chora_mem.Lifecycle.States.{State, active_dispositions}
use chora_mem.Lifecycle.Feedback.{LifecycleCall, settled, Lab, lane_scope, step_identity}
use chora_mem.Lifecycle.Suite.{
  observe_complete_turn, digit, has_formed, formation_turns, form_from, form_lifecycle_seed,
}

-- the state reads as one with an active Disposition
abbrev pub HasActive : State → Type 0
HasActive state =
    (formed : List (Text × Text)) × (active_dispositions state ≡ ok formed)
    × (is_empty formed ≡ false)

ok-eq : {A : Type 0} {a b : A} → ok a ≡ ok b → a ≡ b
ok-eq h = cc h

not_empty : (b : Bool) → not b ≡ true → b ≡ false
not_empty b h = ground (arith, h)

has_formed-HasActive :
    (offset : ℕ) (state : State)
    → has_formed offset state ≡ ok true
    → (2 ≤ offset) × HasActive state
unfolding has_formed
has_formed-HasActive offset state h = late (leb 2 offset) refl (active_dispositions state) refl h
  where
    late :
        (b : Bool)
        → leb 2 offset ≡ b
        → (r : Result (List (Text × Text))) → active_dispositions state ≡ r
        → (if b
            then elim r as (λ x. Result Bool) [
              | err e ↦ err e
              | ok formed ↦ ok (not (is_empty formed))
            ]
            else ok false)
          ≡ ok true
        → (2 ≤ offset) × HasActive state
    late true same (ok formed) reads k =
        (ground (arith, same), (formed, reads, not_empty (is_empty formed) (ok-eq k)))
    late true same (err e) reads k = cc k
    late false same r reads k = cc k

-- The state has an active Disposition, and the number of Episodes grew by two or more, up to `last`.
abbrev pub IsFormedWithin : ℕ → ℕ → State × ℕ → Type 0
IsFormedWithin expected_before last f =
    (expected_before + 2 ≤ f.1) × (f.1 ≤ expected_before + last) × HasActive f.0

module _ (lab : Lab) (evaluation_ref lane : Text) (expected_before : ℕ) where
  form_from-IsFormed :
      (offset last : ℕ) (turns : List (Text × Text)) (made : List LifecycleCall)
      → offset + length turns ≤ suc last
      → Ends
          (IsFormedWithin expected_before last)
          (form_from lab evaluation_ref lane expected_before offset turns made).0
  unfolding form_from
  form_from-IsFormed offset last [] made le = tt
  form_from-IsFormed offset last ((situation, agent_act) ∷ turns) made le =
      let Q = IsFormedWithin expected_before last in
      let step = codes "formation-" ++ digit offset in
      Ends-bind Q (from (lane_scope evaluation_ref lane step)) _ made λ scope e1.
        Ends-bind Q
          (observe_complete_turn lab scope (step_identity evaluation_ref lane step) situation
            agent_act)
          _ _
          λ turn e2.
            Ends-bind Q
              (calling (settled scope (expected_before + offset))
                (λ m. lab.on_settle m scope (expected_before + offset)))
              _ _
              λ before e3. Ends-bind Q (from (has_formed offset before)) _ _ λ formed e4.
                ended before formed e4 _
                  (form_from-IsFormed (suc offset) last turns _ (omega (arith, le)))
    where
      ended :
          (before : State) (formed : Bool)
          → has_formed offset before ≡ ok formed
          → (between : List LifecycleCall)
          → Ends
              (IsFormedWithin expected_before last)
              (form_from lab evaluation_ref lane expected_before (suc offset) turns between).0
          → Ends
              (IsFormedWithin expected_before last)
              ((if formed
                  then done (before, expected_before + offset)
                  else form_from lab evaluation_ref lane expected_before (suc offset) turns)
                between).0
      ended before false h between rest = rest
      ended before true h between rest =
          let (late, active) = has_formed-HasActive offset before h in
          (omega (arith, late), omega (arith, le), active)

  -- A formation that returns gives a state that reads as one with an active Disposition, and a number
  -- of Episodes that is two or three above the one before.
  pub form_lifecycle_seed-IsFormed :
      (made : List LifecycleCall)
      → Ends
          (IsFormedWithin expected_before 3)
          (form_lifecycle_seed lab evaluation_ref lane expected_before made).0
  unfolding form_lifecycle_seed
  form_lifecycle_seed-IsFormed made = form_from-IsFormed 1 3 formation_turns made (omega arith)
