-- ===== src/Harness/Isolation.antt =====
-- Which calls a run of the reference harness makes (`ReferenceHarness.run` of reference.py).
use mathlib.Core.Path.{subst}
use chora_mem.Prelude.{
  Bool, true, false, List, [], Option, none, some, if◌then◌else◌, ◌≡◌, refl, sym,
}
use chora_mem.Text.{Text}
use chora_mem.Result.{Result, ok, err, Error}
use chora_mem.Trace.{Traced, done, from, ◌>>=◌}
use chora_mem.Trace.Made.{Made, Made-none, Made-trans, Made-call, Made-pure, Ends, Ends-bind}
use chora_mem.Harness.{
  EvalMode, uses_memory, Scenario, HarnessCall, completing, HarnessMemory, Harness,
}
use chora_mem.Harness.Run.{
  Turn, Gathered, EvalResult, no_client, gather_memory, baseline_text, gather, deliver_turn,
  deliver_gathered, instructions_with, ask, record_turn, record_gathered, or_else, run,
}
use chora_mem.Harness.Memory.{
  IsIsolated, has_turn, gather_memory-Made, gather_memory-turn, deliver_turn-Made, record_turn-Made,
}

module _ (harness : Harness) (mode : EvalMode) (scenario : Scenario) where
  Only : List HarnessCall → List HarnessCall → Type 0
  Only made after = Made (IsIsolated harness mode scenario) made after

  gather-Made : (made : List HarnessCall) → Only made (gather harness mode scenario made).1
  unfolding gather Only
  gather-Made made = gathers (uses_memory mode) refl harness.memory
    where
      gathers :
          (b : Bool)
          → uses_memory mode ≡ b
          → (o : Option HarnessMemory)
          → Made
              (IsIsolated harness mode scenario)
              made
              ((if b
                  then elim o as (λ x. Traced HarnessCall Gathered) [
                    | none ↦ from (err (no_client mode))
                    | some memory ↦ gather_memory harness mode scenario memory
                  ]
                  else from (baseline_text harness mode scenario mode)
                    >>= (λ text. done (record { injected_text = text; turn = none })))
                made).1
      gathers true same none = Made-none made
      gathers true same (some memory) = gather_memory-Made harness mode scenario same memory made
      gathers false same o =
          Made-pure (baseline_text harness mode scenario mode) _ made (λ text e. Made-none made)

  gather-turn :
      (made : List HarnessCall)
      → Ends (λ g. has_turn g ≡ uses_memory mode) (gather harness mode scenario made).0
  unfolding gather
  gather-turn made = gathers (uses_memory mode) refl harness.memory
    where
      gathers :
          (b : Bool)
          → uses_memory mode ≡ b
          → (o : Option HarnessMemory)
          → Ends
              (λ g. has_turn g ≡ uses_memory mode)
              ((if b
                  then elim o as (λ x. Traced HarnessCall Gathered) [
                    | none ↦ from (err (no_client mode))
                    | some memory ↦ gather_memory harness mode scenario memory
                  ]
                  else from (baseline_text harness mode scenario mode)
                    >>= (λ text. done (record { injected_text = text; turn = none })))
                made).0
      gathers true same none = tt
      gathers true same (some memory) = gather_memory-turn harness mode scenario same memory made
      gathers false same o =
          Ends-bind (λ g. has_turn g ≡ uses_memory mode)
            (from (baseline_text harness mode scenario mode)) _ made (λ text e. sym same)

  deliver_gathered-Made :
      (g : Gathered) (made : List HarnessCall)
      → has_turn g ≡ uses_memory mode
      → Only made (deliver_gathered harness mode scenario g made).1
  unfolding deliver_gathered Only
  deliver_gathered-Made g made same = delivers harness.memory g.turn same
    where
      delivers :
          (o : Option HarnessMemory) (t : Option Turn)
          → (elim t as (λ x. Bool) [ none ↦ false | some turn ↦ true ]) ≡ uses_memory mode
          → Made
              (IsIsolated harness mode scenario)
              made
              ((elim o as (λ x. Traced HarnessCall (List Text)) [
                | none ↦ done []
                | some memory ↦ elim t as (λ x. Traced HarnessCall (List Text)) [
                  | none ↦ done []
                  | some turn ↦ deliver_turn harness mode scenario memory turn
                ]
              ])
                made).1
      delivers none t h = Made-none made
      delivers (some memory) none h = Made-none made
      delivers (some memory) (some turn) h =
          deliver_turn-Made harness mode scenario (sym h) memory turn made

  record_gathered-Made :
      (g : Gathered) (delivery_refs : List Text) (output : Text) (made : List HarnessCall)
      → has_turn g ≡ uses_memory mode
      → Only made (record_gathered harness mode scenario g delivery_refs output made).1
  unfolding record_gathered Only
  record_gathered-Made g delivery_refs output made same = records harness.memory g.turn same
    where
      records :
          (o : Option HarnessMemory) (t : Option Turn)
          → (elim t as (λ x. Bool) [ none ↦ false | some turn ↦ true ]) ≡ uses_memory mode
          → Made
              (IsIsolated harness mode scenario)
              made
              ((elim o as (λ x. Traced HarnessCall (Unit {0})) [
                | none ↦ done tt
                | some memory ↦ elim t as (λ x. Traced HarnessCall (Unit {0})) [
                  | none ↦ done tt
                  | some turn ↦ record_turn harness mode scenario memory turn delivery_refs output
                ]
              ])
                made).1
      records none t h = Made-none made
      records (some memory) none h = Made-none made
      records (some memory) (some turn) h =
          record_turn-Made harness mode scenario (sym h) memory turn delivery_refs output made

  ask-Made :
      (text : Text) (made : List HarnessCall) → Only made (ask harness mode scenario text made).1
  unfolding ask Only
  ask-Made text made =
      let instructions = instructions_with harness mode scenario text in
      Made-call (completing instructions scenario.query harness.profile.max_output_tokens)
        (λ m. harness.on_complete m instructions scenario.query) _ made refl (λ raw. Made-none _)

  -- A step of `run`, and what is run after it.
  or_else-Made :
      {A : Type 0} (act : Traced HarnessCall A) (made : List HarnessCall)
      (failed : Error → EvalResult) (next : A → List HarnessCall → EvalResult × List HarnessCall)
      → Only made (act made).1
      → ((a : A) → (act made).0 ≡ ok a → Only (act made).1 (next a (act made).1).1)
      → Only made (or_else harness mode scenario (act made) failed next).1
  unfolding Only
  or_else-Made {A} act made failed next first rest = settled (act made).0 refl
    where
      settled :
          (r : Result A)
          → (act made).0 ≡ r
          → Made
              (IsIsolated harness mode scenario)
              made
              (or_else harness mode scenario (r, (act made).1) failed next).1
      settled (err e) same = first
      settled (ok a) same = Made-trans first (rest a same)

  Ends-ok : {A : Type 0} (Q : A → Type 0) (r : Result A) {a : A} → r ≡ ok a → Ends Q r → Q a
  Ends-ok Q r h q = subst (Ends Q) h q

  -- Whatever the memory, the model and the settling service answer, a run calls the memory and the
  -- settling service only in a mode with memory, the memory always in the scope of the mode and the
  -- scenario, and asks the model only the query of the scenario.
  pub run-Made :
      (made : List HarnessCall)
      → Made (IsIsolated harness mode scenario) made (run harness mode scenario made).1
  unfolding run Only
  run-Made made = or_else-Made (gather harness mode scenario) made _ _ (gather-Made made) λ g e1.
      let same = Ends-ok (λ g. has_turn g ≡ uses_memory mode) _ e1 (gather-turn made) in
      or_else-Made (deliver_gathered harness mode scenario g) _ _ _ (deliver_gathered-Made g _ same)
        λ refs e2.
          or_else-Made (ask harness mode scenario g.injected_text) _ _ _
            (ask-Made g.injected_text _)
            λ output e3.
              or_else-Made (record_gathered harness mode scenario g refs output) _ _ _
                (record_gathered-Made g refs output _ same) (λ recorded e4. Made-none _)
