-- ===== src/ModuleRaiser/Passes.antt =====
-- ModuleRaiser::runMachineFunctionPasses. What the passes do to the module, the machine functions
-- and the raised functions is a state that the parameters change; debug output is left out.
use llvm_mctoll.Base.{
  ℕ, zero, suc, Bool-cases, inl, inr, ap, ◌∙◌, All, if◌then◌else◌, Bool, true, false, ◌||◌, ◌≡◌,
  refl, Option, some, List, [], ◌∷◌, assert, ◌>>=◌, ◌>>◌,
}

-- The calls that the function makes for a MachineFunctionRaiser: buildCFG; whether getRaisedFunction
-- is not null; getRaisedFunctionPrototype, and whether it is not null; runRaiserPasses.
pub record PassCalls (S Raiser : Type 0) : Type 0 where
  pub build_machine_cfg : Raiser → S → S
  pub has_raised_function : S → Raiser → Bool
  pub raise_prototype : Raiser → S → Bool × S
  pub run_raiser_passes : Raiser → S → Bool × S

module _ {S Raiser : Type 0} (calls : PassCalls S Raiser) where
  unfoldable pub build_cfgs : List Raiser → S → S
  build_cfgs [] s = s
  build_cfgs (r ∷ rs) s = build_cfgs rs (calls.build_machine_cfg r s)

  -- AllPrototypesConstructed |= (FT != nullptr)
  abbrev pub prototype_of : Bool → Raiser → S → Bool × S
  prototype_of all r s =
      let (got, s') = calls.raise_prototype r s in
      if calls.has_raised_function s r then (all, s) else (all || got, s')

  unfoldable pub construct_prototypes : Bool → List Raiser → S → Bool × S
  construct_prototypes all [] s = (all, s)
  construct_prototypes all (r ∷ rs) s =
      let (all', s') = prototype_of all r s in construct_prototypes all' rs s'

  -- The loop to IterCount: the flag of the last round.
  unfoldable pub prototype_rounds : ℕ → Bool → List Raiser → S → Bool × S
  prototype_rounds zero all rs s = (all, s)
  prototype_rounds (suc n) all rs s =
      let (all', s') = construct_prototypes true rs s in prototype_rounds n all' rs s'

  -- Success |= MFR->runRaiserPasses()
  unfoldable pub run_all_raiser_passes : Bool → List Raiser → S → Bool × S
  run_all_raiser_passes success [] s = (success, s)
  run_all_raiser_passes success (r ∷ rs) s =
      let (ok, s') = calls.run_raiser_passes r s in run_all_raiser_passes (success || ok) rs s'

  -- `none` is the failed assertion that all prototypes are constructed.
  unfoldable pub run_machine_function_passes : List Raiser → S → Option (Bool × S)
  run_machine_function_passes rs s =
      let (all, s') = prototype_rounds 2 false rs (build_cfgs rs s) in
      assert all >> some (run_all_raiser_passes true rs s')

  prototype_of-true : (r : Raiser) (s : S) → (prototype_of true r s).0 ≡ true
  prototype_of-true r s = elim (Bool-cases (calls.has_raised_function s r)) [
    | inl e ↦ rw e refl
    | inr e ↦ rw e refl
  ]

  construct_prototypes-true :
      (rs : List Raiser) (s : S) (all : Bool)
      → all ≡ true
      → (construct_prototypes all rs s).0 ≡ true
  unfolding construct_prototypes
  construct_prototypes-true [] s all e = e
  construct_prototypes-true (r ∷ rs) s all e =
      construct_prototypes-true rs (prototype_of all r s).1 (prototype_of all r s).0
        (rw e (prototype_of-true r s))

  run_all_raiser_passes-true :
      (rs : List Raiser) (s : S) (success : Bool)
      → success ≡ true
      → (run_all_raiser_passes success rs s).0 ≡ true
  unfolding run_all_raiser_passes
  run_all_raiser_passes-true [] s success e = e
  run_all_raiser_passes-true (r ∷ rs) s success e =
      run_all_raiser_passes-true rs (calls.run_raiser_passes r s).1 _ (rw e refl)

  has_raised-skips :
      (rs : List Raiser) (s : S) (all : Bool)
      → All (λ r. calls.has_raised_function s r ≡ true) rs
      → construct_prototypes all rs s ≡ (all, s)
  unfolding construct_prototypes
  has_raised-skips [] s all h = refl
  has_raised-skips (r ∷ rs) s all h = rw h.0 (has_raised-skips rs s all h.1)

  with_true : {A : Type 0} (p : Bool × A) → p.0 ≡ true → p ≡ (true, p.1)
  with_true p e = ap (λ b. (b, p.1)) e

  -- The state after the two rounds of prototypes.
  abbrev pub prototyped : List Raiser → S → S
  prototyped rs s = (prototype_rounds 2 false rs (build_cfgs rs s)).1

  -- Whatever the passes return, the assertion that all prototypes are constructed holds, and the
  -- function reports success, after the control-flow graphs, two rounds of prototypes and the passes.
  pub run_machine_function_passes-true :
      (rs : List Raiser) (s : S)
      → run_machine_function_passes rs s
        ≡ some (true, (run_all_raiser_passes true rs (prototyped rs s)).1)
  unfolding run_machine_function_passes prototype_rounds ◌>>=◌
  run_machine_function_passes-true rs s =
      rw (construct_prototypes-true rs (construct_prototypes true rs (build_cfgs rs s)).1 true refl)
        (ap some (
          with_true (run_all_raiser_passes true rs (prototyped rs s))
            (run_all_raiser_passes-true rs (prototyped rs s) true refl)))

  -- If each function has its prototype after the first round, the second round changes nothing, and
  -- the passes run on the state of the first.
  pub run_machine_function_passes_once :
      (rs : List Raiser) (s first : S)
      → (construct_prototypes true rs (build_cfgs rs s)).1 ≡ first
      → All (λ r. calls.has_raised_function first r ≡ true) rs
      → run_machine_function_passes rs s ≡ some (true, (run_all_raiser_passes true rs first).1)
  unfolding prototype_rounds
  run_machine_function_passes_once rs s first e h =
      run_machine_function_passes-true rs s
      ∙ ap (λ x. some (true, (run_all_raiser_passes true rs x).1))
          (ap (λ x. (construct_prototypes true rs x).1) e
            ∙ ap (λ p. p.1) (has_raised-skips rs first true h))
