-- ===== src/X86/Returns/Total.antt =====
-- When getReachingReturnType returns.
use llvm_mctoll.Base.{
  ℕ, zero, suc, ◌<◌, ◌≡◌, ◌≢◌, refl, ◌∙◌, Bool, true, false, Option, none, some, List, [], ◌∷◌,
  ◌==◌, length, get_elem?, arith, Bool-cases, inl, inr, All, All-append,
}
use llvm_mctoll.X86.Reaching.{
  set_flag, no_flags, unvisited, length-set_flag, length-no_flags, All-unvisited,
}
use llvm_mctoll.X86.Types.{IrType}
use llvm_mctoll.X86.Returns.{Walked, walked}
use llvm_mctoll.X86.Returns.Search.{
  Outcome, ended, failed, out_of_fuel, after_probe, by_flag, round, search_preds, from_block,
  get_reaching_return_type,
}
use llvm_mctoll.X86.Returns.Ends.{get_reaching_return_type_terminates}
use llvm_mctoll.X86.Returns.Rule.{Keeps, search-Keeps}

module _ (pss : List (List ℕ)) (probe : ℕ → Option Walked) where
  -- The numbers in the graph and on the work list are numbers of blocks.
  abbrev Sized : List Bool → List ℕ → Type 0
  Sized visited work_list = (length visited ≡ length pss) × All (λ p. p < length pss) work_list

  abbrev Returned : Outcome → Type 0
  Returned o = o ≢ failed

  module _ (probes : (b : ℕ) → b < length pss → probe b ≢ none)
      (in_range : (b : ℕ) (ps : List ℕ)
        → get_elem? pss b ≡ some ps
        → All (λ p. p < length pss) ps) where
    get_elem?-lt : {A : Type 0} (xs : List A) (i : ℕ) → i < length xs → get_elem? xs i ≢ none
    get_elem?-lt [] i h = λ e. absurd (omega arith)
    get_elem?-lt (x ∷ xs) zero h = λ e. cc
    get_elem?-lt (x ∷ xs) (suc i) h = get_elem?-lt xs i (omega arith)

    after_probe-Sized :
        (visited : List Bool) (b : ℕ) (rest : List ℕ)
        → b < length pss
        → Sized visited rest
        → (w : Option Walked) → probe b ≡ w
        → (o : Option (List ℕ)) → get_elem? pss b ≡ o
        → Keeps pss probe Sized Returned (after_probe pss probe visited b rest w)
    after_probe-Sized visited b rest l h none e o oe = absurd (probes b l e)
    after_probe-Sized visited b rest l h (some (walked (some t) c)) e o oe = λ k. cc
    after_probe-Sized visited b rest l h (some (walked none true)) e o oe = h
    after_probe-Sized visited b rest l h (some (walked none false)) e none oe =
        absurd (get_elem?-lt pss b l oe)
    after_probe-Sized visited b rest l h (some (walked none false)) e (some ps) oe =
        elim (Bool-cases (b == 0)) [
          | inl z ↦ rw (oe, z) (λ k. cc)
          | inr n ↦
              rw (oe, n)
                (
                  h.0,
                  All-append (λ p. p < length pss) rest (unvisited visited ps) h.1
                      (All-unvisited (λ p. p < length pss) visited ps (in_range b ps oe)),
                )
        ]

    round-Sized :
        (visited : List Bool) (b : ℕ) (rest : List ℕ)
        → Sized visited (b ∷ rest)
        → Keeps pss probe Sized Returned (round pss probe visited b rest)
    unfolding round
    round-Sized visited b rest h = by_flag-Sized (get_elem? visited b) refl
      where
        by_flag-Sized :
            (o : Option Bool)
            → get_elem? visited b ≡ o
            → Keeps pss probe Sized Returned (by_flag pss probe visited b rest o)
        by_flag-Sized none e = absurd (get_elem?-lt visited b (omega (arith, h.0, h.1.0)) e)
        by_flag-Sized (some true) e = (h.0, h.1.1)
        by_flag-Sized (some false) e =
            after_probe-Sized (set_flag visited b) b rest h.1.0
              (length-set_flag visited b ∙ h.0, h.1.1) (probe b) refl (get_elem? pss b) refl

    search_preds-Returned :
        (mbb : ℕ) (o : Option (List ℕ))
        → mbb < length pss
        → get_elem? pss mbb ≡ o
        → Returned (search_preds pss probe o)
    search_preds-Returned mbb none l e = absurd (get_elem?-lt pss mbb l e)
    search_preds-Returned mbb (some ps) l e =
        search-Keeps pss probe Sized Returned (λ k. cc) (λ v h k. cc) round-Sized _ (no_flags pss)
          ps (length-no_flags pss, in_range mbb ps e)

    from_block-Returned :
        (mbb : ℕ) (w : Option Walked)
        → mbb < length pss
        → probe mbb ≡ w
        → Returned (from_block pss probe mbb w)
    from_block-Returned mbb none l e = absurd (probes mbb l e)
    from_block-Returned mbb (some (walked t true)) l e = λ k. cc
    from_block-Returned mbb (some (walked (some t) false)) l e = λ k. cc
    from_block-Returned mbb (some (walked none false)) l e =
        search_preds-Returned mbb (get_elem? pss mbb) l refl

    ended_of : (o : Outcome) → o ≢ failed → o ≢ out_of_fuel → (ty : Option IrType) × (o ≡ ended ty)
    ended_of (ended ty) h k = (ty, refl)
    ended_of failed h k = absurd (h refl)
    ended_of out_of_fuel h k = absurd (k refl)

    -- Where the walk back succeeds in each block of the function, and the predecessors of each block are blocks, the
    -- search returns a type, or says that there is none.
    pub get_reaching_return_type_returns :
        (mbb : ℕ)
        → mbb < length pss
        → (ty : Option IrType) × (get_reaching_return_type pss probe mbb ≡ ended ty)
    unfolding get_reaching_return_type
    get_reaching_return_type_returns mbb l =
        ended_of _ (from_block-Returned mbb (probe mbb) l refl)
          (get_reaching_return_type_terminates pss probe mbb)
