-- ===== src/X86/Returns/Rule.antt =====
-- The rule of the loop of getReachingReturnType.
use llvm_mctoll.Base.{ℕ, zero, suc, Bool, Option, none, List, [], ◌∷◌}
use llvm_mctoll.X86.Returns.{Walked}
use llvm_mctoll.X86.Returns.Search.{
  Outcome, ended, failed, out_of_fuel, Round, stop, failed_round, go, round, on_round, search,
}

module _ (pss : List (List ℕ)) (probe : ℕ → Option Walked) where
  -- The rule of the loop: an invariant of the flags and the work list.
  abbrev pub Keeps {κ} : (List Bool → List ℕ → Type κ) → (Outcome → Type κ) → Round → Type κ
  Keeps I Q (stop ty) = Q (ended ty)
  Keeps I Q failed_round = Q failed
  Keeps I Q (go visited work_list) = I visited work_list

  on_round-Keeps {κ} :
      (I : List Bool → List ℕ → Type κ) (Q : Outcome → Type κ) (r : Round)
      → (next : List Bool → List ℕ → Outcome) → Keeps I Q r
      → ((visited : List Bool) (work_list : List ℕ)
          → I visited work_list
          → Q (next visited work_list))
      → Q (on_round pss probe r next)
  on_round-Keeps I Q (stop ty) next h k = h
  on_round-Keeps I Q failed_round next h k = h
  on_round-Keeps I Q (go visited work_list) next h k = k visited work_list h

  pub search-Keeps {κ} :
      (I : List Bool → List ℕ → Type κ) (Q : Outcome → Type κ)
      → Q out_of_fuel
      → ((visited : List Bool) → I visited [] → Q (ended none))
      → ((visited : List Bool) (b : ℕ) (rest : List ℕ)
          → I visited (b ∷ rest)
          → Keeps I Q (round pss probe visited b rest))
      → (fuel : ℕ) (visited : List Bool) (work_list : List ℕ) → I visited work_list
      → Q (search pss probe fuel visited work_list)
  unfolding search
  search-Keeps I Q f e keep zero visited [] h = e visited h
  search-Keeps I Q f e keep (suc fuel) visited [] h = e visited h
  search-Keeps I Q f e keep zero visited (b ∷ rest) h = f
  search-Keeps I Q f e keep (suc fuel) visited (b ∷ rest) h =
      on_round-Keeps I Q _ _ (keep visited b rest h)
        (λ visited' work_list k. search-Keeps I Q f e keep fuel visited' work_list k)
