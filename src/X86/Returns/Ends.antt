-- ===== src/X86/Returns/Ends.antt =====
-- How long getReachingReturnType searches.
use llvm_mctoll.Base.{
  ℕ, zero, suc, ◌+◌, ◌≤◌, ◌≡◌, ◌≢◌, refl, Bool, true, false, Option, none, some, List, [], ◌∷◌,
  length, length-append, get_elem?, arith,
}
use llvm_mctoll.X86.Reaching.{
  set_flag, no_flags, unvisited, edges_left, length-unvisited, edges_left-set_flag,
  edges_left-set_flag_le,
}
use llvm_mctoll.X86.Returns.{Walked, walked}
use llvm_mctoll.X86.Returns.Search.{
  Outcome, out_of_fuel, Round, stop, failed_round, go, go_up, after_probe, by_flag, round, on_round,
  search, search_preds, from_block, get_reaching_return_type,
}

module _ (pss : List (List ℕ)) (probe : ℕ → Option Walked) where
  -- A round takes a block off the list, and adds no more than the edges into a block newly visited.
  abbrev Shrinks : ℕ → Round → Type 0
  Shrinks n (stop ty) = Unit
  Shrinks n failed_round = Unit
  Shrinks n (go visited work_list) = edges_left visited pss + length work_list ≤ n

  go_up-Shrinks :
      (visited : List Bool) (b : ℕ) (rest : List ℕ)
      → get_elem? visited b ≡ some false
      → (o : Option (List ℕ)) → get_elem? pss b ≡ o
      → Shrinks
          (edges_left visited pss + length rest)
          (go_up pss probe (set_flag visited b) b rest o)
  go_up-Shrinks visited b rest h none e = tt
  go_up-Shrinks visited b rest h (some ps) e = ground (
    arith,
    edges_left-set_flag visited pss b ps h e,
    length-append rest (unvisited (set_flag visited b) ps),
    length-unvisited (set_flag visited b) ps,
  )

  after_probe-Shrinks :
      (visited : List Bool) (b : ℕ) (rest : List ℕ)
      → get_elem? visited b ≡ some false
      → (w : Option Walked)
      → Shrinks
          (edges_left visited pss + length rest)
          (after_probe pss probe (set_flag visited b) b rest w)
  after_probe-Shrinks visited b rest h none = tt
  after_probe-Shrinks visited b rest h (some (walked (some ty) c)) = tt
  after_probe-Shrinks visited b rest h (some (walked none true)) =
      omega (arith, edges_left-set_flag_le visited pss b)
  after_probe-Shrinks visited b rest h (some (walked none false)) =
      go_up-Shrinks visited b rest h (get_elem? pss b) refl

  by_flag-Shrinks :
      (visited : List Bool) (b : ℕ) (rest : List ℕ) (o : Option Bool)
      → get_elem? visited b ≡ o
      → Shrinks (edges_left visited pss + length rest) (by_flag pss probe visited b rest o)
  by_flag-Shrinks visited b rest none e = tt
  by_flag-Shrinks visited b rest (some true) e = omega arith
  by_flag-Shrinks visited b rest (some false) e = after_probe-Shrinks visited b rest e (probe b)

  round-Shrinks :
      (visited : List Bool) (b : ℕ) (rest : List ℕ)
      → Shrinks (edges_left visited pss + length rest) (round pss probe visited b rest)
  unfolding round
  round-Shrinks visited b rest = by_flag-Shrinks visited b rest (get_elem? visited b) refl

  abbrev IsEnded : Outcome → Type 0
  IsEnded o = o ≢ out_of_fuel

  on_round-IsEnded :
      (n : ℕ) (r : Round) (next : List Bool → List ℕ → Outcome)
      → Shrinks n r
      → ((visited : List Bool) (work_list : List ℕ)
          → edges_left visited pss + length work_list ≤ n
          → IsEnded (next visited work_list))
      → IsEnded (on_round pss probe r next)
  on_round-IsEnded n (stop ty) next s k = λ e. cc
  on_round-IsEnded n failed_round next s k = λ e. cc
  on_round-IsEnded n (go visited work_list) next s k = k visited work_list s

  search_ends :
      (fuel : ℕ) (visited : List Bool) (work_list : List ℕ)
      → edges_left visited pss + length work_list ≤ fuel
      → IsEnded (search pss probe fuel visited work_list)
  unfolding search
  search_ends zero visited [] h = λ e. cc
  search_ends (suc fuel) visited [] h = λ e. cc
  search_ends zero visited (b ∷ rest) h = absurd (omega arith)
  search_ends (suc fuel) visited (b ∷ rest) h =
      on_round-IsEnded fuel _ _ (ground (arith, round-Shrinks visited b rest))
        (λ visited' work_list k. search_ends fuel visited' work_list k)

  search_preds-IsEnded : (o : Option (List ℕ)) → IsEnded (search_preds pss probe o)
  search_preds-IsEnded none = λ e. cc
  search_preds-IsEnded (some ps) = search_ends _ (no_flags pss) ps (omega arith)

  from_block-IsEnded : (mbb : ℕ) (w : Option Walked) → IsEnded (from_block pss probe mbb w)
  from_block-IsEnded mbb none = λ e. cc
  from_block-IsEnded mbb (some (walked ty true)) = λ e. cc
  from_block-IsEnded mbb (some (walked (some ty) false)) = λ e. cc
  from_block-IsEnded mbb (some (walked none false)) = search_preds-IsEnded (get_elem? pss mbb)

  -- The search ends within as many rounds as there are edges, and as many again as the block has
  -- predecessors, whatever the graph and the blocks are.
  pub get_reaching_return_type_terminates :
      (mbb : ℕ) → get_reaching_return_type pss probe mbb ≢ out_of_fuel
  unfolding get_reaching_return_type
  get_reaching_return_type_terminates mbb = from_block-IsEnded mbb (probe mbb)
