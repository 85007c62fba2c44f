-- ===== src/X86/Tracker/Search.antt =====
-- getGlobalReachingDefs of X86/X86RaisedValueTracker.cpp. What a block defines is given by `probe`,
-- which get_in_block_reg_or_arg_def_val fills. The work list is a stack, its head the last element.
use llvm_mctoll.Base.{
  ℕ, zero, suc, ◌==◌, ltb, if◌then◌else◌, Bool, true, false, ◌||◌, ◌&&◌, not, Option, none, some,
  List, [], ◌∷◌, ◌++◌, get_elem?,
}
use llvm_mctoll.X86.Reaching.{set_flag, no_flags, edges_left}
use llvm_mctoll.X86.Tracker.Arguments.{DefVal}

-- ReachingDefs and RDFound; `failed` is a failed assertion or an access out of range.
pub data ReachingDefs : Type 0 where
  found : List (ℕ × ℕ) → Bool → ReachingDefs
  failed out_of_fuel : ReachingDefs

-- push_back of the predecessors that are not visited.
unfoldable pub push_unvisited : List Bool → List ℕ → List ℕ → List ℕ
push_unvisited visited [] work_list = work_list
push_unvisited visited (p ∷ ps) work_list = elim (get_elem? visited p) [
  | some true ↦ push_unvisited visited ps work_list
  | _ ↦ push_unvisited visited ps (p ∷ work_list)
]

-- The flags, the work list, the definitions and RDFound.
pub data Round : Type 0 where
  failed_round : Round
  go : List Bool → List ℕ → List (ℕ × ℕ) → Bool → Round

-- The order of std::pair, and std::sort, std::unique and erase.
abbrev pub before : ℕ × ℕ → ℕ × ℕ → Bool
before d e = ltb d.0 e.0 || (d.0 == e.0) && ltb d.1 e.1

abbrev pub same_def : ℕ × ℕ → ℕ × ℕ → Bool
same_def d e = (d.0 == e.0) && (d.1 == e.1)

unfoldable pub insert_def : ℕ × ℕ → List (ℕ × ℕ) → List (ℕ × ℕ)
insert_def d [] = d ∷ []
insert_def d (e ∷ es) = let rest = insert_def d es in if before e d then e ∷ rest else d ∷ e ∷ es

unfoldable pub sort_defs : List (ℕ × ℕ) → List (ℕ × ℕ)
sort_defs [] = []
sort_defs (d ∷ ds) = insert_def d (sort_defs ds)

unfoldable pub unique_defs : List (ℕ × ℕ) → List (ℕ × ℕ)
unique_defs [] = []
unique_defs (d ∷ []) = d ∷ []
unique_defs (d ∷ e ∷ es) =
    let rest = unique_defs (e ∷ es) in if same_def d e then rest else d ∷ rest

module _ (pss : List (List ℕ)) (probe : ℕ → Option DefVal) where
  abbrev pub go_up : List Bool → List ℕ → List (ℕ × ℕ) → Bool → Option (List ℕ) → Round
  go_up visited rest defs rd_found none = failed_round
  go_up visited rest defs rd_found (some ps) =
      go visited (push_unvisited visited ps rest) defs rd_found

  abbrev pub after_probe : List Bool → ℕ → List ℕ → List (ℕ × ℕ) → Bool → Option DefVal → Round
  after_probe visited b rest defs rd_found none = failed_round
  after_probe visited b rest defs rd_found (some (some d)) = go visited rest (defs ++ d ∷ []) true
  after_probe visited b rest defs rd_found (some none) =
      go_up visited rest defs rd_found (get_elem? pss b)

  abbrev pub by_flag : List Bool → ℕ → List ℕ → List (ℕ × ℕ) → Bool → Option Bool → Round
  by_flag visited b rest defs rd_found none = failed_round
  by_flag visited b rest defs rd_found (some true) = go visited rest defs rd_found
  by_flag visited b rest defs rd_found (some false) =
      after_probe (set_flag visited b) b rest defs rd_found (probe b)

  -- The body of the inner loop.
  unfoldable pub round : List Bool → ℕ → List ℕ → List (ℕ × ℕ) → Bool → Round
  round visited b rest defs rd_found = by_flag visited b rest defs rd_found (get_elem? visited b)

  abbrev pub on_round :
      Round → (List Bool → List ℕ → List (ℕ × ℕ) → Bool → ReachingDefs) → ReachingDefs
  on_round failed_round next = failed
  on_round (go visited work_list defs rd_found) next = next visited work_list defs rd_found

  unfoldable pub search : ℕ → List Bool → List ℕ → List (ℕ × ℕ) → Bool → ReachingDefs
  search fuel visited [] defs rd_found = found defs rd_found
  search zero visited (b ∷ rest) defs rd_found = out_of_fuel
  search (suc fuel) visited (b ∷ rest) defs rd_found =
      on_round (round visited b rest defs rd_found)
        (λ visited' work_list defs' rd_found'. search fuel visited' work_list defs' rd_found')

  -- The search from one predecessor, with flags of its own; a push, and as many as there are edges.
  abbrev pub search_from : ℕ → List (ℕ × ℕ) → ReachingDefs
  search_from p defs =
      search (suc (edges_left (no_flags pss) pss)) (no_flags pss) (p ∷ []) defs false

  abbrev pub and_then : ReachingDefs → (List (ℕ × ℕ) → Bool → ReachingDefs) → ReachingDefs
  and_then (found defs rd_found) next = next defs rd_found
  and_then failed next = failed
  and_then out_of_fuel next = out_of_fuel

  -- The loop over the predecessors.
  unfoldable pub search_preds : Bool → List ℕ → List (ℕ × ℕ) → Bool → ReachingDefs
  search_preds all_preds [] defs rd_found = found defs rd_found
  search_preds all_preds (p ∷ ps) defs rd_found =
      if all_preds && not rd_found
      then found defs rd_found
      else and_then (search_from p defs)
          (λ defs' rd_found'. search_preds all_preds ps defs' rd_found')

  abbrev pub cleaned : Bool → List (ℕ × ℕ) → Bool → ReachingDefs
  cleaned all_preds defs rd_found =
      if all_preds && not rd_found
      then found [] rd_found
      else found (unique_defs (sort_defs defs)) rd_found

  abbrev pub from_preds : Bool → Option (List ℕ) → ReachingDefs
  from_preds all_preds none = failed
  from_preds all_preds (some ps) =
      and_then (search_preds all_preds ps [] true)
        (λ defs rd_found. cleaned all_preds defs rd_found)

  -- The block's own definition counts where its value is known.
  abbrev pub from_local : Bool → ℕ → Option DefVal → ReachingDefs
  from_local all_preds mbb none = failed
  from_local all_preds mbb (some none) = from_preds all_preds (get_elem? pss mbb)
  from_local all_preds mbb (some (some (n, zero))) = from_preds all_preds (get_elem? pss mbb)
  from_local all_preds mbb (some (some (n, suc value))) =
      if n == mbb then found ((n, suc value) ∷ []) true else failed

  unfoldable pub get_global_reaching_defs : Bool → ℕ → ReachingDefs
  get_global_reaching_defs all_preds mbb = from_local all_preds mbb (probe mbb)
