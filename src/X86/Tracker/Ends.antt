-- ===== src/X86/Tracker/Ends.antt =====
-- How long getGlobalReachingDefs searches.
use llvm_mctoll.Base.{
  ℕ, zero, suc, ◌+◌, ◌≤◌, ◌≡◌, ◌≢◌, refl, Bool, true, false, ◌&&◌, not, Option, none, some, List,
  [], ◌∷◌, ◌==◌, if◌then◌else◌, length, get_elem?, arith,
}
use llvm_mctoll.X86.Reaching.{
  set_flag, no_flags, edges_left, edges_left-set_flag, edges_left-set_flag_le,
}
use llvm_mctoll.X86.Tracker.Arguments.{DefVal}
use llvm_mctoll.X86.Tracker.Search.{
  ReachingDefs, found, failed, out_of_fuel, push_unvisited, Round, failed_round, go, go_up,
  after_probe, by_flag, round, on_round, search, search_from, and_then, search_preds, from_preds,
  from_local, get_global_reaching_defs,
}

length-push_unvisited :
    (visited : List Bool) (ps work_list : List ℕ)
    → length (push_unvisited visited ps work_list) ≤ length ps + length work_list
unfolding push_unvisited
length-push_unvisited visited [] work_list = omega arith
length-push_unvisited visited (p ∷ ps) work_list = ground (
  arith,
  length-push_unvisited visited ps work_list,
  length-push_unvisited visited ps (p ∷ work_list),
)

module _ (pss : List (List ℕ)) (probe : ℕ → Option DefVal) where
  -- A round takes a block off the list, and adds no more than the edges into a block newly visited.
  abbrev Shrinks : ℕ → Round → Type 0
  Shrinks n failed_round = Unit
  Shrinks n (go visited work_list defs rd_found) = edges_left visited pss + length work_list ≤ n

  go_up-Shrinks :
      (visited : List Bool) (b : ℕ) (rest : List ℕ) (defs : List (ℕ × ℕ)) (f : Bool)
      → get_elem? visited b ≡ some false
      → (o : Option (List ℕ)) → get_elem? pss b ≡ o
      → Shrinks
          (edges_left visited pss + length rest)
          (go_up pss probe (set_flag visited b) rest defs f o)
  go_up-Shrinks visited b rest defs f h none e = tt
  go_up-Shrinks visited b rest defs f h (some ps) e = omega (
    arith,
    edges_left-set_flag visited pss b ps h e,
    length-push_unvisited (set_flag visited b) ps rest,
  )

  after_probe-Shrinks :
      (visited : List Bool) (b : ℕ) (rest : List ℕ) (defs : List (ℕ × ℕ)) (f : Bool)
      → get_elem? visited b ≡ some false
      → (w : Option DefVal)
      → Shrinks
          (edges_left visited pss + length rest)
          (after_probe pss probe (set_flag visited b) b rest defs f w)
  after_probe-Shrinks visited b rest defs f h none = tt
  after_probe-Shrinks visited b rest defs f h (some (some d)) =
      omega (arith, edges_left-set_flag_le visited pss b)
  after_probe-Shrinks visited b rest defs f h (some none) =
      go_up-Shrinks visited b rest defs f h (get_elem? pss b) refl

  by_flag-Shrinks :
      (visited : List Bool) (b : ℕ) (rest : List ℕ) (defs : List (ℕ × ℕ)) (f : Bool)
      → (o : Option Bool) → get_elem? visited b ≡ o
      → Shrinks (edges_left visited pss + length rest) (by_flag pss probe visited b rest defs f o)
  by_flag-Shrinks visited b rest defs f none e = tt
  by_flag-Shrinks visited b rest defs f (some true) e = omega arith
  by_flag-Shrinks visited b rest defs f (some false) e =
      after_probe-Shrinks visited b rest defs f e (probe b)

  round-Shrinks :
      (visited : List Bool) (b : ℕ) (rest : List ℕ) (defs : List (ℕ × ℕ)) (f : Bool)
      → Shrinks (edges_left visited pss + length rest) (round pss probe visited b rest defs f)
  unfolding round
  round-Shrinks visited b rest defs f =
      by_flag-Shrinks visited b rest defs f (get_elem? visited b) refl

  abbrev IsEnded : ReachingDefs → Type 0
  IsEnded o = o ≢ out_of_fuel

  on_round-IsEnded :
      (n : ℕ) (r : Round) (next : List Bool → List ℕ → List (ℕ × ℕ) → Bool → ReachingDefs)
      → Shrinks n r
      → ((visited : List Bool) (work_list : List ℕ) (defs : List (ℕ × ℕ)) (f : Bool)
          → edges_left visited pss + length work_list ≤ n
          → IsEnded (next visited work_list defs f))
      → IsEnded (on_round pss probe r next)
  on_round-IsEnded n failed_round next s k = λ e. cc
  on_round-IsEnded n (go visited work_list defs f) next s k = k visited work_list defs f s

  pub search_ends :
      (fuel : ℕ) (visited : List Bool) (work_list : List ℕ) (defs : List (ℕ × ℕ)) (f : Bool)
      → edges_left visited pss + length work_list ≤ fuel
      → IsEnded (search pss probe fuel visited work_list defs f)
  unfolding search
  search_ends zero visited [] defs f h = λ e. cc
  search_ends (suc fuel) visited [] defs f h = λ e. cc
  search_ends zero visited (b ∷ rest) defs f h = absurd (omega arith)
  search_ends (suc fuel) visited (b ∷ rest) defs f h =
      on_round-IsEnded fuel _ _ (ground (arith, round-Shrinks visited b rest defs f))
        (λ visited' work_list defs' f' k. search_ends fuel visited' work_list defs' f' k)

  and_then-IsEnded :
      (o : ReachingDefs) (next : List (ℕ × ℕ) → Bool → ReachingDefs)
      → IsEnded o
      → ((defs : List (ℕ × ℕ)) (f : Bool) → IsEnded (next defs f))
      → IsEnded (and_then pss probe o next)
  and_then-IsEnded (found defs f) next h k = k defs f
  and_then-IsEnded failed next h k = λ e. cc
  and_then-IsEnded out_of_fuel next h k = absurd (h refl)

  if-IsEnded :
      (b : Bool) (x y : ReachingDefs) → IsEnded x → IsEnded y → IsEnded (if b then x else y)
  if-IsEnded true x y h k = h
  if-IsEnded false x y h k = k

  search_preds-IsEnded :
      (all_preds : Bool) (ps : List ℕ) (defs : List (ℕ × ℕ)) (f : Bool)
      → IsEnded (search_preds pss probe all_preds ps defs f)
  unfolding search_preds
  search_preds-IsEnded all_preds [] defs f = λ e. cc
  search_preds-IsEnded all_preds (p ∷ ps) defs f =
      if-IsEnded (all_preds && not f) _ _ (λ e. cc)
        (and_then-IsEnded (search_from pss probe p defs) _
          (search_ends _ (no_flags pss) (p ∷ []) defs false (omega arith))
          (λ defs' f'. search_preds-IsEnded all_preds ps defs' f'))

  from_preds-IsEnded :
      (all_preds : Bool) (o : Option (List ℕ)) → IsEnded (from_preds pss probe all_preds o)
  from_preds-IsEnded all_preds none = λ e. cc
  from_preds-IsEnded all_preds (some ps) =
      and_then-IsEnded (search_preds pss probe all_preds ps [] true) _
        (search_preds-IsEnded all_preds ps [] true)
        (λ defs f. if-IsEnded (all_preds && not f) _ _ (λ e. cc) (λ e. cc))

  from_local-IsEnded :
      (all_preds : Bool) (mbb : ℕ) (w : Option DefVal)
      → IsEnded (from_local pss probe all_preds mbb w)
  from_local-IsEnded all_preds mbb none = λ e. cc
  from_local-IsEnded all_preds mbb (some none) = from_preds-IsEnded all_preds (get_elem? pss mbb)
  from_local-IsEnded all_preds mbb (some (some (n, zero))) =
      from_preds-IsEnded all_preds (get_elem? pss mbb)
  from_local-IsEnded all_preds mbb (some (some (n, suc v))) =
      if-IsEnded (n == mbb) _ _ (λ e. cc) (λ e. cc)

  -- The searches end, each within one round more than there are edges, whatever the graph and the
  -- definitions are.
  pub get_global_reaching_defs_terminates :
      (all_preds : Bool) (mbb : ℕ) → get_global_reaching_defs pss probe all_preds mbb ≢ out_of_fuel
  unfolding get_global_reaching_defs
  get_global_reaching_defs_terminates all_preds mbb = from_local-IsEnded all_preds mbb (probe mbb)
