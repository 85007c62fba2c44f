-- ===== src/X86/Reaching.antt =====
-- What the searches against the control flow share, getReachingReturnType and getGlobalReachingDefs:
-- BlockVisited, a flag for each block, and the work that is left.
use llvm_mctoll.Base.{
  ℕ, zero, suc, ◌+◌, ◌≤◌, Bool, true, false, some, List, [], ◌∷◌, ◌≡◌, refl, arith, length,
  get_elem?, All,
}

-- BitVector::set
unfoldable pub set_flag : List Bool → ℕ → List Bool
set_flag [] i = []
set_flag (b ∷ bs) zero = true ∷ bs
set_flag (b ∷ bs) (suc i) = b ∷ set_flag bs i

-- BitVector(n, false)
unfoldable pub no_flags : {A : Type 0} → List A → List Bool
no_flags [] = []
no_flags (x ∷ xs) = false ∷ no_flags xs

-- The predecessors that are not visited, in their order.
unfoldable pub unvisited : List Bool → List ℕ → List ℕ
unvisited visited [] = []
unvisited visited (p ∷ ps) =
    let rest = unvisited visited ps in
    elim (get_elem? visited p) [ some true ↦ rest | _ ↦ p ∷ rest ]

-- The edges into the blocks that are not visited.
abbrev pub edges_left : List Bool → List (List ℕ) → ℕ
edges_left (false ∷ bs) (ps ∷ pss) = length ps + edges_left bs pss
edges_left (true ∷ bs) (ps ∷ pss) = edges_left bs pss
edges_left [] pss = 0
edges_left bs [] = 0

pub length-unvisited :
    (visited : List Bool) (ps : List ℕ) → length (unvisited visited ps) ≤ length ps
unfolding unvisited
length-unvisited visited [] = omega arith
length-unvisited visited (p ∷ ps) = ground (arith, length-unvisited visited ps)

pub edges_left-set_flag :
    (visited : List Bool) (pss : List (List ℕ)) (b : ℕ) (ps : List ℕ)
    → get_elem? visited b ≡ some false
    → get_elem? pss b ≡ some ps
    → edges_left visited pss ≡ length ps + edges_left (set_flag visited b) pss
unfolding set_flag
edges_left-set_flag [] pss b ps h k = cc
edges_left-set_flag (v ∷ bs) [] b ps h k = cc
edges_left-set_flag (v ∷ bs) (qs ∷ pss) zero ps h k = ground arith
edges_left-set_flag (true ∷ bs) (qs ∷ pss) (suc b) ps h k =
    omega (arith, edges_left-set_flag bs pss b ps h k)
edges_left-set_flag (false ∷ bs) (qs ∷ pss) (suc b) ps h k =
    omega (arith, edges_left-set_flag bs pss b ps h k)

pub edges_left-set_flag_le :
    (visited : List Bool) (pss : List (List ℕ)) (b : ℕ)
    → edges_left (set_flag visited b) pss ≤ edges_left visited pss
unfolding set_flag
edges_left-set_flag_le [] pss b = omega arith
edges_left-set_flag_le (true ∷ bs) [] zero = omega arith
edges_left-set_flag_le (false ∷ bs) [] zero = omega arith
edges_left-set_flag_le (true ∷ bs) [] (suc b) = omega arith
edges_left-set_flag_le (false ∷ bs) [] (suc b) = omega arith
edges_left-set_flag_le (true ∷ bs) (qs ∷ pss) zero = omega arith
edges_left-set_flag_le (false ∷ bs) (qs ∷ pss) zero = omega arith
edges_left-set_flag_le (true ∷ bs) (qs ∷ pss) (suc b) =
    omega (arith, edges_left-set_flag_le bs pss b)
edges_left-set_flag_le (false ∷ bs) (qs ∷ pss) (suc b) =
    omega (arith, edges_left-set_flag_le bs pss b)

pub length-set_flag : (bs : List Bool) (i : ℕ) → length (set_flag bs i) ≡ length bs
unfolding set_flag
length-set_flag [] i = refl
length-set_flag (b ∷ bs) zero = refl
length-set_flag (b ∷ bs) (suc i) = omega (arith, length-set_flag bs i)

pub length-no_flags : {A : Type 0} (xs : List A) → length (no_flags xs) ≡ length xs
unfolding no_flags
length-no_flags [] = refl
length-no_flags (x ∷ xs) = omega (arith, length-no_flags xs)

pub All-unvisited {κ} :
    (P : ℕ → Type κ) (visited : List Bool) (ps : List ℕ) → All P ps → All P (unvisited visited ps)
unfolding unvisited
All-unvisited P visited [] h = tt
All-unvisited P visited (p ∷ ps) h = ground (arith, All-unvisited P visited ps)
