-- ===== src/X86/LiveIns/Sorted.antt =====
-- The lists that stand for sets of registers.
use llvm_mctoll.Base.{
  ℕ, ◌≤◌, ◌<◌, ◌≡◌, ◌≢◌, ◌⊎◌, ◌↔◌, refl, true, false, ◌||◌, List, [], ◌∷◌, ◌==◌, arith,
}
use llvm_mctoll.X86.Instr.{mem}
use llvm_mctoll.X86.LiveIns.{set_insert, set_erase}

pub mem-set_insert : (r q : ℕ) (set : List ℕ) → mem q (set_insert r set) ≡ ((r == q) || mem q set)
unfolding mem set_insert
mem-set_insert r q [] = ground arith
mem-set_insert r q (x ∷ set) = ground (arith, mem-set_insert r q set)

-- The elements stand in their order, each once.
abbrev pub Above : ℕ → List ℕ → Type 0
Above r [] = Unit
Above r (q ∷ qs) = (r < q) × Above q qs

abbrev pub IsSorted : List ℕ → Type 0
IsSorted [] = Unit
IsSorted (q ∷ qs) = Above q qs

pub Above-trans : (r q : ℕ) (qs : List ℕ) → r < q → Above q qs → Above r qs
Above-trans r q [] h k = tt
Above-trans r q (x ∷ qs) h k = (omega (arith, k.0), k.1)

mem-Above : (r q : ℕ) (qs : List ℕ) → Above r qs → q ≤ r → mem q qs ≡ false
unfolding mem
mem-Above r q [] h k = refl
mem-Above r q (x ∷ qs) h k = ground (arith, mem-Above x q qs h.1, h.0)

pub mem-set_erase :
    (r q : ℕ) (set : List ℕ)
    → IsSorted set
    → (mem q (set_erase r set) ≡ true) ↔ ((mem q set ≡ true) × (q ≢ r))
unfolding mem set_erase
mem-set_erase r q [] h = (λ e. cc, λ e. cc)
mem-set_erase r q (x ∷ set) h = ground (arith, mem-set_erase r q set, mem-Above x q set h)

pub IsSorted-tail : (q : ℕ) (qs : List ℕ) → Above q qs → IsSorted qs
IsSorted-tail q [] h = tt
IsSorted-tail q (x ∷ qs) h = h.1

Above-set_insert : (x r : ℕ) (set : List ℕ) → Above x set → x < r → Above x (set_insert r set)
unfolding set_insert
Above-set_insert x r [] h k = (k, tt)
Above-set_insert x r (q ∷ set) h k = ground (arith, Above-set_insert q r set h.1, h.0, h.1)

Above-set_erase : (x r : ℕ) (set : List ℕ) → Above x set → Above x (set_erase r set)
unfolding set_erase
Above-set_erase x r [] h = tt
Above-set_erase x r (q ∷ set) h =
    ground (arith, Above-set_erase q r set h.1, Above-trans x q set h.0 h.1)

pub IsSorted-set_insert : (r : ℕ) (set : List ℕ) → IsSorted set → IsSorted (set_insert r set)
unfolding set_insert
IsSorted-set_insert r [] h = tt
IsSorted-set_insert r (q ∷ set) h = ground (arith, Above-set_insert q r set h)

pub IsSorted-set_erase : (r : ℕ) (set : List ℕ) → IsSorted set → IsSorted (set_erase r set)
unfolding set_erase
IsSorted-set_erase r [] h = tt
IsSorted-set_erase r (q ∷ set) h = ground (arith, Above-set_erase q r set h, IsSorted-tail q set h)

pub mem-set_insert_cases :
    (r q : ℕ) (set : List ℕ) → mem q (set_insert r set) ≡ true → (q ≡ r) ⊎ (mem q set ≡ true)
mem-set_insert_cases r q set h = ground (arith, mem-set_insert r q set)
