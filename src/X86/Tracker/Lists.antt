-- ===== src/X86/Tracker/Lists.antt =====
-- Definitions in a list, flags that are set, and blocks that are pushed.
use mathlib.Core.Option.{some-injective}
use llvm_mctoll.Base.{
  ℕ, zero, suc, ◌≡◌, ◌⊎◌, refl, ap, Bool, true, false, ◌||◌, some, List, [], ◌∷◌, ◌++◌, get_elem?,
  arith, inl, inr, All,
}
use llvm_mctoll.X86.Instr.{mem}
use llvm_mctoll.X86.Reaching.{set_flag}
use llvm_mctoll.X86.Tracker.Search.{push_unvisited, same_def}

-- The definition is in the list.
unfoldable pub has_def : ℕ × ℕ → List (ℕ × ℕ) → Bool
has_def d [] = false
has_def d (e ∷ es) = same_def e d || has_def d es

pub same_def_refl : (d : ℕ × ℕ) → same_def d d ≡ true
same_def_refl d = ground arith

-- The numbers decide.
pub same_def_eq : (c d : ℕ × ℕ) → same_def c d ≡ true → c ≡ d
same_def_eq c d h = ground arith

pub has_def-append :
    (d e : ℕ × ℕ) (es : List (ℕ × ℕ)) → has_def d (es ++ e ∷ []) ≡ (has_def d es || same_def e d)
unfolding has_def
has_def-append d e [] = ground arith
has_def-append d e (x ∷ es) = ground (arith, has_def-append d e es)

pub set_here :
    (v : List Bool) (b : ℕ) → get_elem? v b ≡ some false → get_elem? (set_flag v b) b ≡ some true
unfolding set_flag
set_here [] b h = cc
set_here (x ∷ v) zero h = refl
set_here (x ∷ v) (suc b) h = set_here v b h

pub set_keeps :
    (v : List Bool) (b q : ℕ) → get_elem? v q ≡ some true → get_elem? (set_flag v b) q ≡ some true
unfolding set_flag
set_keeps [] b q h = cc
set_keeps (x ∷ v) zero zero h = refl
set_keeps (x ∷ v) zero (suc q) h = h
set_keeps (x ∷ v) (suc b) zero h = h
set_keeps (x ∷ v) (suc b) (suc q) h = set_keeps v b q h

pub set_back :
    (v : List Bool) (b q : ℕ)
    → get_elem? (set_flag v b) q ≡ some true
    → (q ≡ b) ⊎ (get_elem? v q ≡ some true)
unfolding set_flag
set_back [] b q h = cc
set_back (x ∷ v) zero zero h = inl refl
set_back (x ∷ v) zero (suc q) h = inr h
set_back (x ∷ v) (suc b) zero h = inr h
set_back (x ∷ v) (suc b) (suc q) h = elim (set_back v b q h) [
  | inl e ↦ inl (ap suc e)
  | inr k ↦ inr k
]

pub push_keeps :
    (v : List Bool) (ps rest : List ℕ) (q : ℕ)
    → mem q rest ≡ true
    → mem q (push_unvisited v ps rest) ≡ true
unfolding push_unvisited mem
push_keeps v [] rest q h = h
push_keeps v (p ∷ ps) rest q h =
    ground (arith, push_keeps v ps rest q h, push_keeps v ps (p ∷ rest) q (ground arith))

pub push_new :
    (v : List Bool) (ps rest : List ℕ) (i q : ℕ)
    → get_elem? ps i ≡ some q
    → (get_elem? v q ≡ some true) ⊎ (mem q (push_unvisited v ps rest) ≡ true)
unfolding push_unvisited mem
push_new v [] rest i q h = cc
push_new v (p ∷ ps) rest zero q h =
    let same = some-injective _ _ h in
    let self : mem q (p ∷ rest) ≡ true = ground arith in
    let pushed = push_keeps v ps (p ∷ rest) q self in
    let flags = ap (get_elem? v) same in ground arith
push_new v (p ∷ ps) rest (suc i) q h =
    ground (arith, push_new v ps rest i q h, push_new v ps (p ∷ rest) i q h)

pub push-All {κ} :
    (P : ℕ → Type κ) (v : List Bool) (ps rest : List ℕ)
    → All P ps
    → All P rest
    → All P (push_unvisited v ps rest)
unfolding push_unvisited
push-All P v [] rest h k = k
push-All P v (p ∷ ps) rest h k =
    ground (arith, push-All P v ps rest h.1 k, push-All P v ps (p ∷ rest) h.1 (h.0, k))
