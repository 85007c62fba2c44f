-- ===== src/X86/ArgTypes/Numbers.antt =====
-- The argument number of a register against the register of an argument.
use mathlib.Core.Option.{some-injective}
use llvm_mctoll.Base.{
  ℕ, zero, suc, ◌<◌, ◌≡◌, ◌≢◌, refl, sym, ap, ◌∙◌, some, List, [], ◌∷◌, ◌==◌, ==_iff, arith, inl,
  inr, Bool-cases, map, get_elem?, ◌>>=◌,
}
use llvm_mctoll.X86.Registers.{
  PhysReg, ValueType, get_argument_reg, gpr64_arg_regs_64_bit, gpr64_arg_regs_32_bit,
  gpr64_arg_regs_16_bit, gpr64_arg_regs_8_bit,
}
use llvm_mctoll.X86.Arguments.{bits, type_bits, get_argument_reg_cases}
use llvm_mctoll.X86.LiveIns.Sorted.{Above, IsSorted, IsSorted-tail}
use llvm_mctoll.X86.Types.{X86Target}
use llvm_mctoll.X86.ArgTypes.{place, number_of_place, get_argument_number}

abbrev pub all_regs : List PhysReg
all_regs =
    PhysReg.no_register ∷ PhysReg.rdi ∷ PhysReg.rsi ∷ PhysReg.rdx ∷ PhysReg.rcx ∷ PhysReg.r8
    ∷ PhysReg.r9 ∷ PhysReg.edi ∷ PhysReg.esi ∷ PhysReg.edx ∷ PhysReg.ecx ∷ PhysReg.r8d ∷ PhysReg.r9d
    ∷ PhysReg.di ∷ PhysReg.si ∷ PhysReg.dx ∷ PhysReg.cx ∷ PhysReg.r8w ∷ PhysReg.r9w ∷ PhysReg.dil
    ∷ PhysReg.sil ∷ PhysReg.dl ∷ PhysReg.cl ∷ PhysReg.r8b ∷ PhysReg.r9b ∷ []

abbrev pub phys_code : PhysReg → ℕ
phys_code PhysReg.no_register = 0
phys_code PhysReg.rdi = 1
phys_code PhysReg.rsi = 2
phys_code PhysReg.rdx = 3
phys_code PhysReg.rcx = 4
phys_code PhysReg.r8 = 5
phys_code PhysReg.r9 = 6
phys_code PhysReg.edi = 7
phys_code PhysReg.esi = 8
phys_code PhysReg.edx = 9
phys_code PhysReg.ecx = 10
phys_code PhysReg.r8d = 11
phys_code PhysReg.r9d = 12
phys_code PhysReg.di = 13
phys_code PhysReg.si = 14
phys_code PhysReg.dx = 15
phys_code PhysReg.cx = 16
phys_code PhysReg.r8w = 17
phys_code PhysReg.r9w = 18
phys_code PhysReg.dil = 19
phys_code PhysReg.sil = 20
phys_code PhysReg.dl = 21
phys_code PhysReg.cl = 22
phys_code PhysReg.r8b = 23
phys_code PhysReg.r9b = 24

code_get : (p : PhysReg) → get_elem? all_regs (phys_code p) ≡ some p
code_get PhysReg.no_register = refl
code_get PhysReg.rdi = refl
code_get PhysReg.rsi = refl
code_get PhysReg.rdx = refl
code_get PhysReg.rcx = refl
code_get PhysReg.r8 = refl
code_get PhysReg.r9 = refl
code_get PhysReg.edi = refl
code_get PhysReg.esi = refl
code_get PhysReg.edx = refl
code_get PhysReg.ecx = refl
code_get PhysReg.r8d = refl
code_get PhysReg.r9d = refl
code_get PhysReg.di = refl
code_get PhysReg.si = refl
code_get PhysReg.dx = refl
code_get PhysReg.cx = refl
code_get PhysReg.r8w = refl
code_get PhysReg.r9w = refl
code_get PhysReg.dil = refl
code_get PhysReg.sil = refl
code_get PhysReg.dl = refl
code_get PhysReg.cl = refl
code_get PhysReg.r8b = refl
code_get PhysReg.r9b = refl

-- LLVM's table of registers: the registers have different numbers, and their classes are their
-- widths.
pub record IsEncoding (t : X86Target) : Type 0 where
  pub distinct : (p q : PhysReg) → t.number p ≡ t.number q → phys_code p ≡ phys_code q
  pub gr64 : (p : PhysReg) → t.info.gr64_contains (t.number p) ≡ (bits p == 64)
  pub gr32 : (p : PhysReg) → t.info.gr32_contains (t.number p) ≡ (bits p == 32)
  pub gr16 : (p : PhysReg) → t.info.gr16_contains (t.number p) ≡ (bits p == 16)
  pub gr8 : (p : PhysReg) → t.info.gr8_contains (t.number p) ≡ (bits p == 8)

Above-get_elem? : (r : ℕ) (xs : List ℕ) (i c : ℕ) → Above r xs → get_elem? xs i ≡ some c → r < c
Above-get_elem? r [] i c h e = cc
Above-get_elem? r (x ∷ xs) zero c h e = omega (arith, h.0, some-injective _ _ e)
Above-get_elem? r (x ∷ xs) (suc i) c h e = omega (arith, h.0, Above-get_elem? x xs i c h.1 e)

place-get_elem? :
    (xs : List ℕ) (i c : ℕ) → IsSorted xs → get_elem? xs i ≡ some c → place c xs ≡ some i
unfolding place ◌>>=◌
place-get_elem? [] i c h e = cc
place-get_elem? (x ∷ xs) zero c h e = ground arith
place-get_elem? (x ∷ xs) (suc i) c h e =
    ground (arith, Above-get_elem? x xs i c h e, place-get_elem? xs i c (IsSorted-tail x xs h) e)

get_elem?-map :
    {A : Type 0} (f : A → ℕ) (xs : List A) (i : ℕ) (p : A)
    → get_elem? xs i ≡ some p
    → get_elem? (map f xs) i ≡ some (f p)
get_elem?-map f [] i p e = cc
get_elem?-map f (x ∷ xs) zero p e = ap some (ap f (some-injective _ _ e))
get_elem?-map f (x ∷ xs) (suc i) p e = get_elem?-map f xs i p e

-- The register of an argument is as wide as the argument's type.
pub get_argument_reg-bits :
    (index : ℕ) (ty : ValueType) (p : PhysReg)
    → ty ≢ ValueType.other_type
    → get_argument_reg index ty ≡ some p
    → bits p ≡ type_bits ty
get_argument_reg-bits index ty p h e = elim (get_argument_reg_cases index ty h) [
  | inl (_, r, w, g, b, _, _) ↦ ap bits (some-injective _ _ (sym e ∙ g)) ∙ b
  | inr (_, g) ↦ cc
]

module _ (t : X86Target) (enc : IsEncoding t) where
  same_number : (p q : PhysReg) → (t.number q == t.number p) ≡ (phys_code q == phys_code p)
  same_number p q = elim (Bool-cases (phys_code q == phys_code p)) [
    | inl e ↦
        let coded = ap (get_elem? all_regs) ((==_iff (phys_code q) (phys_code p)).0 e) in
        let same = some-injective _ _ (sym (code_get q) ∙ coded ∙ code_get p) in
        (==_iff _ _).1 (ap t.number same) ∙ sym e
    | inr n ↦ ground (arith, enc.distinct q p)
  ]

  place-map :
      (p : PhysReg) (xs : List PhysReg)
      → place (t.number p) (map t.number xs) ≡ place (phys_code p) (map phys_code xs)
  unfolding place
  place-map p [] = refl
  place-map p (x ∷ xs) = rw (same_number p x, place-map p xs) refl

  -- The register p stands at index i of the table of its width.
  abbrev HasPlace : ℕ → PhysReg → List PhysReg → Type 0
  HasPlace i p xs = number_of_place (place (t.number p) (map t.number xs)) ≡ some (suc i)

  HasPlace-sorted :
      (xs : List PhysReg) (i : ℕ) (p : PhysReg)
      → IsSorted (map phys_code xs)
      → get_elem? xs i ≡ some p
      → HasPlace i p xs
  unfolding ◌>>=◌
  HasPlace-sorted xs i p h e =
      rw
        (
          place-map p xs,
          place-get_elem? (map phys_code xs) i (phys_code p) h (get_elem?-map phys_code xs i p e),
        )
        refl

  -- getArgumentNumber inverts getArgumentReg: the register of an argument has the argument's number,
  -- which counts from 1.
  pub get_argument_number-get_argument_reg :
      (index : ℕ) (ty : ValueType) (p : PhysReg)
      → ty ≢ ValueType.other_type
      → get_argument_reg index ty ≡ some p
      → get_argument_number t (t.number p) ≡ some (suc index)
  unfolding get_argument_reg gpr64_arg_regs_64_bit gpr64_arg_regs_32_bit gpr64_arg_regs_16_bit
      gpr64_arg_regs_8_bit get_argument_number
  get_argument_number-get_argument_reg index ValueType.int64_type p h e =
      rw (enc.gr8 p, enc.gr16 p, enc.gr32 p, enc.gr64 p, get_argument_reg-bits index _ p h e)
        (HasPlace-sorted gpr64_arg_regs_64_bit index p (omega arith) e)
  get_argument_number-get_argument_reg index ValueType.pointer_type p h e =
      rw (enc.gr8 p, enc.gr16 p, enc.gr32 p, enc.gr64 p, get_argument_reg-bits index _ p h e)
        (HasPlace-sorted gpr64_arg_regs_64_bit index p (omega arith) e)
  get_argument_number-get_argument_reg index ValueType.int32_type p h e =
      rw (enc.gr8 p, enc.gr16 p, enc.gr32 p, get_argument_reg-bits index _ p h e)
        (HasPlace-sorted gpr64_arg_regs_32_bit index p (omega arith) e)
  get_argument_number-get_argument_reg index ValueType.int16_type p h e =
      rw (enc.gr8 p, enc.gr16 p, get_argument_reg-bits index _ p h e)
        (HasPlace-sorted gpr64_arg_regs_16_bit index p (omega arith) e)
  get_argument_number-get_argument_reg index ValueType.int8_type p h e =
      rw (enc.gr8 p, get_argument_reg-bits index _ p h e)
        (HasPlace-sorted gpr64_arg_regs_8_bit index p (omega arith) e)
  get_argument_number-get_argument_reg index ValueType.other_type p h e = absurd (h refl)
