-- ===== src/X86/Returns/Walk.antt =====
-- Which instruction of a block gives the return type.
use llvm_mctoll.Base.{
  ℕ, ◌≡◌, refl, sym, ap, ◌∙◌, Bool, true, false, ◌||◌, Option, none, some, List, [], ◌∷◌, ◌++◌, All,
  ◌>>=◌, ◌==◌,
}
use mathlib.Core.List.{append-nil, append_assoc}
use llvm_mctoll.X86.Instr.{Operand, reg, MachineInstr, mem}
use llvm_mctoll.X86.InstrInfo.{X86AdditionalInstrInfo, is_noop}
use llvm_mctoll.X86.Types.{IrType, int_type, X86Target, get_phys_reg_type, get_sse_instruction_type}
use llvm_mctoll.X86.Returns.{
  ReturnDef, no_def, sse_def, gp_def, Walked, walked, is_int3, reverse_instrs, return_def,
  visit_back, walk_back, get_return_type_from_mbb,
}

module _ (t : X86Target) (table : List (ℕ × X86AdditionalInstrInfo))
    (callee_return : MachineInstr → Option (Option IrType)) where
  -- A return, padding, or an instruction that does not define the return register.
  pub data IsSilent (i : MachineInstr) : Type 0 where
    returns : i.is_call ≡ false → i.is_return ≡ true → IsSilent i
    pads :
        i.is_call ≡ false
        → i.is_return ≡ false
        → (p : Bool) → is_noop table i.opcode_value ≡ some p
        → (p || is_int3 i.opcode) ≡ true
        → IsSilent i
    defines_nothing :
        i.is_call ≡ false
        → i.is_return ≡ false
        → is_noop table i.opcode_value ≡ some false
        → is_int3 i.opcode ≡ false
        → return_def t i ≡ no_def
        → IsSilent i

  visit_back-IsSilent :
      (i : MachineInstr) (next : Option IrType → Option Walked)
      → IsSilent i
      → visit_back t table callee_return i none next ≡ next none
  unfolding visit_back ◌>>=◌
  visit_back-IsSilent i next (returns c r) = simp (c, r)
  visit_back-IsSilent i next (pads c r p n e) = simp (c, r, n, e)
  visit_back-IsSilent i next (defines_nothing c r n e d) = simp (c, r, n, e, d)

  reverse_instrs-append :
      (xs ys : List MachineInstr)
      → reverse_instrs (xs ++ ys) ≡ reverse_instrs ys ++ reverse_instrs xs
  unfolding reverse_instrs
  reverse_instrs-append [] ys = sym (append-nil (reverse_instrs ys))
  reverse_instrs-append (x ∷ xs) ys =
      ap (λ zs. zs ++ x ∷ []) (reverse_instrs-append xs ys)
      ∙ append_assoc (reverse_instrs ys) (reverse_instrs xs) (x ∷ [])

  walk_back-silent :
      (x : MachineInstr) (ys : List MachineInstr)
      → IsSilent x
      → walk_back t table callee_return (x ∷ ys) none ≡ walk_back t table callee_return ys none
  unfolding walk_back
  walk_back-silent x ys h = visit_back-IsSilent x _ h

  walk_back-append :
      (xs ys : List MachineInstr)
      → All IsSilent xs
      → walk_back t table callee_return (reverse_instrs xs ++ ys) none
        ≡ walk_back t table callee_return ys none
  unfolding reverse_instrs
  walk_back-append [] ys h = refl
  walk_back-append (x ∷ xs) ys h =
      ap (λ zs. walk_back t table callee_return zs none)
        (append_assoc (reverse_instrs xs) (x ∷ []) ys)
      ∙ walk_back-append xs (x ∷ ys) h.1
      ∙ walk_back-silent x ys h.0

  -- What stands behind the last instruction that is not silent does not count.
  get_return_type_from_mbb-silent :
      (before : List MachineInstr) (d : MachineInstr) (tail : List MachineInstr)
      → All IsSilent tail
      → get_return_type_from_mbb t table callee_return (before ++ d ∷ tail)
        ≡ walk_back t table callee_return (d ∷ reverse_instrs before) none
  unfolding get_return_type_from_mbb reverse_instrs
  get_return_type_from_mbb-silent before d tail h =
      ap (λ zs. walk_back t table callee_return zs none)
        (reverse_instrs-append before (d ∷ tail)
          ∙ append_assoc (reverse_instrs tail) (d ∷ []) (reverse_instrs before))
      ∙ walk_back-append tail (d ∷ reverse_instrs before) h

  walk_back-call :
      (c : MachineInstr) (ys : List MachineInstr)
      → c.is_call ≡ true
      → walk_back t table callee_return (c ∷ ys) none
        ≡ (do ty ← callee_return c; some (walked ty true))
  unfolding walk_back visit_back
  walk_back-call c ys e = simp e

  -- The last call of a block gives its callee's return type, where what follows it in the block is
  -- silent.
  pub get_return_type_from_mbb-call :
      (before : List MachineInstr) (c : MachineInstr) (tail : List MachineInstr)
      → c.is_call ≡ true
      → All IsSilent tail
      → get_return_type_from_mbb t table callee_return (before ++ c ∷ tail)
        ≡ (do ty ← callee_return c; some (walked ty true))
  get_return_type_from_mbb-call before c tail e h =
      get_return_type_from_mbb-silent before c tail h ∙ walk_back-call c (reverse_instrs before) e

  -- An instruction that is looked at.
  pub record IsDef (d : MachineInstr) (r : ReturnDef) : Type 0 where
    pub no_call : d.is_call ≡ false
    pub no_return : d.is_return ≡ false
    pub no_padding : is_noop table d.opcode_value ≡ some false
    pub no_int3 : is_int3 d.opcode ≡ false
    pub defines : return_def t d ≡ r

  -- A register of the general purpose class of a width, and of none that is wider.
  pub data IsGpr (q : ℕ) : ℕ → Type 0 where
    in_gr64 : t.info.gr64_contains q ≡ true → IsGpr q 64
    in_gr32 : t.info.gr64_contains q ≡ false → t.info.gr32_contains q ≡ true → IsGpr q 32
    in_gr16 :
        t.info.gr64_contains q ≡ false
        → t.info.gr32_contains q ≡ false
        → t.info.gr16_contains q ≡ true
        → IsGpr q 16
    in_gr8 :
        t.info.gr64_contains q ≡ false
        → t.info.gr32_contains q ≡ false
        → t.info.gr16_contains q ≡ false
        → t.info.gr8_contains q ≡ true
        → IsGpr q 8

  -- An instruction that is looked at and defines RAX or a part of it in its first operand.
  pub record IsRaxDef (d : MachineInstr) (q : ℕ) : Type 0 where
    pub no_call : d.is_call ≡ false
    pub no_return : d.is_return ≡ false
    pub no_padding : is_noop table d.opcode_value ≡ some false
    pub no_int3 : is_int3 d.opcode ≡ false
    pub has_defs : (d.num_defs == 0) ≡ false
    pub others : List Operand
    pub first : d.operands ≡ reg q true ∷ others
    pub physical : t.is_physical q ≡ true
    pub part : mem q (t.rax ∷ t.sub_regs t.rax) ≡ true

  return_def-IsRaxDef : (d : MachineInstr) (q : ℕ) → IsRaxDef d q → return_def t d ≡ gp_def q
  unfolding return_def
  return_def-IsRaxDef d q e = rw (e.has_defs, e.first, e.physical, e.part)

  get_phys_reg_type-IsGpr :
      (q width : ℕ) → IsGpr q width → get_phys_reg_type t q ≡ some (int_type width)
  unfolding get_phys_reg_type
  get_phys_reg_type-IsGpr q _ (in_gr64 a) = rw a
  get_phys_reg_type-IsGpr q _ (in_gr32 a b) = rw (a, b)
  get_phys_reg_type-IsGpr q _ (in_gr16 a b c) = rw (a, b, c)
  get_phys_reg_type-IsGpr q _ (in_gr8 a b c d) = rw (a, b, c, d)

  walk_back-gp_def :
      (d : MachineInstr) (ys : List MachineInstr) (q width : ℕ)
      → IsRaxDef d q
      → IsGpr q width
      → walk_back t table callee_return (d ∷ ys) none ≡ some (walked (some (int_type width)) false)
  unfolding walk_back visit_back ◌>>=◌
  walk_back-gp_def d ys q width e g = simp (
    e.no_call,
    e.no_return,
    e.no_padding,
    e.no_int3,
    return_def-IsRaxDef d q e,
    e.physical,
    get_phys_reg_type-IsGpr q width g,
  )

  -- A block in which an instruction that is no call, no return and no padding has RAX or a part of it
  -- as its first operand, and in which only returns, padding and instructions that do not define the
  -- return register follow, returns an integer of the width of that register, whatever stands before.
  -- The instruction has explicit definitions, and the register is in the class of
  -- that width and in none that is wider.
  pub get_return_type_from_mbb-gp_def :
      (before : List MachineInstr) (d : MachineInstr) (tail : List MachineInstr) (q width : ℕ)
      → IsRaxDef d q
      → IsGpr q width
      → All IsSilent tail
      → get_return_type_from_mbb t table callee_return (before ++ d ∷ tail)
        ≡ some (walked (some (int_type width)) false)
  get_return_type_from_mbb-gp_def before d tail q width e g h =
      get_return_type_from_mbb-silent before d tail h
      ∙ walk_back-gp_def d (reverse_instrs before) q width e g

  walk_back-sse_def :
      (c d : MachineInstr) (ys : List MachineInstr) (ty : IrType)
      → c.is_call ≡ true
      → IsDef d sse_def
      → get_sse_instruction_type d.op_prefix d.sse_domain 128 ≡ some ty
      → walk_back t table callee_return (d ∷ c ∷ ys) none
        ≡ (do callee ← callee_return c; some (walked callee true))
  unfolding walk_back visit_back ◌>>=◌
  walk_back-sse_def c d ys ty k e s =
      simp (e.no_call, e.no_return, e.no_padding, e.no_int3, e.defines, s, k)

  -- A definition of XMM0 that stands right behind a call does not give its type: the type is the
  -- return type of the callee.
  pub get_return_type_from_mbb-sse_def :
      (before : List MachineInstr) (c d : MachineInstr) (tail : List MachineInstr) (ty : IrType)
      → c.is_call ≡ true
      → IsDef d sse_def
      → get_sse_instruction_type d.op_prefix d.sse_domain 128 ≡ some ty
      → All IsSilent tail
      → get_return_type_from_mbb t table callee_return (before ++ c ∷ d ∷ tail)
        ≡ (do callee ← callee_return c; some (walked callee true))
  unfolding reverse_instrs
  get_return_type_from_mbb-sse_def before c d tail ty k e s h =
      ap (get_return_type_from_mbb t table callee_return)
        (sym (append_assoc before (c ∷ []) (d ∷ tail)))
      ∙ get_return_type_from_mbb-silent (before ++ c ∷ []) d tail h
      ∙ ap (λ zs. walk_back t table callee_return (d ∷ zs) none)
          (reverse_instrs-append before (c ∷ []))
      ∙ walk_back-sse_def c d (reverse_instrs before) ty k e s
