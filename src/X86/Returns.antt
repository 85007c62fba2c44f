-- ===== src/X86/Returns.antt =====
-- getReturnTypeFromMBB of X86/X86FuncPrototypeDiscovery.cpp: the return type that a block sets up,
-- found on a walk back from its end. The callee of a call is found by `callee_return`, which gives
-- its return type, or `none` inside where the callee is not known; `none` outside is a failed
-- assertion.
pub mod Search
pub mod Ends
pub mod Rule
pub mod Paths
pub mod Total
pub mod Walk
use llvm_mctoll.Base.{
  ℕ, zero, suc, ◌==◌, if◌then◌else◌, Bool, true, false, ◌||◌, Option, none, some, List, [], ◌∷◌,
  ◌++◌, ◌>>=◌,
}
use llvm_mctoll.X86.Instr.{
  Operand, reg, imm, jump_table_index, other_operand, MachineInstr, X86Opcode, int3, mem,
}
use llvm_mctoll.X86.InstrInfo.{X86AdditionalInstrInfo, is_noop}
use llvm_mctoll.X86.Types.{IrType, X86Target, get_phys_reg_type, get_sse_instruction_type}

-- What an instruction does to the return register: nothing, or a definition of RAX or of a part of
-- it, or of XMM0; a definition of a register that is not physical ends the look at it.
pub data ReturnDef : Type 0 where
  no_def virtual_def sse_def : ReturnDef
  gp_def : ℕ → ReturnDef

-- ReturnType with HasCall.
pub data Walked : Type 0 where
  walked : Option IrType → Bool → Walked

abbrev pub is_int3 : X86Opcode → Bool
is_int3 int3 = true
is_int3 _ = false

unfoldable pub reverse_instrs : List MachineInstr → List MachineInstr
reverse_instrs [] = []
reverse_instrs (i ∷ is) = reverse_instrs is ++ i ∷ []

-- The first register of the list that is defined.
unfoldable pub first_defined : List ℕ → List ℕ → Option ℕ
first_defined [] defs = none
first_defined (q ∷ qs) defs =
    let rest = first_defined qs defs in if mem q defs then some q else rest

module _ (t : X86Target) where
  -- MCSubRegIterator(X86::RAX, TRI, true)
  abbrev pub rax_sub_regs : List ℕ
  rax_sub_regs = t.rax ∷ t.sub_regs t.rax

  abbrev pub or_sse : List ℕ → Option ℕ → ReturnDef
  or_sse defs (some q) = gp_def q
  or_sse defs none = if mem (t.xmm 0) defs then sse_def else no_def

  abbrev pub implicit_def : List ℕ → ReturnDef
  implicit_def defs = or_sse defs (first_defined rax_sub_regs defs)

  -- The first operand, where there are explicit definitions.
  abbrev pub explicit_def : List ℕ → List Operand → ReturnDef
  explicit_def defs (reg r d ∷ ops) =
      if t.is_physical r
      then if mem r rax_sub_regs
        then gp_def r
        else if r == t.xmm 0
        then sse_def
        else implicit_def defs
      else virtual_def
  explicit_def defs (imm n ∷ ops) = implicit_def defs
  explicit_def defs (jump_table_index n ∷ ops) = implicit_def defs
  explicit_def defs (other_operand ∷ ops) = implicit_def defs
  explicit_def defs [] = implicit_def defs

  unfoldable pub return_def : MachineInstr → ReturnDef
  return_def i =
      if i.num_defs == 0
      then implicit_def i.implicit_defs
      else explicit_def i.implicit_defs i.operands

  -- The walk goes on by `continue`, with ReturnType. A definition of XMM0 does not end it here.
  abbrev pub after_def :
      MachineInstr → ReturnDef → Option IrType → (Option IrType → Option Walked) → Option Walked
  after_def i no_def rt next = next rt
  after_def i virtual_def rt next = next rt
  after_def i (gp_def q) rt next =
      if t.is_physical q
      then (do ty ← get_phys_reg_type t q; some (walked (some ty) false))
      else next rt
  after_def i sse_def rt next = do
    ty ← get_sse_instruction_type i.op_prefix i.sse_domain 128
    next (some ty)

  module _ (table : List (ℕ × X86AdditionalInstrInfo))
      (callee_return : MachineInstr → Option (Option IrType)) where
    abbrev pub look : MachineInstr → Option IrType → (Option IrType → Option Walked) → Option Walked
    look i (some ty) next = some (walked (some ty) false)
    look i none next = if i.is_return then next none else do
      padding ← is_noop table i.opcode_value
      (if padding || is_int3 i.opcode then next none else after_def i (return_def i) none next)

    -- The body of the loop.
    unfoldable pub visit_back :
        MachineInstr → Option IrType → (Option IrType → Option Walked) → Option Walked
    visit_back i rt next =
        if i.is_call then (do ty ← callee_return i; some (walked ty true)) else look i rt next

    unfoldable pub walk_back : List MachineInstr → Option IrType → Option Walked
    walk_back [] rt = some (walked rt false)
    walk_back (i ∷ is) rt = visit_back i rt (λ next_rt. walk_back is next_rt)

    unfoldable pub get_return_type_from_mbb : List MachineInstr → Option Walked
    get_return_type_from_mbb instrs = walk_back (reverse_instrs instrs) none
