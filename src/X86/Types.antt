-- ===== src/X86/Types.antt =====
-- The IR types that X86/X86MachineInstructionRaiserUtils.cpp and X86/X86RaisedValueTracker.cpp give
-- to registers and SSE instructions, and the 64-bit register that a register is a part of.
use llvm_mctoll.Base.{
  ℕ, ◌==◌, ◌/◌, if◌then◌else◌, Bool, true, false, ◌||◌, Option, none, some, List, [], ◌∷◌, assert,
  ◌>>◌,
}
use llvm_mctoll.X86.Registers.{
  RegisterInfo, PhysReg, is_64_bit_phys_reg, is_32_bit_phys_reg, is_16_bit_phys_reg,
  is_8_bit_phys_reg, is_sse2_reg, is_64_bit_sse2_reg, is_eflag_bit,
}
use llvm_mctoll.X86.InstrInfo.{
  OpPrefix, SseDomain, no_prefix, pd_prefix, xs_prefix, xd_prefix, generic_domain, packed_single,
  packed_double, packed_int,
}

-- The types of LLVM that the raiser makes.
pub data IrType : Type 0 where
  void_type float_type double_type pointer_type : IrType
  int_type : ℕ → IrType
  vector_type : IrType → ℕ → IrType

-- LLVM's table of registers: the enumerators, NoRegister being 0, and what its iterators visit in
-- their order, without the register itself.
pub record X86Target : Type 0 where
  pub info : RegisterInfo
  pub number : PhysReg → ℕ
  pub xmm : ℕ → ℕ
  pub rax : ℕ
  pub eax : ℕ
  pub ax : ℕ
  pub al : ℕ
  pub eflags : ℕ
  pub fpsw : ℕ
  pub fpcw : ℕ
  pub sub_regs : ℕ → List ℕ
  pub super_regs : ℕ → List ℕ
  pub is_physical : ℕ → Bool

-- `none` is a failed assertion.
unfoldable pub get_phys_reg_type : X86Target → ℕ → Option IrType
get_phys_reg_type t p_reg =
    if is_64_bit_phys_reg t.info p_reg
    then some (int_type 64)
    else if is_32_bit_phys_reg t.info p_reg
    then some (int_type 32)
    else if is_16_bit_phys_reg t.info p_reg
    then some (int_type 16)
    else if is_8_bit_phys_reg t.info p_reg
    then some (int_type 8)
    else if is_sse2_reg t.info p_reg
    then some (int_type 128)
    else none

-- The scalar of 32 or 64 bits, or as many as the register holds; `none` is llvm_unreachable, or the
-- failed assertion that the instruction is an SSE instruction.
unfoldable pub get_sse_instruction_type : OpPrefix → SseDomain → ℕ → Option IrType
get_sse_instruction_type prefix generic_domain size = none
get_sse_instruction_type xs_prefix packed_single size = some float_type
get_sse_instruction_type no_prefix packed_single size = some (vector_type float_type (size / 32))
get_sse_instruction_type pd_prefix packed_single size = none
get_sse_instruction_type xd_prefix packed_single size = none
get_sse_instruction_type xd_prefix packed_double size = some double_type
get_sse_instruction_type pd_prefix packed_double size = some (vector_type double_type (size / 64))
get_sse_instruction_type no_prefix packed_double size = none
get_sse_instruction_type xs_prefix packed_double size = none
get_sse_instruction_type prefix packed_int size = some (vector_type (int_type 32) (size / 32))

-- The loop of find64BitSuperReg: the register of the last round, and whether one was a 64-bit
-- register, of which there may be one.
unfoldable pub last_super_reg : RegisterInfo → ℕ → Bool → List ℕ → Option ℕ
last_super_reg info super_reg super_reg_found [] = do assert super_reg_found; some super_reg
last_super_reg info super_reg true (r ∷ rs) =
    let rest = last_super_reg info r true rs in if is_64_bit_phys_reg info r then none else rest
last_super_reg info super_reg false (r ∷ rs) = last_super_reg info r (is_64_bit_phys_reg info r) rs

unfoldable pub find_64_bit_super_reg : X86Target → ℕ → Option ℕ
find_64_bit_super_reg t phys_reg =
    if phys_reg == 0
    then some 0
    else if is_eflag_bit t.info phys_reg || (phys_reg == t.fpsw || phys_reg == t.fpcw)
    then some phys_reg
    else if is_64_bit_phys_reg t.info phys_reg || is_64_bit_sse2_reg t.info phys_reg
    then some phys_reg
    else last_super_reg t.info 0 false (t.super_regs phys_reg)
