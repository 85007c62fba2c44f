-- ===== src/X86/Instr.antt =====
-- A MachineInstr and a MachineBasicBlock as the passes of X86/ read them. The flags are those that
-- LLVM's table gives to the opcode; `mc_inst_index` is the number in the metadata operand.
use llvm_mctoll.Base.{ℕ, ◌==◌, Bool, false, ◌||◌, List, [], ◌∷◌}
use llvm_mctoll.X86.InstrInfo.{OpPrefix, SseDomain}

-- A register, with whether it is defined; an immediate, the pattern of an int64_t.
pub data Operand : Type 0 where
  reg : ℕ → Bool → Operand
  imm : ℕ → Operand
  jump_table_index : ℕ → Operand
  other_operand : Operand

-- The opcodes that are told apart by name.
pub data X86Opcode : Type 0 where
  call64pcrel32 call64r call64m jmp_1 jmp_4 : X86Opcode
  xor64rr xor32rr xor16rr xor8rr xorpdrr xorpsrr : X86Opcode
  int3 other_opcode : X86Opcode

pub record MachineInstr : Type 0 where
  pub opcode : X86Opcode
  pub opcode_value : ℕ
  pub mc_inst_index : ℕ
  pub operands : List Operand
  pub is_call : Bool
  pub is_return : Bool
  pub is_branch : Bool
  pub is_unconditional_branch : Bool
  pub is_imm_pc_rel : Bool
  pub num_defs : ℕ
  pub implicit_defs : List ℕ
  pub op_prefix : OpPrefix
  pub sse_domain : SseDomain

-- The numbers of the predecessors, in LLVM's order.
pub record MachineBasicBlock : Type 0 where
  pub instrs : List MachineInstr
  pub predecessors : List ℕ
  pub is_return_block : Bool

-- hasExactImplicitDefOfPhysReg, and std::set::find on the set's elements.
unfoldable pub mem : ℕ → List ℕ → Bool
mem r [] = false
mem r (q ∷ qs) = (q == r) || mem r qs
