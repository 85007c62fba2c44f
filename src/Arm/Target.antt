-- ===== src/Arm/Target.antt =====
-- Registers, operands and instructions, and what the ARM passes take from LLVM's target description.
use llvm_mctoll.Base.{ℕ, Bool, true, false, List, Option, ◌==◌, ◌≡◌, ◌↔◌, arith}
use llvm_mctoll.Base.Int.{ℤ}
use llvm_mctoll.Arm.Opcode.{Opcode}

-- `phys` stands for the general registers other than the named ones, `no_register` for register 0.
pub data Register : Type 0 where
  sp pc cpsr no_register : Register
  phys : ℕ → Register
  virt : ℕ → Register

unfoldable pub is_cpsr : Register → Bool
is_cpsr cpsr = true
is_cpsr _ = false

unfoldable pub is_sp_or_pc : Register → Bool
is_sp_or_pc sp = true
is_sp_or_pc pc = true
is_sp_or_pc _ = false

abbrev pub same_register : Register → Register → Bool
same_register sp sp = true
same_register pc pc = true
same_register cpsr cpsr = true
same_register no_register no_register = true
same_register (phys m) (phys n) = m == n
same_register (virt m) (virt n) = m == n
same_register _ _ = false

-- ARM::R11, the frame pointer of compiled code, and ARM::R12.
abbrev pub r11 : Register
r11 = phys 11

abbrev pub r12 : Register
r12 = phys 12

pub same_register_iff : (p q : Register) → (same_register p q ≡ true) ↔ (p ≡ q)
same_register_iff sp sp = ground arith
same_register_iff p q = ground arith

-- llvm::MachineOperand. A register operand carries whether it is a definition.
pub data Operand : Type 0 where
  reg : Register → Bool → Operand
  imm : ℤ → Operand
  frame_index : ℤ → Operand
  metadata : ℕ → Operand

pub record MachineInstr : Type 0 where
  pub opcode : Opcode
  pub operands : List Operand

-- llvm::ARM_AM::ShiftOpc.
pub data ShiftOpc : Type 0 where
  no_shift asr lsl lsr ror rrx uxtw : ShiftOpc

-- The parts of LLVM that the passes call: the decoders of the shift operand
-- (ARMAddressingModes.h), the load and store flags of an opcode, the search for a register use,
-- and the condition code AL.
pub record Target : Type 0 where
  pub get_am2_offset : ℕ → ℕ
  pub get_am2_shift_opc : ℕ → ShiftOpc
  pub get_so_reg_offset : ℕ → ℕ
  pub get_so_reg_sh_op : ℕ → ShiftOpc
  pub may_store : Opcode → Bool
  pub may_load : Opcode → Bool
  pub find_register_use_operand_idx : List Operand → Register → Option ℕ
  pub al : ℤ
