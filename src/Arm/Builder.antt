-- ===== src/Arm/Builder.antt =====
-- Reading operands and building instructions, as ARM/ARMInstructionSplitting.cpp does.
-- `none` is a failed assertion (LLVM is built with assertions): an operand that is not there, or
-- not of the kind that is asked for.
use llvm_mctoll.Base.{
  ℕ, zero, suc, ◌+◌, ◌-◌, ◌%◌, ◌^◌, leb, if◌then◌else◌, Bool, true, false, List, [], ◌∷◌, ◌++◌,
  Option, none, some, get_elem?, ◌>>=◌, ◌==◌,
}
use llvm_mctoll.Base.Int.{ℤ, pos, negsuc}
use llvm_mctoll.Arm.Opcode.{Opcode}
use llvm_mctoll.Arm.Target.{Register, Operand, reg, imm, frame_index, metadata, MachineInstr}

-- The conversion of an `int64_t` to `unsigned`.
unfoldable pub to_unsigned : ℤ → ℕ
to_unsigned (pos n) = n % 2 ^ 32
to_unsigned (negsuc n) = 2 ^ 32 - 1 - n % 2 ^ 32

abbrev pub eqb_ℤ : ℤ → ℤ → Bool
eqb_ℤ (pos a) (pos b) = a == b
eqb_ℤ (negsuc a) (negsuc b) = a == b
eqb_ℤ _ _ = false

-- MI.getOperand(i)
abbrev pub get_operand : MachineInstr → ℕ → Option Operand
get_operand mi i = get_elem? mi.operands i

-- MI.getOperand(i - k): out of range where `i - k` wraps below 0.
abbrev pub get_operand_before : MachineInstr → ℕ → ℕ → Option Operand
get_operand_before mi i k = if leb k i then get_operand mi (i - k) else none

abbrev pub get_imm : Operand → Option ℤ
get_imm (imm z) = some z
get_imm _ = none

abbrev pub is_reg : Operand → Bool
is_reg (reg r d) = true
is_reg _ = false

-- getReg() of an operand that is known to be a register.
abbrev pub get_reg : Operand → Option Register
get_reg (reg r d) = some r
get_reg _ = none

-- BuildMI(MBB, MI, DebugLoc, TII->get(Opc)), and with a register that it defines.
unfoldable pub build : Opcode → MachineInstr
build opc = record { opcode = opc; operands = [] }

unfoldable pub build_def : Opcode → Register → MachineInstr
build_def opc r = record { opcode = opc; operands = reg r true ∷ [] }

unfoldable pub push : MachineInstr → Operand → MachineInstr
push mib mo = record mib { operands = mib.operands ++ (mo ∷ []) }

abbrev pub add_imm : MachineInstr → ℤ → MachineInstr
add_imm mib z = push mib (imm z)

abbrev pub add_reg : MachineInstr → Register → MachineInstr
add_reg mib r = push mib (reg r false)

abbrev pub add_metadata : MachineInstr → ℕ → MachineInstr
add_metadata mib n = push mib (metadata n)

-- addOperand: a register becomes a definition or a use, a frame index is copied, and any other
-- operand is refused.
unfoldable pub add_operand : MachineInstr → Operand → Bool → Option MachineInstr
add_operand mib (reg r d) is_def = some (push mib (reg r is_def))
add_operand mib (frame_index i) is_def = some (push mib (frame_index i))
add_operand mib (imm z) is_def = none
add_operand mib (metadata n) is_def = none

-- for (N = n; N < n + count; N++) addOperand(Sec, MI.getOperand(N));
unfoldable pub add_operands : MachineInstr → ℕ → ℕ → MachineInstr → Option MachineInstr
add_operands mi n zero mib = some mib
add_operands mi n (suc count) mib = do
  mo ← get_operand mi n
  mib' ← add_operand mib mo false
  add_operands mi (n + 1) count mib'

-- Fst.addImm(MI.getOperand(Idx - 1).getImm()); addOperand(Fst, MI.getOperand(Idx));
unfoldable pub add_cond : MachineInstr → ℕ → MachineInstr → Option MachineInstr
add_cond mi idx mib = do
  code ← get_operand_before mi idx 1
  z ← get_imm code
  flags ← get_operand mi idx
  add_operand (add_imm mib z) flags false

-- The same, with addOperand(Fst, MI.getOperand(Idx + 1)) behind it.
unfoldable pub add_cond_flags : MachineInstr → ℕ → MachineInstr → Option MachineInstr
unfolding add_cond
add_cond_flags mi idx mib = do
  mib' ← add_cond mi idx mib
  flags ← get_operand mi (idx + 1)
  add_operand mib' flags false

-- if (Idx != -1) { … }: what the load and store splitters add where the instruction has a CPSR.
unfoldable pub add_cond? : MachineInstr → Option ℕ → MachineInstr → Option MachineInstr
add_cond? mi none mib = some mib
add_cond? mi (some idx) mib = add_cond mi idx mib

-- Fst.addImm(ARMCC::AL); addOperand(Fst, MI.getOperand(Idx));
unfoldable pub add_always : ℤ → MachineInstr → ℕ → MachineInstr → Option MachineInstr
add_always al mi idx mib = do flags ← get_operand mi idx; add_operand (add_imm mib al) flags false

-- The outcome of a splitter: the instructions that it inserts before MI, whether it returns MI for
-- removal, and the next virtual register.
pub record Split : Type 0 where
  pub emitted : List MachineInstr
  pub removed : Bool
  pub next_vreg : ℕ
