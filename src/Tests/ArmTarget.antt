-- ===== src/Tests/ArmTarget.antt =====
-- The target description with LLVM's documented encodings of the shift operands: in so_reg the low
-- three bits are the shift and the rest its amount; in addressing mode 2 the low twelve bits are
-- the amount, bit 12 says subtract, and the shift stands from bit 13.
use llvm_mctoll.Base.{
  ℕ, ◌+◌, ◌/◌, ◌%◌, ◌^◌, ◌==◌, if◌then◌else◌, ◌&&◌, not, Bool, true, false, List, [], ◌∷◌, Option,
  none, some,
}
use llvm_mctoll.Base.Int.{pos}
use llvm_mctoll.Arm.Opcode.{
  Opcode, ldr_rs, ldr_i12, ldr_pre_reg, ldr_pre_imm, str_rs, str_i12, str_pre_reg, str_pre_imm,
}
use llvm_mctoll.Arm.Target.{
  Register, sp, pc, cpsr, no_register, phys, virt, Operand, reg, imm, frame_index, metadata,
  ShiftOpc, Target,
}

shift_of : ℕ → ShiftOpc
shift_of n =
    if n == 1
    then ShiftOpc.asr
    else if n == 2
    then ShiftOpc.lsl
    else if n == 3
    then ShiftOpc.lsr
    else if n == 4
    then ShiftOpc.ror
    else if n == 5
    then ShiftOpc.rrx
    else if n == 6
    then ShiftOpc.uxtw
    else ShiftOpc.no_shift

stores : Opcode → Bool
stores str_rs = true
stores str_i12 = true
stores str_pre_reg = true
stores str_pre_imm = true
stores _ = false

loads : Opcode → Bool
loads ldr_rs = true
loads ldr_i12 = true
loads ldr_pre_reg = true
loads ldr_pre_imm = true
loads _ = false

same : Register → Register → Bool
same sp sp = true
same pc pc = true
same cpsr cpsr = true
same no_register no_register = true
same (phys m) (phys n) = m == n
same (virt m) (virt n) = m == n
same _ _ = false

use_from : ℕ → List Operand → Register → Option ℕ
use_from i [] r = none
use_from i (reg q d ∷ mos) r = if same q r && not d then some i else use_from (i + 1) mos r
use_from i (imm z ∷ mos) r = use_from (i + 1) mos r
use_from i (frame_index n ∷ mos) r = use_from (i + 1) mos r
use_from i (metadata n ∷ mos) r = use_from (i + 1) mos r

unfoldable pub arm : Target
unfolding shift_of stores loads use_from same
arm = record {
  get_am2_offset = λ n. n % 2 ^ 12;
  get_am2_shift_opc = λ n. shift_of (n / 2 ^ 13 % 8);
  get_so_reg_offset = λ n. n / 8;
  get_so_reg_sh_op = λ n. shift_of (n % 8);
  may_store = stores;
  may_load = loads;
  find_register_use_operand_idx = use_from 0;
  al = pos 14;
}
