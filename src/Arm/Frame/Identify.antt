-- ===== src/Arm/Frame/Identify.antt =====
-- ARM/ARMFrameBuilder.cpp: the tables of opcodes and identifyStackOp. Sums of the stack size, an
-- offset and the frame adjustment are taken in ℤ; the offsets of these opcodes have at most 32 bits.
-- `none` is a failed assertion of LLVM's operand accessors.
use llvm_mctoll.Base.{
  ℕ, ◌-◌, ◌%◌, ltb, length, if◌then◌else◌, Bool, true, false, ◌&&◌, ◌||◌, not, List, Option, some,
  ◌>>=◌,
}
use llvm_mctoll.Base.Int.{ℤ, pos, negsuc, sub_ℕ, ◌+ℤ◌, ◌-ℤ◌, ltb_ℤ}
use llvm_mctoll.Arm.Opcode.{Opcode, ldr_i12, ldrh, ldrsh, ldrb_i12, str_i12, strh, strb_i12, add_ri}
use llvm_mctoll.Arm.Target.{Register, sp, r11, same_register, Operand, reg, MachineInstr}
use llvm_mctoll.Arm.Builder.{get_operand, get_imm}

abbrev pub is_load_op : Opcode → Bool
is_load_op ldr_i12 = true
is_load_op ldrh = true
is_load_op ldrsh = true
is_load_op ldrb_i12 = true
is_load_op _ = false

abbrev pub is_store_op : Opcode → Bool
is_store_op str_i12 = true
is_store_op strh = true
is_store_op strb_i12 = true
is_store_op _ = false

abbrev pub is_add_op : Opcode → Bool
is_add_op add_ri = true
is_add_op _ = false

abbrev pub is_halfword_op : Opcode → Bool
is_halfword_op strh = true
is_halfword_op ldrh = true
is_halfword_op ldrsh = true
is_halfword_op _ = false

-- getBitCount. The argument is Log2 of the stack alignment.
abbrev pub get_bit_count : ℕ → Opcode → ℕ
get_bit_count log_align ldr_i12 = 4
get_bit_count log_align str_i12 = 4
get_bit_count log_align ldrb_i12 = 1
get_bit_count log_align strb_i12 = 1
get_bit_count log_align strh = 2
get_bit_count log_align ldrh = 2
get_bit_count log_align ldrsh = 2
get_bit_count log_align add_ri = 4
get_bit_count log_align _ = log_align

-- What MachineFrameInfo holds for this pass.
pub record StackObject : Type 0 where
  pub size : ℕ
  pub sp_offset : ℤ

pub record FrameInfo : Type 0 where
  pub stack_size : ℤ
  pub offset_adjustment : ℤ
  pub objects : List StackObject

-- static_cast<int8_t>
unfoldable pub to_int8 : ℤ → ℤ
to_int8 (pos n) = if ltb (n % 256) 128 then pos (n % 256) else sub_ℕ (n % 256) 256
to_int8 (negsuc n) = if ltb (n % 256) 128 then negsuc (n % 256) else pos (255 - n % 256)

abbrev pub minus_one : ℤ
minus_one = negsuc 0

abbrev pub nonneg : ℤ → Bool
nonneg (pos n) = true
nonneg (negsuc n) = false

-- getStackSize() + Offset + getOffsetAdjustment()
abbrev pub from_frame : FrameInfo → ℤ → ℤ
from_frame fi offset = fi.stack_size +ℤ offset +ℤ fi.offset_adjustment

-- identifyStackOp behind the reading of the offset.
unfoldable pub frame_offset : FrameInfo → Bool → Register → ℤ → ℤ
frame_offset fi half r offset =
    if same_register r sp && nonneg offset
    then offset
    else if same_register r r11
    then if ltb_ℤ (pos 0) offset
      then if half then from_frame fi (pos 0 -ℤ to_int8 offset) else minus_one
      else from_frame fi offset
    else minus_one

unfoldable pub base_offset : FrameInfo → MachineInstr → Operand → Option ℤ
base_offset fi mi (reg r d) = do
  mo ← get_operand mi (if is_halfword_op mi.opcode then 3 else 2)
  offset ← get_imm mo
  some (frame_offset fi (is_halfword_op mi.opcode) r offset)
base_offset fi mi _ = some minus_one

unfoldable pub identify_stack_op : FrameInfo → MachineInstr → Option ℤ
identify_stack_op fi mi =
    if not (is_load_op mi.opcode || is_store_op mi.opcode || is_add_op mi.opcode)
    then some minus_one
    else if ltb (length mi.operands) 3
    then some minus_one
    else get_operand mi 1 >>= base_offset fi mi
