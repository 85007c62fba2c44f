-- ===== src/X86/InstrInfo.antt =====
-- X86/X86AdditionalInstrInfo.h: what is known of an opcode beside LLVM's tables. The table
-- X86AddlInstrInfo is a list of its entries; an opcode is a number.
use llvm_mctoll.Base.{
  ℕ, ◌==◌, ◌%◌, ◌^◌, ltb, if◌then◌else◌, Bool, ◌&&◌, Option, none, some, List, [], ◌∷◌, ◌>>=◌,
}

pub data InstructionKind : Type 0 where
  unknown binary_op_rm binary_op_rr binary_op_with_imm binary_op_mri_or_mrc : InstructionKind
  branch_mem_op compare_op convert_bwwddq convert_wddqqo divide_mem_op : InstructionKind
  divide_reg_op fpu_reg_op lea_op leave_op load_fpu_reg mov_rr mov_ri : InstructionKind
  mov_to_mem mov_from_mem noop inplace_mem_op setcc bit_test_op store_fpu_reg : InstructionKind
  sse_kind_begin sse_mov_to_mem sse_mov_from_mem sse_mov_rr sse_compare_rr : InstructionKind
  sse_compare_rm sse_convert_rr sse_convert_rm sse_kind_end instr_kind_end : InstructionKind

-- The value of the enumerator.
abbrev pub kind_value : InstructionKind → ℕ
kind_value unknown = 0
kind_value binary_op_rm = 1
kind_value binary_op_rr = 2
kind_value binary_op_with_imm = 3
kind_value binary_op_mri_or_mrc = 4
kind_value branch_mem_op = 5
kind_value compare_op = 6
kind_value convert_bwwddq = 7
kind_value convert_wddqqo = 8
kind_value divide_mem_op = 9
kind_value divide_reg_op = 10
kind_value fpu_reg_op = 11
kind_value lea_op = 12
kind_value leave_op = 13
kind_value load_fpu_reg = 14
kind_value mov_rr = 15
kind_value mov_ri = 16
kind_value mov_to_mem = 17
kind_value mov_from_mem = 18
kind_value noop = 19
kind_value inplace_mem_op = 20
kind_value setcc = 21
kind_value bit_test_op = 22
kind_value store_fpu_reg = 23
kind_value sse_kind_begin = 24
kind_value sse_mov_to_mem = 25
kind_value sse_mov_from_mem = 26
kind_value sse_mov_rr = 27
kind_value sse_compare_rr = 28
kind_value sse_compare_rm = 29
kind_value sse_convert_rr = 30
kind_value sse_convert_rm = 31
kind_value sse_kind_end = 32
kind_value instr_kind_end = 33

pub record X86AdditionalInstrInfo : Type 0 where
  pub mem_op_size : ℕ
  pub inst_kind : InstructionKind

-- The lookup of the 16-bit key; `none` is the failed assertion that the opcode is known.
unfoldable pub find_additional_info :
    List (ℕ × X86AdditionalInstrInfo) → ℕ → Option X86AdditionalInstrInfo
find_additional_info [] key = none
find_additional_info ((k, x) ∷ table) key =
    let rest = find_additional_info table key in if k == key then some x else rest

unfoldable pub get_instruction_kind : List (ℕ × X86AdditionalInstrInfo) → ℕ → Option InstructionKind
get_instruction_kind table opcode = do
  x ← find_additional_info table (opcode % 2 ^ 16)
  some x.inst_kind

unfoldable pub get_instruction_mem_op_size : List (ℕ × X86AdditionalInstrInfo) → ℕ → Option ℕ
get_instruction_mem_op_size table opcode = do
  x ← find_additional_info table (opcode % 2 ^ 16)
  some x.mem_op_size

unfoldable pub is_noop : List (ℕ × X86AdditionalInstrInfo) → ℕ → Option Bool
is_noop table opcode = do
  kind ← get_instruction_kind table opcode
  some (kind_value kind == kind_value noop)

unfoldable pub is_sse2_instruction : List (ℕ × X86AdditionalInstrInfo) → ℕ → Option Bool
is_sse2_instruction table opcode = do
  kind ← get_instruction_kind table opcode
  some (
      ltb (kind_value sse_kind_begin) (kind_value kind)
      && ltb (kind_value kind) (kind_value sse_kind_end))

-- TSFlags & OpPrefixMask, and (TSFlags >> SSEDomainShift) & 3.
pub data OpPrefix : Type 0 where
  no_prefix pd_prefix xs_prefix xd_prefix : OpPrefix

pub data SseDomain : Type 0 where
  generic_domain packed_single packed_double packed_int : SseDomain

abbrev pub domain_precision : SseDomain → ℕ
domain_precision packed_single = 32
domain_precision packed_int = 32
domain_precision packed_double = 64
domain_precision generic_domain = 0

unfoldable pub get_instruction_bit_precision : OpPrefix → SseDomain → ℕ
get_instruction_bit_precision xs_prefix domain = 32
get_instruction_bit_precision xd_prefix domain = 64
get_instruction_bit_precision no_prefix domain = domain_precision domain
get_instruction_bit_precision pd_prefix domain = domain_precision domain
