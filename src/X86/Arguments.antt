-- ===== src/X86/Arguments.antt =====
-- The tables of argument registers of X86/X86RegisterUtils.cpp, side by side.
use llvm_mctoll.Base.{ℕ, zero, suc, ◌<◌, ◌≤◌, none, some, ◌≡◌, refl, arith, ◌⊎◌, inl, inr, ◌≢◌}
use llvm_mctoll.X86.Registers.{
  get_argument_reg, ValueType, PhysReg, gpr64_arg_regs_64_bit, gpr64_arg_regs_32_bit,
  gpr64_arg_regs_16_bit, gpr64_arg_regs_8_bit,
}

-- Which 64-bit register a register is a part of, and its width.
abbrev pub whole : PhysReg → PhysReg
whole PhysReg.rdi = PhysReg.rdi
whole PhysReg.edi = PhysReg.rdi
whole PhysReg.di = PhysReg.rdi
whole PhysReg.dil = PhysReg.rdi
whole PhysReg.rsi = PhysReg.rsi
whole PhysReg.esi = PhysReg.rsi
whole PhysReg.si = PhysReg.rsi
whole PhysReg.sil = PhysReg.rsi
whole PhysReg.rdx = PhysReg.rdx
whole PhysReg.edx = PhysReg.rdx
whole PhysReg.dx = PhysReg.rdx
whole PhysReg.dl = PhysReg.rdx
whole PhysReg.rcx = PhysReg.rcx
whole PhysReg.ecx = PhysReg.rcx
whole PhysReg.cx = PhysReg.rcx
whole PhysReg.cl = PhysReg.rcx
whole PhysReg.r8 = PhysReg.r8
whole PhysReg.r8d = PhysReg.r8
whole PhysReg.r8w = PhysReg.r8
whole PhysReg.r8b = PhysReg.r8
whole PhysReg.r9 = PhysReg.r9
whole PhysReg.r9d = PhysReg.r9
whole PhysReg.r9w = PhysReg.r9
whole PhysReg.r9b = PhysReg.r9
whole PhysReg.no_register = PhysReg.no_register

abbrev pub bits : PhysReg → ℕ
bits PhysReg.rdi = 64
bits PhysReg.edi = 32
bits PhysReg.di = 16
bits PhysReg.dil = 8
bits PhysReg.rsi = 64
bits PhysReg.esi = 32
bits PhysReg.si = 16
bits PhysReg.sil = 8
bits PhysReg.rdx = 64
bits PhysReg.edx = 32
bits PhysReg.dx = 16
bits PhysReg.dl = 8
bits PhysReg.rcx = 64
bits PhysReg.ecx = 32
bits PhysReg.cx = 16
bits PhysReg.cl = 8
bits PhysReg.r8 = 64
bits PhysReg.r8d = 32
bits PhysReg.r8w = 16
bits PhysReg.r8b = 8
bits PhysReg.r9 = 64
bits PhysReg.r9d = 32
bits PhysReg.r9w = 16
bits PhysReg.r9b = 8
bits PhysReg.no_register = 0

abbrev pub type_bits : ValueType → ℕ
type_bits ValueType.int64_type = 64
type_bits ValueType.pointer_type = 64
type_bits ValueType.int32_type = 32
type_bits ValueType.int16_type = 16
type_bits ValueType.int8_type = 8
type_bits ValueType.other_type = 0

-- An argument has a register if and only if its index is below 6, for a type that has registers;
-- the register is as wide as the type, and is a part of the register of a 64-bit argument with that
-- index.
pub get_argument_reg_cases :
    (index : ℕ) (ty : ValueType)
    → ty ≢ ValueType.other_type
    → ((index < 6)
        × (r : PhysReg) × (w : PhysReg) × (get_argument_reg index ty ≡ some r)
        × (bits r ≡ type_bits ty)
        × (get_argument_reg index ValueType.int64_type ≡ some w)
        × (whole r ≡ w))
      ⊎ ((6 ≤ index) × (get_argument_reg index ty ≡ none))
unfolding get_argument_reg gpr64_arg_regs_64_bit gpr64_arg_regs_32_bit gpr64_arg_regs_16_bit
    gpr64_arg_regs_8_bit
get_argument_reg_cases zero ValueType.int64_type h = inl (omega arith, _, _, refl, refl, refl, refl)
get_argument_reg_cases (suc zero) ValueType.int64_type h =
    inl (omega arith, _, _, refl, refl, refl, refl)
get_argument_reg_cases (suc (suc zero)) ValueType.int64_type h =
    inl (omega arith, _, _, refl, refl, refl, refl)
get_argument_reg_cases (suc (suc (suc zero))) ValueType.int64_type h =
    inl (omega arith, _, _, refl, refl, refl, refl)
get_argument_reg_cases (suc (suc (suc (suc zero)))) ValueType.int64_type h =
    inl (omega arith, _, _, refl, refl, refl, refl)
get_argument_reg_cases (suc (suc (suc (suc (suc zero))))) ValueType.int64_type h =
    inl (omega arith, _, _, refl, refl, refl, refl)
get_argument_reg_cases (suc (suc (suc (suc (suc (suc i)))))) ValueType.int64_type h =
    inr (omega arith, refl)
get_argument_reg_cases zero ValueType.pointer_type h =
    inl (omega arith, _, _, refl, refl, refl, refl)
get_argument_reg_cases (suc zero) ValueType.pointer_type h =
    inl (omega arith, _, _, refl, refl, refl, refl)
get_argument_reg_cases (suc (suc zero)) ValueType.pointer_type h =
    inl (omega arith, _, _, refl, refl, refl, refl)
get_argument_reg_cases (suc (suc (suc zero))) ValueType.pointer_type h =
    inl (omega arith, _, _, refl, refl, refl, refl)
get_argument_reg_cases (suc (suc (suc (suc zero)))) ValueType.pointer_type h =
    inl (omega arith, _, _, refl, refl, refl, refl)
get_argument_reg_cases (suc (suc (suc (suc (suc zero))))) ValueType.pointer_type h =
    inl (omega arith, _, _, refl, refl, refl, refl)
get_argument_reg_cases (suc (suc (suc (suc (suc (suc i)))))) ValueType.pointer_type h =
    inr (omega arith, refl)
get_argument_reg_cases zero ValueType.int32_type h = inl (omega arith, _, _, refl, refl, refl, refl)
get_argument_reg_cases (suc zero) ValueType.int32_type h =
    inl (omega arith, _, _, refl, refl, refl, refl)
get_argument_reg_cases (suc (suc zero)) ValueType.int32_type h =
    inl (omega arith, _, _, refl, refl, refl, refl)
get_argument_reg_cases (suc (suc (suc zero))) ValueType.int32_type h =
    inl (omega arith, _, _, refl, refl, refl, refl)
get_argument_reg_cases (suc (suc (suc (suc zero)))) ValueType.int32_type h =
    inl (omega arith, _, _, refl, refl, refl, refl)
get_argument_reg_cases (suc (suc (suc (suc (suc zero))))) ValueType.int32_type h =
    inl (omega arith, _, _, refl, refl, refl, refl)
get_argument_reg_cases (suc (suc (suc (suc (suc (suc i)))))) ValueType.int32_type h =
    inr (omega arith, refl)
get_argument_reg_cases zero ValueType.int16_type h = inl (omega arith, _, _, refl, refl, refl, refl)
get_argument_reg_cases (suc zero) ValueType.int16_type h =
    inl (omega arith, _, _, refl, refl, refl, refl)
get_argument_reg_cases (suc (suc zero)) ValueType.int16_type h =
    inl (omega arith, _, _, refl, refl, refl, refl)
get_argument_reg_cases (suc (suc (suc zero))) ValueType.int16_type h =
    inl (omega arith, _, _, refl, refl, refl, refl)
get_argument_reg_cases (suc (suc (suc (suc zero)))) ValueType.int16_type h =
    inl (omega arith, _, _, refl, refl, refl, refl)
get_argument_reg_cases (suc (suc (suc (suc (suc zero))))) ValueType.int16_type h =
    inl (omega arith, _, _, refl, refl, refl, refl)
get_argument_reg_cases (suc (suc (suc (suc (suc (suc i)))))) ValueType.int16_type h =
    inr (omega arith, refl)
get_argument_reg_cases zero ValueType.int8_type h = inl (omega arith, _, _, refl, refl, refl, refl)
get_argument_reg_cases (suc zero) ValueType.int8_type h =
    inl (omega arith, _, _, refl, refl, refl, refl)
get_argument_reg_cases (suc (suc zero)) ValueType.int8_type h =
    inl (omega arith, _, _, refl, refl, refl, refl)
get_argument_reg_cases (suc (suc (suc zero))) ValueType.int8_type h =
    inl (omega arith, _, _, refl, refl, refl, refl)
get_argument_reg_cases (suc (suc (suc (suc zero)))) ValueType.int8_type h =
    inl (omega arith, _, _, refl, refl, refl, refl)
get_argument_reg_cases (suc (suc (suc (suc (suc zero))))) ValueType.int8_type h =
    inl (omega arith, _, _, refl, refl, refl, refl)
get_argument_reg_cases (suc (suc (suc (suc (suc (suc i)))))) ValueType.int8_type h =
    inr (omega arith, refl)
get_argument_reg_cases index ValueType.other_type h = absurd (h refl)
