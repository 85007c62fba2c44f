-- ===== src/X86/ArgTypes.antt =====
-- getArgumentNumber and buildFuncArgTypeVector of X86/X86FuncPrototypeDiscovery.cpp.
pub mod Numbers
pub mod Alike
pub mod Found
pub mod Vector
pub mod Built
use llvm_mctoll.Base.{
  ℕ, zero, suc, ◌==◌, ltb, if◌then◌else◌, Bool, true, false, Option, none, some, List, [], ◌∷◌,
  ◌++◌, map, assert, ◌>>=◌, ◌>>◌,
}
use llvm_mctoll.X86.Registers.{
  is_8_bit_phys_reg, is_16_bit_phys_reg, is_32_bit_phys_reg, is_64_bit_phys_reg, is_sse2_reg,
  is_gp_reg, gpr64_arg_regs_64_bit, gpr64_arg_regs_32_bit, gpr64_arg_regs_16_bit,
  gpr64_arg_regs_8_bit,
}
use llvm_mctoll.X86.Types.{IrType, int_type, double_type, X86Target}

-- std::find and std::distance: the place of the register, from 0.
unfoldable pub place : ℕ → List ℕ → Option ℕ
place r [] = none
place r (q ∷ qs) = let rest = (do i ← place r qs; some (suc i)) in if q == r then some 0 else rest

-- SSEArgRegs64Bit
abbrev pub sse_arg_regs_64_bit : X86Target → List ℕ
sse_arg_regs_64_bit t = map t.xmm (0 ∷ 1 ∷ 2 ∷ 3 ∷ 4 ∷ 5 ∷ 6 ∷ 7 ∷ [])

abbrev pub number_of_place : Option ℕ → Option ℕ
number_of_place o = do i ← o; some (suc i)

-- `none` is -1.
unfoldable pub get_argument_number : X86Target → ℕ → Option ℕ
get_argument_number t p_reg =
    if is_8_bit_phys_reg t.info p_reg
    then number_of_place (place p_reg (map t.number gpr64_arg_regs_8_bit))
    else if is_16_bit_phys_reg t.info p_reg
    then number_of_place (place p_reg (map t.number gpr64_arg_regs_16_bit))
    else if is_32_bit_phys_reg t.info p_reg
    then number_of_place (place p_reg (map t.number gpr64_arg_regs_32_bit))
    else if is_64_bit_phys_reg t.info p_reg
    then number_of_place (place p_reg (map t.number gpr64_arg_regs_64_bit))
    else if is_sse2_reg t.info p_reg
    then number_of_place (place p_reg (sse_arg_regs_64_bit t))
    else none

unfoldable pub find_arg : ℕ → List (ℕ × IrType) → Option IrType
find_arg n [] = none
find_arg n ((k, ty) ∷ m) = let rest = find_arg n m in if k == n then some ty else rest

-- ArgNumTypeMap and SSEArgNumTypeMap, with MaxGPArgNum and MaxSSEArgNum.
pub record ArgMaps : Type 0 where
  pub arg_num_type_map : List (ℕ × IrType)
  pub sse_arg_num_type_map : List (ℕ × IrType)
  pub max_gp_arg_num : ℕ
  pub max_sse_arg_num : ℕ

abbrev pub no_args : ArgMaps
no_args = record {
  arg_num_type_map = [];
  sse_arg_num_type_map = [];
  max_gp_arg_num = 0;
  max_sse_arg_num = 0;
}

abbrev pub is_new : Option IrType → Bool
is_new none = true
is_new (some ty) = false

abbrev pub larger : ℕ → ℕ → ℕ
larger n m = if ltb m n then n else m

-- The type of a general purpose register, by its width.
unfoldable pub gp_arg_type : X86Target → ℕ → IrType
gp_arg_type t p_reg =
    if is_8_bit_phys_reg t.info p_reg
    then int_type 8
    else if is_16_bit_phys_reg t.info p_reg
    then int_type 16
    else if is_32_bit_phys_reg t.info p_reg
    then int_type 32
    else int_type 64

-- A register with its argument number; `none` is a failed assertion or llvm_unreachable.
unfoldable pub add_arg : X86Target → ℕ → ArgMaps → Option ℕ → Option ArgMaps
add_arg t p_reg s none = some s
add_arg t p_reg s (some n) =
    if is_gp_reg t.info p_reg
    then (do
      assert (is_new (find_arg n s.arg_num_type_map))
      some (record s {
        arg_num_type_map = (n, gp_arg_type t p_reg) ∷ s.arg_num_type_map;
        max_gp_arg_num = larger n s.max_gp_arg_num;
      }))
    else if is_sse2_reg t.info p_reg
    then (do
      assert (is_new (find_arg n s.sse_arg_num_type_map))
      some (record s {
        sse_arg_num_type_map = (n, double_type) ∷ s.sse_arg_num_type_map;
        max_sse_arg_num = larger n s.max_sse_arg_num;
      }))
    else none

-- The first loop.
unfoldable pub find_args : X86Target → List ℕ → ArgMaps → Option ArgMaps
find_args t [] s = some s
find_args t (r ∷ rs) s = do s' ← add_arg t r s (get_argument_number t r); find_args t rs s'

abbrev pub or_type : Option IrType → IrType → IrType
or_type none ty = ty
or_type (some ty) default = ty

-- The loops that fill ArgTyVec: `n` rounds, from `idx`.
unfoldable pub fill_args : ℕ → ℕ → List (ℕ × IrType) → IrType → List IrType
fill_args zero idx m default = []
fill_args (suc n) idx m default = or_type (find_arg idx m) default ∷ fill_args n (suc idx) m default

abbrev pub arg_vector : ArgMaps → List IrType
arg_vector s =
    fill_args s.max_gp_arg_num 1 s.arg_num_type_map (int_type 64)
    ++ fill_args s.max_sse_arg_num 1 s.sse_arg_num_type_map double_type

unfoldable pub build_func_arg_type_vector : X86Target → List ℕ → Option (List IrType)
build_func_arg_type_vector t phys_regs = do s ← find_args t phys_regs no_args; some (arg_vector s)
