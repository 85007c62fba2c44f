-- ===== src/X86/Tracker.antt =====
-- The state of X86/X86RaisedValueTracker.cpp and its operations on one block: which register is
-- defined in which block, with its size and its value. A value is a number, a pointer, and 0 is
-- nullptr; its type is LLVM's. `none` is a failed assertion, and where the constructor's loop over the
-- arguments stops what DefineArgs says.
pub mod Arguments
pub mod Search
pub mod Ends
pub mod Lists
pub mod Reached
pub mod Whole
pub mod Defs
use llvm_mctoll.Base.{
  ℕ, zero, suc, ◌+◌, ◌-◌, ◌%◌, ◌==◌, leb, ltb, if◌then◌else◌, Bool, true, false, ◌||◌, ◌&&◌, not,
  Option, none, some, List, [], ◌∷◌, map, assert, length, get_elem?, ◌>>=◌, ◌>>◌,
}
use llvm_mctoll.X86.Registers.{gpr64_arg_regs_64_bit, get_phys_reg_size_in_bits, is_sse2_reg}
use llvm_mctoll.X86.Types.{
  IrType, void_type, float_type, double_type, pointer_type, int_type, vector_type, X86Target,
  find_64_bit_super_reg,
}
use llvm_mctoll.X86.InstrInfo.{
  X86AdditionalInstrInfo, is_sse2_instruction, get_instruction_bit_precision,
}
use llvm_mctoll.X86.Instr.{
  Operand, reg, imm, jump_table_index, other_operand, MachineInstr, MachineBasicBlock,
}
use llvm_mctoll.X86.ArgTypes.{get_argument_number, sse_arg_regs_64_bit}
use llvm_mctoll.X86.Discover.{find_key, put_key, primitive_size_in_bits}

-- PhysRegDefsInMBB: for each 64-bit register, for each block, the size and the value.
abbrev pub RegDefs : Type 0
RegDefs = List (ℕ × List (ℕ × (ℕ × ℕ)))

abbrev pub or_empty : Option (List (ℕ × (ℕ × ℕ))) → List (ℕ × (ℕ × ℕ))
or_empty none = []
or_empty (some m) = m

unfoldable pub find_def : RegDefs → ℕ → ℕ → Option (ℕ × ℕ)
find_def defs super_reg mbb = find_key mbb (or_empty (find_key super_reg defs))

-- An assignment to PhysRegDefsInMBB[super_reg][mbb]; the size is a uint8_t.
unfoldable pub put_def : RegDefs → ℕ → ℕ → ℕ → ℕ → RegDefs
put_def defs super_reg mbb size value =
    put_key super_reg (put_key mbb (size % 256, value) (or_empty (find_key super_reg defs))) defs

abbrev pub is_int_or_ptr : IrType → Bool
is_int_or_ptr (int_type n) = true
is_int_or_ptr pointer_type = true
is_int_or_ptr _ = false

abbrev pub is_floating_point : IrType → Bool
is_floating_point float_type = true
is_floating_point double_type = true
is_floating_point _ = false

abbrev pub is_sse_vector : IrType → Bool
is_sse_vector (vector_type ty n) = primitive_size_in_bits (vector_type ty n) == 128
is_sse_vector _ = false

-- How the loop over the types of the arguments ends: with the definitions, at llvm_unreachable, or in a
-- read behind the end of a table of registers.
pub data DefineArgs : Type 0 where
  defined : RegDefs → DefineArgs
  unhandled_type : DefineArgs
  out_of_range : DefineArgs

abbrev pub with_reg : {A : Type 0} → Option A → (A → DefineArgs) → DefineArgs
with_reg none k = out_of_range
with_reg (some r) k = k r

-- The constructor, the loop over the types of the arguments, with GPArgNum and SSEArgNum.
unfoldable pub define_args : X86Target → List IrType → ℕ → ℕ → RegDefs → DefineArgs
define_args t [] gps sses defs = defined defs
define_args t (ty ∷ tys) gps sses defs =
    let skip = define_args t tys gps sses defs in
    if is_int_or_ptr ty
    then if ltb (length gpr64_arg_regs_64_bit) gps
      then skip
      else with_reg (get_elem? gpr64_arg_regs_64_bit gps) (λ r.
        define_args t tys (suc gps) sses
          (put_def defs (t.number r) 0 (primitive_size_in_bits ty) 0))
    else if is_floating_point ty || is_sse_vector ty
    then if ltb (length (sse_arg_regs_64_bit t)) sses
      then skip
      else with_reg (get_elem? (sse_arg_regs_64_bit t) sses)
          (λ r. define_args t tys gps (suc sses) (put_def defs r 0 (primitive_size_in_bits ty) 0))
    else unhandled_type

-- The constructor goes on with the definitions only.
abbrev pub initial_defs : DefineArgs → Option RegDefs
initial_defs (defined defs) = some defs
initial_defs unhandled_type = none
initial_defs out_of_range = none

module _ (t : X86Target) where
  -- The constructor, a definition of an instruction: its size is known and its value is not yet.
  abbrev pub def_size : List (ℕ × X86AdditionalInstrInfo) → MachineInstr → ℕ → Option ℕ
  def_size table i r = do
    sse ← is_sse2_instruction table i.opcode_value
    (if sse
        then some (get_instruction_bit_precision i.op_prefix i.sse_domain)
        else get_phys_reg_size_in_bits t.info r)

  unfoldable pub define_operands :
      List (ℕ × X86AdditionalInstrInfo) → MachineInstr → ℕ → List Operand → RegDefs → Option RegDefs
  define_operands table i mbb [] defs = some defs
  define_operands table i mbb (reg r true ∷ ops) defs =
      let skip = define_operands table i mbb ops defs in
      if r == t.eflags || (r == t.fpsw || r == t.fpcw) then skip else (do
        super_reg ← find_64_bit_super_reg t r
        size ← def_size table i r
        define_operands table i mbb ops (put_def defs super_reg mbb size 0))
  define_operands table i mbb (reg r false ∷ ops) defs = define_operands table i mbb ops defs
  define_operands table i mbb (imm n ∷ ops) defs = define_operands table i mbb ops defs
  define_operands table i mbb (jump_table_index n ∷ ops) defs = define_operands table i mbb ops defs
  define_operands table i mbb (other_operand ∷ ops) defs = define_operands table i mbb ops defs

  unfoldable pub define_instrs :
      List (ℕ × X86AdditionalInstrInfo) → ℕ → List MachineInstr → RegDefs → Option RegDefs
  define_instrs table mbb [] defs = some defs
  define_instrs table mbb (i ∷ is) defs = do
    defs' ← (if i.num_defs == 0 then some defs else define_operands table i mbb i.operands defs)
    define_instrs table mbb is defs'

  unfoldable pub define_blocks :
      List (ℕ × X86AdditionalInstrInfo) → ℕ → List MachineBasicBlock → RegDefs → Option RegDefs
  define_blocks table mbb [] defs = some defs
  define_blocks table mbb (b ∷ bs) defs = do
    defs' ← define_instrs table mbb b.instrs defs
    define_blocks table (suc mbb) bs defs'

  -- The constructor.
  unfoldable pub make_raised_value_tracker :
      List (ℕ × X86AdditionalInstrInfo) → List IrType → List MachineBasicBlock → Option RegDefs
  make_raised_value_tracker table arg_types mbbs = do
    defs ← initial_defs (define_args t arg_types 0 0 [])
    define_blocks table 0 mbbs defs

  -- A value with its type; a floating point value has its own size.
  unfoldable pub set_phys_reg_ssa_value : RegDefs → ℕ → ℕ → ℕ → IrType → Option RegDefs
  set_phys_reg_ssa_value defs phys_reg mbb value ty = do
    assert (not (phys_reg == 0))
    super_reg ← find_64_bit_super_reg t phys_reg
    size ←
        (if is_floating_point ty
          then some (primitive_size_in_bits ty)
          else get_phys_reg_size_in_bits t.info phys_reg)
    assert (not (size % 256 == 0))
    some (put_def defs super_reg mbb size value)

  -- 0 where the block does not define the register.
  abbrev pub size_of_def : Option (ℕ × ℕ) → Option ℕ
  size_of_def none = some 0
  size_of_def (some (size, value)) = do assert (not (size == 0)); some size

  unfoldable pub get_in_block_phys_reg_size : RegDefs → ℕ → ℕ → Option ℕ
  get_in_block_phys_reg_size defs phys_reg mbb = do
    super_reg ← find_64_bit_super_reg t phys_reg
    size_of_def (find_def defs super_reg mbb)
