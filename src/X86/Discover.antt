-- ===== src/X86/Discover.antt =====
-- getRaisedFunctionPrototype of X86/X86FuncPrototypeDiscovery.cpp, the discovery of the live-in
-- registers. A std::map from registers to sizes is an association list. The callee of a call, the
-- number of the block that a branch goes to and the order of LLVM's LoopTraversal are given.
pub mod Union
pub mod Blocks
pub mod Once
pub mod Kept
use llvm_mctoll.Base.{
  ℕ, suc, ◌/◌, ◌*◌, ◌==◌, ltb, if◌then◌else◌, Bool, true, false, ◌||◌, ◌&&◌, not, Option, none,
  some, List, [], ◌∷◌, ◌++◌, assert, get_elem?, ◌>>=◌, ◌>>◌,
}
use llvm_mctoll.X86.Registers.{
  ValueType, get_argument_reg, get_phys_reg_size_in_bits, is_gp_reg, is_sse2_reg,
}
use llvm_mctoll.X86.Types.{
  IrType, void_type, float_type, double_type, pointer_type, int_type, vector_type, X86Target,
  find_64_bit_super_reg,
}
use llvm_mctoll.X86.Instr.{
  Operand, reg, imm, jump_table_index, other_operand, X86Opcode, call64pcrel32, call64r, call64m,
  jmp_1, jmp_4, xor64rr, xor32rr, xor16rr, xor8rr, xorpdrr, xorpsrr, int3, other_opcode,
  MachineInstr, MachineBasicBlock,
}
use llvm_mctoll.X86.LiveIns.{add_register_to_function_live_in_set}

-- A std::map: what a key is mapped to, and the map with a new value for a key.
unfoldable pub find_key : {A : Type 0} → ℕ → List (ℕ × A) → Option A
find_key r [] = none
find_key r ((k, v) ∷ m) = let rest = find_key r m in if k == r then some v else rest

unfoldable pub put_key : {A : Type 0} → ℕ → A → List (ℕ × A) → List (ℕ × A)
put_key r v [] = (r, v) ∷ []
put_key r v ((k, w) ∷ m) = let rest = put_key r v m in if k == r then (r, v) ∷ m else (k, w) ∷ rest

abbrev pub is_undefined : {A : Type 0} → Option A → Bool
is_undefined none = true
is_undefined (some v) = false

-- A definition of a predecessor: the larger size stays.
abbrev pub keep_larger : ℕ → ℕ → List (ℕ × ℕ) → Option ℕ → List (ℕ × ℕ)
keep_larger r size defs none = put_key r size defs
keep_larger r size defs (some previous) = if ltb previous size then put_key r size defs else defs

unfoldable pub add_defs : List (ℕ × ℕ) → List (ℕ × ℕ) → List (ℕ × ℕ)
add_defs [] defs = defs
add_defs ((r, size) ∷ pred) defs = add_defs pred (keep_larger r size defs (find_key r defs))

abbrev pub defs_or_none : Option (List (ℕ × ℕ)) → List (ℕ × ℕ)
defs_or_none none = []
defs_or_none (some defs) = defs

-- The union of the definitions of the predecessors that have been visited.
unfoldable pub union_of_preds : List (ℕ × List (ℕ × ℕ)) → List ℕ → List (ℕ × ℕ) → List (ℕ × ℕ)
union_of_preds per_mbb [] defs = defs
union_of_preds per_mbb (p ∷ ps) defs =
    union_of_preds per_mbb ps (add_defs (defs_or_none (find_key p per_mbb)) defs)

-- FunctionLiveInRegs, MBBDefRegs and DiscoveredRetType.
pub record Discovery : Type 0 where
  pub function_live_in_regs : List ℕ
  pub mbb_def_regs : List (ℕ × ℕ)
  pub discovered_ret_type : Option IrType

-- The types of a function's arguments, and its return type.
pub record Callee : Type 0 where
  pub arg_types : List IrType
  pub ret_type : IrType

abbrev pub value_type : IrType → ValueType
value_type (int_type n) =
    if n == 64
    then ValueType.int64_type
    else if n == 32
    then ValueType.int32_type
    else if n == 16
    then ValueType.int16_type
    else if n == 8
    then ValueType.int8_type
    else ValueType.other_type
value_type pointer_type = ValueType.pointer_type
value_type void_type = ValueType.other_type
value_type float_type = ValueType.other_type
value_type double_type = ValueType.other_type
value_type (vector_type ty n) = ValueType.other_type

-- Type::getPrimitiveSizeInBits
unfoldable pub primitive_size_in_bits : IrType → ℕ
primitive_size_in_bits void_type = 0
primitive_size_in_bits pointer_type = 0
primitive_size_in_bits float_type = 32
primitive_size_in_bits double_type = 64
primitive_size_in_bits (int_type n) = n
primitive_size_in_bits (vector_type ty n) = primitive_size_in_bits ty * n

abbrev pub is_xor : X86Opcode → Bool
is_xor xor64rr = true
is_xor xor32rr = true
is_xor xor16rr = true
is_xor xor8rr = true
is_xor xorpdrr = true
is_xor xorpsrr = true
is_xor _ = false

-- Of the opcodes of calls: whether the callee is in the instruction; `none` for an opcode that is no
-- call here.
abbrev pub is_direct : X86Opcode → Option Bool
is_direct call64pcrel32 = some true
is_direct jmp_4 = some true
is_direct jmp_1 = some true
is_direct call64r = some false
is_direct call64m = some false
is_direct _ = none

abbrev pub first_is_imm : List Operand → Bool
first_is_imm (imm n ∷ ops) = true
first_is_imm _ = false

abbrev pub is_last : List MachineInstr → Bool
is_last [] = true
is_last (i ∷ is) = false

module _ (t : X86Target) where
  -- A use of a register that has no definition before.
  unfoldable pub use_reg : ℕ → Discovery → Option Discovery
  use_reg r s = do
    super_reg ← find_64_bit_super_reg t r
    some (
        if is_undefined (find_key super_reg s.mbb_def_regs)
        then record s {
          function_live_in_regs = add_register_to_function_live_in_set t s.function_live_in_regs r;
        }
        else s)

  unfoldable pub define_reg : ℕ → ℕ → Discovery → Option Discovery
  define_reg r size_in_bits s = do
    super_reg ← find_64_bit_super_reg t r
    some (record s { mbb_def_regs = put_key super_reg (size_in_bits / 8) s.mbb_def_regs })

  unfoldable pub define_sized : ℕ → Discovery → Option Discovery
  define_sized r s = do size ← get_phys_reg_size_in_bits t.info r; define_reg r size s

  -- xor; its first operand is tied to its second one by LLVM's table.
  abbrev pub visit_xor : List Operand → Discovery → Option Discovery
  visit_xor (reg d b ∷ reg r1 b1 ∷ reg r2 b2 ∷ ops) s = do
    s' ← (if r1 == r2 then some s else (do s1 ← use_reg r1 s; use_reg r2 s1))
    define_sized d s'
  visit_xor _ s = none

  -- The uses of the other instructions, then the definitions.
  abbrev pub visit_operand : Bool → Operand → Discovery → Option Discovery
  visit_operand defs (reg r is_def) s =
      if is_gp_reg t.info r || is_sse2_reg t.info r
      then if is_def
        then if defs then define_sized r s else some s
        else if defs
        then some s
        else use_reg r s
      else some s
  visit_operand defs (imm n) s = some s
  visit_operand defs (jump_table_index n) s = some s
  visit_operand defs other_operand s = some s

  unfoldable pub visit_operands : Bool → List Operand → Discovery → Option Discovery
  visit_operands defs [] s = some s
  visit_operands defs (op ∷ ops) s = do s' ← visit_operand defs op s; visit_operands defs ops s'

  -- The registers of the arguments of a callee, from `index`. NoRegister, which is 0, is used for a
  -- type that getArgumentReg does not know.
  unfoldable pub use_args : ℕ → List IrType → Discovery → Option Discovery
  use_args index [] s = some s
  use_args index (ty ∷ tys) s = do
    r ← get_argument_reg index (value_type ty)
    s' ← use_reg (t.number r) s
    use_args (suc index) tys s'

  -- The register that a callee returns in, with its size; `none` is a failed assertion.
  abbrev pub int_ret_reg : ℕ → Option (ℕ × ℕ)
  int_ret_reg n =
      if n == 64
      then some (t.rax, 64)
      else if n == 32
      then some (t.eax, 32)
      else if n == 16
      then some (t.ax, 16)
      else if n == 8
      then some (t.al, 8)
      else none

  abbrev pub sse_ret_reg : ℕ → Option (ℕ × ℕ)
  sse_ret_reg n = if n == 128 || (n == 64 || n == 32) then some (t.xmm 0, n) else none

  unfoldable pub ret_reg : IrType → Option (ℕ × ℕ)
  ret_reg pointer_type = some (t.rax, 64)
  ret_reg (int_type n) = int_ret_reg n
  ret_reg float_type = sse_ret_reg (primitive_size_in_bits float_type)
  ret_reg double_type = sse_ret_reg (primitive_size_in_bits double_type)
  ret_reg (vector_type ty n) = sse_ret_reg (primitive_size_in_bits (vector_type ty n))
  ret_reg void_type = none

  abbrev pub define_ret : IrType → Discovery → Option Discovery
  define_ret void_type s = some s
  define_ret ty s = do (r, size) ← ret_reg ty; define_reg r size s

  -- A call, or a tail call, of a callee that may not be found.
  unfoldable pub visit_callee : Bool → Option Callee → Discovery → Option Discovery
  visit_callee is_tail none s = some s
  visit_callee is_tail (some callee) s = do
    s1 ← use_args 0 callee.arg_types s
    s2 ← define_ret callee.ret_type s1
    some (if is_tail then record s2 { discovered_ret_type = some callee.ret_type } else s2)
