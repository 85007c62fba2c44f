-- ===== src/X86/Discover/Blocks.antt =====
-- getRaisedFunctionPrototype, the walk over the blocks and what it makes of them. What LLVM's
-- LoopTraversal visits is a list of block numbers, each with whether the pass is the primary one.
use llvm_mctoll.Base.{
  ℕ, if◌then◌else◌, Bool, true, false, ◌||◌, ◌&&◌, not, Option, none, some, List, [], ◌∷◌, assert,
  get_elem?, ◌>>=◌, ◌>>◌,
}
use llvm_mctoll.X86.Types.{IrType, X86Target}
use llvm_mctoll.X86.Instr.{Operand, imm, jump_table_index, MachineInstr, MachineBasicBlock}
use llvm_mctoll.X86.InstrInfo.{X86AdditionalInstrInfo}
use llvm_mctoll.X86.ArgTypes.{build_func_arg_type_vector}
use llvm_mctoll.X86.Returns.Search.{Outcome, ended, failed, out_of_fuel, get_function_return_type}
use llvm_mctoll.X86.Discover.{
  Discovery, Callee, find_key, put_key, is_undefined, union_of_preds, is_xor, is_direct,
  first_is_imm, is_last, visit_xor, visit_operands, visit_callee,
}

abbrev pub return_of : Option Callee → Option IrType
return_of none = none
return_of (some c) = some c.ret_type

-- FunctionLiveInRegs and DiscoveredRetType, with PerMBBDefinedPhysRegMap.
pub record Walk : Type 0 where
  pub live_in_regs : List ℕ
  pub ret_type : Option IrType
  pub per_mbb : List (ℕ × List (ℕ × ℕ))

-- The operand of a branch that ends a block is an immediate or the index of a jump table.
abbrev pub is_branch_operand : List Operand → Bool
is_branch_operand (imm n ∷ ops) = true
is_branch_operand (jump_table_index n ∷ ops) = true
is_branch_operand _ = false

unfoldable pub has_good_end : List MachineInstr → Bool
has_good_end [] = true
has_good_end (i ∷ []) = not i.is_branch || is_branch_operand i.operands
has_good_end (i ∷ j ∷ is) = has_good_end (j ∷ is)

module _ (t : X86Target) (get_called_function : MachineInstr → Option (Option Callee))
    (branch_target : MachineInstr → Option (Option ℕ)) where
  -- A direct unconditional branch to no block, at the end of its block.
  unfoldable pub is_tail_call : MachineInstr → List MachineInstr → Option Bool
  is_tail_call i rest =
      if i.is_unconditional_branch && (first_is_imm i.operands && i.is_imm_pc_rel)
      then (do target ← branch_target i; some (is_undefined target && is_last rest))
      else some false

  abbrev pub call_by : MachineInstr → Bool → Option Bool → Discovery → Option Discovery
  call_by i is_tail none s = none
  call_by i is_tail (some false) s = some s
  call_by i is_tail (some true) s = do
    callee ← get_called_function i
    visit_callee t is_tail callee s

  unfoldable pub visit_call : MachineInstr → List MachineInstr → Discovery → Option Discovery
  visit_call i rest s = do
    is_tail ← is_tail_call i rest
    (if i.is_call || is_tail then call_by i is_tail (is_direct i.opcode) s else some s)

  unfoldable pub visit_other : MachineInstr → Discovery → Option Discovery
  visit_other i s = do s' ← visit_operands t false i.operands s; visit_operands t true i.operands s'

  -- The body of the loop over the instructions of a block.
  unfoldable pub visit_instr : MachineInstr → List MachineInstr → Discovery → Option Discovery
  visit_instr i rest s =
      if is_xor i.opcode
      then visit_xor t i.operands s
      else if i.is_call || i.is_unconditional_branch
      then visit_call i rest s
      else visit_other i s

  unfoldable pub visit_instrs : List MachineInstr → Discovery → Option Discovery
  visit_instrs [] s = some s
  visit_instrs (i ∷ is) s = do s' ← visit_instr i is s; visit_instrs is s'

  -- The body of the loop over the traversal; the definitions of a block are there before only where
  -- the pass is not its primary one.
  abbrev pub discover_block : ℕ → Bool → List MachineInstr → List ℕ → Walk → Option Walk
  discover_block n primary [] preds w = some w
  discover_block n primary (i ∷ is) preds w = do
    assert (has_good_end (i ∷ is))
    s ← visit_instrs (i ∷ is) (record {
      function_live_in_regs = w.live_in_regs;
      mbb_def_regs = union_of_preds w.per_mbb preds [];
      discovered_ret_type = w.ret_type;
    })
    assert (is_undefined (find_key n w.per_mbb) || not primary)
    some (record {
      live_in_regs = s.function_live_in_regs;
      ret_type = s.discovered_ret_type;
      per_mbb = put_key n s.mbb_def_regs w.per_mbb;
    })

  unfoldable pub discover_blocks : List MachineBasicBlock → List (ℕ × Bool) → Walk → Option Walk
  discover_blocks mbbs [] w = some w
  discover_blocks mbbs ((n, primary) ∷ order) w = do
    mbb ← get_elem? mbbs n
    w' ← discover_block n primary mbb.instrs mbb.predecessors w
    discover_blocks mbbs order w'

  abbrev pub ended_type : Outcome → Option IrType
  ended_type (ended ty) = ty
  ended_type failed = none
  ended_type out_of_fuel = none

  module _ (table : List (ℕ × X86AdditionalInstrInfo)) where
    -- The return type is that of a tail call, where there is one.
    abbrev pub return_type : List MachineBasicBlock → Option IrType → Option IrType
    return_type mbbs (some ty) = some ty
    return_type mbbs none = ended_type (
        get_function_return_type t table
          (λ i. do callee ← get_called_function i; some (return_of callee)) mbbs)

    -- The return type and the types of the arguments; `none` is a failed assertion.
    unfoldable pub get_raised_function_prototype :
        List MachineBasicBlock → List (ℕ × Bool) → Option (IrType × List IrType)
    get_raised_function_prototype mbbs order = do
      w ← discover_blocks mbbs order (record { live_in_regs = []; ret_type = none; per_mbb = [] })
      args ← build_func_arg_type_vector t w.live_in_regs
      ret ← return_type mbbs w.ret_type
      some (ret, args)
