-- ===== src/Arm/Prolog/Eliminate.antt =====
-- ARM/ARMEliminatePrologEpilog.cpp: analyzeStackSize, analyzeFrameAdjustment, eliminateProlog,
-- eliminateEpilog and eliminate. An instruction that is erased twice, which is undefined behaviour,
-- is `none`, as is a failed assertion.
use llvm_mctoll.Base.{
  ℕ, zero, suc, if◌then◌else◌, Bool, true, false, ◌&&◌, not, Option, none, some, ◌>>=◌, List, [],
  ◌∷◌, ◌++◌,
}
use llvm_mctoll.Base.Int.{ℤ, pos, ltb_ℤ}
use llvm_mctoll.Arm.Opcode.{is_sub_ri, is_add_ri, bx_ret}
use llvm_mctoll.Arm.Target.{
  Register, sp, pc, cpsr, r11, same_register, Operand, reg, imm, MachineInstr, Target,
}
use llvm_mctoll.Arm.Builder.{get_operand, get_operand_before, build, add_imm, push}
use llvm_mctoll.Arm.Prolog.Conditions.{prolog_tests, epilog_tests, count_tests, epilog_load}
use llvm_mctoll.Arm.Prolog.Spill.{Spills, SpillTarget, saved_registers, allocate_slots}

-- A machine function, with what MachineFrameInfo holds for this pass.
pub record MachineFunction : Type 0 where
  pub blocks : List (List MachineInstr)
  pub stack_size : ℤ
  pub offset_adjustment : ℤ
  pub spills : Spills

-- The operands of `add/sub dest, base, #imm` with imm > 0: the immediate.
abbrev pub positive_imm : Register → Register → List Operand → Option ℤ
positive_imm dest base (reg a _ ∷ reg b _ ∷ imm z ∷ mos) =
    if same_register a dest && same_register b base && ltb_ℤ (pos 0) z then some z else none
positive_imm dest base _ = none

abbrev pub stack_decrement : MachineInstr → Option ℤ
stack_decrement mi = if is_sub_ri mi.opcode then positive_imm sp sp mi.operands else none

abbrev pub frame_increment : MachineInstr → Option ℤ
frame_increment mi = if is_add_ri mi.opcode then positive_imm r11 sp mi.operands else none

abbrev pub or_else : Option ℤ → ℤ → ℤ
or_else none z = z
or_else (some y) z = y

-- The loop over the front block, which ends at the first match.
abbrev pub first_imm : (MachineInstr → Option ℤ) → ℤ → List MachineInstr → ℤ
first_imm f old [] = old
first_imm f old (mi ∷ mis) = or_else (f mi) (first_imm f old mis)

abbrev pub front_imm : (MachineInstr → Option ℤ) → ℤ → List (List MachineInstr) → ℤ
front_imm f old [] = old
front_imm f old (b ∷ bs) = first_imm f old b

unfoldable pub analyze_stack_size : MachineFunction → MachineFunction
analyze_stack_size mf = record mf { stack_size = front_imm stack_decrement mf.stack_size mf.blocks }

unfoldable pub analyze_frame_adjustment : MachineFunction → MachineFunction
analyze_frame_adjustment mf = record mf {
  offset_adjustment = front_imm frame_increment mf.offset_adjustment mf.blocks;
}

-- An instruction, and how often it stands on the list of removals.
abbrev pub Counted : Type 0
Counted = MachineInstr × ℕ

unfoldable pub count_block : (MachineInstr → Option ℕ) → List MachineInstr → Option (List Counted)
count_block count [] = some []
count_block count (mi ∷ mis) = do n ← count mi; rest ← count_block count mis; some ((mi, n) ∷ rest)

-- MBB.erase of each entry of the list.
unfoldable pub erase_counted : List Counted → Option (List MachineInstr)
erase_counted [] = some []
erase_counted ((mi, zero) ∷ cs) = do rest ← erase_counted cs; some (mi ∷ rest)
erase_counted ((mi, suc zero) ∷ cs) = erase_counted cs
erase_counted ((mi, suc (suc n)) ∷ cs) = none

-- PrologInstrs; an instruction that is there twice is checked for a register twice, to the same end.
unfoldable pub listed : List Counted → List MachineInstr
listed [] = []
listed ((mi, zero) ∷ cs) = listed cs
listed ((mi, suc n) ∷ cs) = mi ∷ listed cs

module _ (t : Target) (st : SpillTarget) (frame_ptr : Register) where
  -- The slots, and whether the instructions are erased: not on the early exit.
  abbrev pub spill : Spills → List Register → Option Spills → Spills × Bool
  spill old csi (some new) = (new, true)
  spill old [] none = (old, false)
  spill old (r ∷ rs) none = (allocate_slots st (r ∷ rs) 0 (record old { saved = [] }), true)

  abbrev pub after_prolog :
      MachineFunction
      → List MachineInstr
      → List (List MachineInstr)
      → List Counted
      → Spills × Bool
      → Option MachineFunction
  after_prolog mf front rest counted (spills, false) = some (record mf { spills = spills })
  after_prolog mf front rest counted (spills, true) = do
    front' ← erase_counted counted
    some (record mf { blocks = front' ∷ rest; spills = spills })

  abbrev pub front_prolog : MachineFunction → List (List MachineInstr) → Option MachineFunction
  front_prolog mf [] = none
  front_prolog mf (front ∷ rest) = do
    counted ← count_block (count_tests (prolog_tests t frame_ptr)) front
    let csi = saved_registers t st.callee_saved_regs (listed counted) in
        after_prolog mf front rest counted
          (spill mf.spills csi (st.assign_callee_saved_spill_slots mf.spills csi))

  unfoldable pub eliminate_prolog : MachineFunction → Option MachineFunction
  eliminate_prolog mf = front_prolog mf mf.blocks

-- getNumExplicitOperands() is what LLVM says of the instruction.
module _ (t : Target) (num_explicit_operands : MachineInstr → ℕ) (frame_ptr : Register) where
  -- The predicate operands of BX_RET: those in front of and at CPSR, or AL.
  abbrev pub add_predicate : MachineInstr → MachineInstr → Option ℕ → Option MachineInstr
  add_predicate mi mib none = some (add_imm mib t.al)
  add_predicate mi mib (some idx) = do
    cond ← get_operand_before mi idx 1
    flags ← get_operand mi idx
    some (push (push mib cond) flags)

  unfoldable pub build_return : MachineInstr → Option MachineInstr
  build_return mi = do
    mib ← add_predicate mi (build bx_ret) (t.find_register_use_operand_idx mi.operands cpsr)
    last ← get_operand_before mi (num_explicit_operands mi) 1
    some (push mib last)

  abbrev pub return_for : MachineInstr → Bool → Option ℕ → Option (List Counted)
  return_for mi true (some i) = do ret ← build_return mi; some ((ret, 0) ∷ [])
  return_for mi _ _ = some []

  -- The body of the loop: what stands in front of MI, and MI.
  unfoldable pub count_epilog : MachineInstr → Option (List Counted)
  count_epilog mi = do
    loads ← epilog_load t frame_ptr mi
    ret ← return_for mi loads (t.find_register_use_operand_idx mi.operands pc)
    n ← count_tests (epilog_tests t frame_ptr) mi
    some (ret ++ (mi, n) ∷ [])

  unfoldable pub count_epilog_block : List MachineInstr → Option (List Counted)
  count_epilog_block [] = some []
  count_epilog_block (mi ∷ mis) = do
    c ← count_epilog mi
    cs ← count_epilog_block mis
    some (c ++ cs)

  unfoldable pub epilog_block : List MachineInstr → Option (List MachineInstr)
  epilog_block mis = count_epilog_block mis >>= erase_counted

  unfoldable pub epilog_blocks : List (List MachineInstr) → Option (List (List MachineInstr))
  epilog_blocks [] = some []
  epilog_blocks (b ∷ bs) = do b' ← epilog_block b; bs' ← epilog_blocks bs; some (b' ∷ bs')

  unfoldable pub eliminate_epilog : MachineFunction → Option MachineFunction
  eliminate_epilog mf = do bs ← epilog_blocks mf.blocks; some (record mf { blocks = bs })

  -- eliminate: both removals return true, and the function the negation.
  unfoldable pub eliminate : SpillTarget → MachineFunction → Option (MachineFunction × Bool)
  eliminate st mf = do
    mf' ← eliminate_prolog t st frame_ptr (analyze_frame_adjustment (analyze_stack_size mf))
    mf'' ← eliminate_epilog mf'
    some (mf'', not true)
