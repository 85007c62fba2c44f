-- ===== src/Arm/Splitting/Pass.antt =====
-- ARMInstructionSplitting::split: which splitter an instruction goes to, and the pass over a
-- function. A function is a list of blocks, a block a list of instructions. What a splitter inserts
-- stands before MI, so the walk does not meet it; the removal of the instructions on RemoveList is
-- made where they stand.
use llvm_mctoll.Base.{
  ℕ, if◌then◌else◌, Bool, true, false, ◌&&◌, not, List, [], ◌∷◌, ◌++◌, Option, some, none, ◌+◌,
  ◌>>=◌,
}
use llvm_mctoll.Base.Int.{ℤ, pos}
use llvm_mctoll.Arm.Opcode.{Opcode, is_set}
use llvm_mctoll.Arm.Target.{cpsr, is_cpsr, is_sp_or_pc, Operand, reg, imm, MachineInstr, Target}
use llvm_mctoll.Arm.Builder.{eqb_ℤ, get_operand, get_operand_before, Split}
use llvm_mctoll.Arm.Splitting.Tables.{checkis_shifter, is_ldrstr_pre, get_load_store_opcode}
use llvm_mctoll.Arm.Splitting.LoadStore.{
  split_ldrstr_pre, split_ldrstr_pre_imm, split_ldrstr, split_ldrstr_imm,
}
use llvm_mctoll.Arm.Splitting.Shifter.{split_common, split_s, split_c, split_cs}

-- MI is left as it is: RemoveMI stays null.
abbrev pub not_split : ℕ → Option Split
not_split v = some (record { emitted = []; removed = false; next_vreg = v })

-- MO.isReg() && MO.getReg() == ARM::CPSR
unfoldable pub is_cpsr_operand : Operand → Bool
is_cpsr_operand (reg r d) = is_cpsr r
is_cpsr_operand _ = false

-- MO.isReg() && MO.getReg() is neither SP nor PC
unfoldable pub is_base : Operand → Bool
is_base (reg r d) = not (is_sp_or_pc r)
is_base _ = false

-- MO.isImm() && MO.getImm() != z
unfoldable pub is_imm_other_than : ℤ → Operand → Bool
is_imm_other_than z (imm n) = not (eqb_ℤ n z)
is_imm_other_than z _ = false

-- What is known of CPSR: whether the instruction sets the flags, and whether it tests a condition.
pub record CpsrUse : Type 0 where
  pub update_cpsr : Bool
  pub cond_code : Bool

module _ (t : Target) where
  unfoldable pub cpsr_use : MachineInstr → Option ℕ → Option CpsrUse
  unfolding is_cpsr_operand is_imm_other_than
  cpsr_use mi none = some (record { update_cpsr = false; cond_code = false })
  cpsr_use mi (some idx) = do
    next ← get_operand mi (idx + 1)
    if is_cpsr_operand next then some (record { update_cpsr = true; cond_code = true }) else (do
      prev ← get_operand_before mi idx 1
      some (
          if is_imm_other_than t.al prev
          then record { update_cpsr = false; cond_code = true }
          else record { update_cpsr = true; cond_code = false }))

  -- The chain of four tests. A splitter that takes Idx is called only where it is not -1; the
  -- index -1 would fail its first assertion.
  unfoldable pub dispatch : ℕ → MachineInstr → Opcode → Option ℕ → CpsrUse → Option Split
  dispatch v mi new_opc idx use_ =
      if not use_.update_cpsr && not use_.cond_code
      then split_common t v mi new_opc
      else if use_.update_cpsr && not use_.cond_code
      then (do i ← idx; split_s t v mi new_opc i)
      else if not use_.update_cpsr && use_.cond_code
      then (do i ← idx; split_c t v mi new_opc i)
      else (do i ← idx; split_cs t v mi new_opc i)

  unfoldable pub split_shifter : ℕ → MachineInstr → Opcode → Option Split
  split_shifter v mi new_opc =
      let idx = t.find_register_use_operand_idx mi.operands cpsr in
      cpsr_use mi idx >>= dispatch v mi new_opc idx

  -- The branch on isLDRSTRPre, at operand 3.
  unfoldable pub split_pre : ℕ → MachineInstr → Operand → Option Split
  unfolding is_imm_other_than
  split_pre v mi (reg r d) = split_ldrstr_pre t v mi
  split_pre v mi mo =
      if is_imm_other_than (pos 0) mo then split_ldrstr_pre_imm t v mi else not_split v

  -- The other loads and stores, at operand 2.
  unfoldable pub split_offset : ℕ → MachineInstr → Operand → Option Split
  unfolding is_imm_other_than
  split_offset v mi (reg r d) = split_ldrstr t v mi
  split_offset v mi mo =
      if is_imm_other_than (pos 0) mo then split_ldrstr_imm t v mi else not_split v

  unfoldable pub split_load_store : ℕ → MachineInstr → Option Split
  unfolding is_base
  split_load_store v mi =
      if is_ldrstr_pre mi.opcode then (do mo ← get_operand mi 3; split_pre v mi mo) else (do
        base ← get_operand mi 1
        if is_base base then (do mo ← get_operand mi 2; split_offset v mi mo) else not_split v)

  -- The body of the loop over a block.
  unfoldable pub split_instr : ℕ → MachineInstr → Option Split
  split_instr v mi =
      let new_opc = checkis_shifter mi.opcode in
      if is_set (get_load_store_opcode mi.opcode)
      then split_load_store v mi
      else if is_set new_opc
      then split_shifter v mi new_opc
      else not_split v

  -- What stands in the block in place of MI.
  abbrev pub in_place : MachineInstr → Split → List MachineInstr
  in_place mi s = s.emitted ++ (if s.removed then [] else mi ∷ [])

  unfoldable pub split_block : ℕ → List MachineInstr → Option (List MachineInstr × ℕ)
  split_block v [] = some ([], v)
  split_block v (mi ∷ mis) = do
    s ← split_instr v mi
    (rest, v') ← split_block s.next_vreg mis
    some (in_place mi s ++ rest, v')

  unfoldable pub split_machine_function :
      ℕ → List (List MachineInstr) → Option (List (List MachineInstr) × ℕ)
  split_machine_function v [] = some ([], v)
  split_machine_function v (mbb ∷ mbbs) = do
    (mbb', v') ← split_block v mbb
    (rest, v'') ← split_machine_function v' mbbs
    some (mbb' ∷ rest, v'')
