-- ===== src/Arm/Splitting/LoadStore.antt =====
-- splitLDRSTR, splitLDRSTRPre, splitLDRSTRPreImm and splitLDRSTRImm of ARMInstructionSplitting.
-- The assertions of one call are made in another order where that changes no outcome.
-- `v` is the number of the next virtual register; MRI->createVirtualRegister takes it.
use llvm_mctoll.Base.{ℕ, ◌+◌, ltb, if◌then◌else◌, true, false, [], ◌∷◌, Option, some, ◌>>=◌}
use llvm_mctoll.Base.Int.{pos}
use llvm_mctoll.Arm.Opcode.{Opcode, add_rr, is_rrx}
use llvm_mctoll.Arm.Target.{cpsr, virt, Operand, MachineInstr, Target}
use llvm_mctoll.Arm.Builder.{
  to_unsigned, get_operand, get_imm, build, build_def, add_imm, add_reg, add_metadata, add_operand,
  add_cond?, Split,
}
use llvm_mctoll.Arm.Splitting.Tables.{get_load_store_opcode, get_shift_opcode}

module _ (t : Target) where
  -- The data operand of the pre-indexed forms: `stored` is used by a store, `loaded` defined by a
  -- load.
  unfoldable pub add_pre_data :
      MachineInstr → Operand → Operand → MachineInstr → Option MachineInstr
  add_pre_data mi stored loaded mib =
      if t.may_store mi.opcode
      then add_operand mib stored false
      else if t.may_load mi.opcode
      then add_operand mib loaded true
      else some mib

  -- The data operand of the forms that do not write back: Rd, used by a store, else defined.
  unfoldable pub add_data : MachineInstr → Operand → MachineInstr → Option MachineInstr
  add_data mi rd mib =
      if t.may_store mi.opcode then add_operand mib rd false else add_operand mib rd true

  abbrev pub cpsr_idx : MachineInstr → Option ℕ
  cpsr_idx mi = t.find_register_use_operand_idx mi.operands cpsr

  -- ADD Rm, Rm, #imm; LDRxxx/STRxxx Rt, [Rm]
  unfoldable pub split_ldrstr_pre_imm : ℕ → MachineInstr → Option Split
  unfolding add_pre_data
  split_ldrstr_pre_imm v mi = do
    rd ← get_operand mi 0
    rn ← get_operand mi 1
    rm ← get_operand mi 2
    rs ← get_operand mi 3
    fst ← add_operand (build add_rr) rm true
    fst ← add_operand fst rm false
    offset ← get_imm rs
    sec ← add_pre_data mi rn rd (build (get_load_store_opcode mi.opcode))
    sec ← add_operand sec rm false
    fst ← add_cond? mi (cpsr_idx mi) (add_imm fst offset)
    sec ← add_cond? mi (cpsr_idx mi) sec
    some (record {
      emitted = add_metadata fst 0 ∷ add_metadata sec 1 ∷ [];
      removed = true;
      next_vreg = v;
    })

  -- Rs shift #imm into VReg; ADD Rm, Rm, VReg; LDRxxx/STRxxx Rt, [Rm]
  unfoldable pub split_ldrstr_pre_shift :
      ℕ → MachineInstr → Opcode → ℕ → Operand → Operand → Operand → Operand → Option Split
  unfolding add_pre_data
  split_ldrstr_pre_shift v mi shift_opc offset rd rn rm rs = do
    fst ← add_operand (build_def shift_opc (virt v)) rs false
    sec ← add_operand (build add_rr) rm true
    sec ← add_operand sec rm false
    thd ← add_pre_data mi rn rd (build (get_load_store_opcode mi.opcode))
    thd ← add_operand thd rm false
    fst ← add_cond? mi (cpsr_idx mi) (add_imm fst (pos offset))
    sec ← add_cond? mi (cpsr_idx mi) (add_reg sec (virt v))
    thd ← add_cond? mi (cpsr_idx mi) thd
    some (record {
      emitted = add_metadata fst 0 ∷ add_metadata sec 1 ∷ add_metadata thd 2 ∷ [];
      removed = true;
      next_vreg = v + 1;
    })

  -- The same with RRX, which takes no offset and no condition.
  unfoldable pub split_ldrstr_pre_rrx :
      ℕ → MachineInstr → Opcode → Operand → Operand → Operand → Operand → Option Split
  unfolding add_pre_data
  split_ldrstr_pre_rrx v mi shift_opc rd rn rm rs = do
    fst ← add_operand (build_def shift_opc (virt v)) rs false
    sec ← add_operand (build add_rr) rm true
    sec ← add_operand sec rm false
    thd ← add_pre_data mi rn rd (build (get_load_store_opcode mi.opcode))
    thd ← add_operand thd rm false
    sec ← add_cond? mi (cpsr_idx mi) (add_reg sec (virt v))
    thd ← add_cond? mi (cpsr_idx mi) thd
    some (record {
      emitted = add_metadata fst 0 ∷ add_metadata sec 1 ∷ add_metadata thd 2 ∷ [];
      removed = true;
      next_vreg = v + 1;
    })

  -- ADD Rm, Rm, Rs; LDRxxx/STRxxx Rt, [Rm]
  unfoldable pub split_ldrstr_pre_plain :
      ℕ → MachineInstr → Operand → Operand → Operand → Operand → Option Split
  unfolding add_pre_data
  split_ldrstr_pre_plain v mi rd rn rm rs = do
    fst ← add_operand (build add_rr) rm true
    fst ← add_operand fst rm false
    fst ← add_operand fst rs false
    sec ← add_pre_data mi rn rd (build (get_load_store_opcode mi.opcode))
    sec ← add_operand sec rm false
    fst ← add_cond? mi (cpsr_idx mi) fst
    sec ← add_cond? mi (cpsr_idx mi) sec
    some (record {
      emitted = add_metadata fst 0 ∷ add_metadata sec 1 ∷ [];
      removed = true;
      next_vreg = v + 1;
    })

  unfoldable pub split_ldrstr_pre : ℕ → MachineInstr → Option Split
  split_ldrstr_pre v mi = do
    shift ← get_operand mi 4
    z ← get_imm shift
    let simm = to_unsigned z
    let offset = t.get_am2_offset simm
    let shift_opc = get_shift_opcode (t.get_am2_shift_opc simm) offset
    rd ← get_operand mi 0
    rn ← get_operand mi 1
    rm ← get_operand mi 2
    rs ← get_operand mi 3
    if ltb 0 offset
        then split_ldrstr_pre_shift v mi shift_opc offset rd rn rm rs
        else if is_rrx shift_opc
        then split_ldrstr_pre_rrx v mi shift_opc rd rn rm rs
        else split_ldrstr_pre_plain v mi rd rn rm rs

  -- ADD VReg, Rn, #imm; LDRxxx/STRxxx Rd, [VReg]
  unfoldable pub split_ldrstr_imm : ℕ → MachineInstr → Option Split
  unfolding add_data
  split_ldrstr_imm v mi = do
    rd ← get_operand mi 0
    rn ← get_operand mi 1
    rm ← get_operand mi 2
    fst ← add_operand (build_def add_rr (virt v)) rn false
    offset ← get_imm rm
    sec ← add_data mi rd (build (get_load_store_opcode mi.opcode))
    fst ← add_cond? mi (cpsr_idx mi) (add_imm fst offset)
    sec ← add_cond? mi (cpsr_idx mi) (add_reg sec (virt v))
    some (record {
      emitted = add_metadata fst 0 ∷ add_metadata sec 1 ∷ [];
      removed = true;
      next_vreg = v + 1;
    })

  -- Rm shift #imm into SVReg; ADD AVReg, Rn, SVReg; LDRxxx/STRxxx Rd, [AVReg]. SVReg is `v` and
  -- AVReg is `v + 1`.
  unfoldable pub split_ldrstr_shift :
      ℕ → MachineInstr → Opcode → ℕ → Operand → Operand → Operand → Option Split
  unfolding add_data
  split_ldrstr_shift v mi shift_opc offset rd rn rm = do
    fst ← add_operand (build_def shift_opc (virt v)) rm false
    sec ← add_operand (build_def add_rr (virt (v + 1))) rn false
    thd ← add_data mi rd (build (get_load_store_opcode mi.opcode))
    fst ← add_cond? mi (cpsr_idx mi) (add_imm fst (pos offset))
    sec ← add_cond? mi (cpsr_idx mi) (add_reg sec (virt v))
    thd ← add_cond? mi (cpsr_idx mi) (add_reg thd (virt (v + 1)))
    some (record {
      emitted = add_metadata fst 0 ∷ add_metadata sec 1 ∷ add_metadata thd 2 ∷ [];
      removed = true;
      next_vreg = v + 2;
    })

  unfoldable pub split_ldrstr_rrx :
      ℕ → MachineInstr → Opcode → Operand → Operand → Operand → Option Split
  unfolding add_data
  split_ldrstr_rrx v mi shift_opc rd rn rm = do
    fst ← add_operand (build_def shift_opc (virt v)) rm false
    sec ← add_operand (build_def add_rr (virt (v + 1))) rn false
    thd ← add_data mi rd (build (get_load_store_opcode mi.opcode))
    sec ← add_cond? mi (cpsr_idx mi) (add_reg sec (virt v))
    thd ← add_cond? mi (cpsr_idx mi) (add_reg thd (virt (v + 1)))
    some (record {
      emitted = add_metadata fst 0 ∷ add_metadata sec 1 ∷ add_metadata thd 2 ∷ [];
      removed = true;
      next_vreg = v + 2;
    })

  unfoldable pub split_ldrstr_plain : ℕ → MachineInstr → Operand → Operand → Operand → Option Split
  unfolding add_data
  split_ldrstr_plain v mi rd rn rm = do
    fst ← add_operand (build_def add_rr (virt (v + 1))) rn false
    fst ← add_operand fst rm false
    sec ← add_data mi rd (build (get_load_store_opcode mi.opcode))
    fst ← add_cond? mi (cpsr_idx mi) fst
    sec ← add_cond? mi (cpsr_idx mi) (add_reg sec (virt (v + 1)))
    some (record {
      emitted = add_metadata fst 0 ∷ add_metadata sec 1 ∷ [];
      removed = true;
      next_vreg = v + 2;
    })

  unfoldable pub split_ldrstr : ℕ → MachineInstr → Option Split
  split_ldrstr v mi = do
    shift ← get_operand mi 3
    z ← get_imm shift
    let simm = to_unsigned z
    let offset = t.get_am2_offset simm
    let shift_opc = get_shift_opcode (t.get_am2_shift_opc simm) offset
    rd ← get_operand mi 0
    rn ← get_operand mi 1
    rm ← get_operand mi 2
    if ltb 0 offset
        then split_ldrstr_shift v mi shift_opc offset rd rn rm
        else if is_rrx shift_opc
        then split_ldrstr_rrx v mi shift_opc rd rn rm
        else split_ldrstr_plain v mi rd rn rm
