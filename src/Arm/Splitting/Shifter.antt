-- ===== src/Arm/Splitting/Shifter.antt =====
-- splitCommon, splitS, splitC and splitCS of ARMInstructionSplitting: a data-processing instruction
-- with a shifted operand becomes a shift into a virtual register and a plain instruction.
use llvm_mctoll.Base.{
  ℕ, suc, ◌+◌, ◌-◌, ◌==◌, if◌then◌else◌, true, false, List, [], ◌∷◌, Option, some, ◌>>=◌,
}
use llvm_mctoll.Base.Int.{pos}
use llvm_mctoll.Arm.Opcode.{Opcode, is_set, is_rrx}
use llvm_mctoll.Arm.Target.{virt, Operand, imm, reg, frame_index, metadata, MachineInstr, Target}
use llvm_mctoll.Arm.Builder.{
  to_unsigned, get_operand, get_operand_before, build, build_def, add_imm, add_reg, add_metadata,
  add_operand, add_operands, add_cond, add_cond_flags, add_always, Split,
}
use llvm_mctoll.Arm.Splitting.Tables.{get_shift_opcode, is_shift_c}

-- ShiftOpc VReg, Rm, #SOffSet
unfoldable pub shift_by_imm : Opcode → ℕ → Operand → ℕ → Option MachineInstr
shift_by_imm shift_opc v rm offset = do
  fst ← add_operand (build_def shift_opc (virt v)) rm false
  some (add_imm fst (pos offset))

-- RRX VReg, Rm
unfoldable pub shift_by_rrx : Opcode → ℕ → Operand → Option MachineInstr
shift_by_rrx shift_opc v rm = add_operand (build_def shift_opc (virt v)) rm false

-- ShiftOpc VReg, Rn, Rm
unfoldable pub shift_by_reg : Opcode → ℕ → Operand → Operand → Option MachineInstr
shift_by_reg shift_opc v rn rm = do
  fst ← add_operand (build_def shift_opc (virt v)) rn false
  add_operand fst rm false

-- NewOpc Rd, the operands 1 to bound - 1 of MI, VReg
unfoldable pub plain : MachineInstr → Opcode → Operand → ℕ → ℕ → Option MachineInstr
plain mi new_opc rd bound v = do
  sec ← add_operand (build new_opc) rd true
  sec ← add_operands mi 1 (bound - 1) sec
  some (add_reg sec (virt v))

-- Both instructions, with the metadata 0 and 1; MI is to be removed.
abbrev pub pair_of : ℕ → MachineInstr → MachineInstr → Option Split
pair_of v fst sec = some (record {
  emitted = add_metadata fst 0 ∷ add_metadata sec 1 ∷ [];
  removed = true;
  next_vreg = v + 1;
})

-- The body of splitCommon's loop, at the operand `i` that encodes the shift.
unfoldable pub common_at : MachineInstr → Opcode → ℕ → Opcode → ℕ → ℕ → Option Split
unfolding shift_by_imm shift_by_rrx shift_by_reg plain
common_at mi new_opc i shift_opc offset v = do
  rd ← get_operand mi 0
  rn ← get_operand_before mi i 2
  rm ← get_operand_before mi i 1
  if offset == 0
      then if is_rrx shift_opc
        then (do
          fst ← shift_by_rrx shift_opc v rm
          sec ← plain mi new_opc rd (i - 1) v
          pair_of v fst sec)
        else (do
          fst ← shift_by_reg shift_opc v rn rm
          sec ← plain mi new_opc rd (i - 2) v
          pair_of v fst sec)
      else (do
        fst ← shift_by_imm shift_opc v rm offset
        sec ← plain mi new_opc rd (i - 1) v
        pair_of v fst sec)

module _ (t : Target) where
  -- The loop's head, which the four splitters share: the first immediate operand whose decoded
  -- shift has an opcode is split at. Each immediate that is looked at takes a virtual register.
  unfoldable pub find_shift :
      (ℕ → Opcode → ℕ → ℕ → Option Split) → List Operand → ℕ → ℕ → Option Split
  find_shift body [] i v = some (record { emitted = []; removed = false; next_vreg = v })
  find_shift body (imm z ∷ rest) i v =
      let simm = to_unsigned z in
      let offset = t.get_so_reg_offset simm in
      let shift_opc = get_shift_opcode (t.get_so_reg_sh_op simm) offset in
      if is_set shift_opc then body i shift_opc offset v else find_shift body rest (suc i) (v + 1)
  find_shift body (reg r d ∷ rest) i v = find_shift body rest (suc i) v
  find_shift body (frame_index n ∷ rest) i v = find_shift body rest (suc i) v
  find_shift body (metadata n ∷ rest) i v = find_shift body rest (suc i) v

  -- splitCommon: neither the flags nor a condition.
  unfoldable pub split_common : ℕ → MachineInstr → Opcode → Option Split
  split_common v mi new_opc = find_shift (common_at mi new_opc) mi.operands 0 v

  -- The body of splitS's loop. The shift sets the carry too where the opcode takes its carry.
  unfoldable pub s_at : MachineInstr → Opcode → ℕ → ℕ → Opcode → ℕ → ℕ → Option Split
  unfolding shift_by_imm shift_by_rrx shift_by_reg plain
  s_at mi new_opc idx i shift_opc offset v = do
    rd ← get_operand mi 0
    rn ← get_operand_before mi i 2
    rm ← get_operand_before mi i 1
    if is_shift_c mi.opcode
        then (if offset == 0
            then if is_rrx shift_opc
              then (do
                fst ← shift_by_rrx shift_opc v rm
                sec ← plain mi new_opc rd (i - 1) v
                sec ← add_always t.al mi idx sec
                pair_of v fst sec)
              else (do
                fst ← shift_by_reg shift_opc v rn rm
                fst ← add_always t.al mi idx fst
                sec ← plain mi new_opc rd (i - 2) v
                sec ← add_always t.al mi idx sec
                pair_of v fst sec)
            else (do
              fst ← shift_by_imm shift_opc v rm offset
              fst ← add_always t.al mi idx fst
              sec ← plain mi new_opc rd (i - 1) v
              sec ← add_always t.al mi idx sec
              pair_of v fst sec))
        else (if offset == 0
            then if is_rrx shift_opc
              then (do
                fst ← shift_by_rrx shift_opc v rm
                sec ← plain mi new_opc rd (i - 1) v
                sec ← add_always t.al mi idx sec
                pair_of v fst sec)
              else (do
                fst ← shift_by_reg shift_opc v rn rm
                sec ← plain mi new_opc rd (i - 2) v
                sec ← add_always t.al mi idx sec
                pair_of v fst sec)
            else (do
              fst ← shift_by_imm shift_opc v rm offset
              sec ← plain mi new_opc rd (i - 1) v
              sec ← add_always t.al mi idx sec
              pair_of v fst sec))

  -- splitS: the flags are set, with no condition. `idx` is the operand of CPSR.
  unfoldable pub split_s : ℕ → MachineInstr → Opcode → ℕ → Option Split
  split_s v mi new_opc idx = find_shift (s_at mi new_opc idx) mi.operands 0 v

  -- The body of splitC's loop: both instructions test the condition, but RRX does not.
  unfoldable pub c_at : MachineInstr → Opcode → ℕ → ℕ → Opcode → ℕ → ℕ → Option Split
  unfolding shift_by_imm shift_by_rrx shift_by_reg plain
  c_at mi new_opc idx i shift_opc offset v = do
    rd ← get_operand mi 0
    rn ← get_operand_before mi i 2
    rm ← get_operand_before mi i 1
    if offset == 0
        then if is_rrx shift_opc
          then (do
            fst ← shift_by_rrx shift_opc v rm
            sec ← plain mi new_opc rd (i - 1) v
            sec ← add_cond mi idx sec
            pair_of v fst sec)
          else (do
            fst ← shift_by_reg shift_opc v rn rm
            fst ← add_cond mi idx fst
            sec ← plain mi new_opc rd (i - 2) v
            sec ← add_cond mi idx sec
            pair_of v fst sec)
        else (do
          fst ← shift_by_imm shift_opc v rm offset
          fst ← add_cond mi idx fst
          sec ← plain mi new_opc rd (i - 1) v
          sec ← add_cond mi idx sec
          pair_of v fst sec)

  -- splitC: a condition is tested, and the flags are not set.
  unfoldable pub split_c : ℕ → MachineInstr → Opcode → ℕ → Option Split
  split_c v mi new_opc idx = find_shift (c_at mi new_opc idx) mi.operands 0 v

  -- The body of splitCS's loop.
  unfoldable pub cs_at : MachineInstr → Opcode → ℕ → ℕ → Opcode → ℕ → ℕ → Option Split
  unfolding shift_by_imm shift_by_rrx shift_by_reg plain
  cs_at mi new_opc idx i shift_opc offset v = do
    rd ← get_operand mi 0
    rn ← get_operand_before mi i 2
    rm ← get_operand_before mi i 1
    if is_shift_c mi.opcode
        then (if offset == 0
            then if is_rrx shift_opc
              then (do
                fst ← shift_by_rrx shift_opc v rm
                sec ← plain mi new_opc rd (i - 1) v
                sec ← add_cond_flags mi idx sec
                pair_of v fst sec)
              else (do
                fst ← shift_by_reg shift_opc v rn rm
                fst ← add_cond_flags mi idx fst
                sec ← plain mi new_opc rd (i - 2) v
                sec ← add_cond_flags mi idx sec
                pair_of v fst sec)
            else (do
              fst ← shift_by_imm shift_opc v rm offset
              fst ← add_cond_flags mi idx fst
              sec ← plain mi new_opc rd (i - 1) v
              sec ← add_cond_flags mi idx sec
              pair_of v fst sec))
        else (if offset == 0
            then if is_rrx shift_opc
              then (do
                fst ← shift_by_rrx shift_opc v rm
                sec ← plain mi new_opc rd (i - 1) v
                sec ← add_cond_flags mi idx sec
                pair_of v fst sec)
              else (do
                fst ← shift_by_reg shift_opc v rn rm
                fst ← add_cond mi idx fst
                sec ← plain mi new_opc rd (i - 2) v
                sec ← add_cond_flags mi idx sec
                pair_of v fst sec)
            else (do
              fst ← shift_by_imm shift_opc v rm offset
              fst ← add_cond mi idx fst
              sec ← plain mi new_opc rd (i - 1) v
              sec ← add_cond_flags mi idx sec
              pair_of v fst sec))

  -- splitCS: the flags are set under a condition.
  unfoldable pub split_cs : ℕ → MachineInstr → Opcode → ℕ → Option Split
  split_cs v mi new_opc idx = find_shift (cs_at mi new_opc idx) mi.operands 0 v
