-- ===== src/Arm/Splitting/Meaning.antt =====
-- What the instructions inserted for a shifted operand compute.
use llvm_mctoll.Base.{
  ℕ, ◌+◌, ◌≡◌, ◌≢◌, inl, inr, ◌==◌, if◌then◌else◌, true, false, List, [], ◌∷◌, some, ◌>>=◌, sym, ap,
  ◌∙◌,
}
use llvm_mctoll.Base.Int.{ℤ, pos}
use llvm_mctoll.Arm.Opcode.{Opcode, is_set, is_rrx}
use llvm_mctoll.Arm.Target.{Register, virt, Operand, reg, imm, metadata, MachineInstr, Target}
use llvm_mctoll.Arm.Machine.{
  Machine, set_reg, set_reg_self, set_reg_ne, set_reg-cong, read, exec_all,
}
use llvm_mctoll.Arm.Builder.{Split, push, build, build_def, add_operand, add_operands}
use llvm_mctoll.Arm.Splitting.Tables.{checkis_shifter}
use llvm_mctoll.Arm.Splitting.Shifter.{common_at, find_shift, split_common}
use llvm_mctoll.Arm.Splitting.Shifts.{
  Shifter, by_imm, by_reg, encode, AluOp, shifted_opcode, IsArm, offset_of, kind_of, opcode_of,
  IsEncoded, shifted, get_shift_opcode-Shifts, get_shift_opcode_rrx, interp-checkis_shifter,
}

-- A shift into `virt v`, then a plain instruction that reads it.
abbrev two : ℕ → Opcode → List Operand → Opcode → Register → Register → List MachineInstr
two v sh args opc rd rn =
    record { opcode = sh; operands = reg (virt v) true ∷ args }
    ∷ record {
      opcode = opc;
      operands = reg rd true ∷ reg rn false ∷ reg (virt v) false ∷ metadata 1 ∷ [];
    }
    ∷ []

exec_all-two :
    (m : Machine) (rf : Register → m.Value) (v : ℕ) (sh : Opcode) (args : List Operand)
    (opc : Opcode) (rd rn q : Register)
    → rn ≢ virt v
    → q ≢ virt v
    → exec_all m rf (two v sh args opc rd rn) q
      ≡ set_reg m rf rd (m.interp opc (rf rn ∷ m.interp sh (read m rf args) ∷ [])) q
exec_all-two m rf v sh args opc rd rn q hn hq =
    rw
      (
        set_reg_self m rf (virt v) (m.interp sh (read m rf args)),
        set_reg_ne m rf (virt v) rn (m.interp sh (read m rf args)) (λ e. hn (sym e)),
      )
      (set_reg-cong m _ _ rd q _ (λ _. set_reg_ne m rf (virt v) q _ (λ e. hq (sym e))))

module _ (t : Target) {m : Machine} (arm : IsArm m) (rf : Register → m.Value) (v : ℕ) (op : AluOp)
    (rd rn : Register) (rest : List Operand) where
  abbrev pub source : Shifter → MachineInstr
  source x = record {
    opcode = shifted_opcode op x;
    operands = reg rd true ∷ reg rn false ∷ encode x rest;
  }

  abbrev pub new_opcode : Shifter → Opcode
  new_opcode x = checkis_shifter (shifted_opcode op x)

  abbrev pub args : Shifter → List Operand
  args (by_imm rm z) =
      if offset_of t z == 0
      then reg rm false ∷ metadata 0 ∷ []
      else reg rm false ∷ imm (pos (offset_of t z)) ∷ metadata 0 ∷ []
  args (by_reg rm rs z) = reg rm false ∷ reg rs false ∷ metadata 0 ∷ []

  abbrev pub encoding : Shifter → ℤ
  encoding (by_imm rm z) = z
  encoding (by_reg rm rs z) = z

  abbrev pub result : Shifter → Split
  result x = record {
    emitted = two v (opcode_of t (encoding x)) (args x) (new_opcode x) rd rn;
    removed = true;
    next_vreg = v + 1;
  }

  split_common-result :
      (x : Shifter) → IsEncoded t x → split_common t v (source x) (new_opcode x) ≡ some (result x)
  unfolding split_common find_shift common_at push build build_def add_operand add_operands ◌>>=◌
      is_set is_rrx
  split_common-result (by_imm rm z) (inl (k, e)) =
      let found = get_shift_opcode-Shifts arm (kind_of t z) (offset_of t z) k in rw (found.0, e)
  split_common-result (by_imm rm z) (inr (k, e)) =
      rw (get_shift_opcode_rrx arm (kind_of t z) (offset_of t z) k, e)
  split_common-result (by_reg rm rs z) (k, e) =
      let found = get_shift_opcode-Shifts arm (kind_of t z) (offset_of t z) k in
      rw (found.0, e, found.1)

  read-args :
      (x : Shifter)
      → IsEncoded t x
      → m.interp (opcode_of t (encoding x)) (read m rf (args x)) ≡ shifted arm t rf x
  read-args (by_imm rm z) (inl (k, e)) =
      rw e ((get_shift_opcode-Shifts arm (kind_of t z) (offset_of t z) k).2 _ _)
  read-args (by_imm rm z) (inr (k, e)) =
      rw (e, get_shift_opcode_rrx arm (kind_of t z) (offset_of t z) k, k) (arm.interp_rrx (rf rm))
  read-args (by_reg rm rs z) (k, e) =
      (get_shift_opcode-Shifts arm (kind_of t z) (offset_of t z) k).2 _ _

  -- An instruction `Op Rd, Rn, Rm, shift` with no condition and no flags, for Op one of ADC, ADD, AND,
  -- BIC, EOR, ORR, RSB and SUB, is always split with the plain opcode that checkisShifter gives, and
  -- the sequence computes Op on Rn and the shifted Rm into Rd: every register but the virtual one that
  -- is taken has the value that the instruction gives. The shift is ASR, LSL, LSR or ROR by a register
  -- or by an amount that is not encoded as 0, or RRX; Rn is not that virtual register; plain
  -- instructions and shifts do what the ARM manual says.
  pub split_common_meaning :
      (x : Shifter)
      → IsEncoded t x
      → rn ≢ virt v
      → (s : Split) × (split_common t v (source x) (new_opcode x) ≡ some s)
        × ((q : Register)
            → q ≢ virt v
            → exec_all m rf s.emitted q
              ≡ set_reg m rf rd (arm.alu op (rf rn) (shifted arm t rf x)) q)
  split_common_meaning x h hn = (
    result x,
    split_common-result x h,
    λ q hq.
        (exec_all-two m rf v _ (args x) (new_opcode x) rd rn q hn hq
          ∙ ap (λ y. set_reg m rf rd (m.interp (new_opcode x) (rf rn ∷ y ∷ [])) q) (read-args x h)
          ∙ ap (λ y. set_reg m rf rd y q)
              (interp-checkis_shifter arm op x (rf rn) (shifted arm t rf x))),
  )
