-- ===== src/Arm/Splitting/Limits.antt =====
-- Where the inserted sequence is not the instruction that it stands for.
use llvm_mctoll.Base.{ℕ, ◌+◌, ◌≡◌, ◌==◌, true, false, List, [], ◌∷◌, some, none, ◌>>=◌}
use llvm_mctoll.Base.Int.{ℤ}
use llvm_mctoll.Arm.Opcode.{Opcode, is_set, is_rrx}
use llvm_mctoll.Arm.Target.{Register, virt, cpsr, Operand, reg, imm, metadata, Target}
use llvm_mctoll.Arm.Builder.{
  to_unsigned, push, build, build_def, add_operand, add_operands, add_cond?,
}
use llvm_mctoll.Arm.Splitting.LoadStore.{
  split_ldrstr, split_ldrstr_shift, split_ldrstr_rrx, split_ldrstr_plain, add_data,
}
use llvm_mctoll.Arm.Splitting.Shifter.{common_at, find_shift, split_common}
use llvm_mctoll.Arm.Splitting.Shifts.{offset_of, opcode_of}

-- `Op Rd, Rn, Rm, shift #amount` whose encoded amount is 0 and whose shift is not RRX (LSR #32 and
-- ASR #32 are encoded so) is split as if its shift were by a register: the inserted shift moves Rn
-- by Rm, and the plain instruction that follows no longer reads Rn.
pub split_common_zero_amount :
    (t : Target) (v : ℕ) (opc orig : Opcode) (rd rn rm : Register) (z : ℤ) (rest : List Operand)
    → is_set (opcode_of t z) ≡ true
    → (offset_of t z == 0) ≡ true
    → is_rrx (opcode_of t z) ≡ false
    → split_common t v
        (record {
          opcode = orig;
          operands = reg rd true ∷ reg rn false ∷ reg rm false ∷ imm z ∷ rest;
        })
        opc
      ≡ some (record {
        emitted =
            record {
              opcode = opcode_of t z;
              operands = reg (virt v) true ∷ reg rn false ∷ reg rm false ∷ metadata 0 ∷ [];
            }
            ∷ record { opcode = opc; operands = reg rd true ∷ reg (virt v) false ∷ metadata 1 ∷ [] }
            ∷ [];
        removed = true;
        next_vreg = v + 1;
      })
unfolding split_common find_shift common_at push build build_def add_operand add_operands ◌>>=◌
split_common_zero_amount t v opc orig rd rn rm z rest h e r = rw (h, e, r)

-- A load or store with a register offset, `[Rn, +/-Rm, shift]`, is split the same way for any two
-- encodings with the same amount and shift: the direction of the offset, which the encoding holds
-- too, is lost, and the offset is always added. The instruction has no CPSR operand.
pub split_ldrstr_direction :
    (t : Target) (v : ℕ) (opc : Opcode) (rd rn rm : Operand) (z z' : ℤ) (rest : List Operand)
    → t.get_am2_offset (to_unsigned z) ≡ t.get_am2_offset (to_unsigned z')
    → t.get_am2_shift_opc (to_unsigned z) ≡ t.get_am2_shift_opc (to_unsigned z')
    → t.find_register_use_operand_idx (rd ∷ rn ∷ rm ∷ imm z ∷ rest) cpsr ≡ none
    → t.find_register_use_operand_idx (rd ∷ rn ∷ rm ∷ imm z' ∷ rest) cpsr ≡ none
    → split_ldrstr t v (record { opcode = opc; operands = rd ∷ rn ∷ rm ∷ imm z ∷ rest })
      ≡ split_ldrstr t v (record { opcode = opc; operands = rd ∷ rn ∷ rm ∷ imm z' ∷ rest })
unfolding split_ldrstr split_ldrstr_shift split_ldrstr_rrx split_ldrstr_plain add_data add_cond?
    ◌>>=◌
split_ldrstr_direction t v opc rd rn rm z z' rest e s h h' = rw (e, s, h, h')
