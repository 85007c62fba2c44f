-- ===== src/Tests/ArmSplitting.antt =====
-- The instruction splitter at concrete instructions.
use llvm_mctoll.Arm.Splitting.LoadStore.{split_ldrstr}
use llvm_mctoll.Arm.Splitting.Limits.{split_ldrstr_direction}
use llvm_mctoll.Base.{ℕ, ◌≡◌, ◌≢◌, ◌≤◌, refl, inl, true, false, List, [], ◌∷◌, some, ◌>>=◌}
use llvm_mctoll.Base.Int.{ℤ, pos}
use llvm_mctoll.Arm.Opcode.{
  Opcode, add_rsi, adc_rr, add_rr, and_rr, bic_rr, eor_rr, orr_rr, rsb_rr, sub_rr, asr_i, asr_r,
  lsl_i, lsl_r, lsr_i, lsr_r, ror_i, ror_r, is_set, is_rrx, ldr_rs,
}
use llvm_mctoll.Arm.Target.{Register, no_register, phys, virt, reg, imm, metadata, MachineInstr}
use llvm_mctoll.Arm.Machine.{Machine, set_reg, exec_all}
use llvm_mctoll.Arm.Builder.{Split, to_unsigned, push, build, build_def, add_operand, add_operands}
use llvm_mctoll.Arm.Splitting.Tables.{checkis_shifter, get_load_store_opcode, get_shift_opcode}
use llvm_mctoll.Arm.Splitting.Shifter.{find_shift, common_at, split_common}
use llvm_mctoll.Arm.Splitting.Pass.{
  split_instr, split_block, split_machine_function, split_shifter, dispatch, cpsr_use,
}
use llvm_mctoll.Arm.Splitting.Rewrites.{RewritesAll, split_rewrites}
use llvm_mctoll.Arm.Splitting.Shifts.{
  by_imm, AluOp, adc, add, and, bic, eor, orr, rsb, sub, plain_opcode, IsArm,
}
use llvm_mctoll.Arm.Splitting.Meaning.{split_common_meaning}
use llvm_mctoll.Tests.ArmTarget.{arm}

-- add r0, r1, r2, lsl #2, as the disassembler gives it
abbrev add_shifted : MachineInstr
add_shifted = record {
  opcode = add_rsi;
  operands =
      reg (phys 0) true
      ∷ reg (phys 1) false
      ∷ reg (phys 2) false
      ∷ imm (pos 18)
      ∷ imm (pos 14)
      ∷ reg no_register false
      ∷ reg no_register false
      ∷ metadata 7
      ∷ [];
}

-- lsl %v9, r2, #2; add r0, r1, %v9
abbrev add_split : Split
add_split = record {
  emitted =
      record {
        opcode = lsl_i;
        operands = reg (virt 9) true ∷ reg (phys 2) false ∷ imm (pos 2) ∷ metadata 0 ∷ [];
      }
      ∷ record {
        opcode = add_rr;
        operands = reg (phys 0) true ∷ reg (phys 1) false ∷ reg (virt 9) false ∷ metadata 1 ∷ [];
      }
      ∷ [];
  removed = true;
  next_vreg = 10;
}

split_rewrites_example : RewritesAll ((add_shifted ∷ []) ∷ []) (add_split.emitted ∷ []) × (9 ≤ 10)
unfolding split_machine_function split_block split_instr checkis_shifter get_load_store_opcode
    is_set split_shifter cpsr_use dispatch split_common find_shift common_at push build build_def
    add_operand add_operands ◌>>=◌ to_unsigned get_shift_opcode arm is_rrx
split_rewrites_example =
    split_rewrites arm 9 ((add_shifted ∷ []) ∷ []) (add_split.emitted ∷ []) 10 refl

-- Symbolic values: what was done to the values at the start.
data Symbol : Type 0 where
  held : Register → Symbol
  number : ℤ → Symbol
  done : AluOp → Symbol → Symbol → Symbol
  shifted_right_signed : Symbol → Symbol → Symbol
  shifted_left : Symbol → Symbol → Symbol
  shifted_right : Symbol → Symbol → Symbol
  rotated : Symbol → Symbol → Symbol
  rotated_with_carry : Symbol → Symbol

abbrev compute : Opcode → List Symbol → Symbol
compute adc_rr (x ∷ y ∷ []) = done adc x y
compute add_rr (x ∷ y ∷ []) = done add x y
compute and_rr (x ∷ y ∷ []) = done and x y
compute bic_rr (x ∷ y ∷ []) = done bic x y
compute eor_rr (x ∷ y ∷ []) = done eor x y
compute orr_rr (x ∷ y ∷ []) = done orr x y
compute rsb_rr (x ∷ y ∷ []) = done rsb x y
compute sub_rr (x ∷ y ∷ []) = done sub x y
compute asr_i (x ∷ y ∷ []) = shifted_right_signed x y
compute asr_r (x ∷ y ∷ []) = shifted_right_signed x y
compute lsl_i (x ∷ y ∷ []) = shifted_left x y
compute lsl_r (x ∷ y ∷ []) = shifted_left x y
compute lsr_i (x ∷ y ∷ []) = shifted_right x y
compute lsr_r (x ∷ y ∷ []) = shifted_right x y
compute ror_i (x ∷ y ∷ []) = rotated x y
compute ror_r (x ∷ y ∷ []) = rotated x y
compute Opcode.rrx (x ∷ []) = rotated_with_carry x
compute _ _ = number (pos 0)

abbrev symbolic : Machine
symbolic = record { Value = Symbol; interp = compute; const = number; frame = number }

compute_alu : (op : AluOp) (x y : Symbol) → compute (plain_opcode op) (x ∷ y ∷ []) ≡ done op x y
compute_alu adc x y = refl
compute_alu add x y = refl
compute_alu and x y = refl
compute_alu bic x y = refl
compute_alu eor x y = refl
compute_alu orr x y = refl
compute_alu rsb x y = refl
compute_alu sub x y = refl

abbrev symbolic-IsArm : IsArm symbolic
symbolic-IsArm = record {
  alu = done;
  asr = shifted_right_signed;
  lsl = shifted_left;
  lsr = shifted_right;
  ror = rotated;
  rrx = rotated_with_carry;
  interp_alu = compute_alu;
  interp_asr_i = λ x y. refl;
  interp_asr_r = λ x y. refl;
  interp_lsl_i = λ x y. refl;
  interp_lsl_r = λ x y. refl;
  interp_lsr_i = λ x y. refl;
  interp_lsr_r = λ x y. refl;
  interp_ror_i = λ x y. refl;
  interp_ror_r = λ x y. refl;
  interp_rrx = λ x. refl;
}

virtual-ne : (m n : ℕ) → phys m ≢ virt n
virtual-ne m n e = cc

split_common_meaning_example :
    (s : Split) × (split_common arm 9 add_shifted add_rr ≡ some s)
    × ((q : Register)
        → q ≢ virt 9
        → exec_all symbolic held s.emitted q
          ≡ set_reg symbolic held
              (phys 0)
              (done add (held (phys 1)) (shifted_left (held (phys 2)) (number (pos 2))))
              q)
unfolding to_unsigned arm checkis_shifter
split_common_meaning_example =
    split_common_meaning arm symbolic-IsArm held 9 add (phys 0) (phys 1)
      (imm (pos 14) ∷ reg no_register false ∷ reg no_register false ∷ metadata 7 ∷ [])
      (by_imm (phys 2) (pos 18)) (inl (refl, refl)) (virtual-ne 1 9)

-- ldr r0, [r1, r2] and ldr r0, [r1, -r2]
split_ldrstr_direction_example :
    split_ldrstr arm 9 (record {
      opcode = ldr_rs;
      operands = reg (phys 0) true ∷ reg (phys 1) false ∷ reg (phys 2) false ∷ imm (pos 16384) ∷ [];
    })
    ≡ split_ldrstr arm 9 (record {
      opcode = ldr_rs;
      operands = reg (phys 0) true ∷ reg (phys 1) false ∷ reg (phys 2) false ∷ imm (pos 20480) ∷ [];
    })
unfolding to_unsigned arm
split_ldrstr_direction_example =
    split_ldrstr_direction arm 9 ldr_rs (reg (phys 0) true) (reg (phys 1) false)
      (reg (phys 2) false) (pos 16384) (pos 20480) [] refl refl refl refl
