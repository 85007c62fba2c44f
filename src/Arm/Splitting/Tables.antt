-- ===== src/Arm/Splitting/Tables.antt =====
-- The opcode tables of ARM/ARMInstructionSplitting.cpp.
use llvm_mctoll.Base.{ℕ, ◌==◌, if◌then◌else◌, Bool, true, false}
use llvm_mctoll.Arm.Target.{ShiftOpc}
use llvm_mctoll.Arm.Opcode.{
  Opcode, opcode_zero, mov_sr, mov_si, mov_r, adc_rsi, adc_rsr, adc_rr, add_rsi, add_rsr, add_rr,
  and_rsi, and_rsr, and_rr, bic_rsi, bic_rsr, bic_rr, cmnz_rsi, cmnz_rsr, cmnz_rr, cmp_rsi, cmp_rsr,
  cmp_rr, eor_rsi, eor_rsr, eor_rr, mvn_sr, mvn_si, mvn_r, orr_rsi, orr_rsr, orr_rr, rsb_rsi,
  rsb_rsr, rsb_rr, sub_rsi, sub_rsr, sub_rr, teq_rsi, teq_rsr, teq_rr, tst_rsi, tst_rsr, tst_rr,
  ldr_rs, ldr_i12, ldr_pre_reg, ldr_pre_imm, ldrb_rs, ldrb_i12, ldrb_pre_reg, ldrb_pre_imm, str_rs,
  str_i12, str_pre_reg, str_pre_imm, strb_rs, strb_i12, strb_pre_reg, strb_pre_imm, asr_i, asr_r,
  lsl_i, lsl_r, lsr_i, lsr_r, ror_i, ror_r, rrx,
}

-- checkisShifter: the plain opcode of one with a shifted operand, or 0.
unfoldable pub checkis_shifter : Opcode → Opcode
checkis_shifter mov_sr = mov_r
checkis_shifter mov_si = mov_r
checkis_shifter adc_rsi = adc_rr
checkis_shifter adc_rsr = adc_rr
checkis_shifter add_rsi = add_rr
checkis_shifter add_rsr = add_rr
checkis_shifter and_rsi = and_rr
checkis_shifter and_rsr = and_rr
checkis_shifter bic_rsr = bic_rr
checkis_shifter bic_rsi = bic_rr
checkis_shifter cmnz_rsi = cmnz_rr
checkis_shifter cmnz_rsr = cmnz_rr
checkis_shifter cmp_rsi = cmp_rr
checkis_shifter cmp_rsr = cmp_rr
checkis_shifter eor_rsr = eor_rr
checkis_shifter eor_rsi = eor_rr
checkis_shifter mvn_sr = mvn_r
checkis_shifter mvn_si = mvn_r
checkis_shifter orr_rsi = orr_rr
checkis_shifter orr_rsr = orr_rr
checkis_shifter rsb_rsi = rsb_rr
checkis_shifter rsb_rsr = rsb_rr
checkis_shifter sub_rsi = sub_rr
checkis_shifter sub_rsr = sub_rr
checkis_shifter teq_rsr = teq_rr
checkis_shifter teq_rsi = teq_rr
checkis_shifter tst_rsr = tst_rr
checkis_shifter tst_rsi = tst_rr
checkis_shifter _ = opcode_zero

unfoldable pub is_ldrstr_pre : Opcode → Bool
is_ldrstr_pre ldr_pre_reg = true
is_ldrstr_pre ldr_pre_imm = true
is_ldrstr_pre ldrb_pre_reg = true
is_ldrstr_pre ldrb_pre_imm = true
is_ldrstr_pre str_pre_reg = true
is_ldrstr_pre str_pre_imm = true
is_ldrstr_pre strb_pre_reg = true
is_ldrstr_pre strb_pre_imm = true
is_ldrstr_pre _ = false

unfoldable pub get_load_store_opcode : Opcode → Opcode
get_load_store_opcode ldr_rs = ldr_i12
get_load_store_opcode ldr_i12 = ldr_i12
get_load_store_opcode ldr_pre_reg = ldr_i12
get_load_store_opcode ldr_pre_imm = ldr_i12
get_load_store_opcode ldrb_rs = ldrb_i12
get_load_store_opcode ldrb_i12 = ldrb_i12
get_load_store_opcode ldrb_pre_reg = ldrb_i12
get_load_store_opcode ldrb_pre_imm = ldrb_i12
get_load_store_opcode str_rs = str_i12
get_load_store_opcode str_i12 = str_i12
get_load_store_opcode str_pre_reg = str_i12
get_load_store_opcode str_pre_imm = str_i12
get_load_store_opcode strb_rs = strb_i12
get_load_store_opcode strb_i12 = strb_i12
get_load_store_opcode strb_pre_reg = strb_i12
get_load_store_opcode strb_pre_imm = strb_i12
get_load_store_opcode _ = opcode_zero

unfoldable pub is_shift_c : Opcode → Bool
is_shift_c and_rsr = true
is_shift_c and_rsi = true
is_shift_c bic_rsr = true
is_shift_c bic_rsi = true
is_shift_c eor_rsr = true
is_shift_c eor_rsi = true
is_shift_c mvn_sr = true
is_shift_c mvn_si = true
is_shift_c orr_rsr = true
is_shift_c orr_rsi = true
is_shift_c teq_rsr = true
is_shift_c teq_rsi = true
is_shift_c tst_rsr = true
is_shift_c tst_rsi = true
is_shift_c _ = false

unfoldable pub get_shift_opcode : ShiftOpc → ℕ → Opcode
get_shift_opcode ShiftOpc.asr offset = if offset == 0 then asr_r else asr_i
get_shift_opcode ShiftOpc.lsl offset = if offset == 0 then lsl_r else lsl_i
get_shift_opcode ShiftOpc.lsr offset = if offset == 0 then lsr_r else lsr_i
get_shift_opcode ShiftOpc.ror offset = if offset == 0 then ror_r else ror_i
get_shift_opcode ShiftOpc.rrx offset = rrx
get_shift_opcode ShiftOpc.no_shift offset = opcode_zero
get_shift_opcode ShiftOpc.uxtw offset = opcode_zero
