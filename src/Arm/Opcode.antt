-- ===== src/Arm/Opcode.antt =====
-- The ARM opcodes that the passes under ARM/ name. `opcode_zero` is the opcode 0, which
-- the source returns for "none"; `other` stands for the opcodes that the pass leaves alone.
use llvm_mctoll.Base.{ℕ, Bool, true, false}

pub data Opcode : Type 0 where
  opcode_zero : Opcode
  mov_sr mov_si mov_r : Opcode
  adc_rsi adc_rsr adc_rr : Opcode
  add_rsi add_rsr add_rr : Opcode
  and_rsi and_rsr and_rr : Opcode
  bic_rsi bic_rsr bic_rr : Opcode
  cmnz_rsi cmnz_rsr cmnz_rr : Opcode
  cmp_rsi cmp_rsr cmp_rr : Opcode
  eor_rsi eor_rsr eor_rr : Opcode
  mvn_sr mvn_si mvn_r : Opcode
  orr_rsi orr_rsr orr_rr : Opcode
  rsb_rsi rsb_rsr rsb_rr : Opcode
  sub_rsi sub_rsr sub_rr : Opcode
  teq_rsi teq_rsr teq_rr : Opcode
  tst_rsi tst_rsr tst_rr : Opcode
  ldr_rs ldr_i12 ldr_pre_reg ldr_pre_imm : Opcode
  ldrb_rs ldrb_i12 ldrb_pre_reg ldrb_pre_imm : Opcode
  str_rs str_i12 str_pre_reg str_pre_imm : Opcode
  strb_rs strb_i12 strb_pre_reg strb_pre_imm : Opcode
  asr_i asr_r lsl_i lsl_r lsr_i lsr_r ror_i ror_r rrx : Opcode
  add_ri sub_ri cmp_ri ldrh ldrsh strh ldr_post_imm bx_ret b bcc b_r_jtr : Opcode
  other : ℕ → Opcode

-- `if (Opc)`: an opcode as a truth value.
unfoldable pub is_set : Opcode → Bool
is_set opcode_zero = false
is_set _ = true

unfoldable pub is_rrx : Opcode → Bool
is_rrx rrx = true
is_rrx _ = false

abbrev pub is_mov_r : Opcode → Bool
is_mov_r mov_r = true
is_mov_r _ = false

abbrev pub is_add_ri : Opcode → Bool
is_add_ri add_ri = true
is_add_ri _ = false

abbrev pub is_sub_ri : Opcode → Bool
is_sub_ri sub_ri = true
is_sub_ri _ = false

abbrev pub is_ldr_post_imm : Opcode → Bool
is_ldr_post_imm ldr_post_imm = true
is_ldr_post_imm _ = false

abbrev pub is_str_pre_imm : Opcode → Bool
is_str_pre_imm str_pre_imm = true
is_str_pre_imm _ = false

abbrev pub is_ldr_i12 : Opcode → Bool
is_ldr_i12 ldr_i12 = true
is_ldr_i12 _ = false
