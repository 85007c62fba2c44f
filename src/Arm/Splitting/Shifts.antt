-- ===== src/Arm/Splitting/Shifts.antt =====
-- What ARM's shifts and data-processing instructions mean, and that getShiftOpcode and checkisShifter
-- find the opcodes that mean it.
use llvm_mctoll.Base.{
  ℕ, ◌≡◌, ◌⊎◌, inl, inr, ◌==◌, Bool, true, false, List, [], ◌∷◌, refl, ap, Bool-cases,
}
use llvm_mctoll.Base.Int.{ℤ, pos}
use llvm_mctoll.Arm.Opcode.{
  Opcode, is_set, is_rrx, adc_rsi, adc_rsr, adc_rr, add_rsi, add_rsr, add_rr, and_rsi, and_rsr,
  and_rr, bic_rsi, bic_rsr, bic_rr, eor_rsi, eor_rsr, eor_rr, orr_rsi, orr_rsr, orr_rr, rsb_rsi,
  rsb_rsr, rsb_rr, sub_rsi, sub_rsr, sub_rr, asr_i, asr_r, lsl_i, lsl_r, lsr_i, lsr_r, ror_i, ror_r,
}
use llvm_mctoll.Arm.Target.{Register, Operand, reg, imm, ShiftOpc, Target}
use llvm_mctoll.Arm.Machine.{Machine}
use llvm_mctoll.Arm.Builder.{to_unsigned}
use llvm_mctoll.Arm.Splitting.Tables.{get_shift_opcode, checkis_shifter}

-- A shifted operand: Rm with an encoded immediate shift (or RRX), or Rm shifted by Rs.
pub data Shifter : Type 0 where
  by_imm : Register → ℤ → Shifter
  by_reg : Register → Register → ℤ → Shifter

abbrev pub encode : Shifter → List Operand → List Operand
encode (by_imm rm z) rest = reg rm false ∷ imm z ∷ rest
encode (by_reg rm rs z) rest = reg rm false ∷ reg rs false ∷ imm z ∷ rest

-- The operations of the instructions `Op Rd, Rn, Rm, shift`.
pub data AluOp : Type 0 where
  adc add and bic eor orr rsb sub : AluOp

-- The opcode of the operation with a shifted operand, and that with a plain register.
abbrev pub shifted_opcode : AluOp → Shifter → Opcode
shifted_opcode adc (by_imm rm z) = adc_rsi
shifted_opcode adc (by_reg rm rs z) = adc_rsr
shifted_opcode add (by_imm rm z) = add_rsi
shifted_opcode add (by_reg rm rs z) = add_rsr
shifted_opcode and (by_imm rm z) = and_rsi
shifted_opcode and (by_reg rm rs z) = and_rsr
shifted_opcode bic (by_imm rm z) = bic_rsi
shifted_opcode bic (by_reg rm rs z) = bic_rsr
shifted_opcode eor (by_imm rm z) = eor_rsi
shifted_opcode eor (by_reg rm rs z) = eor_rsr
shifted_opcode orr (by_imm rm z) = orr_rsi
shifted_opcode orr (by_reg rm rs z) = orr_rsr
shifted_opcode rsb (by_imm rm z) = rsb_rsi
shifted_opcode rsb (by_reg rm rs z) = rsb_rsr
shifted_opcode sub (by_imm rm z) = sub_rsi
shifted_opcode sub (by_reg rm rs z) = sub_rsr

abbrev pub plain_opcode : AluOp → Opcode
plain_opcode adc = adc_rr
plain_opcode add = add_rr
plain_opcode and = and_rr
plain_opcode bic = bic_rr
plain_opcode eor = eor_rr
plain_opcode orr = orr_rr
plain_opcode rsb = rsb_rr
plain_opcode sub = sub_rr

-- What the ARM manual says of the plain instructions and the shifts, with an immediate amount or with
-- one in a register.
pub record IsArm (m : Machine) : Type 0 where
  pub alu : AluOp → m.Value → m.Value → m.Value
  pub asr : m.Value → m.Value → m.Value
  pub lsl : m.Value → m.Value → m.Value
  pub lsr : m.Value → m.Value → m.Value
  pub ror : m.Value → m.Value → m.Value
  pub rrx : m.Value → m.Value
  pub interp_alu :
      (op : AluOp) (x y : m.Value) → m.interp (plain_opcode op) (x ∷ y ∷ []) ≡ alu op x y
  pub interp_asr_i : (x y : m.Value) → m.interp asr_i (x ∷ y ∷ []) ≡ asr x y
  pub interp_asr_r : (x y : m.Value) → m.interp asr_r (x ∷ y ∷ []) ≡ asr x y
  pub interp_lsl_i : (x y : m.Value) → m.interp lsl_i (x ∷ y ∷ []) ≡ lsl x y
  pub interp_lsl_r : (x y : m.Value) → m.interp lsl_r (x ∷ y ∷ []) ≡ lsl x y
  pub interp_lsr_i : (x y : m.Value) → m.interp lsr_i (x ∷ y ∷ []) ≡ lsr x y
  pub interp_lsr_r : (x y : m.Value) → m.interp lsr_r (x ∷ y ∷ []) ≡ lsr x y
  pub interp_ror_i : (x y : m.Value) → m.interp ror_i (x ∷ y ∷ []) ≡ ror x y
  pub interp_ror_r : (x y : m.Value) → m.interp ror_r (x ∷ y ∷ []) ≡ ror x y
  pub interp_rrx : (x : m.Value) → m.interp Opcode.rrx (x ∷ []) ≡ rrx x

-- A shift by an amount.
abbrev pub takes_amount : ShiftOpc → Bool
takes_amount ShiftOpc.asr = true
takes_amount ShiftOpc.lsl = true
takes_amount ShiftOpc.lsr = true
takes_amount ShiftOpc.ror = true
takes_amount _ = false

module _ (t : Target) where
  abbrev pub offset_of : ℤ → ℕ
  offset_of z = t.get_so_reg_offset (to_unsigned z)

  abbrev pub kind_of : ℤ → ShiftOpc
  kind_of z = t.get_so_reg_sh_op (to_unsigned z)

  abbrev pub opcode_of : ℤ → Opcode
  opcode_of z = get_shift_opcode (kind_of z) (offset_of z)

  -- The encoding names a shift: ASR, LSL, LSR or ROR by an amount that is not encoded as 0, or RRX,
  -- in the first form; one of the four, with no amount, in the second.
  abbrev pub IsEncoded : Shifter → Type 0
  IsEncoded (by_imm rm z) =
      ((takes_amount (kind_of z) ≡ true) × ((offset_of z == 0) ≡ false))
      ⊎ ((kind_of z ≡ ShiftOpc.rrx) × ((offset_of z == 0) ≡ true))
  IsEncoded (by_reg rm rs z) = (takes_amount (kind_of z) ≡ true) × ((offset_of z == 0) ≡ true)

module _ {m : Machine} (arm : IsArm m) where
  -- A value shifted by an amount, which RRX has none of.
  abbrev pub shift_by : ShiftOpc → m.Value → m.Value → m.Value
  shift_by ShiftOpc.asr x y = arm.asr x y
  shift_by ShiftOpc.lsl x y = arm.lsl x y
  shift_by ShiftOpc.lsr x y = arm.lsr x y
  shift_by ShiftOpc.ror x y = arm.ror x y
  shift_by ShiftOpc.rrx x y = arm.rrx x
  shift_by ShiftOpc.no_shift x y = x
  shift_by ShiftOpc.uxtw x y = x

  -- The value of the shifted operand.
  abbrev pub shifted : Target → (Register → m.Value) → Shifter → m.Value
  shifted t rf (by_imm rm z) = shift_by (kind_of t z) (rf rm) (m.const (pos (offset_of t z)))
  shifted t rf (by_reg rm rs z) = shift_by (kind_of t z) (rf rm) (rf rs)

  -- The opcode that is found for a shift by an amount is one, is not RRX, and does that shift.
  abbrev pub Shifts : ShiftOpc → ℕ → Type 0
  Shifts k offset =
      (is_set (get_shift_opcode k offset) ≡ true)
      × (is_rrx (get_shift_opcode k offset) ≡ false)
      × ((x y : m.Value) → m.interp (get_shift_opcode k offset) (x ∷ y ∷ []) ≡ shift_by k x y)

  pub get_shift_opcode-Shifts :
      (k : ShiftOpc) (offset : ℕ) → takes_amount k ≡ true → Shifts k offset
  unfolding get_shift_opcode is_set is_rrx
  get_shift_opcode-Shifts ShiftOpc.asr offset h = elim (Bool-cases (offset == 0)) [
    | inl e ↦ rw e (refl, refl, arm.interp_asr_r)
    | inr e ↦ rw e (refl, refl, arm.interp_asr_i)
  ]
  get_shift_opcode-Shifts ShiftOpc.lsl offset h = elim (Bool-cases (offset == 0)) [
    | inl e ↦ rw e (refl, refl, arm.interp_lsl_r)
    | inr e ↦ rw e (refl, refl, arm.interp_lsl_i)
  ]
  get_shift_opcode-Shifts ShiftOpc.lsr offset h = elim (Bool-cases (offset == 0)) [
    | inl e ↦ rw e (refl, refl, arm.interp_lsr_r)
    | inr e ↦ rw e (refl, refl, arm.interp_lsr_i)
  ]
  get_shift_opcode-Shifts ShiftOpc.ror offset h = elim (Bool-cases (offset == 0)) [
    | inl e ↦ rw e (refl, refl, arm.interp_ror_r)
    | inr e ↦ rw e (refl, refl, arm.interp_ror_i)
  ]
  get_shift_opcode-Shifts ShiftOpc.rrx offset h = cc
  get_shift_opcode-Shifts ShiftOpc.no_shift offset h = cc
  get_shift_opcode-Shifts ShiftOpc.uxtw offset h = cc

  -- RRX is found for RRX.
  pub get_shift_opcode_rrx :
      (k : ShiftOpc) (offset : ℕ) → k ≡ ShiftOpc.rrx → get_shift_opcode k offset ≡ Opcode.rrx
  unfolding get_shift_opcode
  get_shift_opcode_rrx k offset e = ap (λ k. get_shift_opcode k offset) e

  -- The plain opcode that is found for an operation does it.
  pub interp-checkis_shifter :
      (op : AluOp) (x : Shifter) (a b : m.Value)
      → m.interp (checkis_shifter (shifted_opcode op x)) (a ∷ b ∷ []) ≡ arm.alu op a b
  unfolding checkis_shifter
  interp-checkis_shifter adc (by_imm rm z) a b = arm.interp_alu adc a b
  interp-checkis_shifter adc (by_reg rm rs z) a b = arm.interp_alu adc a b
  interp-checkis_shifter add (by_imm rm z) a b = arm.interp_alu add a b
  interp-checkis_shifter add (by_reg rm rs z) a b = arm.interp_alu add a b
  interp-checkis_shifter and (by_imm rm z) a b = arm.interp_alu and a b
  interp-checkis_shifter and (by_reg rm rs z) a b = arm.interp_alu and a b
  interp-checkis_shifter bic (by_imm rm z) a b = arm.interp_alu bic a b
  interp-checkis_shifter bic (by_reg rm rs z) a b = arm.interp_alu bic a b
  interp-checkis_shifter eor (by_imm rm z) a b = arm.interp_alu eor a b
  interp-checkis_shifter eor (by_reg rm rs z) a b = arm.interp_alu eor a b
  interp-checkis_shifter orr (by_imm rm z) a b = arm.interp_alu orr a b
  interp-checkis_shifter orr (by_reg rm rs z) a b = arm.interp_alu orr a b
  interp-checkis_shifter rsb (by_imm rm z) a b = arm.interp_alu rsb a b
  interp-checkis_shifter rsb (by_reg rm rs z) a b = arm.interp_alu rsb a b
  interp-checkis_shifter sub (by_imm rm z) a b = arm.interp_alu sub a b
  interp-checkis_shifter sub (by_reg rm rs z) a b = arm.interp_alu sub a b
