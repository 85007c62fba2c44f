-- ===== src/Arm/Frame/Address.antt =====
-- The offset that identifyStackOp finds against the address of the instruction.
use llvm_mctoll.Base.{
  suc, ℕ, ltb, Bool, true, false, ◌&&◌, ◌||◌, not, ◌≡◌, refl, sym, ap, ◌∙◌, some, List, ◌∷◌, ◌>>=◌,
  Bool-cases, inl, inr, arith, length,
}
use mathlib.Core.Option.{some-injective}
use mathlib.Core.Bool.{true≢false}
use llvm_mctoll.Base.Int.{ℤ, pos, ◌+ℤ◌, ltb_ℤ, int_laws}
use llvm_mctoll.Arm.Opcode.{Opcode}
use llvm_mctoll.Arm.Target.{
  Register, sp, r11, same_register, same_register_iff, Operand, reg, imm, MachineInstr,
}
use llvm_mctoll.Arm.Frame.Identify.{
  FrameInfo, is_load_op, is_store_op, is_add_op, is_halfword_op, identify_stack_op, base_offset,
  frame_offset, nonneg, minus_one,
}

-- The registers, where the frame pointer lies the stack size and the adjustment above the stack
-- pointer.
abbrev pub IsFrame : FrameInfo → (Register → ℤ) → Type 0
IsFrame fi rf = rf r11 ≡ rf sp +ℤ fi.stack_size +ℤ fi.offset_adjustment

and-true : (a b : Bool) → (a && b) ≡ true → a ≡ true
and-true a b h = ground arith

regroup : (s z a x : ℤ) → s +ℤ z +ℤ a +ℤ x ≡ s +ℤ (z +ℤ x +ℤ a)
regroup s z a x = omega int_laws

three : (n : ℕ) → ltb (suc (suc (suc n))) 3 ≡ false
three n = ground arith

not_found : {A : Type 0} (o : ℤ) → minus_one ≡ o → nonneg o ≡ true → A
not_found o e h = absurd (true≢false (sym h ∙ ap nonneg (sym e)))

module _ (fi : FrameInfo) (rf : Register → ℤ) (frame : IsFrame fi rf) where
  frame_offset-address :
      (r : Register) (offset o : ℤ)
      → frame_offset fi false r offset ≡ o
      → nonneg o ≡ true
      → rf r +ℤ offset ≡ rf sp +ℤ o
  unfolding frame_offset
  frame_offset-address r offset o e h = elim (Bool-cases (same_register r sp && nonneg offset)) [
    | inl s ↦ rw ((same_register_iff r sp).0 (and-true _ _ s), (rw s at e)) refl
    | inr s ↦ elim (Bool-cases (same_register r r11)) [
      | inl f ↦ elim (Bool-cases (ltb_ℤ (pos 0) offset)) [
        | inl p ↦ not_found o (rw (s, f, p) at e) h
        | inr p ↦
            rw ((same_register_iff r r11).0 f, frame, ← (rw (s, f, p) at e))
              (regroup (rf sp) fi.stack_size fi.offset_adjustment offset)
      ]
      | inr f ↦ not_found o (rw (s, f) at e) h
    ]
  ]

  some-inj : (a b : ℤ) → some a ≡ some b → a ≡ b
  some-inj a b = some-injective a b

  -- Where the frame pointer is the stack pointer plus the stack size and the adjustment, the offset
  -- found for a load, a store or an addition of other than a halfword is right: the address of the
  -- instruction is the stack pointer plus that offset.
  pub identify_stack_op-address :
      (opc : Opcode) (dest : Operand) (r : Register) (d : Bool) (offset : ℤ) (rest : List Operand)
      (o : ℤ)
      → is_halfword_op opc ≡ false
      → identify_stack_op fi
          (record { opcode = opc; operands = dest ∷ reg r d ∷ imm offset ∷ rest })
        ≡ some o
      → nonneg o ≡ true
      → rf r +ℤ offset ≡ rf sp +ℤ o
  unfolding identify_stack_op base_offset ◌>>=◌
  identify_stack_op-address opc dest r d offset rest o half e h =
      elim (Bool-cases (not (is_load_op opc || is_store_op opc || is_add_op opc))) [
        | inl n ↦ not_found o (some-inj _ _ (rw n at e)) h
        | inr n ↦
            frame_offset-address r offset o (some-inj _ _ (rw (n, three (length rest), half) at e))
              h
      ]

module _ (fi : FrameInfo) (opc : Opcode) (half : is_halfword_op opc ≡ true) where
  -- A halfword access of the frame, [fp, #imm], with imm in the encoding of addressing mode 3.
  abbrev pub halfword : Bool → Operand → Operand → ℕ → List Operand → MachineInstr
  halfword d dest index n rest = record {
    opcode = opc;
    operands = dest ∷ reg r11 d ∷ index ∷ imm (pos n) ∷ rest;
  }
