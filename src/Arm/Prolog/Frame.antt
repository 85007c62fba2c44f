-- ===== src/Arm/Prolog/Frame.antt =====
-- The sizes that analyzeStackSize and analyzeFrameAdjustment take from a prolog, against what the
-- prolog does to the registers; with identifyStackOp, the addresses of the accesses behind it.
use llvm_mctoll.Base.{
  ℕ, true, false, ◌<◌, ◌≡◌, refl, ap, ◌∙◌, Option, none, some, List, [], ◌∷◌, ◌++◌, All, arith,
  Bool,
}
use llvm_mctoll.Base.Int.{ℤ, pos, ◌+ℤ◌, ◌-ℤ◌, ltb_ℤ, int_laws}
use llvm_mctoll.Arm.Opcode.{Opcode, add_ri, sub_ri}
use llvm_mctoll.Arm.Target.{Register, sp, r11, Operand, reg, imm, MachineInstr}
use llvm_mctoll.Arm.Frame.Identify.{FrameInfo, identify_stack_op, is_halfword_op, nonneg}
use llvm_mctoll.Arm.Frame.Address.{IsFrame, identify_stack_op-address}
use llvm_mctoll.Arm.Prolog.Eliminate.{
  MachineFunction, stack_decrement, frame_increment, first_imm, front_imm, analyze_stack_size,
  analyze_frame_adjustment,
}

-- What the frame builder sees of the function.
abbrev pub frame_info : MachineFunction → FrameInfo
frame_info mf = record {
  stack_size = mf.stack_size;
  offset_adjustment = mf.offset_adjustment;
  objects = mf.spills.objects;
}

-- add r11, sp, #a and sub sp, sp, #s
abbrev pub set_frame : ℕ → List Operand → MachineInstr
set_frame a mos = record {
  opcode = add_ri;
  operands = reg r11 true ∷ reg sp false ∷ imm (pos a) ∷ mos;
}

abbrev pub lower_stack : ℕ → List Operand → MachineInstr
lower_stack s mos = record {
  opcode = sub_ri;
  operands = reg sp true ∷ reg sp false ∷ imm (pos s) ∷ mos;
}

-- Instructions that neither analysis takes.
abbrev pub Passed : MachineInstr → Type 0
Passed mi = (stack_decrement mi ≡ none) × (frame_increment mi ≡ none)

first_imm-skip :
    (f : MachineInstr → Option ℤ) (old : ℤ) (mis rest : List MachineInstr)
    → All (λ mi. f mi ≡ none) mis
    → first_imm f old (mis ++ rest) ≡ first_imm f old rest
first_imm-skip f old [] rest h = refl
first_imm-skip f old (mi ∷ mis) rest h = rw h.0 (first_imm-skip f old mis rest h.1)

first_imm-head :
    (f : MachineInstr → Option ℤ) (old z : ℤ) (mi : MachineInstr) (rest : List MachineInstr)
    → f mi ≡ some z
    → first_imm f old (mi ∷ rest) ≡ z
first_imm-head f old z mi rest h = rw h refl

regroup : (b s a : ℤ) → b +ℤ a ≡ b -ℤ s +ℤ s +ℤ a
regroup b s a = omega int_laws

positive : (n : ℕ) → 0 < n → ltb_ℤ (pos 0) (pos n) ≡ true
positive n h = ground arith

All-map :
    {P Q : MachineInstr → Type 0} (mis : List MachineInstr)
    → ((mi : MachineInstr) → P mi → Q mi)
    → All P mis
    → All Q mis
All-map [] f h = tt
All-map (mi ∷ mis) f h = (f mi h.0, All-map mis f h.1)

module _ (mf : MachineFunction) (before middle after : List MachineInstr)
    (blocks : List (List MachineInstr)) (a s : ℕ) (mos mos' : List Operand)
    (front : mf.blocks
      ≡ (before ++ set_frame a mos ∷ (middle ++ lower_stack s mos' ∷ after)) ∷ blocks)
    (passed_before : All Passed before) (passed_middle : All Passed middle) (a_positive : 0 < a)
    (s_positive : 0 < s) where
  abbrev analyzed : MachineFunction
  analyzed = analyze_frame_adjustment (analyze_stack_size mf)

  analyzed-adjustment : analyzed.offset_adjustment ≡ pos a
  unfolding analyze_frame_adjustment analyze_stack_size
  analyzed-adjustment =
      ap (front_imm frame_increment mf.offset_adjustment) front
      ∙ first_imm-skip frame_increment mf.offset_adjustment before _
          (All-map before (λ mi h. h.1) passed_before)
      ∙ first_imm-head frame_increment mf.offset_adjustment (pos a) (set_frame a mos)
          (middle ++ lower_stack s mos' ∷ after) (rw (positive a a_positive) refl)

  analyzed-size : analyzed.stack_size ≡ pos s
  unfolding analyze_frame_adjustment analyze_stack_size
  analyzed-size =
      ap (front_imm stack_decrement mf.stack_size) front
      ∙ first_imm-skip stack_decrement mf.stack_size before _
          (All-map before (λ mi h. h.0) passed_before)
      ∙ first_imm-skip stack_decrement mf.stack_size middle _
          (All-map middle (λ mi h. h.0) passed_middle)
      ∙ first_imm-head stack_decrement mf.stack_size (pos s) (lower_stack s mos') after
          (rw (positive s s_positive) refl)

  -- A prolog of the function sets r11 to the stack pointer plus a, and lowers the stack pointer by s
  -- behind that, with no other instruction that the analyses take in front of the two. Then in each
  -- state of the registers that this prolog leaves, the frame pointer lies the stack size and the
  -- adjustment that the analyses find above the stack pointer.
  pub analyzed-IsFrame :
      (rf : Register → ℤ) (base : ℤ)
      → rf r11 ≡ base +ℤ pos a
      → rf sp ≡ base -ℤ pos s
      → IsFrame (frame_info analyzed) rf
  analyzed-IsFrame rf base e f =
      rw (analyzed-adjustment, analyzed-size, e, f) (regroup base (pos s) (pos a))

  -- A prolog of the function sets r11 to the stack pointer plus a, and lowers the stack pointer by s
  -- behind that, a and s being positive, with no other instruction that the analyses take in front of
  -- the two. Then in each state of the registers that this prolog leaves, the offset that
  -- identifyStackOp finds with the sizes of the analyses, for an access of other than a halfword, is
  -- right: the address of the access is the stack pointer plus that offset.
  pub identify_stack_op-analyzed :
      (rf : Register → ℤ) (base : ℤ) (opc : Opcode) (dest : Operand) (r : Register) (d : Bool)
      (offset : ℤ) (rest : List Operand) (o : ℤ)
      → rf r11 ≡ base +ℤ pos a
      → rf sp ≡ base -ℤ pos s
      → is_halfword_op opc ≡ false
      → identify_stack_op
          (frame_info analyzed)
          (record { opcode = opc; operands = dest ∷ reg r d ∷ imm offset ∷ rest })
        ≡ some o
      → nonneg o ≡ true
      → rf r +ℤ offset ≡ rf sp +ℤ o
  identify_stack_op-analyzed rf base opc dest r d offset rest o e f half found positive_o =
      identify_stack_op-address (frame_info analyzed) rf (analyzed-IsFrame rf base e f) opc dest r d
        offset rest o half found positive_o
