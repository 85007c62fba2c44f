-- ===== src/Tests/ArmProlog.antt =====
-- The elimination of a prolog and an epilog at a concrete function.
use llvm_mctoll.Base.{
  ℕ, ◌+◌, ◌≡◌, refl, if◌then◌else◌, true, false, List, [], ◌∷◌, ◌++◌, arith, none, some, ◌>>=◌,
  Bool, length, Option, ◌==◌,
}
use llvm_mctoll.Base.Int.{ℤ, pos, negsuc, ◌+ℤ◌, ◌-ℤ◌}
use llvm_mctoll.Arm.Opcode.{ldr_i12, Opcode, other, sub_ri, bx_ret}
use llvm_mctoll.Arm.Target.{
  Register, sp, pc, r11, phys, no_register, same_register, Operand, reg, imm, MachineInstr, Target,
  ShiftOpc,
}
use llvm_mctoll.Arm.Prolog.Spill.{Spills, SpillTarget, allocate_slots}
use llvm_mctoll.Arm.Prolog.Eliminate.{MachineFunction, analyze_stack_size, analyze_frame_adjustment}
use llvm_mctoll.Arm.Prolog.Frame.{set_frame, lower_stack, identify_stack_op-analyzed}
use llvm_mctoll.Arm.Frame.Identify.{identify_stack_op, base_offset, frame_offset}
use llvm_mctoll.Arm.Prolog.Slots.{stacked, indexed, allocate_slots-stacked}

-- The opcodes 1 and 2 stand for push and pop.
abbrev is_other : ℕ → Opcode → Bool
is_other n (other m) = m == n
is_other n _ = false

abbrev use_of : Register → ℕ → List Operand → Option ℕ
use_of r i [] = none
use_of r i (reg q false ∷ mos) =
    let rest = use_of r (i + 1) mos in if same_register q r then some i else rest
use_of r i (mo ∷ mos) = use_of r (i + 1) mos

abbrev with_lists : Target
with_lists = record {
  get_am2_offset = λ n. n;
  get_am2_shift_opc = λ n. ShiftOpc.no_shift;
  get_so_reg_offset = λ n. n;
  get_so_reg_sh_op = λ n. ShiftOpc.no_shift;
  may_store = is_other 1;
  may_load = is_other 2;
  find_register_use_operand_idx = λ mos r. use_of r 0 mos;
  al = pos 14;
}

-- Each register has a slot of 4 bytes, and none has one of its own.
abbrev four_bytes : SpillTarget
four_bytes = record {
  callee_saved_regs = phys 4 ∷ r11 ∷ phys 14 ∷ [];
  has_reserved_spill_slot = λ r. none;
  callee_saved_spill_slots = [];
  get_spill_size = λ r. 4;
  assign_callee_saved_spill_slots = λ sp rs. none;
}

abbrev always : List Operand
always = imm (pos 14) ∷ reg no_register false ∷ []

-- push {r11, lr}; add r11, sp, #4; sub sp, sp, #16; and another instruction
abbrev push_pair : MachineInstr
push_pair = record {
  opcode = other 1;
  operands = reg sp true ∷ reg sp false ∷ always ++ reg r11 false ∷ reg (phys 14) false ∷ [];
}

abbrev untouched : MachineInstr
untouched = record { opcode = other 3; operands = reg (phys 0) true ∷ always }

abbrev front : List MachineInstr
front = push_pair ∷ set_frame 4 always ∷ ([] ++ lower_stack 16 always ∷ untouched ∷ [])

-- sub sp, r11, #4; pop {r11, pc}
abbrev pop_pair : MachineInstr
pop_pair = record {
  opcode = other 2;
  operands = reg sp true ∷ reg sp false ∷ always ++ reg r11 false ∷ reg pc false ∷ [];
}

abbrev restore : MachineInstr
restore = record { opcode = sub_ri; operands = reg sp true ∷ reg r11 false ∷ imm (pos 4) ∷ always }

abbrev no_spills : Spills
no_spills = record { objects = []; fixed = []; saved = [] }

abbrev whole_function : MachineFunction
whole_function = record {
  blocks = front ∷ (restore ∷ pop_pair ∷ []) ∷ [];
  stack_size = pos 0;
  offset_adjustment = pos 0;
  spills = no_spills;
}

abbrev without_prolog : MachineFunction
without_prolog = record whole_function {
  blocks = (untouched ∷ []) ∷ (restore ∷ pop_pair ∷ []) ∷ [];
  spills = record {
    objects =
        record { size = 4; sp_offset = negsuc 3 } ∷ record { size = 4; sp_offset = negsuc 7 } ∷ [];
    fixed = [];
    saved = (r11, pos 0) ∷ (phys 14, pos 1) ∷ [];
  };
}

-- bx lr, with the last explicit operand of the pop
abbrev bx_lr : MachineInstr
bx_lr = record { opcode = bx_ret; operands = imm (pos 14) ∷ reg pc false ∷ [] }

abbrev without_epilog : MachineFunction
without_epilog = record without_prolog { blocks = (untouched ∷ []) ∷ (bx_lr ∷ []) ∷ [] }

abbrev with_sizes : MachineFunction
with_sizes = record without_epilog { stack_size = pos 16; offset_adjustment = pos 4 }

abbrev registers : Register → ℤ
registers r = if same_register r sp then pos 84 else pos 104

-- ldr r0, [r11, #-8] behind the prolog
identify_stack_op-analyzed_example : registers r11 +ℤ negsuc 7 ≡ registers sp +ℤ pos 12
unfolding identify_stack_op base_offset frame_offset analyze_stack_size analyze_frame_adjustment
    ◌>>=◌ ◌+ℤ◌ ◌-ℤ◌
identify_stack_op-analyzed_example =
    identify_stack_op-analyzed whole_function (push_pair ∷ []) [] (untouched ∷ [])
      ((restore ∷ pop_pair ∷ []) ∷ []) 4 16 always always refl ((refl, refl), tt) tt (omega arith)
      (omega arith) registers (pos 100) ldr_i12 (reg (phys 0) true) r11 false (negsuc 7) always
      (pos 12) refl refl refl refl refl

allocate_slots-stacked_example :
    ((allocate_slots four_bytes (r11 ∷ phys 14 ∷ []) 0 no_spills).objects
      ≡ no_spills.objects ++ stacked four_bytes 0 (r11 ∷ phys 14 ∷ []))
    × ((allocate_slots four_bytes (r11 ∷ phys 14 ∷ []) 0 no_spills).saved
        ≡ no_spills.saved ++ indexed four_bytes (length no_spills.objects) (r11 ∷ phys 14 ∷ []))
allocate_slots-stacked_example =
    allocate_slots-stacked four_bytes (r11 ∷ phys 14 ∷ []) no_spills
      ((refl, refl), ((refl, refl), tt)) (omega arith)
