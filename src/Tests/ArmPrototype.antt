-- ===== src/Tests/ArmPrototype.antt =====
-- Parameters and return types at concrete functions.
use llvm_mctoll.Base.{ℕ, ◌<◌, ◌≡◌, refl, true, false, [], ◌∷◌}
use llvm_mctoll.Base.Int.{pos}
use llvm_mctoll.Arm.Opcode.{ldr_i12, add_rr}
use llvm_mctoll.Arm.Target.{phys, r11, same_register, reg, imm, MachineInstr}
use llvm_mctoll.Arm.Prototype.Discover.{
  BasicBlock, OperandInfo, walk_blocks, stack_arguments, all_stack_arguments, gen_parameter_types,
  is_defined_register, gen_return_type, is_used_register,
}
use llvm_mctoll.Arm.Prototype.Parameters.{gen_parameter_types-stack_index}

abbrev one_def : OperandInfo
one_def = record { is_tied = λ mi i. false; num_explicit_defs = λ mi. 1 }

abbrev add_to : ℕ → ℕ → MachineInstr
add_to d n = record { opcode = add_rr; operands = reg (phys d) true ∷ reg (phys n) false ∷ [] }

-- A block in which one register is live, and used.
abbrev using : ℕ → BasicBlock
using n = record {
  instrs = add_to 4 n ∷ [];
  is_live_in = same_register (phys n);
  succ_empty = false;
}

-- ldr r1, [r11, #12]
abbrev fifth : MachineInstr
fifth = record {
  opcode = ldr_i12;
  operands = reg (phys 1) true ∷ reg r11 false ∷ imm (pos 12) ∷ [];
}

abbrev last_block : BasicBlock
last_block = record { instrs = fifth ∷ add_to 0 1 ∷ []; is_live_in = λ r. false; succ_empty = true }

gen_parameter_types-stack_index_example :
    5 < gen_parameter_types one_def [] (using 1 ∷ last_block ∷ [])
gen_parameter_types-stack_index_example =
    gen_parameter_types-stack_index one_def [] (using 1 ∷ last_block ∷ []) 1 0 5 last_block fifth
      refl refl refl

six_parameters : gen_parameter_types one_def [] (using 1 ∷ last_block ∷ []) ≡ 6
unfolding gen_parameter_types walk_blocks all_stack_arguments stack_arguments
six_parameters = refl

returns : gen_return_type one_def (using 1 ∷ last_block ∷ []) ≡ true
unfolding gen_return_type is_defined_register
returns = refl

first_use : is_used_register (phys 1) (add_to 4 1 ∷ add_to 1 1 ∷ []) ≡ true
unfolding is_used_register
first_use = refl
