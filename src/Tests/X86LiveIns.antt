-- ===== src/Tests/X86LiveIns.antt =====
-- The live-in registers and the types of arguments at concrete registers.
use llvm_mctoll.Base.{ℕ, ◌≡◌, ◌↔◌, refl, some, List, [], ◌∷◌, arith, if◌then◌else◌, ◌==◌, ◌||◌}
use llvm_mctoll.X86.Registers.{PhysReg, ValueType, get_argument_reg, gpr64_arg_regs_32_bit}
use llvm_mctoll.X86.Instr.{mem}
use llvm_mctoll.X86.Types.{X86Target}
use llvm_mctoll.X86.LiveIns.{
  add_register_to_function_live_in_set, first_live_in, set_insert, set_erase,
}
use llvm_mctoll.X86.LiveIns.Antichain.{
  IsTable, IsAntichain, HasOnePart, add_register_to_function_live_in_set-IsAntichain,
}
use llvm_mctoll.X86.LiveIns.Covered.{Covers, CoversOr, add_register_to_function_live_in_set-Covers}
use llvm_mctoll.X86.ArgTypes.{get_argument_number}
use llvm_mctoll.X86.ArgTypes.Numbers.{get_argument_number-get_argument_reg}
use llvm_mctoll.X86.Discover.Union.{AllOnce, largest, union_of_preds-largest}
use llvm_mctoll.X86.Discover.{find_key, union_of_preds}
use llvm_mctoll.Tests.X86Target.{test_target, test_target-IsEncoding}
use llvm_mctoll.Tests.X86Parts.{test_target-IsTable}

-- DI, SI and XMM1.
abbrev live_ins : List ℕ
live_ins = 13 ∷ 14 ∷ 41 ∷ []

add_edi : add_register_to_function_live_in_set test_target live_ins 7 ≡ 7 ∷ 14 ∷ 41 ∷ []
unfolding add_register_to_function_live_in_set mem first_live_in set_insert set_erase
add_edi = refl

add_register_to_function_live_in_set-Covers_example :
    Covers test_target (add_register_to_function_live_in_set test_target live_ins 7) 13
    ↔ CoversOr test_target live_ins 7 13
add_register_to_function_live_in_set-Covers_example =
    add_register_to_function_live_in_set-Covers test_target test_target-IsTable live_ins 7 13
      (omega arith)

int32_ne : ValueType.int32_type ≡ ValueType.other_type → ⊥
int32_ne e = cc

get_argument_number-get_argument_reg_example : get_argument_number test_target 8 ≡ some 2
unfolding get_argument_reg gpr64_arg_regs_32_bit
get_argument_number-get_argument_reg_example =
    get_argument_number-get_argument_reg test_target test_target-IsEncoding 1 ValueType.int32_type
      PhysReg.esi int32_ne refl

-- Two predecessors, of which the second defines register 30 wider.
abbrev per_mbb : List (ℕ × List (ℕ × ℕ))
per_mbb = (1, (30, 4) ∷ []) ∷ (2, (30, 8) ∷ (1, 4) ∷ []) ∷ []

per_mbb-AllOnce : AllOnce per_mbb
unfolding find_key
per_mbb-AllOnce p = ground arith

union_of_preds-largest_example :
    find_key 30 (union_of_preds per_mbb (1 ∷ 2 ∷ []) []) ≡ largest per_mbb (1 ∷ 2 ∷ []) 30
union_of_preds-largest_example = union_of_preds-largest per_mbb (1 ∷ 2 ∷ []) 30 per_mbb-AllOnce

-- RCX, ECX, CX and CL with CH, which is 70: uses of CL, CH, RCX and then ECX leave RCX and ECX.
abbrev cx_target : X86Target
cx_target = record test_target {
  sub_regs = λ r.
      if r == 4
      then 10 ∷ 16 ∷ 22 ∷ 70 ∷ []
      else if r == 10
      then 16 ∷ 22 ∷ 70 ∷ []
      else if r == 16
      then 22 ∷ 70 ∷ []
      else [];
  super_regs = λ r.
      if r == 22 || r == 70
      then 16 ∷ 10 ∷ 4 ∷ []
      else if r == 16
      then 10 ∷ 4 ∷ []
      else if r == 10
      then 4 ∷ []
      else [];
}

abbrev add_cx : ℕ → List ℕ → List ℕ
add_cx r set = add_register_to_function_live_in_set cx_target set r

both_widths : add_cx 10 (add_cx 4 (add_cx 70 (add_cx 22 []))) ≡ 4 ∷ 10 ∷ []
unfolding add_register_to_function_live_in_set mem first_live_in set_insert set_erase
both_widths = refl

cx_target-IsTable : IsTable cx_target
unfolding mem
cx_target-IsTable = record {
  irreflexive = λ r h. ground arith;
  transitive = λ r q p h k. ground arith;
  converse = λ r q h. ground arith;
  converse_super = λ r q h. ground arith;
}

-- CL and CH, of which neither is a part of the other.
low_and_high-IsAntichain : IsAntichain cx_target (22 ∷ 70 ∷ [])
unfolding mem
low_and_high-IsAntichain = record { sorted = omega arith; apart = λ a b h k l. ground arith }

-- A use of RCX behind uses of CL and CH.
add_register_to_function_live_in_set-IsAntichain_example :
    IsAntichain cx_target (add_cx 4 (22 ∷ 70 ∷ [])) ↔ HasOnePart cx_target 4 (22 ∷ 70 ∷ [])
add_register_to_function_live_in_set-IsAntichain_example =
    add_register_to_function_live_in_set-IsAntichain cx_target cx_target-IsTable (22 ∷ 70 ∷ []) 4
      low_and_high-IsAntichain
