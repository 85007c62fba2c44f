-- ===== src/Arm/Prolog/Conditions.antt =====
-- ARM/ARMEliminatePrologEpilog.cpp: the tests of an instruction, and what they are tests of. A test
-- is `none` where an assertion of LLVM's operand accessors fails; `&&` asks its second part only
-- where the first holds.
use llvm_mctoll.Base.{
  ℕ, suc, if◌then◌else◌, Bool, true, false, Option, none, some, ◌>>=◌, List, [], ◌∷◌,
}
use llvm_mctoll.Arm.Opcode.{is_mov_r, is_add_ri, is_sub_ri, is_ldr_post_imm, is_str_pre_imm}
use llvm_mctoll.Arm.Target.{Register, r11, r12, same_register, Operand, reg, MachineInstr, Target}
use llvm_mctoll.Arm.Builder.{get_operand, get_reg}

-- MO.isReg() && MO.getReg() == R
abbrev pub is_register : Register → Operand → Bool
is_register r (reg q d) = same_register q r
is_register r _ = false

-- MI.getOperand(i).isReg() && MI.getOperand(i).getReg() == R
unfoldable pub register_at : ℕ → Register → MachineInstr → Option Bool
register_at i r mi = do mo ← get_operand mi i; some (is_register r mo)

-- MI.getOperand(i).getReg() == R, which wants a register.
unfoldable pub get_reg_at : ℕ → Register → MachineInstr → Option Bool
get_reg_at i r mi = do mo ← get_operand mi i; q ← get_reg mo; some (same_register q r)

infixr 30 ◌and_then◌
unfoldable pub ◌and_then◌ : Option Bool → Option Bool → Option Bool
none and_then q = none
some true and_then q = q
some false and_then q = some false

-- How often an instruction goes on the list of removals: once for each test that holds.
unfoldable pub count_tests : List (MachineInstr → Option Bool) → MachineInstr → Option ℕ
count_tests [] mi = some 0
count_tests (test ∷ tests) mi = do
  b ← test mi
  n ← count_tests tests mi
  some (if b then suc n else n)

module _ (t : Target) (frame_ptr : Register) where
  -- The five tests of eliminateProlog, and the six of eliminateEpilog.
  unfoldable pub prolog_mov : MachineInstr → Option Bool
  prolog_mov mi =
      some (is_mov_r mi.opcode) and_then register_at 0 r11 mi and_then register_at 1 frame_ptr mi

  unfoldable pub prolog_store : MachineInstr → Option Bool
  prolog_store mi = some (t.may_store mi.opcode) and_then register_at 0 frame_ptr mi

  unfoldable pub prolog_add : MachineInstr → Option Bool
  prolog_add mi =
      some (is_add_ri mi.opcode) and_then get_reg_at 0 r11 mi and_then get_reg_at 1 frame_ptr mi

  unfoldable pub prolog_sub : MachineInstr → Option Bool
  prolog_sub mi =
      some (is_sub_ri mi.opcode)
      and_then get_reg_at 0 frame_ptr mi
      and_then get_reg_at 1 frame_ptr mi

  unfoldable pub prolog_sub_r12 : MachineInstr → Option Bool
  prolog_sub_r12 mi =
      some (is_sub_ri mi.opcode) and_then get_reg_at 0 r11 mi and_then get_reg_at 1 r12 mi

  unfoldable pub epilog_load : MachineInstr → Option Bool
  epilog_load mi = some (t.may_load mi.opcode) and_then register_at 0 frame_ptr mi

  unfoldable pub epilog_ldr_post : MachineInstr → Option Bool
  epilog_ldr_post mi = some (is_ldr_post_imm mi.opcode) and_then get_reg_at 1 frame_ptr mi

  unfoldable pub epilog_str_pre : MachineInstr → Option Bool
  epilog_str_pre mi = some (is_str_pre_imm mi.opcode) and_then get_reg_at 0 frame_ptr mi

  unfoldable pub epilog_add : MachineInstr → Option Bool
  epilog_add mi = some (is_add_ri mi.opcode) and_then register_at 0 frame_ptr mi

  unfoldable pub epilog_sub : MachineInstr → Option Bool
  epilog_sub mi = some (is_sub_ri mi.opcode) and_then get_reg_at 0 frame_ptr mi

  unfoldable pub epilog_mov : MachineInstr → Option Bool
  epilog_mov mi =
      some (is_mov_r mi.opcode) and_then register_at 1 r11 mi and_then register_at 0 frame_ptr mi

  abbrev pub prolog_tests : List (MachineInstr → Option Bool)
  prolog_tests = prolog_mov ∷ prolog_store ∷ prolog_add ∷ prolog_sub ∷ prolog_sub_r12 ∷ []

  abbrev pub epilog_tests : List (MachineInstr → Option Bool)
  epilog_tests =
      epilog_load ∷ epilog_ldr_post ∷ epilog_str_pre ∷ epilog_add ∷ epilog_sub ∷ epilog_mov ∷ []
