-- ===== src/Arm/Prototype/Discover.antt =====
-- ARM/ARMFunctionPrototype.cpp: isUsedRegiser, isDefinedRegiser, genParameterTypes and genReturnType.
-- What LLVM computes on the control-flow graph is given: the registers that are live in at a block,
-- whether a block has successors, and the order of the depth-first walk.
use llvm_mctoll.Base.{
  ℕ, zero, suc, ◌+◌, ◌/◌, ltb, if◌then◌else◌, Bool, true, false, ◌&&◌, ◌||◌, not, Option, none,
  some, List, [], ◌∷◌, ◌++◌,
}
use llvm_mctoll.Base.Int.{pos}
use llvm_mctoll.Arm.Opcode.{is_ldr_i12}
use llvm_mctoll.Arm.Target.{Register, phys, r11, same_register, Operand, reg, imm, MachineInstr}

pub record BasicBlock : Type 0 where
  pub instrs : List MachineInstr
  pub is_live_in : Register → Bool
  pub succ_empty : Bool

-- MO.isReg() && MO.getReg() == Reg
abbrev pub names : Register → Operand → Bool
names r (reg q d) = same_register q r
names r _ = false

abbrev pub is_def : Operand → Bool
is_def (reg q d) = d
is_def _ = false

-- The first operand that names the register, with the index of the operand.
abbrev pub first_naming : Register → ℕ → List Operand → Option (ℕ × Operand)
first_naming r i [] = none
first_naming r i (mo ∷ mos) =
    let rest = first_naming r (i + 1) mos in if names r mo then some (i, mo) else rest

abbrev pub use_or : Option (ℕ × Operand) → Bool → Bool
use_or none rest = rest
use_or (some (i, mo)) rest = not (is_def mo)

unfoldable pub is_used_register : Register → List MachineInstr → Bool
is_used_register r [] = false
is_used_register r (mi ∷ mis) = use_or (first_naming r 0 mi.operands) (is_used_register r mis)

-- isTied() and the number of explicit definitions are what LLVM says of an instruction.
pub record OperandInfo : Type 0 where
  pub is_tied : MachineInstr → ℕ → Bool
  pub num_explicit_defs : MachineInstr → ℕ

-- The operands behind the first n: `uses()`.
abbrev pub drop_operands : ℕ → List Operand → List Operand
drop_operands zero mos = mos
drop_operands (suc n) [] = []
drop_operands (suc n) (mo ∷ mos) = drop_operands n mos

abbrev pub any_names : Register → List Operand → Bool
any_names r [] = false
any_names r (mo ∷ mos) = names r mo || any_names r mos

abbrev pub reversed : List MachineInstr → List MachineInstr
reversed [] = []
reversed (mi ∷ mis) = reversed mis ++ mi ∷ []

-- MaxIdx, where -1 is none, and ArgObtain as the registers that are true.
pub record Found : Type 0 where
  pub max_idx : Option ℕ
  pub obtained : List ℕ

abbrev pub is_obtained : ℕ → List ℕ → Bool
is_obtained i [] = false
is_obtained i (j ∷ js) = same_register (phys j) (phys i) || is_obtained i js

-- if (MaxIdx < Idx) MaxIdx = Idx;
abbrev pub raise_max : Option ℕ → ℕ → Option ℕ
raise_max none idx = some idx
raise_max (some m) idx = if ltb m idx then some idx else some m

module _ (info : OperandInfo) where
  abbrev pub def_or : MachineInstr → Option (ℕ × Operand) → Bool → Bool
  def_or mi none rest = rest
  def_or mi (some (i, mo)) rest = if info.is_tied mi i then false else is_def mo

  abbrev pub defined_in : Register → List MachineInstr → Bool
  defined_in r [] = false
  defined_in r (mi ∷ mis) = def_or mi (first_naming r 0 mi.operands) (defined_in r mis)

  unfoldable pub is_defined_register : Register → BasicBlock → Bool
  is_defined_register r b = defined_in r (reversed b.instrs)

  -- Whether some instruction of the block uses the register.
  unfoldable pub uses_register : Register → List MachineInstr → Bool
  uses_register r [] = false
  uses_register r (mi ∷ mis) =
      any_names r (drop_operands (info.num_explicit_defs mi) mi.operands) || uses_register r mis

  -- The body of the loop over R0 to R3.
  unfoldable pub visit_register : BasicBlock → ℕ → Found → Found
  visit_register b i f =
      if not (is_obtained i f.obtained) && b.is_live_in (phys i)
      then record {
        max_idx = if uses_register (phys i) b.instrs then some i else f.max_idx;
        obtained = i ∷ f.obtained;
      }
      else f

  unfoldable pub visit_basic_block : BasicBlock → Found → Found
  visit_basic_block b f =
      visit_register b 3 (visit_register b 2 (visit_register b 1 (visit_register b 0 f)))

  unfoldable pub walk_blocks : List BasicBlock → Found → Found
  walk_blocks [] f = f
  walk_blocks (b ∷ bs) f = walk_blocks bs (visit_basic_block b f)

  -- ldr Rt, [r11, #imm] with imm from 0 on: the index of the argument on the stack. An immediate
  -- of this opcode has 12 bits, so that its conversion to int changes nothing.
  abbrev pub stack_operands : List Operand → Option ℕ
  stack_operands (rt ∷ reg q d ∷ imm (pos n) ∷ mos) =
      if same_register q r11 then some (n / 4 + 2) else none
  stack_operands _ = none

  abbrev pub stack_index : MachineInstr → Option ℕ
  stack_index mi = if is_ldr_i12 mi.opcode then stack_operands mi.operands else none

  abbrev pub raise_by : Option ℕ → Option ℕ → Option ℕ
  raise_by m none = m
  raise_by m (some idx) = raise_max m idx

  unfoldable pub stack_arguments : List MachineInstr → Option ℕ → Option ℕ
  stack_arguments [] m = m
  stack_arguments (mi ∷ mis) m = stack_arguments mis (raise_by m (stack_index mi))

  unfoldable pub all_stack_arguments : List BasicBlock → Option ℕ → Option ℕ
  all_stack_arguments [] m = m
  all_stack_arguments (b ∷ bs) m = all_stack_arguments bs (stack_arguments b.instrs m)

  -- The types are all getDefaultType(), so that the number of them says it all: MaxIdx + 1.
  abbrev pub count_to : Option ℕ → ℕ
  count_to none = 0
  count_to (some m) = suc m

  abbrev pub nothing_found : Found
  nothing_found = record { max_idx = none; obtained = [] }

  unfoldable pub gen_parameter_types : List BasicBlock → List BasicBlock → ℕ
  gen_parameter_types dfs mf =
      count_to (all_stack_arguments mf (walk_blocks dfs nothing_found).max_idx)

  -- Whether the return type is the default type, and not void.
  unfoldable pub gen_return_type : List BasicBlock → Bool
  gen_return_type [] = false
  gen_return_type (b ∷ bs) =
      if b.succ_empty && is_defined_register (phys 0) b then true else gen_return_type bs
