-- ===== src/Arm/Prolog/Whole.antt =====
-- ARMEliminatePrologEpilog::eliminate as a whole.
use llvm_mctoll.Base.{ℕ, ◌≡◌, Bool, false, List}
use llvm_mctoll.Arm.Target.{Register, MachineInstr, Target}
use llvm_mctoll.Arm.Prolog.Spill.{SpillTarget}
use llvm_mctoll.Arm.Prolog.Eliminate.{MachineFunction, analyze_stack_size, analyze_frame_adjustment}
use llvm_mctoll.Arm.Prolog.Removed.{PrologOf}
use llvm_mctoll.Arm.Prolog.Returns.{EpilogsOf}

module _ (t : Target) (st : SpillTarget) (num_explicit_operands : MachineInstr → ℕ)
    (fp : Register) where
  -- The function with the sizes that the two analyses find.
  abbrev pub analyzed : MachineFunction → MachineFunction
  analyzed mf = analyze_frame_adjustment (analyze_stack_size mf)

  -- The prolog leaves the front block of the analyzed function, and then the epilogs all blocks. The
  -- pass says false.
  pub data Eliminated (mf : MachineFunction) (front : List MachineInstr)
      (rest : List (List MachineInstr)) : MachineFunction × Bool → Type 0 where
    eliminated :
        {between mf' : MachineFunction}
        → PrologOf t st fp (analyzed mf) front rest between
        → EpilogsOf t num_explicit_operands fp between.blocks mf'.blocks
        → mf'.stack_size ≡ between.stack_size
        → mf'.offset_adjustment ≡ between.offset_adjustment
        → Eliminated mf front rest (mf', false)
