-- ===== src/Arm/Prolog/Removed.antt =====
-- Which instructions eliminateProlog and eliminateEpilog take out of a block.
use llvm_mctoll.Base.{◌≡◌, List, [], ◌∷◌, Ensures}
use llvm_mctoll.Arm.Target.{Register, MachineInstr, Target}
use llvm_mctoll.Arm.Prolog.Spill.{SpillTarget, saved_registers}
use llvm_mctoll.Arm.Prolog.Patterns.{IsProlog}
use llvm_mctoll.Arm.Prolog.Eliminate.{MachineFunction, Counted, erase_counted, listed}

-- A block parted into the instructions that stay and those that meet `P`, both in their order.
pub data Parted (P : MachineInstr → Type 0)
    : List MachineInstr → List MachineInstr → List MachineInstr → Type 0 where
  nothing_left : Parted P [] [] []
  kept :
      {mi : MachineInstr} {mis stay go : List MachineInstr}
      → ¬ P mi
      → Parted P mis stay go
      → Parted P (mi ∷ mis) (mi ∷ stay) go
  removed :
      {mi : MachineInstr} {mis stay go : List MachineInstr}
      → P mi
      → Parted P mis stay go
      → Parted P (mi ∷ mis) stay (mi ∷ go)

module _ (t : Target) (st : SpillTarget) (fp : Register) where
  abbrev Stays : List MachineInstr → List Counted → List MachineInstr → Type 0
  Stays mis cs stay = Parted (IsProlog t fp) mis stay (listed cs)

  abbrev ErasedAs : List MachineInstr → List Counted → Type 0
  ErasedAs mis cs =
      ((stay : List MachineInstr) × Stays mis cs stay) × Ensures (Stays mis cs) (erase_counted cs)

  -- What eliminateProlog makes of a function with the blocks `front ∷ rest`: the instructions `go` of
  -- the prolog leave the front block, or the function is left as it is, where the target assigns no
  -- slots and no store among them saves a register.
  pub data PrologOf (mf : MachineFunction) (front : List MachineInstr)
      (rest : List (List MachineInstr)) : MachineFunction → Type 0 where
    eliminated :
        {mf' : MachineFunction} {stay go : List MachineInstr}
        → Parted (IsProlog t fp) front stay go
        → mf'.blocks ≡ stay ∷ rest
        → mf'.stack_size ≡ mf.stack_size
        → mf'.offset_adjustment ≡ mf.offset_adjustment
        → PrologOf mf front rest mf'
    early_exit :
        {stay go : List MachineInstr}
        → Parted (IsProlog t fp) front stay go
        → saved_registers t st.callee_saved_regs go ≡ []
        → PrologOf mf front rest mf
