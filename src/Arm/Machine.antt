-- ===== src/Arm/Machine.antt =====
-- An abstract ARM register machine, against which the rewriting passes are judged. Values and the
-- effect of each opcode are parameters: an instruction that begins with a definition puts the
-- value of its opcode at its other operands into that register.
use mathlib.Core.Logic.{ite, if_pos, if_neg}
use llvm_mctoll.Base.{◌≡◌, ◌≢◌, true, List, [], ◌∷◌, ℕ_discrete, refl}
use llvm_mctoll.Base.Int.{ℤ}
use llvm_mctoll.Arm.Opcode.{Opcode}
use llvm_mctoll.Arm.Target.{Register, Operand, reg, imm, frame_index, metadata, MachineInstr}

pub record Machine : Type 1 where
  pub Value : Type 0
  pub interp : Opcode → List Value → Value
  pub const : ℤ → Value
  pub frame : ℤ → Value

pub Register-discrete : Discrete Register
Register-discrete = hlevel ℕ_discrete

module _ (m : Machine) where
  open m use {Value, interp, const, frame}

  abbrev pub RegFile : Type 0
  RegFile = Register → Value

  unfoldable pub set_reg : RegFile → Register → Value → RegFile
  set_reg rf r x q = ite (Register-discrete r q) x (rf q)

  pub set_reg_self : (rf : RegFile) (r : Register) (x : Value) → set_reg rf r x r ≡ x
  unfolding set_reg
  set_reg_self rf r x = elim (Register-discrete r r) [
    | yes e ↦ rw (if_pos _ e)
    | no n ↦ absurd (n refl)
  ]

  pub set_reg_ne : (rf : RegFile) (r q : Register) (x : Value) → r ≢ q → set_reg rf r x q ≡ rf q
  unfolding set_reg
  set_reg_ne rf r q x h = rw (if_neg (Register-discrete r q) h)

  -- The values of the operands that are read. Metadata has none.
  abbrev pub read : RegFile → List Operand → List Value
  read rf [] = []
  read rf (reg r d ∷ mos) = rf r ∷ read rf mos
  read rf (imm z ∷ mos) = const z ∷ read rf mos
  read rf (frame_index i ∷ mos) = frame i ∷ read rf mos
  read rf (metadata n ∷ mos) = read rf mos

  abbrev pub exec_operands : RegFile → Opcode → List Operand → RegFile
  exec_operands rf opc (reg r true ∷ mos) = set_reg rf r (interp opc (read rf mos))
  exec_operands rf opc _ = rf

  abbrev pub exec : RegFile → MachineInstr → RegFile
  exec rf mi = exec_operands rf mi.opcode mi.operands

  abbrev pub exec_all : RegFile → List MachineInstr → RegFile
  exec_all rf [] = rf
  exec_all rf (mi ∷ mis) = exec_all (exec rf mi) mis

  -- An assignment to another register goes by the name of what it assigns.
  pub set_reg-cong :
      (rf rf' : RegFile) (r q : Register) (x : Value)
      → (r ≢ q → rf q ≡ rf' q)
      → set_reg rf r x q ≡ set_reg rf' r x q
  unfolding set_reg
  set_reg-cong rf rf' r q x h = elim (Register-discrete r q) [
    | yes e ↦ rw (if_pos _ e, if_pos _ e)
    | no n ↦ rw (if_neg _ n, if_neg _ n) (h n)
  ]
