-- ===== src/Tests/X86Parts.antt =====
-- The parts of the registers of the table for the tests.
use llvm_mctoll.Base.{ℕ, ◌+◌, ◌<◌, ◌≤◌, ◌≡◌, refl, sym, ap, subst, true, arith}
use llvm_mctoll.X86.Registers.{PhysReg}
use llvm_mctoll.X86.Arguments.{whole, bits}
use llvm_mctoll.X86.Instr.{mem}
use llvm_mctoll.X86.ArgTypes.Numbers.{phys_code}
use llvm_mctoll.X86.ArgTypes.Alike.{HasParts}
use llvm_mctoll.X86.LiveIns.Antichain.{IsTable}
use llvm_mctoll.Tests.X86Target.{test_target}

-- The 64-bit register and the width of a code, 0 for 64 bits and 3 for 8.
pub data Placed (code family width : ℕ) : Type 0 where
  nothing : family ≡ 0 → width ≡ 0 → Placed code family width
  wide : 1 ≤ family → family ≤ 6 → code ≡ family → width ≡ 64 → Placed code family width
  half : 1 ≤ family → family ≤ 6 → code ≡ family + 6 → width ≡ 32 → Placed code family width
  quarter : 1 ≤ family → family ≤ 6 → code ≡ family + 12 → width ≡ 16 → Placed code family width
  byte : 1 ≤ family → family ≤ 6 → code ≡ family + 18 → width ≡ 8 → Placed code family width

placed : (p : PhysReg) → Placed (phys_code p) (phys_code (whole p)) (bits p)
placed PhysReg.no_register = nothing refl refl
placed PhysReg.rdi = wide (omega arith) (omega arith) refl refl
placed PhysReg.rsi = wide (omega arith) (omega arith) refl refl
placed PhysReg.rdx = wide (omega arith) (omega arith) refl refl
placed PhysReg.rcx = wide (omega arith) (omega arith) refl refl
placed PhysReg.r8 = wide (omega arith) (omega arith) refl refl
placed PhysReg.r9 = wide (omega arith) (omega arith) refl refl
placed PhysReg.edi = half (omega arith) (omega arith) refl refl
placed PhysReg.esi = half (omega arith) (omega arith) refl refl
placed PhysReg.edx = half (omega arith) (omega arith) refl refl
placed PhysReg.ecx = half (omega arith) (omega arith) refl refl
placed PhysReg.r8d = half (omega arith) (omega arith) refl refl
placed PhysReg.r9d = half (omega arith) (omega arith) refl refl
placed PhysReg.di = quarter (omega arith) (omega arith) refl refl
placed PhysReg.si = quarter (omega arith) (omega arith) refl refl
placed PhysReg.dx = quarter (omega arith) (omega arith) refl refl
placed PhysReg.cx = quarter (omega arith) (omega arith) refl refl
placed PhysReg.r8w = quarter (omega arith) (omega arith) refl refl
placed PhysReg.r9w = quarter (omega arith) (omega arith) refl refl
placed PhysReg.dil = byte (omega arith) (omega arith) refl refl
placed PhysReg.sil = byte (omega arith) (omega arith) refl refl
placed PhysReg.dl = byte (omega arith) (omega arith) refl refl
placed PhysReg.cl = byte (omega arith) (omega arith) refl refl
placed PhysReg.r8b = byte (omega arith) (omega arith) refl refl
placed PhysReg.r9b = byte (omega arith) (omega arith) refl refl

parts_of_codes :
    (c d f w v : ℕ) → Placed c f w → Placed d f v → v < w → mem d (test_target.sub_regs c) ≡ true
unfolding mem
parts_of_codes c d f w v h k l = ground arith

pub test_target-HasParts : HasParts test_target
test_target-HasParts p q w l =
    let at_q = subst (λ f. Placed (phys_code q) f (bits q)) (ap phys_code (sym w)) (placed q) in
    parts_of_codes (phys_code p) (phys_code q) (phys_code (whole p)) (bits p) (bits q) (placed p)
      at_q l

mem_irreflexive : (r : ℕ) → mem r (test_target.sub_regs r) ≡ true → ⊥
unfolding mem
mem_irreflexive r h = ground arith

mem_transitive :
    (r q p : ℕ)
    → mem q (test_target.sub_regs r) ≡ true
    → mem p (test_target.sub_regs q) ≡ true
    → mem p (test_target.sub_regs r) ≡ true
unfolding mem
mem_transitive r q p h k = ground arith

mem_converse :
    (r q : ℕ) → mem r (test_target.sub_regs q) ≡ true → mem q (test_target.super_regs r) ≡ true
unfolding mem
mem_converse r q h = ground arith

mem_converse_super :
    (r q : ℕ) → mem q (test_target.super_regs r) ≡ true → mem r (test_target.sub_regs q) ≡ true
unfolding mem
mem_converse_super r q h = ground arith

pub test_target-IsTable : IsTable test_target
test_target-IsTable = record {
  irreflexive = mem_irreflexive;
  transitive = mem_transitive;
  converse = mem_converse;
  converse_super = mem_converse_super;
}
