-- ===== src/Tests/X86Target.antt =====
-- A table of registers for the tests: the argument registers have the numbers of their codes, RAX and
-- its parts 30 to 33, XMM0 to XMM7 40 to 47.
use llvm_mctoll.Base.{
  ℕ, ◌+◌, ◌-◌, ◌≡◌, refl, Bool, ◌&&◌, ◌||◌, ◌==◌, leb, if◌then◌else◌, List, [], ◌∷◌,
}
use llvm_mctoll.X86.Registers.{RegisterInfo, PhysReg}
use llvm_mctoll.X86.Arguments.{bits}
use llvm_mctoll.X86.Types.{X86Target}
use llvm_mctoll.X86.ArgTypes.Numbers.{phys_code, IsEncoding}

abbrev between : ℕ → ℕ → ℕ → Bool
between low high r = leb low r && leb r high

abbrev register_table : RegisterInfo
register_table = record {
  num_target_regs = 100;
  fr32_contains = between 40 47;
  fr64_contains = between 40 47;
  gr64_contains = λ r. between 1 6 r || r == 30;
  gr32_contains = λ r. between 7 12 r || r == 31;
  gr16_contains = λ r. between 13 18 r || r == 32;
  gr8_contains = λ r. between 19 24 r || r == 33;
}

abbrev parts_of : ℕ → List ℕ
parts_of r =
    if between 1 6 r
    then (r + 6) ∷ (r + 12) ∷ (r + 18) ∷ []
    else if between 7 12 r
    then (r + 6) ∷ (r + 12) ∷ []
    else if between 13 18 r
    then (r + 6) ∷ []
    else if r == 30
    then 31 ∷ 32 ∷ 33 ∷ []
    else []

abbrev supers_of : ℕ → List ℕ
supers_of r =
    if between 7 12 r
    then (r - 6) ∷ []
    else if between 13 18 r
    then (r - 6) ∷ (r - 12) ∷ []
    else if between 19 24 r
    then (r - 6) ∷ (r - 12) ∷ (r - 18) ∷ []
    else if between 31 33 r
    then 30 ∷ []
    else []

abbrev pub test_target : X86Target
test_target = record {
  info = register_table;
  number = phys_code;
  xmm = λ i. 40 + i;
  rax = 30;
  eax = 31;
  ax = 32;
  al = 33;
  eflags = 60;
  fpsw = 61;
  fpcw = 62;
  sub_regs = parts_of;
  super_regs = supers_of;
  is_physical = leb 1;
}

gr64_of : (p : PhysReg) → register_table.gr64_contains (phys_code p) ≡ (bits p == 64)
gr64_of PhysReg.no_register = refl
gr64_of PhysReg.rdi = refl
gr64_of PhysReg.rsi = refl
gr64_of PhysReg.rdx = refl
gr64_of PhysReg.rcx = refl
gr64_of PhysReg.r8 = refl
gr64_of PhysReg.r9 = refl
gr64_of PhysReg.edi = refl
gr64_of PhysReg.esi = refl
gr64_of PhysReg.edx = refl
gr64_of PhysReg.ecx = refl
gr64_of PhysReg.r8d = refl
gr64_of PhysReg.r9d = refl
gr64_of PhysReg.di = refl
gr64_of PhysReg.si = refl
gr64_of PhysReg.dx = refl
gr64_of PhysReg.cx = refl
gr64_of PhysReg.r8w = refl
gr64_of PhysReg.r9w = refl
gr64_of PhysReg.dil = refl
gr64_of PhysReg.sil = refl
gr64_of PhysReg.dl = refl
gr64_of PhysReg.cl = refl
gr64_of PhysReg.r8b = refl
gr64_of PhysReg.r9b = refl

gr32_of : (p : PhysReg) → register_table.gr32_contains (phys_code p) ≡ (bits p == 32)
gr32_of PhysReg.no_register = refl
gr32_of PhysReg.rdi = refl
gr32_of PhysReg.rsi = refl
gr32_of PhysReg.rdx = refl
gr32_of PhysReg.rcx = refl
gr32_of PhysReg.r8 = refl
gr32_of PhysReg.r9 = refl
gr32_of PhysReg.edi = refl
gr32_of PhysReg.esi = refl
gr32_of PhysReg.edx = refl
gr32_of PhysReg.ecx = refl
gr32_of PhysReg.r8d = refl
gr32_of PhysReg.r9d = refl
gr32_of PhysReg.di = refl
gr32_of PhysReg.si = refl
gr32_of PhysReg.dx = refl
gr32_of PhysReg.cx = refl
gr32_of PhysReg.r8w = refl
gr32_of PhysReg.r9w = refl
gr32_of PhysReg.dil = refl
gr32_of PhysReg.sil = refl
gr32_of PhysReg.dl = refl
gr32_of PhysReg.cl = refl
gr32_of PhysReg.r8b = refl
gr32_of PhysReg.r9b = refl

gr16_of : (p : PhysReg) → register_table.gr16_contains (phys_code p) ≡ (bits p == 16)
gr16_of PhysReg.no_register = refl
gr16_of PhysReg.rdi = refl
gr16_of PhysReg.rsi = refl
gr16_of PhysReg.rdx = refl
gr16_of PhysReg.rcx = refl
gr16_of PhysReg.r8 = refl
gr16_of PhysReg.r9 = refl
gr16_of PhysReg.edi = refl
gr16_of PhysReg.esi = refl
gr16_of PhysReg.edx = refl
gr16_of PhysReg.ecx = refl
gr16_of PhysReg.r8d = refl
gr16_of PhysReg.r9d = refl
gr16_of PhysReg.di = refl
gr16_of PhysReg.si = refl
gr16_of PhysReg.dx = refl
gr16_of PhysReg.cx = refl
gr16_of PhysReg.r8w = refl
gr16_of PhysReg.r9w = refl
gr16_of PhysReg.dil = refl
gr16_of PhysReg.sil = refl
gr16_of PhysReg.dl = refl
gr16_of PhysReg.cl = refl
gr16_of PhysReg.r8b = refl
gr16_of PhysReg.r9b = refl

gr8_of : (p : PhysReg) → register_table.gr8_contains (phys_code p) ≡ (bits p == 8)
gr8_of PhysReg.no_register = refl
gr8_of PhysReg.rdi = refl
gr8_of PhysReg.rsi = refl
gr8_of PhysReg.rdx = refl
gr8_of PhysReg.rcx = refl
gr8_of PhysReg.r8 = refl
gr8_of PhysReg.r9 = refl
gr8_of PhysReg.edi = refl
gr8_of PhysReg.esi = refl
gr8_of PhysReg.edx = refl
gr8_of PhysReg.ecx = refl
gr8_of PhysReg.r8d = refl
gr8_of PhysReg.r9d = refl
gr8_of PhysReg.di = refl
gr8_of PhysReg.si = refl
gr8_of PhysReg.dx = refl
gr8_of PhysReg.cx = refl
gr8_of PhysReg.r8w = refl
gr8_of PhysReg.r9w = refl
gr8_of PhysReg.dil = refl
gr8_of PhysReg.sil = refl
gr8_of PhysReg.dl = refl
gr8_of PhysReg.cl = refl
gr8_of PhysReg.r8b = refl
gr8_of PhysReg.r9b = refl

pub test_target-IsEncoding : IsEncoding test_target
test_target-IsEncoding = record {
  distinct = λ p q e. e;
  gr64 = gr64_of;
  gr32 = gr32_of;
  gr16 = gr16_of;
  gr8 = gr8_of;
}
