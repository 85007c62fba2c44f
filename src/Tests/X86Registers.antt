-- ===== src/Tests/X86Registers.antt =====
-- The X86 registers at concrete numbers.
use llvm_mctoll.Base.{◌<◌, ◌≤◌, ◌≡◌, ◌⊎◌, leb, ltb, ◌&&◌, none, some}
use llvm_mctoll.X86.Registers.{RegisterInfo, PhysReg, ValueType, get_argument_reg}
use llvm_mctoll.X86.Arguments.{whole, bits, type_bits, get_argument_reg_cases}

-- 287 registers, of which the numbers in a range are in a class.
abbrev register_info : RegisterInfo
register_info = record {
  num_target_regs = 287;
  fr32_contains = λ r. leb 200 r && ltb r 216;
  fr64_contains = λ r. leb 200 r && ltb r 216;
  gr64_contains = λ r. leb 40 r && ltb r 56;
  gr32_contains = λ r. leb 24 r && ltb r 40;
  gr16_contains = λ r. leb 16 r && ltb r 24;
  gr8_contains = λ r. leb 1 r && ltb r 16;
}

int16-ne : ValueType.int16_type ≡ ValueType.other_type → ⊥
int16-ne e = cc

get_argument_reg_cases_example :
    ((2 < 6)
      × (r : PhysReg) × (w : PhysReg) × (get_argument_reg 2 ValueType.int16_type ≡ some r)
      × (bits r ≡ type_bits ValueType.int16_type)
      × (get_argument_reg 2 ValueType.int64_type ≡ some w)
      × (whole r ≡ w))
    ⊎ ((6 ≤ 2) × (get_argument_reg 2 ValueType.int16_type ≡ none))
get_argument_reg_cases_example = get_argument_reg_cases 2 ValueType.int16_type int16-ne
