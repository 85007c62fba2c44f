-- ===== src/X86/Registers.antt =====
-- X86/X86RegisterUtils.cpp and .h. A register is a number. The enumerators of LLVM's generated
-- table and its register classes are parameters; the argument registers are named.
use llvm_mctoll.Base.{
  ℕ, suc, ◌+◌, ◌%◌, ◌^◌, ◌==◌, ltb, leb, if◌then◌else◌, Bool, ◌&&◌, ◌||◌, Option, none, some, List,
  [], ◌∷◌, get_elem?,
}

-- X86MCRegisterClasses[...].contains, and X86::NUM_TARGET_REGS.
pub record RegisterInfo : Type 0 where
  pub num_target_regs : ℕ
  pub fr32_contains : ℕ → Bool
  pub fr64_contains : ℕ → Bool
  pub gr64_contains : ℕ → Bool
  pub gr32_contains : ℕ → Bool
  pub gr16_contains : ℕ → Bool
  pub gr8_contains : ℕ → Bool

-- The strings of getEflagName.
pub data EflagName : Type 0 where
  name_cf name_pf name_af name_zf name_sf name_of : EflagName

module _ (ri : RegisterInfo) where
  -- The enumerators of EFLAGS.
  abbrev pub cf : ℕ
  cf = ri.num_target_regs + 1

  abbrev pub pf : ℕ
  pf = ri.num_target_regs + 2

  abbrev pub af : ℕ
  af = ri.num_target_regs + 3

  abbrev pub zf : ℕ
  zf = ri.num_target_regs + 4

  abbrev pub sf : ℕ
  sf = ri.num_target_regs + 5

  abbrev pub of : ℕ
  of = ri.num_target_regs + 6

  abbrev pub undefined : ℕ
  undefined = ri.num_target_regs + 7

  -- The conversion to EFLAGBit, a uint16_t.
  abbrev pub eflag_bit : ℕ → ℕ
  eflag_bit n = n % 2 ^ 16

  -- EFlagBits
  unfoldable pub eflag_bits : List ℕ
  eflag_bits =
      eflag_bit cf ∷ eflag_bit pf ∷ eflag_bit af ∷ eflag_bit zf ∷ eflag_bit sf ∷ eflag_bit of ∷ []

  unfoldable pub is_eflag_bit : ℕ → Bool
  is_eflag_bit reg_no = leb cf reg_no && ltb reg_no undefined

  -- The loop of getEflagBitIndex.
  abbrev pub index_from : ℕ → ℕ → List ℕ → Option ℕ
  index_from ef_bit index [] = none
  index_from ef_bit index (v ∷ vs) =
      let rest = index_from ef_bit (suc index) vs in if v == ef_bit then some index else rest

  -- `none` is a failed assertion.
  unfoldable pub get_eflag_bit_index : ℕ → Option ℕ
  get_eflag_bit_index ef_bit = if is_eflag_bit ef_bit then index_from ef_bit 0 eflag_bits else none

  unfoldable pub get_eflag_name : ℕ → Option EflagName
  get_eflag_name ef_bit =
      if ef_bit == cf
      then some name_cf
      else if ef_bit == pf
      then some name_pf
      else if ef_bit == af
      then some name_af
      else if ef_bit == zf
      then some name_zf
      else if ef_bit == sf
      then some name_sf
      else if ef_bit == of
      then some name_of
      else none

  abbrev pub is_32_bit_sse2_reg : ℕ → Bool
  is_32_bit_sse2_reg p_reg = ri.fr32_contains p_reg

  abbrev pub is_64_bit_sse2_reg : ℕ → Bool
  is_64_bit_sse2_reg p_reg = ri.fr64_contains p_reg

  abbrev pub is_64_bit_phys_reg : ℕ → Bool
  is_64_bit_phys_reg p_reg = ri.gr64_contains p_reg

  abbrev pub is_32_bit_phys_reg : ℕ → Bool
  is_32_bit_phys_reg p_reg = ri.gr32_contains p_reg

  abbrev pub is_16_bit_phys_reg : ℕ → Bool
  is_16_bit_phys_reg p_reg = ri.gr16_contains p_reg

  abbrev pub is_8_bit_phys_reg : ℕ → Bool
  is_8_bit_phys_reg p_reg = ri.gr8_contains p_reg

  -- `none` is llvm_unreachable.
  unfoldable pub get_phys_reg_size_in_bits : ℕ → Option ℕ
  get_phys_reg_size_in_bits p_reg =
      if is_64_bit_phys_reg p_reg || is_64_bit_sse2_reg p_reg
      then some 64
      else if is_32_bit_phys_reg p_reg || is_32_bit_sse2_reg p_reg
      then some 32
      else if is_16_bit_phys_reg p_reg
      then some 16
      else if is_8_bit_phys_reg p_reg
      then some 8
      else if is_eflag_bit p_reg
      then some 1
      else none

  unfoldable pub is_sse2_reg : ℕ → Bool
  is_sse2_reg p_reg = is_32_bit_sse2_reg p_reg || is_64_bit_sse2_reg p_reg

  unfoldable pub is_gp_reg : ℕ → Bool
  is_gp_reg p_reg =
      is_8_bit_phys_reg p_reg
      || is_16_bit_phys_reg p_reg
      || is_32_bit_phys_reg p_reg
      || is_64_bit_phys_reg p_reg

-- The registers of the tables of argument registers; `no_register` is 0.
pub data PhysReg : Type 0 where
  rdi rsi rdx rcx r8 r9 : PhysReg
  edi esi edx ecx r8d r9d : PhysReg
  di si dx cx r8w r9w : PhysReg
  dil sil dl cl r8b r9b : PhysReg
  no_register : PhysReg

unfoldable pub gpr64_arg_regs_64_bit : List PhysReg
gpr64_arg_regs_64_bit = rdi ∷ rsi ∷ rdx ∷ rcx ∷ r8 ∷ r9 ∷ []

unfoldable pub gpr64_arg_regs_32_bit : List PhysReg
gpr64_arg_regs_32_bit = edi ∷ esi ∷ edx ∷ ecx ∷ r8d ∷ r9d ∷ []

unfoldable pub gpr64_arg_regs_16_bit : List PhysReg
gpr64_arg_regs_16_bit = di ∷ si ∷ dx ∷ cx ∷ r8w ∷ r9w ∷ []

unfoldable pub gpr64_arg_regs_8_bit : List PhysReg
gpr64_arg_regs_8_bit = dil ∷ sil ∷ dl ∷ cl ∷ r8b ∷ r9b ∷ []

-- The types that getArgumentReg tells apart.
pub data ValueType : Type 0 where
  int64_type int32_type int16_type int8_type pointer_type other_type : ValueType

-- `none` is an index out of the table, which is undefined behaviour.
unfoldable pub get_argument_reg : ℕ → ValueType → Option PhysReg
get_argument_reg index int64_type = get_elem? gpr64_arg_regs_64_bit index
get_argument_reg index pointer_type = get_elem? gpr64_arg_regs_64_bit index
get_argument_reg index int32_type = get_elem? gpr64_arg_regs_32_bit index
get_argument_reg index int16_type = get_elem? gpr64_arg_regs_16_bit index
get_argument_reg index int8_type = get_elem? gpr64_arg_regs_8_bit index
get_argument_reg index other_type = some no_register
