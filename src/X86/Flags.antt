-- ===== src/X86/Flags.antt =====
-- The flags as indices and as names, and the sizes of registers.
use llvm_mctoll.Base.{
  ℕ, zero, suc, ◌+◌, ◌-◌, ◌<◌, ◌≤◌, true, false, ◌||◌, none, some, ◌≡◌, ◌↔◌, sym, ◌∙◌, get_elem?,
  arith,
}
use mathlib.Core.Option.{some-injective}
use llvm_mctoll.X86.Registers.{
  RegisterInfo, eflag_bits, is_eflag_bit, get_eflag_bit_index, get_eflag_name,
  get_phys_reg_size_in_bits, is_sse2_reg, is_gp_reg, EflagName,
}

module _ (ri : RegisterInfo) (small : ri.num_target_regs + 7 < 65536) where
  abbrev flag : ℕ → ℕ
  flag i = ri.num_target_regs + 1 + i

  eflag_bits-flag : (i : ℕ) → i < 6 → get_elem? (eflag_bits ri) i ≡ some (flag i)
  unfolding eflag_bits
  eflag_bits-flag zero h = ground arith
  eflag_bits-flag (suc zero) h = ground arith
  eflag_bits-flag (suc (suc zero)) h = ground arith
  eflag_bits-flag (suc (suc (suc zero))) h = ground arith
  eflag_bits-flag (suc (suc (suc (suc zero)))) h = ground arith
  eflag_bits-flag (suc (suc (suc (suc (suc zero))))) h = ground arith
  eflag_bits-flag (suc (suc (suc (suc (suc (suc i)))))) h = absurd (omega arith)

  get_eflag_bit_index-flag : (i : ℕ) → i < 6 → get_eflag_bit_index ri (flag i) ≡ some i
  unfolding is_eflag_bit get_eflag_bit_index eflag_bits
  get_eflag_bit_index-flag zero h = ground arith
  get_eflag_bit_index-flag (suc zero) h = ground arith
  get_eflag_bit_index-flag (suc (suc zero)) h = ground arith
  get_eflag_bit_index-flag (suc (suc (suc zero))) h = ground arith
  get_eflag_bit_index-flag (suc (suc (suc (suc zero)))) h = ground arith
  get_eflag_bit_index-flag (suc (suc (suc (suc (suc zero))))) h = ground arith
  get_eflag_bit_index-flag (suc (suc (suc (suc (suc (suc i)))))) h = absurd (omega arith)

  is_eflag_bit-flag : (b : ℕ) → is_eflag_bit ri b ≡ true → (i : ℕ) × (i < 6) × (b ≡ flag i)
  unfolding is_eflag_bit
  is_eflag_bit-flag b h =
      let bounds : (ri.num_target_regs + 1 ≤ b) × (b < ri.num_target_regs + 7) = ground arith in
      (b - (ri.num_target_regs + 1), omega (arith, bounds.0, bounds.1), omega (arith, bounds.0))

  -- Where the numbers of the flags fit 16 bits, each flag has an index, which is below 6 and is the
  -- flag's place in EFlagBits.
  pub get_eflag_bit_index-eflag_bits :
      (b : ℕ)
      → is_eflag_bit ri b ≡ true
      → (i : ℕ) × (i < 6)
        × (get_eflag_bit_index ri b ≡ some i)
        × (get_elem? (eflag_bits ri) i ≡ some b)
  get_eflag_bit_index-eflag_bits b h =
      let (i, lt, e) = is_eflag_bit-flag b h in
      (i, lt, rw e (get_eflag_bit_index-flag i lt), rw e (eflag_bits-flag i lt))

  get_elem?-short : (i b : ℕ) → get_elem? (eflag_bits ri) i ≡ some b → i < 6
  unfolding eflag_bits
  get_elem?-short zero b h = omega arith
  get_elem?-short (suc zero) b h = omega arith
  get_elem?-short (suc (suc zero)) b h = omega arith
  get_elem?-short (suc (suc (suc zero))) b h = omega arith
  get_elem?-short (suc (suc (suc (suc zero)))) b h = omega arith
  get_elem?-short (suc (suc (suc (suc (suc zero))))) b h = omega arith
  get_elem?-short (suc (suc (suc (suc (suc (suc i)))))) b h = cc

  -- Where the numbers of the flags fit 16 bits, each place of EFlagBits holds a flag whose index is
  -- that place.
  pub eflag_bits-get_eflag_bit_index :
      (i b : ℕ)
      → get_elem? (eflag_bits ri) i ≡ some b
      → (is_eflag_bit ri b ≡ true) × (get_eflag_bit_index ri b ≡ some i)
  unfolding is_eflag_bit
  eflag_bits-get_eflag_bit_index i b h =
      let lt = get_elem?-short i b h in
      let e = some-injective _ _ (sym (eflag_bits-flag i lt) ∙ h) in
      rw (← e) (ground arith, get_eflag_bit_index-flag i lt)

module _ (ri : RegisterInfo) where
  -- getEflagName names exactly the numbers that isEflagBit accepts, and tells them apart: two
  -- numbers with one name are one flag.
  pub get_eflag_name_iff : (b : ℕ) → (is_eflag_bit ri b ≡ false) ↔ (get_eflag_name ri b ≡ none)
  unfolding is_eflag_bit get_eflag_name
  get_eflag_name_iff b = ground arith

  pub get_eflag_name_injective :
      (b c : ℕ) (n : EflagName)
      → get_eflag_name ri b ≡ some n
      → get_eflag_name ri c ≡ some n
      → b ≡ c
  unfolding get_eflag_name
  get_eflag_name_injective b c n h k = ground arith

  -- A register has no size, which is unreachable code, if and only if it is no general register, no
  -- SSE2 register and no flag.
  pub get_phys_reg_size_in_bits-none :
      (r : ℕ)
      → (get_phys_reg_size_in_bits ri r ≡ none)
        ↔ ((is_gp_reg ri r || is_sse2_reg ri r || is_eflag_bit ri r) ≡ false)
  unfolding get_phys_reg_size_in_bits is_gp_reg is_sse2_reg
  get_phys_reg_size_in_bits-none r = ground arith
