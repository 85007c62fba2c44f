-- ===== src/X86/ArgTypes/Alike.antt =====
-- Registers with the same argument number.
use mathlib.Core.Option.{some-injective}
use mathlib.Core.Path.{subst₂}
use llvm_mctoll.Base.{
  ℕ, zero, suc, ◌<◌, ◌≡◌, ◌≢◌, ◌⊎◌, refl, sym, ap, subst, ◌∙◌, true, false, some, List, [], ◌∷◌,
  ◌==◌, if◌then◌else◌, arith, inl, inr, map, get_elem?, ◌>>=◌, >>=_some,
}
use llvm_mctoll.X86.Registers.{
  PhysReg, ValueType, get_argument_reg, gpr64_arg_regs_64_bit, gpr64_arg_regs_32_bit,
  gpr64_arg_regs_16_bit, gpr64_arg_regs_8_bit, is_gp_reg,
}
use llvm_mctoll.X86.Arguments.{whole, bits, type_bits, get_argument_reg_cases}
use llvm_mctoll.X86.Instr.{mem}
use llvm_mctoll.X86.Types.{X86Target}
use llvm_mctoll.X86.ArgTypes.{place, number_of_place, get_argument_number, sse_arg_regs_64_bit}

place_get : (r : ℕ) (xs : List ℕ) (i : ℕ) → place r xs ≡ some i → get_elem? xs i ≡ some r
unfolding place ◌>>=◌
place_get r [] i h = cc
place_get r (x ∷ xs) zero h = ground (arith, >>=_some (place r xs) (λ (i : ℕ). some (suc i)) 0)
place_get r (x ∷ xs) (suc i) h =
    grind (arith, place_get r xs i, >>=_some (place r xs) (λ (j : ℕ). some (suc j)) (suc i))

map_get :
    {A : Type 0} (f : A → ℕ) (xs : List A) (i r : ℕ)
    → get_elem? (map f xs) i ≡ some r
    → (p : A) × (get_elem? xs i ≡ some p) × (f p ≡ r)
map_get f [] i r h = cc
map_get f (x ∷ xs) zero r h = (x, refl, some-injective _ _ h)
map_get f (x ∷ xs) (suc i) r h = map_get f xs i r h

counted_place :
    (r : ℕ) (xs : List ℕ) (n : ℕ)
    → number_of_place (place r xs) ≡ some n
    → (i : ℕ) × (n ≡ suc i) × (get_elem? xs i ≡ some r)
counted_place r xs n h =
    let (i, e, k) = >>=_some (place r xs) _ n h in
    (i, sym (some-injective _ _ k), place_get r xs i e)

-- A register that is the register of an argument of a type with as many bits.
abbrev pub IsArgOf : X86Target → ℕ → ℕ → ValueType → Type 0
IsArgOf t r n ty =
    (i : ℕ) × (n ≡ suc i) × (p : PhysReg) × (get_argument_reg i ty ≡ some p) × (t.number p ≡ r)

-- A general purpose register that has an argument number is the register of that argument.
pub data IsArg (t : X86Target) (r n : ℕ) : Type 0 where
  arg8 : IsArgOf t r n ValueType.int8_type → IsArg t r n
  arg16 : IsArgOf t r n ValueType.int16_type → IsArg t r n
  arg32 : IsArgOf t r n ValueType.int32_type → IsArg t r n
  arg64 : IsArgOf t r n ValueType.int64_type → IsArg t r n

IsArgOf-table :
    (t : X86Target) (r n : ℕ) (ty : ValueType) (xs : List PhysReg)
    → ((i : ℕ) → get_argument_reg i ty ≡ get_elem? xs i)
    → number_of_place (place r (map t.number xs)) ≡ some n
    → IsArgOf t r n ty
IsArgOf-table t r n ty xs same h =
    let (i, e, g) = counted_place r (map t.number xs) n h in
    let (p, k, m) = map_get t.number xs i r g in (i, e, p, same i ∙ k, m)

module _ (t : X86Target) (r n : ℕ) where
  from_table :
      (ty : ValueType) (xs : List PhysReg)
      → ((i : ℕ) → get_argument_reg i ty ≡ get_elem? xs i)
      → (IsArgOf t r n ty → IsArg t r n)
      → number_of_place (place r (map t.number xs)) ≡ some n
      → IsArg t r n
  from_table ty xs same make h = make (IsArgOf-table t r n ty xs same h)

  pub get_argument_number-IsArg :
      is_gp_reg t.info r ≡ true → get_argument_number t r ≡ some n → IsArg t r n
  unfolding get_argument_number is_gp_reg get_argument_reg
  get_argument_number-IsArg g h = ground (
    arith,
    from_table ValueType.int8_type gpr64_arg_regs_8_bit (λ i. refl) arg8,
    from_table ValueType.int16_type gpr64_arg_regs_16_bit (λ i. refl) arg16,
    from_table ValueType.int32_type gpr64_arg_regs_32_bit (λ i. refl) arg32,
    from_table ValueType.int64_type gpr64_arg_regs_64_bit (λ i. refl) arg64,
  )

-- LLVM's table: of two registers in one 64-bit register the narrower is a part of the wider.
abbrev pub HasParts : X86Target → Type 0
HasParts t =
    (p q : PhysReg)
    → whole p ≡ whole q
    → bits q < bits p
    → mem (t.number q) (t.sub_regs (t.number p)) ≡ true

abbrev of_bits : ℕ → ValueType
of_bits n =
    if n == 64
    then ValueType.int64_type
    else if n == 32
    then ValueType.int32_type
    else if n == 16
    then ValueType.int16_type
    else ValueType.int8_type

abbrev IsTyped : X86Target → ℕ → ℕ → ValueType → Type 0
IsTyped t r n ty = IsArgOf t r n ty × (ty ≢ ValueType.other_type) × (of_bits (type_bits ty) ≡ ty)

type_of_arg : (t : X86Target) (r n : ℕ) → IsArg t r n → (ty : ValueType) × IsTyped t r n ty
type_of_arg t r n (arg8 h) = (ValueType.int8_type, (h, λ e. cc, refl))
type_of_arg t r n (arg16 h) = (ValueType.int16_type, (h, λ e. cc, refl))
type_of_arg t r n (arg32 h) = (ValueType.int32_type, (h, λ e. cc, refl))
type_of_arg t r n (arg64 h) = (ValueType.int64_type, (h, λ e. cc, refl))

-- The 64-bit register of an argument, and the width of its register.
whole_of_arg :
    (i : ℕ) (ty : ValueType) (p : PhysReg)
    → ty ≢ ValueType.other_type
    → get_argument_reg i ty ≡ some p
    → (w : PhysReg) × (get_argument_reg i ValueType.int64_type ≡ some w)
      × (whole p ≡ w)
      × (bits p ≡ type_bits ty)
whole_of_arg i ty p h e = elim (get_argument_reg_cases i ty h) [
  | inl (_, r, w, g, b, k, wh) ↦
      let same = some-injective _ _ (sym e ∙ g) in (w, k, ap whole same ∙ wh, ap bits same ∙ b)
  | inr (_, g) ↦ cc
]

same_whole :
    (i : ℕ) (ty tz : ValueType) (p q : PhysReg)
    → ty ≢ ValueType.other_type
    → tz ≢ ValueType.other_type
    → get_argument_reg i ty ≡ some p
    → get_argument_reg i tz ≡ some q
    → (whole p ≡ whole q) × (bits p ≡ type_bits ty) × (bits q ≡ type_bits tz)
same_whole i ty tz p q h k e f =
    let (w, g, wp, bp) = whole_of_arg i ty p h e in
    let (v, g', wq, bq) = whole_of_arg i tz q k f in
    (wp ∙ some-injective _ _ (sym g ∙ g') ∙ sym wq, bp, bq)

-- Two registers of one number are the same, or one is a part of the other.
pub IsArg-related :
    (t : X86Target) (r s n : ℕ)
    → HasParts t
    → IsArg t r n
    → IsArg t s n
    → (r ≡ s) ⊎ (mem s (t.sub_regs r) ≡ true) ⊎ (mem r (t.sub_regs s) ≡ true)
IsArg-related t r s n parts hr hs =
    let (ty, ((i, e, p, g, m), ho, hb)) = type_of_arg t r n hr in
    let (tz, ((j, f, q, g', m'), ko, kb)) = type_of_arg t s n hs in
    let same : i ≡ j = omega arith in
    let g'' = subst (λ k. get_argument_reg k tz ≡ some q) (sym same) g' in
    let (wh, bp, bq) = same_whole i ty tz p q ho ko g g'' in
    elim (lt_cases (bits p) (bits q)) [
      | inl l ↦ inr (inr (subst₂ (λ x y. mem x (t.sub_regs y) ≡ true) m m' (parts q p (sym wh) l)))
      | inr (inl l) ↦ inr (inl (subst₂ (λ x y. mem x (t.sub_regs y) ≡ true) m' m (parts p q wh l)))
      | inr (inr l) ↦
          let types = sym hb ∙ ap of_bits (sym bp ∙ l ∙ bq) ∙ kb in
          let regs = some-injective _ _ (sym g ∙ ap (get_argument_reg i) types ∙ g'') in
          inl (sym m ∙ ap t.number regs ∙ m')
    ]
  where
    lt_cases : (a b : ℕ) → (a < b) ⊎ (b < a) ⊎ (a ≡ b)
    lt_cases a b = omega arith

sse_place :
    (t : X86Target) (r n : ℕ)
    → is_gp_reg t.info r ≡ false
    → get_argument_number t r ≡ some n
    → number_of_place (place r (sse_arg_regs_64_bit t)) ≡ some n
unfolding is_gp_reg get_argument_number
sse_place t r n g h = ground arith

-- Two registers that are no general purpose registers and have one number are the same.
pub sse_alike :
    (t : X86Target) (r s n : ℕ)
    → is_gp_reg t.info r ≡ false
    → is_gp_reg t.info s ≡ false
    → get_argument_number t r ≡ some n
    → get_argument_number t s ≡ some n
    → r ≡ s
sse_alike t r s n gr gs hr hs =
    let (i, e, g) = counted_place r (sse_arg_regs_64_bit t) n (sse_place t r n gr hr) in
    let (j, f, g') = counted_place s (sse_arg_regs_64_bit t) n (sse_place t s n gs hs) in
    let same : i ≡ j = omega arith in
    some-injective _ _ (sym g ∙ ap (get_elem? (sse_arg_regs_64_bit t)) same ∙ g')
