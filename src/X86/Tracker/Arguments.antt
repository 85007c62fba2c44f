-- ===== src/X86/Tracker/Arguments.antt =====
-- getInBlockRegOrArgDefVal of X86/X86RaisedValueTracker.cpp, and the arguments of a function in its
-- registers.
use llvm_mctoll.Base.{
  ℕ, suc, ◌+◌, ◌-◌, ◌≤◌, ◌≡◌, refl, ap, ◌==◌, ==_iff, ltb, if◌then◌else◌, Bool, true, false, ◌&&◌,
  ◌||◌, not, Option, none, some, List, [], ◌∷◌, arith, assert, get_elem?, Bool-cases, inl, inr,
  ◌>>=◌, ◌>>◌, sym, ◌∙◌, ◌⊎◌, All,
}
use mathlib.Core.Bool.{true≢false}
use llvm_mctoll.X86.Registers.{gpr64_arg_regs_64_bit, is_sse2_reg}
use llvm_mctoll.X86.Types.{IrType, X86Target, find_64_bit_super_reg}
use llvm_mctoll.X86.ArgTypes.{get_argument_number, sse_arg_regs_64_bit}
use llvm_mctoll.X86.Tracker.{
  RegDefs, find_def, is_int_or_ptr, is_floating_point, is_sse_vector, DefineArgs, unhandled_type,
  out_of_range, with_reg, define_args,
}

-- A block number with a value; `none` is INVALID_MBB with nullptr.
abbrev pub DefVal : Type 0
DefVal = Option (ℕ × ℕ)

-- The arguments that are not of a floating point type.
unfoldable pub count_other : List (ℕ × IrType) → ℕ
count_other [] = 0
count_other ((value, ty) ∷ args) =
    let rest = count_other args in if is_floating_point ty then rest else suc rest

-- The argument at a position, from 1; what was found before where there is none.
abbrev pub arg_at : Option (ℕ × IrType) → DefVal → DefVal
arg_at none before = before
arg_at (some (value, ty)) before = some (0, value)

module _ (t : X86Target) where
  abbrev pub from_arg : List (ℕ × IrType) → ℕ → DefVal → Option ℕ → DefVal
  from_arg args phys_reg before none = before
  from_arg args phys_reg before (some pos) =
      arg_at
        (get_elem? args ((if is_sse2_reg t.info phys_reg then pos + count_other args else pos) - 1))
        before

  abbrev pub def_in_block : ℕ → Option (ℕ × ℕ) → Option DefVal
  def_in_block mbb none = some none
  def_in_block mbb (some (size, value)) = do assert (not (size == 0)); some (some (mbb, value))

  abbrev pub has_value : DefVal → Bool
  has_value none = false
  has_value (some (mbb, value)) = not (value == 0)

  unfoldable pub get_in_block_reg_or_arg_def_val :
      RegDefs → List (ℕ × IrType) → ℕ → ℕ → Option DefVal
  get_in_block_reg_or_arg_def_val defs args phys_reg mbb = do
    super_reg ← find_64_bit_super_reg t phys_reg
    before ← def_in_block mbb (find_def defs super_reg mbb)
    some (
        if not (has_value before) && mbb == 0
        then from_arg args phys_reg before (get_argument_number t phys_reg)
        else before)

-- The arguments that take a general purpose register.
abbrev pub count_gp : List IrType → ℕ
count_gp [] = 0
count_gp (ty ∷ tys) = if is_int_or_ptr ty then suc (count_gp tys) else count_gp tys

-- A type of an argument that the constructor's loop has a register for.
abbrev pub IsHandled : IrType → Type 0
IsHandled ty = (is_int_or_ptr ty ≡ true) ⊎ ((is_floating_point ty || is_sse_vector ty) ≡ true)

-- The loop reads behind the end of a table; before that it may meet a type that is not handled.
pub data ReadsBehind (tys : List IrType) : DefineArgs → Type 0 where
  behind : ReadsBehind tys out_of_range
  unhandled : ¬ All IsHandled tys → ReadsBehind tys unhandled_type

ReadsBehind-tail :
    (ty : IrType) (tys : List IrType) (o : DefineArgs)
    → ReadsBehind tys o
    → ReadsBehind (ty ∷ tys) o
ReadsBehind-tail ty tys _ behind = behind
ReadsBehind-tail ty tys _ (unhandled n) = unhandled (λ h. n h.1)

with_reg-ReadsBehind :
    {A : Type 0} (tys : List IrType) (o : Option A) (k : A → DefineArgs)
    → ((a : A) → ReadsBehind tys (k a))
    → ReadsBehind tys (with_reg o k)
with_reg-ReadsBehind tys none k h = behind
with_reg-ReadsBehind tys (some a) k h = h a

with_reg-absent :
    {A : Type 0} (tys : List IrType) (o : Option A) (k : A → DefineArgs)
    → o ≡ none
    → ReadsBehind tys (with_reg o k)
with_reg-absent tys none k e = behind
with_reg-absent tys (some a) k e = cc

if-ReadsBehind :
    (tys : List IrType) (b : Bool) (x y : DefineArgs)
    → (b ≡ true → ReadsBehind tys x)
    → (b ≡ false → ReadsBehind tys y)
    → ReadsBehind tys (if b then x else y)
if-ReadsBehind tys true x y h k = h refl
if-ReadsBehind tys false x y h k = k refl

not_handled :
    (ty : IrType)
    → is_int_or_ptr ty ≡ false
    → (is_floating_point ty || is_sse_vector ty) ≡ false
    → ¬ IsHandled ty
not_handled ty f g (inl h) = true≢false (sym h ∙ f)
not_handled ty f g (inr h) = true≢false (sym h ∙ g)

gp_table_end : (gps : ℕ) → gps ≡ 6 → get_elem? gpr64_arg_regs_64_bit gps ≡ none
unfolding gpr64_arg_regs_64_bit
gp_table_end gps e = ap (get_elem? gpr64_arg_regs_64_bit) e

-- A function with more than six integer or pointer arguments: the constructor reads behind the end of
-- a table of argument registers, unless it stops before at a type that is not handled, which one of
-- the arguments then has.
pub define_args_out_of_range :
    (t : X86Target) (tys : List IrType) (gps sses : ℕ) (defs : RegDefs)
    → gps ≤ 6
    → 7 ≤ gps + count_gp tys
    → ReadsBehind tys (define_args t tys gps sses defs)
unfolding define_args gpr64_arg_regs_64_bit
define_args_out_of_range t [] gps sses defs h k = absurd (omega arith)
define_args_out_of_range t (ty ∷ tys) gps sses defs h k =
    if-ReadsBehind (ty ∷ tys) (is_int_or_ptr ty) _ _
      (λ int.
        let left : 7 ≤ gps + suc (count_gp tys) = rw int at k in
        if-ReadsBehind (ty ∷ tys) (ltb 6 gps) _ _ (λ l. absurd (ground arith))
          (λ l. elim (Bool-cases (gps == 6)) [
            | inl e ↦ with_reg-absent (ty ∷ tys) _ _ (gp_table_end gps ((==_iff gps 6).0 e))
            | inr n ↦ with_reg-ReadsBehind (ty ∷ tys) (get_elem? gpr64_arg_regs_64_bit gps) _ (λ r.
                ReadsBehind-tail ty tys _
                  (define_args_out_of_range t tys (suc gps) sses _ (ground arith) (omega arith)))
          ]))
      (λ other.
        let left : 7 ≤ gps + count_gp tys = rw other at k in
        if-ReadsBehind (ty ∷ tys) (is_floating_point ty || is_sse_vector ty) _ _
          (λ float.
            if-ReadsBehind (ty ∷ tys) (ltb 8 sses) _ _
              (λ l. ReadsBehind-tail ty tys _ (define_args_out_of_range t tys gps sses defs h left))
              (λ l. with_reg-ReadsBehind (ty ∷ tys) (get_elem? (sse_arg_regs_64_bit t) sses) _ (λ r.
                ReadsBehind-tail ty tys _
                  (define_args_out_of_range t tys gps (suc sses) _ h left))))
          (λ no. unhandled (λ all. not_handled ty other no all.0)))
