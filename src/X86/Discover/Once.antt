-- ===== src/X86/Discover/Once.antt =====
-- The maps of definitions have each register once, all through the walk over the blocks.
use llvm_mctoll.Base.{
  ℕ, suc, ◌≡◌, ◌⊎◌, refl, sym, ap, ◌∙◌, Bool, true, false, ◌||◌, Option, none, some, List, [], ◌∷◌,
  ◌==◌, ==_iff, if◌then◌else◌, arith, inl, inr, Bool-cases, Ensures, failed, done, Ensures-bind,
  Ensures-if, Ensures-some, ◌>>=◌,
}
use llvm_mctoll.X86.Types.{
  IrType, X86Target, void_type, float_type, double_type, pointer_type, int_type, vector_type,
  find_64_bit_super_reg,
}
use llvm_mctoll.X86.Registers.{get_phys_reg_size_in_bits, is_gp_reg, is_sse2_reg, get_argument_reg}
use llvm_mctoll.X86.Instr.{Operand, reg, imm, jump_table_index, other_operand}
use llvm_mctoll.X86.Discover.{
  find_key, put_key, Discovery, Callee, use_reg, define_reg, define_sized, visit_xor, visit_operand,
  visit_operands, use_args, ret_reg, define_ret, visit_callee, value_type,
}
use llvm_mctoll.X86.Discover.Union.{HasKeysOnce, find_key-put_key}

not_here :
    {A : Type 0} (r k : ℕ) (v : A) (o : Option A)
    → ((r == k) ≡ true) ⊎ ((r == k) ≡ false)
    → (k == r) ≡ false
    → o ≡ none
    → (if r == k then some v else o) ≡ none
not_here r k v o (inl e) n h = absurd (ground arith)
not_here r k v o (inr e) n h = rw e h

pub put_key-HasKeysOnce :
    {A : Type 0} (r : ℕ) (v : A) (m : List (ℕ × A)) → HasKeysOnce m → HasKeysOnce (put_key r v m)
unfolding find_key put_key
put_key-HasKeysOnce r v [] h = (refl, tt)
put_key-HasKeysOnce r v ((k, w) ∷ m) h = elim (Bool-cases (k == r)) [
  | inl e ↦ rw e (ap (λ z. find_key z m) (sym ((==_iff k r).0 e)) ∙ h.0, h.1)
  | inr n ↦ rw n (absent n, put_key-HasKeysOnce r v m h.1)
]
  where
    absent : (k == r) ≡ false → find_key k (put_key r v m) ≡ none
    absent n = find_key-put_key r k v m ∙ not_here r k v _ (Bool-cases (r == k)) n h.0

-- The definitions have each register once.
abbrev pub Once : Discovery → Type 0
Once s = HasKeysOnce s.mbb_def_regs

Once-if : (b : Bool) (x y : Discovery) → Once x → Once y → Once (if b then x else y)
Once-if true x y h k = h
Once-if false x y h k = k

module _ (t : X86Target) where
  pub use_reg-Once : (r : ℕ) (s : Discovery) → Once s → Ensures Once (use_reg t r s)
  unfolding use_reg
  use_reg-Once r s h = Ensures-bind (find_64_bit_super_reg t r) _ (λ q e. done (Once-if _ _ _ h h))

  define_reg-Once : (r n : ℕ) (s : Discovery) → Once s → Ensures Once (define_reg t r n s)
  unfolding define_reg
  define_reg-Once r n s h =
      Ensures-bind (find_64_bit_super_reg t r) _ (λ q e. done (put_key-HasKeysOnce q _ _ h))

  define_sized-Once : (r : ℕ) (s : Discovery) → Once s → Ensures Once (define_sized t r s)
  unfolding define_sized
  define_sized-Once r s h =
      Ensures-bind (get_phys_reg_size_in_bits t.info r) _ (λ n e. define_reg-Once r n s h)

  -- A step behind one that keeps it.
  pub then-Once :
      (m : Option Discovery) (f : Discovery → Option Discovery)
      → Ensures Once m
      → ((s : Discovery) → Once s → Ensures Once (f s))
      → Ensures Once (m >>= f)
  then-Once m f h k = Ensures-bind m f (λ s e. k s (Ensures-some h e))

  pub if-Once :
      (b : Bool) (x y : Option Discovery)
      → Ensures Once x
      → Ensures Once y
      → Ensures Once (if b then x else y)
  if-Once b x y h k = Ensures-if b x y h k

  pub visit_xor-Once :
      (ops : List Operand) (s : Discovery) → Once s → Ensures Once (visit_xor t ops s)
  visit_xor-Once (reg d a ∷ reg r1 a1 ∷ reg r2 a2 ∷ ops) s h =
      then-Once _ _
        (if-Once (r1 == r2) _ _ (done h)
          (then-Once (use_reg t r1 s) _ (use_reg-Once r1 s h) (λ s1 h1. use_reg-Once r2 s1 h1)))
        (λ s' h'. define_sized-Once d s' h')
  visit_xor-Once _ s h = failed

  visit_operand-Once :
      (defs : Bool) (op : Operand) (s : Discovery)
      → Once s
      → Ensures Once (visit_operand t defs op s)
  visit_operand-Once defs (reg r true) s h =
      if-Once (is_gp_reg t.info r || is_sse2_reg t.info r) _ _
        (if-Once defs _ _ (define_sized-Once r s h) (done h)) (done h)
  visit_operand-Once defs (reg r false) s h =
      if-Once (is_gp_reg t.info r || is_sse2_reg t.info r) _ _
        (if-Once defs _ _ (done h) (use_reg-Once r s h)) (done h)
  visit_operand-Once defs (imm n) s h = done h
  visit_operand-Once defs (jump_table_index n) s h = done h
  visit_operand-Once defs other_operand s h = done h

  pub visit_operands-Once :
      (defs : Bool) (ops : List Operand) (s : Discovery)
      → Once s
      → Ensures Once (visit_operands t defs ops s)
  unfolding visit_operands
  visit_operands-Once defs [] s h = done h
  visit_operands-Once defs (op ∷ ops) s h =
      then-Once (visit_operand t defs op s) _ (visit_operand-Once defs op s h)
        (λ s' h'. visit_operands-Once defs ops s' h')

  use_args-Once :
      (index : ℕ) (tys : List IrType) (s : Discovery)
      → Once s
      → Ensures Once (use_args t index tys s)
  unfolding use_args
  use_args-Once index [] s h = done h
  use_args-Once index (ty ∷ tys) s h =
      Ensures-bind (get_argument_reg index (value_type ty)) _ (λ r e.
        then-Once (use_reg t (t.number r) s) _ (use_reg-Once (t.number r) s h)
          (λ s' h'. use_args-Once (suc index) tys s' h'))

  define_ret-Once : (ty : IrType) (s : Discovery) → Once s → Ensures Once (define_ret t ty s)
  define_ret-Once void_type s h = done h
  define_ret-Once pointer_type s h =
      Ensures-bind (ret_reg t pointer_type) _ (λ r e. define_reg-Once r.0 r.1 s h)
  define_ret-Once float_type s h =
      Ensures-bind (ret_reg t float_type) _ (λ r e. define_reg-Once r.0 r.1 s h)
  define_ret-Once double_type s h =
      Ensures-bind (ret_reg t double_type) _ (λ r e. define_reg-Once r.0 r.1 s h)
  define_ret-Once (int_type n) s h =
      Ensures-bind (ret_reg t (int_type n)) _ (λ r e. define_reg-Once r.0 r.1 s h)
  define_ret-Once (vector_type ty n) s h =
      Ensures-bind (ret_reg t (vector_type ty n)) _ (λ r e. define_reg-Once r.0 r.1 s h)

  pub visit_callee-Once :
      (is_tail : Bool) (o : Option Callee) (s : Discovery)
      → Once s
      → Ensures Once (visit_callee t is_tail o s)
  unfolding visit_callee
  visit_callee-Once is_tail none s h = done h
  visit_callee-Once is_tail (some c) s h =
      then-Once (use_args t 0 c.arg_types s) _ (use_args-Once 0 c.arg_types s h) (λ s1 h1.
        then-Once (define_ret t c.ret_type s1) _ (define_ret-Once c.ret_type s1 h1)
          (λ s2 h2. done (Once-if is_tail _ _ h2 h2)))
