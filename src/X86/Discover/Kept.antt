-- ===== src/X86/Discover/Kept.antt =====
-- The maps of definitions that the walk over the blocks keeps.
use llvm_mctoll.Base.{
  ℕ, Bool, true, false, ◌||◌, not, Option, none, some, List, [], ◌∷◌, ◌==◌, ltb, inl, inr,
  Bool-cases, Ensures, failed, done, Ensures-bind, Ensures-some, get_elem?, assert,
}
use llvm_mctoll.X86.Types.{X86Target}
use llvm_mctoll.X86.Instr.{MachineInstr, MachineBasicBlock}
use llvm_mctoll.X86.Discover.{
  find_key, put_key, keep_larger, add_defs, defs_or_none, union_of_preds, Discovery, Callee,
  is_undefined, is_direct, is_xor,
}
use llvm_mctoll.X86.Discover.Union.{HasKeysOnce, find_key-put_key, AllOnce}
use llvm_mctoll.X86.Discover.Blocks.{
  Walk, is_tail_call, call_by, visit_call, visit_other, visit_instr, visit_instrs, discover_block,
  discover_blocks, has_good_end,
}
use llvm_mctoll.X86.Discover.Once.{
  Once, put_key-HasKeysOnce, then-Once, if-Once, visit_xor-Once, visit_operands-Once,
  visit_callee-Once,
}

keep_larger-HasKeysOnce :
    (r n : ℕ) (defs : List (ℕ × ℕ)) (o : Option ℕ)
    → HasKeysOnce defs
    → HasKeysOnce (keep_larger r n defs o)
keep_larger-HasKeysOnce r n defs none h = put_key-HasKeysOnce r n defs h
keep_larger-HasKeysOnce r n defs (some k) h = elim (Bool-cases (ltb k n)) [
  | inl e ↦ rw e (put_key-HasKeysOnce r n defs h)
  | inr e ↦ rw e h
]

add_defs-HasKeysOnce :
    (pred defs : List (ℕ × ℕ)) → HasKeysOnce defs → HasKeysOnce (add_defs pred defs)
unfolding add_defs
add_defs-HasKeysOnce [] defs h = h
add_defs-HasKeysOnce ((r, n) ∷ pred) defs h =
    add_defs-HasKeysOnce pred _ (keep_larger-HasKeysOnce r n defs (find_key r defs) h)

union_of_preds-HasKeysOnce :
    (per_mbb : List (ℕ × List (ℕ × ℕ))) (ps : List ℕ) (defs : List (ℕ × ℕ))
    → HasKeysOnce defs
    → HasKeysOnce (union_of_preds per_mbb ps defs)
unfolding union_of_preds
union_of_preds-HasKeysOnce per_mbb [] defs h = h
union_of_preds-HasKeysOnce per_mbb (p ∷ ps) defs h =
    union_of_preds-HasKeysOnce per_mbb ps _
      (add_defs-HasKeysOnce (defs_or_none (find_key p per_mbb)) defs h)

put_key-AllOnce :
    (n : ℕ) (defs : List (ℕ × ℕ)) (per_mbb : List (ℕ × List (ℕ × ℕ)))
    → HasKeysOnce defs
    → AllOnce per_mbb
    → AllOnce (put_key n defs per_mbb)
put_key-AllOnce n defs per_mbb h k p = elim (Bool-cases (n == p)) [
  | inl e ↦ rw (find_key-put_key n p defs per_mbb, e) h
  | inr e ↦ rw (find_key-put_key n p defs per_mbb, e) (k p)
]

module _ (t : X86Target) (get_called_function : MachineInstr → Option (Option Callee))
    (branch_target : MachineInstr → Option (Option ℕ)) where
  call_by-Once :
      (i : MachineInstr) (is_tail : Bool) (o : Option Bool) (s : Discovery)
      → Once s
      → Ensures Once (call_by t get_called_function branch_target i is_tail o s)
  call_by-Once i is_tail none s h = failed
  call_by-Once i is_tail (some false) s h = done h
  call_by-Once i is_tail (some true) s h =
      Ensures-bind (get_called_function i) _ (λ o e. visit_callee-Once t is_tail o s h)

  visit_instr-Once :
      (i : MachineInstr) (rest : List MachineInstr) (s : Discovery)
      → Once s
      → Ensures Once (visit_instr t get_called_function branch_target i rest s)
  unfolding visit_instr visit_call visit_other
  visit_instr-Once i rest s h = if-Once t (is_xor i.opcode) _ _ (visit_xor-Once t i.operands s h) (
      if-Once t (i.is_call || i.is_unconditional_branch) _ _
        (Ensures-bind (is_tail_call t get_called_function branch_target i rest) _ (λ is_tail e.
          if-Once t (i.is_call || is_tail) _ _ (call_by-Once i is_tail (is_direct i.opcode) s h)
            (done h)))
        (then-Once t _ _ (visit_operands-Once t false i.operands s h)
          (λ s' h'. visit_operands-Once t true i.operands s' h')))

  visit_instrs-Once :
      (is : List MachineInstr) (s : Discovery)
      → Once s
      → Ensures Once (visit_instrs t get_called_function branch_target is s)
  unfolding visit_instrs
  visit_instrs-Once [] s h = done h
  visit_instrs-Once (i ∷ is) s h =
      then-Once t _ _ (visit_instr-Once i is s h) (λ s' h'. visit_instrs-Once is s' h')

  abbrev pub KeepsOnce : Walk → Type 0
  KeepsOnce w = AllOnce w.per_mbb

  discover_block-KeepsOnce :
      (n : ℕ) (primary : Bool) (is : List MachineInstr) (preds : List ℕ) (w : Walk)
      → KeepsOnce w
      → Ensures KeepsOnce (discover_block t get_called_function branch_target n primary is preds w)
  discover_block-KeepsOnce n primary [] preds w h = done h
  discover_block-KeepsOnce n primary (i ∷ is) preds w h =
      Ensures-bind (assert (has_good_end (i ∷ is))) _ (λ u e.
        Ensures-bind (visit_instrs t get_called_function branch_target (i ∷ is) _) _ (λ s se.
          Ensures-bind (assert (is_undefined (find_key n w.per_mbb) || not primary)) _ (λ v ve.
            done (
              put_key-AllOnce n s.mbb_def_regs w.per_mbb
                (Ensures-some
                  (visit_instrs-Once (i ∷ is) _ (union_of_preds-HasKeysOnce w.per_mbb preds [] tt))
                  se)
                h))))

  -- Where the walk over the blocks returns, each map of a visited block has each register once, if
  -- this was so before.
  pub discover_blocks-KeepsOnce :
      (mbbs : List MachineBasicBlock) (order : List (ℕ × Bool)) (w : Walk)
      → KeepsOnce w
      → Ensures KeepsOnce (discover_blocks t get_called_function branch_target mbbs order w)
  unfolding discover_blocks
  discover_blocks-KeepsOnce mbbs [] w h = done h
  discover_blocks-KeepsOnce mbbs ((n, primary) ∷ order) w h =
      Ensures-bind (get_elem? mbbs n) _ (λ mbb e.
        Ensures-bind
          (discover_block t get_called_function branch_target n primary mbb.instrs mbb.predecessors
            w)
          _
          (λ w' we.
            discover_blocks-KeepsOnce mbbs order w' (
              Ensures-some (discover_block-KeepsOnce n primary mbb.instrs mbb.predecessors w h)
                we)))
