-- ===== src/Arm/Prototype/Parameters.antt =====
-- How many parameters genParameterTypes finds.
use llvm_mctoll.Base.{
  ℕ, zero, suc, ◌<◌, ◌≤◌, true, ◌≡◌, refl, ap, ◌∙◌, Option, none, some, List, [], ◌∷◌, All,
  get_elem?, arith, ◌==◌,
}
use mathlib.Core.Option.{some-injective}
use llvm_mctoll.Arm.Target.{phys, MachineInstr}
use llvm_mctoll.Arm.Prototype.Discover.{
  BasicBlock, OperandInfo, raise_max, raise_by, stack_index, stack_arguments, all_stack_arguments,
  count_to, gen_parameter_types, walk_blocks, visit_basic_block, visit_register, uses_register,
  nothing_found,
}

module _ (info : OperandInfo) where
  raise_max-count_to :
      (m : Option ℕ) (idx : ℕ)
      → (count_to info m ≤ count_to info (raise_max m idx))
        × (idx < count_to info (raise_max m idx))
  raise_max-count_to none idx = (omega arith, omega arith)
  raise_max-count_to (some m) idx = ground arith

  raise_by-count_to : (m x : Option ℕ) → count_to info m ≤ count_to info (raise_by info m x)
  raise_by-count_to m none = omega arith
  raise_by-count_to m (some idx) = (raise_max-count_to m idx).0

  stack_arguments-count_to :
      (mis : List MachineInstr) (m : Option ℕ)
      → count_to info m ≤ count_to info (stack_arguments info mis m)
  unfolding stack_arguments
  stack_arguments-count_to [] m = omega arith
  stack_arguments-count_to (mi ∷ mis) m = omega (
    arith,
    raise_by-count_to m (stack_index info mi),
    stack_arguments-count_to mis (raise_by info m (stack_index info mi)),
  )

  all_stack_arguments-count_to :
      (bs : List BasicBlock) (m : Option ℕ)
      → count_to info m ≤ count_to info (all_stack_arguments info bs m)
  unfolding all_stack_arguments
  all_stack_arguments-count_to [] m = omega arith
  all_stack_arguments-count_to (b ∷ bs) m = omega (
    arith,
    stack_arguments-count_to b.instrs m,
    all_stack_arguments-count_to bs (stack_arguments info b.instrs m),
  )

  stack_arguments-get_elem? :
      (mis : List MachineInstr) (m : Option ℕ) (j idx : ℕ) (mi : MachineInstr)
      → get_elem? mis j ≡ some mi
      → stack_index info mi ≡ some idx
      → idx < count_to info (stack_arguments info mis m)
  unfolding stack_arguments
  stack_arguments-get_elem? [] m j idx mi e h = cc
  stack_arguments-get_elem? (x ∷ mis) m zero idx mi e h =
      let here : stack_index info x ≡ some idx = ap (stack_index info) (some-injective _ _ e) ∙ h in
      let raised : idx < count_to info (raise_by info m (stack_index info x)) =
        rw here (raise_max-count_to m idx).1 in
      omega (arith, raised, stack_arguments-count_to mis (raise_by info m (stack_index info x)))
  stack_arguments-get_elem? (x ∷ mis) m (suc j) idx mi e h =
      stack_arguments-get_elem? mis _ j idx mi e h

  all_stack_arguments-get_elem? :
      (bs : List BasicBlock) (m : Option ℕ) (i j idx : ℕ) (b : BasicBlock) (mi : MachineInstr)
      → get_elem? bs i ≡ some b
      → get_elem? b.instrs j ≡ some mi
      → stack_index info mi ≡ some idx
      → idx < count_to info (all_stack_arguments info bs m)
  unfolding all_stack_arguments
  all_stack_arguments-get_elem? [] m i j idx b mi e f h = cc
  all_stack_arguments-get_elem? (x ∷ bs) m zero j idx b mi e f h =
      let here : get_elem? x.instrs j ≡ some mi =
        ap (λ y. get_elem? y.instrs j) (some-injective _ _ e) ∙ f in
      let found = stack_arguments-get_elem? x.instrs m j idx mi here h in
      omega (arith, found, all_stack_arguments-count_to bs (stack_arguments info x.instrs m))
  all_stack_arguments-get_elem? (x ∷ bs) m (suc i) j idx b mi e f h =
      all_stack_arguments-get_elem? bs _ i j idx b mi e f h

  -- Each load of an argument from the stack, ldr Rt, [r11, #imm] with imm from 0 on, has a parameter:
  -- its index is below the number of parameters.
  pub gen_parameter_types-stack_index :
      (dfs mf : List BasicBlock) (i j idx : ℕ) (b : BasicBlock) (mi : MachineInstr)
      → get_elem? mf i ≡ some b
      → get_elem? b.instrs j ≡ some mi
      → stack_index info mi ≡ some idx
      → idx < gen_parameter_types info dfs mf
  unfolding gen_parameter_types
  gen_parameter_types-stack_index dfs mf i j idx b mi e f h =
      all_stack_arguments-get_elem? mf _ i j idx b mi e f h

  no_stack_arguments :
      (mis : List MachineInstr) (m : Option ℕ)
      → All (λ mi. stack_index info mi ≡ none) mis
      → stack_arguments info mis m ≡ m
  unfolding stack_arguments
  no_stack_arguments [] m h = refl
  no_stack_arguments (mi ∷ mis) m h = rw h.0 (no_stack_arguments mis m h.1)

  none_on_stack :
      (bs : List BasicBlock) (m : Option ℕ)
      → All (λ b. All (λ mi. stack_index info mi ≡ none) b.instrs) bs
      → all_stack_arguments info bs m ≡ m
  unfolding all_stack_arguments
  none_on_stack [] m h = refl
  none_on_stack (b ∷ bs) m h = rw (no_stack_arguments b.instrs m h.0) (none_on_stack bs m h.1)

  -- Of the four registers, exactly one is live in at the block, and the block uses it.
  abbrev pub OnlyLiveIn : BasicBlock → ℕ → Type 0
  OnlyLiveIn b i =
      (b.is_live_in (phys 0) ≡ (0 == i))
      × (b.is_live_in (phys 1) ≡ (1 == i))
      × (b.is_live_in (phys 2) ≡ (2 == i))
      × (b.is_live_in (phys 3) ≡ (3 == i))
      × (uses_register info (phys i) b.instrs ≡ true)

  -- The walk meets a block that uses R1 alone of the parameters' registers, and then one that uses R0
  -- alone, and nothing is loaded from the stack: a single parameter is found, although R1 is used.
  pub gen_parameter_types-lower :
      (first second : BasicBlock) (mf : List BasicBlock)
      → OnlyLiveIn first 1
      → OnlyLiveIn second 0
      → All (λ b. All (λ mi. stack_index info mi ≡ none) b.instrs) mf
      → gen_parameter_types info (first ∷ second ∷ []) mf ≡ 1
  unfolding gen_parameter_types walk_blocks visit_basic_block visit_register
  gen_parameter_types-lower first second mf (a0, a1, a2, a3, a) (b0, b1, b2, b3, b) h =
      rw (none_on_stack mf (walk_blocks info (first ∷ second ∷ []) (nothing_found info)).max_idx h)
        (rw (a0, a1, a2, a3, a, b0, b2, b3, b) refl)
