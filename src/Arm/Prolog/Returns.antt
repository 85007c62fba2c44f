-- ===== src/Arm/Prolog/Returns.antt =====
-- What eliminateEpilog makes of a block.
use llvm_mctoll.Base.{
  ℕ, zero, suc, ◌≡◌, refl, sym, ◌∙◌, Option, none, some, List, [], ◌∷◌, ◌++◌, Bool, true, false,
  inl, ◌≢◌, Ensures, Ensures-bind, Ensures-some, Ensures-mono, done, failed,
}
use mathlib.Core.Option.{some-injective}
use llvm_mctoll.Arm.Opcode.{bx_ret}
use llvm_mctoll.Arm.Builder.{build, push}
use llvm_mctoll.Arm.Target.{Register, pc, MachineInstr, Target}
use llvm_mctoll.Arm.Prolog.Conditions.{count_tests, epilog_tests, epilog_load}
use llvm_mctoll.Arm.Prolog.Patterns.{
  RegisterAt, IsEpilog, epilog_load_iff, count_tests-zero, count_tests-suc, AnyTest-IsEpilog,
  IsEpilog-AnyTest,
}
use llvm_mctoll.Arm.Prolog.Eliminate.{
  MachineFunction, Counted, erase_counted, add_predicate, build_return, return_for, count_epilog,
  count_epilog_block, epilog_block, epilog_blocks, eliminate_epilog,
}

none≢some : {A : Type 0} {a : A} → none ≢ some a
none≢some e = cc

module _ (t : Target) (num_explicit_operands : MachineInstr → ℕ) (fp : Register) where
  -- A load into or through the frame register as its first operand, in which PC is found as a use.
  abbrev pub ReturnsPc : MachineInstr → Type 0
  ReturnsPc mi =
      (t.may_load mi.opcode ≡ true)
      × RegisterAt 0 fp mi
      × ((i : ℕ) × (t.find_register_use_operand_idx mi.operands pc ≡ some i))

  -- A block whose instructions of the epilog are removed, the others kept in their order; BX_RET
  -- stands in place of each load of the epilog that finds PC, and of no other.
  pub data EpilogOf : List MachineInstr → List MachineInstr → Type 0 where
    nothing_left : EpilogOf [] []
    kept :
        {mi : MachineInstr} {mis mis' : List MachineInstr}
        → ¬ IsEpilog t fp mi
        → EpilogOf mis mis'
        → EpilogOf (mi ∷ mis) (mi ∷ mis')
    removed :
        {mi : MachineInstr} {mis mis' : List MachineInstr}
        → IsEpilog t fp mi
        → ¬ ReturnsPc mi
        → EpilogOf mis mis'
        → EpilogOf (mi ∷ mis) mis'
    returned :
        {mi ret : MachineInstr} {mis mis' : List MachineInstr}
        → ReturnsPc mi
        → build_return t num_explicit_operands fp mi ≡ some ret
        → ret.opcode ≡ bx_ret
        → EpilogOf mis mis'
        → EpilogOf (mi ∷ mis) (ret ∷ mis')

  -- What return_for inserts.
  data Inserted (mi : MachineInstr) : Bool → Option ℕ → List Counted → Type 0 where
    no_return : {b : Bool} {o : Option ℕ} → (b ≡ true → o ≡ none) → Inserted mi b o []
    a_return :
        {i : ℕ} {ret : MachineInstr}
        → build_return t num_explicit_operands fp mi ≡ some ret
        → Inserted mi true (some i) ((ret, 0) ∷ [])

  return_for-Inserted :
      (mi : MachineInstr) (b : Bool) (o : Option ℕ)
      → Ensures (Inserted mi b o) (return_for t num_explicit_operands fp mi b o)
  return_for-Inserted mi true (some i) = Ensures-bind _ _ λ ret e. done (a_return e)
  return_for-Inserted mi true none = done (no_return (λ e. refl))
  return_for-Inserted mi false o = done (no_return (λ e. cc))

  add_predicate_opcode :
      (mi mib : MachineInstr) (o : Option ℕ)
      → Ensures (λ m. m.opcode ≡ mib.opcode) (add_predicate t num_explicit_operands fp mi mib o)
  unfolding push
  add_predicate_opcode mi mib none = done refl
  add_predicate_opcode mi mib (some i) = Ensures-bind _ _ λ c _. Ensures-bind _ _ λ f _. done refl

  build_return_opcode :
      (mi : MachineInstr)
      → Ensures (λ m. m.opcode ≡ bx_ret) (build_return t num_explicit_operands fp mi)
  unfolding build_return push build
  build_return_opcode mi = Ensures-bind _ _ λ mib e.
      Ensures-bind _ _ λ last _. done (Ensures-some (add_predicate_opcode mi (build bx_ret) _) e)

  abbrev Erased : List MachineInstr → List Counted → Type 0
  Erased mis cs = Ensures (EpilogOf mis) (erase_counted cs)

  finds_pc :
      (mi : MachineInstr) {i : ℕ}
      → epilog_load t fp mi ≡ some true
      → t.find_register_use_operand_idx mi.operands pc ≡ some i
      → ReturnsPc mi
  finds_pc mi {i} l u = let (o, a) = (epilog_load_iff t fp mi).0 l in (o, a, (i, u))

  no_ReturnsPc :
      (mi : MachineInstr) {b : Bool} {o : Option ℕ}
      → epilog_load t fp mi ≡ some b
      → t.find_register_use_operand_idx mi.operands pc ≡ o
      → (b ≡ true → o ≡ none)
      → ¬ ReturnsPc mi
  no_ReturnsPc mi l u k (o, a, (i, found)) =
      let is_load = some-injective _ _ (sym l ∙ (epilog_load_iff t fp mi).1 (o, a)) in
      none≢some (sym (k is_load) ∙ sym u ∙ found)

  erase_epilog :
      (mi : MachineInstr) (n : ℕ) (loads : Bool) (o : Option ℕ) (ret : List Counted)
      (mis : List MachineInstr) (cs : List Counted)
      → epilog_load t fp mi ≡ some loads
      → t.find_register_use_operand_idx mi.operands pc ≡ o
      → Inserted mi loads o ret
      → count_tests (epilog_tests t fp) mi ≡ some n
      → Erased mis cs
      → Erased (mi ∷ mis) ((ret ++ (mi, n) ∷ []) ++ cs)
  unfolding erase_counted
  erase_epilog mi zero loads o _ mis cs l u (no_return k) e h = Ensures-bind _ _ λ rest r.
      done (kept (λ p. count_tests-zero _ mi e (IsEpilog-AnyTest t fp mi p)) (Ensures-some h r))
  erase_epilog mi (suc zero) loads o _ mis cs l u (no_return k) e h =
      Ensures-mono
        (λ mis' r.
          removed (AnyTest-IsEpilog t fp mi (count_tests-suc _ mi 0 e)) (no_ReturnsPc mi l u k) r)
        h
  erase_epilog mi (suc (suc n)) loads o _ mis cs l u (no_return k) e h = failed
  erase_epilog mi zero _ _ _ mis cs l u (a_return b) e h = absurd (count_tests-zero _ mi e (inl l))
  erase_epilog mi (suc zero) _ _ _ mis cs l u (a_return b) e h = Ensures-bind _ _ λ rest r.
      done
        (returned (finds_pc mi l u) b (Ensures-some (build_return_opcode mi) b) (Ensures-some h r))
  erase_epilog mi (suc (suc n)) _ _ _ mis cs l u (a_return b) e h =
      Ensures-bind _ _ λ rest r. absurd (none≢some r)

  count_epilog-Erased :
      (mi : MachineInstr) (mis : List MachineInstr) (cs : List Counted)
      → Erased mis cs
      → Ensures (λ c. Erased (mi ∷ mis) (c ++ cs)) (count_epilog t num_explicit_operands fp mi)
  unfolding count_epilog
  count_epilog-Erased mi mis cs h = Ensures-bind _ _ λ b l. Ensures-bind _ _ λ ret r.
      Ensures-bind _ _ λ n e.
        done (
          erase_epilog mi n b _ ret mis cs l refl (Ensures-some (return_for-Inserted mi b _) r) e h)

  count_epilog_block-Erased :
      (mis : List MachineInstr)
      → Ensures (Erased mis) (count_epilog_block t num_explicit_operands fp mis)
  unfolding count_epilog_block erase_counted
  count_epilog_block-Erased [] = done (done nothing_left)
  count_epilog_block-Erased (mi ∷ mis) = Ensures-bind _ _ λ c e. Ensures-bind _ _ λ cs r. done (
      Ensures-some (count_epilog-Erased mi mis cs (Ensures-some (count_epilog_block-Erased mis) r))
        e)

  epilog_block-EpilogOf :
      (mis : List MachineInstr)
      → Ensures (EpilogOf mis) (epilog_block t num_explicit_operands fp mis)
  unfolding epilog_block
  epilog_block-EpilogOf mis =
      Ensures-bind _ _ λ cs r. Ensures-some (count_epilog_block-Erased mis) r

  pub data EpilogsOf : List (List MachineInstr) → List (List MachineInstr) → Type 0 where
    no_blocks : EpilogsOf [] []
    block :
        {b b' : List MachineInstr} {bs bs' : List (List MachineInstr)}
        → EpilogOf b b'
        → EpilogsOf bs bs'
        → EpilogsOf (b ∷ bs) (b' ∷ bs')

  epilog_blocks-EpilogsOf :
      (bs : List (List MachineInstr))
      → Ensures (EpilogsOf bs) (epilog_blocks t num_explicit_operands fp bs)
  unfolding epilog_blocks
  epilog_blocks-EpilogsOf [] = done no_blocks
  epilog_blocks-EpilogsOf (b ∷ bs) = Ensures-bind _ _ λ b' e. Ensures-bind _ _ λ bs' es. done (
      block (Ensures-some (epilog_block-EpilogOf b) e)
        (Ensures-some (epilog_blocks-EpilogsOf bs) es))

  Ensures-epilog :
      (mf : MachineFunction)
      → Ensures
          (λ mf'. EpilogsOf mf.blocks mf'.blocks)
          (eliminate_epilog t num_explicit_operands fp mf)
  unfolding eliminate_epilog
  Ensures-epilog mf =
      Ensures-bind _ _ λ bs e. done (Ensures-some (epilog_blocks-EpilogsOf mf.blocks) e)

  -- eliminateEpilog, where no assertion fails and nothing is erased twice, goes through the blocks
  -- one for one and keeps their instructions in order, except that those of the epilog are removed,
  -- and that BX_RET stands in place of each load of the epilog in which PC is found as a use.
  pub eliminate_epilog-EpilogsOf :
      (mf mf' : MachineFunction)
      → eliminate_epilog t num_explicit_operands fp mf ≡ some mf'
      → EpilogsOf mf.blocks mf'.blocks
  eliminate_epilog-EpilogsOf mf mf' e = Ensures-some (Ensures-epilog mf) e
