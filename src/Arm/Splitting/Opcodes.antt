-- ===== src/Arm/Splitting/Opcodes.antt =====
-- The opcodes of what the splitters insert.
use llvm_mctoll.Base.{
  ℕ, zero, suc, ◌+◌, ◌≡◌, Bool, true, false, [], ◌∷◌, arith, some, none, Option, Ensures, done,
  failed, Ensures-bind, Ensures-if, Ensures-some, ◌>>=◌,
}
use llvm_mctoll.Arm.Opcode.{Opcode, add_rr}
use llvm_mctoll.Arm.Target.{reg, frame_index, Operand, MachineInstr, Target}
use llvm_mctoll.Arm.Builder.{
  push, build, build_def, add_operand, add_operands, add_cond, add_cond_flags, add_always,
  add_cond?, Split,
}
use llvm_mctoll.Arm.Splitting.Tables.{get_load_store_opcode}
use llvm_mctoll.Arm.Splitting.LoadStore.{
  add_pre_data, add_data, split_ldrstr_pre_imm, split_ldrstr_pre_shift, split_ldrstr_pre_rrx,
  split_ldrstr_pre_plain, split_ldrstr_imm, split_ldrstr_shift, split_ldrstr_rrx,
  split_ldrstr_plain,
}
use llvm_mctoll.Arm.Splitting.Shifter.{
  common_at, s_at, c_at, cs_at, plain, shift_by_imm, shift_by_rrx, shift_by_reg,
}
use llvm_mctoll.Base.Int.{ℤ}

-- Two instructions with these opcodes stand for MI, which is removed.
pub data IsPair (o p : Opcode) (next : ℕ) : Split → Type 0 where
  is_pair :
      {fst sec : MachineInstr}
      → fst.opcode ≡ o
      → sec.opcode ≡ p
      → IsPair o p next (record { emitted = fst ∷ sec ∷ []; removed = true; next_vreg = next })

-- Three of them.
pub data IsTriple (o p q : Opcode) (next : ℕ) : Split → Type 0 where
  is_triple :
      {fst sec thd : MachineInstr}
      → fst.opcode ≡ o
      → sec.opcode ≡ p
      → thd.opcode ≡ q
      → IsTriple o p q next
          (record { emitted = fst ∷ sec ∷ thd ∷ []; removed = true; next_vreg = next })

abbrev pub HasOpcode : Opcode → MachineInstr → Type 0
HasOpcode opc mi = mi.opcode ≡ opc

module _ (opc : Opcode) where
  pub add_operand-opcode :
      (mib : MachineInstr) (mo : Operand) (d : Bool) {out : MachineInstr}
      → add_operand mib mo d ≡ some out
      → mib.opcode ≡ opc
      → out.opcode ≡ opc
  unfolding add_operand push
  add_operand-opcode mib mo d h e = ground arith

  pub Ensures-add_operand :
      (mib : MachineInstr) (mo : Operand) (d : Bool)
      → mib.opcode ≡ opc
      → Ensures (HasOpcode opc) (add_operand mib mo d)
  unfolding add_operand push
  Ensures-add_operand mib (reg _ _) d e = done e
  Ensures-add_operand mib (frame_index _) d e = done e
  Ensures-add_operand mib _ d e = failed

  pub Ensures-add_operands :
      (mi : MachineInstr) (n count : ℕ) (mib : MachineInstr)
      → mib.opcode ≡ opc
      → Ensures (HasOpcode opc) (add_operands mi n count mib)
  unfolding add_operands
  Ensures-add_operands mi n zero mib e = done e
  Ensures-add_operands mi n (suc count) mib e = Ensures-bind _ _ λ mo _.
      Ensures-bind _ _
        λ mib' h. Ensures-add_operands mi (n + 1) count mib' (add_operand-opcode mib mo false h e)

  pub add_operands-opcode :
      (mi : MachineInstr) (n count : ℕ) (mib : MachineInstr) {out : MachineInstr}
      → add_operands mi n count mib ≡ some out
      → mib.opcode ≡ opc
      → out.opcode ≡ opc
  add_operands-opcode mi n count mib h e = Ensures-some (Ensures-add_operands mi n count mib e) h

pub ruleset emit_rules =
    (Ensures-bind, Ensures-if, done, Ensures-add_operand, add_operand-opcode, add_operands-opcode)

module _ (opc : Opcode) where
  pub Ensures-add_cond :
      (mi : MachineInstr) (idx : ℕ) (mib : MachineInstr)
      → mib.opcode ≡ opc
      → Ensures (HasOpcode opc) (add_cond mi idx mib)
  unfolding add_cond push
  Ensures-add_cond mi idx mib e = search emit_rules depth 8

  pub add_cond-opcode :
      (mi : MachineInstr) (idx : ℕ) (mib : MachineInstr) {out : MachineInstr}
      → add_cond mi idx mib ≡ some out
      → mib.opcode ≡ opc
      → out.opcode ≡ opc
  add_cond-opcode mi idx mib h e = Ensures-some (Ensures-add_cond mi idx mib e) h

  Ensures-add_cond_flags :
      (mi : MachineInstr) (idx : ℕ) (mib : MachineInstr)
      → mib.opcode ≡ opc
      → Ensures (HasOpcode opc) (add_cond_flags mi idx mib)
  unfolding add_cond_flags push
  Ensures-add_cond_flags mi idx mib e = search (emit_rules, add_cond-opcode) depth 8

  add_cond_flags-opcode :
      (mi : MachineInstr) (idx : ℕ) (mib : MachineInstr) {out : MachineInstr}
      → add_cond_flags mi idx mib ≡ some out
      → mib.opcode ≡ opc
      → out.opcode ≡ opc
  add_cond_flags-opcode mi idx mib h e = Ensures-some (Ensures-add_cond_flags mi idx mib e) h

  add_always-opcode :
      (al : ℤ) (mi : MachineInstr) (idx : ℕ) (mib : MachineInstr) {out : MachineInstr}
      → add_always al mi idx mib ≡ some out
      → mib.opcode ≡ opc
      → out.opcode ≡ opc
  unfolding add_always push
  add_always-opcode al mi idx mib h e = Ensures-some always h
    where
      always : Ensures (HasOpcode opc) (add_always al mi idx mib)
      always = search emit_rules depth 8

module _ (opc : Opcode) (v : ℕ) where
  plain-opcode :
      (mi : MachineInstr) (rd : Operand) (bound : ℕ) {out : MachineInstr}
      → plain mi opc rd bound v ≡ some out
      → out.opcode ≡ opc
  unfolding plain build push
  plain-opcode mi rd bound h = Ensures-some built h
    where
      built : Ensures (HasOpcode opc) (plain mi opc rd bound v)
      built = search emit_rules depth 8

  shift_by_imm-opcode :
      (rm : Operand) (offset : ℕ) {out : MachineInstr}
      → shift_by_imm opc v rm offset ≡ some out
      → out.opcode ≡ opc
  unfolding shift_by_imm build_def push ◌>>=◌ add_operand
  shift_by_imm-opcode rm offset h = ground arith

  shift_by_rrx-opcode :
      (rm : Operand) {out : MachineInstr} → shift_by_rrx opc v rm ≡ some out → out.opcode ≡ opc
  unfolding shift_by_rrx build_def push add_operand
  shift_by_rrx-opcode rm h = ground arith

  shift_by_reg-opcode :
      (rn rm : Operand) {out : MachineInstr}
      → shift_by_reg opc v rn rm ≡ some out
      → out.opcode ≡ opc
  unfolding shift_by_reg build_def push ◌>>=◌ add_operand
  shift_by_reg-opcode rn rm h = ground arith

ruleset shifter_rules = (
  emit_rules, is_pair, add_cond-opcode, add_cond_flags-opcode, add_always-opcode, plain-opcode,
  shift_by_imm-opcode, shift_by_rrx-opcode, shift_by_reg-opcode,
)

module _ (mi : MachineInstr) (opc : Opcode) (i : ℕ) (sh : Opcode) (off v : ℕ) where
  pub common_at-IsPair : Ensures (IsPair sh opc (v + 1)) (common_at mi opc i sh off v)
  unfolding common_at push
  common_at-IsPair = search shifter_rules depth 12

module _ (t : Target) (mi : MachineInstr) (opc : Opcode) (idx i : ℕ) (sh : Opcode) (off v : ℕ) where
  pub s_at-IsPair : Ensures (IsPair sh opc (v + 1)) (s_at t mi opc idx i sh off v)
  unfolding s_at push
  s_at-IsPair = search shifter_rules depth 14

  pub c_at-IsPair : Ensures (IsPair sh opc (v + 1)) (c_at t mi opc idx i sh off v)
  unfolding c_at push
  c_at-IsPair = search shifter_rules depth 14

  pub cs_at-IsPair : Ensures (IsPair sh opc (v + 1)) (cs_at t mi opc idx i sh off v)
  unfolding cs_at push
  cs_at-IsPair = search shifter_rules depth 14

module _ (opc : Opcode) where
  add_cond?-opcode :
      (mi : MachineInstr) (idx : Option ℕ) (mib : MachineInstr) {out : MachineInstr}
      → add_cond? mi idx mib ≡ some out
      → mib.opcode ≡ opc
      → out.opcode ≡ opc
  unfolding add_cond?
  add_cond?-opcode mi none mib h e = ground arith
  add_cond?-opcode mi (some idx) mib h e = add_cond-opcode opc mi idx mib h e

module _ (t : Target) (opc : Opcode) where
  add_data-opcode :
      (mi : MachineInstr) (rd : Operand) (mib : MachineInstr) {out : MachineInstr}
      → add_data t mi rd mib ≡ some out
      → mib.opcode ≡ opc
      → out.opcode ≡ opc
  unfolding add_data
  add_data-opcode mi rd mib h e = Ensures-some built h
    where
      built : Ensures (HasOpcode opc) (add_data t mi rd mib)
      built = search emit_rules

  add_pre_data-opcode :
      (mi : MachineInstr) (rn rd : Operand) (mib : MachineInstr) {out : MachineInstr}
      → add_pre_data t mi rn rd mib ≡ some out
      → mib.opcode ≡ opc
      → out.opcode ≡ opc
  unfolding add_pre_data
  add_pre_data-opcode mi rn rd mib h e = Ensures-some built h
    where
      built : Ensures (HasOpcode opc) (add_pre_data t mi rn rd mib)
      built = search emit_rules

ruleset memory_rules =
    (emit_rules, is_pair, is_triple, add_cond?-opcode, add_data-opcode, add_pre_data-opcode)

module _ (t : Target) (v : ℕ) (mi : MachineInstr) where
  abbrev pub access : Opcode
  access = get_load_store_opcode mi.opcode

  pub split_ldrstr_pre_imm-IsPair : Ensures (IsPair add_rr access v) (split_ldrstr_pre_imm t v mi)
  unfolding split_ldrstr_pre_imm push build
  split_ldrstr_pre_imm-IsPair = search memory_rules depth 16

  pub split_ldrstr_imm-IsPair : Ensures (IsPair add_rr access (v + 1)) (split_ldrstr_imm t v mi)
  unfolding split_ldrstr_imm push build build_def
  split_ldrstr_imm-IsPair = search memory_rules depth 16

module _ (t : Target) (v : ℕ) (mi : MachineInstr) (sh : Opcode) (off : ℕ)
    (rd rn rm rs : Operand) where
  pub split_ldrstr_pre_shift-IsTriple :
      Ensures
        (IsTriple sh add_rr (access t v mi) (v + 1))
        (split_ldrstr_pre_shift t v mi sh off rd rn rm rs)
  unfolding split_ldrstr_pre_shift push build build_def
  split_ldrstr_pre_shift-IsTriple = search memory_rules depth 16

  pub split_ldrstr_pre_rrx-IsTriple :
      Ensures
        (IsTriple sh add_rr (access t v mi) (v + 1))
        (split_ldrstr_pre_rrx t v mi sh rd rn rm rs)
  unfolding split_ldrstr_pre_rrx push build build_def
  split_ldrstr_pre_rrx-IsTriple = search memory_rules depth 16

  pub split_ldrstr_pre_plain-IsPair :
      Ensures (IsPair add_rr (access t v mi) (v + 1)) (split_ldrstr_pre_plain t v mi rd rn rm rs)
  unfolding split_ldrstr_pre_plain push build build_def
  split_ldrstr_pre_plain-IsPair = search memory_rules depth 16

  pub split_ldrstr_shift-IsTriple :
      Ensures
        (IsTriple sh add_rr (access t v mi) (v + 2))
        (split_ldrstr_shift t v mi sh off rd rn rm)
  unfolding split_ldrstr_shift push build build_def
  split_ldrstr_shift-IsTriple = search memory_rules depth 16

  pub split_ldrstr_rrx-IsTriple :
      Ensures (IsTriple sh add_rr (access t v mi) (v + 2)) (split_ldrstr_rrx t v mi sh rd rn rm)
  unfolding split_ldrstr_rrx push build build_def
  split_ldrstr_rrx-IsTriple = search memory_rules depth 16

  pub split_ldrstr_plain-IsPair :
      Ensures (IsPair add_rr (access t v mi) (v + 2)) (split_ldrstr_plain t v mi rd rn rm)
  unfolding split_ldrstr_plain push build build_def
  split_ldrstr_plain-IsPair = search memory_rules depth 16
