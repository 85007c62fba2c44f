-- ===== src/Arm/Splitting/Outcome.antt =====
-- What a splitter returns: plain instructions in place of MI, or nothing at all.
use llvm_mctoll.Base.{
  ℕ, ◌+◌, ◌≤◌, ◌≡◌, refl, ◌⊎◌, inl, inr, Option, true, false, List, [], ◌∷◌, All, some, arith,
  Ensures, Ensures-bind, Ensures-if, Ensures-some, Ensures-mono, done, suc,
}
use llvm_mctoll.Arm.Opcode.{Opcode, opcode_zero, add_rr}
use llvm_mctoll.Arm.Target.{
  Operand, reg, imm, frame_index, metadata, MachineInstr, Target, ShiftOpc,
}
use llvm_mctoll.Arm.Builder.{Split}
use llvm_mctoll.Arm.Splitting.Tables.{
  checkis_shifter, is_ldrstr_pre, get_load_store_opcode, get_shift_opcode,
}
use llvm_mctoll.Arm.Splitting.Shifter.{find_shift, split_common, split_s, split_c, split_cs}
use llvm_mctoll.Arm.Splitting.Opcodes.{
  access, IsPair, is_pair, IsTriple, is_triple, common_at-IsPair, s_at-IsPair, c_at-IsPair,
  cs_at-IsPair, split_ldrstr_pre_imm-IsPair, split_ldrstr_imm-IsPair,
  split_ldrstr_pre_shift-IsTriple, split_ldrstr_pre_rrx-IsTriple, split_ldrstr_pre_plain-IsPair,
  split_ldrstr_shift-IsTriple, split_ldrstr_rrx-IsTriple, split_ldrstr_plain-IsPair,
}
use llvm_mctoll.Arm.Splitting.LoadStore.{
  split_ldrstr_pre_imm, split_ldrstr_pre_shift, split_ldrstr_pre_rrx, split_ldrstr_pre_plain,
  split_ldrstr_pre, split_ldrstr_imm, split_ldrstr_shift, split_ldrstr_rrx, split_ldrstr_plain,
  split_ldrstr,
}
use llvm_mctoll.Arm.Splitting.Pass.{
  CpsrUse, not_split, split_shifter, dispatch, split_pre, split_offset, split_load_store,
  split_instr,
}

-- An opcode with no shifted operand and no write-back; of the loads and stores, an i12 form.
abbrev pub IsPlain : Opcode → Type 0
IsPlain opc =
    (checkis_shifter opc ≡ opcode_zero)
    × (is_ldrstr_pre opc ≡ false)
    × ((get_load_store_opcode opc ≡ opcode_zero) ⊎ (get_load_store_opcode opc ≡ opc))

checkis_shifter-IsPlain : (opc : Opcode) → IsPlain (checkis_shifter opc)
unfolding checkis_shifter is_ldrstr_pre get_load_store_opcode
checkis_shifter-IsPlain Opcode.mov_sr = (refl, refl, inl refl)
checkis_shifter-IsPlain _ = (refl, refl, inl refl)

get_load_store_opcode-IsPlain : (opc : Opcode) → IsPlain (get_load_store_opcode opc)
unfolding checkis_shifter is_ldrstr_pre get_load_store_opcode
get_load_store_opcode-IsPlain Opcode.ldr_rs = (refl, refl, inr refl)
get_load_store_opcode-IsPlain _ = (refl, refl, inr refl)

get_shift_opcode-IsPlain : (shift : ShiftOpc) (offset : ℕ) → IsPlain (get_shift_opcode shift offset)
unfolding checkis_shifter is_ldrstr_pre get_load_store_opcode get_shift_opcode
get_shift_opcode-IsPlain shift offset = ground arith

add_rr-IsPlain : IsPlain add_rr
unfolding checkis_shifter is_ldrstr_pre get_load_store_opcode
add_rr-IsPlain = (refl, refl, inl refl)

-- Either MI stays and nothing is inserted, or MI goes and plain instructions stand in its place.
-- Virtual registers are only ever taken.
pub data Outcome (v : ℕ) : Split → Type 0 where
  kept : {v' : ℕ} → v ≤ v' → Outcome v (record { emitted = []; removed = false; next_vreg = v' })
  replaced :
      {mi : MachineInstr} {mis : List MachineInstr} {v' : ℕ}
      → v ≤ v'
      → All (λ m. IsPlain m.opcode) (mi ∷ mis)
      → Outcome v (record { emitted = mi ∷ mis; removed = true; next_vreg = v' })

IsPlain-of : {o p : Opcode} → o ≡ p → IsPlain p → IsPlain o
IsPlain-of e h = rw e h

IsPair-Outcome :
    {o p : Opcode} {v v' : ℕ}
    → IsPlain o
    → IsPlain p
    → v ≤ v'
    → (s : Split) → IsPair o p v' s
    → Outcome v s
IsPair-Outcome ho hp le _ (is_pair e e') = replaced le (IsPlain-of e ho, (IsPlain-of e' hp, tt))

IsTriple-Outcome :
    {o p q : Opcode} {v v' : ℕ}
    → IsPlain o
    → IsPlain p
    → IsPlain q
    → v ≤ v'
    → (s : Split) → IsTriple o p q v' s
    → Outcome v s
IsTriple-Outcome ho hp hq le _ (is_triple e e' e'') =
    replaced le (IsPlain-of e ho, (IsPlain-of e' hp, (IsPlain-of e'' hq, tt)))

module _ (t : Target) (opc : Opcode) (opc_plain : IsPlain opc) where
  find_shift-Outcome :
      (body : ℕ → Opcode → ℕ → ℕ → Option Split)
      → ((i : ℕ) (sh : Opcode) (off v : ℕ) → Ensures (IsPair sh opc (v + 1)) (body i sh off v))
      → (mos : List Operand) (i v w : ℕ) → w ≤ v
      → Ensures (Outcome w) (find_shift t body mos i v)
  unfolding find_shift
  find_shift-Outcome body pairs [] i v w le = done (kept le)
  find_shift-Outcome body pairs (imm z ∷ mos) i v w le =
      Ensures-if _ _ _
        (Ensures-mono (IsPair-Outcome (get_shift_opcode-IsPlain _ _) opc_plain (omega arith))
          (pairs _ _ _ _))
        (find_shift-Outcome body pairs mos (suc i) (v + 1) w (omega arith))
  find_shift-Outcome body pairs (reg r d ∷ mos) i v w le =
      find_shift-Outcome body pairs mos (suc i) v w le
  find_shift-Outcome body pairs (frame_index n ∷ mos) i v w le =
      find_shift-Outcome body pairs mos (suc i) v w le
  find_shift-Outcome body pairs (metadata n ∷ mos) i v w le =
      find_shift-Outcome body pairs mos (suc i) v w le

  module _ (v : ℕ) (mi : MachineInstr) where
    split_common-Outcome : Ensures (Outcome v) (split_common t v mi opc)
    unfolding split_common
    split_common-Outcome =
        find_shift-Outcome _ (common_at-IsPair mi opc) mi.operands 0 v v (omega arith)

    split_s-Outcome : (idx : ℕ) → Ensures (Outcome v) (split_s t v mi opc idx)
    unfolding split_s
    split_s-Outcome idx =
        find_shift-Outcome _ (s_at-IsPair t mi opc idx) mi.operands 0 v v (omega arith)

    split_c-Outcome : (idx : ℕ) → Ensures (Outcome v) (split_c t v mi opc idx)
    unfolding split_c
    split_c-Outcome idx =
        find_shift-Outcome _ (c_at-IsPair t mi opc idx) mi.operands 0 v v (omega arith)

    split_cs-Outcome : (idx : ℕ) → Ensures (Outcome v) (split_cs t v mi opc idx)
    unfolding split_cs
    split_cs-Outcome idx =
        find_shift-Outcome _ (cs_at-IsPair t mi opc idx) mi.operands 0 v v (omega arith)

    dispatch-Outcome :
        (idx : Option ℕ) (u : CpsrUse) → Ensures (Outcome v) (dispatch t v mi opc idx u)
    unfolding dispatch
    dispatch-Outcome idx u =
        search
          (
            Ensures-bind, Ensures-if, split_common-Outcome, split_s-Outcome, split_c-Outcome,
            split_cs-Outcome,
          )
          depth 8

    split_shifter-Outcome : Ensures (Outcome v) (split_shifter t v mi opc)
    unfolding split_shifter
    split_shifter-Outcome = Ensures-bind _ _ λ u _. dispatch-Outcome _ u

module _ (t : Target) (v : ℕ) (mi : MachineInstr) where
  as_pair :
      {m : Option Split} {v' : ℕ}
      → v ≤ v'
      → Ensures (IsPair add_rr (access t v mi) v') m
      → Ensures (Outcome v) m
  as_pair le =
      Ensures-mono (IsPair-Outcome add_rr-IsPlain (get_load_store_opcode-IsPlain mi.opcode) le)

  as_triple :
      {m : Option Split} {sh : Opcode} {v' : ℕ}
      → IsPlain sh
      → v ≤ v'
      → Ensures (IsTriple sh add_rr (access t v mi) v') m
      → Ensures (Outcome v) m
  as_triple h le =
      Ensures-mono (IsTriple-Outcome h add_rr-IsPlain (get_load_store_opcode-IsPlain mi.opcode) le)

  pre_shift-Outcome :
      (shift : ShiftOpc) (offset : ℕ) (rd rn rm rs : Operand)
      → Ensures
          (Outcome v)
          (split_ldrstr_pre_shift t v mi (get_shift_opcode shift offset) offset rd rn rm rs)
  pre_shift-Outcome shift offset rd rn rm rs =
      as_triple (get_shift_opcode-IsPlain shift offset) (omega arith)
        (split_ldrstr_pre_shift-IsTriple t v mi _ offset rd rn rm rs)

  pre_rrx-Outcome :
      (shift : ShiftOpc) (offset : ℕ) (rd rn rm rs : Operand)
      → Ensures
          (Outcome v)
          (split_ldrstr_pre_rrx t v mi (get_shift_opcode shift offset) rd rn rm rs)
  pre_rrx-Outcome shift offset rd rn rm rs =
      as_triple (get_shift_opcode-IsPlain shift offset) (omega arith)
        (split_ldrstr_pre_rrx-IsTriple t v mi _ offset rd rn rm rs)

  pre_plain-Outcome :
      (rd rn rm rs : Operand) → Ensures (Outcome v) (split_ldrstr_pre_plain t v mi rd rn rm rs)
  pre_plain-Outcome rd rn rm rs =
      as_pair (omega arith) (split_ldrstr_pre_plain-IsPair t v mi add_rr 0 rd rn rm rs)

  shift-Outcome :
      (shift : ShiftOpc) (offset : ℕ) (rd rn rm : Operand)
      → Ensures
          (Outcome v)
          (split_ldrstr_shift t v mi (get_shift_opcode shift offset) offset rd rn rm)
  shift-Outcome shift offset rd rn rm =
      as_triple (get_shift_opcode-IsPlain shift offset) (omega arith)
        (split_ldrstr_shift-IsTriple t v mi _ offset rd rn rm rm)

  rrx-Outcome :
      (shift : ShiftOpc) (offset : ℕ) (rd rn rm : Operand)
      → Ensures (Outcome v) (split_ldrstr_rrx t v mi (get_shift_opcode shift offset) rd rn rm)
  rrx-Outcome shift offset rd rn rm =
      as_triple (get_shift_opcode-IsPlain shift offset) (omega arith)
        (split_ldrstr_rrx-IsTriple t v mi _ offset rd rn rm rm)

  plain-Outcome : (rd rn rm : Operand) → Ensures (Outcome v) (split_ldrstr_plain t v mi rd rn rm)
  plain-Outcome rd rn rm =
      as_pair (omega arith) (split_ldrstr_plain-IsPair t v mi add_rr 0 rd rn rm rm)

  split_ldrstr_pre-Outcome : Ensures (Outcome v) (split_ldrstr_pre t v mi)
  unfolding split_ldrstr_pre
  split_ldrstr_pre-Outcome =
      search (Ensures-bind, Ensures-if, pre_shift-Outcome, pre_rrx-Outcome, pre_plain-Outcome) depth
        12

  split_ldrstr-Outcome : Ensures (Outcome v) (split_ldrstr t v mi)
  unfolding split_ldrstr
  split_ldrstr-Outcome =
      search (Ensures-bind, Ensures-if, shift-Outcome, rrx-Outcome, plain-Outcome) depth 12

  split_ldrstr_imm-Outcome : Ensures (Outcome v) (split_ldrstr_imm t v mi)
  split_ldrstr_imm-Outcome = as_pair (omega arith) (split_ldrstr_imm-IsPair t v mi)

  split_ldrstr_pre_imm-Outcome : Ensures (Outcome v) (split_ldrstr_pre_imm t v mi)
  split_ldrstr_pre_imm-Outcome = as_pair (omega arith) (split_ldrstr_pre_imm-IsPair t v mi)

  not_split-Outcome : Ensures (Outcome v) (not_split v)
  not_split-Outcome = done (kept (omega arith))

  split_pre-Outcome : (mo : Operand) → Ensures (Outcome v) (split_pre t v mi mo)
  unfolding split_pre
  split_pre-Outcome (reg r d) = split_ldrstr_pre-Outcome
  split_pre-Outcome (imm z) = Ensures-if _ _ _ split_ldrstr_pre_imm-Outcome not_split-Outcome
  split_pre-Outcome _ = not_split-Outcome

  split_offset-Outcome : (mo : Operand) → Ensures (Outcome v) (split_offset t v mi mo)
  unfolding split_offset
  split_offset-Outcome (reg r d) = split_ldrstr-Outcome
  split_offset-Outcome (imm z) = Ensures-if _ _ _ split_ldrstr_imm-Outcome not_split-Outcome
  split_offset-Outcome _ = not_split-Outcome

  split_load_store-Outcome : Ensures (Outcome v) (split_load_store t v mi)
  unfolding split_load_store
  split_load_store-Outcome =
      search (Ensures-bind, Ensures-if, split_pre-Outcome, split_offset-Outcome, not_split-Outcome)

  Ensures-split_instr : Ensures (Outcome v) (split_instr t v mi)
  unfolding split_instr
  Ensures-split_instr = Ensures-if _ _ _ split_load_store-Outcome (
      Ensures-if _ _ _ (split_shifter-Outcome t _ (checkis_shifter-IsPlain mi.opcode) v mi)
        not_split-Outcome)

-- Splitting one instruction, if no assertion fails, has one of two outcomes: the instruction stays
-- and nothing is inserted, or it is removed and at least one instruction stands in its place, each
-- of them with no shifted operand and no write-back, and an i12 form where it is a load or a store.
-- The counter of virtual registers never falls.
pub split_instr-Outcome :
    (t : Target) (v : ℕ) (mi : MachineInstr) (s : Split) → split_instr t v mi ≡ some s → Outcome v s
split_instr-Outcome t v mi s h = Ensures-some (Ensures-split_instr t v mi) h
