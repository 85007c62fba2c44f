-- ===== src/Arm/Frame/Build.antt =====
-- ARM/ARMFrameBuilder.cpp: replaceNonSPBySP and searchStackObjects. The maps by pointers are written
-- as marks on the instructions. `none` is a failed assertion of LLVM's accessors.
use llvm_mctoll.Base.{
  ℕ, zero, suc, ◌+◌, length, if◌then◌else◌, Bool, true, false, ◌||◌, Option, none, some, ◌>>=◌,
  List, [], ◌∷◌, ◌++◌,
}
use llvm_mctoll.Base.Int.{ℤ, pos, ltb_ℤ}
use llvm_mctoll.Arm.Opcode.{is_mov_r}
use llvm_mctoll.Arm.Target.{Register, sp, same_register, Operand, reg, frame_index, MachineInstr}
use llvm_mctoll.Arm.Builder.{get_operand, eqb_ℤ}
use llvm_mctoll.Arm.Frame.Identify.{
  StackObject, FrameInfo, nonneg, identify_stack_op, get_bit_count, is_halfword_op,
}

-- What LLVM says of an instruction and of the target.
pub record Layout : Type 0 where
  -- The number of explicit definitions, which stand first: `defs()` and, behind them, `uses()`.
  pub num_explicit_defs : MachineInstr → ℕ
  pub log_stack_align : ℕ

abbrev pub is_among : Register → List Register → Bool
is_among r [] = false
is_among r (q ∷ qs) = same_register r q || is_among r qs

abbrev pub erase_register : Register → List Register → List Register
erase_register r [] = []
erase_register r (q ∷ qs) =
    let rest = erase_register r qs in if same_register r q then rest else q ∷ rest

abbrev pub replace_operand : List Register → Operand → Operand
replace_operand regs (reg r d) = if is_among r regs then reg sp false else reg r d
replace_operand regs mo = mo

abbrev pub replace_operands : List Register → List Operand → List Operand
replace_operands regs [] = []
replace_operands regs (mo ∷ mos) = replace_operand regs mo ∷ replace_operands regs mos

-- The loop over `uses()`: the operands behind the definitions.
abbrev pub replace_uses : List Register → ℕ → List Operand → List Operand
replace_uses regs zero mos = replace_operands regs mos
replace_uses regs (suc n) [] = []
replace_uses regs (suc n) (mo ∷ mos) = mo ∷ replace_uses regs n mos

abbrev pub erase_operand : Operand → List Register → List Register
erase_operand (reg r d) regs = erase_register r regs
erase_operand _ regs = regs

-- The loop over `defs()`.
abbrev pub erase_defs : ℕ → List Operand → List Register → List Register
erase_defs zero mos regs = regs
erase_defs (suc n) [] regs = regs
erase_defs (suc n) (mo ∷ mos) regs = erase_defs n mos (erase_operand mo regs)

abbrev pub is_sp_operand : Operand → Bool
is_sp_operand (reg r d) = same_register r sp
is_sp_operand _ = false

abbrev pub def_register : Operand → Option Register
def_register (reg r true) = some r
def_register _ = none

-- The register that `mov Rd, sp` defines.
unfoldable pub moved_register : MachineInstr → Option (Option Register)
moved_register mi =
    if is_mov_r mi.opcode
    then (do
      src ← get_operand mi 1
      if is_sp_operand src then (do dst ← get_operand mi 0; some (def_register dst)) else some none)
    else some none

-- RegAssignedBySP and SPOffElementMap, whose keys descend.
pub record Search : Type 0 where
  pub assigned : List Register
  pub elements : List (ℤ × ℕ)

-- The map's count and insert.
abbrev pub add_element : ℤ → ℕ → List (ℤ × ℕ) → List (ℤ × ℕ)
add_element off size [] = (off, size) ∷ []
add_element off size ((k, s) ∷ m) =
    let rest = add_element off size m in
    if eqb_ℤ off k
    then (k, s) ∷ m
    else if ltb_ℤ k off
    then (off, size) ∷ (k, s) ∷ m
    else (k, s) ∷ rest

-- An instruction with the offset of its stack element, if it has one.
pub record Marked : Type 0 where
  pub instr : MachineInstr
  pub slot : Option ℤ

-- The place of an offset among the elements, counted from `start`.
abbrev pub slot_index : ℤ → ℕ → List (ℤ × ℕ) → Option ℕ
slot_index off start [] = none
slot_index off start ((k, s) ∷ m) =
    let rest = slot_index off (start + 1) m in if eqb_ℤ off k then some start else rest

abbrev pub object_of : ℤ × ℕ → StackObject
object_of (k, s) = record { size = s; sp_offset = k }

-- CreateStackObject and setObjectOffset for each element.
abbrev pub create_objects : List StackObject → List (ℤ × ℕ) → List StackObject
create_objects objects [] = objects
create_objects objects (e ∷ es) = create_objects (objects ++ object_of e ∷ []) es

-- ChangeToFrameIndex of operand 1, removeOperand(3) of a halfword access, removeOperand(2).
abbrev pub place_operands : Bool → ℕ → List Operand → Option (List Operand)
place_operands true i (dest ∷ base ∷ index ∷ offset ∷ mos) = some (dest ∷ frame_index (pos i) ∷ mos)
place_operands false i (dest ∷ base ∷ offset ∷ mos) = some (dest ∷ frame_index (pos i) ∷ mos)
place_operands _ i _ = none

abbrev pub no_search : Search
no_search = record { assigned = []; elements = [] }

-- push_back of an instruction that stays, with its mark.
abbrev pub keep_marked : Option Marked → List Marked → List Marked
keep_marked none ms = ms
keep_marked (some m) ms = m ∷ ms

module _ (layout : Layout) (fi : FrameInfo) where
  abbrev pub replace_sp_uses : List Register → MachineInstr → MachineInstr
  replace_sp_uses regs mi = record mi {
    operands = replace_uses regs (layout.num_explicit_defs mi) mi.operands;
  }

  -- The end of the loop's body: the element of the instruction.
  abbrev pub mark_at : Search → MachineInstr → ℤ → Search × Option Marked
  mark_at s mi off =
      if nonneg off
      then (
        record s {
          elements = add_element off (get_bit_count layout.log_stack_align mi.opcode) s.elements;
        },
        some (record { instr = mi; slot = some off }),
      )
      else (s, some (record { instr = mi; slot = none }))

  unfoldable pub mark : Search → MachineInstr → Option (Search × Option Marked)
  mark s mi = do off ← identify_stack_op fi mi; some (mark_at s mi off)

  -- The body of the loop: `none` as the mark of an instruction that goes on the list of removals.
  abbrev pub visit_moved : Option Register → Search → MachineInstr → Option (Search × Option Marked)
  visit_moved (some r) s mi = some (record s { assigned = s.assigned ++ r ∷ [] }, none)
  visit_moved none s mi =
      mark (record s { assigned = erase_defs (layout.num_explicit_defs mi) mi.operands s.assigned })
        (replace_sp_uses s.assigned mi)

  unfoldable pub visit : Search → MachineInstr → Option (Search × Option Marked)
  visit s mi = do moved ← moved_register mi; visit_moved moved s mi

  unfoldable pub visit_block : Search → List MachineInstr → Option (Search × List Marked)
  visit_block s [] = some (s, [])
  visit_block s (mi ∷ mis) = do
    (s', m) ← visit s mi
    (s'', ms) ← visit_block s' mis
    some (s'', keep_marked m ms)

  unfoldable pub visit_blocks :
      Search → List (List MachineInstr) → Option (Search × List (List Marked))
  visit_blocks s [] = some (s, [])
  visit_blocks s (b ∷ bs) = do
    (s', ms) ← visit_block s b
    (s'', mss) ← visit_blocks s' bs
    some (s'', ms ∷ mss)

  -- The loop over InstrToElementMap, for one instruction.
  abbrev pub place_slot : List (ℤ × ℕ) → MachineInstr → Option ℤ → Option MachineInstr
  place_slot elements mi none = some mi
  place_slot elements mi (some off) = do
    i ← slot_index off (length fi.objects) elements
    mos ← place_operands (is_halfword_op mi.opcode) i mi.operands
    some (record mi { operands = mos })

  unfoldable pub place_block : List (ℤ × ℕ) → List Marked → Option (List MachineInstr)
  place_block elements [] = some []
  place_block elements (m ∷ ms) = do
    mi ← place_slot elements m.instr m.slot
    mis ← place_block elements ms
    some (mi ∷ mis)

  unfoldable pub place_blocks :
      List (ℤ × ℕ) → List (List Marked) → Option (List (List MachineInstr))
  place_blocks elements [] = some []
  place_blocks elements (ms ∷ mss) = do
    b ← place_block elements ms
    bs ← place_blocks elements mss
    some (b ∷ bs)

  unfoldable pub search_stack_objects :
      List (List MachineInstr) → Option (List (List MachineInstr) × FrameInfo)
  search_stack_objects mf = do
    (s, marked) ← visit_blocks no_search mf
    mf' ← place_blocks s.elements marked
    some (mf', record fi { objects = create_objects fi.objects s.elements })
