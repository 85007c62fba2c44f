-- ===== src/Arm/Prolog/Spill.antt =====
-- eliminateProlog: which registers are saved, and the stack slots that they get where the target
-- leaves that to the generic code. An index of LLVM's stack objects is negative for a fixed object.
use llvm_mctoll.Base.{
  ℕ, ◌+◌, ◌%◌, ◌^◌, if◌then◌else◌, length, Bool, false, ◌||◌, ◌&&◌, Option, none, some, List, [],
  ◌∷◌, ◌++◌,
}
use llvm_mctoll.Base.Int.{ℤ, pos, negsuc, ◌-ℤ◌}
use llvm_mctoll.Arm.Target.{Register, same_register, Operand, MachineInstr, Target}
use llvm_mctoll.Arm.Frame.Identify.{StackObject}
use llvm_mctoll.Arm.Prolog.Conditions.{is_register}

abbrev pub has_register : Register → List Operand → Bool
has_register r [] = false
has_register r (mo ∷ mos) = is_register r mo || has_register r mos

-- The frame's objects, those that are fixed, and the saved registers with the indices of their slots.
pub record Spills : Type 0 where
  pub objects : List StackObject
  pub fixed : List StackObject
  pub saved : List (Register × ℤ)

-- What the generic code asks of the target: a reserved slot, the fixed slots with their offsets, and
-- the size of a spilled register. Alignments do not change what is modelled here.
pub record SpillTarget : Type 0 where
  pub callee_saved_regs : List Register
  pub has_reserved_spill_slot : Register → Option ℤ
  pub callee_saved_spill_slots : List (Register × ℤ)
  pub get_spill_size : Register → ℕ
  -- assignCalleeSavedSpillSlots: `none` where it returns false.
  pub assign_callee_saved_spill_slots : Spills → List Register → Option Spills

module _ (t : Target) where
  unfoldable pub check_register : Register → List MachineInstr → Bool
  check_register r [] = false
  check_register r (mi ∷ mis) =
      (t.may_store mi.opcode && has_register r mi.operands) || check_register r mis

  unfoldable pub saved_registers : List Register → List MachineInstr → List Register
  saved_registers [] instrs = []
  saved_registers (r ∷ rs) instrs =
      let rest = saved_registers rs instrs in if check_register r instrs then r ∷ rest else rest

abbrev pub find_slot : Register → List (Register × ℤ) → Option ℤ
find_slot r [] = none
find_slot r ((q, off) ∷ slots) =
    let rest = find_slot r slots in if same_register q r then some off else rest

module _ (st : SpillTarget) where
  -- A slot at a fixed offset, or one below the slots so far: the new offset counter comes with it.
  abbrev pub fixed_or_new : Register → Option ℤ → ℕ → Spills → ℕ × Spills
  fixed_or_new r (some off) offset sp = (
    offset,
    record sp {
      fixed = record { size = st.get_spill_size r; sp_offset = off } ∷ sp.fixed;
      saved = sp.saved ++ (r, negsuc (length sp.fixed)) ∷ [];
    },
  )
  fixed_or_new r none offset sp =
      let below = (offset + st.get_spill_size r) % 2 ^ 32 in
      (
        below,
        record sp {
          objects =
              sp.objects
              ++ record { size = st.get_spill_size r; sp_offset = pos 0 -ℤ pos below } ∷ [];
          saved = sp.saved ++ (r, pos (length sp.objects)) ∷ [];
        },
      )

  abbrev pub reserved_or : Register → Option ℤ → ℕ → Spills → ℕ × Spills
  reserved_or r (some idx) offset sp = (offset, record sp { saved = sp.saved ++ (r, idx) ∷ [] })
  reserved_or r none offset sp = fixed_or_new r (find_slot r st.callee_saved_spill_slots) offset sp

  unfoldable pub allocate_slots : List Register → ℕ → Spills → Spills
  allocate_slots [] offset sp = sp
  allocate_slots (r ∷ rs) offset sp =
      let (offset', sp') = reserved_or r (st.has_reserved_spill_slot r) offset sp in
      allocate_slots rs offset' sp'
