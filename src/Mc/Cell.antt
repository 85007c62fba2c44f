-- ===== src/Mc/Cell.antt =====
-- MCInstOrData: a union of 32-bit data and an instruction, with a tag. The type of instructions is
-- LLVM's, a parameter.
use llvm_mctoll.Base.{ℕ, ◌≡◌, refl, if◌then◌else◌, Bool, true, false, ◌&&◌, Option, none, some}

pub data Tag : Type 0 where
  data_tag instruction_tag : Tag

-- What the bytes of the union hold.
pub data Payload (Inst : Type 0) : Type 0 where
  data_bytes : ℕ → Payload Inst
  inst_object : Inst → Payload Inst

pub record McInstOrData (Inst : Type 0) : Type 0 where
  pub tag : Tag
  pub payload : Payload Inst

abbrev pub is_data_tag : Tag → Bool
is_data_tag data_tag = true
is_data_tag instruction_tag = false

abbrev pub is_instruction_tag : Tag → Bool
is_instruction_tag data_tag = false
is_instruction_tag instruction_tag = true

module _ {Inst : Type 0} where
  -- MCInstOrData(const MCInst &)
  abbrev pub of_inst : Inst → McInstOrData Inst
  of_inst i = record { tag = instruction_tag; payload = inst_object i }

  -- MCInstOrData(const uint32_t)
  abbrev pub of_data : ℕ → McInstOrData Inst
  of_data n = record { tag = data_tag; payload = data_bytes n }

  abbrev pub is_data : McInstOrData Inst → Bool
  is_data e = is_data_tag e.tag

  abbrev pub is_mc_inst : McInstOrData Inst → Bool
  is_mc_inst e = is_instruction_tag e.tag

  abbrev pub inst_of : Payload Inst → Option Inst
  inst_of (data_bytes n) = none
  inst_of (inst_object i) = some i

  -- `none` where the union holds no instruction, which C++ leaves undefined.
  abbrev pub get_mc_inst : McInstOrData Inst → Option Inst
  get_mc_inst e = inst_of e.payload

  -- operator=. The tag is written only where an instruction is copied over data.
  unfoldable pub assign_cell : McInstOrData Inst → McInstOrData Inst → McInstOrData Inst
  assign_cell target e =
      if is_mc_inst target && is_mc_inst e
      then record target { payload = e.payload }
      else if is_data e
      then record target { payload = e.payload }
      else record { tag = e.tag; payload = e.payload }

  -- A copy is the cell that was assigned, except for data assigned over an instruction: that leaves
  -- a cell with the tag of an instruction, whose instruction cannot be read.
  pub assign_cell_lem :
      (i j : Inst) (m n : ℕ)
      → (assign_cell (of_data m) (of_data n) ≡ of_data n)
        × (assign_cell (of_data m) (of_inst j) ≡ of_inst j)
        × (assign_cell (of_inst i) (of_inst j) ≡ of_inst j)
        × (is_mc_inst (assign_cell (of_inst i) (of_data n)) ≡ true)
        × (get_mc_inst (assign_cell (of_inst i) (of_data n)) ≡ none)
  unfolding assign_cell
  assign_cell_lem i j m n = (refl, refl, refl, refl, refl)
