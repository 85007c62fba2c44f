-- ===== src/Tests/X86Callee.antt =====
-- A call to a function of the module.
use llvm_mctoll.Base.{
  ℕ, ◌*◌, ◌+◌, ◌≡◌, ◌≢◌, ◌≤◌, refl, true, false, Option, none, some, [], ◌∷◌, arith, ◌>>=◌,
}
use llvm_mctoll.Base.Word.{add64}
use llvm_mctoll.Mc.Cell.{of_inst}
use llvm_mctoll.Mc.Raiser.{McInstRaiser, get_mc_inst_size}
use llvm_mctoll.Mc.Offsets.{
  IsInBlock, get_mbb_number_of_mc_inst_offset, mbb_around, size_in_bytes,
  get_mbb_number_of_mc_inst_offset-IsInBlock,
}
use llvm_mctoll.ModuleRaiser.Relocs.{RelocatedSection, find_address, get_text_section_address}
use llvm_mctoll.ModuleRaiser.Functions.{RaisedFunction, FunctionRaiser}
use llvm_mctoll.X86.InstrInfo.{no_prefix, generic_domain}
use llvm_mctoll.X86.Instr.{MachineInstr, call64pcrel32, Operand}
use llvm_mctoll.X86.Callee.{ModuleView, get_called_function, get_called_function-raised}

-- The text section is at 4096; the functions start at 16 and 32 behind it.
abbrev callee_function : ℕ → FunctionRaiser
callee_function k = record {
  func_start = 16 * k;
  raised_function = some (record { pointer = 1000 + k; name = 70 + k });
}

abbrev module_view : ModuleView ℕ
module_view = record {
  is_elf = true;
  sections =
      record {
        index = 1;
        address = 4096;
        relocated_section = RelocatedSection.section_end;
        relocations = [];
      }
      ∷ [];
  text_info = record { text_section_index = some 1; text_relocs = [] };
  raisers = callee_function 1 ∷ callee_function 2 ∷ [];
  filter = record { excluded = []; included = [] };
}

-- A call at 20, of 5 bytes.
abbrev caller : McInstRaiser ℕ
caller = record {
  inst_map = (20, of_inst 0) ∷ (25, of_inst 0) ∷ [];
  target_indices = [];
  func_start = 16;
  func_end = 31;
  data_in_code = false;
}

abbrev call_second : MachineInstr
call_second = record {
  opcode = call64pcrel32;
  opcode_value = 0;
  mc_inst_index = 20;
  operands = Operand.imm 7 ∷ [];
  is_call = true;
  is_return = false;
  is_branch = false;
  is_unconditional_branch = false;
  is_imm_pc_rel = true;
  num_defs = 0;
  implicit_defs = [];
  op_prefix = no_prefix;
  sse_domain = generic_domain;
}

abbrev no_plt : ℕ → Option (Option RaisedFunction)
no_plt offset = some none

starts_apart : (callee_function 2).func_start ≢ (callee_function 1).func_start
starts_apart e = omega arith

get_called_function-raised_example :
    get_called_function caller module_view no_plt call_second
    ≡ some (some (record { pointer = 1002; name = 72 }))
unfolding get_mc_inst_size get_text_section_address find_address add64 ◌>>=◌
get_called_function-raised_example =
    get_called_function-raised caller module_view no_plt call_second 7 5 4096 1 (callee_function 2)
      (record { pointer = 1002; name = 72 }) refl refl refl refl refl
      (omega arith, (starts_apart, tt), (omega arith, tt, tt)) refl refl refl

-- The offset 25 lies in block 0, which starts at 20.
get_mbb_number_of_mc_inst_offset-IsInBlock_example :
    (16 ≤ 25) × (25 ≤ 31) × IsInBlock caller ((20, 0) ∷ []) ((20 ∷ 25 ∷ []) ∷ []) 25 0
unfolding get_mbb_number_of_mc_inst_offset mbb_around size_in_bytes get_mc_inst_size add64 ◌>>=◌
get_mbb_number_of_mc_inst_offset-IsInBlock_example =
    get_mbb_number_of_mc_inst_offset-IsInBlock caller ((20, 0) ∷ []) ((20 ∷ 25 ∷ []) ∷ []) 25 0 refl
