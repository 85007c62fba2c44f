-- ===== src/Tests/X86Returns.antt =====
-- The return types of small graphs.
use llvm_mctoll.Base.{
  ltb, ℕ, zero, suc, ◌<◌, ◌≡◌, ◌≢◌, ◌⊎◌, refl, Bool, true, false, Option, none, some, List, [], ◌∷◌,
  length, get_elem?, arith, All, ◌>>=◌, ◌==◌, if◌then◌else◌,
}
use llvm_mctoll.X86.Instr.{mem, MachineInstr, reg, call64pcrel32, other_opcode}
use llvm_mctoll.X86.InstrInfo.{
  X86AdditionalInstrInfo, mov_rr, no_prefix, xd_prefix, generic_domain, packed_double,
  find_additional_info, get_instruction_kind, is_noop,
}
use llvm_mctoll.X86.Types.{IrType, int_type, double_type, void_type, get_sse_instruction_type}
use llvm_mctoll.X86.Reaching.{set_flag, no_flags, unvisited}
use llvm_mctoll.X86.Returns.{Walked, walked, sse_def, get_return_type_from_mbb, return_def}
use llvm_mctoll.X86.Returns.Search.{ended, out_of_fuel, get_reaching_return_type, search, round}
use llvm_mctoll.X86.Returns.Ends.{get_reaching_return_type_terminates}
use llvm_mctoll.X86.Returns.Paths.{BackPath, get_reaching_return_type_sound}
use llvm_mctoll.X86.Returns.Total.{get_reaching_return_type_returns}
use llvm_mctoll.X86.Returns.Walk.{
  returns, IsDef, IsRaxDef, in_gr32, get_return_type_from_mbb-gp_def,
  get_return_type_from_mbb-sse_def,
}
use llvm_mctoll.Tests.X86Target.{test_target}

-- A loop of the blocks 1 and 2 behind block 0, and block 3 behind block 1; block 0 defines EAX.
abbrev loop_preds : List (List ℕ)
loop_preds = [] ∷ (2 ∷ 0 ∷ []) ∷ (1 ∷ []) ∷ (1 ∷ []) ∷ []

abbrev loop_probe : ℕ → Option Walked
loop_probe b = if b == 0 then some (walked (some (int_type 32)) false) else some (walked none false)

loop_runs : get_reaching_return_type loop_preds loop_probe 3 ≡ ended (some (int_type 32))
unfolding get_reaching_return_type search round set_flag no_flags unvisited
loop_runs = refl

get_reaching_return_type_terminates_example :
    get_reaching_return_type loop_preds loop_probe 3 ≢ out_of_fuel
get_reaching_return_type_terminates_example =
    get_reaching_return_type_terminates loop_preds loop_probe 3

get_reaching_return_type_sound_example :
    ((c : Bool) × (loop_probe 3 ≡ some (walked (some (int_type 32)) c)))
    ⊎ ((b : ℕ) × (c : Bool) × BackPath loop_preds loop_probe 3 b
        × (loop_probe b ≡ some (walked (some (int_type 32)) c)))
get_reaching_return_type_sound_example =
    get_reaching_return_type_sound loop_preds loop_probe 3 (int_type 32) loop_runs

-- The same in a function of four blocks.
abbrev four_probe : ℕ → Option Walked
four_probe b = if ltb b 4 then loop_probe b else none

four_probe-ne : (b : ℕ) → b < length loop_preds → four_probe b ≢ none
four_probe-ne b l e = ground arith

loop_in_range :
    (b : ℕ) (ps : List ℕ) → get_elem? loop_preds b ≡ some ps → All (λ p. p < length loop_preds) ps
loop_in_range zero ps e = ground arith
loop_in_range (suc zero) ps e = ground arith
loop_in_range (suc (suc zero)) ps e = ground arith
loop_in_range (suc (suc (suc zero))) ps e = ground arith
loop_in_range (suc (suc (suc (suc b)))) ps e = cc

get_reaching_return_type_returns_example :
    (ty : Option IrType) × (get_reaching_return_type loop_preds four_probe 3 ≡ ended ty)
get_reaching_return_type_returns_example =
    get_reaching_return_type_returns loop_preds four_probe four_probe-ne loop_in_range 3
      (omega arith)

-- A return, a move to EAX, a call and a move of a double to XMM0.
abbrev mov_table : List (ℕ × X86AdditionalInstrInfo)
mov_table = (7, record { mem_op_size = 0; inst_kind = mov_rr }) ∷ []

abbrev plain_instr : MachineInstr
plain_instr = record {
  opcode = other_opcode;
  opcode_value = 7;
  mc_inst_index = 0;
  operands = [];
  is_call = false;
  is_return = false;
  is_branch = false;
  is_unconditional_branch = false;
  is_imm_pc_rel = false;
  num_defs = 0;
  implicit_defs = [];
  op_prefix = no_prefix;
  sse_domain = generic_domain;
}

abbrev ret : MachineInstr
ret = record plain_instr { is_return = true }

abbrev mov_eax : MachineInstr
mov_eax = record plain_instr { operands = reg 31 true ∷ []; num_defs = 1 }

abbrev mov_xmm0 : MachineInstr
mov_xmm0 = record plain_instr {
  operands = reg 40 true ∷ [];
  num_defs = 1;
  op_prefix = xd_prefix;
  sse_domain = packed_double;
}

abbrev call : MachineInstr
call = record plain_instr { opcode = call64pcrel32; is_call = true }

-- The callee returns nothing.
abbrev void_callee : MachineInstr → Option (Option IrType)
void_callee i = some (some void_type)

mov_eax-IsRaxDef : IsRaxDef test_target mov_table void_callee mov_eax 31
unfolding return_def is_noop get_instruction_kind find_additional_info mem ◌>>=◌
mov_eax-IsRaxDef = record {
  no_call = refl;
  no_return = refl;
  no_padding = refl;
  no_int3 = refl;
  has_defs = refl;
  others = [];
  first = refl;
  physical = refl;
  part = refl;
}

get_return_type_from_mbb-gp_def_example :
    get_return_type_from_mbb test_target mov_table void_callee (call ∷ mov_eax ∷ ret ∷ [])
    ≡ some (walked (some (int_type 32)) false)
get_return_type_from_mbb-gp_def_example =
    get_return_type_from_mbb-gp_def test_target mov_table void_callee (call ∷ []) mov_eax (ret ∷ [])
      31 32 mov_eax-IsRaxDef (in_gr32 refl refl) (returns refl refl, tt)

mov_xmm0-IsDef : IsDef test_target mov_table void_callee mov_xmm0 sse_def
unfolding return_def is_noop get_instruction_kind find_additional_info mem ◌>>=◌
mov_xmm0-IsDef = record {
  no_call = refl;
  no_return = refl;
  no_padding = refl;
  no_int3 = refl;
  defines = refl;
}

get_return_type_from_mbb-sse_def_example :
    get_return_type_from_mbb test_target mov_table void_callee (call ∷ mov_xmm0 ∷ ret ∷ [])
    ≡ (do callee ← void_callee call; some (walked callee true))
unfolding get_sse_instruction_type
get_return_type_from_mbb-sse_def_example =
    get_return_type_from_mbb-sse_def test_target mov_table void_callee [] call mov_xmm0 (ret ∷ [])
      double_type refl mov_xmm0-IsDef refl (returns refl refl, tt)
