-- ===== src/X86/Callee.antt =====
-- getBranchTargetMBBNumber and getCalledFunction of X86/X86FuncPrototypeDiscovery.cpp. Offsets are
-- 64-bit words; a pointer to an LLVM function is that of the raised functions of a module.
use llvm_mctoll.Base.{
  ℕ, ◌≡◌, sym, ap, ◌∙◌, arith, if◌then◌else◌, Bool, true, false, Option, none, some, List, ◌∷◌,
  get_elem?, assert, ◌>>=◌, ◌>>◌,
}
use llvm_mctoll.Base.Word.{add64}
use llvm_mctoll.Mc.Raiser.{McInstRaiser, get_mc_inst_size}
use llvm_mctoll.Mc.Offsets.{get_mbb_number_of_mc_inst_offset}
use llvm_mctoll.Filter.Lists.{FunctionFilter, find_function_by_index}
use llvm_mctoll.ModuleRaiser.Relocs.{Section, TextInfo, get_text_section_address}
use llvm_mctoll.ModuleRaiser.Functions.{
  RaisedFunction, FunctionRaiser, get_raised_function_at, get_called_function_using_text_reloc,
}
use llvm_mctoll.ModuleRaiser.Lookup.{DistinctStarts, get_raised_function_at-get_elem?}
use llvm_mctoll.X86.Instr.{Operand, imm, X86Opcode, call64pcrel32, jmp_1, jmp_4, MachineInstr}

-- The immediate of the first operand.
abbrev pub branch_offset : List Operand → Option ℕ
branch_offset (imm n ∷ ops) = some n
branch_offset _ = none

abbrev pub is_pc_rel_transfer : X86Opcode → Bool
is_pc_rel_transfer call64pcrel32 = true
is_pc_rel_transfer jmp_1 = true
is_pc_rel_transfer jmp_4 = true
is_pc_rel_transfer _ = false

-- The first that is found.
abbrev pub or_find :
    Option RaisedFunction → Option (Option RaisedFunction) → Option (Option RaisedFunction)
or_find (some f) next = some (some f)
or_find none next = next

-- What a module raiser knows, as far as a call needs it.
pub record ModuleView (FunctionType : Type 0) : Type 0 where
  pub is_elf : Bool
  pub sections : List Section
  pub text_info : TextInfo
  pub raisers : List FunctionRaiser
  pub filter : FunctionFilter FunctionType RaisedFunction

regroup : (a b c d : ℕ) → add64 (add64 (add64 a b) c) d ≡ add64 (add64 (add64 a c) d) b
unfolding add64
regroup a b c d = omega arith

module _ {Inst : Type 0} (r : McInstRaiser Inst) where
  abbrev pub direct_target :
      List (ℕ × ℕ) → List (List ℕ) → MachineInstr → Option ℕ → Option (Option ℕ)
  direct_target inst_to_mbb_num blocks i none = some none
  direct_target inst_to_mbb_num blocks i (some offset) =
      if i.is_imm_pc_rel
      then (do
        size ← get_mc_inst_size r i.mc_inst_index
        get_mbb_number_of_mc_inst_offset r inst_to_mbb_num blocks
            (add64 (add64 i.mc_inst_index size) offset))
      else some none

  -- `none` inside is -1.
  unfoldable pub get_branch_target_mbb_number :
      List (ℕ × ℕ) → List (List ℕ) → MachineInstr → Option (Option ℕ)
  get_branch_target_mbb_number inst_to_mbb_num blocks i =
      if i.is_branch
      then direct_target inst_to_mbb_num blocks i (branch_offset i.operands)
      else some none

  module _ {FunctionType : Type 0} (mr : ModuleView FunctionType)
      (get_target_function_at_plt_offset : ℕ → Option (Option RaisedFunction)) where
    -- The four searches, for a call of `size` bytes to an offset from its end.
    abbrev pub search_callee : ℕ → ℕ → ℕ → ℕ → Option (Option RaisedFunction)
    search_callee index size text rel = do
      raised ←
          get_raised_function_at mr.is_elf mr.sections mr.text_info mr.raisers
            (add64 (add64 (add64 index text) size) rel)
      or_find raised (
          or_find (find_function_by_index (add64 (add64 index rel) size) mr.filter.excluded) (do
            by_reloc ←
                get_called_function_using_text_reloc mr.text_info.text_relocs mr.raisers index size
            or_find by_reloc
                (get_target_function_at_plt_offset (add64 (add64 (add64 index text) size) rel))))

    -- `none` inside is nullptr, outside a failed assertion.
    unfoldable pub get_called_function : MachineInstr → Option (Option RaisedFunction)
    get_called_function i =
        if is_pc_rel_transfer i.opcode
        then (do
          assert i.is_imm_pc_rel
          rel ← branch_offset i.operands
          size ← get_mc_inst_size r i.mc_inst_index
          text ← get_text_section_address mr.is_elf mr.sections mr.text_info
          search_callee i.mc_inst_index size text rel)
        else some none

    -- A call that goes to the start of a function of the module finds that function, where it is
    -- raised and the functions start at different words: the filter, the relocations and the PLT do
    -- not count.
    pub get_called_function-raised :
        (i : MachineInstr) (rel size text n : ℕ) (m : FunctionRaiser) (f : RaisedFunction)
        → is_pc_rel_transfer i.opcode ≡ true
        → i.is_imm_pc_rel ≡ true
        → branch_offset i.operands ≡ some rel
        → get_mc_inst_size r i.mc_inst_index ≡ some size
        → get_text_section_address mr.is_elf mr.sections mr.text_info ≡ some text
        → DistinctStarts mr.raisers
        → get_elem? mr.raisers n ≡ some m
        → m.raised_function ≡ some f
        → m.func_start ≡ add64 (add64 i.mc_inst_index size) rel
        → get_called_function i ≡ some (some f)
    unfolding get_called_function ◌>>=◌
    get_called_function-raised i rel size text n m f o p e s t d g k start =
        let target = regroup i.mc_inst_index text size rel ∙ ap (λ z. add64 z text) (sym start) in
        let found =
          get_raised_function_at-get_elem? mr.is_elf mr.sections mr.text_info text mr.raisers n m t
            d g in
        simp (o, p, e, s, t, target, found, k)
