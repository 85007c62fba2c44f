-- ===== src/Tests/Modules.antt =====
-- The module raiser at concrete relocations and functions.
use llvm_mctoll.Base.{
  ℕ, ◌+◌, ◌*◌, ◌≡◌, ◌≢◌, refl, true, false, List, [], ◌∷◌, none, some, ◌>>=◌, arith, suc,
}
use llvm_mctoll.Base.Word.{add64}
use llvm_mctoll.ModuleRaiser.Registry.{
  RegisteredRaiser, is_supported_arch, get_module_raiser, register_module_raiser,
}
use llvm_mctoll.ModuleRaiser.Relocs.{
  Relocation, RelocatedSection, Section, TextInfo, insert_by_offset, sort_by_offset, collect_from,
  collect_text_section_relocs, get_text_reloc_at_offset,
}
use llvm_mctoll.ModuleRaiser.Search.{
  FoundAt, HasTextRelocs, Sorted, collect_text_section_relocs-FoundAt,
}
use llvm_mctoll.ModuleRaiser.Functions.{
  FunctionRaiser, called_function, get_called_function_using_text_reloc,
}
use llvm_mctoll.ModuleRaiser.Lookup.{get_called_function_using_text_reloc-own}
use llvm_mctoll.ModuleRaiser.Passes.{
  PassCalls, prototyped, run_all_raiser_passes, run_machine_function_passes,
  run_machine_function_passes-true,
}

abbrev reloc : ℕ → ℕ → Relocation
reloc off name = record { offset = off; symbol_name = some name }

abbrev text : Section
text = record {
  index = 1;
  address = 4096;
  relocated_section = RelocatedSection.section_end;
  relocations = [];
}

-- .rela.text, not in order
abbrev rela_text : Section
rela_text = record {
  index = 2;
  address = 0;
  relocated_section = RelocatedSection.section_at 1;
  relocations = reloc 21 72 ∷ reloc 7 71 ∷ [];
}

abbrev before_info : TextInfo
before_info = record { text_section_index = none; text_relocs = [] }

abbrev after_info : TextInfo
after_info = record { text_section_index = some 1; text_relocs = reloc 7 71 ∷ reloc 21 72 ∷ [] }

collect_text_section_relocs-FoundAt_example :
    HasTextRelocs (text ∷ rela_text ∷ []) text after_info
    × FoundAt 20 5 after_info.text_relocs (get_text_reloc_at_offset after_info.text_relocs 20 5)
unfolding collect_text_section_relocs collect_from sort_by_offset insert_by_offset ◌>>=◌
collect_text_section_relocs-FoundAt_example =
    collect_text_section_relocs-FoundAt (text ∷ rela_text ∷ []) before_info after_info text true 20
      5 refl refl (omega arith)

abbrev function : ℕ → FunctionRaiser
function k = record {
  func_start = 16 * k;
  raised_function = some (record { pointer = 1000 + k; name = 70 + k });
}

abbrev functions : List FunctionRaiser
functions = function 1 ∷ function 2 ∷ []

apart : (function 2).func_start ≢ (function 1).func_start
apart e = omega arith

Sorted-relocs : Sorted (reloc 7 71 ∷ reloc 21 72 ∷ [])
Sorted-relocs = ((omega arith, tt), (tt, tt))

-- The call at 6, of 5 bytes, has the relocation at 7.
get_called_function_using_text_reloc-own_example :
    get_called_function_using_text_reloc after_info.text_relocs functions 6 5
    ≡ called_function functions (some (reloc 7 71))
unfolding get_text_reloc_at_offset add64
get_called_function_using_text_reloc-own_example =
    get_called_function_using_text_reloc-own 6 5 (omega arith) after_info.text_relocs functions
      (reloc 7 71) Sorted-relocs refl

-- Every pass fails, and no prototype is found; the state counts the calls.
abbrev failing : PassCalls ℕ ℕ
failing = record {
  build_machine_cfg = λ r s. suc s;
  has_raised_function = λ s r. false;
  raise_prototype = λ r s. (false, suc s);
  run_raiser_passes = λ r s. (false, suc s);
}

run_machine_function_passes-true_example :
    run_machine_function_passes failing (0 ∷ 1 ∷ []) 0
    ≡ some (
      true,
      (run_all_raiser_passes failing true (0 ∷ 1 ∷ []) (prototyped failing (0 ∷ 1 ∷ []) 0)).1,
    )
run_machine_function_passes-true_example = run_machine_function_passes-true failing (0 ∷ 1 ∷ []) 0

abbrev arm_raiser : RegisteredRaiser
arm_raiser = record { address = 500; arch_type = 1 }

abbrev x86_raiser : RegisteredRaiser
x86_raiser = record { address = 600; arch_type = 32 }

registered :
    get_module_raiser (register_module_raiser (arm_raiser ∷ []) x86_raiser) 32 ≡ some x86_raiser
unfolding get_module_raiser register_module_raiser
registered = refl

supported : is_supported_arch (arm_raiser ∷ x86_raiser ∷ []) 5 ≡ false
unfolding is_supported_arch
supported = refl
