-- ===== src/Tests/VsaConstants.antt =====
-- The value-set analysis on concrete calls.
use llvm_mctoll.Base.{◌≡◌, ◌-◌, ◌^◌, refl, true, List, [], ◌∷◌, some}
use llvm_mctoll.Ric.Defs.{make_ric}
use llvm_mctoll.Base.Word.{add64, mul64}
use llvm_mctoll.Vsa.Aloc.{AlocType, register_aloc, address_aloc, global_mem_loc_ty, eq_aloc}
use llvm_mctoll.Vsa.ValueSet.{pair}
use llvm_mctoll.Vsa.Analysis.{AlocToVsMap, find, get_constant_value}
use llvm_mctoll.Vsa.Facts.{
  Command, assign_const, add_src_times, add_imm, xor_src, run, run_all, meaning, meaning_all,
}
use llvm_mctoll.Vsa.Constants.{run_all-meaning_all}
use llvm_mctoll.Vsa.Frame.{run-find}

abbrev rax : AlocType
rax = register_aloc 49

abbrev counter : AlocType
counter = address_aloc global_mem_loc_ty 4096

-- counter = 5; rax ^= rax; rax += counter * 8; rax += -2
abbrev program : List Command
program =
    assign_const counter (some 5)
    ∷ xor_src rax rax
    ∷ add_src_times rax counter 8
    ∷ add_imm rax (2 ^ 64 - 2)
    ∷ []

run_all-meaning_all_example :
    ((run_all program []).0 ≡ true ∷ true ∷ true ∷ true ∷ [])
    × (get_constant_value (run_all program []).1 rax ≡ some 38)
unfolding meaning_all meaning eq_aloc add64 mul64
run_all-meaning_all_example = run_all-meaning_all program rax

-- A location that holds a strided set stays as it is.
abbrev strided : AlocToVsMap
strided = (counter, pair 0 (make_ric 4 0 10 8) ∷ []) ∷ []

run-find_example : find (run (add_src_times rax counter 8) strided).1 counter ≡ find strided counter
unfolding eq_aloc
run-find_example = run-find (add_src_times rax counter 8) strided counter refl
